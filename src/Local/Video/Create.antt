-- ===== src/Local/Video/Create.antt =====
-- apps/local-node/src/main.rs: the request that creates a video job.
use ozon_rust_suite.Common.{
  ℕ, ◌≡◌, refl, not, [], Option, none, some, Text, text, Result, ok, err, ◌>>◌, require, arith,
  Result-cases, inl, inr,
}
use ozon_rust_suite.Common.Assoc.{nat_key, lookup, insert, lookup-insert_self}
use ozon_rust_suite.Common.Unicode.{trim, is_empty}
use ozon_rust_suite.Domain.Task.{Uuid}
use ozon_rust_suite.Local.{ApiError, bad_request, LocalConfig}
use ozon_rust_suite.Local.Access.{Headers, require_bridge_or_operator_token}
use ozon_rust_suite.Local.Video.{VideoJob, queued, Jobs, clamp_video_duration, trimmed}

pub record VideoCreateRequestBody : Type 0 where
  pub first_frame_url : Text
  pub last_frame_url : Option Text
  pub prompt : Option Text
  pub duration_seconds : Option ℕ

abbrev pub or_default : Option Text → Text
or_default none = []
or_default (some s) = s

-- The job of a request that the provider took under an identifier, made at a time.
unfoldable pub new_job : Uuid → Text → VideoCreateRequestBody → Text → VideoJob
new_job id now input provider_job_id = record {
  id = id;
  status = queued;
  provider_job_id = some provider_job_id;
  video_url = none;
  error = none;
  created_at = now;
  updated_at = now;
  first_frame_url = trim input.first_frame_url;
  last_frame_url = trimmed input.last_frame_url;
  prompt = or_default (trimmed input.prompt);
  duration_seconds = clamp_video_duration input.duration_seconds;
}

-- `lease` is what the lease check answers, `provider` is `video_create_job`: from the prompt, the
-- frames and the duration.
module _ (config : LocalConfig) (lease : Result ApiError (Unit {0}))
    (provider : Text → Text → Option Text → ℕ → Result ApiError Text) where
  unfoldable pub provider_job : Headers → VideoCreateRequestBody → Result ApiError Text
  provider_job headers input = do
    require_bridge_or_operator_token config headers
    lease
    require (not (is_empty (trim input.first_frame_url)))
        (bad_request (text "first_frame_url is required"))
    provider (or_default (trimmed input.prompt)) (trim input.first_frame_url)
        (trimmed input.last_frame_url) (clamp_video_duration input.duration_seconds)

  unfoldable pub video_create :
      Uuid → Text → Headers → VideoCreateRequestBody → Jobs → Jobs × Result ApiError VideoJob
  video_create id now headers input jobs = elim (provider_job headers input) [
    | err e ↦ (jobs, err e)
    | ok provider_job_id ↦
        let job = new_job id now input provider_job_id in (insert id job jobs, ok job)
  ]

  pub video_create-eq-ok :
      (id : Uuid) (now : Text) (headers : Headers) (input : VideoCreateRequestBody)
      (jobs jobs' : Jobs) (job : VideoJob)
      → video_create id now headers input jobs ≡ (jobs', ok job)
      → (lookup id jobs' ≡ some job) × (job.status ≡ queued)
  unfolding video_create new_job
  video_create-eq-ok id now headers input jobs jobs' job h =
      elim (Result-cases (provider_job headers input)) [
        | inr (e, q) ↦ absurd (ground (arith, h, q))
        | inl (name, q) ↦
            let made : job ≡ new_job id now input name = ground (arith, h, q) in
            let stored : jobs' ≡ insert id (new_job id now input name) jobs =
              ground (arith, h, q) in
            (
              rw (stored, made) (lookup-insert_self id (new_job id now input name) jobs),
              rw made refl,
            )
      ]
