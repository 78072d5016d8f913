-- ===== src/Local/Video.antt =====
-- apps/local-node/src/main.rs: the video jobs, and the task in the background that polls the provider
-- for one of them.
pub mod Polling
pub mod Create
use ozon_rust_suite.Common.{
  ℕ, zero, suc, ◌+◌, Bool, true, false, not, ◌&&◌, ◌||◌, List, [], ◌∷◌, Option, none, some, Text,
  text, text_eq, Result, ok, err, ltb, if◌then◌else◌, any, is_some,
}
use ozon_rust_suite.Common.Assoc.{nat_key, lookup, insert}
use ozon_rust_suite.Common.Unicode.{trim, is_empty, to_ascii_lowercase}
use ozon_rust_suite.Domain.Task.{Uuid}
use ozon_rust_suite.Local.{ApiError}

pub data VideoStatus : Type 0 where
  queued running succeeded failed : VideoStatus

abbrev pub is_terminal : VideoStatus → Bool
is_terminal succeeded = true
is_terminal failed = true
is_terminal _ = false

pub record VideoJob : Type 0 where
  pub id : Uuid
  pub status : VideoStatus
  pub provider_job_id : Option Text
  pub video_url : Option Text
  pub error : Option Text
  pub created_at : Text
  pub updated_at : Text
  pub first_frame_url : Text
  pub last_frame_url : Option Text
  pub prompt : Text
  pub duration_seconds : ℕ

abbrev pub Jobs : Type 0
Jobs = List (Uuid × VideoJob)

abbrev pub max_duration : ℕ
max_duration = 15

abbrev pub poll_max_attempts : ℕ
poll_max_attempts = 120

abbrev pub clamp_video_duration : Option ℕ → ℕ
clamp_video_duration none = 8
clamp_video_duration (some value) =
    if ltb 0 value then (if ltb value max_duration then value else max_duration) else 8

abbrev pub or_else : {A : Type 0} → Option A → Option A → Option A
or_else none b = b
or_else (some a) b = some a

-- `map(|value| value.trim().to_string()).filter(|value| !value.is_empty())`
abbrev pub trimmed : Option Text → Option Text
trimmed none = none
trimmed (some value) = if is_empty (trim value) then none else some (trim value)

pub record VideoCreateResponse : Type 0 where
  pub response_id : Option Text
  pub job_id : Option Text

abbrev pub response_job_id : VideoCreateResponse → Option Text
response_job_id r = trimmed (or_else r.response_id r.job_id)

pub record VideoStatusResponse : Type 0 where
  pub response_status : Option Text
  pub response_video_url : Option Text
  pub url : Option Text
  pub output_url : Option Text
  pub response_error : Option Text

abbrev pub hosted_url : VideoStatusResponse → Option Text
hosted_url r = trimmed (or_else r.response_video_url (or_else r.output_url r.url))

abbrev pub one_of : Text → List Text → Bool
one_of s names = any (λ name. text_eq s name) names

abbrev pub status_of : Text → VideoStatus
status_of s =
    if one_of s (text "queued" ∷ text "pending" ∷ text "created" ∷ text "accepted" ∷ [])
    then queued
    else if one_of s (
        text "running"
        ∷ text "processing"
        ∷ text "in_progress"
        ∷ text "in-progress"
        ∷ text "started"
        ∷ [])
    then running
    else if one_of s (
        text "succeeded"
        ∷ text "success"
        ∷ text "completed"
        ∷ text "complete"
        ∷ text "done"
        ∷ text "finished"
        ∷ [])
    then succeeded
    else if one_of s (
        text "failed"
        ∷ text "failure"
        ∷ text "error"
        ∷ text "errored"
        ∷ text "canceled"
        ∷ text "cancelled"
        ∷ [])
    then failed
    else running

unfoldable pub map_video_status : Text → VideoStatus
map_video_status raw = status_of (to_ascii_lowercase (trim raw))

-- What `video_poll_status` answers: the status, the hosted URL, the provider's error.
pub record Polled : Type 0 where
  pub polled_status : VideoStatus
  pub polled_url : Option Text
  pub provider_error : Option Text

-- One round of the poller: what other tasks do to the jobs before it looks for its own, what the
-- provider answers, what other tasks do in the meantime, and the text of the time.
pub record Attempt : Type 0 where
  pub before : Jobs → Jobs
  pub answer : Result ApiError Polled
  pub meanwhile : Jobs → Jobs
  pub at : Text

abbrev pub provider_failure : Option Text → Text
provider_failure none = text "provider reported failure"
provider_failure (some message) = message

abbrev pub is_failed : VideoStatus → Bool
is_failed failed = true
is_failed _ = false

unfoldable pub record_answer : Text → Polled → VideoJob → VideoJob
record_answer at p job = record job {
  status = p.polled_status;
  updated_at = at;
  video_url = or_else p.polled_url job.video_url;
  error = if is_failed p.polled_status then some (provider_failure p.provider_error) else job.error;
}

unfoldable pub record_error : Text → ApiError → VideoJob → VideoJob
record_error at e job = record job { error = some e.message; updated_at = at }

-- One round, and whether the task ends with it.
unfoldable pub attempt : Uuid → Attempt → Jobs → Jobs × Bool
attempt job_id a jobs = elim (lookup job_id (a.before jobs)) [
  | none ↦ (a.before jobs, true)
  | some _ ↦
      let now = a.meanwhile (a.before jobs) in
      elim a.answer [
        | ok p ↦ elim (lookup job_id now) [
          | none ↦ (now, true)
          | some job ↦ (insert job_id (record_answer a.at p job) now, is_terminal p.polled_status)
        ]
        | err e ↦ elim (lookup job_id now) [
          | none ↦ (now, false)
          | some job ↦ (insert job_id (record_error a.at e job) now, false)
        ]
      ]
]

-- After the last round.
unfoldable pub time_out : Uuid → Text → Jobs → Jobs
time_out job_id at jobs = elim (lookup job_id jobs) [
  | none ↦ jobs
  | some job ↦
      if is_terminal job.status
      then jobs
      else insert job_id
          (record job {
            status = failed;
            error = some (text "timed out waiting for the video provider");
            updated_at = at;
          })
          jobs
]

-- The loop, with `n` rounds left from round `i` on. `settle` is what other tasks do between the last
-- round and the end.
module _ (job_id : Uuid) (attempts : ℕ → Attempt) (settle : Jobs → Jobs) (at : Text) where
  unfoldable pub poll_rounds : ℕ → ℕ → Jobs → Jobs
  poll_rounds zero i jobs = time_out job_id at (settle jobs)
  poll_rounds (suc n) i jobs =
      let r = attempt job_id (attempts i) jobs in
      let rest = poll_rounds n (i + 1) r.0 in if r.1 then r.0 else rest

  -- `spawn_video_poller`
  unfoldable pub video_poller : Jobs → Jobs
  video_poller jobs = poll_rounds poll_max_attempts 0 jobs
