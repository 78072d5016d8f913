-- ===== src/Local/Examples/Background.antt =====
-- apps/local-node/src/main.rs: a video job and a schedule.
use ozon_rust_suite.Common.{ℕ, ◌≡◌, ◌⊎◌, refl, true, [], ◌∷◌, none, some, ok, err, text, text_eq}
use ozon_rust_suite.Common.Assoc.{nat_key, lookup, insert}
use ozon_rust_suite.Common.Unicode.{trim, is_whitespace}
use ozon_rust_suite.Common.Secure.{constant_time_eq, presents, compare_bytes, byte_at}
use ozon_rust_suite.Local.Access.{require_bridge_or_operator_token}
use ozon_rust_suite.Local.{bad_gateway}
use ozon_rust_suite.Local.Video.{
  VideoStatus, is_terminal, VideoJob, Attempt, poll_max_attempts, video_poller, map_video_status,
}
use ozon_rust_suite.Local.Video.Create.{VideoCreateRequestBody, new_job, video_create, provider_job}
use ozon_rust_suite.Local.Video.Polling.{Reported, TimedOut, video_create_ends}
use ozon_rust_suite.Local.Schedule.{ReadTimes}
use ozon_rust_suite.Local.Schedule.Bounds.{World}
use ozon_rust_suite.Local.Examples.{config, bridge}

abbrev request : VideoCreateRequestBody
request = record {
  first_frame_url = text "u";
  last_frame_url = none;
  prompt = none;
  duration_seconds = some 30;
}

-- A provider whose status cannot be read.
abbrev silent : ℕ → Attempt
silent _ = record {
  before = λ m. m;
  answer = err (bad_gateway (text "down"));
  meanwhile = λ m. m;
  at = text "t";
}

abbrev job : VideoJob
job = new_job 1 (text "now") request (text "p1")

created :
    video_create config (ok tt) (λ _ _ _ _. ok (text "p1")) 1 (text "now") bridge request []
    ≡ ((1, job) ∷ [], ok job)
unfolding video_create provider_job require_bridge_or_operator_token presents constant_time_eq
    compare_bytes byte_at trim is_whitespace insert
created = refl

video_create_ends_example :
    (ended : VideoJob) × (lookup 1 (video_poller 1 silent (λ m. m) (text "end") ((1, job) ∷ []))
      ≡ some ended)
    × (is_terminal ended.status ≡ true)
    × (Reported 1 silent
          (λ m. m)
          (text "end")
          (λ _. (λ m. refl, λ m. refl))
          (λ m. refl)
          0
          poll_max_attempts
          ended
        ⊎ TimedOut 1 silent (λ m. m) (text "end") (λ _. (λ m. refl, λ m. refl)) (λ m. refl) ended)
video_create_ends_example =
    video_create_ends 1 silent (λ m. m) (text "end") (λ _. (λ m. refl, λ m. refl)) (λ m. refl)
      config (ok tt) (λ _ _ _ _. ok (text "p1")) (text "now") bridge request [] ((1, job) ∷ []) job
      created

abbrev times : ReadTimes
times = record { started = text "a"; completed = text "b"; elapsed_ms = 3; logged = text "c" }

abbrev answering : World (Unit {0}) (Unit {0}) (Unit {0}) (λ _. text "down") config
answering = record {
  times = times;
  lease = ok tt;
  credentials = ok tt;
  connector = λ _ _ _. ok (record { products = tt ∷ []; total = 1; last_id = none });
}

finished : map_video_status (text " Completed ") ≡ VideoStatus.succeeded
unfolding map_video_status text_eq trim is_whitespace
finished = refl
