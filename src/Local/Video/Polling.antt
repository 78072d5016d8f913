-- ===== src/Local/Video/Polling.antt =====
-- apps/local-node/src/main.rs: every video job comes to an end.
use ozon_rust_suite.Common.{
  ℕ, zero, suc, ◌+◌, ◌≤◌, ◌<◌, ◌≡◌, refl, ap, ◌∙◌, ◌⊎◌, inl, inr, true, false, Option, some, Text,
  text, Result, ok, err, arith, Bool-cases, Result-cases,
}
use ozon_rust_suite.Common.Assoc.{nat_key, lookup, insert, lookup-insert_self}
use ozon_rust_suite.Domain.Task.{Uuid}
use ozon_rust_suite.Local.{ApiError, LocalConfig}
use ozon_rust_suite.Local.Access.{Headers}
use ozon_rust_suite.Local.Video.{
  failed, is_terminal, VideoJob, Jobs, Polled, Attempt, record_answer, record_error, attempt,
  time_out, poll_rounds, poll_max_attempts, video_poller,
}
use ozon_rust_suite.Local.Video.Create.{VideoCreateRequestBody, video_create, video_create-eq-ok}

-- Other tasks leave a job alone.
abbrev pub Keeps : Uuid → (Jobs → Jobs) → Type 0
Keeps id f = (m : Jobs) → lookup id (f m) ≡ lookup id m

module _ (job_id : Uuid) (attempts : ℕ → Attempt) (settle : Jobs → Jobs) (at : Text)
    (kept : (i : ℕ) → Keeps job_id (attempts i).before × Keeps job_id (attempts i).meanwhile)
    (settled : Keeps job_id settle) where
  -- How a job ends in the rounds from `i` on, of which there are `n`: by a status that the provider
  -- reports in one of them, or by the end of the rounds.
  pub record Reported (i n : ℕ) (job : VideoJob) : Type 0 where
    pub round : ℕ
    pub from : i ≤ round
    pub below : round < i + n
    pub polled : Polled
    pub answered : (attempts round).answer ≡ ok polled
    pub final : is_terminal polled.polled_status ≡ true
    pub status : job.status ≡ polled.polled_status

  abbrev pub TimedOut : VideoJob → Type 0
  TimedOut job =
      (job.status ≡ failed) × (job.error ≡ some (text "timed out waiting for the video provider"))

  found-then :
      (i : ℕ) (jobs : Jobs) (job : VideoJob)
      → lookup job_id jobs ≡ some job
      → lookup job_id ((attempts i).meanwhile ((attempts i).before jobs)) ≡ some job
  found-then i jobs job h = let (before, meanwhile) = kept i in meanwhile _ ∙ (before jobs ∙ h)

  attempt-ok :
      (i : ℕ) (jobs : Jobs) (job : VideoJob) (p : Polled)
      → lookup job_id jobs ≡ some job
      → (attempts i).answer ≡ ok p
      → attempt job_id (attempts i) jobs ≡ (
        insert job_id
            (record_answer (attempts i).at p job)
            ((attempts i).meanwhile ((attempts i).before jobs)),
        is_terminal p.polled_status,
      )
  unfolding attempt
  attempt-ok i jobs job p h a =
      let there : lookup job_id ((attempts i).before jobs) ≡ some job = (kept i).0 jobs ∙ h in
      let still = found-then i jobs job h in ground (arith, there, still, a)

  attempt-err :
      (i : ℕ) (jobs : Jobs) (job : VideoJob) (e : ApiError)
      → lookup job_id jobs ≡ some job
      → (attempts i).answer ≡ err e
      → attempt job_id (attempts i) jobs ≡ (
        insert job_id
            (record_error (attempts i).at e job)
            ((attempts i).meanwhile ((attempts i).before jobs)),
        false,
      )
  unfolding attempt
  attempt-err i jobs job e h a =
      let there : lookup job_id ((attempts i).before jobs) ≡ some job = (kept i).0 jobs ∙ h in
      let still = found-then i jobs job h in ground (arith, there, still, a)

  Ends : ℕ → ℕ → Jobs → Type 0
  Ends i n jobs =
      (job : VideoJob) × (lookup job_id (poll_rounds job_id attempts settle at n i jobs) ≡ some job)
      × (Reported i n job ⊎ TimedOut job)

  later : {i n : ℕ} {job : VideoJob} → Reported (i + 1) n job → Reported i (suc n) job
  later r = record {
    round = r.round;
    from = let it = r.from in omega arith;
    below = let it = r.below in omega arith;
    polled = r.polled;
    answered = r.answered;
    final = r.final;
    status = r.status;
  }

  time_out-ends :
      (jobs : Jobs) (job : VideoJob)
      → lookup job_id jobs ≡ some job
      → is_terminal job.status ≡ false
      → (job' : VideoJob) × (lookup job_id (time_out job_id at jobs) ≡ some job') × TimedOut job'
  unfolding time_out
  time_out-ends jobs job h open_job =
      let ended : VideoJob = record job {
        status = failed;
        error = some (text "timed out waiting for the video provider");
        updated_at = at;
      } in
      let result : time_out job_id at jobs ≡ insert job_id ended jobs =
        ground (arith, h, open_job) in
      (ended, rw result (lookup-insert_self job_id ended jobs), (refl, refl))

  stops :
      (n i : ℕ) (jobs u : Jobs)
      → attempt job_id (attempts i) jobs ≡ (u, true)
      → poll_rounds job_id attempts settle at (suc n) i jobs ≡ u
  unfolding poll_rounds
  stops n i jobs u h = ground (arith, h)

  goes_on :
      (n i : ℕ) (jobs u : Jobs)
      → attempt job_id (attempts i) jobs ≡ (u, false)
      → poll_rounds job_id attempts settle at (suc n) i jobs
        ≡ poll_rounds job_id attempts settle at n (i + 1) u
  unfolding poll_rounds
  goes_on n i jobs u h = rw h refl

  continued :
      (n i : ℕ) (jobs u : Jobs)
      → attempt job_id (attempts i) jobs ≡ (u, false)
      → Ends (i + 1) n u
      → Ends i (suc n) jobs
  unfolding Ends
  continued n i jobs u h (job, found, how) = (
    job,
    ap (lookup job_id) (goes_on n i jobs u h) ∙ found,
    elim how [ inl r ↦ inl (later r) | inr t ↦ inr t ],
  )

  poll_rounds-Ends :
      (n i : ℕ) (jobs : Jobs) (job : VideoJob)
      → lookup job_id jobs ≡ some job
      → is_terminal job.status ≡ false
      → Ends i n jobs
  unfolding poll_rounds Ends record_answer record_error
  poll_rounds-Ends zero i jobs job h open_job =
      let (job', found, how) = time_out-ends (settle jobs) job (settled jobs ∙ h) open_job in
      (job', found, inr how)
  poll_rounds-Ends (suc n) i jobs job h open_job =
      let now = (attempts i).meanwhile ((attempts i).before jobs) in
      elim (Result-cases (attempts i).answer) [
        | inr (e, a) ↦
            let next = record_error (attempts i).at e job in
            continued n i jobs (insert job_id next now) (attempt-err i jobs job e h a) (
              poll_rounds-Ends n (i + 1) (insert job_id next now) next
                (lookup-insert_self job_id next now) open_job)
        | inl (p, a) ↦
            let next = record_answer (attempts i).at p job in
            let step = attempt-ok i jobs job p h a in
            elim (Bool-cases (is_terminal p.polled_status)) [
              | inr off ↦
                  continued n i jobs (insert job_id next now)
                    (step ∙ ap (λ b. (insert job_id next now, b)) off)
                    (poll_rounds-Ends n (i + 1) (insert job_id next now) next
                      (lookup-insert_self job_id next now) off)
              | inl on ↦ (
                next,
                ap (lookup job_id) (
                      stops n i jobs (insert job_id next now)
                        (step ∙ ap (λ b. (insert job_id next now, b)) on))
                    ∙ lookup-insert_self job_id next now,
                inl (record {
                  round = i;
                  from = omega arith;
                  below = omega arith;
                  polled = p;
                  answered = a;
                  final = on;
                  status = refl;
                }),
              )
            ]
      ]

  -- A video job that was created ends, if other tasks leave it alone: after 120 rounds of the poller
  -- at most it is stored as succeeded or failed, by the last status that the provider reports in one
  -- of the rounds, or else as failed for its timeout; whatever the provider answers, errors included.
  pub video_create_ends :
      (config : LocalConfig) (lease : Result ApiError (Unit {0}))
      (provider : Text → Text → Option Text → ℕ → Result ApiError Text) (now : Text)
      (headers : Headers) (input : VideoCreateRequestBody) (jobs jobs' : Jobs) (job : VideoJob)
      → video_create config lease provider job_id now headers input jobs ≡ (jobs', ok job)
      → (ended : VideoJob) × (lookup job_id (video_poller job_id attempts settle at jobs')
          ≡ some ended)
        × (is_terminal ended.status ≡ true)
        × (Reported 0 poll_max_attempts ended ⊎ TimedOut ended)
  unfolding video_poller Ends
  video_create_ends config lease provider now headers input jobs jobs' job h =
      let (stored, fresh) =
        video_create-eq-ok config lease provider job_id now headers input jobs jobs' job h in
      let (ended, found, how) =
        poll_rounds-Ends poll_max_attempts 0 jobs' job stored (rw fresh refl) in
      (ended, found, elim how [ inl r ↦ rw r.status r.final | inr t ↦ rw t.0 refl ], how)
