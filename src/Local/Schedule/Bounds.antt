-- ===== src/Local/Schedule/Bounds.antt =====
-- apps/local-node/src/main.rs: the bounds of the schedule and of its log.
use ozon_rust_suite.Common.{
  ℕ, ◌≤◌, ◌≡◌, refl, sym, ◌⊎◌, inl, inr, true, some, Text, text, Result, ok, err, arith, Bool-cases,
  Result-cases,
}
use mathlib.Core.Path.{subst}
use ozon_rust_suite.Local.{ApiError, LocalConfig}
use ozon_rust_suite.Local.Access.{Headers, require_operator_token}
use ozon_rust_suite.Local.Tasks.{unwrap_or, clamp}
use ozon_rust_suite.Local.Schedule.{
  ConfigureEcommerceScheduleRequest, Worker, ReadTimes, EcommerceReadSchedule, EcommerceReadRun,
  OzonProductListPage, Connector, default_schedule, read_page, new_run, log_run,
  execute_ecommerce_read_once, start_ecommerce_schedule, stop_ecommerce_schedule,
  configure_ecommerce_schedule, run_ecommerce_schedule_now, log_failure, worker_tick,
}

clamp-bounds :
    (n floor ceiling : ℕ)
    → floor ≤ ceiling
    → (floor ≤ clamp n floor ceiling) × (clamp n floor ceiling ≤ ceiling)
clamp-bounds n floor ceiling h = ground arith

module _ (Product Credentials ConnectorError : Type 0) (to_string : ConnectorError → Text)
    (config : LocalConfig) where
  abbrev pub Schedule : Type 0
  Schedule = EcommerceReadSchedule Product Credentials ConnectorError to_string

  -- The interval and the limit stay in their bounds, a worker runs only while the schedule is
  -- enabled, and then it runs with the schedule's interval and limit.
  pub record IsValid (s : Schedule) : Type 0 where
    pub interval : (60 ≤ s.interval_secs) × (s.interval_secs ≤ 86400)
    pub limit : (1 ≤ s.limit) × (s.limit ≤ 100)
    pub working :
        (w : Worker)
        → s.worker ≡ some w
        → (s.enabled ≡ true) × (w.worker_interval ≡ s.interval_secs) × (w.worker_limit ≡ s.limit)

  -- What a read, a start and a stop leave alone.
  record SameSettings (s u : Schedule) : Type 0 where
    enabled : u.enabled ≡ s.enabled
    interval : u.interval_secs ≡ s.interval_secs
    limit : u.limit ≡ s.limit
    worker : u.worker ≡ s.worker

  SameSettings-IsValid : {s u : Schedule} → SameSettings s u → IsValid s → IsValid u
  SameSettings-IsValid same v = record {
    interval = rw same.interval v.interval;
    limit = rw same.limit v.limit;
    working =
        λ w h. rw (same.enabled, same.interval, same.limit) (v.working w (rw same.worker at h));
  }

  -- The calls, each with what the lease check, the credentials and the connector answer in it.
  pub data ScheduleCall : Type 0 where
    configure : Text → Headers → ConfigureEcommerceScheduleRequest → ScheduleCall
    run_now : Headers → ScheduleCall
    tick : Worker → ScheduleCall

  pub record World : Type 0 where
    pub times : ReadTimes
    pub lease : Result ApiError (Unit {0})
    pub credentials : Result ApiError Credentials
    pub connector : Connector Product Credentials ConnectorError to_string

  unfoldable pub step : World → ScheduleCall → Schedule → Schedule
  step w (configure at headers input) s =
      (configure_ecommerce_schedule Product Credentials ConnectorError to_string config w.lease
        w.credentials w.connector w.times at headers input s).0
  step w (run_now headers) s =
      (run_ecommerce_schedule_now Product Credentials ConnectorError to_string config w.lease
        w.credentials w.connector w.times headers s).0
  step w (tick worker) s =
      (worker_tick Product Credentials ConnectorError to_string config w.lease w.credentials
        w.connector w.times worker s).0

  module _ (w : World) where
    abbrev execute :
        ℕ
        → Schedule
        → Schedule × Result ApiError (EcommerceReadRun Product Credentials ConnectorError to_string)
    execute =
        execute_ecommerce_read_once Product Credentials ConnectorError to_string config w.lease
          w.credentials w.connector w.times

    abbrev logged :
        EcommerceReadRun Product Credentials ConnectorError to_string → Schedule → Schedule
    logged =
        log_run Product Credentials ConnectorError to_string config w.lease w.credentials
          w.connector w.times

    abbrev made :
        OzonProductListPage Product Credentials ConnectorError to_string
        → EcommerceReadRun Product Credentials ConnectorError to_string
    made =
        new_run Product Credentials ConnectorError to_string config w.lease w.credentials
          w.connector w.times

    execute-cases :
        (limit : ℕ) (s : Schedule)
        → ((e : ApiError) × (execute limit s ≡ (s, err e)))
          ⊎ ((run : EcommerceReadRun Product Credentials ConnectorError to_string) × (execute limit
                  s
                ≡ (logged run s, ok run)))
    unfolding execute_ecommerce_read_once
    execute-cases limit s =
        elim (Result-cases (
          read_page Product Credentials ConnectorError to_string config w.lease w.credentials
            w.connector limit)) [
              | inr (x, e) ↦ inl (x, ground (arith, e))
              | inl (page, e) ↦ inr (made page, ground (arith, e))
            ]

    logged-IsValid :
        (run : EcommerceReadRun Product Credentials ConnectorError to_string) (s : Schedule)
        → IsValid s
        → IsValid (logged run s)
    unfolding log_run
    logged-IsValid run s v =
        SameSettings-IsValid
          (record { enabled = refl; interval = refl; limit = refl; worker = refl }) v

    start-IsValid :
        (at : Text) (interval limit : ℕ) (s : Schedule)
        → IsValid (
            start_ecommerce_schedule Product Credentials ConnectorError to_string config w.lease
              w.credentials w.connector at
              (clamp interval 60 86400)
              (clamp limit 1 100)
              s)
    unfolding start_ecommerce_schedule
    start-IsValid at interval limit s = record {
      interval = clamp-bounds interval 60 86400 (omega arith);
      limit = clamp-bounds limit 1 100 (omega arith);
      working = λ worker h. let it = h in (refl, ground (arith, it), ground (arith, it));
    }

    stop-IsValid :
        (at reason : Text) (s : Schedule)
        → IsValid s
        → IsValid (
            stop_ecommerce_schedule Product Credentials ConnectorError to_string config w.lease
              w.credentials w.connector at reason s)
    unfolding stop_ecommerce_schedule
    stop-IsValid at reason s v = record {
      interval = v.interval;
      limit = v.limit;
      working = λ worker h. cc;
    }

    failure-IsValid :
        (at : Text) (e : ApiError) (s : Schedule)
        → IsValid s
        → IsValid (
            log_failure Product Credentials ConnectorError to_string config w.lease w.credentials
              w.connector at e s)
    unfolding log_failure
    failure-IsValid at e s v =
        SameSettings-IsValid
          (record { enabled = refl; interval = refl; limit = refl; worker = refl }) v

    tick-IsValid :
        (worker : Worker) (s : Schedule)
        → IsValid s
        → IsValid
            (worker_tick Product Credentials ConnectorError to_string config w.lease w.credentials
              w.connector w.times worker s).0
    unfolding worker_tick
    tick-IsValid worker s v = elim (Bool-cases s.enabled) [
      | inr off ↦ subst IsValid (sym (ground (arith, off))) v
      | inl on ↦ elim (execute-cases worker.worker_limit s) [
        | inl (e, r) ↦
            subst IsValid (sym (ground (arith, on, r))) (failure-IsValid w.times.logged e s v)
        | inr (run, r) ↦ subst IsValid (sym (ground (arith, on, r))) (logged-IsValid run s v)
      ]
    ]

    run_now-IsValid :
        (headers : Headers) (s : Schedule)
        → IsValid s
        → IsValid
            (run_ecommerce_schedule_now Product Credentials ConnectorError to_string config w.lease
              w.credentials w.connector w.times headers s).0
    unfolding run_ecommerce_schedule_now
    run_now-IsValid headers s v = elim (Result-cases (require_operator_token config headers)) [
      | inr (e, q) ↦ subst IsValid (sym (ground (arith, q))) v
      | inl (_, q) ↦ elim (execute-cases s.limit s) [
        | inl (e, r) ↦ subst IsValid (sym (ground (arith, q, r))) v
        | inr (run, r) ↦ subst IsValid (sym (ground (arith, q, r))) (logged-IsValid run s v)
      ]
    ]

    configure-IsValid :
        (at : Text) (headers : Headers) (input : ConfigureEcommerceScheduleRequest) (s : Schedule)
        → IsValid s
        → IsValid
            (configure_ecommerce_schedule Product Credentials ConnectorError to_string config
              w.lease w.credentials w.connector w.times at headers input s).0
    unfolding configure_ecommerce_schedule
    configure-IsValid at headers input s v =
        let interval = unwrap_or input.interval_secs config.default_ecommerce_interval_secs in
        let limit = unwrap_or input.limit config.default_ecommerce_limit in
        elim (Result-cases (require_operator_token config headers)) [
          | inr (e, q) ↦ subst IsValid (sym (ground (arith, q))) v
          | inl (_, q) ↦ elim (Bool-cases input.enabled) [
            | inr off ↦
                subst IsValid (sym (ground (arith, q, off)))
                  (stop-IsValid at (text "disabled by local operator") s v)
            | inl on ↦ elim (execute-cases (clamp limit 1 100) s) [
              | inl (e, r) ↦ subst IsValid (sym (ground (arith, q, on, r))) v
              | inr (run, r) ↦
                  subst IsValid (sym (ground (arith, q, on, r)))
                    (start-IsValid at interval limit (logged run s))
            ]
          ]
        ]

  -- The schedules that calls lead to, from the default one.
  pub data Reach : Schedule → Type 0 where
    start : Reach (default_schedule Product Credentials ConnectorError to_string)
    call : {s : Schedule} (w : World) (c : ScheduleCall) → Reach s → Reach (step w c s)

  pub Reach-IsValid : {s : Schedule} → Reach s → IsValid s
  unfolding step
  Reach-IsValid start = record {
    interval = (omega arith, omega arith);
    limit = (omega arith, omega arith);
    working = λ w h. cc;
  }
  Reach-IsValid (call {s} w (configure at headers input) reach) =
      configure-IsValid w at headers input s (Reach-IsValid reach)
  Reach-IsValid (call {s} w (run_now headers) reach) =
      run_now-IsValid w headers s (Reach-IsValid reach)
  Reach-IsValid (call {s} w (tick worker) reach) = tick-IsValid w worker s (Reach-IsValid reach)
