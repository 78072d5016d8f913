-- ===== src/Local/Schedule/Log.antt =====
-- apps/local-node/src/main.rs: the length of the schedule's log.
use ozon_rust_suite.Common.{
  ℕ, zero, suc, ◌+◌, ◌≡◌, refl, ap, ◌∙◌, true, Text, Result, err, length, length-append, arith,
}
use ozon_rust_suite.Local.{ApiError, LocalConfig}
use ozon_rust_suite.Local.Schedule.{
  Worker, ReadTimes, EcommerceReadSchedule, Connector, read_page, execute_ecommerce_read_once,
  log_failure, worker_tick,
}

module _ (Product Credentials ConnectorError : Type 0) (to_string : ConnectorError → Text)
    (config : LocalConfig) (lease : Result ApiError (Unit {0}))
    (credentials : Result ApiError Credentials)
    (connector : Connector Product Credentials ConnectorError to_string) where
  abbrev Schedule : Type 0
  Schedule = EcommerceReadSchedule Product Credentials ConnectorError to_string

  pub ticks : (ℕ → ReadTimes) → Worker → ℕ → Schedule → Schedule
  ticks times worker zero s = s
  ticks times worker (suc n) s =
      ticks times worker n
        (worker_tick Product Credentials ConnectorError to_string config lease credentials connector
          (times n) worker s).0

  execute_fails :
      (c : ReadTimes) (limit : ℕ) (s : Schedule) (e : ApiError)
      → read_page Product Credentials ConnectorError to_string config lease credentials connector
          limit
        ≡ err e
      → execute_ecommerce_read_once Product Credentials ConnectorError to_string config lease
          credentials connector c limit s
        ≡ (s, err e)
  unfolding execute_ecommerce_read_once
  execute_fails c limit s e fails = ground (arith, fails)

  tick_fails :
      (c : ReadTimes) (worker : Worker) (s : Schedule) (e : ApiError)
      → s.enabled ≡ true
      → read_page Product Credentials ConnectorError to_string config lease credentials connector
          worker.worker_limit
        ≡ err e
      → (worker_tick Product Credentials ConnectorError to_string config lease credentials connector
          c worker s).0
        ≡ log_failure Product Credentials ConnectorError to_string config lease credentials
            connector c.logged e s
  unfolding worker_tick
  tick_fails c worker s e on fails =
      let it = execute_fails c worker.worker_limit s e fails in ground (arith, on, it)

  log_failure-length :
      (at : Text) (e : ApiError) (s : Schedule)
      → ((log_failure Product Credentials ConnectorError to_string config lease credentials
            connector at e s).enabled
          ≡ s.enabled)
        × (length
              (log_failure Product Credentials ConnectorError to_string config lease credentials
                connector at e s).audit
            ≡ length s.audit + 1)
  unfolding log_failure
  log_failure-length at e s = (refl, length-append s.audit _)

  -- Nothing cuts the log while reads fail: as long as the schedule is enabled and the reads of its
  -- worker fail, `n` ticks make the log `n` entries longer, however long it is.
  pub ticks_fail :
      (times : ℕ → ReadTimes) (worker : Worker) (n : ℕ) (s : Schedule) (e : ApiError)
      → s.enabled ≡ true
      → read_page Product Credentials ConnectorError to_string config lease credentials connector
          worker.worker_limit
        ≡ err e
      → length (ticks times worker n s).audit ≡ length s.audit + n
  unfolding ticks
  ticks_fail times worker zero s e on fails = omega arith
  ticks_fail times worker (suc n) s e on fails =
      let logged =
        log_failure Product Credentials ConnectorError to_string config lease credentials connector
          (times n).logged e s in
      let (same, longer) = log_failure-length (times n).logged e s in
      let rest = ticks_fail times worker n logged e (same ∙ on) fails in
      ap (λ (x : Schedule). length (ticks times worker n x).audit)
        (tick_fails (times n) worker s e on fails)
      ∙ (rest ∙ omega (arith, longer))
