-- ===== src/Local/Schedule.antt =====
-- apps/local-node/src/main.rs: the schedule of product reads, its worker and its log. Each function
-- is one handler or one tick of the worker, run by itself.
pub mod Bounds
pub mod Log
use ozon_rust_suite.Common.{
  ℕ, zero, suc, ◌+◌, ◌-◌, ◌^◌, ◌%◌, Bool, true, false, not, ◌&&◌, ◌||◌, List, [], ◌∷◌, ◌++◌, Option,
  none, some, Text, text, Result, ok, err, ◌>>=◌, ◌>>◌, ltb, leb, ◌==◌, if◌then◌else◌, length,
}
use ozon_rust_suite.Common.Unicode.{decimal}
use ozon_rust_suite.Domain.Task.{Instant}
use ozon_rust_suite.Local.{ApiError, bad_gateway, LocalConfig}
use ozon_rust_suite.Local.Access.{Headers, require_operator_token}
use ozon_rust_suite.Local.Tasks.{unwrap_or, clamp}

pub record ConfigureEcommerceScheduleRequest : Type 0 where
  pub enabled : Bool
  pub interval_secs : Option ℕ
  pub limit : Option ℕ

pub record ScheduleAuditEvent : Type 0 where
  pub at : Text
  pub actor : Text
  pub action : Text
  pub summary : Text

-- What a worker was started with.
pub record Worker : Type 0 where
  pub worker_interval : ℕ
  pub worker_limit : ℕ

-- What a read draws from the clocks: the texts of its times, and what it took.
pub record ReadTimes : Type 0 where
  pub started : Text
  pub completed : Text
  pub elapsed_ms : ℕ
  pub logged : Text

abbrev pub connector_mode : LocalConfig → Text
connector_mode config = if config.use_real_ozon then text "real" else text "mock"

-- Products, credentials and errors are those of the connector.
module _ (Product Credentials ConnectorError : Type 0) (to_string : ConnectorError → Text) where
  pub record OzonProductListPage : Type 0 where
    pub products : List Product
    pub total : ℕ
    pub last_id : Option Text

  pub record EcommerceReadRun : Type 0 where
    pub started_at : Text
    pub completed_at : Text
    pub duration_ms : ℕ
    pub run_connector_mode : Text
    pub product_count : ℕ
    pub sample_size : ℕ
    pub next_last_id : Option Text
    pub run_products : List Product
    pub run_total : ℕ

  pub record EcommerceReadSchedule : Type 0 where
    pub enabled : Bool
    pub interval_secs : ℕ
    pub limit : ℕ
    pub last_run : Option EcommerceReadRun
    pub last_error : Option Text
    pub audit : List ScheduleAuditEvent
    pub worker : Option Worker

  abbrev pub default_schedule : EcommerceReadSchedule
  default_schedule = record {
    enabled = false;
    interval_secs = 900;
    limit = 20;
    last_run = none;
    last_error = none;
    audit = [];
    worker = none;
  }

  -- `product_list_page_with_visibility`, from the credentials, the limit and the visibility.
  abbrev pub Connector : Type 0
  Connector = Credentials → ℕ → Option Text → Result ConnectorError OzonProductListPage

  abbrev pub gateway : {A : Type 0} → Text → Result ConnectorError A → Result ApiError A
  gateway message (ok a) = ok a
  gateway message (err e) = err (bad_gateway (message ++ to_string e))

  abbrev pub is_empty_page : OzonProductListPage → Bool
  is_empty_page page = (page.total == 0) && (length page.products == 0)

  abbrev pub choose_page : OzonProductListPage → OzonProductListPage → OzonProductListPage
  choose_page page archived_page =
      if ltb 0 archived_page.total || not (length archived_page.products == 0)
      then archived_page
      else page

  module _ (config : LocalConfig) (lease : Result ApiError (Unit {0}))
      (credentials : Result ApiError Credentials) (connector : Connector) where
    unfoldable pub archived_if_empty :
        Credentials → ℕ → OzonProductListPage → Result ApiError OzonProductListPage
    archived_if_empty keys limit page =
        let second =
          gateway (text "scheduled archived Ozon read failed: ")
            (connector keys (clamp limit 1 100) (some (text "ARCHIVED"))) in
        if is_empty_page page
        then elim second [ err e ↦ err e | ok archived_page ↦ ok (choose_page page archived_page) ]
        else ok page

    -- The reads of `execute_ecommerce_read_once`: of all products, and where there is none of the
    -- archived ones.
    unfoldable pub read_page : ℕ → Result ApiError OzonProductListPage
    read_page limit = do
      lease
      keys ← credentials
      page ← gateway (text "scheduled Ozon read failed: ") (connector keys (clamp limit 1 100) none)
      archived_if_empty keys limit page

    unfoldable pub new_run : ReadTimes → OzonProductListPage → EcommerceReadRun
    new_run c page = record {
      started_at = c.started;
      completed_at = c.completed;
      duration_ms = c.elapsed_ms % 2 ^ 64;
      run_connector_mode = connector_mode config;
      product_count = page.total;
      sample_size = length page.products % 2 ^ 16;
      next_last_id = page.last_id;
      run_products = page.products;
      run_total = page.total;
    }

    -- `drain(0..keep_from)`
    abbrev pub drop_first : ℕ → List ScheduleAuditEvent → List ScheduleAuditEvent
    drop_first zero events = events
    drop_first (suc n) [] = []
    drop_first (suc n) (e ∷ events) = drop_first n events

    -- The log keeps its last 100 entries.
    unfoldable pub keep_last : List ScheduleAuditEvent → List ScheduleAuditEvent
    keep_last events =
        if ltb 100 (length events) then drop_first (length events - 100) events else events

    unfoldable pub log_run :
        ReadTimes → EcommerceReadRun → EcommerceReadSchedule → EcommerceReadSchedule
    log_run c run s = record s {
      last_error = none;
      last_run = some run;
      audit = keep_last (
          s.audit
          ++ record {
            at = c.logged;
            actor = text "scheduler";
            action = text "schedule.read_succeeded";
            summary =
                text "read "
                ++ (decimal run.sample_size
                    ++ (text " products in "
                        ++ (decimal run.duration_ms
                            ++ (text "ms through "
                                ++ (run.run_connector_mode ++ text " connector")))));
          }
            ∷ []);
    }

    unfoldable pub execute_ecommerce_read_once :
        ReadTimes
        → ℕ
        → EcommerceReadSchedule
        → EcommerceReadSchedule × Result ApiError EcommerceReadRun
    execute_ecommerce_read_once c limit s = elim (read_page limit) [
      | err e ↦ (s, err e)
      | ok page ↦ (log_run c (new_run c page) s, ok (new_run c page))
    ]

    -- `start_ecommerce_schedule`: an old worker is aborted, a new one is spawned.
    unfoldable pub start_ecommerce_schedule :
        Text → ℕ → ℕ → EcommerceReadSchedule → EcommerceReadSchedule
    start_ecommerce_schedule at interval_secs limit s = record s {
      enabled = true;
      interval_secs = interval_secs;
      limit = limit;
      last_error = none;
      audit =
          s.audit
          ++ record {
            at = at;
            actor = text "local-operator";
            action = text "schedule.enabled";
            summary =
                text "official Ozon read-only polling enabled every "
                ++ (decimal interval_secs ++ (text "s with limit " ++ decimal limit));
          }
            ∷ [];
      worker = some (record { worker_interval = interval_secs; worker_limit = limit });
    }

    unfoldable pub stop_ecommerce_schedule :
        Text → Text → EcommerceReadSchedule → EcommerceReadSchedule
    stop_ecommerce_schedule at reason s = record s {
      enabled = false;
      audit =
          s.audit
          ++ record {
            at = at;
            actor = text "local-operator";
            action = text "schedule.disabled";
            summary = reason;
          }
            ∷ [];
      worker = none;
    }

    unfoldable pub configure_ecommerce_schedule :
        ReadTimes
        → Text
        → Headers
        → ConfigureEcommerceScheduleRequest
        → EcommerceReadSchedule
        → EcommerceReadSchedule × Result ApiError EcommerceReadSchedule
    configure_ecommerce_schedule c at headers input s =
        let interval =
          clamp (unwrap_or input.interval_secs config.default_ecommerce_interval_secs) 60 86400 in
        let count = clamp (unwrap_or input.limit config.default_ecommerce_limit) 1 100 in
        elim (require_operator_token config headers) [
          | err e ↦ (s, err e)
          | ok _ ↦
              if input.enabled
              then (let r = execute_ecommerce_read_once c count s in
                  elim r.1 [
                    | err e ↦ (r.0, err e)
                    | ok run ↦ let u = start_ecommerce_schedule at interval count r.0 in (u, ok u)
                  ])
              else (let u = stop_ecommerce_schedule at (text "disabled by local operator") s in
                  (u, ok u))
        ]

    unfoldable pub run_ecommerce_schedule_now :
        ReadTimes
        → Headers
        → EcommerceReadSchedule
        → EcommerceReadSchedule × Result ApiError EcommerceReadRun
    run_ecommerce_schedule_now c headers s = elim (require_operator_token config headers) [
      | err e ↦ (s, err e)
      | ok _ ↦ execute_ecommerce_read_once c s.limit s
    ]

    -- The branch of the worker in which a read has failed.
    unfoldable pub log_failure : Text → ApiError → EcommerceReadSchedule → EcommerceReadSchedule
    log_failure at e s = record s {
      last_error = some e.message;
      audit =
          s.audit
          ++ record {
            at = at;
            actor = text "scheduler";
            action = text "schedule.read_failed";
            summary = e.message;
          }
            ∷ [];
    }

    -- One tick of the worker: what it leaves, and whether it goes on.
    unfoldable pub worker_tick :
        ReadTimes → Worker → EcommerceReadSchedule → EcommerceReadSchedule × Bool
    worker_tick c w s =
        if not s.enabled
        then (s, false)
        else (let r = execute_ecommerce_read_once c w.worker_limit s in
            elim r.1 [ err e ↦ (log_failure c.logged e r.0, true) | ok run ↦ (r.0, true) ])
