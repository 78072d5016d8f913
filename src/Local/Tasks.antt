-- ===== src/Local/Tasks.antt =====
-- apps/local-node/src/main.rs: the requests for tasks, over the task engine.
pub mod Bridge
use ozon_rust_suite.Common.{
  ℕ, Bool, true, false, List, [], ◌∷◌, ◌++◌, Option, none, some, Text, text, Result, ok, err, ltb,
  if◌then◌else◌,
}
use ozon_rust_suite.Common.Assoc.{nat_key, lookup}
use ozon_rust_suite.Common.Unicode.{decimal}
use ozon_rust_suite.Domain.Task.{
  Uuid, Instant, TaskSource, open_claw, OperationKind, ozon_products_list, ozon_update_price_mock,
  draft_upload_mock, import_1688_mock, RiskLevel, high, low, FieldChange, DryRunDiff,
  ExecutionReceipt, Task, DomainError, TaskState,
}
use ozon_rust_suite.TaskEngine.{
  Draws, CreateTask, TaskStore, TaskEngineError, create_dry_run, approve, cancel, mark_running,
  mark_succeeded,
}
use ozon_rust_suite.Local.{ApiError, bad_request, not_found, LocalConfig}
use ozon_rust_suite.Local.Access.{Headers, require_operator_token, require_bridge_or_operator_token}

pub record DryRunRequest : Type 0 where
  pub tenant_id : Option Uuid
  pub shop_id : Option Text
  pub source : Option TaskSource
  pub operation : Option OperationKind
  pub dry_run : Option DryRunDiff
  pub risk : Option RiskLevel
  pub idempotency_key : Option Text

pub record ApproveTaskRequest : Type 0 where
  pub approved_by : Option Text
  pub note : Option Text

pub record ProposeEcommerceScheduleRequest : Type 0 where
  pub proposed_tenant_id : Option Uuid
  pub proposed_shop_id : Option Text
  pub proposed_source : Option TaskSource
  pub interval_secs : Option ℕ
  pub limit : Option ℕ
  pub proposed_idempotency_key : Option Text

-- What a request draws: that of the task engine, and identifiers for a tenant, a key and a receipt.
pub record RequestDraws : Type 0 where
  pub engine : Draws
  pub tenant : Uuid
  pub key : Uuid
  pub receipt_id : Uuid
  pub executed_at : Instant

abbrev pub unwrap_or : {A : Type 0} → Option A → A → A
unwrap_or none d = d
unwrap_or (some a) d = a

-- `clamp(floor, ceiling)`, for bounds in order.
abbrev pub clamp : ℕ → ℕ → ℕ → ℕ
clamp n floor ceiling = if ltb n floor then floor else if ltb ceiling n then ceiling else n

unfoldable pub sample_dry_run : OperationKind → DryRunDiff
sample_dry_run import_1688_mock = record {
  summary = text "Import 3 authorized mock 1688 source items into local draft catalog";
  target_count = 3;
  changes =
      record {
        object_id = text "draft-1688-001";
        field = text "source";
        before = none;
        after = some (text "mock-import");
      }
      ∷ [];
  warnings = text "Live 1688 collection is disabled in MVP" ∷ [];
}
sample_dry_run draft_upload_mock = record {
  summary = text "Prepare 2 local product drafts for Ozon upload preview";
  target_count = 2;
  changes = [];
  warnings = text "No real Ozon write will be sent by mock executor" ∷ [];
}
sample_dry_run _ = record {
  summary = text "Mock Ozon write proposal; approval required before execution";
  target_count = 1;
  changes =
      record {
        object_id = text "SKU-MOCK-1";
        field = text "price";
        before = some (text "1299 RUB");
        after = some (text "1199 RUB");
      }
      ∷ [];
  warnings = text "AI/OpenClaw can propose this task, but local approval is mandatory" ∷ [];
}

abbrev pub default_operation : DryRunRequest → OperationKind
default_operation input = unwrap_or input.operation ozon_update_price_mock

-- A handler that ends at once, with its state as it was.
abbrev pub guarded :
    {S A : Type 0} → Result ApiError (Unit {0}) → S → S × Result ApiError A → S × Result ApiError A
guarded (ok _) s r = r
guarded (err e) s r = (s, err e)

-- The text of an identifier, and of an error of the task engine.
module _ (uuid_debug : Uuid → Text) (to_string : TaskEngineError → Text)
    (config : LocalConfig) where
  -- `map_err(|error| ApiError::bad_request(error.to_string()))`
  abbrev pub answered : {A : Type 0} → Result TaskEngineError A → Result ApiError A
  answered (ok a) = ok a
  answered (err e) = err (bad_request (to_string e))

  unfoldable pub new_request : RequestDraws → DryRunRequest → CreateTask
  new_request c input = record {
    tenant_id = unwrap_or input.tenant_id c.tenant;
    shop_id = unwrap_or input.shop_id (text "default-shop");
    source = unwrap_or input.source open_claw;
    operation = default_operation input;
    dry_run = unwrap_or input.dry_run (sample_dry_run (default_operation input));
    risk = unwrap_or input.risk high;
    idempotency_key = unwrap_or input.idempotency_key (text "idem-" ++ uuid_debug c.key);
  }

  abbrev pub answer : {S A : Type 0} → S × Result TaskEngineError A → S × Result ApiError A
  answer (s, r) = (s, answered r)

  unfoldable pub post_dry_run :
      RequestDraws → Headers → DryRunRequest → TaskStore → TaskStore × Result ApiError Task
  post_dry_run c headers input s =
      guarded (require_bridge_or_operator_token config headers) s
        (answer (create_dry_run uuid_debug c.engine (new_request c input) s))

  unfoldable pub get_task : Headers → Uuid → TaskStore → Result ApiError Task
  get_task headers id s = elim (require_bridge_or_operator_token config headers) [
    | err e ↦ err e
    | ok _ ↦ elim (lookup id s.inner) [
      | none ↦ err (not_found (text "task not found"))
      | some task ↦ ok task
    ]
  ]

  unfoldable pub post_approve :
      RequestDraws
      → Headers
      → Uuid
      → ApproveTaskRequest
      → TaskStore
      → TaskStore × Result ApiError Task
  post_approve c headers id input s = guarded (require_operator_token config headers) s (
      answer (
        approve uuid_debug c.engine id (unwrap_or input.approved_by (text "local-operator"))
          input.note s))

  unfoldable pub post_cancel :
      RequestDraws → Headers → Uuid → TaskStore → TaskStore × Result ApiError Task
  post_cancel c headers id s =
      guarded (require_operator_token config headers) s
        (answer (cancel uuid_debug c.engine id (text "local-operator") s))

  -- `execute_mock_task` up to its pause, in which other requests may run, and after it.
  unfoldable pub start_mock_task :
      RequestDraws → Headers → Uuid → TaskStore → TaskStore × Result ApiError Task
  start_mock_task c headers id s =
      guarded (require_operator_token config headers) s (answer (mark_running c.engine id s))

  unfoldable pub mock_receipt : RequestDraws → ExecutionReceipt
  mock_receipt c = record {
    external_request_id = some (text "dry-run-receipt-" ++ uuid_debug c.receipt_id);
    executed_at = c.executed_at;
    result_summary = text "dry-run execution completed; no Ozon write was sent";
  }

  unfoldable pub finish_mock_task :
      RequestDraws → Uuid → TaskStore → TaskStore × Result ApiError Task
  finish_mock_task c id s = answer (mark_succeeded c.engine id (mock_receipt c) s)

  unfoldable pub proposal : RequestDraws → ProposeEcommerceScheduleRequest → CreateTask
  proposal c input =
      let interval_secs =
        clamp (unwrap_or input.interval_secs config.default_ecommerce_interval_secs) 60 86400 in
      let limit = clamp (unwrap_or input.limit config.default_ecommerce_limit) 1 100 in
      record {
        tenant_id = unwrap_or input.proposed_tenant_id c.tenant;
        shop_id = unwrap_or input.proposed_shop_id (text "default-shop");
        source = unwrap_or input.proposed_source open_claw;
        operation = ozon_products_list;
        dry_run = record {
          summary =
              text "Propose official Ozon read-only product polling every "
              ++ (decimal interval_secs ++ (text "s with limit " ++ decimal limit));
          target_count = limit;
          changes = [];
          warnings =
              text "This proposal does not enable a scheduler; local operator token is required"
              ∷ text
                  "Real connector mode uses official Ozon Seller API credentials only; no live 1688 scraping"
              ∷ [];
        };
        risk = low;
        idempotency_key =
            unwrap_or input.proposed_idempotency_key
              (text "schedule-proposal-" ++ uuid_debug c.key);
      }

  -- `propose_ecommerce_schedule`, with what the check of the lease answers.
  unfoldable pub post_proposal :
      RequestDraws
      → Headers
      → Result ApiError (Unit {0})
      → ProposeEcommerceScheduleRequest
      → TaskStore
      → TaskStore × Result ApiError Task
  post_proposal c headers lease input s =
      guarded (require_bridge_or_operator_token config headers) s
        (guarded lease s (answer (create_dry_run uuid_debug c.engine (proposal c input) s)))

-- A request that may change the tasks, and the end of an execution.
pub data Call : Type 0 where
  dry_run_call : DryRunRequest → Call
  propose_call : Result ApiError (Unit {0}) → ProposeEcommerceScheduleRequest → Call
  approve_call : Uuid → ApproveTaskRequest → Call
  cancel_call : Uuid → Call
  execute_call : Uuid → Call

module _ (uuid_debug : Uuid → Text) (to_string : TaskEngineError → Text)
    (config : LocalConfig) where
  unfoldable pub serve :
      RequestDraws → Headers → Call → TaskStore → TaskStore × Result ApiError Task
  serve c headers (dry_run_call input) s =
      post_dry_run uuid_debug to_string config c headers input s
  serve c headers (propose_call lease input) s =
      post_proposal uuid_debug to_string config c headers lease input s
  serve c headers (approve_call id input) s =
      post_approve uuid_debug to_string config c headers id input s
  serve c headers (cancel_call id) s = post_cancel uuid_debug to_string config c headers id s
  serve c headers (execute_call id) s = start_mock_task uuid_debug to_string config c headers id s
