-- ===== src/Domain/Task.antt =====
-- crates/domain/src/lib.rs: tasks, their states and operations.
use ozon_rust_suite.Common.{ℕ, Bool, true, false, List, Option, Text}

-- An identifier is a 128-bit UUID, as a number; a point in time is a number of ticks.
abbrev pub Uuid : Type 0
Uuid = ℕ

abbrev pub Instant : Type 0
Instant = ℕ

pub data TaskSource : Type 0 where
  local_ui open_claw chrome_extension admin : TaskSource

pub data OperationKind : Type 0 where
  ozon_products_count ozon_products_list ozon_products_get : OperationKind
  ozon_update_price_mock ozon_update_inventory_mock ozon_join_promotion_mock : OperationKind
  draft_upload_mock import_1688_mock : OperationKind

abbrev pub is_write : OperationKind → Bool
is_write ozon_products_count = false
is_write ozon_products_list = false
is_write ozon_products_get = false
is_write _ = true

pub data TaskState : Type 0 where
  draft pending_approval queued running succeeded failed cancelled : TaskState

abbrev pub can_transition_to : TaskState → TaskState → Bool
can_transition_to draft pending_approval = true
can_transition_to draft queued = true
can_transition_to pending_approval queued = true
can_transition_to pending_approval cancelled = true
can_transition_to queued running = true
can_transition_to queued cancelled = true
can_transition_to running succeeded = true
can_transition_to running failed = true
can_transition_to running cancelled = true
can_transition_to _ _ = false

pub data RiskLevel : Type 0 where
  low medium high critical : RiskLevel

pub record FieldChange : Type 0 where
  pub object_id : Text
  pub field : Text
  pub before : Option Text
  pub after : Option Text

pub record DryRunDiff : Type 0 where
  pub summary : Text
  pub target_count : ℕ
  pub changes : List FieldChange
  pub warnings : List Text

pub record ApprovalRecord : Type 0 where
  pub id : Uuid
  pub approved_by : Text
  pub approved_at : Instant
  pub note : Option Text

pub record ExecutionReceipt : Type 0 where
  pub external_request_id : Option Text
  pub executed_at : Instant
  pub result_summary : Text

pub record Task : Type 0 where
  pub id : Uuid
  pub tenant_id : Uuid
  pub shop_id : Text
  pub source : TaskSource
  pub operation : OperationKind
  pub state : TaskState
  pub dry_run : DryRunDiff
  pub risk : RiskLevel
  pub idempotency_key : Text
  pub approval : Option ApprovalRecord
  pub receipt : Option ExecutionReceipt
  pub created_at : Instant
  pub updated_at : Instant

pub record AuditEvent : Type 0 where
  pub id : Uuid
  pub tenant_id : Option Uuid
  pub actor : Text
  pub action : Text
  pub target : Text
  pub summary : Text
  pub created_at : Instant

pub data DomainError : Type 0 where
  invalid_email invalid_phone_number invalid_nebula_id : DomainError
  invalid_task_transition : TaskState → TaskState → DomainError
  write_requires_approval : DomainError
