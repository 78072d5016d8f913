-- ===== src/TaskEngine.antt =====
-- crates/task-engine/src/lib.rs: the review-first task store.
pub mod Lifecycle
pub mod Update
pub mod Effects
pub mod History
pub mod Outcomes
pub mod Announced
mod Examples
pub mod Invariant
use ozon_rust_suite.Common.{
  ℕ, zero, suc, Bool, true, false, not, ◌&&◌, List, [], ◌∷◌, ◌++◌, Option, none, some, Text, text,
  Result, ok, err, ◌>>=◌, ◌>>◌, require, is_some, if◌then◌else◌,
}
use ozon_rust_suite.Common.Assoc.{pair_key, nat_key, lookup, insert}
use ozon_rust_suite.Domain.Task.{
  Uuid, Instant, TaskSource, OperationKind, is_write, ozon_products_count, ozon_products_list,
  ozon_products_get, ozon_update_price_mock, ozon_update_inventory_mock, ozon_join_promotion_mock,
  draft_upload_mock, import_1688_mock, TaskState, pending_approval, queued, running, succeeded,
  failed, cancelled, can_transition_to, RiskLevel, DryRunDiff, ApprovalRecord, ExecutionReceipt,
  Task, AuditEvent, DomainError, invalid_task_transition, write_requires_approval,
}

pub record CreateTask : Type 0 where
  pub tenant_id : Uuid
  pub shop_id : Text
  pub source : TaskSource
  pub operation : OperationKind
  pub dry_run : DryRunDiff
  pub risk : RiskLevel
  pub idempotency_key : Text

pub data TaskEngineError : Type 0 where
  task_not_found approval_not_required : TaskEngineError
  domain : DomainError → TaskEngineError

pub data TaskEvent : Type 0 where
  changed : Task → TaskEvent

-- What a call has left to do once it has dropped its locks: the audit event and then the task's
-- event, or, when the audit is written, the task's event alone.
pub data Notice : Type 0 where
  to_audit : AuditEvent → Task → Notice
  to_send : Task → Notice

abbrev pub notice_task : Notice → Task
notice_task (to_audit _ task) = task
notice_task (to_send task) = task

-- `inner` and `by_idempotency` are the two maps, `audit` the log, and `events` the sequence of
-- values handed to the broadcast channel. An operation holds the write locks of the maps that it
-- touches from its first read to its last write, so that part is one step. `create_dry_run`,
-- `approve` and `cancel` drop the locks before they audit and send: `unsent` holds what such calls
-- have left to do, and `resume` does one piece of it, after whatever other calls have done.
pub record TaskStore : Type 0 where
  pub inner : List (Uuid × Task)
  pub by_idempotency : List ((Uuid × Text) × Uuid)
  pub audit : List AuditEvent
  pub events : List TaskEvent
  pub unsent : List Notice

-- What one operation draws from the clock and from the generator of identifiers, in the order of
-- the calls: `now` first, `later` next, `audit_at` for the audit event.
pub record Draws : Type 0 where
  pub now : Instant
  pub later : Instant
  pub audit_at : Instant
  pub task_id : Uuid
  pub approval_id : Uuid
  pub audit_id : Uuid

abbrev pub new : TaskStore
new = record { inner = []; by_idempotency = []; audit = []; events = []; unsent = [] }

abbrev pub is_terminal : TaskState → Bool
is_terminal succeeded = true
is_terminal failed = true
is_terminal cancelled = true
is_terminal _ = false

unfoldable pub transition : Instant → Task → TaskState → Result TaskEngineError Task
transition now task next =
    if can_transition_to task.state next
    then ok (record task { state = next; updated_at = now })
    else err (domain (invalid_task_transition task.state next))

-- `{:?}` of an operation: the derived `Debug` prints the variant's name.
operation_debug : OperationKind → Text
operation_debug ozon_products_count = text "OzonProductsCount"
operation_debug ozon_products_list = text "OzonProductsList"
operation_debug ozon_products_get = text "OzonProductsGet"
operation_debug ozon_update_price_mock = text "OzonUpdatePriceMock"
operation_debug ozon_update_inventory_mock = text "OzonUpdateInventoryMock"
operation_debug ozon_join_promotion_mock = text "OzonJoinPromotionMock"
operation_debug draft_upload_mock = text "DraftUploadMock"
operation_debug import_1688_mock = text "Import1688Mock"

-- `self.audit(…)`.
unfoldable pub audit_event : Draws → Option Uuid → Text → Text → Text → Text → AuditEvent
audit_event c tenant_id actor action target summary = record {
  id = c.audit_id;
  tenant_id = tenant_id;
  actor = actor;
  action = action;
  target = target;
  summary = summary;
  created_at = c.audit_at;
}

unfoldable pub push_audit : AuditEvent → TaskStore → TaskStore
push_audit e s = record s { audit = s.audit ++ e ∷ [] }

-- `self.events.send(TaskEvent::Changed(task.clone()))`, whose result the source drops.
unfoldable pub send : Task → TaskStore → TaskStore
send task s = record s { events = s.events ++ changed task ∷ [] }

-- `drop(inner)`: the audit and the event are left to do.
unfoldable pub drop_lock : AuditEvent → Task → TaskStore → TaskStore
drop_lock e task s = record s { unsent = s.unsent ++ to_audit e task ∷ [] }

-- The notice at an index, and the others.
unfoldable pub take_out : ℕ → List Notice → Option (Notice × List Notice)
take_out _ [] = none
take_out zero (n ∷ ns) = some (n, ns)
take_out (suc i) (n ∷ ns) = elim (take_out i ns) [
  | none ↦ none
  | some (m, rest) ↦ some (m, n ∷ rest)
]

-- One call that has dropped its locks goes on: it writes its audit event, or it sends the event.
unfoldable pub resume : ℕ → TaskStore → TaskStore
unfolding push_audit send
resume i s = elim (take_out i s.unsent) [
  | none ↦ s
  | some (n, rest) ↦ elim n [
    | to_audit e task ↦ push_audit e (record s { unsent = to_send task ∷ rest })
    | to_send task ↦ send task (record s { unsent = rest })
  ]
]

-- The task that the idempotency index names, unless it has ended.
unfoldable pub existing_task : TaskStore → Uuid × Text → Option Task
existing_task s key = elim (lookup key s.by_idempotency) [
  | none ↦ none
  | some id ↦ elim (lookup id s.inner) [
    | none ↦ none
    | some task ↦ if is_terminal task.state then none else some task
  ]
]

unfoldable pub new_task : Draws → CreateTask → Task
new_task c input = record {
  id = c.task_id;
  tenant_id = input.tenant_id;
  shop_id = input.shop_id;
  source = input.source;
  operation = input.operation;
  state = if is_write input.operation then pending_approval else queued;
  dry_run = input.dry_run;
  risk = input.risk;
  idempotency_key = input.idempotency_key;
  approval = none;
  receipt = none;
  created_at = c.now;
  updated_at = c.now;
}

-- `get_mut(&id)`, the fallible change of the task in place, and what follows a success. Every
-- change checks before it writes, so a failed one leaves the map as it was.
unfoldable pub update_task :
    TaskStore
    → Uuid
    → (Task → Result TaskEngineError Task)
    → (Task → TaskStore → TaskStore)
    → TaskStore × Result TaskEngineError Task
update_task s id change after = elim (lookup id s.inner) [
  | none ↦ (s, err task_not_found)
  | some task ↦ elim (change task) [
    | err e ↦ (s, err e)
    | ok task' ↦ (after task' (record s { inner = insert id task' s.inner }), ok task')
  ]
]

unfoldable pub approve_task : Draws → Text → Option Text → Task → Result TaskEngineError Task
unfolding transition
approve_task c approved_by note task = do
  require (is_write task.operation) approval_not_required
  task' ← transition c.now task queued
  let given : ApprovalRecord = record {
    id = c.approval_id;
    approved_by = approved_by;
    approved_at = c.later;
    note = note;
  }
  ok (record task' { approval = some given })

unfoldable pub cancel_task : Draws → Task → Result TaskEngineError Task
unfolding transition
cancel_task c task = transition c.now task cancelled

unfoldable pub run_task : Draws → Task → Result TaskEngineError Task
unfolding transition
run_task c task = do
  require (not (is_write task.operation && not (is_some task.approval)))
      (domain write_requires_approval)
  transition c.now task running

unfoldable pub succeed_task : Draws → ExecutionReceipt → Task → Result TaskEngineError Task
unfolding transition
succeed_task c receipt task = do
  task' ← transition c.now task succeeded
  ok (record task' { receipt = some receipt })

unfoldable pub fail_task : Draws → Text → Task → Result TaskEngineError Task
unfolding transition
fail_task c reason task = do
  task' ← transition c.now task failed
  let receipt : ExecutionReceipt = record {
    external_request_id = none;
    executed_at = c.later;
    result_summary = reason;
  }
  ok (record task' { receipt = some receipt })

unfoldable pub mark_running : Draws → Uuid → TaskStore → TaskStore × Result TaskEngineError Task
unfolding update_task run_task send
mark_running c id s = update_task s id (run_task c) send

unfoldable pub mark_succeeded :
    Draws → Uuid → ExecutionReceipt → TaskStore → TaskStore × Result TaskEngineError Task
unfolding update_task succeed_task send
mark_succeeded c id receipt s = update_task s id (succeed_task c receipt) send

unfoldable pub mark_failed :
    Draws → Uuid → Text → TaskStore → TaskStore × Result TaskEngineError Task
unfolding update_task fail_task send
mark_failed c id reason s = update_task s id (fail_task c reason) send

-- The operations that drop their locks before they audit and send. `uuid_debug` is the `Debug` output of the `uuid` crate.
module _ (uuid_debug : Uuid → Text) where
  pub task_id_debug : Uuid → Text
  task_id_debug id = text "TaskId(" ++ uuid_debug id ++ text ")"

  unfoldable pub create_dry_run :
      Draws → CreateTask → TaskStore → TaskStore × Result TaskEngineError Task
  unfolding audit_event drop_lock operation_debug task_id_debug existing_task new_task
  create_dry_run c input s = elim (existing_task s (input.tenant_id, input.idempotency_key)) [
    | some existing ↦ (s, ok existing)
    | none ↦
        let task = new_task c input in
        let stored = record s {
          inner = insert task.id task s.inner;
          by_idempotency = insert (input.tenant_id, input.idempotency_key) task.id s.by_idempotency;
        } in
        let event =
          audit_event c (some task.tenant_id) (text "system") (text "task.created")
            (task_id_debug task.id) (operation_debug task.operation ++ text " dry-run created") in
        (drop_lock event task stored, ok task)
  ]

  unfoldable pub after_approve : Draws → Task → TaskStore → TaskStore
  unfolding audit_event drop_lock task_id_debug
  after_approve c task s =
      drop_lock
        (audit_event c (some task.tenant_id) (text "approver") (text "task.approved")
          (task_id_debug task.id) (text "write task approved and queued"))
        task s

  unfoldable pub after_cancel : Draws → Text → Task → TaskStore → TaskStore
  unfolding audit_event drop_lock task_id_debug
  after_cancel c actor task s =
      drop_lock
        (audit_event c (some task.tenant_id) actor (text "task.cancelled") (task_id_debug task.id)
          (text "task cancelled"))
        task s

  unfoldable pub approve :
      Draws → Uuid → Text → Option Text → TaskStore → TaskStore × Result TaskEngineError Task
  unfolding update_task approve_task after_approve
  approve c id approved_by note s =
      update_task s id (approve_task c approved_by note) (after_approve c)

  unfoldable pub cancel : Draws → Uuid → Text → TaskStore → TaskStore × Result TaskEngineError Task
  unfolding update_task cancel_task after_cancel
  cancel c id actor s = update_task s id (cancel_task c) (after_cancel c actor)

-- The calls that change the store. `handle` is one of them up to the end of its locks; where audit and
-- event come after the locks, `resume` does them.
pub data Request : Type 0 where
  create : CreateTask → Request
  approving : Uuid → Text → Option Text → Request
  cancelling : Uuid → Text → Request
  starting : Uuid → Request
  succeeding : Uuid → ExecutionReceipt → Request
  failing : Uuid → Text → Request

module _ (uuid_debug : Uuid → Text) where
  unfoldable pub handle : Draws → Request → TaskStore → TaskStore × Result TaskEngineError Task
  handle c (create input) s = create_dry_run uuid_debug c input s
  handle c (approving id approved_by note) s = approve uuid_debug c id approved_by note s
  handle c (cancelling id actor) s = cancel uuid_debug c id actor s
  handle c (starting id) s = mark_running c id s
  handle c (succeeding id receipt) s = mark_succeeded c id receipt s
  handle c (failing id reason) s = mark_failed c id reason s
