-- ===== src/TaskEngine/Outcomes.antt =====
-- crates/task-engine/src/lib.rs: which calls succeed, and repeated creations.
use ozon_rust_suite.Common.{◌≡◌, ◌↔◌, Bool, true, false, Option, some, Text, Result, ok, err, arith}
use ozon_rust_suite.Common.Assoc.{nat_key, lookup}
use ozon_rust_suite.Domain.Task.{Uuid, Task, ExecutionReceipt, pending_approval, queued, running}
use ozon_rust_suite.TaskEngine.{
  Draws, CreateTask, TaskStore, TaskEngineError, is_terminal, update_task, approve_task,
  cancel_task, run_task, succeed_task, fail_task, after_approve, after_cancel, send, create_dry_run,
  approve, cancel, mark_running, mark_succeeded, mark_failed,
}
use ozon_rust_suite.TaskEngine.Invariant.{IsValid, existing_task-found}

abbrev pub is_ok : {A : Type 0} {E : Type 0} → Result E A → Bool
is_ok (ok _) = true
is_ok (err _) = false

update_task-is_ok :
    (s : TaskStore) (id : Uuid) (change : Task → Result TaskEngineError Task)
    (after : Task → TaskStore → TaskStore) (t : Task)
    → lookup id s.inner ≡ some t
    → is_ok (update_task s id change after).1 ≡ is_ok (change t)
unfolding update_task
update_task-is_ok s id change after t found = ground arith

module _ (uuid_debug : Uuid → Text) {s : TaskStore} (v : IsValid s) (c : Draws) (id : Uuid)
    (t : Task) (found : lookup id s.inner ≡ some t) where
  -- In a valid store the state alone decides which calls on a stored task succeed: an approval, a
  -- task that waits for one; a start, a queued one; a success or a failure, a running one; a
  -- cancellation, one that has not ended.
  pub calls_succeed_iff :
      (by_ reason : Text) (remark : Option Text) (receipt : ExecutionReceipt)
      → ((is_ok (approve uuid_debug c id by_ remark s).1 ≡ true) ↔ (t.state ≡ pending_approval))
        × ((is_ok (mark_running c id s).1 ≡ true) ↔ (t.state ≡ queued))
        × ((is_ok (mark_succeeded c id receipt s).1 ≡ true) ↔ (t.state ≡ running))
        × ((is_ok (mark_failed c id reason s).1 ≡ true) ↔ (t.state ≡ running))
        × ((is_ok (cancel uuid_debug c id by_ s).1 ≡ true) ↔ (is_terminal t.state ≡ false))
  unfolding approve mark_running mark_succeeded mark_failed cancel
  calls_succeed_iff by_ reason remark receipt =
      let sound = (v.keyed id t found).1 in
      (
        ground (
          arith,
          update_task-is_ok s id (approve_task c by_ remark) (after_approve uuid_debug c) t found,
        ),
        ground (arith, update_task-is_ok s id (run_task c) send t found),
        ground (arith, update_task-is_ok s id (succeed_task c receipt) send t found),
        ground (arith, update_task-is_ok s id (fail_task c reason) send t found),
        ground
            (arith, update_task-is_ok s id (cancel_task c) (after_cancel uuid_debug c by_) t found),
      )

module _ (uuid_debug : Uuid → Text) where
  -- In a valid store, a creation under a tenant and an idempotency key of a task that has not ended
  -- returns that task and changes nothing, whatever else the request says.
  pub create_dry_run-existing :
      {s : TaskStore} (c : Draws) (input : CreateTask) (id : Uuid) (t : Task)
      → IsValid s
      → lookup id s.inner ≡ some t
      → is_terminal t.state ≡ false
      → t.tenant_id ≡ input.tenant_id
      → t.idempotency_key ≡ input.idempotency_key
      → create_dry_run uuid_debug c input s ≡ (s, ok t)
  unfolding create_dry_run
  create_dry_run-existing c input id t v found live tenant key = rw (
    create_dry_run,
    existing_task-found v (input.tenant_id, input.idempotency_key) id t found live (cc),
  )
