-- ===== src/TaskEngine/Lifecycle.antt =====
-- crates/task-engine/src/lib.rs: what one change does to a task.
use ozon_rust_suite.Common.{◌≡◌, Bool, true, false, Option, none, Text, ok, arith, is_some}
use ozon_rust_suite.Domain.Task.{
  Task, ExecutionReceipt, is_write, can_transition_to, TaskState, pending_approval, queued, running,
  succeeded, failed, draft,
}
use ozon_rust_suite.TaskEngine.{
  Draws, is_terminal, approve_task, cancel_task, run_task, succeed_task, fail_task,
}

-- What a change leaves alone, and the move that it makes.
pub record Moves (t t' : Task) : Type 0 where
  pub id : t'.id ≡ t.id
  pub tenant_id : t'.tenant_id ≡ t.tenant_id
  pub idempotency_key : t'.idempotency_key ≡ t.idempotency_key
  pub operation : t'.operation ≡ t.operation
  pub created_at : t'.created_at ≡ t.created_at
  pub moved : can_transition_to t.state t'.state ≡ true

abbrev pub is_finished : TaskState → Bool
is_finished succeeded = true
is_finished failed = true
is_finished _ = false

abbrev pub is_released : TaskState → Bool
is_released queued = true
is_released running = true
is_released succeeded = true
is_released failed = true
is_released _ = false

-- What holds of every stored task.
pub record IsSound (t : Task) : Type 0 where
  pub released :
      is_write t.operation ≡ true → is_released t.state ≡ true → is_some t.approval ≡ true
  pub unread : is_write t.operation ≡ false → t.approval ≡ none
  pub waiting : t.state ≡ pending_approval → (is_write t.operation ≡ true) × (t.approval ≡ none)
  pub begun : t.state ≡ draft → ⊥
  pub receipted : is_some t.receipt ≡ is_finished t.state

module _ (c : Draws) {t t' : Task} where
  pub approve_task-Moves :
      (approved_by : Text) (remark : Option Text)
      → approve_task c approved_by remark t ≡ ok t'
      → Moves t t'
  unfolding approve_task
  approve_task-Moves approved_by remark h = ground arith

  pub approve_task-IsSound :
      (approved_by : Text) (remark : Option Text)
      → approve_task c approved_by remark t ≡ ok t'
      → IsSound t
      → IsSound t'
  unfolding approve_task
  approve_task-IsSound approved_by remark h s = ground arith

  pub cancel_task-Moves : cancel_task c t ≡ ok t' → Moves t t'
  unfolding cancel_task
  cancel_task-Moves h = ground arith

  pub cancel_task-IsSound : cancel_task c t ≡ ok t' → IsSound t → IsSound t'
  unfolding cancel_task
  cancel_task-IsSound h s = ground arith

  pub run_task-Moves : run_task c t ≡ ok t' → Moves t t'
  unfolding run_task
  run_task-Moves h = ground arith

  pub run_task-IsSound : run_task c t ≡ ok t' → IsSound t → IsSound t'
  unfolding run_task
  run_task-IsSound h s = ground arith

  pub succeed_task-Moves :
      (receipt : ExecutionReceipt) → succeed_task c receipt t ≡ ok t' → Moves t t'
  unfolding succeed_task
  succeed_task-Moves receipt h = ground arith

  pub succeed_task-IsSound :
      (receipt : ExecutionReceipt) → succeed_task c receipt t ≡ ok t' → IsSound t → IsSound t'
  unfolding succeed_task
  succeed_task-IsSound receipt h s = ground arith

  pub fail_task-Moves : (reason : Text) → fail_task c reason t ≡ ok t' → Moves t t'
  unfolding fail_task
  fail_task-Moves reason h = ground arith

  pub fail_task-IsSound : (reason : Text) → fail_task c reason t ≡ ok t' → IsSound t → IsSound t'
  unfolding fail_task
  fail_task-IsSound reason h s = ground arith

pub Moves-not_terminal : {t t' : Task} → Moves t t' → is_terminal t.state ≡ false
Moves-not_terminal m = ground arith
