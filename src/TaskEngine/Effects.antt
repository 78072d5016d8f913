-- ===== src/TaskEngine/Effects.antt =====
-- crates/task-engine/src/lib.rs: what one call does to the store, as one of four effects.
use ozon_rust_suite.Common.{
  ◌≡◌, refl, ◌⊎◌, inl, inr, false, some, Text, Result, ok, err, [], ◌∷◌, ◌++◌, Option-cases,
}
use ozon_rust_suite.Common.Assoc.{nat_key, lookup, insert}
use ozon_rust_suite.Domain.Task.{Uuid, Task, AuditEvent}
use ozon_rust_suite.TaskEngine.{
  Draws, CreateTask, TaskEngineError, TaskStore, changed, to_audit, Request, create, approving,
  cancelling, starting, succeeding, failing, is_terminal, new_task, existing_task, update_task,
  approve_task, cancel_task, run_task, succeed_task, fail_task, after_approve, after_cancel, send,
  create_dry_run, approve, cancel, mark_running, mark_succeeded, mark_failed, handle,
}
use ozon_rust_suite.TaskEngine.Lifecycle.{
  Moves, approve_task-Moves, cancel_task-Moves, run_task-Moves, succeed_task-Moves, fail_task-Moves,
}
use ozon_rust_suite.TaskEngine.Update.{update_task-cases}
use ozon_rust_suite.TaskEngine.Invariant.{IsValid, existing_task-inv}

-- The new state of a task is made known: its event is sent under the lock, or it is left to send.
abbrev pub Announces : TaskStore → TaskStore → Task → Type 0
Announces s s' t =
    ((s'.events ≡ s.events ++ changed t ∷ []) × (s'.unsent ≡ s.unsent))
    ⊎ ((s'.events ≡ s.events) × (e : AuditEvent) × (s'.unsent ≡ s.unsent ++ to_audit e t ∷ []))

-- A call in a store, as one of three: nothing changes; a task is created; a task moves.
pub data Effect (c : Draws) (s : TaskStore) : TaskStore × Result TaskEngineError Task → Type 0 where
  refused : (e : TaskEngineError) → Effect c s (s, err e)
  reused :
      {t : Task} → lookup t.id s.inner ≡ some t → is_terminal t.state ≡ false → Effect c s (s, ok t)
  created :
      {s' : TaskStore} {t : Task}
      → t.id ≡ c.task_id
      → s'.inner ≡ insert c.task_id t s.inner
      → Announces s s' t
      → Effect c s (s', ok t)
  moved :
      {s' : TaskStore} (id : Uuid) {t t' : Task}
      → lookup id s.inner ≡ some t
      → Moves t t'
      → s'.inner ≡ insert id t' s.inner
      → Announces s s' t'
      → Effect c s (s', ok t')

module _ (uuid_debug : Uuid → Text) where
  update_task-Effect :
      {s : TaskStore} (c : Draws) (id : Uuid) (change : Task → Result TaskEngineError Task)
      (after : Task → TaskStore → TaskStore)
      → ((t : Task) (r : TaskStore) → (after t r).inner ≡ r.inner)
      → ((t : Task) (r : TaskStore) → Announces r (after t r) t)
      → ((t t' : Task) → change t ≡ ok t' → Moves t t')
      → Effect c s (update_task s id change after)
  update_task-Effect {s} c id change after inner announces moves =
      elim (update_task-cases s id change after) [
        | inl (e, left) ↦ rw left (refused e)
        | inr (t, t', found, done, result) ↦
            rw result (moved id found (moves t t' done) (inner t' _) (announces t' _))
      ]

  create_dry_run-Effect :
      {s : TaskStore} (c : Draws) (input : CreateTask)
      → IsValid s
      → Effect c s (create_dry_run uuid_debug c input s)
  unfolding create_dry_run
  create_dry_run-Effect {s} c input v =
      elim (Option-cases (existing_task s (input.tenant_id, input.idempotency_key))) [
        | inl absent ↦
            rw (create_dry_run, absent)
              (created (unfold new_task in refl) refl (inr (refl, _, refl)))
        | inr (t, there) ↦
            let (found, live, _) = existing_task-inv v _ there in
            rw (create_dry_run, there) (reused found live)
      ]

  pub handle-Effect :
      {s : TaskStore} (c : Draws) (r : Request) → IsValid s → Effect c s (handle uuid_debug c r s)
  unfolding handle approve cancel mark_running mark_succeeded mark_failed
  handle-Effect c (create input) v = create_dry_run-Effect c input v
  handle-Effect c (approving id by_ remark) v =
      update_task-Effect c id (approve_task c by_ remark) (after_approve uuid_debug c) (λ _ _. refl)
        (λ _ _. inr (refl, _, refl)) (λ _ _. approve_task-Moves c by_ remark)
  handle-Effect c (cancelling id actor) v =
      update_task-Effect c id (cancel_task c) (after_cancel uuid_debug c actor) (λ _ _. refl)
        (λ _ _. inr (refl, _, refl)) (λ _ _. cancel_task-Moves c)
  handle-Effect c (starting id) v =
      update_task-Effect c id (run_task c) send (λ _ _. refl) (λ _ _. inl (refl, refl))
        (λ _ _. run_task-Moves c)
  handle-Effect c (succeeding id receipt) v =
      update_task-Effect c id (succeed_task c receipt) send (λ _ _. refl) (λ _ _. inl (refl, refl))
        (λ _ _. succeed_task-Moves c receipt)
  handle-Effect c (failing id reason) v =
      update_task-Effect c id (fail_task c reason) send (λ _ _. refl) (λ _ _. inl (refl, refl))
        (λ _ _. fail_task-Moves c reason)
