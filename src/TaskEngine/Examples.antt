-- ===== src/TaskEngine/Examples.antt =====
-- Runs of the task engine, and instances of its theorems.
use ozon_rust_suite.Common.{
  ◌≡◌, refl, ◌⊎◌, ◌↔◌, true, false, none, some, text, [], ◌∷◌, Text, ℕ, is_some,
}
use ozon_rust_suite.Common.Assoc.{nat_key, lookup, insert}
use ozon_rust_suite.Domain.Task.{
  Uuid, Task, ExecutionReceipt, open_claw, ozon_update_price_mock, high, pending_approval, queued,
  running, succeeded,
}
use ozon_rust_suite.TaskEngine.{
  Draws, CreateTask, TaskStore, Request, create, approving, cancelling, starting, succeeding,
  is_terminal, new, new_task, create_dry_run, approve, mark_running, mark_succeeded, mark_failed,
  cancel, handle, resume, take_out, changed,
}
use ozon_rust_suite.TaskEngine.Lifecycle.{Moves}
use ozon_rust_suite.TaskEngine.Invariant.{IsValid, handle-IsValid}
use ozon_rust_suite.TaskEngine.History.{
  Reach, start, call, Reach-IsValid, Reach-approved, Reach-unique_live, handle_preserves, done,
  then, Run-terminal,
}
use ozon_rust_suite.TaskEngine.Outcomes.{is_ok, calls_succeed_iff}
use ozon_rust_suite.TaskEngine.Announced.{IsAnnounced, Reach-IsAnnounced}

abbrev no_debug : Uuid → Text
no_debug _ = []

abbrev draws : Uuid → Draws
draws id = record {
  now = 10;
  later = 11;
  audit_at = 12;
  task_id = id;
  approval_id = 5;
  audit_id = 6;
}

abbrev price_update : CreateTask
price_update = record {
  tenant_id = 1;
  shop_id = text "shop-1";
  source = open_claw;
  operation = ozon_update_price_mock;
  dry_run = record {
    summary = text "mock price update";
    target_count = 1;
    changes = [];
    warnings = [];
  };
  risk = high;
  idempotency_key = text "idem-1";
}

abbrev receipt : ExecutionReceipt
receipt = record { external_request_id = none; executed_at = 9; result_summary = text "done" }

abbrev after : TaskStore → Draws → Request → TaskStore
after s c r = (handle no_debug c r s).0

abbrev s1 : TaskStore
s1 = after new (draws 7) (create price_update)

abbrev s2 : TaskStore
s2 = after s1 (draws 8) (approving 7 (text "operator") none)

abbrev s3 : TaskStore
s3 = after s2 (draws 8) (starting 7)

abbrev s4 : TaskStore
s4 = after s3 (draws 8) (succeeding 7 receipt)

-- The task of each store.
abbrev waiting : Task
unfolding new_task
waiting = new_task (draws 7) price_update

r1 : Reach no_debug s1
unfolding lookup
r1 = call (draws 7) (create price_update) start refl

write_task_requires_approval :
    (is_ok (mark_running (draws 8) 7 s1).1 ≡ false) × (is_ok (mark_running (draws 8) 7 s2).1 ≡ true)
unfolding handle lookup insert create_dry_run approve mark_running
write_task_requires_approval = (refl, refl)

abbrev released : Task
released = record waiting {
  state = queued;
  approval = some (record { id = 5; approved_by = text "operator"; approved_at = 11; note = none });
}

r2 : Reach no_debug s2
unfolding lookup insert handle create_dry_run
r2 = call (draws 8) (approving 7 (text "operator") none) r1 refl

abbrev ended : Task
ended = record released { state = succeeded; receipt = some receipt }

r4 : Reach no_debug s4
unfolding lookup insert handle create_dry_run approve mark_running
r4 = call (draws 8) (succeeding 7 receipt) (call (draws 8) (starting 7) r2 refl) refl

handle-IsValid_example : IsValid s2
unfolding lookup insert handle create_dry_run
handle-IsValid_example =
    handle-IsValid no_debug (draws 8) s1 (approving 7 (text "operator") none)
      (Reach-IsValid no_debug r1) refl

Reach-approved_example : is_some released.approval ≡ true
unfolding lookup insert handle create_dry_run approve
Reach-approved_example = Reach-approved no_debug r2 7 released refl refl refl

Reach-unique_live_example : ◌≡◌ {A = ℕ} 7 7
unfolding lookup insert handle create_dry_run
Reach-unique_live_example =
    Reach-unique_live no_debug r1 7 7 waiting waiting refl refl refl refl refl refl

handle_preserves_example :
    (u : Task) × (lookup 7 (handle no_debug (draws 8) (starting 7) s2).0.inner ≡ some u)
    × ((u ≡ released) ⊎ Moves released u)
unfolding lookup insert handle create_dry_run approve
handle_preserves_example =
    handle_preserves no_debug (draws 8) (starting 7) 7 released (Reach-IsValid no_debug r2) refl
      refl

Run-terminal_example :
    lookup 7 (handle no_debug (draws 8) (cancelling 7 (text "operator")) s4).0.inner ≡ some ended
unfolding lookup insert handle create_dry_run approve mark_running mark_succeeded
Run-terminal_example =
    Run-terminal no_debug (then (draws 8) (cancelling 7 (text "operator")) refl done) 7 ended
      (Reach-IsValid no_debug r4) refl refl

calls_succeed_iff_example :
    ((is_ok (approve no_debug (draws 8) 7 [] none s1).1 ≡ true)
      ↔ (waiting.state ≡ pending_approval))
    × ((is_ok (mark_running (draws 8) 7 s1).1 ≡ true) ↔ (waiting.state ≡ queued))
    × ((is_ok (mark_succeeded (draws 8) 7 receipt s1).1 ≡ true) ↔ (waiting.state ≡ running))
    × ((is_ok (mark_failed (draws 8) 7 [] s1).1 ≡ true) ↔ (waiting.state ≡ running))
    × ((is_ok (cancel no_debug (draws 8) 7 [] s1).1 ≡ true) ↔ (is_terminal waiting.state ≡ false))
unfolding lookup insert handle create_dry_run
calls_succeed_iff_example =
    calls_succeed_iff no_debug (Reach-IsValid no_debug r1) (draws 8) 7 waiting refl [] [] none
      receipt

Reach-IsAnnounced_example : IsAnnounced s4
Reach-IsAnnounced_example = Reach-IsAnnounced no_debug r4

-- An approval that drops its lock is overtaken by the start of the task: the start sends its event
-- under the lock, and the approval's event, with the queued task, comes after it.
abbrev overtaken : TaskStore
overtaken = resume 0 (
    resume 0 (
      after (after (resume 0 (resume 0 s1)) (draws 8) (approving 7 (text "operator") none))
        (draws 8) (starting 7)))

abbrev started : Task
started = record released { state = running }

approval_overtaken :
    (overtaken.events ≡ changed waiting ∷ changed started ∷ changed released ∷ [])
    × (lookup 7 overtaken.inner ≡ some started)
    × (overtaken.unsent ≡ [])
unfolding handle lookup insert create_dry_run approve mark_running resume take_out
approval_overtaken = (refl, refl, refl)
