-- ===== src/Local/Tasks/Bridge.antt =====
-- apps/local-node/src/main.rs: what task requests without the operator's token can do to the tasks.
use ozon_rust_suite.Common.{
  ℕ, ◌≡◌, ◌≢◌, refl, sym, ap, ◌∙◌, ◌⊎◌, inl, inr, none, some, Text, Result, ok, err, arith,
  Bool-cases, Option-cases, if◌then◌else◌, ◌==◌, ==_iff,
}
use ozon_rust_suite.Common.Assoc.{nat_key, lookup, insert, lookup-insert_self, lookup-insert_ne}
use ozon_rust_suite.Domain.Task.{Uuid, Task, is_write, pending_approval, queued}
use ozon_rust_suite.TaskEngine.{
  Draws, CreateTask, TaskStore, TaskEngineError, create_dry_run, existing_task, new_task, drop_lock,
  resume,
}
use ozon_rust_suite.TaskEngine.Invariant.{resume-inner}
use ozon_rust_suite.Local.{ApiError, LocalConfig}
use ozon_rust_suite.Local.Access.{
  Headers, require_operator_token, require_bridge_or_operator_token, require_operator_token_iff,
}
use ozon_rust_suite.Local.Tasks.{
  RequestDraws, Call, dry_run_call, propose_call, approve_call, cancel_call, execute_call, guarded,
  new_request, proposal, post_dry_run, post_proposal, post_approve, post_cancel, start_mock_task,
  serve,
}

-- A task as a creation makes it: a write task waits for an approval, and has none.
pub record IsProposal (t : Task) : Type 0 where
  pub state : t.state ≡ (if is_write t.operation then pending_approval else queued)
  pub unapproved : t.approval ≡ none
  pub unexecuted : t.receipt ≡ none

-- What one step does to the tasks: nothing, or it adds a proposal.
data Proposes (c : Draws) (s u : TaskStore) : Type 0 where
  same_tasks : u.inner ≡ s.inner → Proposes c s u
  adds : (t : Task) → IsProposal t → u.inner ≡ insert c.task_id t s.inner → Proposes c s u

create_dry_run-Proposes :
    (uuid_debug : Uuid → Text) (c : Draws) (input : CreateTask) (s : TaskStore)
    → Proposes c s (create_dry_run uuid_debug c input s).0
unfolding create_dry_run new_task drop_lock
create_dry_run-Proposes uuid_debug c input s =
    elim (Option-cases (existing_task s (input.tenant_id, input.idempotency_key))) [
      | inr (t, e) ↦ same_tasks (ground (arith, e))
      | inl e ↦
          adds (new_task c input) (record { state = refl; unapproved = refl; unexecuted = refl })
            (ground (arith, e))
    ]

module _ (uuid_debug : Uuid → Text) (to_string : TaskEngineError → Text)
    (config : LocalConfig) where
  refused :
      (headers : Headers)
      → headers.x_local_token ≢ some config.operator_token
      → (e : ApiError) × (require_operator_token config headers ≡ err e)
  refused headers stranger = go (require_operator_token config headers) refl
    where
      go :
          (r : Result ApiError (Unit {0}))
          → require_operator_token config headers ≡ r
          → (e : ApiError) × (require_operator_token config headers ≡ err e)
      go (ok _) p = absurd (stranger ((require_operator_token_iff config headers).0 p))
      go (err e) p = (e, p)

  guarded-Proposes :
      (c : Draws) (s : TaskStore) (check : Result ApiError (Unit {0}))
      (r : TaskStore × Result ApiError Task)
      → Proposes c s r.0
      → Proposes c s (guarded check s r).0
  guarded-Proposes c s (ok _) r p = p
  guarded-Proposes c s (err e) r p = same_tasks refl

  serve-Proposes :
      (c : RequestDraws) (headers : Headers) (call : Call) (s : TaskStore)
      → headers.x_local_token ≢ some config.operator_token
      → Proposes c.engine s (serve uuid_debug to_string config c headers call s).0
  unfolding serve post_dry_run post_proposal post_approve post_cancel start_mock_task
  serve-Proposes c headers (dry_run_call input) s stranger =
      guarded-Proposes c.engine s (require_bridge_or_operator_token config headers) _ (
        create_dry_run-Proposes uuid_debug c.engine
          (new_request uuid_debug to_string config c input) s)
  serve-Proposes c headers (propose_call lease input) s stranger =
      guarded-Proposes c.engine s (require_bridge_or_operator_token config headers) _ (
        guarded-Proposes c.engine s lease _ (
          create_dry_run-Proposes uuid_debug c.engine (proposal uuid_debug to_string config c input)
            s))
  serve-Proposes c headers (approve_call id input) s stranger =
      let (e, off) = refused headers stranger in same_tasks (rw off refl)
  serve-Proposes c headers (cancel_call id) s stranger =
      let (e, off) = refused headers stranger in same_tasks (rw off refl)
  serve-Proposes c headers (execute_call id) s stranger =
      let (e, off) = refused headers stranger in same_tasks (rw off refl)

  -- A run of task requests, none of which carries the operator's token, each with a new task
  -- identifier that is not in use, with what is left of them after their locks at any later moment.
  pub data BridgeRun : TaskStore → TaskStore → Type 0 where
    done : {s : TaskStore} → BridgeRun s s
    next :
        {s u : TaskStore} (c : RequestDraws) (headers : Headers) (call : Call)
        → headers.x_local_token ≢ some config.operator_token
        → lookup c.engine.task_id s.inner ≡ none
        → BridgeRun (serve uuid_debug to_string config c headers call s).0 u
        → BridgeRun s u
    resumed : {s u : TaskStore} (i : ℕ) → BridgeRun (resume i s) u → BridgeRun s u

  -- A task by its identifier, after a run: it stands as it did, or it was not there and is a proposal.
  abbrev pub StandsOrProposed : TaskStore → TaskStore → Uuid → Type 0
  StandsOrProposed s u id =
      (lookup id u.inner ≡ lookup id s.inner)
      ⊎ ((lookup id s.inner ≡ none) × (t : Task) × (lookup id u.inner ≡ some t) × IsProposal t)

  step_stands :
      {c : Draws} {s u : TaskStore}
      → Proposes c s u
      → lookup c.task_id s.inner ≡ none
      → (id : Uuid) → StandsOrProposed s u id
  step_stands (same_tasks p) fresh id = inl (rw p refl)
  step_stands {c} {s} (adds new isnew p) fresh id = elim (Bool-cases (c.task_id == id)) [
    | inl e ↦
        let same : c.task_id ≡ id = (==_iff c.task_id id).0 e in
        inr
          (rw (← same) fresh, new, rw (p, ← same) (lookup-insert_self c.task_id new s.inner), isnew)
    | inr e ↦ inl (rw p (lookup-insert_ne new s.inner (λ q. cc (e, (==_iff c.task_id id).1 q))))
  ]

  -- After any run of task requests (dry run, proposal, approval, cancellation, execution) without the
  -- operator's token, there is under every identifier what the task map had there before, the task's
  -- state, approval and receipt included; or there was nothing, and now there is a proposal: a task
  -- without approval and receipt that waits for an approval if its operation writes.
  pub BridgeRun-proposes : {s u : TaskStore} → BridgeRun s u → (id : Uuid) → StandsOrProposed s u id
  BridgeRun-proposes done id = inl refl
  BridgeRun-proposes {s} (next c headers call stranger fresh rest) id =
      let step = step_stands (serve-Proposes c headers call s stranger) fresh id in
      elim (BridgeRun-proposes rest id) [
        | inl same ↦ elim step [
          | inl first ↦ inl (same ∙ first)
          | inr (gone, t, found, it) ↦ inr (gone, t, same ∙ found, it)
        ]
        | inr (gone, t, found, it) ↦ elim step [
          | inl first ↦ inr (sym first ∙ gone, t, found, it)
          | inr (_, other, there, _) ↦ cc (gone, there)
        ]
      ]
  BridgeRun-proposes {s} (resumed i rest) id =
      let same = ap (lookup id) (resume-inner i s) in
      elim (BridgeRun-proposes rest id) [
        | inl kept ↦ inl (kept ∙ same)
        | inr (gone, t, found, it) ↦ inr (sym same ∙ gone, t, found, it)
      ]
