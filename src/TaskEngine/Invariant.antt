-- ===== src/TaskEngine/Invariant.antt =====
-- crates/task-engine/src/lib.rs: what holds of the store between two operations.
use ozon_rust_suite.Common.{
  ℕ, ◌≡◌, refl, sym, ap, ◌∙◌, ◌==◌, ==_iff, inl, inr, false, none, some, Text, Result, ok, arith,
  Bool-cases, Option-cases,
}
use mathlib.Core.Path.{subst}
use ozon_rust_suite.Common.Assoc.{
  pair_key, nat_key, lookup, insert, lookup-insert_inv, lookup-insert_self, lookup-insert_ne,
}
use ozon_rust_suite.Domain.Task.{Uuid, Task}
use ozon_rust_suite.TaskEngine.{
  Draws, CreateTask, TaskEngineError, TaskStore, Request, create, approving, cancelling, starting,
  succeeding, failing, is_terminal, new, new_task, existing_task, update_task, approve_task,
  cancel_task, run_task, succeed_task, fail_task, after_approve, after_cancel, send, approve,
  cancel, mark_running, mark_succeeded, mark_failed, create_dry_run, handle, resume, take_out,
  to_audit, to_send,
}
use ozon_rust_suite.TaskEngine.Update.{update_task-cases}
use ozon_rust_suite.TaskEngine.Lifecycle.{
  Moves, IsSound, Moves-not_terminal, approve_task-Moves, approve_task-IsSound, cancel_task-Moves,
  cancel_task-IsSound, run_task-Moves, run_task-IsSound, succeed_task-Moves, succeed_task-IsSound,
  fail_task-Moves, fail_task-IsSound,
}

-- A task stands under its own identifier and is sound; the idempotency index names every task that
-- has not ended, and names nothing that is not stored.
pub record IsValid (s : TaskStore) : Type 0 where
  pub keyed : (id : Uuid) (t : Task) → lookup id s.inner ≡ some t → (t.id ≡ id) × IsSound t
  pub indexed :
      (id : Uuid) (t : Task)
      → lookup id s.inner ≡ some t
      → is_terminal t.state ≡ false
      → lookup (t.tenant_id, t.idempotency_key) s.by_idempotency ≡ some id
  pub stored :
      (key : Uuid × Text) (id : Uuid)
      → lookup key s.by_idempotency ≡ some id
      → (t : Task) × (lookup id s.inner ≡ some t) × ((t.tenant_id, t.idempotency_key) ≡ key)

pub new-IsValid : IsValid new
unfolding lookup
new-IsValid = record { keyed = λ id t h. cc; indexed = λ id t h k. cc; stored = λ key id h. cc }

-- Only the maps matter.
IsValid-maps :
    {s : TaskStore} (s' : TaskStore)
    → s'.inner ≡ s.inner
    → s'.by_idempotency ≡ s.by_idempotency
    → IsValid s
    → IsValid s'
IsValid-maps s' p q v = record {
  keyed = λ id t h. v.keyed id t (rw p at h);
  indexed = λ id t h k. rw q (v.indexed id t (rw p at h) k);
  stored = λ key id h. let (t, a, b) = v.stored key id (rw q at h) in (t, rw p a, b);
}

-- What is left of a call after its locks touches neither map.
resume_maps :
    (i : ℕ) (s : TaskStore)
    → ((resume i s).inner ≡ s.inner) × ((resume i s).by_idempotency ≡ s.by_idempotency)
unfolding resume
resume_maps i s = elim (Option-cases (take_out i s.unsent)) [
  | inl e ↦ rw (resume, e) (refl, refl)
  | inr ((to_audit a t, rest), e) ↦ rw (resume, e) (refl, refl)
  | inr ((to_send t, rest), e) ↦ rw (resume, e) (refl, refl)
]

pub resume-inner : (i : ℕ) (s : TaskStore) → (resume i s).inner ≡ s.inner
resume-inner i s = (resume_maps i s).0

pub resume-IsValid : {s : TaskStore} (i : ℕ) → IsValid s → IsValid (resume i s)
resume-IsValid {s} i v =
    let (inner, index) = resume_maps i s in IsValid-maps (resume i s) inner index v

-- A task that moves in place keeps the store valid.
insert-IsValid :
    (s : TaskStore) (id : Uuid) {t : Task} (t' : Task)
    → IsValid s
    → lookup id s.inner ≡ some t
    → Moves t t'
    → IsSound t'
    → IsValid (record s { inner = insert id t' s.inner })
insert-IsValid s id {t} t' v found m sound = record {
  keyed = λ j u h. elim (lookup-insert_inv s.inner h) [
    | inl (here, it) ↦ let old = v.keyed id t found in (cc (m.id, old.0), rw it at sound)
    | inr (_, old) ↦ v.keyed j u old
  ];
  indexed = λ j u h k. elim (lookup-insert_inv s.inner h) [
    | inl (here, it) ↦
        let old = v.indexed id t found (Moves-not_terminal m) in
        rw (← here, ← it, m.tenant_id, m.idempotency_key) old
    | inr (_, old) ↦ v.indexed j u old k
  ];
  stored = λ key j h.
      let (u, old, named) = v.stored key j h in
      elim (Bool-cases (id == j)) [
        | inl e ↦
            let here = (==_iff id j).0 e in
            let same : u ≡ t = ground arith in
            (
              t',
              rw here (lookup-insert_self j t' s.inner),
              rw (m.tenant_id, m.idempotency_key) (rw same at named),
            )
        | inr e ↦ (u, lookup-insert_ne t' s.inner (λ p. cc (e, (==_iff id j).1 p)) ∙ old, named)
      ];
}

module _ {s : TaskStore} (v : IsValid s) (id : Uuid) (change : Task → Result TaskEngineError Task)
    (after : Task → TaskStore → TaskStore)
    (inner_kept : (t : Task) (r : TaskStore) → (after t r).inner ≡ r.inner)
    (index_kept : (t : Task) (r : TaskStore) → (after t r).by_idempotency ≡ r.by_idempotency)
    (moves : (t t' : Task) → change t ≡ ok t' → Moves t t')
    (sound : (t t' : Task) → change t ≡ ok t' → IsSound t → IsSound t') where
  update_task-IsValid : IsValid (update_task s id change after).0
  update_task-IsValid = elim (update_task-cases s id change after) [
    | inl (e, left) ↦ rw left v
    | inr (t, t', found, done, result) ↦ rw result (
        IsValid-maps (after t' (record s { inner = insert id t' s.inner })) (inner_kept t' _)
          (index_kept t' _)
          (insert-IsValid s id t' v found (moves t t' done)
            (sound t t' done (v.keyed id t found).1)))
  ]

-- The task that a creation stores.
new_task-IsSound : (c : Draws) (input : CreateTask) → IsSound (new_task c input)
unfolding new_task
new_task-IsSound c input = ground arith

module _ {s : TaskStore} (v : IsValid s) (key : Uuid × Text) where
  -- A stored task that has not ended is the one that its key finds.
  pub existing_task-found :
      (id : Uuid) (t : Task)
      → lookup id s.inner ≡ some t
      → is_terminal t.state ≡ false
      → (t.tenant_id, t.idempotency_key) ≡ key
      → existing_task s key ≡ some t
  unfolding existing_task
  existing_task-found id t found live named =
      let index : lookup key s.by_idempotency ≡ some id = rw named at (v.indexed id t found live) in
      rw (existing_task, index, found, live)

  -- What the key finds is stored under it and has not ended.
  pub existing_task-inv :
      {t : Task}
      → existing_task s key ≡ some t
      → (lookup t.id s.inner ≡ some t)
        × (is_terminal t.state ≡ false)
        × ((t.tenant_id, t.idempotency_key) ≡ key)
  unfolding existing_task
  existing_task-inv {t} h = elim (Option-cases (lookup key s.by_idempotency)) [
    | inl missing ↦ absurd (ground arith)
    | inr (id, index) ↦
        let (u, found, named) = v.stored key id index in
        let it : u ≡ t = ground arith in
        let live : is_terminal u.state ≡ false = ground arith in
        let here : u.id ≡ id = (v.keyed id u found).0 in
        subst
          (λ w.
            (lookup w.id s.inner ≡ some w)
            × (is_terminal w.state ≡ false)
            × ((w.tenant_id, w.idempotency_key) ≡ key))
          it (ap (λ k. lookup k s.inner) here ∙ found, live, named)
  ]

module _ {s : TaskStore} (v : IsValid s) (c : Draws) (input : CreateTask)
    (fresh : lookup c.task_id s.inner ≡ none)
    (absent : existing_task s (input.tenant_id, input.idempotency_key) ≡ none) where
  stored-IsValid : IsValid (record s {
    inner = insert c.task_id (new_task c input) s.inner;
    by_idempotency = insert (input.tenant_id, input.idempotency_key) c.task_id s.by_idempotency;
  })
  unfolding new_task
  stored-IsValid = record {
    keyed = λ j u h. elim (lookup-insert_inv s.inner h) [
      | inl (here, it) ↦ rw (← it, ← here) (refl, new_task-IsSound c input)
      | inr (_, old) ↦ v.keyed j u old
    ];
    indexed = λ j u h k. elim (lookup-insert_inv s.inner h) [
      | inl (here, it) ↦
          rw (← it, ← here)
            (lookup-insert_self (input.tenant_id, input.idempotency_key) c.task_id s.by_idempotency)
      | inr (_, old) ↦
          lookup-insert_ne c.task_id s.by_idempotency
            (λ p. cc (absent, existing_task-found v _ j u old k (sym p)))
          ∙ v.indexed j u old k
    ];
    stored = λ key j h. elim (lookup-insert_inv s.by_idempotency h) [
      | inl (named, here) ↦ (
        new_task c input,
        rw (← here) (lookup-insert_self c.task_id (new_task c input) s.inner),
        named,
      )
      | inr (_, old) ↦
          let (u, found, named) = v.stored key j old in
          (
            u,
            lookup-insert_ne (new_task c input) s.inner (λ p. cc (fresh, rw (← p) at found))
                ∙ found,
            named,
          )
    ];
  }

module _ (uuid_debug : Uuid → Text) (c : Draws) where
  create_dry_run-IsValid :
      {s : TaskStore} (input : CreateTask)
      → IsValid s
      → lookup c.task_id s.inner ≡ none
      → IsValid (create_dry_run uuid_debug c input s).0
  unfolding create_dry_run
  create_dry_run-IsValid {s} input v fresh =
      elim (Option-cases (existing_task s (input.tenant_id, input.idempotency_key))) [
        | inl absent ↦
            rw (create_dry_run, absent)
              (IsValid-maps _ refl refl (stored-IsValid v c input fresh absent))
        | inr (t, there) ↦ rw (create_dry_run, there) v
      ]

  -- Every operation keeps the store valid, whether it succeeds or fails, when the identifier that
  -- it draws for a task is not in use.
  pub handle-IsValid :
      (s : TaskStore) (r : Request)
      → IsValid s
      → lookup c.task_id s.inner ≡ none
      → IsValid (handle uuid_debug c r s).0
  unfolding handle approve cancel mark_running mark_succeeded mark_failed
  handle-IsValid s (create input) v fresh = create_dry_run-IsValid input v fresh
  handle-IsValid s (approving id by_ remark) v fresh =
      update_task-IsValid v id (approve_task c by_ remark) (after_approve uuid_debug c)
        (λ _ _. refl) (λ _ _. refl) (λ _ _. approve_task-Moves c by_ remark)
        (λ _ _. approve_task-IsSound c by_ remark)
  handle-IsValid s (cancelling id actor) v fresh =
      update_task-IsValid v id (cancel_task c) (after_cancel uuid_debug c actor) (λ _ _. refl)
        (λ _ _. refl) (λ _ _. cancel_task-Moves c) (λ _ _. cancel_task-IsSound c)
  handle-IsValid s (starting id) v fresh =
      update_task-IsValid v id (run_task c) send (λ _ _. refl) (λ _ _. refl)
        (λ _ _. run_task-Moves c) (λ _ _. run_task-IsSound c)
  handle-IsValid s (succeeding id receipt) v fresh =
      update_task-IsValid v id (succeed_task c receipt) send (λ _ _. refl) (λ _ _. refl)
        (λ _ _. succeed_task-Moves c receipt) (λ _ _. succeed_task-IsSound c receipt)
  handle-IsValid s (failing id reason) v fresh =
      update_task-IsValid v id (fail_task c reason) send (λ _ _. refl) (λ _ _. refl)
        (λ _ _. fail_task-Moves c reason) (λ _ _. fail_task-IsSound c reason)
