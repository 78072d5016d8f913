-- ===== src/TaskEngine/History.antt =====
-- crates/task-engine/src/lib.rs: what holds along every sequence of operations.
use ozon_rust_suite.Common.{
  ℕ, ◌≡◌, refl, ap, ◌∙◌, ◌⊎◌, inl, inr, true, false, none, some, Text, Result, err, arith, is_some,
  Bool-cases, ◌==◌, ==_iff,
}
use ozon_rust_suite.Common.Assoc.{nat_key, lookup, lookup-insert_self, lookup-insert_ne}
use ozon_rust_suite.Domain.Task.{Uuid, Task, is_write}
use ozon_rust_suite.TaskEngine.{
  Draws, TaskEngineError, TaskStore, Request, is_terminal, new, handle, resume,
}
use ozon_rust_suite.TaskEngine.Lifecycle.{Moves, Moves-not_terminal, is_released}
use ozon_rust_suite.TaskEngine.Effects.{Effect, refused, reused, created, moved, handle-Effect}
use ozon_rust_suite.TaskEngine.Invariant.{
  IsValid, new-IsValid, handle-IsValid, resume-inner, resume-IsValid,
}

module _ (uuid_debug : Uuid → Text) where
  -- The stores that calls lead to, from the new one, with what is left of a call after its locks
  -- done at any later moment. A creation draws an identifier not in use.
  pub data Reach : TaskStore → Type 0 where
    start : Reach new
    call :
        {s : TaskStore} (c : Draws) (r : Request)
        → Reach s
        → lookup c.task_id s.inner ≡ none
        → Reach (handle uuid_debug c r s).0
    resumed : {s : TaskStore} (i : ℕ) → Reach s → Reach (resume i s)

  pub Reach-IsValid : {s : TaskStore} → Reach s → IsValid s
  Reach-IsValid start = new-IsValid
  Reach-IsValid (call {s} c r reach fresh) =
      handle-IsValid uuid_debug c s r (Reach-IsValid reach) fresh
  Reach-IsValid (resumed {s} i reach) = resume-IsValid i (Reach-IsValid reach)

  -- In every store that calls lead to, a task whose operation writes, and which is queued, running
  -- or finished, carries an approval record.
  pub Reach-approved :
      {s : TaskStore} (reach : Reach s) (id : Uuid) (t : Task)
      → lookup id s.inner ≡ some t
      → is_write t.operation ≡ true
      → is_released t.state ≡ true
      → is_some t.approval ≡ true
  Reach-approved reach id t found = ((Reach-IsValid reach).keyed id t found).1.released

  -- In every store that calls lead to, two stored tasks of one tenant and one idempotency key that
  -- have both not ended are the same task.
  pub Reach-unique_live :
      {s : TaskStore} (reach : Reach s) (i j : Uuid) (t u : Task)
      → lookup i s.inner ≡ some t
      → lookup j s.inner ≡ some u
      → is_terminal t.state ≡ false
      → is_terminal u.state ≡ false
      → t.tenant_id ≡ u.tenant_id
      → t.idempotency_key ≡ u.idempotency_key
      → i ≡ j
  Reach-unique_live {s} reach i j t u p q live alive tenant key =
      let v = Reach-IsValid reach in
      let a = v.indexed i t p live in let b = v.indexed j u q alive in cc

-- A stored task, by what a call does to the store: it stands as it was, or it has moved.
Effect-keeps :
    {c : Draws} {s : TaskStore} {r : TaskStore × Result TaskEngineError Task}
    → Effect c s r
    → lookup c.task_id s.inner ≡ none
    → (id : Uuid) (t : Task) → lookup id s.inner ≡ some t
    → (u : Task) × (lookup id r.0.inner ≡ some u) × ((u ≡ t) ⊎ Moves t u)
Effect-keeps (refused e) fresh id t found = (t, found, inl refl)
Effect-keeps (reused _ _) fresh id t found = (t, found, inl refl)
Effect-keeps {s} (created {s'} {t = u} named inner _) fresh id t found = (
  t,
  rw inner (lookup-insert_ne u s.inner (λ p. cc (fresh, rw (← p) at found)) ∙ found),
  inl refl,
)
Effect-keeps {s} (moved id' {t = old} {t' = new'} there m inner _) fresh id t found =
    elim (Bool-cases (id' == id)) [
      | inl e ↦
          let here = (==_iff id' id).0 e in
          let same : old ≡ t = ground arith in
          (new', rw (inner, here) (lookup-insert_self id new' s.inner), inr (rw same at m))
      | inr e ↦ (
        t,
        rw inner (lookup-insert_ne new' s.inner (λ p. cc (e, (==_iff id' id).1 p)) ∙ found),
        inl refl,
      )
    ]

module _ (uuid_debug : Uuid → Text) where
  -- A call that fails leaves the whole store as it was.
  pub handle_error_unchanged :
      {s : TaskStore} (c : Draws) (r : Request) {e : TaskEngineError}
      → IsValid s
      → (handle uuid_debug c r s).1 ≡ err e
      → (handle uuid_debug c r s).0 ≡ s
  handle_error_unchanged c r v h = go (handle-Effect uuid_debug c r v) h
    where
      go :
          {s : TaskStore} {x : TaskStore × Result TaskEngineError Task} {e : TaskEngineError}
          → Effect c s x
          → x.1 ≡ err e
          → x.0 ≡ s
      go (refused _) h = refl
      go (reused _ _) h = refl
      go (created _ _ _) h = cc
      go (moved _ _ _ _ _) h = cc

  -- Whatever the call, a stored task stays stored, under its identifier; either it is left as it
  -- was, or its state makes one move that `can_transition_to` allows and its identifier, tenant,
  -- idempotency key, operation and creation time stay.
  pub handle_preserves :
      {s : TaskStore} (c : Draws) (r : Request) (id : Uuid) (t : Task)
      → IsValid s
      → lookup c.task_id s.inner ≡ none
      → lookup id s.inner ≡ some t
      → (u : Task) × (lookup id (handle uuid_debug c r s).0.inner ≡ some u) × ((u ≡ t) ⊎ Moves t u)
  handle_preserves c r id t v fresh found =
      Effect-keeps (handle-Effect uuid_debug c r v) fresh id t found

  -- A run of calls, each with an identifier that is not in use when it is made, with what is left
  -- of them after their locks done at any later moment.
  pub data Run : TaskStore → TaskStore → Type 0 where
    done : {s : TaskStore} → Run s s
    then :
        {s u : TaskStore} (c : Draws) (r : Request)
        → lookup c.task_id s.inner ≡ none
        → Run (handle uuid_debug c r s).0 u
        → Run s u
    then_resumed : {s u : TaskStore} (i : ℕ) → Run (resume i s) u → Run s u

  -- A task that has ended is never changed again, by any run of calls.
  pub Run-terminal :
      {s u : TaskStore} (run : Run s u) (id : Uuid) (t : Task)
      → IsValid s
      → lookup id s.inner ≡ some t
      → is_terminal t.state ≡ true
      → lookup id u.inner ≡ some t
  Run-terminal done id t v found ended = found
  Run-terminal {s} (then c r fresh rest) id t v found ended =
      let (u, there, how) = handle_preserves c r id t v fresh found in
      let same : u ≡ t = elim how [ inl e ↦ e | inr m ↦ cc (Moves-not_terminal m) ] in
      Run-terminal rest id t (handle-IsValid uuid_debug c s r v fresh) (rw same at there) ended
  Run-terminal {s} (then_resumed i rest) id t v found ended =
      Run-terminal rest id t (resume-IsValid i v) (ap (lookup id) (resume-inner i s) ∙ found) ended
