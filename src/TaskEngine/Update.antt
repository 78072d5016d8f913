-- ===== src/TaskEngine/Update.antt =====
-- crates/task-engine/src/lib.rs: the two ways in which a change of a stored task ends.
use ozon_rust_suite.Common.{◌≡◌, refl, ◌⊎◌, inl, inr, some, Result, ok, err, Option-cases}
use ozon_rust_suite.Common.Assoc.{nat_key, lookup, insert}
use ozon_rust_suite.Domain.Task.{Uuid, Task}
use ozon_rust_suite.TaskEngine.{TaskEngineError, TaskStore, task_not_found, update_task}

module _ (s : TaskStore) (id : Uuid) (change : Task → Result TaskEngineError Task)
    (after : Task → TaskStore → TaskStore) where
  -- A failure leaves the store as it was.
  abbrev pub Fails : Type 0
  Fails = (e : TaskEngineError) × (update_task s id change after ≡ (s, err e))

  -- A success replaces the task, and goes on with what follows.
  abbrev pub Changes : Type 0
  Changes =
      (t : Task) × (t' : Task) × (lookup id s.inner ≡ some t)
      × (change t ≡ ok t')
      × (update_task s id change after
          ≡ (after t' (record s { inner = insert id t' s.inner }), ok t'))

  found-cases :
      (t : Task) (r : Result TaskEngineError Task)
      → lookup id s.inner ≡ some t
      → change t ≡ r
      → Fails ⊎ Changes
  unfolding update_task
  found-cases t (ok t') found done = inr (t, t', found, done, rw (update_task, found, done))
  found-cases t (err e) found done = inl (e, rw (update_task, found, done))

  pub update_task-cases : Fails ⊎ Changes
  unfolding update_task
  update_task-cases = elim (Option-cases (lookup id s.inner)) [
    | inl missing ↦ inl (task_not_found, rw (update_task, missing))
    | inr (t, found) ↦ found-cases t (change t) found refl
  ]
