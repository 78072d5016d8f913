-- ===== src/TaskEngine/Announced.antt =====
-- crates/task-engine/src/lib.rs: what the event channel shows of the task map.
use mathlib.Core.List.{Memᴰ}
use mathlib.Core.List.Memᴰ
use ozon_rust_suite.Common.{
  ℕ, zero, suc, ◌≡◌, refl, sym, ap, ◌∙◌, ◌⊎◌, inl, inr, some, Text, Result, List, [], ◌∷◌, ◌++◌,
  arith, Option-cases,
}
use ozon_rust_suite.Common.Assoc.{nat_key, lookup, insert, lookup-insert_self, lookup-insert_inv}
use ozon_rust_suite.Domain.Task.{Uuid, Task}
use ozon_rust_suite.TaskEngine.{
  TaskEngineError, TaskStore, changed, Draws, Notice, to_audit, to_send, notice_task, take_out,
  resume,
}
use ozon_rust_suite.TaskEngine.Lifecycle.{IsSound}
use ozon_rust_suite.TaskEngine.Invariant.{IsValid, resume-inner, handle-IsValid}
use ozon_rust_suite.TaskEngine.Effects.{
  Effect, refused, reused, created, moved, handle-Effect, Announces,
}
use ozon_rust_suite.TaskEngine.History.{
  Reach, start, call, resumed, Reach-IsValid, handle_preserves,
}

-- The tasks whose events are left to send.
abbrev pub tasks_left : List Notice → List Task
tasks_left [] = []
tasks_left (n ∷ ns) = notice_task n ∷ tasks_left ns

-- A state of a task that was sent, or that a call which has dropped its locks is going to send.
abbrev pub Shown : TaskStore → Task → Type 0
Shown s t = Memᴰ (changed t) s.events ⊎ Memᴰ t (tasks_left s.unsent)

changed_injective : (t u : Task) → changed t ≡ changed u → t ≡ u
changed_injective t u h = ground arith

tasks_left-append :
    (ns : List Notice) (n : Notice)
    → tasks_left (ns ++ n ∷ []) ≡ tasks_left ns ++ notice_task n ∷ []
tasks_left-append [] n = refl
tasks_left-append (m ∷ ns) n = ap (λ ts. notice_task m ∷ ts) (tasks_left-append ns n)

one_more : {A : Type 0} (xs : List A) (x y : A) → Memᴰ y (xs ++ x ∷ []) → Memᴰ y xs ⊎ (y ≡ x)
one_more xs x y m = elim (Memᴰ.append_cases xs m) [
  | inl old ↦ inl old
  | inr new ↦ inr (Memᴰ.eq_of_singleton new)
]

the_last : {A : Type 0} (xs : List A) (x : A) → Memᴰ x (xs ++ x ∷ [])
the_last xs x = Memᴰ.append_right xs (Memᴰ.head refl)

module _ (s s' : TaskStore) (t : Task) where
  Announces-old : (u : Task) → Announces s s' t → Shown s u → Shown s' u
  Announces-old u (inl (events, unsent)) (inl m) =
      inl (rw events (Memᴰ.append_left (changed t ∷ []) m))
  Announces-old u (inl (events, unsent)) (inr m) = inr (rw unsent m)
  Announces-old u (inr (events, e, unsent)) (inl m) = inl (rw events m)
  Announces-old u (inr (events, e, unsent)) (inr m) =
      inr (rw (unsent, tasks_left-append s.unsent (to_audit e t)) (Memᴰ.append_left (t ∷ []) m))

  Announces-new : Announces s s' t → Shown s' t
  Announces-new (inl (events, unsent)) = inl (rw events (the_last s.events (changed t)))
  Announces-new (inr (events, e, unsent)) =
      inr
        (rw (unsent, tasks_left-append s.unsent (to_audit e t)) (the_last (tasks_left s.unsent) t))

  Announces-inv : (u : Task) → Announces s s' t → Shown s' u → Shown s u ⊎ (u ≡ t)
  Announces-inv u (inl (events, unsent)) (inl m) =
      elim (one_more s.events (changed t) (changed u) (rw events at m)) [
        | inl old ↦ inl (inl old)
        | inr e ↦ inr (changed_injective u t e)
      ]
  Announces-inv u (inl (events, unsent)) (inr m) = inl (inr (rw unsent at m))
  Announces-inv u (inr (events, e, unsent)) (inl m) = inl (inl (rw events at m))
  Announces-inv u (inr (events, e, unsent)) (inr m) =
      elim (one_more (tasks_left s.unsent) t u
        (rw (unsent, tasks_left-append s.unsent (to_audit e t)) at m)) [
          | inl old ↦ inl (inr old)
          | inr same ↦ inr same
        ]

-- Taking one notice out leaves the others.
take_out-left :
    (i : ℕ) (ns : List Notice) {n : Notice} {rest : List Notice} (u : Task)
    → take_out i ns ≡ some (n, rest)
    → (Memᴰ u (tasks_left ns) → Memᴰ u (notice_task n ∷ tasks_left rest))
      × (Memᴰ u (notice_task n ∷ tasks_left rest) → Memᴰ u (tasks_left ns))
unfolding take_out
take_out-left i [] u h = cc
take_out-left zero (m ∷ ns) {n} {rest} u h =
    let same : m ≡ n = ground arith in
    let others : ns ≡ rest = ground arith in rw (same, others) ((λ d. d), (λ d. d))
take_out-left (suc i) (m ∷ ns) {n} {rest} u h = elim (Option-cases (take_out i ns)) [
  | inl e ↦ absurd (ground arith)
  | inr ((k, others), e) ↦
      let same : k ≡ n = ground arith in
      let all : m ∷ others ≡ rest = ground arith in
      let (there, back) = take_out-left i ns u (rw same at e) in
      rw (← all) (
        (λ d.
            swap m n others
              (elim (Memᴰ.cases_cons d) [ inl p ↦ Memᴰ.head p | inr q ↦ Memᴰ.tail (there q) ])),
        (λ d. elim (Memᴰ.cases_cons (swap n m others d)) [
          | inl p ↦ Memᴰ.head p
          | inr q ↦ Memᴰ.tail (back q)
        ]),
      )
]
  where
    swap :
        (a b : Notice) (xs : List Notice)
        → Memᴰ u (notice_task a ∷ notice_task b ∷ tasks_left xs)
        → Memᴰ u (notice_task b ∷ notice_task a ∷ tasks_left xs)
    swap a b xs (Memᴰ.head p) = Memᴰ.tail (Memᴰ.head p)
    swap a b xs (Memᴰ.tail (Memᴰ.head p)) = Memᴰ.head p
    swap a b xs (Memᴰ.tail (Memᴰ.tail d)) = Memᴰ.tail (Memᴰ.tail d)

-- A call that goes on shows the same states.
resume-Shown :
    (i : ℕ) (s : TaskStore) (u : Task)
    → (Shown s u → Shown (resume i s) u) × (Shown (resume i s) u → Shown s u)
unfolding resume
resume-Shown i s u = elim (Option-cases (take_out i s.unsent)) [
  | inl e ↦ rw (resume, e) ((λ d. d), (λ d. d))
  | inr ((to_audit a t, rest), e) ↦
      let (there, back) = take_out-left i s.unsent u e in
      rw (resume, e)
        (
          (λ d. elim d [ inl m ↦ inl m | inr m ↦ inr (there m) ]),
          (λ d. elim d [ inl m ↦ inl m | inr m ↦ inr (back m) ]),
        )
  | inr ((to_send t, rest), e) ↦
      let (there, back) = take_out-left i s.unsent u e in
      rw (resume, e)
        (
          (λ d. elim d [
            | inl m ↦ inl (Memᴰ.append_left (changed t ∷ []) m)
            | inr m ↦ elim (Memᴰ.cases_cons (there m)) [
              | inl p ↦ inl (rw p (the_last s.events (changed t)))
              | inr q ↦ inr q
            ]
          ]),
          (λ d. elim d [
            | inl m ↦ elim (one_more s.events (changed t) (changed u) m) [
              | inl old ↦ inl old
              | inr p ↦ inr (back (Memᴰ.head (changed_injective u t p)))
            ]
            | inr m ↦ inr (back (Memᴰ.tail m))
          ]),
        )
]

-- The task map and what was shown of it, each by the other.
pub record IsAnnounced (s : TaskStore) : Type 0 where
  pub complete : (id : Uuid) (t : Task) → lookup id s.inner ≡ some t → Shown s t
  pub sound : (t : Task) → Shown s t → IsSound t × (u : Task) × (lookup t.id s.inner ≡ some u)

put-IsAnnounced :
    (s s' : TaskStore) (id : Uuid) (t : Task)
    → t.id ≡ id
    → s'.inner ≡ insert id t s.inner
    → Announces s s' t
    → IsValid s'
    → ((j : Uuid) (w : Task)
        → lookup j s.inner ≡ some w
        → (x : Task) × (lookup j s'.inner ≡ some x))
    → IsAnnounced s
    → IsAnnounced s'
put-IsAnnounced s s' id t named inner shows v' kept a = record {
  complete = λ j w h. elim (lookup-insert_inv s.inner (rw inner at h)) [
    | inl (_, it) ↦ rw (← it) (Announces-new s s' t shows)
    | inr (_, old) ↦ Announces-old s s' t w shows (a.complete j w old)
  ];
  sound = λ w h. elim (Announces-inv s s' t w shows h) [
    | inl old ↦
        let (sound, u, found) = a.sound w old in
        let (x, there) = kept w.id u found in (sound, x, there)
    | inr it ↦
        let here : w.id ≡ id = ap (λ (x : Task). x.id) it ∙ named in
        let found : lookup w.id s'.inner ≡ some w =
          ap (lookup w.id) inner
          ∙ (ap (λ j. lookup j (insert id t s.inner)) here
              ∙ (lookup-insert_self id t s.inner ∙ ap some (sym it))) in
        ((v'.keyed w.id w found).1, w, found)
  ];
}

module _ (uuid_debug : Uuid → Text) where
  call-IsAnnounced :
      {s : TaskStore} (c : Draws) {r : TaskStore × Result TaskEngineError Task}
      → Effect c s r
      → IsValid s
      → IsValid r.0
      → ((j : Uuid) (w : Task)
          → lookup j s.inner ≡ some w
          → (x : Task) × (lookup j r.0.inner ≡ some x))
      → IsAnnounced s
      → IsAnnounced r.0
  call-IsAnnounced c (refused _) v v' kept a = a
  call-IsAnnounced c (reused _ _) v v' kept a = a
  call-IsAnnounced {s} c (created {s'} {t} named inner shows) v v' kept a =
      put-IsAnnounced s s' c.task_id t named inner shows v' kept a
  call-IsAnnounced {s} c (moved {s'} id {t} {t'} found m inner shows) v v' kept a =
      put-IsAnnounced s s' id t' (m.id ∙ (v.keyed id t found).0) inner shows v' kept a

  -- In every store that calls lead to, with audits and events left for any later moment: the state
  -- of every stored task was sent, or a call that has dropped its locks is going to send it; and
  -- every state that was sent or is going to be is a sound one, of a task that is stored.
  pub Reach-IsAnnounced : {s : TaskStore} → Reach uuid_debug s → IsAnnounced s
  unfolding lookup
  Reach-IsAnnounced start = record {
    complete = λ id t h. cc;
    sound = λ t h. elim h [ inl m ↦ absurd (Memᴰ.not-nil m) | inr m ↦ absurd (Memᴰ.not-nil m) ];
  }
  Reach-IsAnnounced (call {s} c r reach fresh) =
      let v = Reach-IsValid uuid_debug reach in
      call-IsAnnounced c (handle-Effect uuid_debug c r v) v
        (handle-IsValid uuid_debug c s r v fresh)
        (λ j w found.
          let (x, there, _) = handle_preserves uuid_debug c r j w v fresh found in (x, there))
        (Reach-IsAnnounced reach)
  Reach-IsAnnounced (resumed {s} i reach) =
      let a = Reach-IsAnnounced reach in
      let same = resume-inner i s in
      record {
        complete =
            λ id t h. (resume-Shown i s t).0 (a.complete id t (sym (ap (lookup id) same) ∙ h));
        sound = λ t h.
            let (sound, u, found) = a.sound t ((resume-Shown i s t).1 h) in
            (sound, u, ap (lookup t.id) same ∙ found);
      }
