-- ===== src/Local/Pairing/Claims.antt =====
-- apps/local-node/src/main.rs: a pairing code can be claimed in its five minutes, and once.
use ozon_rust_suite.Common.{
  ◌≤◌, ◌<◌, ◌≡◌, ◌≢◌, refl, inl, inr, false, [], ◌∷◌, none, some, Text, text_eq, text_eq_iff, ltb,
  arith, Bool-cases,
}
use ozon_rust_suite.Common.Assoc.{text_key, lookup, insert, remove}
use ozon_rust_suite.Domain.Task.{Instant}
use ozon_rust_suite.Local.Pairing.{OpenClawPairing, Pairings, retain_unexpired}

-- Every entry under a code is a given one.
abbrev pub Entry : Text → OpenClawPairing → Pairings → Type 0
Entry code at [] = Unit
Entry code at ((other, pairing) ∷ rest) = (other ≡ code → pairing ≡ at) × Entry code at rest

pub retain-Entry :
    (now : Instant) (code : Text) (at : OpenClawPairing) (m : Pairings)
    → Entry code at m
    → Entry code at (retain_unexpired now m)
unfolding retain_unexpired
retain-Entry now code at [] h = h
retain-Entry now code at ((other, pairing) ∷ rest) (here, later) =
    elim (Bool-cases (ltb now pairing.expires_at)) [
      | inl e ↦ rw e (here, retain-Entry now code at rest later)
      | inr e ↦ rw e (retain-Entry now code at rest later)
    ]

pub remove-Entry :
    (gone code : Text) (at : OpenClawPairing) (m : Pairings)
    → Entry code at m
    → Entry code at (remove gone m)
unfolding remove
remove-Entry gone code at [] h = h
remove-Entry gone code at ((other, pairing) ∷ rest) (here, later) =
    elim (Bool-cases (text_eq other gone)) [
      | inl e ↦ rw e (remove-Entry gone code at rest later)
      | inr e ↦ rw e (here, remove-Entry gone code at rest later)
    ]

pub insert-Entry :
    (new code : Text) (p at : OpenClawPairing) (m : Pairings)
    → new ≢ code
    → Entry code at m
    → Entry code at (insert new p m)
unfolding insert
insert-Entry new code p at [] ne h = (λ e. absurd (ne e), tt)
insert-Entry new code p at ((other, pairing) ∷ rest) ne (here, later) =
    elim (Bool-cases (text_eq other new)) [
      | inl e ↦ rw e (λ q. absurd (ne q), later)
      | inr e ↦ rw e (here, insert-Entry new code p at rest ne later)
    ]

pub absent-Entry :
    (code : Text) (at : OpenClawPairing) (m : Pairings) → lookup code m ≡ none → Entry code at m
unfolding lookup
absent-Entry code at [] h = tt
absent-Entry code at ((other, pairing) ∷ rest) h = elim (Bool-cases (text_eq other code)) [
  | inl e ↦ absurd (ground (arith, h, e))
  | inr e ↦
      (λ q. cc (e, (text_eq_iff other code).1 q), absent-Entry code at rest (ground (arith, h, e)))
]

pub insert_own-Entry :
    (code : Text) (p : OpenClawPairing) (m : Pairings)
    → lookup code m ≡ none
    → Entry code p (insert code p m)
unfolding lookup insert
insert_own-Entry code p [] h = (λ e. refl, tt)
insert_own-Entry code p ((other, pairing) ∷ rest) h = elim (Bool-cases (text_eq other code)) [
  | inl e ↦ absurd (ground (arith, h, e))
  | inr e ↦ rw e (
    λ q. cc (e, (text_eq_iff other code).1 q),
    insert_own-Entry code p rest (ground (arith, h, e)),
  )
]

-- An entry that has not ended is retained; nothing is found where there is no entry, or one that
-- has ended.
pub lookup-retain_live :
    (now : Instant) (code : Text) (p : OpenClawPairing) (m : Pairings)
    → lookup code m ≡ some p
    → now < p.expires_at
    → lookup code (retain_unexpired now m) ≡ some p
unfolding lookup retain_unexpired
lookup-retain_live now code p [] h live = cc
lookup-retain_live now code p ((other, q) ∷ rest) h live =
    ground (arith, lookup-retain_live now code p rest)

pub lookup-retain_absent :
    (now : Instant) (code : Text) (m : Pairings)
    → lookup code m ≡ none
    → lookup code (retain_unexpired now m) ≡ none
unfolding lookup retain_unexpired
lookup-retain_absent now code [] h = refl
lookup-retain_absent now code ((other, q) ∷ rest) h =
    ground (arith, lookup-retain_absent now code rest)

pub lookup-retain_ended :
    (now : Instant) (code : Text) (at : OpenClawPairing) (m : Pairings)
    → Entry code at m
    → at.expires_at ≤ now
    → lookup code (retain_unexpired now m) ≡ none
unfolding lookup retain_unexpired
lookup-retain_ended now code at [] h over = refl
lookup-retain_ended now code at ((other, q) ∷ rest) (here, later) over =
    let tail = lookup-retain_ended now code at rest later over in
    elim (Bool-cases (text_eq other code)) [
      | inl e ↦
          let ends = here ((text_eq_iff other code).0 e) in
          let out : ltb now q.expires_at ≡ false = rw ends (ground arith) in rw out tail
      | inr e ↦ elim (Bool-cases (ltb now q.expires_at)) [
        | inl l ↦ rw (l, e) tail
        | inr l ↦ rw l tail
      ]
    ]
