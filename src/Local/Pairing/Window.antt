-- ===== src/Local/Pairing/Window.antt =====
-- apps/local-node/src/main.rs: what stands under a pairing code.
use ozon_rust_suite.Common.{
  ◌≤◌, ◌≡◌, ◌≢◌, ◌⊎◌, inl, inr, false, none, some, Text, text_eq, text_eq_sound, ltb, arith,
  Bool-cases,
}
use ozon_rust_suite.Common.Assoc.{text_key, lookup, insert, remove, lookup-insert_ne, lookup-remove}
use ozon_rust_suite.Domain.Task.{Instant}
use ozon_rust_suite.Local.Pairing.{OpenClawPairing, Pairings, retain_unexpired}
use ozon_rust_suite.Local.Pairing.Claims.{
  Entry, retain-Entry, remove-Entry, insert-Entry, lookup-retain_live, lookup-retain_absent,
  lookup-retain_ended,
}

-- The pairing stands under its code, or its time is over and nothing does.
pub record Window (code : Text) (p : OpenClawPairing) (now : Instant) (m : Pairings) : Type 0 where
  pub only : Entry code p m
  pub there : (lookup code m ≡ some p) ⊎ ((lookup code m ≡ none) × (p.expires_at ≤ now))

pub retain-Window :
    {code : Text} {p : OpenClawPairing} {now : Instant} (t : Instant) {m : Pairings}
    → now ≤ t
    → Window code p now m
    → Window code p t (retain_unexpired t m)
retain-Window {code} {p} t {m} later w = record {
  only = retain-Entry t code p m w.only;
  there = elim w.there [
    | inr (gone, over) ↦ inr (lookup-retain_absent t code m gone, omega (arith, over, later))
    | inl held ↦ elim (Bool-cases (ltb t p.expires_at)) [
      | inl live ↦ inl (lookup-retain_live t code p m held (ground (arith, live)))
      | inr over ↦
          inr (lookup-retain_ended t code p m w.only (ground (arith, over)), ground (arith, over))
    ]
  ];
}

pub later-Window :
    {code : Text} {p : OpenClawPairing} {now : Instant} (t : Instant) {m : Pairings}
    → now ≤ t
    → Window code p now m
    → Window code p t m
later-Window t later w = record {
  only = w.only;
  there = elim w.there [
    | inl held ↦ inl held
    | inr (gone, over) ↦ inr (gone, omega (arith, over, later))
  ];
}

pub insert-Window :
    {code : Text} {p : OpenClawPairing} {t : Instant} (other : Text) (q : OpenClawPairing)
    {m : Pairings}
    → other ≢ code
    → Window code p t m
    → Window code p t (insert other q m)
insert-Window {code} {p} other q {m} ne w =
    let same = lookup-insert_ne q m ne in
    record { only = insert-Entry other code q p m ne w.only; there = rw same w.there }

pub remove-Window :
    {code : Text} {p : OpenClawPairing} {t : Instant} (other : Text) {m : Pairings}
    → other ≢ code
    → Window code p t m
    → Window code p t (remove other m)
remove-Window {code} {p} other {m} ne w =
    let differ : text_eq other code ≡ false = elim (Bool-cases (text_eq other code)) [
      | inl e ↦ absurd (ne (text_eq_sound other code e))
      | inr e ↦ e
    ] in
    let found = lookup-remove other code m in
    let same : lookup code (remove other m) ≡ lookup code m = rw differ at found in
    record { only = remove-Entry other code p m w.only; there = rw same w.there }
