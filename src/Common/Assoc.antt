-- ===== src/Common/Assoc.antt =====
-- `HashMap` as an association list. The order of a map's entries is not observed through `lookup`.
use Prim.Native.Nat.{ℕ}
use mathlib.Core.Path.{◌≡◌, refl}
use mathlib.Core.Logic.{◌↔◌, ◌≢◌, ◌⊎◌, inl, inr}
use mathlib.Core.Bool.{Bool, true, ◌&&◌}
use mathlib.Core.Option.{Option, none, some}
use mathlib.Core.List.{List, [], ◌∷◌}
use native.Mathlib.Omega.{arith}
use ozon_rust_suite.Common.Tests.{Bool-cases, ◌==◌, ==_iff, if◌then◌else◌}
use ozon_rust_suite.Common.Texts.{Text, text_eq, text_eq_iff}

-- `Eq` of a map's keys.
pub record Key {ℓ} (K : Type ℓ) : Type ℓ where
  pub same : K → K → Bool
  pub same_iff : (a b : K) → (same a b ≡ true) ↔ (a ≡ b)

instance abbrev pub nat_key : Key ℕ
nat_key = record { same = ◌==◌; same_iff = ==_iff }

abbrev pub same_pair : ℕ × Text → ℕ × Text → Bool
same_pair a b = a.0 == b.0 && text_eq a.1 b.1

pub same_pair_iff : (a b : ℕ × Text) → (same_pair a b ≡ true) ↔ (a ≡ b)
same_pair_iff (n, s) (m, t) = ground (arith, text_eq_iff s t)

instance abbrev pub pair_key : Key (ℕ × Text)
pair_key = record { same = same_pair; same_iff = same_pair_iff }

instance abbrev pub text_key : Key Text
text_key = record { same = text_eq; same_iff = text_eq_iff }

module _ {ℓ κ} {K : Type ℓ} {V : Type κ} ⦃key : Key K⦄ where
  unfoldable pub lookup : K → List (K × V) → Option V
  lookup k [] = none
  lookup k ((j, v) ∷ m) = if key.same j k then some v else lookup k m

  unfoldable pub insert : K → V → List (K × V) → List (K × V)
  insert k v [] = (k, v) ∷ []
  insert k v ((j, w) ∷ m) = if key.same j k then (k, v) ∷ m else (j, w) ∷ insert k v m

  pub lookup-insert :
      (k j : K) (v : V) (m : List (K × V))
      → lookup j (insert k v m) ≡ (if key.same k j then some v else lookup j m)
  unfolding lookup insert
  lookup-insert k j v [] = refl
  lookup-insert k j v ((i, w) ∷ m) =
      ground (arith, key.same_iff k j, key.same_iff i k, key.same_iff i j, lookup-insert k j v m)

  pub lookup-insert_self : (k : K) (v : V) (m : List (K × V)) → lookup k (insert k v m) ≡ some v
  lookup-insert_self k v m = rw (lookup-insert k k v m, (key.same_iff k k).1 refl)

  pub lookup-insert_ne :
      {k j : K} (v : V) (m : List (K × V)) → k ≢ j → lookup j (insert k v m) ≡ lookup j m
  lookup-insert_ne {k} {j} v m h = elim (Bool-cases (key.same k j)) [
    | inl e ↦ absurd (h ((key.same_iff k j).0 e))
    | inr e ↦ rw (lookup-insert k j v m, e)
  ]

  -- What is found after an insertion was put in now, or was there before.
  pub lookup-insert_inv :
      {k j : K} {v w : V} (m : List (K × V))
      → lookup j (insert k v m) ≡ some w
      → ((k ≡ j) × (v ≡ w)) ⊎ ((k ≢ j) × (lookup j m ≡ some w))
  lookup-insert_inv {k} {j} {v} m h = elim (Bool-cases (key.same k j)) [
    | inl e ↦
        let shown = lookup-insert k j v m in inl ((key.same_iff k j).0 e, ground (arith, shown))
    | inr e ↦ inr (λ p. cc (e, (key.same_iff k j).1 p), ground (arith, lookup-insert k j v m))
  ]

  -- `HashMap::remove`.
  unfoldable pub remove : K → List (K × V) → List (K × V)
  remove k [] = []
  remove k ((j, v) ∷ m) = if key.same j k then remove k m else (j, v) ∷ remove k m

  pub lookup-remove :
      (k j : K) (m : List (K × V))
      → lookup j (remove k m) ≡ (if key.same k j then none else lookup j m)
  unfolding lookup remove
  lookup-remove k j [] = ground arith
  lookup-remove k j ((i, w) ∷ m) =
      ground (arith, key.same_iff k j, key.same_iff i k, key.same_iff i j, lookup-remove k j m)
