-- ===== src/Common/Rows.antt =====
-- Tables as lists of rows: what `SELECT`, `UPDATE … WHERE` and `COUNT` do with a predicate.
pub mod Laws
use Prim.Native.Nat.{ℕ, suc}
use mathlib.Core.Path.{◌≡◌, refl}
use mathlib.Core.Bool.{Bool, true, false}
use mathlib.Core.Option.{Option, none, some}
use mathlib.Core.List.{List, [], ◌∷◌, ◌++◌}
use native.Mathlib.Omega.{arith}
use ozon_rust_suite.Common.Tests.{if◌then◌else◌, is_some}
use ozon_rust_suite.Common.Lists.{any, All}

module _ {ℓ} {A : Type ℓ} where
  -- The first row that fits.
  unfoldable pub find : (A → Bool) → List A → Option A
  find p [] = none
  find p (x ∷ xs) = if p x then some x else find p xs

  -- `UPDATE`: every row that fits is changed.
  unfoldable pub update_where : (A → Bool) → (A → A) → List A → List A
  update_where p f [] = []
  update_where p f (x ∷ xs) = (if p x then f x else x) ∷ update_where p f xs

  unfoldable pub count_where : (A → Bool) → List A → ℕ
  count_where p [] = 0
  count_where p (x ∷ xs) = if p x then suc (count_where p xs) else count_where p xs
