-- ===== src/Common/Rows/Laws.antt =====
-- How lookups and counts answer after an update or an insertion.
use mathlib.Core.List.{Memᴰ}
use ozon_rust_suite.Common.{
  ◌+◌, ◌≡◌, refl, inl, inr, Bool, true, false, none, some, List, [], ◌∷◌, ◌++◌, arith, any,
  if◌then◌else◌, Bool-cases,
}
use ozon_rust_suite.Common.Rows.{find, update_where, count_where}

module _ {ℓ} {A : Type ℓ} where
  pub find_sound : (p : A → Bool) (xs : List A) {x : A} → find p xs ≡ some x → p x ≡ true
  unfolding find
  find_sound p [] h = cc
  find_sound p (y ∷ xs) {x} h = ground (arith, find_sound p xs {x = x})

  pub find-Memᴰ : (p : A → Bool) (xs : List A) {x : A} → find p xs ≡ some x → Memᴰ x xs
  unfolding find
  find-Memᴰ p [] h = cc
  find-Memᴰ p (y ∷ xs) {x} h = elim (Bool-cases (p y)) [
    | inl e ↦ let it : x ≡ y = ground arith in Memᴰ.head it
    | inr e ↦ Memᴰ.tail (find-Memᴰ p xs (ground arith))
  ]

  pub find-append :
      (p : A → Bool) (xs ys : List A) {x : A} → find p xs ≡ some x → find p (xs ++ ys) ≡ some x
  unfolding find
  find-append p [] ys h = cc
  find-append p (y ∷ xs) ys {x} h = ground (arith, find-append p xs ys {x = x})

  pub find_no_match : (p : A → Bool) (xs : List A) → any p xs ≡ false → find p xs ≡ none
  unfolding find
  find_no_match p [] h = refl
  find_no_match p (y ∷ xs) h = ground (arith, find_no_match p xs)

  pub find-append_none :
      (p : A → Bool) (xs : List A) (y : A)
      → find p xs ≡ none
      → p y ≡ true
      → find p (xs ++ y ∷ []) ≡ some y
  unfolding find
  find-append_none p [] y h k = rw k
  find-append_none p (x ∷ xs) y h k = ground (arith, find-append_none p xs y)

  -- A lookup by what an update leaves alone finds the updated row.
  pub find-update_where :
      (p q : A → Bool) (f : A → A)
      → ((x : A) → p (f x) ≡ p x)
      → (xs : List A) {x : A} → find p xs ≡ some x
      → find p (update_where q f xs) ≡ some (if q x then f x else x)
  unfolding find update_where
  find-update_where p q f same [] h = cc
  find-update_where p q f same (y ∷ xs) {x} h =
      ground (arith, same y, find-update_where p q f same xs {x = x})

  pub any-append : (p : A → Bool) (xs : List A) (y : A) → p y ≡ true → any p (xs ++ y ∷ []) ≡ true
  any-append p [] y h = rw h
  any-append p (x ∷ xs) y h = ground (arith, any-append p xs y)

  pub any-append_left : (p : A → Bool) (xs ys : List A) → any p xs ≡ true → any p (xs ++ ys) ≡ true
  any-append_left p [] ys h = cc
  any-append_left p (x ∷ xs) ys h = ground (arith, any-append_left p xs ys)

  pub any-append_false :
      (p : A → Bool) (xs : List A) (y : A)
      → any p xs ≡ false
      → p y ≡ false
      → any p (xs ++ y ∷ []) ≡ false
  any-append_false p [] y h k = ground (arith, k)
  any-append_false p (x ∷ xs) y h k = ground (arith, any-append_false p xs y)

  -- What holds of no row does not hold of the row that a lookup finds.
  pub any-find :
      (p q : A → Bool) (xs : List A) {x : A} → any p xs ≡ false → find q xs ≡ some x → p x ≡ false
  unfolding find
  any-find p q [] h k = cc
  any-find p q (y ∷ xs) {x} h k = ground (arith, any-find p q xs {x = x})

  -- An update of other rows, into rows that do not fit, leaves a lookup as it was.
  pub find-update_other :
      (p q : A → Bool) (f : A → A)
      → ((x : A) → q x ≡ true → p (f x) ≡ false)
      → (xs : List A) {x : A} → find p xs ≡ some x
      → q x ≡ false
      → find p (update_where q f xs) ≡ some x
  unfolding find update_where
  find-update_other p q f off [] h k = cc
  find-update_other p q f off (y ∷ xs) {x} h k =
      ground (arith, off y, find-update_other p q f off xs {x = x})

  pub any-update_other :
      (p q : A → Bool) (f : A → A)
      → ((x : A) → q x ≡ true → p (f x) ≡ false)
      → (xs : List A) → any p xs ≡ false
      → any p (update_where q f xs) ≡ false
  unfolding update_where
  any-update_other p q f off [] h = refl
  any-update_other p q f off (y ∷ xs) h = ground (arith, off y, any-update_other p q f off xs)

  pub count_where-append :
      (p : A → Bool) (xs : List A) (y : A)
      → count_where p (xs ++ y ∷ []) ≡ count_where p xs + (if p y then 1 else 0)
  unfolding count_where
  count_where-append p [] y = ground arith
  count_where-append p (x ∷ xs) y = ground (arith, count_where-append p xs y)

  -- No row fits, so an update changes none.
  pub update_where-none :
      (q : A → Bool) (f : A → A) (xs : List A) → find q xs ≡ none → update_where q f xs ≡ xs
  unfolding find update_where
  update_where-none q f [] h = refl
  update_where-none q f (x ∷ xs) h = ground (arith, update_where-none q f xs)

  -- At most one row fits a predicate.
  abbrev pub Unique : (A → Bool) → List A → Type ℓ
  Unique q [] = Unit
  Unique q (x ∷ xs) = (q x ≡ true → find q xs ≡ none) × Unique q xs

  -- The one row that fits an update goes from `x` to `f x` in a count.
  pub count_where-update :
      (p q : A → Bool) (f : A → A) (xs : List A) {x : A}
      → Unique q xs
      → find q xs ≡ some x
      → count_where p (update_where q f xs) + (if p x then 1 else 0)
        ≡ count_where p xs + (if p (f x) then 1 else 0)
  unfolding find update_where count_where
  count_where-update p q f [] u h = cc
  count_where-update p q f (y ∷ xs) {x} u h = elim (Bool-cases (q y)) [
    | inl e ↦
        let it : x ≡ y = ground arith in rw (it, e, update_where-none q f xs (u.0 e)) (ground arith)
    | inr e ↦ ground (arith, count_where-update p q f xs {x = x} u.1)
  ]
