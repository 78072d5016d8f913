-- ===== src/Domain/Identity/Phones.antt =====
-- crates/domain/src/lib.rs: the normal form of phone numbers.
use mathlib.Core.List.{reverse, reverse-reverse, reverse-cons}
use ozon_rust_suite.Common.{
  ℕ, ◌+◌, ◌≤◌, ◌≡◌, refl, ◌∙◌, inl, inr, Bool, true, false, ◌&&◌, ◌||◌, [], ◌∷◌, ◌++◌, Text, Result,
  ok, err, ◌==◌, if◌then◌else◌, any, all, arith, bind-eq-ok, Bool-cases,
}
use ozon_rust_suite.Common.Unicode.{is_ascii_digit, is_whitespace, trim, trim_start, trim_end}
use ozon_rust_suite.Domain.Task.{DomainError}
use ozon_rust_suite.Domain.Account.{PhoneNumber}
use ozon_rust_suite.Domain.Identity.{
  is_separator, normalize, digit_count, check_phone_number, parse_phone_number,
}

-- Digits, and a plus sign at most, at the start.
abbrev pub plus_digits : Text → Bool
plus_digits [] = true
plus_digits (c ∷ s) = (is_ascii_digit c || (c == b'+')) && all is_ascii_digit s

-- The digits of a text, in order.
abbrev pub digits : Text → Text
digits [] = []
digits (c ∷ s) = if is_ascii_digit c then c ∷ digits s else digits s

-- A text without white space keeps its ends.
trim_start-no_whitespace : (s : Text) → any is_whitespace s ≡ false → trim_start s ≡ s
unfolding trim_start
trim_start-no_whitespace [] h = refl
trim_start-no_whitespace (c ∷ s) h = ground arith

pub any-append_or : (p : ℕ → Bool) (s t : Text) → any p (s ++ t) ≡ (any p s || any p t)
any-append_or p [] t = refl
any-append_or p (c ∷ s) t = ground (arith, any-append_or p s t)

any-reverse : (p : ℕ → Bool) (s : Text) → any p (reverse s) ≡ any p s
any-reverse p [] = refl
any-reverse p (c ∷ s) =
    rw (reverse-cons c s) (ground (arith, any-append_or p (reverse s) (c ∷ []), any-reverse p s))

pub trim-no_whitespace : (s : Text) → any is_whitespace s ≡ false → trim s ≡ s
unfolding trim trim_end
trim-no_whitespace s h =
    rw
      (
        trim_start-no_whitespace s h,
        trim_start-no_whitespace (reverse s) (any-reverse is_whitespace s ∙ h),
      )
      (reverse-reverse s)

digit_no_whitespace : (c : ℕ) → (is_ascii_digit c || (c == b'+')) ≡ true → is_whitespace c ≡ false
unfolding is_whitespace
digit_no_whitespace c h = ground arith

all_digits_no_whitespace : (s : Text) → all is_ascii_digit s ≡ true → any is_whitespace s ≡ false
all_digits_no_whitespace [] h = refl
all_digits_no_whitespace (c ∷ s) h =
    ground (arith, digit_no_whitespace c, all_digits_no_whitespace s)

digits_plus_digits : (s : Text) → all is_ascii_digit s ≡ true → plus_digits s ≡ true
digits_plus_digits [] h = refl
digits_plus_digits (c ∷ s) h = ground arith

plus_digits_no_whitespace : (s : Text) → plus_digits s ≡ true → any is_whitespace s ≡ false
plus_digits_no_whitespace [] h = refl
plus_digits_no_whitespace (c ∷ s) h =
    ground (arith, digit_no_whitespace c, all_digits_no_whitespace s)

onto-eq-ok :
    (c : ℕ) (r : Result DomainError Text) {t : Text}
    → ◌≡◌ {A = Result DomainError Text} (elim r [ err e ↦ err e | ok u ↦ ok (c ∷ u) ]) (ok t)
    → (u : Text) × (r ≡ ok u) × (t ≡ c ∷ u)
onto-eq-ok c (ok u) h = (u, refl, ground arith)
onto-eq-ok c (err e) h = cc

separator_no_digit : (c : ℕ) → is_separator c ≡ true → is_ascii_digit c ≡ false
separator_no_digit c h = ground arith

normalize_later :
    (i : ℕ) (s : Text) {t : Text}
    → normalize (i + 1) s ≡ ok t
    → (all is_ascii_digit t ≡ true) × (digits t ≡ digits s)
unfolding normalize
normalize_later i [] h = ground arith
normalize_later i (c ∷ s) {t} h = elim (Bool-cases (is_ascii_digit c)) [
  | inl digit ↦
      let (u, rest, it) = onto-eq-ok c (normalize (i + 1 + 1) s) {t = t} (ground arith) in
      let (all_digits, same) = normalize_later (i + 1) s {t = u} rest in
      (rw it (ground arith), rw it (ground arith))
  | inr other ↦
      let rest : normalize (i + 1 + 1) s ≡ ok t = ground arith in
      let (all_digits, same) = normalize_later (i + 1) s {t = t} rest in (all_digits, rw other same)
]

normalize_first :
    (s : Text) {t : Text} → normalize 0 s ≡ ok t → (plus_digits t ≡ true) × (digits t ≡ digits s)
unfolding normalize
normalize_first [] h = ground arith
normalize_first (c ∷ s) {t} h = elim (Bool-cases (is_ascii_digit c || (c == b'+'))) [
  | inl kept ↦
      let (u, rest, it) = onto-eq-ok c (normalize 1 s) {t = t} (ground arith) in
      let (all_digits, same) = normalize_later 0 s {t = u} rest in
      (rw it (ground arith), rw it (ground arith))
  | inr other ↦
      let rest : normalize 1 s ≡ ok t = ground arith in
      let (all_digits, same) = normalize_later 0 s {t = t} rest in
      (digits_plus_digits t all_digits, ground (arith, same))
]

normalize-all_digits : (i : ℕ) (s : Text) → all is_ascii_digit s ≡ true → normalize i s ≡ ok s
unfolding normalize
normalize-all_digits i [] h = refl
normalize-all_digits i (c ∷ s) h = ground (arith, normalize-all_digits (i + 1) s)

normalize-plus_digits : (s : Text) → plus_digits s ≡ true → normalize 0 s ≡ ok s
unfolding normalize
normalize-plus_digits [] h = refl
normalize-plus_digits (c ∷ s) h = ground (arith, normalize-all_digits 1 s)

-- A phone number that parses is an optional plus sign and then six to fifteen digits, which are those
-- of the text in their order; and its own text parses to itself.
pub parse_phone_number_normal :
    (raw : Text) (p : PhoneNumber)
    → parse_phone_number raw ≡ ok p
    → (plus_digits p.value ≡ true)
      × (6 ≤ digit_count p.value)
      × (digit_count p.value ≤ 15)
      × (digits p.value ≡ digits (trim raw))
      × (parse_phone_number p.value ≡ ok p)
unfolding parse_phone_number check_phone_number
parse_phone_number_normal raw p h =
    let (t, normal, checked) = bind-eq-ok (normalize 0 (trim raw)) check_phone_number h in
    let (plus, same) = normalize_first (trim raw) {t = t} normal in
    let it : t ≡ p.value = ground arith in
    let good : plus_digits p.value ≡ true = ground arith in
    let trimmed : trim p.value ≡ p.value =
      trim-no_whitespace p.value (plus_digits_no_whitespace p.value good) in
    let again : normalize 0 p.value ≡ ok p.value = normalize-plus_digits p.value good in
    (good, ground arith, ground arith, ground arith, rw (trimmed, again) (rw it at checked))
