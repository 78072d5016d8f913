-- ===== src/Domain/Identity.antt =====
-- crates/domain/src/lib.rs: the parsing of e-mail addresses, phone numbers and Nebula identifiers.
pub mod Phones
pub mod Shapes
use ozon_rust_suite.Common.{
  ℕ, ◌+◌, Bool, true, false, not, ◌&&◌, ◌||◌, List, [], ◌∷◌, Option, none, some, Text, text,
  text_eq, Result, ok, err, ◌>>=◌, leb, ltb, ◌==◌, if◌then◌else◌, require, ok_or, length, any, all,
}
use ozon_rust_suite.Common.Rows.{count_where}
use ozon_rust_suite.Common.Unicode.{
  is_ascii_digit, is_ascii_alphanumeric, trim, is_empty, CaseTables, to_lowercase, to_uppercase,
}
use ozon_rust_suite.Domain.Task.{
  DomainError, invalid_email, invalid_phone_number, invalid_nebula_id,
}
use ozon_rust_suite.Domain.Account.{Email, PhoneNumber, NebulaId}

-- `str::contains` and `str::starts_with` of one character.
abbrev pub contains : ℕ → Text → Bool
contains c s = any (λ d. d == c) s

abbrev pub starts_with : ℕ → Text → Bool
starts_with c [] = false
starts_with c (d ∷ s) = d == c

-- `str::split` at a character.
abbrev pub onto_first : ℕ → List Text → List Text
onto_first c [] = (c ∷ []) ∷ []
onto_first c (w ∷ ws) = (c ∷ w) ∷ ws

unfoldable pub split : ℕ → Text → List Text
split c [] = [] ∷ []
split c (d ∷ s) = let rest = split c s in if d == c then [] ∷ rest else onto_first d rest

unfoldable pub split_once : ℕ → Text → Option (Text × Text)
split_once c [] = none
split_once c (d ∷ s) =
    let rest = split_once c s in
    if d == c
    then some ([], s)
    else elim rest [ none ↦ none | some (before, after) ↦ some (d ∷ before, after) ]

-- A `PhoneNumber`'s separators.
abbrev pub is_separator : ℕ → Bool
is_separator c = (c == b' ') || ((c == b'-') || ((c == b'(') || (c == b')')))

-- The loop: `index` characters have been read.
unfoldable pub normalize : ℕ → Text → Result DomainError Text
normalize index [] = ok []
normalize index (c ∷ s) =
    let rest = normalize (index + 1) s in
    if is_ascii_digit c || ((c == b'+') && (index == 0))
    then elim rest [ err e ↦ err e | ok t ↦ ok (c ∷ t) ]
    else if is_separator c
    then rest
    else err invalid_phone_number

abbrev pub digit_count : Text → ℕ
digit_count s = count_where is_ascii_digit s

unfoldable pub check_phone_number : Text → Result DomainError PhoneNumber
check_phone_number normalized =
    if not (leb 6 (digit_count normalized) && leb (digit_count normalized) 15)
      || text_eq normalized (text "+")
    then err invalid_phone_number
    else if contains b'+' normalized && not (starts_with b'+' normalized)
    then err invalid_phone_number
    else ok (record { value = normalized })

unfoldable pub parse_phone_number : Text → Result DomainError PhoneNumber
parse_phone_number raw = normalize 0 (trim raw) >>= check_phone_number

unfoldable pub check_email : Text → Result DomainError Email
check_email value =
    if contains b' ' value
    then err invalid_email
    else (ok_or (split_once b'@' value) invalid_email >>= λ (parts : Text × Text).
        if is_empty parts.0 || contains b'@' parts.1
        then err invalid_email
        else if not (leb 2 (length (split b'.' parts.1))) || any is_empty (split b'.' parts.1)
        then err invalid_email
        else ok (record { value = value }))

-- The second and third part are ASCII where the checks pass, so their lengths in bytes are those in
-- characters.
abbrev pub nebula_parts : List Text → Bool
nebula_parts (a ∷ b ∷ c ∷ []) =
    text_eq a (text "NEBULA")
    && ((length b == 4)
        && (all is_ascii_digit b
            && ((leb 8 (length c) && leb (length c) 40) && all is_ascii_alphanumeric c)))
nebula_parts _ = false

module _ (tables : CaseTables) where
  unfoldable pub parse_email : Text → Result DomainError Email
  parse_email value = check_email (to_lowercase tables (trim value))

  unfoldable pub parse_nebula_id : Text → Result DomainError NebulaId
  parse_nebula_id raw =
      let value = to_uppercase tables (trim raw) in
      if nebula_parts (split b'-' value)
      then ok (record { value = value })
      else err invalid_nebula_id
