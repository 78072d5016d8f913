-- ===== src/Domain/Identity/Shapes.antt =====
-- crates/domain/src/lib.rs: the shape of parsed e-mail addresses and Nebula identifiers.
use mathlib.Core.Path.{subst}
use ozon_rust_suite.Common.{
  ℕ, ◌≤◌, ◌≡◌, refl, ◌∙◌, sym, ap, inl, inr, Bool, true, false, List, [], ◌∷◌, ◌++◌, some, Text,
  text, text_eq_sound, ok, ◌==◌, length, any, all, arith, Bool-cases, Option-cases,
}
use ozon_rust_suite.Common.Unicode.{
  is_ascii_digit, is_ascii_alphanumeric, trim, is_empty, CaseTables, to_lowercase, to_uppercase,
}
use ozon_rust_suite.Domain.Account.{Email, NebulaId}
use ozon_rust_suite.Domain.Identity.{
  contains, onto_first, split, split_once, check_email, parse_email, nebula_parts, parse_nebula_id,
}

-- Parts put together again.
abbrev pub join : ℕ → List Text → Text
join c [] = []
join c (w ∷ []) = w
join c (w ∷ v ∷ ws) = w ++ c ∷ join c (v ∷ ws)

is_nonempty : List Text → Bool
is_nonempty [] = false
is_nonempty (_ ∷ _) = true

split_nonempty : (c : ℕ) (s : Text) → (w : Text) × (ws : List Text) × (split c s ≡ w ∷ ws)
unfolding split
split_nonempty c [] = ([], [], refl)
split_nonempty c (d ∷ s) =
    let (w, ws, it) = split_nonempty c s in
    elim (Bool-cases (d == c)) [
      | inl e ↦ ([], split c s, rw e refl)
      | inr e ↦ (d ∷ w, ws, rw (e, it) refl)
    ]

join-onto_first : (c d : ℕ) (ws : List Text) → join c (onto_first d ws) ≡ d ∷ join c ws
join-onto_first c d [] = refl
join-onto_first c d (w ∷ []) = refl
join-onto_first c d (w ∷ v ∷ ws) = refl

pub join-split : (c : ℕ) (s : Text) → join c (split c s) ≡ s
unfolding split
join-split c [] = refl
join-split c (d ∷ s) =
    let (w, ws, it) = split_nonempty c s in
    elim (Bool-cases (d == c)) [
      | inl e ↦
          let same : d ≡ c = ground arith in
          let whole : join c (w ∷ ws) ≡ s = ap (join c) (sym it) ∙ join-split c s in
          rw (e, it) (ground (arith, whole))
      | inr e ↦ rw e (join-onto_first c d (split c s) ∙ ap (λ t. d ∷ t) (join-split c s))
    ]

split_once-eq-some :
    (c : ℕ) (s : Text) {before after : Text}
    → split_once c s ≡ some (before, after)
    → (s ≡ before ++ c ∷ after) × (contains c before ≡ false)
unfolding split_once
split_once-eq-some c [] h = cc
split_once-eq-some c (d ∷ s) {before} {after} h = elim (Bool-cases (d == c)) [
  | inl e ↦ ground arith
  | inr e ↦ elim (Option-cases (split_once c s)) [
    | inl missing ↦ absurd (ground arith)
    | inr ((a, b), found) ↦
        let (whole, clean) = split_once-eq-some c s {before = a} {after = b} found in
        ground (arith, whole, clean)
  ]
]

-- A local part, one at sign, and a domain of two or more labels; no blank anywhere.
pub record IsEmail (value : Text) : Type 0 where
  pub local : Text
  pub domain : Text
  pub labels : List Text
  pub whole : value ≡ local ++ b'@' ∷ domain
  pub local_nonempty : is_empty local ≡ false
  pub one_at : (contains b'@' local ≡ false) × (contains b'@' domain ≡ false)
  pub dotted : domain ≡ join b'.' labels
  pub two_labels : 2 ≤ length labels
  pub labels_nonempty : any is_empty labels ≡ false
  pub no_blank : contains b' ' value ≡ false

check_email-IsEmail :
    (value : Text) (e : Email) → check_email value ≡ ok e → (e.value ≡ value) × IsEmail value
unfolding check_email
check_email-IsEmail value e h = elim (Bool-cases (contains b' ' value)) [
  | inl blank ↦ absurd (ground arith)
  | inr no_blank ↦ elim (Option-cases (split_once b'@' value)) [
    | inl missing ↦ absurd (ground arith)
    | inr ((a, b), found) ↦
        let (whole, clean) = split_once-eq-some b'@' value {before = a} {after = b} found in
        let checked = rw (no_blank, found) at h in
        (
          ground arith,
          record {
            local = a;
            domain = b;
            labels = split b'.' b;
            whole = whole;
            local_nonempty = ground arith;
            one_at = (clean, ground arith);
            dotted = sym (join-split b'.' b);
            two_labels = ground arith;
            labels_nonempty = ground arith;
            no_blank = no_blank;
          },
        )
  ]
]

-- An e-mail address that parses is the text without the white space at its ends, in small letters,
-- and is a local part, one at sign, and a domain of two or more labels that are not empty.
pub parse_email-IsEmail :
    (tables : CaseTables) (raw : Text) (e : Email)
    → parse_email tables raw ≡ ok e
    → (e.value ≡ to_lowercase tables (trim raw)) × IsEmail e.value
unfolding parse_email
parse_email-IsEmail tables raw e h =
    let (same, shape) = check_email-IsEmail (to_lowercase tables (trim raw)) e h in
    (same, rw same shape)

-- `NEBULA-`, four digits, a dash, and eight to forty ASCII letters and digits.
pub record IsNebulaId (value : Text) : Type 0 where
  pub year : Text
  pub code : Text
  pub whole : value ≡ text "NEBULA" ++ b'-' ∷ (year ++ b'-' ∷ code)
  pub year_digits : (length year ≡ 4) × (all is_ascii_digit year ≡ true)
  pub code_length : (8 ≤ length code) × (length code ≤ 40)
  pub code_characters : all is_ascii_alphanumeric code ≡ true

nebula_parts-IsNebulaId :
    (parts : List Text) → nebula_parts parts ≡ true → IsNebulaId (join b'-' parts)
nebula_parts-IsNebulaId [] h = cc
nebula_parts-IsNebulaId (a ∷ []) h = cc
nebula_parts-IsNebulaId (a ∷ b ∷ []) h = cc
nebula_parts-IsNebulaId (a ∷ b ∷ c ∷ d ∷ ws) h = cc
nebula_parts-IsNebulaId (a ∷ b ∷ c ∷ []) h =
    let it : a ≡ text "NEBULA" = text_eq_sound a (text "NEBULA") (ground arith) in
    record {
      year = b;
      code = c;
      whole = ap (λ s. s ++ b'-' ∷ (b ++ b'-' ∷ c)) it;
      year_digits = ground arith;
      code_length = ground arith;
      code_characters = ground arith;
    }

-- A Nebula identifier that parses is the text without the white space at its ends, in capitals, and
-- is the prefix, four digits, and eight to forty ASCII letters and digits.
pub parse_nebula_id-IsNebulaId :
    (tables : CaseTables) (raw : Text) (id : NebulaId)
    → parse_nebula_id tables raw ≡ ok id
    → (id.value ≡ to_uppercase tables (trim raw)) × IsNebulaId id.value
unfolding parse_nebula_id
parse_nebula_id-IsNebulaId tables raw id h =
    let value = to_uppercase tables (trim raw) in
    elim (Bool-cases (nebula_parts (split b'-' value))) [
      | inr other ↦ absurd (ground arith)
      | inl good ↦
          let same : id.value ≡ value = ground arith in
          let shape = nebula_parts-IsNebulaId (split b'-' value) good in
          (same, subst IsNebulaId (join-split b'-' value ∙ sym same) shape)
    ]
