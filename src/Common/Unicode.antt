-- ===== src/Common/Unicode.antt =====
-- What the source uses of Rust's `str` and `char` methods, over code points.
use Prim.Native.Nat.{ℕ, zero, suc, ◌+◌, ◌-◌, ◌/◌, ◌%◌}
use mathlib.Core.Bool.{Bool, true, false, ◌&&◌, ◌||◌}
use mathlib.Core.List.{[], ◌∷◌, ◌++◌, reverse, map}
use ozon_rust_suite.Common.Tests.{leb, ltb, ◌==◌, if◌then◌else◌}
use ozon_rust_suite.Common.Texts.{Text}

abbrev pub is_ascii_digit : ℕ → Bool
is_ascii_digit c = leb b'0' c && leb c b'9'

abbrev pub is_ascii_uppercase : ℕ → Bool
is_ascii_uppercase c = leb b'A' c && leb c b'Z'

abbrev pub is_ascii_lowercase : ℕ → Bool
is_ascii_lowercase c = leb b'a' c && leb c b'z'

abbrev pub is_ascii_alphanumeric : ℕ → Bool
is_ascii_alphanumeric c = is_ascii_digit c || is_ascii_uppercase c || is_ascii_lowercase c

abbrev pub ascii_lower : ℕ → ℕ
ascii_lower c = if is_ascii_uppercase c then c + 32 else c

abbrev pub ascii_upper : ℕ → ℕ
ascii_upper c = if is_ascii_lowercase c then c - 32 else c

abbrev pub to_ascii_lowercase : Text → Text
to_ascii_lowercase = map ascii_lower

abbrev pub to_ascii_uppercase : Text → Text
to_ascii_uppercase = map ascii_upper

-- `char::is_whitespace`: the code points with the property White_Space.
unfoldable pub is_whitespace : ℕ → Bool
is_whitespace c =
    (leb 9 c && leb c 13)
    || c == 0x20
    || c == 0x85
    || c == 0xa0
    || c == 0x1680
    || (leb 0x2000 c && leb c 0x200a)
    || c == 0x2028
    || c == 0x2029
    || c == 0x202f
    || c == 0x205f
    || c == 0x3000

unfoldable pub trim_start : Text → Text
trim_start [] = []
trim_start (c ∷ s) = if is_whitespace c then trim_start s else c ∷ s

unfoldable pub trim_end : Text → Text
unfolding trim_start
trim_end s = reverse (trim_start (reverse s))

unfoldable pub trim : Text → Text
unfolding trim_start trim_end
trim s = trim_end (trim_start s)

abbrev pub is_empty : Text → Bool
is_empty [] = true
is_empty (_ ∷ _) = false

-- The Unicode tables beyond ASCII. The small form of a capital can depend on the text around it (the
-- final sigma), so it is given what stands before and after.
pub record CaseTables : Type 0 where
  pub lower_other : Text → ℕ → Text → Text
  pub upper_other : ℕ → Text

module _ (tables : CaseTables) where
  abbrev pub lower_char : Text → ℕ → Text → Text
  lower_char before c after =
      if ltb c 128 then ascii_lower c ∷ [] else tables.lower_other before c after

  lower_from : Text → Text → Text
  lower_from before [] = []
  lower_from before (c ∷ s) = lower_char before c s ++ lower_from (before ++ c ∷ []) s

  unfoldable pub to_lowercase : Text → Text
  unfolding lower_from
  to_lowercase s = lower_from [] s

  unfoldable pub to_uppercase : Text → Text
  to_uppercase [] = []
  to_uppercase (c ∷ s) =
      (if ltb c 128 then ascii_upper c ∷ [] else tables.upper_other c) ++ to_uppercase s

-- `to_string` of a number, with fuel above it.
decimal_from : ℕ → ℕ → Text
decimal_from zero n = []
decimal_from (suc fuel) n =
    let high = decimal_from fuel (n / 10) in
    if ltb n 10 then (n + 48) ∷ [] else high ++ (n % 10 + 48) ∷ []

unfoldable pub decimal : ℕ → Text
unfolding decimal_from
decimal n = decimal_from (suc n) n

-- `str::len`: the bytes of a text in UTF-8.
abbrev pub byte_length : Text → ℕ
byte_length [] = 0
byte_length (c ∷ s) =
    (if ltb c 0x80 then 1 else if ltb c 0x800 then 2 else if ltb c 0x10000 then 3 else 4)
    + byte_length s
