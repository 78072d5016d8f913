-- ===== src/Domain/Examples.antt =====
-- Identities that parse, and instances of the theorems on them.
use ozon_rust_suite.Common.{◌≤◌, ◌≡◌, refl, true, [], ◌∷◌, Text, text, text_eq, ok}
use ozon_rust_suite.Common.Rows.{count_where}
use ozon_rust_suite.Common.Unicode.{CaseTables, to_lowercase, to_uppercase, trim, is_whitespace}
use ozon_rust_suite.Domain.Account.{Email, PhoneNumber, NebulaId}
use ozon_rust_suite.Domain.Identity.{
  normalize, check_phone_number, digit_count, parse_phone_number, split, split_once, check_email,
  parse_email, parse_nebula_id,
}
use ozon_rust_suite.Domain.Identity.Phones.{plus_digits, digits, parse_phone_number_normal}
use ozon_rust_suite.Domain.Identity.Shapes.{
  IsEmail, IsNebulaId, parse_email-IsEmail, parse_nebula_id-IsNebulaId,
}

abbrev raw_phone : Text
raw_phone = text " +86 138-0013-8000 "

abbrev phone : PhoneNumber
phone = record { value = text "+8613800138000" }

phone_parses : parse_phone_number raw_phone ≡ ok phone
unfolding parse_phone_number normalize trim is_whitespace check_phone_number count_where text_eq
phone_parses = refl

parse_phone_number_normal_example :
    (plus_digits phone.value ≡ true)
    × (6 ≤ digit_count phone.value)
    × (digit_count phone.value ≤ 15)
    × (digits phone.value ≡ digits (trim raw_phone))
    × (parse_phone_number phone.value ≡ ok phone)
parse_phone_number_normal_example = parse_phone_number_normal raw_phone phone phone_parses

abbrev tables : CaseTables
tables = record { lower_other = λ _ c _. c ∷ []; upper_other = λ c. c ∷ [] }

abbrev raw_email : Text
raw_email = text "  USER@Example.COM "

abbrev email : Email
email = record { value = text "user@example.com" }

email_parses : parse_email tables raw_email ≡ ok email
unfolding parse_email check_email to_lowercase trim is_whitespace split_once split
email_parses = refl

parse_email-IsEmail_example :
    (email.value ≡ to_lowercase tables (trim raw_email)) × IsEmail email.value
parse_email-IsEmail_example = parse_email-IsEmail tables raw_email email email_parses

abbrev raw_id : Text
raw_id = text " nebula-2026-a1b2c3d4e5f6 "

abbrev id : NebulaId
id = record { value = text "NEBULA-2026-A1B2C3D4E5F6" }

id_parses : parse_nebula_id tables raw_id ≡ ok id
unfolding parse_nebula_id split to_uppercase trim is_whitespace text_eq
id_parses = refl

parse_nebula_id-IsNebulaId_example :
    (id.value ≡ to_uppercase tables (trim raw_id)) × IsNebulaId id.value
parse_nebula_id-IsNebulaId_example = parse_nebula_id-IsNebulaId tables raw_id id id_parses
