-- ===== src/Secrets/System.antt =====
-- crates/secret-store/src/lib.rs: `SystemSecretStore` over the keyring of the operating system, and the
-- helpers of the file. The keyring is a parameter.
use ozon_rust_suite.Common.{
  ℕ, Bool, not, ◌&&◌, ◌||◌, ◌++◌, [], ◌∷◌, Option, none, some, Text, text, Result, ok, err, leb,
  ◌==◌, if◌then◌else◌, length, all,
}
use ozon_rust_suite.Common.Unicode.{is_ascii_alphanumeric, is_empty}
use ozon_rust_suite.Secrets.{
  SecretStoreError, backend_unavailable, access_denied, invalid_name, invalid_encoding, Answer,
  SecretStore,
}

-- The errors of the crate `keyring_core`.
pub data KeyringError : Type 0 where
  no_entry no_storage_access bad_encoding invalid too_long other : KeyringError

abbrev pub map_keyring_error : KeyringError → SecretStoreError
map_keyring_error KeyringError.no_entry = backend_unavailable
map_keyring_error KeyringError.no_storage_access = access_denied
map_keyring_error KeyringError.bad_encoding = invalid_encoding
map_keyring_error KeyringError.invalid = invalid_name
map_keyring_error KeyringError.too_long = invalid_name
map_keyring_error KeyringError.other = backend_unavailable

-- A keyring with entries under a service and an account.
pub record Keyring (K Io : Type 0) : Type 0 where
  pub set_password : Io → Text → Text → Text → K → K × Result KeyringError (Unit {0})
  pub get_password : Io → Text → Text → K → K × Result KeyringError Text
  pub delete_credential : Io → Text → Text → K → K × Result KeyringError (Unit {0})

abbrev pub is_identifier_byte : ℕ → Bool
is_identifier_byte c =
    is_ascii_alphanumeric c || ((c == b'.') || ((c == b'-') || ((c == b'_') || (c == b':'))))

-- Where every byte passes, the text is ASCII and its length is its count of characters.
unfoldable pub is_safe_identifier : Text → Bool
is_safe_identifier value =
    not (is_empty value) && (leb (length value) 128 && all is_identifier_byte value)

-- `validate`, which the constructor runs.
unfoldable pub validate : Text → Text → Answer (Unit {0})
validate service account_prefix =
    if not (is_safe_identifier service) || not (is_safe_identifier account_prefix)
    then err invalid_name
    else ok tt

unfoldable pub account_for : Text → Text → Answer Text
account_for account_prefix name =
    if not (is_safe_identifier name)
    then err invalid_name
    else ok (account_prefix ++ (text ":" ++ name))

abbrev pub set_answer : Result KeyringError (Unit {0}) → Answer (Unit {0})
set_answer (ok _) = ok tt
set_answer (err e) = err (map_keyring_error e)

abbrev pub get_answer : Result KeyringError Text → Answer (Option Text)
get_answer (ok v) = ok (some v)
get_answer (err KeyringError.no_entry) = ok none
get_answer (err e) = err (map_keyring_error e)

abbrev pub delete_answer : Result KeyringError (Unit {0}) → Answer (Unit {0})
delete_answer (ok _) = ok tt
delete_answer (err KeyringError.no_entry) = ok tt
delete_answer (err e) = err (map_keyring_error e)

module _ {K Io : Type 0} (keyring : Keyring K Io) (service account_prefix : Text) where
  unfoldable pub system_store : SecretStore K Io
  system_store = record {
    put = λ io n v k. elim (account_for account_prefix n) [
      | err e ↦ (k, err e)
      | ok account ↦ let r = keyring.set_password io service account v k in (r.0, set_answer r.1)
    ];
    get = λ io n k. elim (account_for account_prefix n) [
      | err e ↦ (k, err e)
      | ok account ↦ let r = keyring.get_password io service account k in (r.0, get_answer r.1)
    ];
    delete = λ io n k. elim (account_for account_prefix n) [
      | err e ↦ (k, err e)
      | ok account ↦
          let r = keyring.delete_credential io service account k in (r.0, delete_answer r.1)
    ];
  }

abbrev pub last_four : Text → Text
last_four [] = []
last_four (c ∷ s) = if leb (length s) 3 then c ∷ s else last_four s

abbrev pub first_four : Text → Text
first_four (a ∷ b ∷ c ∷ d ∷ s) = a ∷ b ∷ c ∷ d ∷ []
first_four s = s

unfoldable pub redact : Text → Text
redact input =
    if leb (length input) 8 then text "********" else first_four input ++ (0x2026 ∷ last_four input)
