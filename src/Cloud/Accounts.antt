-- ===== src/Cloud/Accounts.antt =====
-- apps/cloud-api/src/main.rs: registration, login, and the accounts that SkyBridge profiles make.
pub mod Logins
pub mod Kept
use ozon_rust_suite.Common.{
  ℕ, zero, suc, ◌+◌, ◌≤◌, Bool, true, false, not, ◌&&◌, ◌||◌, List, [], ◌∷◌, ◌++◌, Option, none,
  some, Text, text, text_eq, Result, ok, err, ltb, leb, ◌==◌, if◌then◌else◌, require, ok_or, any,
  is_some, ◌>>=◌ as bind,
}
use ozon_rust_suite.Common.Rows.{find, update_where}
use ozon_rust_suite.Common.Unicode.{trim, is_empty, byte_length, ascii_upper, to_ascii_uppercase}
use ozon_rust_suite.Domain.Task.{Uuid, Instant, DomainError}
use ozon_rust_suite.Domain.Account.{User, UserRole, NebulaSource, Email, PhoneNumber, NebulaId}
use ozon_rust_suite.Domain.Identity.{parse_email, parse_phone_number, parse_nebula_id}
use ozon_rust_suite.Cloud.Errors.{
  ApiError, bad_request, unauthorized, forbidden, conflict, internal,
}
use ozon_rust_suite.Cloud.Libraries.{Libraries}
use ozon_rust_suite.Cloud.Database.{Database, SqlError, holds, has_tenant, same_id, insert_tenant}
use ozon_rust_suite.Cloud.Tx.{
  Tx, ◌>>=◌, ◌>>◌, pure, fail, lift, read, db_internal, statement, Stamp, audit, insert_audit,
}
use ozon_rust_suite.Cloud.CardKeys.{get_or, verify}

pub data LoginMethod : Type 0 where
  email phone nebula : LoginMethod

pub record RegisterRequest : Type 0 where
  pub email : Option Text
  pub phone : Option Text
  pub login_method : Option LoginMethod
  pub identifier : Option Text
  pub password : Text
  pub name : Option Text

pub record LoginRequest : Type 0 where
  pub email : Option Text
  pub phone : Option Text
  pub nebula_id : Option Text
  pub login_method : Option LoginMethod
  pub identifier : Option Text
  pub password : Text

pub record RegistrationIdentity : Type 0 where
  pub email : Option Email
  pub phone : Option PhoneNumber

pub data LoginIdentity : Type 0 where
  email : Email → LoginIdentity
  phone : PhoneNumber → LoginIdentity
  nebula_id : NebulaId → LoginIdentity

-- `Option::or`.
abbrev pub or_else {ℓ} : {A : Type ℓ} → Option A → Option A → Option A
or_else none b = b
or_else (some a) b = some a

abbrev pub map_err {ℓ κ μ} : {E : Type ℓ} {F : Type κ} {A : Type μ} → F → Result E A → Result F A
map_err f (ok a) = ok a
map_err f (err _) = err f

abbrev pub map_ok {ℓ κ μ} :
    {E : Type ℓ} {A : Type κ} {B : Type μ} → (A → B) → Result E A → Result E B
map_ok f (ok a) = ok (f a)
map_ok f (err e) = err e

unfoldable pub requested_login_method : Option LoginMethod → Option Text → Option Text → LoginMethod
requested_login_method (some method) address number = method
requested_login_method none address number =
    if is_some number && not (is_some address) then LoginMethod.phone else LoginMethod.email

abbrev pub same_value : Option Text → Text → Bool
same_value none t = false
same_value (some s) t = text_eq s t

abbrev pub email_text : User → Option Text
email_text u = elim u.email [ none ↦ none | some e ↦ some e.value ]

abbrev pub phone_text : User → Option Text
phone_text u = elim u.phone [ none ↦ none | some p ↦ some p.value ]

-- `WHERE email = $1`, `WHERE phone = $1` or `WHERE nebula_id = $1`.
abbrev pub identifies : LoginIdentity → User → Bool
identifies (LoginIdentity.email e) u = same_value (email_text u) e.value
identifies (LoginIdentity.phone p) u = same_value (phone_text u) p.value
identifies (LoginIdentity.nebula_id n) u = text_eq u.nebula_id.value n.value

unfoldable pub find_user_by_login_identity : LoginIdentity → Database → Option User
find_user_by_login_identity identity db = find (identifies identity) db.users

-- A column with a unique index: a null equals nothing.
abbrev pub taken : Option Text → (User → Option Text) → Database → Bool
taken none column db = false
taken (some t) column db = any (λ u. same_value (column u) t) db.users

abbrev pub is_local : NebulaSource → Bool
is_local NebulaSource.local_dev = true
is_local NebulaSource.skybridge = false

-- `chk_users_identity_anchor`
abbrev pub has_anchor : User → Bool
has_anchor u =
    if is_local u.nebula_source
    then not (is_some u.skybridge_user_id) && (is_some u.email || is_some u.phone)
    else is_some u.skybridge_user_id

unfoldable pub insert_user : User → Database → Result SqlError Database
insert_user u db = bind (holds (has_anchor u) (text "chk_users_identity_anchor")) λ _.
    bind (holds (not (any (λ (x : User). x.id == u.id) db.users)) (text "users_pkey")) λ _.
      bind (holds (not (taken (email_text u) email_text db)) (text "uq_users_email")) λ _.
        bind
          (holds (not (any (λ (x : User). text_eq x.nebula_id.value u.nebula_id.value) db.users))
            (text "uq_users_nebula_id"))
          λ _. bind (holds (not (taken (phone_text u) phone_text db)) (text "uq_users_phone")) λ _.
            bind
              (holds
                (not (any (λ (x : User). same_id x.skybridge_user_id u.skybridge_user_id) db.users))
                (text "uq_users_skybridge_user_id"))
              λ _.
                bind (holds (has_tenant db u.tenant_id) (text "users_tenant_id_fkey"))
                  λ _. ok (record db { users = db.users ++ u ∷ [] })

abbrev pub map_identity_unique_conflict : SqlError → ApiError
map_identity_unique_conflict (SqlError.violates name) =
    if text_eq name (text "uq_users_email")
    then conflict (text "email already registered")
    else if text_eq name (text "uq_users_phone")
    then conflict (text "phone already registered")
    else if text_eq name (text "uq_users_nebula_id")
    then conflict (text "nebula id already allocated")
    else if text_eq name (text "uq_users_skybridge_user_id")
    then conflict (text "SkyBridge user already linked")
    else internal (text "database operation failed")

abbrev pub ensure_local_password_login_allowed : User → Result ApiError (Unit {0})
ensure_local_password_login_allowed u =
    require (is_local u.nebula_source) (unauthorized (text "use SkyBridge identity"))

-- What a registration draws: for each of the eight attempts the year and twelve ASCII letters and
-- digits, then identifiers, a salt and the time.
pub record RegisterDraws : Type 0 where
  pub attempt : ℕ → Text × Text
  pub tenant_id : Uuid
  pub user_id : Uuid
  pub salt : Text
  pub created_at : Instant
  pub stamp : Stamp

abbrev pub check_password : Text → Result ApiError (Unit {0})
check_password password =
    require (leb 8 (byte_length password))
      (bad_request (text "password must be at least 8 characters"))

abbrev pub check_registration : Bool → Result ApiError (Unit {0})
check_registration allow_local_nebula_registration =
    require allow_local_nebula_registration
      (forbidden (text "local account registration is disabled; use SkyBridge identity"))

-- The user that `register` makes.
unfoldable pub new_user :
    RegisterDraws → RegistrationIdentity → Option Text → NebulaId → Text → User
new_user c identity name id hash = record {
  id = c.user_id;
  tenant_id = c.tenant_id;
  nebula_id = id;
  nebula_source = NebulaSource.local_dev;
  skybridge_user_id = none;
  email = identity.email;
  phone = identity.phone;
  name = name;
  password_hash = hash;
  role = UserRole.user;
  email_verified_at = none;
  phone_verified_at = none;
  created_at = c.created_at;
}

module _ (lib : Libraries) where
  open lib use {hash_password, tables}

  abbrev pub parse_login_identity : LoginMethod → Text → Result ApiError LoginIdentity
  parse_login_identity LoginMethod.email value =
      map_err (bad_request (text "invalid email"))
        (map_ok LoginIdentity.email (parse_email tables value))
  parse_login_identity LoginMethod.phone value =
      map_err (bad_request (text "invalid phone"))
        (map_ok LoginIdentity.phone (parse_phone_number value))
  parse_login_identity LoginMethod.nebula value =
      map_err (bad_request (text "invalid nebula id"))
        (map_ok LoginIdentity.nebula_id (parse_nebula_id tables value))

  -- `RegistrationIdentity::from_request`, once the method is known.
  unfoldable pub registration_identity :
      LoginMethod → RegisterRequest → Result ApiError RegistrationIdentity
  registration_identity LoginMethod.email input =
      bind (ok_or (or_else input.identifier input.email) (bad_request (text "email is required")))
        λ value.
          map_err (bad_request (text "invalid email"))
            (map_ok (λ e. record { email = some e; phone = none }) (parse_email tables value))
  registration_identity LoginMethod.phone input =
      bind (ok_or (or_else input.identifier input.phone) (bad_request (text "phone is required")))
        λ value.
          map_err (bad_request (text "invalid phone"))
            (map_ok (λ p. record { email = none; phone = some p }) (parse_phone_number value))
  registration_identity LoginMethod.nebula input =
      err (bad_request (text "nebula id is generated during registration"))

  abbrev pub requested : LoginMethod → LoginRequest → Option Text
  requested LoginMethod.email input = input.email
  requested LoginMethod.phone input = input.phone
  requested LoginMethod.nebula input = input.nebula_id

  -- `LoginIdentity::from_request`.
  unfoldable pub login_identity : LoginRequest → Result ApiError LoginIdentity
  login_identity input = elim input.login_method [
    | some method ↦
        bind
          (ok_or (or_else input.identifier (requested method input))
            (bad_request (text "login identifier is required")))
          λ value. parse_login_identity method value
    | none ↦ elim input.email [
      | some address ↦ parse_login_identity LoginMethod.email address
      | none ↦ elim input.phone [
        | some number ↦ parse_login_identity LoginMethod.phone number
        | none ↦ elim (or_else input.nebula_id input.identifier) [
          | some id ↦ parse_login_identity LoginMethod.nebula id
          | none ↦ err (bad_request (text "login identifier is required"))
        ]
      ]
    ]
  ]

  unfoldable pub generate_nebula_id : Text × Text → Result ApiError NebulaId
  generate_nebula_id (year, random) =
      map_err (internal (text "failed to generate nebula id")) (
        parse_nebula_id tables
          (text "NEBULA-" ++ (year ++ (text "-" ++ to_ascii_uppercase random))))

  -- The `for` loop of `create_unique_nebula_id`: `n` attempts are left, and `i` are done.
  unfoldable pub create_unique_nebula_id :
      (ℕ → Text × Text) → ℕ → ℕ → Database → Result ApiError NebulaId
  create_unique_nebula_id attempt zero i db = err (internal (text "failed to allocate nebula id"))
  create_unique_nebula_id attempt (suc n) i db =
      let rest = create_unique_nebula_id attempt n (i + 1) db in
      bind (generate_nebula_id (attempt i)) λ id.
        if any (λ (u : User). text_eq u.nebula_id.value id.value) db.users then rest else ok id

  unfoldable pub password_hash_of : Text → Text → Result ApiError Text
  password_hash_of salt password =
      ok_or (hash_password salt password) (internal (text "failed to hash secret"))

  -- The writes of `register`.
  unfoldable pub store_user : RegisterDraws → User → Tx User
  store_user c u = do
    statement db_internal (insert_tenant u.tenant_id)
    statement map_identity_unique_conflict (insert_user u)
    insert_audit (
        audit c.stamp (some u.tenant_id) (text "anonymous") (text "auth.register") u.nebula_id.value
          (text "user registered"))
    pure u

  unfoldable pub register : Bool → RegisterDraws → RegisterRequest → Tx User
  register allow_local_nebula_registration c input = do
    identity ← lift (
        registration_identity (requested_login_method input.login_method input.email input.phone)
          input)
    lift (check_password input.password)
    lift (check_registration allow_local_nebula_registration)
    allocated ← read (create_unique_nebula_id c.attempt 8 0)
    id ← lift allocated
    hash ← lift (password_hash_of c.salt input.password)
    store_user c (new_user c identity input.name id hash)

  -- `login` up to the token.
  unfoldable pub login : Stamp → LoginRequest → Tx User
  login stamp input = do
    identity ← lift (login_identity input)
    found ← read (find_user_by_login_identity identity)
    u ← lift (ok_or found (unauthorized (text "invalid credentials")))
    lift (ensure_local_password_login_allowed u)
    lift (verify lib u.password_hash input.password)
    insert_audit (
        audit stamp (some u.tenant_id) u.nebula_id.value (text "auth.login") (text "user")
          (text "user logged in"))
    pure u
