-- ===== src/Cloud/Examples/Accounts.antt =====
-- Runs of the cloud service on a small database: registration, login and SkyBridge accounts.
use ozon_rust_suite.Common.{
  ◌≡◌, refl, Option, text_eq_refl, arith, true, none, some, ok, err, text, text_eq, [], Text,
}
use ozon_rust_suite.Common.Rows.{find}
use ozon_rust_suite.Common.Unicode.{trim, is_whitespace}
use ozon_rust_suite.Domain.Account.{User, NebulaSource}
use ozon_rust_suite.Domain.Task.{Uuid}
use ozon_rust_suite.Cloud.Database.{Database, insert_audit_row}
use ozon_rust_suite.Cloud.Tx.{Stamp, statement, insert_audit}
use ozon_rust_suite.Domain.Identity.{parse_email, check_email, split, split_once, parse_nebula_id}
use ozon_rust_suite.Common.Unicode.{to_lowercase, to_uppercase}
use ozon_rust_suite.Cloud.Database.{insert_tenant}
use ozon_rust_suite.Cloud.Accounts.{
  RegisterRequest, LoginIdentity, RegisterDraws, identifies, requested_login_method,
  registration_identity, login_identity, find_user_by_login_identity, insert_user, new_user,
  generate_nebula_id, create_unique_nebula_id, password_hash_of, store_user, register, login,
}
use ozon_rust_suite.Cloud.Accounts.Logins.{same_credentials, login_stored}
use ozon_rust_suite.Cloud.Accounts.Kept.{register-login}
use ozon_rust_suite.Cloud.Service.{serve, sync, one, none_more}
use ozon_rust_suite.Cloud.Skybridge.{
  SkybridgeProfile, LinkDraws, find_user_by_skybridge_user_id, linked_user, insert_linked_user,
  upsert_skybridge_user, auth_skybridge,
}
use ozon_rust_suite.Cloud.Examples.{lib, buyer, db, stamp, after}

abbrev registration : RegisterRequest
registration = record {
  email = some (text "New@Example.com");
  phone = none;
  login_method = none;
  identifier = none;
  password = text "password";
  name = none;
}

abbrev register_draws : RegisterDraws
register_draws = record {
  attempt = λ _. (text "2026", text "a1b2c3d4e5f6");
  tenant_id = 70;
  user_id = 71;
  salt = [];
  created_at = 72;
  stamp = stamp;
}

abbrev registering : Database × User
registering = after buyer (register lib true register_draws registration)

registered : register lib true register_draws registration db ≡ ok (registering.1, registering.0)
unfolding register requested_login_method registration_identity parse_email check_email split
    split_once to_lowercase trim is_whitespace generate_nebula_id create_unique_nebula_id
    parse_nebula_id to_uppercase password_hash_of new_user store_user insert_tenant insert_user
    statement insert_audit insert_audit_row text_eq
registered = refl

hashes_verify :
    (salt password hash : Text)
    → lib.hash_password salt password ≡ some hash
    → lib.verify_password hash password ≡ true
hashes_verify salt password hash h =
    let same : password ≡ hash = ground arith in rw same (text_eq_refl hash)

abbrev login_stamp : Stamp
login_stamp = record { id = 51; at = 80 }

abbrev logging_in : Database × User
logging_in = elim (login lib login_stamp (same_credentials registration) registering.0) [
  | ok (u, db') ↦ (db', u)
  | err _ ↦ (db, buyer)
]

logged_in :
    login lib login_stamp (same_credentials registration) registering.0
    ≡ ok (logging_in.1, logging_in.0)
unfolding register requested_login_method registration_identity parse_email check_email split
    split_once to_lowercase trim is_whitespace generate_nebula_id create_unique_nebula_id
    parse_nebula_id to_uppercase password_hash_of new_user store_user insert_tenant insert_user
    statement insert_audit insert_audit_row text_eq login login_identity find_user_by_login_identity
    find
logged_in = refl

login_stored_example :
    (l : LoginIdentity) × (login_identity lib (same_credentials registration) ≡ ok l)
    × (find (identifies l) registering.0.users ≡ some logging_in.1)
    × (logging_in.1.nebula_source ≡ NebulaSource.local_dev)
    × (lib.verify_password logging_in.1.password_hash registration.password ≡ true)
    × (logging_in.0.users ≡ registering.0.users)
login_stored_example =
    login_stored lib login_stamp (same_credentials registration) registering.0 logging_in.1
      logging_in.0 logged_in

abbrev profile : SkybridgeProfile
profile = record {
  user_id = 90;
  nebula_id = record { value = text "NEBULA-2026-A1B2C3D4" };
  email = none;
  phone = none;
  display_name = none;
}

abbrev link_draws : LinkDraws
link_draws = record { tenant_id = 91; user_id = 92; verified_at = 93; created_at = 94 }

abbrev sync_stamp : Stamp
sync_stamp = record { id = 61; at = 95 }

abbrev no_uuid : Text → Option Uuid
no_uuid _ = none

-- The tables after a SkyBridge profile is synced to another account.
abbrev later : Database
later = serve lib no_uuid (sync link_draws sync_stamp profile) registering.0

register-login_example :
    (db' : Database) × (login lib login_stamp (same_credentials registration) later
      ≡ ok (registering.1, db'))
unfolding register requested_login_method registration_identity parse_email check_email split
    split_once to_lowercase trim is_whitespace generate_nebula_id create_unique_nebula_id
    parse_nebula_id to_uppercase password_hash_of new_user store_user insert_tenant insert_user
    statement insert_audit insert_audit_row text_eq serve auth_skybridge upsert_skybridge_user
    find_user_by_skybridge_user_id find insert_linked_user linked_user
register-login_example =
    register-login lib no_uuid true register_draws login_stamp registration db registering.1
      registering.0 later hashes_verify registered
      (one (sync link_draws sync_stamp profile) none_more) refl

abbrev linking : Database × User
linking = after buyer (upsert_skybridge_user link_draws profile)
