-- ===== src/Cloud/Skybridge.antt =====
-- apps/cloud-api/src/main.rs: the accounts that SkyBridge profiles make and keep up to date.
pub mod Links
use ozon_rust_suite.Common.{
  ℕ, Bool, true, false, not, ◌&&◌, ◌||◌, List, [], ◌∷◌, ◌++◌, Option, none, some, Text, text,
  text_eq, Result, ok, err, ◌==◌, if◌then◌else◌, ok_or, any, ◌>>=◌ as bind,
}
use ozon_rust_suite.Common.Rows.{find, update_where}
use ozon_rust_suite.Common.Unicode.{trim, is_empty}
use ozon_rust_suite.Domain.Task.{Uuid, Instant}
use ozon_rust_suite.Domain.Account.{User, UserRole, NebulaSource, Email, PhoneNumber, NebulaId}
use ozon_rust_suite.Domain.Identity.{parse_email, parse_phone_number, parse_nebula_id}
use ozon_rust_suite.Cloud.Errors.{ApiError, bad_gateway, internal}
use ozon_rust_suite.Cloud.Libraries.{Libraries}
use ozon_rust_suite.Cloud.Database.{Database, same_id, insert_tenant}
use ozon_rust_suite.Cloud.Tx.{
  Tx, ◌>>=◌, ◌>>◌, pure, read, commit, db_internal, statement, Stamp, audit, insert_audit,
}
use ozon_rust_suite.Cloud.Accounts.{
  or_else, map_err, map_ok, same_value, email_text, phone_text, insert_user,
  map_identity_unique_conflict,
}

pub record SkybridgeProfile : Type 0 where
  pub user_id : Uuid
  pub nebula_id : NebulaId
  pub email : Option Email
  pub phone : Option PhoneNumber
  pub display_name : Option Text

pub record SkybridgeProfileResponse : Type 0 where
  pub id : Uuid
  pub email : Option Text
  pub phone : Option Text
  pub nebula_id : Option Text
  pub full_name : Option Text

-- `.filter(|value| !value.trim().is_empty())`
unfoldable pub not_blank : Option Text → Option Text
not_blank none = none
not_blank (some s) = if is_empty (trim s) then none else some s

abbrev pub skybridge_password_sentinel : Text
skybridge_password_sentinel = text "skybridge-session-only"

-- What a new account draws, or the time of an update.
pub record LinkDraws : Type 0 where
  pub tenant_id : Uuid
  pub user_id : Uuid
  pub verified_at : Instant
  pub created_at : Instant

-- The `SET` of `update_skybridge_user`.
abbrev pub update_profile : Instant → SkybridgeProfile → User → User
update_profile at profile u = record u {
  nebula_id = profile.nebula_id;
  nebula_source = NebulaSource.skybridge;
  skybridge_user_id = some profile.user_id;
  email = profile.email;
  phone = profile.phone;
  name = or_else profile.display_name u.name;
  email_verified_at = or_else u.email_verified_at (some at);
}

abbrev pub both_value : Option Text → Option Text → Bool
both_value a none = false
both_value a (some t) = same_value a t

-- Another row that has a unique value of `u`.
abbrev pub clashes : User → User → Bool
clashes u x =
    not (x.id == u.id)
    && (both_value (email_text x) (email_text u)
        || (both_value (phone_text x) (phone_text u)
            || (text_eq x.nebula_id.value u.nebula_id.value
                || same_id x.skybridge_user_id u.skybridge_user_id)))

unfoldable pub update_skybridge_user : Instant → Uuid → SkybridgeProfile → Tx User
update_skybridge_user at user_id profile db = elim (find (λ (u : User). u.id == user_id) db.users) [
  | none ↦ err (internal (text "database operation failed"))
  | some old ↦
      if any (clashes (update_profile at profile old)) db.users
      then err (internal (text "database operation failed"))
      else ok (
        update_profile at profile old,
        record db {
          users = update_where (λ (u : User). u.id == user_id) (update_profile at profile) db.users;
        },
      )
]

unfoldable pub find_user_by_skybridge_user_id : Uuid → Database → Option User
find_user_by_skybridge_user_id id db =
    find (λ (u : User). same_id u.skybridge_user_id (some id)) db.users

unfoldable pub linked_user : LinkDraws → SkybridgeProfile → User
linked_user c profile = record {
  id = c.user_id;
  tenant_id = c.tenant_id;
  nebula_id = profile.nebula_id;
  nebula_source = NebulaSource.skybridge;
  skybridge_user_id = some profile.user_id;
  email = profile.email;
  phone = profile.phone;
  name = profile.display_name;
  password_hash = skybridge_password_sentinel;
  role = UserRole.user;
  email_verified_at = some c.verified_at;
  phone_verified_at = none;
  created_at = c.created_at;
}

unfoldable pub insert_linked_user : User → Tx User
insert_linked_user u = do
  statement db_internal (insert_tenant u.tenant_id)
  statement map_identity_unique_conflict (insert_user u)
  pure u

unfoldable pub upsert_skybridge_user : LinkDraws → SkybridgeProfile → Tx User
upsert_skybridge_user c profile db = elim (find_user_by_skybridge_user_id profile.user_id db) [
  | some existing ↦ update_skybridge_user c.verified_at existing.id profile db
  | none ↦ insert_linked_user (linked_user c profile) db
]

-- The audit event that follows the account.
abbrev pub synced : Stamp → User → Tx User
synced stamp u =
    insert_audit (
      audit stamp (some u.tenant_id) u.nebula_id.value (text "auth.skybridge") (text "user")
        (text "skybridge identity synced"))
    >> pure u

-- `auth_skybridge` for a profile that the provider has returned: the account is committed before the
-- audit event is inserted.
unfoldable pub auth_skybridge :
    LinkDraws → Stamp → SkybridgeProfile → Database → Database × Result ApiError User
auth_skybridge c stamp profile db = elim (upsert_skybridge_user c profile db) [
  | err e ↦ (db, err e)
  | ok (u, db') ↦ commit (synced stamp u) db'
]

module _ (lib : Libraries) where
  open lib use {tables}

  unfoldable pub parse_skybridge_email : Option Text → Result ApiError (Option Email)
  parse_skybridge_email value = elim (not_blank value) [
    | none ↦ ok none
    | some s ↦
        map_err (bad_gateway (text "invalid SkyBridge email")) (map_ok some (parse_email tables s))
  ]

  unfoldable pub parse_skybridge_phone : Option Text → Result ApiError (Option PhoneNumber)
  parse_skybridge_phone value = elim (not_blank value) [
    | none ↦ ok none
    | some s ↦
        map_err (bad_gateway (text "invalid SkyBridge phone")) (map_ok some (parse_phone_number s))
  ]

  unfoldable pub try_from_response : SkybridgeProfileResponse → Result ApiError SkybridgeProfile
  try_from_response response =
      bind (ok_or response.nebula_id (bad_gateway (text "SkyBridge profile has no nebula id")))
        λ value.
          bind
            (map_err (bad_gateway (text "invalid SkyBridge nebula id"))
              (parse_nebula_id tables value))
            λ nebula_id. bind (parse_skybridge_email response.email) λ email.
              bind (parse_skybridge_phone response.phone) λ phone. ok (record {
                user_id = response.id;
                nebula_id = nebula_id;
                email = email;
                phone = phone;
                display_name = not_blank response.full_name;
              })
