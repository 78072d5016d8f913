-- ===== src/Cloud/TestAccess.antt =====
-- apps/cloud-api/src/main.rs: the entitlement that a listed tester is given before a device is
-- activated or a lease issued.
pub mod Grants
use ozon_rust_suite.Common.{
  ℕ, ◌+◌, Bool, true, false, not, ◌&&◌, ◌||◌, List, [], ◌∷◌, ◌++◌, Option, none, some, Text, text,
  text_eq, Result, ok, err, leb, ltb, ◌==◌, if◌then◌else◌, ok_or, any, all,
}
use ozon_rust_suite.Common.Rows.{find}
use ozon_rust_suite.Common.Unicode.{to_ascii_lowercase}
use ozon_rust_suite.Domain.Task.{Uuid, Instant}
use ozon_rust_suite.Domain.Account.{
  User, NebulaSource, Email, PhoneNumber, CardKey, Device, Entitlement, EntitlementLease, Feature,
  standard_30d, days,
}
use ozon_rust_suite.Cloud.Errors.{ApiError, unauthorized}
use ozon_rust_suite.Cloud.Columns.{feature_to_db}
use ozon_rust_suite.Cloud.Libraries.{Libraries}
use ozon_rust_suite.Cloud.Database.{Database, CardRow, insert_card_key, insert_entitlement}
use ozon_rust_suite.Cloud.Tx.{
  Tx, ◌>>=◌, ◌>>◌, pure, lift, read, commit, db_internal, statement, Stamp, audit, insert_audit,
}
use ozon_rust_suite.Cloud.CardKeys.{
  AuthClaims, KeyDraws, default_features, generate_card_key, mark_card_key_redeemed,
}
use ozon_rust_suite.Cloud.Devices.{
  is_live_for, lock_user_for_update, DeviceDraws, ActivateDeviceRequest, activate_device,
  issue_lease,
}

-- The part of `AppConfig` that the grant reads.
pub record TestAccessConfig : Type 0 where
  pub identities : List Text
  pub duration_days : ℕ
  pub max_devices : ℕ

pub record GrantDraws : Type 0 where
  pub query_now : Instant
  pub key : KeyDraws
  pub redeemed_at : Instant
  pub entitlement_id : Uuid
  pub stamp : Stamp

abbrev pub is_skybridge : NebulaSource → Bool
is_skybridge NebulaSource.skybridge = true
is_skybridge NebulaSource.local_dev = false

abbrev pub is_nil : List Text → Bool
is_nil [] = true
is_nil (_ ∷ _) = false

abbrev pub verified_email : User → List Text
verified_email u = elim u.email [
  | none ↦ []
  | some email ↦ elim u.email_verified_at [
    | none ↦ []
    | some _ ↦ to_ascii_lowercase email.value ∷ []
  ]
]

abbrev pub verified_phone : User → List Text
verified_phone u = elim u.phone [
  | none ↦ []
  | some phone ↦ elim u.phone_verified_at [
    | none ↦ []
    | some _ ↦ to_ascii_lowercase phone.value ∷ []
  ]
]

-- `features @> $5`, over the texts of the column.
abbrev pub has_feature : List Feature → Feature → Bool
has_feature features f = any (λ g. text_eq (feature_to_db g) (feature_to_db f)) features

-- The key that an entitlement came from allows the devices.
abbrev pub allows_devices : ℕ → Uuid → CardRow → Bool
allows_devices min_max_devices id r = (r.card.id == id) && leb min_max_devices r.card.max_devices

unfoldable pub is_full_access : Instant → Uuid → ℕ → List CardRow → Entitlement → Bool
is_full_access now user_id min_max_devices cards e =
    is_live_for now user_id e
    && (text_eq e.plan_code standard_30d
        && (any (allows_devices min_max_devices e.source_card_key_id) cards
            && all (has_feature e.features) default_features))

unfoldable pub has_active_full_access_entitlement : Instant → Uuid → ℕ → Database → Bool
has_active_full_access_entitlement now user_id min_max_devices db =
    any (is_full_access now user_id min_max_devices db.card_keys) db.entitlements

module _ (lib : Libraries) where
  open lib use {uuid_debug}

  unfoldable pub test_full_access_candidates : User → List Text
  test_full_access_candidates u =
      to_ascii_lowercase (uuid_debug u.id)
      ∷ to_ascii_lowercase u.nebula_id.value
      ∷ (verified_email u
          ++ (verified_phone u ++ (elim u.skybridge_user_id [
            | none ↦ []
            | some id ↦ to_ascii_lowercase (uuid_debug id) ∷ []
          ])))

  unfoldable pub test_full_access_matches : TestAccessConfig → User → Bool
  test_full_access_matches config u =
      if is_nil config.identities || not (is_skybridge u.nebula_source)
      then false
      else any (λ candidate. any (text_eq candidate) config.identities)
          (test_full_access_candidates u)

  unfoldable pub test_full_access_actor : User → Text
  test_full_access_actor u = elim u.email [ none ↦ u.nebula_id.value | some email ↦ email.value ]

  -- The writes of a grant, once the key is generated.
  unfoldable pub store_grant : TestAccessConfig → GrantDraws → User → CardKey → Tx (Unit {0})
  store_grant config c u card = do
    statement db_internal (insert_card_key card none)
    mark_card_key_redeemed card.id u.id c.redeemed_at
    let entitlement : Entitlement = record {
      id = c.entitlement_id;
      tenant_id = u.tenant_id;
      user_id = u.id;
      plan_code = standard_30d;
      source_card_key_id = card.id;
      features = default_features;
      expires_at = c.redeemed_at + days config.duration_days;
      revoked_at = none;
    }
    statement db_internal (insert_entitlement entitlement)
    insert_audit (
        audit c.stamp (some u.tenant_id) (test_full_access_actor u)
          (text "test_entitlement.granted")
          (text "EntitlementId(" ++ (uuid_debug c.entitlement_id ++ text ")"))
          (text "test full-access entitlement granted from allowlist"))

  unfoldable pub ensure_test_full_access_entitlement :
      TestAccessConfig → GrantDraws → User → Tx (Unit {0})
  ensure_test_full_access_entitlement config c u =
      if not (test_full_access_matches config u) then pure tt else do
        lock_user_for_update u.id
        has ← read (has_active_full_access_entitlement c.query_now u.id config.max_devices)
        (if has then pure tt else do
          generated ← lift (
              generate_card_key lib c.key standard_30d u.tenant_id config.duration_days
                config.max_devices)
          store_grant config c u generated.card_key)

  unfoldable pub ensure_test_full_access_for_user_id :
      TestAccessConfig → GrantDraws → Uuid → Tx (Unit {0})
  ensure_test_full_access_for_user_id config c user_id =
      if is_nil config.identities then pure tt else do
        found ← read (λ db. find (λ (u : User). u.id == user_id) db.users)
        u ← lift (ok_or found (unauthorized (text "user not found")))
        ensure_test_full_access_entitlement config c u

  -- The bearer is known, the grant is committed, and then the body is a transaction of its own.
  unfoldable pub with_test_access :
      {A : Type 0}
      → TestAccessConfig
      → GrantDraws
      → Result ApiError AuthClaims
      → Tx A
      → Database
      → Database × Result ApiError A
  with_test_access config c auth run db = elim auth [
    | err e ↦ (db, err e)
    | ok claims ↦ elim (ensure_test_full_access_for_user_id config c claims.sub db) [
      | err e ↦ (db, err e)
      | ok (_, db1) ↦ commit run db1
    ]
  ]

  -- The whole handlers `activate_device` and `issue_lease`.
  unfoldable pub handle_activate_device :
      TestAccessConfig
      → GrantDraws
      → DeviceDraws
      → Result ApiError AuthClaims
      → ActivateDeviceRequest
      → Database
      → Database × Result ApiError Device
  handle_activate_device config g c auth input =
      with_test_access config g auth (activate_device lib c auth input)

  unfoldable pub handle_issue_lease :
      TestAccessConfig
      → GrantDraws
      → DeviceDraws
      → Result ApiError AuthClaims
      → Uuid
      → Database
      → Database × Result ApiError EntitlementLease
  handle_issue_lease config g c auth device_id =
      with_test_access config g auth (issue_lease c auth device_id)
