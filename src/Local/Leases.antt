-- ===== src/Local/Leases.antt =====
-- apps/local-node/src/main.rs: the cloud's lease on the local node: its checks, its place in the
-- secret store, and the fingerprint of the device that it is bound to.
pub mod Checks
pub mod Kept
pub mod Saved
pub mod Issued
use ozon_rust_suite.Common.{
  ℕ, Bool, true, false, not, ◌&&◌, List, [], ◌∷◌, ◌++◌, Option, none, some, Text, text, text_eq,
  Result, ok, err, ◌>>=◌, ◌>>◌, require, ok_or, ltb, leb, ◌==◌, if◌then◌else◌, any, length,
}
use ozon_rust_suite.Common.Unicode.{trim, byte_length}
use ozon_rust_suite.Common.Secure.{Bytes}
use ozon_rust_suite.Domain.Task.{Uuid, Instant}
use ozon_rust_suite.Domain.Account.{
  Feature, ozon_read, ozon_write_mock, draft_import1688_mock, open_claw_bridge, local_approval,
  EntitlementLeaseSignature, EntitlementLease, EntitlementLeaseClaims, claims,
}
use ozon_rust_suite.Cloud.Libraries.{Libraries}
use ozon_rust_suite.Cloud.Devices.{device_id_for}
use ozon_rust_suite.Secrets.{SecretStoreError, Answer, SecretStore}
use ozon_rust_suite.Local.{ApiError, bad_request, forbidden, internal, LocalConfig}

-- The crates `rsa`, `base64` and `serde_json`: keys and signatures, and what is written as JSON.
pub record Crypto (Key Sig : Type 0) : Type 0 where
  pub from_public_key_pem : Text → Option Key
  pub base64_decode : Text → Option Bytes
  pub signature_from : Bytes → Option Sig
  pub verify : Key → Text → Sig → Bool
  -- The issuer, the audience and the claims.
  pub payload_to_json : Text → Text → EntitlementLeaseClaims → Option Text
  pub lease_to_json : EntitlementLease → Option Text
  pub lease_from_json : Text → Option EntitlementLease

abbrev pub feature_name : Feature → Text
feature_name ozon_read = text "Ozon read access"
feature_name ozon_write_mock = text "Ozon dry-run write access"
feature_name draft_import1688_mock = text "1688 draft import dry-run access"
feature_name open_claw_bridge = text "OpenClaw bridge access"
feature_name local_approval = text "local approval access"

-- The order of the derived `PartialEq`'s variants.
abbrev pub feature_index : Feature → ℕ
feature_index ozon_read = 0
feature_index ozon_write_mock = 1
feature_index draft_import1688_mock = 2
feature_index open_claw_bridge = 3
feature_index local_approval = 4

-- `contains(&feature)`
abbrev pub contains_feature : List Feature → Feature → Bool
contains_feature features feature = any (λ f. feature_index f == feature_index feature) features

unfoldable pub starts_with : Text → Text → Bool
starts_with s [] = true
starts_with [] (p ∷ ps) = false
starts_with (c ∷ s) (p ∷ ps) = c == p && starts_with s ps

module _ {Key Sig : Type 0} (crypto : Crypto Key Sig) (config : LocalConfig) where
  open crypto use {from_public_key_pem, base64_decode, signature_from, verify, payload_to_json}

  unfoldable pub lease_signing_payload : EntitlementLease → Text → Text → Result ApiError Text
  lease_signing_payload lease issuer audience =
      ok_or (payload_to_json issuer audience (claims lease))
        (internal (text "failed to serialize lease verification payload"))

  unfoldable pub check_signature :
      EntitlementLease → EntitlementLeaseSignature → Result ApiError (Unit {0})
  check_signature lease signature = do
    require (text_eq signature.alg (text "RS256"))
        (bad_request (text "lease signature algorithm is not supported"))
    require (text_eq signature.issuer config.lease_issuer)
        (bad_request (text "lease signature issuer mismatch"))
    require (text_eq signature.audience config.lease_audience)
        (bad_request (text "lease signature audience mismatch"))
    public_key_pem ←
        ok_or config.lease_public_key_pem
          (bad_request (text "lease public key is not configured on this local node"))
    public_key ←
        ok_or (from_public_key_pem public_key_pem)
          (bad_request (text "lease public key is invalid"))
    signature_bytes ←
        ok_or (base64_decode signature.value)
          (bad_request (text "lease signature encoding is invalid"))
    decoded ←
        ok_or (signature_from signature_bytes) (bad_request (text "lease signature is invalid"))
    payload ← lease_signing_payload lease signature.issuer signature.audience
    require (verify public_key payload decoded)
        (bad_request (text "lease signature verification failed"))

  unfoldable pub verify_cloud_lease_signature : EntitlementLease → Result ApiError (Unit {0})
  verify_cloud_lease_signature lease = elim lease.signature [
    | none ↦
        if config.allow_unsigned_lease
        then ok tt
        else err (bad_request (text "lease is missing a cloud signature"))
    | some signature ↦ check_signature lease signature
  ]

  unfoldable pub validate_cloud_lease : Instant → EntitlementLease → Result ApiError (Unit {0})
  validate_cloud_lease now lease = do
    require (not (leb lease.expires_at now)) (bad_request (text "lease is expired"))
    verify_cloud_lease_signature lease

  unfoldable pub validate_cloud_lease_with_feature :
      Instant → EntitlementLease → Feature → Result ApiError (Unit {0})
  validate_cloud_lease_with_feature now lease feature = do
    validate_cloud_lease now lease
    require (contains_feature lease.features feature)
        (forbidden (text "cloud lease does not include " ++ feature_name feature))

unfoldable pub ensure_lease_bound_to_device :
    Libraries → EntitlementLease → Text → Result ApiError (Unit {0})
ensure_lease_bound_to_device lib lease device_fingerprint =
    require (lease.device_id == device_id_for lib lease.user_id device_fingerprint)
      (forbidden (text "cloud lease is not bound to this device"))

-- A call of the secret store whose errors all become one.
abbrev pub stored_or : {A : Type 0} → Text → Answer A → Result ApiError A
stored_or message (ok a) = ok a
stored_or message (err e) = err (internal message)

-- What the checks of the state keep: the secrets, and the lease that was read or saved last.
pub record LeaseState (S : Type 0) : Type 0 where
  pub secrets : S
  pub cloud_lease_cache : Option EntitlementLease

-- What one call meets: the clock, the machine's own identifier where it has one, the calls of the
-- secret store in their order, and a new identifier.
pub record LeaseIo (Io : Type 0) : Type 0 where
  pub now : Instant
  pub stable : Option Text
  pub lease_io : Io
  pub get_io : Io
  pub put_io : Io
  pub new_id : Uuid

abbrev pub secret_cloud_lease : Text
secret_cloud_lease = text "cloud_lease"

abbrev pub secret_device_fingerprint : Text
secret_device_fingerprint = text "device_fingerprint"

-- A stored fingerprint is used where it begins as the node's own do and has 20 bytes at least.
unfoldable pub usable_fingerprint : Option Text → Option Text
usable_fingerprint none = none
usable_fingerprint (some existing) =
    if starts_with (trim existing) (text "ors-local-") && leb 20 (byte_length (trim existing))
    then some (trim existing)
    else none

module _ {S Io : Type 0} (store : SecretStore S Io) (lib : Libraries) where
  -- The end of `load_or_create_device_fingerprint`.
  unfoldable pub create_fingerprint : LeaseIo Io → S → S × Result ApiError Text
  create_fingerprint io s =
      let value = text "ors-local-" ++ lib.uuid_debug io.new_id in
      let r = store.put io.put_io secret_device_fingerprint value s in
      (r.0, (do stored_or (text "failed to persist device fingerprint") r.1; ok value))

  unfoldable pub stored_fingerprint :
      LeaseIo Io → S × Answer (Option Text) → S × Result ApiError Text
  stored_fingerprint io (s, err e) = (s, err (internal (text "secret store unavailable")))
  stored_fingerprint io (s, ok found) = elim (usable_fingerprint found) [
    | some value ↦ (s, ok value)
    | none ↦ create_fingerprint io s
  ]

  unfoldable pub load_or_create_device_fingerprint : LeaseIo Io → S → S × Result ApiError Text
  load_or_create_device_fingerprint io s = elim io.stable [
    | some value ↦ (s, ok value)
    | none ↦ stored_fingerprint io (store.get io.get_io secret_device_fingerprint s)
  ]

  module _ {Key Sig : Type 0} (crypto : Crypto Key Sig) (config : LocalConfig) where
    open crypto use {lease_to_json, lease_from_json}

    unfoldable pub parsed_lease : Option Text → Result ApiError EntitlementLease
    parsed_lease none = err (
        forbidden (
          text
            "cloud lease is not installed; sign in on ozon66.com, bind this device, then issue a lease"))
    parsed_lease (some bundle) =
        ok_or (lease_from_json bundle) (bad_request (text "stored cloud lease is invalid"))

    unfoldable pub load_cloud_lease :
        Io → LeaseState S → LeaseState S × Result ApiError EntitlementLease
    load_cloud_lease io s = elim s.cloud_lease_cache [
      | some lease ↦ (s, ok lease)
      | none ↦
          let r = store.get io secret_cloud_lease s.secrets in
          let read = (do
            bundle ← stored_or (text "secret store unavailable") r.1
            parsed_lease bundle) in
          elim read [
            | ok lease ↦ (record { secrets = r.0; cloud_lease_cache = some lease }, ok lease)
            | err e ↦ (record s { secrets = r.0 }, err e)
          ]
    ]

    -- `validate…` and the check of the binding, which reads or makes the fingerprint.
    unfoldable pub check_lease :
        LeaseIo Io → Feature → EntitlementLease → S → S × Result ApiError (Unit {0})
    check_lease io feature lease s =
        elim (validate_cloud_lease_with_feature crypto config io.now lease feature) [
          | err e ↦ (s, err e)
          | ok _ ↦
              let r = load_or_create_device_fingerprint io s in
              (
                r.0,
                (do
                  device_fingerprint ← r.1
                  ensure_lease_bound_to_device lib lease device_fingerprint),
              )
        ]

    unfoldable pub require_valid_lease_with_feature :
        LeaseIo Io → Feature → LeaseState S → LeaseState S × Result ApiError (Unit {0})
    require_valid_lease_with_feature io feature s =
        if not config.use_real_ozon && config.allow_unsigned_lease
        then (s, ok tt)
        else (let r = load_cloud_lease io.lease_io s in
            elim r.1 [
              | err e ↦ (r.0, err e)
              | ok lease ↦
                  let q = check_lease io feature lease r.0.secrets in
                  (record r.0 { secrets = q.0 }, q.1)
            ])

    -- What `save_portal_lease` does after the checks.
    unfoldable pub save_lease :
        Io → EntitlementLease → LeaseState S → LeaseState S × Result ApiError (Unit {0})
    save_lease io lease s = elim (lease_to_json lease) [
      | none ↦ (s, err (internal (text "failed to serialize lease")))
      | some lease_json ↦
          let r = store.put io secret_cloud_lease lease_json s.secrets in
          elim r.1 [
            | err e ↦
                (record s { secrets = r.0 }, err (internal (text "failed to save cloud lease")))
            | ok _ ↦ (record { secrets = r.0; cloud_lease_cache = some lease }, ok tt)
          ]
    ]

    unfoldable pub save_portal_lease :
        LeaseIo Io → EntitlementLease → LeaseState S → LeaseState S × Result ApiError (Unit {0})
    save_portal_lease io lease s =
        let q = check_lease io ozon_read lease s.secrets in
        elim q.1 [
          | err e ↦ (record s { secrets = q.0 }, err e)
          | ok _ ↦ save_lease io.lease_io lease (record s { secrets = q.0 })
        ]
