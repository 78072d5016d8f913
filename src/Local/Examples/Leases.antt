-- ===== src/Local/Examples/Leases.antt =====
-- apps/local-node/src/main.rs: a lease on a device, with libraries that compute.
use ozon_rust_suite.Common.{
  ℕ, ◌≡◌, ◌↔◌, ◌⊎◌, refl, inl, true, false, [], ◌∷◌, none, some, ok, err, Text, text, text_eq,
  arith,
}
use ozon_rust_suite.Common.Assoc.{text_key, lookup, insert}
use ozon_rust_suite.Common.Unicode.{trim, trim_start, trim_end, is_whitespace}
use ozon_rust_suite.Common.Rows.{find, update_where, count_where}
use ozon_rust_suite.Domain.Account.{
  Device, new_lease, ozon_read, EntitlementLease, EntitlementLeaseSignature,
}
use ozon_rust_suite.Cloud.Libraries.{Libraries}
use ozon_rust_suite.Cloud.Devices.{
  DeviceDraws, ActivateDeviceRequest, first_of, best_from, find_active_entitlement,
  count_active_devices_for_user, find_device_by_fingerprint, find_active_device,
  lock_user_for_update, upsert_device, enforce_device_limit_for_lease, touch_device_last_seen,
  issue_lease, store_device, device_id_for, activate_device,
}
use ozon_rust_suite.Cloud.Database.{Database, insert_audit_row}
use ozon_rust_suite.Cloud.Tx.{statement, insert_audit}
use ozon_rust_suite.Cloud.Examples.{lib, bearer, live_entitlement, laptop, db, stamp, after}
use ozon_rust_suite.Secrets.Memory.{Secrets, memory_store, memory_store-IsStore}
use ozon_rust_suite.Local.Leases.{
  Crypto, LeaseState, LeaseIo, load_cloud_lease, require_valid_lease_with_feature,
  save_portal_lease, save_lease, check_lease, load_or_create_device_fingerprint,
  validate_cloud_lease_with_feature, validate_cloud_lease, verify_cloud_lease_signature,
  check_signature, lease_signing_payload, ensure_lease_bound_to_device,
}
use ozon_rust_suite.Local.Leases.Checks.{IsAccepted, require_valid_lease_sound}
use ozon_rust_suite.Local.Leases.Kept.{IsIdText}
use ozon_rust_suite.Local.Leases.Saved.{Answers, save_portal_lease_kept}
use ozon_rust_suite.Local.Leases.Issued.{issue_lease-bound}
use ozon_rust_suite.Local.Examples.{config}

abbrev node_lib : Libraries
node_lib = record lib { uuid_debug = λ _. text "0123-4567-89ab" }

-- A machine with an identifier of its own, at a time.
abbrev io : ℕ → LeaseIo (Unit {0})
io now = record {
  now = now;
  stable = some (text "ors-local-0123456789ab");
  lease_io = tt;
  get_io = tt;
  put_io = tt;
  new_id = 9;
}

abbrev signature : EntitlementLeaseSignature
signature = record {
  alg = text "RS256";
  kid = text "k1";
  issuer = text "ozon66-cloud";
  audience = text "ozon-rust-local-node";
  value = text "c2ln";
}

abbrev lease : EntitlementLease
lease = record {
  lease_id = 1;
  tenant_id = 2;
  user_id = 3;
  device_id = device_id_for node_lib 3 (text "ors-local-0123456789ab");
  entitlement_id = 5;
  features = ozon_read ∷ [];
  issued_at = 10;
  expires_at = 100;
  signature = some signature;
}

-- One key confirms every signature, and one text stands for every lease.
abbrev crypto : Crypto (Unit {0}) (Unit {0})
crypto = record {
  from_public_key_pem = λ _. some tt;
  base64_decode = λ s. some s;
  signature_from = λ _. some tt;
  verify = λ _ _ _. true;
  payload_to_json = λ _ _ _. some (text "payload");
  lease_to_json = λ _. some (text "lease");
  lease_from_json = λ _. some lease;
}

abbrev installed : LeaseState Secrets
installed = record { secrets = []; cloud_lease_cache = some lease }

accepted :
    (require_valid_lease_with_feature memory_store node_lib crypto config
      (io 20)
      ozon_read
      installed).1
    ≡ ok tt
unfolding require_valid_lease_with_feature load_cloud_lease check_lease
    validate_cloud_lease_with_feature validate_cloud_lease verify_cloud_lease_signature
    check_signature text_eq lease_signing_payload load_or_create_device_fingerprint
    ensure_lease_bound_to_device device_id_for
accepted = refl

require_valid_lease_sound_example :
    ((config.use_real_ozon ≡ false) × (config.allow_unsigned_lease ≡ true))
    ⊎ ((l : EntitlementLease) × (fingerprint : Text) × ((load_cloud_lease memory_store node_lib
            crypto config tt installed).1
          ≡ ok l)
        × ((load_or_create_device_fingerprint memory_store node_lib
              (io 20)
              (load_cloud_lease memory_store node_lib crypto config tt installed).0.secrets).1
            ≡ ok fingerprint)
        × IsAccepted memory_store node_lib crypto config 20 ozon_read fingerprint l)
require_valid_lease_sound_example =
    require_valid_lease_sound memory_store node_lib crypto config (io 20) ozon_read installed
      accepted

abbrev saved : LeaseState Secrets
saved = record { secrets = (text "cloud_lease", text "lease") ∷ []; cloud_lease_cache = some lease }

abbrev empty_state : LeaseState Secrets
empty_state = record { secrets = []; cloud_lease_cache = none }

saving :
    save_portal_lease memory_store node_lib crypto config (io 20) lease empty_state ≡ (saved, ok tt)
unfolding save_portal_lease check_lease validate_cloud_lease_with_feature validate_cloud_lease
    verify_cloud_lease_signature check_signature text_eq lease_signing_payload
    load_or_create_device_fingerprint ensure_lease_bound_to_device device_id_for save_lease insert
saving = refl

answers : Answers memory_store tt
answers n s = (lookup n s, refl)

-- The node is restarted, and its lease is asked for again.
save_portal_lease_kept_example :
    (require_valid_lease_with_feature memory_store node_lib crypto config
      (io 99)
      ozon_read
      (record saved { cloud_lease_cache = none })).1
    ≡ ok tt
unfolding is_whitespace
save_portal_lease_kept_example =
    save_portal_lease_kept memory_store-IsStore node_lib crypto config (io 20) (io 99) lease
      empty_state saved (record saved { cloud_lease_cache = none }) id_text reads saving (λ n. refl)
      (inl refl) refl (omega arith) answers answers
  where
    id_text : IsIdText (node_lib.uuid_debug 9)
    id_text = record { long = omega arith; dense = refl }

    reads : (json : Text) → some (text "lease") ≡ some json → some lease ≡ some lease
    reads json h = refl

abbrev phone : ActivateDeviceRequest
phone = record { name = text "phone"; fingerprint = text "phone" }

abbrev device_draws : DeviceDraws
device_draws = record {
  now = 60;
  query_now = 61;
  stamp = stamp;
  seen_at = 62;
  limit_now = 63;
  issued_at = 64;
  lease_id = 65;
}

abbrev activating : Database × Device
activating = after laptop (activate_device lib device_draws (ok bearer) phone)

abbrev no_lease : EntitlementLease
no_lease = new_lease 0 0 0 0 0 live_entitlement

abbrev leasing : Database × EntitlementLease
leasing = elim (issue_lease device_draws (ok bearer) activating.1.id activating.0) [
  | ok (l, db') ↦ (db', l)
  | err _ ↦ (db, no_lease)
]

activated : activate_device lib device_draws (ok bearer) phone db ≡ ok (activating.1, activating.0)
unfolding activate_device trim is_whitespace lock_user_for_update find_active_entitlement best_from
    find first_of find_device_by_fingerprint text_eq count_active_devices_for_user count_where
    store_device upsert_device device_id_for insert_audit
activated = refl

leased :
    issue_lease device_draws (ok bearer) activating.1.id activating.0 ≡ ok (leasing.1, leasing.0)
unfolding activate_device trim is_whitespace lock_user_for_update find_active_entitlement best_from
    find first_of find_device_by_fingerprint text_eq count_active_devices_for_user count_where
    store_device upsert_device device_id_for insert_audit issue_lease find_active_device
    enforce_device_limit_for_lease touch_device_last_seen update_where new_lease statement
    insert_audit_row trim_start trim_end
leased = refl

issue_lease-bound_example :
    (ensure_lease_bound_to_device lib leasing.1 (text "tablet") ≡ ok tt)
    ↔ (device_id_for lib 2 (text "tablet") ≡ device_id_for lib 2 (text "phone"))
unfolding find_device_by_fingerprint find text_eq
issue_lease-bound_example =
    issue_lease-bound lib device_draws device_draws bearer phone db activating.0 activating.0
      leasing.0 activating.1 leasing.1 (text "tablet") refl activated leased
