-- ===== src/Cloud/Examples/Devices.antt =====
-- Runs of the cloud service on a small database: devices, leases and test entitlements.
use ozon_rust_suite.Common.{◌≡◌, refl, arith, ok, text, text_eq, [], ◌∷◌}
use ozon_rust_suite.Common.Rows.{find, update_where, count_where}
use ozon_rust_suite.Common.Unicode.{trim, is_whitespace}
use ozon_rust_suite.Domain.Account.{PaymentProvider, Device, EntitlementLease, new_lease}
use ozon_rust_suite.Cloud.Database.{Database, insert_audit_row, insert_entitlement, insert_card_key}
use ozon_rust_suite.Cloud.Tx.{statement, insert_audit}
use ozon_rust_suite.Cloud.CardKeys.{mark_card_key_redeemed}
use ozon_rust_suite.Cloud.Columns.{payment_provider_from_db, payment_provider_to_db}
use ozon_rust_suite.Cloud.Columns.Laws.{decode_iff_encode}
use ozon_rust_suite.Cloud.CardKeys.{generate_card_key}
use ozon_rust_suite.Cloud.Devices.{
  DeviceDraws, ActivateDeviceRequest, first_of, best_from, find_active_entitlement,
  count_active_devices_for_user, find_device_by_fingerprint, find_active_device,
  lock_user_for_update, upsert_device, enforce_device_limit_for_lease, touch_device_last_seen,
  issue_lease, store_device, device_id_for, activate_device,
}
use ozon_rust_suite.Cloud.Devices.Leases.{Leases, issue_lease-Leases}
use ozon_rust_suite.Cloud.Devices.Limits.{KeepsLimit, activate_device-KeepsLimit}
use ozon_rust_suite.Cloud.TestAccess.{
  TestAccessConfig, GrantDraws, test_full_access_matches, test_full_access_candidates,
  has_active_full_access_entitlement, is_full_access, store_grant,
  ensure_test_full_access_entitlement,
}
use ozon_rust_suite.Cloud.TestAccess.Grants.{GrantOutcome, ensure_test_full_access_outcome}
use ozon_rust_suite.Cloud.Examples.{lib, bearer, buyer, live_entitlement, laptop, db, stamp, after}

abbrev device_draws : DeviceDraws
device_draws = record {
  now = 60;
  query_now = 61;
  stamp = stamp;
  seen_at = 62;
  limit_now = 63;
  issued_at = 64;
  lease_id = 65;
}

abbrev no_lease : EntitlementLease
no_lease = new_lease 0 0 0 0 0 live_entitlement

abbrev leasing : Database × EntitlementLease
leasing = after no_lease (issue_lease device_draws (ok bearer) 8)

leased : issue_lease device_draws (ok bearer) 8 db ≡ ok (leasing.1, leasing.0)
unfolding issue_lease find_active_device find find_active_entitlement best_from first_of
    enforce_device_limit_for_lease count_active_devices_for_user count_where touch_device_last_seen
    update_where new_lease
leased = refl

issue_lease-Leases_example : Leases device_draws bearer 8 db leasing.1 leasing.0
issue_lease-Leases_example = issue_lease-Leases device_draws bearer 8 db leasing.1 leasing.0 leased

abbrev phone : ActivateDeviceRequest
phone = record { name = text "phone"; fingerprint = text "phone" }

abbrev activating : Database × Device
activating = after laptop (activate_device lib device_draws (ok bearer) phone)

activated : activate_device lib device_draws (ok bearer) phone db ≡ ok (activating.1, activating.0)
unfolding activate_device lock_user_for_update find_active_entitlement best_from first_of
    find_device_by_fingerprint find count_active_devices_for_user count_where store_device
    upsert_device device_id_for statement insert_audit insert_audit_row text_eq update_where trim
    is_whitespace
activated = refl

activate_device-KeepsLimit_example : KeepsLimit lib device_draws bearer phone db activating.0
unfolding find
activate_device-KeepsLimit_example =
    activate_device-KeepsLimit lib device_draws bearer phone db activating.1 activating.0
      (λ _. refl, tt) activated

decode_iff_encode_example :
    payment_provider_from_db (payment_provider_to_db PaymentProvider.wechat_pay)
    ≡ ok PaymentProvider.wechat_pay
decode_iff_encode_example =
    ((decode_iff_encode (payment_provider_to_db PaymentProvider.wechat_pay)).3
        PaymentProvider.wechat_pay).1
      refl

abbrev testers : TestAccessConfig
testers = record { identities = text "nebula-1" ∷ []; duration_days = 30; max_devices = 5 }

abbrev grant_draws : GrantDraws
grant_draws = record {
  query_now = 20;
  key = record { random = text "NEW"; id = 30; salt = []; created_at = 22 };
  redeemed_at = 23;
  entitlement_id = 31;
  stamp = stamp;
}

abbrev granting : Database × Unit {0}
granting = after tt (ensure_test_full_access_entitlement lib testers grant_draws buyer)

granted_to_buyer :
    ensure_test_full_access_entitlement lib testers grant_draws buyer db ≡ ok (tt, granting.0)
unfolding ensure_test_full_access_entitlement test_full_access_matches test_full_access_candidates
    text_eq lock_user_for_update has_active_full_access_entitlement is_full_access generate_card_key
    store_grant insert_card_key mark_card_key_redeemed statement insert_entitlement insert_audit
    insert_audit_row find update_where
granted_to_buyer = refl

ensure_test_full_access_outcome_example : GrantOutcome lib testers grant_draws buyer db granting.0
ensure_test_full_access_outcome_example =
    ensure_test_full_access_outcome lib testers grant_draws buyer db granting.0 (omega arith)
      granted_to_buyer
