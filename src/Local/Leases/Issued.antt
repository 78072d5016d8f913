-- ===== src/Local/Leases/Issued.antt =====
-- apps/cloud-api/src/main.rs with apps/local-node/src/main.rs: the lease that the cloud issues for a
-- device, on the device.
use ozon_rust_suite.Common.{
  ◌≡◌, ◌↔◌, refl, sym, ap, ◌∙◌, inl, inr, none, some, Text, ok, ==_iff, arith, Option-cases,
}
use ozon_rust_suite.Common.Rows.{find}
use ozon_rust_suite.Domain.Account.{Device, active, EntitlementLease}
use ozon_rust_suite.Cloud.Database.{Database}
use ozon_rust_suite.Cloud.Libraries.{Libraries}
use ozon_rust_suite.Cloud.CardKeys.{AuthClaims}
use ozon_rust_suite.Cloud.Tx.{>>=-eq-ok, Stamp, insert_audit}
use ozon_rust_suite.Domain.Task.{Uuid}
use ozon_rust_suite.Cloud.Devices.{
  DeviceDraws, ActivateDeviceRequest, activate_device, issue_lease, find_device_by_fingerprint,
  device_id_for, find_active_entitlement, lock_user_for_update, best_from, store_device,
  upsert_device, same_machine,
}
use ozon_rust_suite.Cloud.Devices.Leases.{issue_lease-Leases}
use ozon_rust_suite.Local.Leases.Checks.{require-eq-ok}
use ozon_rust_suite.Local.Leases.{ensure_lease_bound_to_device}

store_device-new :
    (lib : Libraries) (stamp : Stamp) (row : Device) (db db' : Database) {device : Device}
    → find (same_machine row.user_id row.fingerprint_hash) db.devices ≡ none
    → store_device lib stamp row db ≡ ok (device, db')
    → device ≡ row
unfolding store_device upsert_device
store_device-new lib stamp row db db' {device} new h =
    let (stored, db1, first, rest) = >>=-eq-ok (upsert_device row) _ db h in
    let same : stored ≡ row = ground (arith, first, new) in
    let (_, db2, audited, last) = >>=-eq-ok (insert_audit _) _ db1 rest in
    let answered : device ≡ stored = ground (arith, last) in answered ∙ same

bound_iff :
    (lib : Libraries) (lease : EntitlementLease) (user : Uuid) (fingerprint : Text) (id : Uuid)
    → lease.device_id ≡ id
    → lease.user_id ≡ user
    → (ensure_lease_bound_to_device lib lease fingerprint ≡ ok tt)
      ↔ (device_id_for lib user fingerprint ≡ id)
unfolding ensure_lease_bound_to_device
bound_iff lib lease user fingerprint id named owner =
    let test = ==_iff lease.device_id (device_id_for lib lease.user_id fingerprint) in
    (
      λ h. rw (← owner, ← named) (sym (test.0 (require-eq-ok _ _ h))),
      λ e.
          let same : lease.device_id ≡ device_id_for lib lease.user_id fingerprint =
            rw (named, owner, e) refl in
          rw (test.1 same) refl,
    )

-- The lease that the cloud issues for a device passes the local node's check of the device on the
-- machine with the fingerprint that the device was first activated with, and on another machine
-- exactly when the two fingerprints lead to the same identifier for that user.
pub issue_lease-bound :
    (lib : Libraries) (c c' : DeviceDraws) (claims : AuthClaims) (input : ActivateDeviceRequest)
    (db db1 db2 db3 : Database) (device : Device) (lease : EntitlementLease) (fingerprint : Text)
    → find_device_by_fingerprint claims.sub (lib.sha256_hex input.fingerprint) db ≡ none
    → activate_device lib c (ok claims) input db ≡ ok (device, db1)
    → issue_lease c' (ok claims) device.id db2 ≡ ok (lease, db3)
    → (ensure_lease_bound_to_device lib lease fingerprint ≡ ok tt)
      ↔ (device_id_for lib claims.sub fingerprint ≡ device_id_for lib claims.sub input.fingerprint)
unfolding activate_device find_active_entitlement lock_user_for_update find_device_by_fingerprint
issue_lease-bound lib c c' claims input db db1 db2 db3 device lease fingerprint fresh activated
      issued =
    let l = issue_lease-Leases c' claims device.id db2 lease db3 issued in
    elim (Option-cases (best_from c.query_now claims.sub db.card_keys db.entitlements)) [
      | inl missing ↦ absurd (ground arith)
      | inr (limit, best) ↦
          let made =
            store_device-new lib c.stamp
              (record {
                id = device_id_for lib claims.sub input.fingerprint;
                tenant_id = claims.tenant_id;
                user_id = claims.sub;
                name = input.name;
                fingerprint_hash = lib.sha256_hex input.fingerprint;
                status = active;
                activated_at = c.now;
                last_seen_at = some c.now;
              })
              db db1 {device = device} fresh (ground arith) in
          bound_iff lib lease claims.sub fingerprint _
            (l.device_named.1 ∙ ap (λ (d : Device). d.id) made) l.owner.0
    ]
