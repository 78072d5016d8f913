-- ===== src/Cloud/Devices/Limits.antt =====
-- apps/cloud-api/src/main.rs: an activation keeps the bearer's active devices within the limit.
use ozon_rust_suite.Common.{
  ◌+◌, ◌≤◌, ◌≡◌, refl, ◌⊎◌, inl, inr, true, ◌||◌, some, ok, arith, if◌then◌else◌, Option-cases,
}
use ozon_rust_suite.Common.Rows.{find}
use ozon_rust_suite.Common.Rows.Laws.{find_sound, Unique, count_where-update, count_where-append}
use ozon_rust_suite.Domain.Account.{Device, active}
use ozon_rust_suite.Cloud.Libraries.{Libraries}
use ozon_rust_suite.Cloud.Database.{Database}
use ozon_rust_suite.Cloud.Tx.{insert_audit, Stamp, >>=-eq-ok}
use ozon_rust_suite.Cloud.Statements.{insert_audit-eq-ok}
use ozon_rust_suite.Cloud.CardKeys.{AuthClaims}
use ozon_rust_suite.Cloud.Devices.{
  DeviceDraws, Joined, best_from, find_active_entitlement, of_user, is_active, same_machine,
  refresh, count_active_devices_for_user, find_device_by_fingerprint, already_active, upsert_device,
  activate_device, store_device, lock_user_for_update, ActivateDeviceRequest,
  device_limit_allows_new_activation, device_id_for,
}
use ozon_rust_suite.Cloud.Devices.Leases.{IsJoined, best_from-IsJoined}

upsert_device-count :
    (d : Device) (db db' : Database) {x : Device}
    → is_active d.status ≡ true
    → Unique (same_machine d.user_id d.fingerprint_hash) db.devices
    → upsert_device d db ≡ ok (x, db')
    → count_active_devices_for_user d.user_id db'
        + (if already_active (find_device_by_fingerprint d.user_id d.fingerprint_hash db)
            then 1
            else 0)
      ≡ count_active_devices_for_user d.user_id db + 1
unfolding upsert_device count_active_devices_for_user find_device_by_fingerprint
upsert_device-count d db db' {x} on unique h =
    elim (Option-cases (find (same_machine d.user_id d.fingerprint_hash) db.devices)) [
      | inl new ↦ ground (arith, count_where-append (of_user d.user_id) db.devices d)
      | inr (old, found) ↦ ground (
        arith,
        find_sound (same_machine d.user_id d.fingerprint_hash) db.devices found,
        count_where-update (of_user d.user_id) (same_machine d.user_id d.fingerprint_hash)
            (refresh d) db.devices unique found,
      )
    ]

-- The facts of an activation that goes through.
pub record KeepsLimit (lib : Libraries) (c : DeviceDraws) (claims : AuthClaims)
    (input : ActivateDeviceRequest) (db db' : Database) : Type 0 where
  pub limit : Joined
  pub joined : IsJoined c.query_now claims.sub db.card_keys db.entitlements limit
  pub counted :
      (count_active_devices_for_user claims.sub db' ≡ count_active_devices_for_user claims.sub db)
      ⊎ ((count_active_devices_for_user claims.sub db'
            ≡ count_active_devices_for_user claims.sub db + 1)
          × (count_active_devices_for_user claims.sub db' ≤ limit.max_devices))

store_device-count :
    (lib : Libraries) (stamp : Stamp) (d : Device) (db db' : Database) {x : Device}
    → is_active d.status ≡ true
    → Unique (same_machine d.user_id d.fingerprint_hash) db.devices
    → store_device lib stamp d db ≡ ok (x, db')
    → count_active_devices_for_user d.user_id db'
        + (if already_active (find_device_by_fingerprint d.user_id d.fingerprint_hash db)
            then 1
            else 0)
      ≡ count_active_devices_for_user d.user_id db + 1
unfolding store_device count_active_devices_for_user
store_device-count lib stamp d db db' on unique h =
    let (y, db1, upserted, h1) = >>=-eq-ok (upsert_device d) _ db h in
    let (_, db2, audited, h2) = >>=-eq-ok (insert_audit _) _ db1 h1 in
    let same = insert_audit-eq-ok _ db1 db2 audited in
    ground (arith, upsert_device-count d db db1 on unique upserted)

-- If the bearer's machine is stored at most once, an activation that goes through chose an
-- entitlement of the bearer that is neither revoked nor expired, and either it leaves the number of
-- the bearer's active devices as it was, or it adds one and stays within the limit of the card key of
-- that entitlement.
pub activate_device-KeepsLimit :
    (lib : Libraries) (c : DeviceDraws) (claims : AuthClaims) (input : ActivateDeviceRequest)
    (db : Database) (device : Device) (db' : Database)
    → Unique (same_machine claims.sub (lib.sha256_hex input.fingerprint)) db.devices
    → activate_device lib c (ok claims) input db ≡ ok (device, db')
    → KeepsLimit lib c claims input db db'
unfolding activate_device find_active_entitlement lock_user_for_update
activate_device-KeepsLimit lib c claims input db device db' unique h =
    elim (Option-cases (best_from c.query_now claims.sub db.card_keys db.entitlements)) [
      | inl missing ↦ absurd (ground arith)
      | inr (limit, best) ↦
          let allowed : (already_active
                  (find_device_by_fingerprint claims.sub (lib.sha256_hex input.fingerprint) db)
                || device_limit_allows_new_activation (count_active_devices_for_user claims.sub db)
                    limit.max_devices)
              ≡ true =
            ground arith in
          let counts =
            store_device-count lib c.stamp
              (record {
                id = device_id_for lib claims.sub input.fingerprint;
                tenant_id = claims.tenant_id;
                user_id = claims.sub;
                name = input.name;
                fingerprint_hash = lib.sha256_hex input.fingerprint;
                status = active;
                activated_at = c.now;
                last_seen_at = some c.now;
              })
              db db' {x = device} refl unique (ground arith) in
          record {
            limit = limit;
            joined = best_from-IsJoined c.query_now claims.sub db.card_keys db.entitlements best;
            counted = ground (arith, counts, allowed);
          }
    ]
