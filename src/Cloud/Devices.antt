-- ===== src/Cloud/Devices.antt =====
-- apps/cloud-api/src/main.rs: devices, their limit, and entitlement leases.
pub mod Leases
pub mod Limits
use ozon_rust_suite.Common.{
  ℕ, ◌+◌, ◌≤◌, Bool, true, false, not, ◌&&◌, ◌||◌, List, [], ◌∷◌, ◌++◌, Option, none, some, Text,
  text, text_eq, Result, ok, err, ltb, leb, ◌==◌, if◌then◌else◌, require, ok_or, length, any,
}
use ozon_rust_suite.Common.Rows.{find, update_where, count_where}
use ozon_rust_suite.Common.Unicode.{trim, is_empty, decimal}
use ozon_rust_suite.Domain.Task.{Uuid, Instant}
use ozon_rust_suite.Domain.Account.{
  Device, DeviceStatus, active, revoked, Entitlement, CardKey, EntitlementLease, new_lease,
}
use ozon_rust_suite.Cloud.Errors.{
  ApiError, bad_request, not_found, forbidden, internal, unauthorized,
}
use ozon_rust_suite.Cloud.Libraries.{Libraries}
use ozon_rust_suite.Cloud.Database.{Database, CardRow, has_user, has_tenant}
use ozon_rust_suite.Cloud.Tx.{Tx, ◌>>=◌, ◌>>◌, pure, fail, lift, read, Stamp, audit, insert_audit}
use ozon_rust_suite.Cloud.CardKeys.{AuthClaims}

abbrev pub is_active : DeviceStatus → Bool
is_active active = true
is_active revoked = false

abbrev pub device_limit_allows_new_activation : ℕ → ℕ → Bool
device_limit_allows_new_activation active_count max_devices = ltb active_count max_devices

abbrev pub device_limit_allows_active_fleet : ℕ → ℕ → Bool
device_limit_allows_active_fleet active_count max_devices = leb active_count max_devices

-- `e.revoked_at IS NULL AND e.expires_at > $2`
abbrev pub is_live : Instant → Entitlement → Bool
is_live now e = elim e.revoked_at [ none ↦ ltb now e.expires_at | some _ ↦ false ]

abbrev pub is_live_for : Instant → Uuid → Entitlement → Bool
is_live_for now user_id e = (e.user_id == user_id) && is_live now e

-- An entitlement joined with the limit of the card key that it came from.
pub record Joined : Type 0 where
  pub entitlement : Entitlement
  pub max_devices : ℕ

-- `ORDER BY cardinality(e.features) DESC, c.max_devices DESC, e.expires_at DESC`: `a` before `b`.
unfoldable pub comes_before : Joined → Joined → Bool
comes_before a b =
    ltb (length b.entitlement.features) (length a.entitlement.features)
    || ((length a.entitlement.features == length b.entitlement.features)
        && (ltb b.max_devices a.max_devices
            || ((a.max_devices == b.max_devices)
                && ltb b.entitlement.expires_at a.entitlement.expires_at)))

-- `LIMIT 1`: of rows that tie, the first.
unfoldable pub first_of : Joined → Option Joined → Option Joined
first_of a none = some a
first_of a (some b) = if comes_before b a then some b else some a

-- The join of the live entitlements of a user with their card keys, and its first row.
unfoldable pub best_from : Instant → Uuid → List CardRow → List Entitlement → Option Joined
best_from now user_id cards [] = none
best_from now user_id cards (e ∷ es) =
    let rest = best_from now user_id cards es in
    if is_live_for now user_id e
    then elim (find (λ (r : CardRow). r.card.id == e.source_card_key_id) cards) [
      | none ↦ rest
      | some r ↦ first_of (record { entitlement = e; max_devices = r.card.max_devices }) rest
    ]
    else rest

-- Both `find_active_entitlement_for_user` and `find_active_entitlement_with_card_limit_for_user`:
-- the two queries differ in the columns that they return.
unfoldable pub find_active_entitlement : Instant → Uuid → Database → Option Joined
find_active_entitlement now user_id db = best_from now user_id db.card_keys db.entitlements

abbrev pub of_user : Uuid → Device → Bool
of_user user_id d = (d.user_id == user_id) && is_active d.status

unfoldable pub count_active_devices_for_user : Uuid → Database → ℕ
count_active_devices_for_user user_id db = count_where (of_user user_id) db.devices

abbrev pub same_machine : Uuid → Text → Device → Bool
same_machine user_id fingerprint_hash d =
    (d.user_id == user_id) && text_eq d.fingerprint_hash fingerprint_hash

unfoldable pub find_device_by_fingerprint : Uuid → Text → Database → Option Device
find_device_by_fingerprint user_id fingerprint_hash db =
    find (same_machine user_id fingerprint_hash) db.devices

unfoldable pub find_active_device : Uuid → Uuid → Database → Option Device
find_active_device device_id user_id db =
    find (λ d. (d.id == device_id) && of_user user_id d) db.devices

unfoldable pub lock_user_for_update : Uuid → Tx (Unit {0})
lock_user_for_update user_id db =
    if has_user db user_id then ok (tt, db) else err (unauthorized (text "user not found"))

abbrev pub refresh : Device → Device → Device
refresh new old = record old { name = new.name; status = active; last_seen_at = new.last_seen_at }

-- `INSERT … ON CONFLICT ON CONSTRAINT uq_devices_user_fingerprint DO UPDATE …`. Another constraint
-- that the row breaks refuses the statement.
unfoldable pub upsert_device : Device → Tx Device
upsert_device device db =
    elim (find (same_machine device.user_id device.fingerprint_hash) db.devices) [
      | some old ↦ ok (
        refresh device old,
        record db {
          devices =
              update_where (same_machine device.user_id device.fingerprint_hash) (refresh device)
                db.devices;
        },
      )
      | none ↦
          if not (any (λ (d : Device). d.id == device.id) db.devices)
            && (has_tenant db device.tenant_id && has_user db device.user_id)
          then ok (device, record db { devices = db.devices ++ device ∷ [] })
          else err (internal (text "database operation failed"))
    ]

pub record ActivateDeviceRequest : Type 0 where
  pub name : Text
  pub fingerprint : Text

-- What an activation and a lease draw: the clock of the handler, that of the queries, a stamp, and
-- for a lease its issue time and identifier.
pub record DeviceDraws : Type 0 where
  pub now : Instant
  pub query_now : Instant
  pub stamp : Stamp
  pub seen_at : Instant
  pub limit_now : Instant
  pub issued_at : Instant
  pub lease_id : Uuid

-- `existing.as_ref().is_some_and(|device| device.status == DeviceStatus::Active)`
abbrev pub already_active : Option Device → Bool
already_active none = false
already_active (some d) = is_active d.status

abbrev pub over_limit : Text → ℕ → ℕ → ApiError
over_limit message n limit =
    forbidden (message ++ (text " (" ++ (decimal n ++ (text "/" ++ (decimal limit ++ text ")")))))

unfoldable pub enforce_device_limit_for_lease : Instant → Uuid → Tx (Unit {0})
enforce_device_limit_for_lease now user_id = do
  found ← read (find_active_entitlement now user_id)
  limit ← lift (ok_or found (forbidden (text "no active entitlement")))
  n ← read (count_active_devices_for_user user_id)
  lift (
      require (device_limit_allows_active_fleet n limit.max_devices)
        (over_limit (text "device limit exceeded for this entitlement") n limit.max_devices))

unfoldable pub touch_device_last_seen : Uuid → Instant → Tx (Unit {0})
touch_device_last_seen device_id at db = ok (
  tt,
  record db {
    devices =
        update_where (λ (d : Device). d.id == device_id) (λ d. record d { last_seen_at = some at })
          db.devices;
  },
)

-- The transaction of `issue_lease`, and the lease that it makes before the signature.
unfoldable pub issue_lease : DeviceDraws → Result ApiError AuthClaims → Uuid → Tx EntitlementLease
issue_lease c auth device_id = do
  claims ← lift auth
  found ← read (find_active_device device_id claims.sub)
  device ← lift (ok_or found (not_found (text "active device not found")))
  best ← read (find_active_entitlement c.query_now claims.sub)
  chosen ← lift (ok_or best (forbidden (text "no active entitlement")))
  enforce_device_limit_for_lease c.limit_now claims.sub
  touch_device_last_seen device.id c.seen_at
  pure (new_lease c.issued_at c.lease_id claims.tenant_id claims.sub device.id chosen.entitlement)

-- `revoke_entitlement`.
unfoldable pub revoke_entitlement :
    Instant → Stamp → (Uuid → Text) → Result ApiError (Unit {0}) → Uuid → Tx Entitlement
revoke_entitlement at stamp uuid_debug admin id = do
  lift admin
  found ← read (λ db. find (λ (e : Entitlement). e.id == id) db.entitlements)
  old ← lift (ok_or found (not_found (text "entitlement not found")))
  (λ db. ok (
    tt,
    record db {
      entitlements =
          update_where (λ (e : Entitlement). e.id == id) (λ e. record e { revoked_at = some at })
            db.entitlements;
    },
  ))
  insert_audit (
      audit stamp (some old.tenant_id) (text "admin") (text "entitlement.revoked")
        (text "EntitlementId(" ++ (uuid_debug old.id ++ text ")")) (text "entitlement revoked"))
  pure (record old { revoked_at = some at })

-- The upsert of an activated device, and its audit event.
unfoldable pub store_device : Libraries → Stamp → Device → Tx Device
store_device lib stamp row = do
  device ← upsert_device row
  insert_audit (
      audit stamp (some device.tenant_id)
        (text "UserId(" ++ (lib.uuid_debug device.user_id ++ text ")")) (text "device.activated")
        (text "DeviceId(" ++ (lib.uuid_debug device.id ++ text ")")) (text "device activated"))
  pure device

-- The fixed namespace of device identifiers.
abbrev pub device_namespace : Uuid
device_namespace = 0x6f7a6f6e36365f6465766963655f6964

module _ (lib : Libraries) where
  open lib use {sha256_hex, uuid_debug, new_v5}

  -- `device_id_for`. A UUID is printed with its hyphens, as its `Debug` form is.
  unfoldable pub device_id_for : Uuid → Text → Uuid
  device_id_for user_id fingerprint =
      new_v5 device_namespace (uuid_debug user_id ++ (text ":" ++ fingerprint))

  -- The transaction of `activate_device`, with the guards before it.
  unfoldable pub activate_device :
      DeviceDraws → Result ApiError AuthClaims → ActivateDeviceRequest → Tx Device
  activate_device c auth input = do
    claims ← lift auth
    lift (require (not (is_empty (trim input.name))) (bad_request (text "device name is required")))
    lift (
        require (not (is_empty (trim input.fingerprint)))
          (bad_request (text "device fingerprint is required")))
    lock_user_for_update claims.sub
    best ← read (find_active_entitlement c.query_now claims.sub)
    limit ← lift (ok_or best (forbidden (text "no active entitlement")))
    existing ← read (find_device_by_fingerprint claims.sub (sha256_hex input.fingerprint))
    n ← read (count_active_devices_for_user claims.sub)
    lift (
        require (already_active existing || device_limit_allows_new_activation n limit.max_devices)
          (over_limit (text "device limit reached for this entitlement") n limit.max_devices))
    store_device lib c.stamp (record {
      id = device_id_for claims.sub input.fingerprint;
      tenant_id = claims.tenant_id;
      user_id = claims.sub;
      name = input.name;
      fingerprint_hash = sha256_hex input.fingerprint;
      status = active;
      activated_at = c.now;
      last_seen_at = some c.now;
    })
