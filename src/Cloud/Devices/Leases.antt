-- ===== src/Cloud/Devices/Leases.antt =====
-- apps/cloud-api/src/main.rs: who is given a lease, and for how long.
use mathlib.Core.List.{Memᴰ}
use mathlib.Core.Path.{subst}
use ozon_rust_suite.Common.{
  ◌+◌, ◌≤◌, ◌≡◌, refl, sym, ◌⊎◌, inl, inr, true, ◌&&◌, ◌∷◌, [], List, Option, none, some, ok, arith,
  Bool-cases, Option-cases, ◌==◌,
}
use ozon_rust_suite.Common.Rows.{find}
use ozon_rust_suite.Common.Rows.Laws.{find_sound, find-Memᴰ}
use ozon_rust_suite.Domain.Task.{Uuid, Instant}
use ozon_rust_suite.Domain.Account.{Device, Entitlement, EntitlementLease, hours, new_lease}
use ozon_rust_suite.Cloud.Database.{Database, CardRow}
use ozon_rust_suite.Cloud.Tx.{>>=-eq-ok}
use ozon_rust_suite.Cloud.CardKeys.{AuthClaims}
use ozon_rust_suite.Cloud.Devices.{
  DeviceDraws, Joined, first_of, comes_before, best_from, find_active_entitlement, is_live_for,
  of_user, find_active_device, count_active_devices_for_user, enforce_device_limit_for_lease,
  touch_device_last_seen, issue_lease,
}

-- An entitlement of the user that is neither revoked nor expired, with the limit of its card key.
pub record IsJoined (now : Instant) (user_id : Uuid) (cards : List CardRow) (es : List Entitlement)
    (j : Joined) : Type 0 where
  pub stored : Memᴰ j.entitlement es
  pub owner : j.entitlement.user_id ≡ user_id
  pub unrevoked : j.entitlement.revoked_at ≡ none
  pub unexpired : now + 1 ≤ j.entitlement.expires_at
  pub row : CardRow
  pub key : find (λ (r : CardRow). r.card.id == j.entitlement.source_card_key_id) cards ≡ some row
  pub limit : j.max_devices ≡ row.card.max_devices

IsJoined-cons :
    {now : Instant} {user_id : Uuid} {cards : List CardRow} {es : List Entitlement} {j : Joined}
    (e : Entitlement)
    → IsJoined now user_id cards es j
    → IsJoined now user_id cards (e ∷ es) j
IsJoined-cons e k = record {
  stored = Memᴰ.tail k.stored;
  owner = k.owner;
  unrevoked = k.unrevoked;
  unexpired = k.unexpired;
  row = k.row;
  key = k.key;
  limit = k.limit;
}

is_live_for-eq-true :
    (now : Instant) (user_id : Uuid) (e : Entitlement)
    → is_live_for now user_id e ≡ true
    → (e.user_id ≡ user_id) × (e.revoked_at ≡ none) × (now + 1 ≤ e.expires_at)
is_live_for-eq-true now user_id e h = elim (Option-cases e.revoked_at) [
  | inl never ↦ ground arith
  | inr (at, gone) ↦ absurd (ground arith)
]

first_of-cases :
    (a : Joined) (o : Option Joined) {j : Joined} → first_of a o ≡ some j → (j ≡ a) ⊎ (o ≡ some j)
unfolding first_of
first_of-cases a none h = inl (ground arith)
first_of-cases a (some b) h = elim (Bool-cases (comes_before b a)) [
  | inl e ↦ inr (ground arith)
  | inr e ↦ inl (ground arith)
]

pub best_from-IsJoined :
    (now : Instant) (user_id : Uuid) (cards : List CardRow) (es : List Entitlement) {j : Joined}
    → best_from now user_id cards es ≡ some j
    → IsJoined now user_id cards es j
unfolding best_from
best_from-IsJoined now user_id cards [] h = absurd (ground arith)
best_from-IsJoined now user_id cards (e ∷ es) {j} h =
    elim (Bool-cases (is_live_for now user_id e)) [
      | inr dead ↦ IsJoined-cons e (best_from-IsJoined now user_id cards es (ground arith))
      | inl live ↦
          elim (Option-cases (find (λ (r : CardRow). r.card.id == e.source_card_key_id) cards)) [
            | inl missing ↦ IsJoined-cons e (best_from-IsJoined now user_id cards es (ground arith))
            | inr (r, found) ↦
                elim (first_of-cases (record { entitlement = e; max_devices = r.card.max_devices })
                  (best_from now user_id cards es) {j = j} (ground arith)) [
                    | inr later ↦ IsJoined-cons e (best_from-IsJoined now user_id cards es later)
                    | inl here ↦ subst (IsJoined now user_id cards (e ∷ es)) (sym here) (record {
                      stored = Memᴰ.head refl;
                      owner = (is_live_for-eq-true now user_id e live).0;
                      unrevoked = (is_live_for-eq-true now user_id e live).1;
                      unexpired = (is_live_for-eq-true now user_id e live).2;
                      row = r;
                      key = found;
                      limit = refl;
                    })
                  ]
          ]
    ]

-- The facts of a lease that is issued.
pub record Leases (c : DeviceDraws) (claims : AuthClaims) (device_id : Uuid) (db : Database)
    (lease : EntitlementLease) (db' : Database) : Type 0 where
  pub device : Device
  pub device_stored : Memᴰ device db.devices
  pub device_active : of_user claims.sub device ≡ true
  pub device_named : (device.id ≡ device_id) × (lease.device_id ≡ device_id)
  pub chosen : Joined
  pub joined : IsJoined c.query_now claims.sub db.card_keys db.entitlements chosen
  pub owner : (lease.user_id ≡ claims.sub) × (lease.entitlement_id ≡ chosen.entitlement.id)
  pub features : lease.features ≡ chosen.entitlement.features
  pub within_entitlement : lease.expires_at ≤ chosen.entitlement.expires_at
  pub within_day : lease.expires_at ≤ c.issued_at + hours 24
  pub limit : Joined
  pub limit_joined : IsJoined c.limit_now claims.sub db.card_keys db.entitlements limit
  pub fleet : count_active_devices_for_user claims.sub db ≤ limit.max_devices

enforce-eq-ok :
    (now : Instant) (user_id : Uuid) (db db' : Database)
    → enforce_device_limit_for_lease now user_id db ≡ ok (tt, db')
    → (db' ≡ db)
      × ((limit : Joined) × IsJoined now user_id db.card_keys db.entitlements limit
          × (count_active_devices_for_user user_id db ≤ limit.max_devices))
unfolding enforce_device_limit_for_lease find_active_entitlement
enforce-eq-ok now user_id db db' h =
    elim (Option-cases (best_from now user_id db.card_keys db.entitlements)) [
      | inl missing ↦ absurd (ground arith)
      | inr (limit, found) ↦ (
        ground arith,
        (limit, best_from-IsJoined now user_id db.card_keys db.entitlements found, ground arith),
      )
    ]

-- A lease is issued only for a stored, active device of the bearer, named by the request, and from a
-- stored entitlement of the bearer that is neither revoked nor expired, whose features it carries;
-- it ends no later than the entitlement and no later than a day after its issue; and the bearer has
-- no more active devices than the card key of such an entitlement allows.
pub issue_lease-Leases :
    (c : DeviceDraws) (claims : AuthClaims) (device_id : Uuid) (db : Database)
    (lease : EntitlementLease) (db' : Database)
    → issue_lease c (ok claims) device_id db ≡ ok (lease, db')
    → Leases c claims device_id db lease db'
unfolding issue_lease find_active_device find_active_entitlement new_lease touch_device_last_seen
issue_lease-Leases c claims device_id db lease db' h =
    elim (Option-cases
      (find (λ (d : Device). (d.id == device_id) && of_user claims.sub d) db.devices)) [
        | inl missing ↦ absurd (ground arith)
        | inr (device, found) ↦
            elim (Option-cases (best_from c.query_now claims.sub db.card_keys db.entitlements)) [
              | inl missing ↦ absurd (ground arith)
              | inr (chosen, best) ↦
                  let (_, db1, within, h1) =
                    >>=-eq-ok (enforce_device_limit_for_lease c.limit_now claims.sub) _ db
                      (rw (found, best) at h) in
                  let (same, (limit, limit_joined, fleet)) =
                    enforce-eq-ok c.limit_now claims.sub db db1 within in
                  let named =
                    find_sound (λ (d : Device). (d.id == device_id) && of_user claims.sub d)
                      db.devices found in
                  record {
                    device = device;
                    device_stored = find-Memᴰ _ db.devices found;
                    device_active = ground (arith, named);
                    device_named = ground (arith, named, h1);
                    chosen = chosen;
                    joined =
                        best_from-IsJoined c.query_now claims.sub db.card_keys db.entitlements best;
                    owner = ground (arith, h1);
                    features = ground (arith, h1);
                    within_entitlement = ground (arith, h1);
                    within_day = ground (arith, h1);
                    limit = limit;
                    limit_joined = limit_joined;
                    fleet = fleet;
                  }
            ]
      ]
