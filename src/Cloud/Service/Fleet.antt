-- ===== src/Cloud/Service/Fleet.antt =====
-- apps/cloud-api/src/main.rs: devices, grants and SkyBridge accounts keep what statements keep.
use ozon_rust_suite.Common.{
  ◌≡◌, inl, inr, false, any, some, Text, Result, ok, err, arith, ◌==◌, Option-cases, Result-cases,
}
use ozon_rust_suite.Common.Rows.{find, update_where}
use ozon_rust_suite.Common.Rows.Laws.{find_sound}
use ozon_rust_suite.Domain.Task.{Uuid, Instant}
use ozon_rust_suite.Domain.Account.{User, CardKey, Device, Entitlement}
use ozon_rust_suite.Cloud.Errors.{ApiError}
use ozon_rust_suite.Cloud.Libraries.{Libraries}
use ozon_rust_suite.Cloud.Database.{Database}
use ozon_rust_suite.Cloud.Tx.{Tx, Stamp, commit}
use ozon_rust_suite.Cloud.CardKeys.{AuthClaims}
use ozon_rust_suite.Cloud.Devices.{
  DeviceDraws, ActivateDeviceRequest, lock_user_for_update, upsert_device, touch_device_last_seen,
  enforce_device_limit_for_lease, issue_lease, revoke_entitlement, store_device, activate_device,
}
use ozon_rust_suite.Cloud.TestAccess.{
  TestAccessConfig, GrantDraws, store_grant, ensure_test_full_access_entitlement,
  ensure_test_full_access_for_user_id, with_test_access,
}
use ozon_rust_suite.Cloud.Skybridge.{
  LinkDraws, SkybridgeProfile, update_profile, clashes, update_skybridge_user, insert_linked_user,
  find_user_by_skybridge_user_id, linked_user, upsert_skybridge_user, synced, auth_skybridge,
}
use ozon_rust_suite.Cloud.Service.Safe.{
  IsStable, Safe, stopped, went, Keeps, bind-Keeps, then-Keeps, read-Keeps, pure-Keeps, lift-Keeps,
  if_Keeps, commit_keeps, tenant-Keeps, user-Keeps, key-Keeps, entitlement-Keeps, redeemed-Keeps,
  audit-Keeps,
}

module _ {P : Database → Type 0} (st : IsStable P) where
  -- A transaction that changes the devices alone.
  devices_keep :
      {A : Type 0} (m : Tx A)
      → ((db : Database) (a : A) (db' : Database)
          → m db ≡ ok (a, db')
          → db' ≡ record db { devices = db'.devices })
      → Keeps P m
  devices_keep m only = record {
    from = λ db p. elim (Result-cases (m db)) [
      | inl ((a, db'), h) ↦ rw h (went (rw (only db a db' h) (st.device db db'.devices p)))
      | inr (x, h) ↦ rw h stopped
    ];
  }

  lock-Keeps : (id : Uuid) → Keeps P (lock_user_for_update id)
  unfolding lock_user_for_update
  lock-Keeps id = devices_keep (lock_user_for_update id) λ db a db' h. ground arith

  upsert_device-Keeps : (d : Device) → Keeps P (upsert_device d)
  unfolding upsert_device
  upsert_device-Keeps d = devices_keep (upsert_device d) λ db a db' h. ground arith

  touch-Keeps : (id : Uuid) (at : Instant) → Keeps P (touch_device_last_seen id at)
  unfolding touch_device_last_seen
  touch-Keeps id at = devices_keep (touch_device_last_seen id at) λ db a db' h. ground arith

  revoke_row-Keeps :
      (id : Uuid) (at : Instant)
      → Keeps P {A = Unit {0}} (λ db. ok (
        tt,
        record db {
          entitlements =
              update_where
                (λ (e : Entitlement). e.id == id)
                (λ e. record e { revoked_at = some at })
                db.entitlements;
        },
      ))
  revoke_row-Keeps id at = record { from = λ db p. went (st.entitlement db _ p) }

  pub revoke_entitlement-Keeps :
      (at : Instant) (stamp : Stamp) (uuid_debug : Uuid → Text) (admin : Result ApiError (Unit {0}))
      (id : Uuid)
      → Keeps P (revoke_entitlement at stamp uuid_debug admin id)
  unfolding revoke_entitlement
  revoke_entitlement-Keeps at stamp uuid_debug admin id =
      search (bind-Keeps, then-Keeps, lift-Keeps, read-Keeps, revoke_row-Keeps, audit-Keeps st)
        depth 14

  enforce-Keeps : (now : Instant) (id : Uuid) → Keeps P (enforce_device_limit_for_lease now id)
  unfolding enforce_device_limit_for_lease
  enforce-Keeps now id = search (bind-Keeps, read-Keeps, lift-Keeps) depth 14

  pub issue_lease-Keeps :
      (c : DeviceDraws) (auth : Result ApiError AuthClaims) (id : Uuid)
      → Keeps P (issue_lease c auth id)
  unfolding issue_lease
  issue_lease-Keeps c auth id =
      search
        (bind-Keeps, then-Keeps, lift-Keeps, read-Keeps, pure-Keeps, enforce-Keeps, touch-Keeps)
        depth 14

  update_skybridge_user-Safe :
      (at : Instant) (linked : User) (profile : SkybridgeProfile) (db : Database)
      → find_user_by_skybridge_user_id profile.user_id db ≡ some linked
      → P db
      → Safe P (update_skybridge_user at linked.id profile db)
  unfolding update_skybridge_user
  update_skybridge_user-Safe at linked profile db named p =
      elim (Result-cases (update_skybridge_user at linked.id profile db)) [
        | inr (x, h) ↦ rw h stopped
        | inl ((u, db'), h) ↦
            elim (Option-cases (find (λ (x : User). x.id == linked.id) db.users)) [
              | inl missing ↦ absurd (ground arith)
              | inr (old, found) ↦
                  let alone : any (clashes (update_profile at profile old)) db.users ≡ false =
                    ground arith in
                  let same : db' ≡ record db {
                    users =
                        update_where (λ (x : User). x.id == linked.id) (update_profile at profile)
                          db.users;
                  } =
                    ground arith in
                  rw h (
                    went (
                      rw same (
                        st.profile db linked old at profile named (find_sound _ db.users found)
                          alone p)))
            ]
      ]

  insert_linked_user-Keeps : (u : User) → Keeps P (insert_linked_user u)
  unfolding insert_linked_user
  insert_linked_user-Keeps u =
      search (then-Keeps, pure-Keeps, tenant-Keeps st, user-Keeps st) depth 14

  upsert_skybridge_user-Keeps :
      (c : LinkDraws) (profile : SkybridgeProfile) → Keeps P (upsert_skybridge_user c profile)
  unfolding upsert_skybridge_user
  upsert_skybridge_user-Keeps c profile = record {
    from = λ db p. elim (Option-cases (find_user_by_skybridge_user_id profile.user_id db)) [
      | inl fresh ↦
          rw (upsert_skybridge_user, fresh)
            ((insert_linked_user-Keeps (linked_user c profile)).from db p)
      | inr (old, found) ↦
          rw (upsert_skybridge_user, found)
            (update_skybridge_user-Safe c.verified_at old profile db found p)
    ];
  }

  pub auth_skybridge_keeps :
      (c : LinkDraws) (stamp : Stamp) (profile : SkybridgeProfile) (db : Database)
      → P db
      → P (auth_skybridge c stamp profile db).0
  unfolding auth_skybridge
  auth_skybridge_keeps c stamp profile db p =
      go (upsert_skybridge_user c profile db) ((upsert_skybridge_user-Keeps c profile).from db p)
    where
      go :
          (r : Result ApiError (User × Database))
          → Safe P r
          → P
              (elim r as (λ x. Database × Result ApiError User) [
                | err e ↦ (db, err e)
                | ok (u, db') ↦ (commit (synced stamp u) db')
              ]).0
      go _ stopped = p
      go _ (went {a = u} {db = db'} q) =
          commit_keeps (synced stamp u) db' q (then-Keeps _ _ (audit-Keeps st _) (pure-Keeps u))

  module _ (lib : Libraries) where
    store_device-Keeps : (stamp : Stamp) (d : Device) → Keeps P (store_device lib stamp d)
    unfolding store_device
    store_device-Keeps stamp d =
        search (bind-Keeps, then-Keeps, pure-Keeps, upsert_device-Keeps, audit-Keeps st) depth 14

    pub activate_device-Keeps :
        (c : DeviceDraws) (auth : Result ApiError AuthClaims) (input : ActivateDeviceRequest)
        → Keeps P (activate_device lib c auth input)
    unfolding activate_device
    activate_device-Keeps c auth input =
        search (bind-Keeps, then-Keeps, lift-Keeps, read-Keeps, lock-Keeps, store_device-Keeps)
          depth 16

    store_grant-Keeps :
        (config : TestAccessConfig) (c : GrantDraws) (u : User) (card : CardKey)
        → Keeps P (store_grant lib config c u card)
    unfolding store_grant
    store_grant-Keeps config c u card =
        search (then-Keeps, key-Keeps st, redeemed-Keeps st, entitlement-Keeps st, audit-Keeps st)
          depth 14

    ensure_entitlement-Keeps :
        (config : TestAccessConfig) (c : GrantDraws) (u : User)
        → Keeps P (ensure_test_full_access_entitlement lib config c u)
    unfolding ensure_test_full_access_entitlement
    ensure_entitlement-Keeps config c u =
        search
          (
            bind-Keeps, then-Keeps, if_Keeps, read-Keeps, lift-Keeps, pure-Keeps, lock-Keeps,
            store_grant-Keeps,
          )
          depth 14

    ensure_user-Keeps :
        (config : TestAccessConfig) (c : GrantDraws) (id : Uuid)
        → Keeps P (ensure_test_full_access_for_user_id lib config c id)
    unfolding ensure_test_full_access_for_user_id
    ensure_user-Keeps config c id =
        search (bind-Keeps, if_Keeps, read-Keeps, lift-Keeps, pure-Keeps, ensure_entitlement-Keeps)
          depth 14

    pub with_test_access_keeps :
        {A : Type 0} (config : TestAccessConfig) (c : GrantDraws)
        (auth : Result ApiError AuthClaims) (run : Tx A) (db : Database)
        → Keeps P run
        → P db
        → P (with_test_access lib config c auth run db).0
    unfolding with_test_access
    with_test_access_keeps config c (err e) run db k p = p
    with_test_access_keeps {A} config c (ok claims) run db k p =
        go (ensure_test_full_access_for_user_id lib config c claims.sub db)
          ((ensure_user-Keeps config c claims.sub).from db p)
      where
        go :
            (r : Result ApiError (Unit {0} × Database))
            → Safe P r
            → P
                (elim r as (λ x. Database × Result ApiError A) [
                  | err e ↦ (db, err e)
                  | ok (_, db1) ↦ commit run db1
                ]).0
        go _ stopped = p
        go _ (went {db = db1} q) = commit_keeps run db1 q k
