-- ===== src/Cloud/TestAccess/Grants.antt =====
-- apps/cloud-api/src/main.rs: what the grant of a test entitlement does.
use ozon_rust_suite.Common.{
  ℕ, ◌+◌, ◌≤◌, ◌≡◌, refl, ◌∙◌, ap, ◌⊎◌, inl, inr, Bool, true, false, ◌++◌, ◌∷◌, [], List, none,
  Text, text_eq, ok, arith, Bool-cases, any, all,
}
use ozon_rust_suite.Common.Rows.{update_where}
use ozon_rust_suite.Common.Rows.Laws.{any-append}
use ozon_rust_suite.Domain.Task.{Uuid}
use ozon_rust_suite.Domain.Account.{User, CardKey, Entitlement, days, standard_30d}
use ozon_rust_suite.Cloud.Columns.{feature_to_db}
use ozon_rust_suite.Cloud.Libraries.{Libraries}
use ozon_rust_suite.Cloud.Database.{Database}
use ozon_rust_suite.Cloud.Tx.{
  lift, statement, >>=-eq-ok, statement-eq-ok, lift-eq-ok, lift-eq-ok_result,
}
use ozon_rust_suite.Cloud.Statements.{
  insert_card_key-eq-ok, insert_entitlement-eq-ok, insert_audit-eq-ok, mark_card_key_redeemed-eq-ok,
}
use ozon_rust_suite.Cloud.CardKeys.{
  GeneratedCardKey, KeyDraws, default_features, generate_card_key, mark_card_key_redeemed,
  redeemable, redeem_row,
}
use ozon_rust_suite.Cloud.Devices.{lock_user_for_update}
use ozon_rust_suite.Cloud.TestAccess.{
  TestAccessConfig, GrantDraws, allows_devices, has_feature, is_full_access,
  has_active_full_access_entitlement, test_full_access_matches, store_grant,
  ensure_test_full_access_entitlement,
}

any-update_where {ℓ} :
    {A : Type ℓ} (p q : A → Bool) (f : A → A)
    → ((x : A) → p (f x) ≡ p x)
    → (xs : List A) → any p (update_where q f xs) ≡ any p xs
unfolding update_where
any-update_where p q f same [] = refl
any-update_where p q f same (x ∷ xs) = ground (arith, same x, any-update_where p q f same xs)

default_features_full : all (has_feature default_features) default_features ≡ true
unfolding feature_to_db text_eq
default_features_full = refl

-- The tables after the writes of a grant.
abbrev granted : TestAccessConfig → GrantDraws → User → CardKey → Entitlement
granted config c u card = record {
  id = c.entitlement_id;
  tenant_id = u.tenant_id;
  user_id = u.id;
  plan_code = standard_30d;
  source_card_key_id = card.id;
  features = default_features;
  expires_at = c.redeemed_at + days config.duration_days;
  revoked_at = none;
}

store_grant-eq-ok :
    (lib : Libraries) (config : TestAccessConfig) (c : GrantDraws) (u : User) (card : CardKey)
    (db db' : Database)
    → store_grant lib config c u card db ≡ ok (tt, db')
    → (db'.entitlements ≡ db.entitlements ++ granted config c u card ∷ [])
      × (db'.card_keys
          ≡ update_where
              (redeemable card.id)
              (redeem_row u.id c.redeemed_at)
              (db.card_keys ++ record { card = card; order_id = none } ∷ []))
unfolding store_grant
store_grant-eq-ok lib config c u card db db' h =
    let (_, db1, added, h1) = >>=-eq-ok (statement _ _) _ db h in
    let (_, db2, marked, h2) =
      >>=-eq-ok (mark_card_key_redeemed card.id u.id c.redeemed_at) _ db1 h1 in
    let (_, db3, inserted, h3) = >>=-eq-ok (statement _ _) _ db2 h2 in
    let k = insert_card_key-eq-ok card none db db1 (statement-eq-ok _ _ db db1 added) in
    let m = mark_card_key_redeemed-eq-ok card.id u.id c.redeemed_at db1 db2 marked in
    let n = insert_entitlement-eq-ok _ db2 db3 (statement-eq-ok _ _ db2 db3 inserted) in
    let a = insert_audit-eq-ok _ db3 db' h3 in ground (arith, k.1, m, n.1, a)

store_grant-full :
    (lib : Libraries) (config : TestAccessConfig) (c : GrantDraws) (u : User) (card : CardKey)
    (db db' : Database)
    → store_grant lib config c u card db ≡ ok (tt, db')
    → card.max_devices ≡ config.max_devices
    → c.query_now + 1 ≤ c.redeemed_at + days config.duration_days
    → has_active_full_access_entitlement c.query_now u.id config.max_devices db' ≡ true
unfolding has_active_full_access_entitlement is_full_access text_eq
store_grant-full lib config c u card db db' h devices later =
    let (entitlements, cards) = store_grant-eq-ok lib config c u card db db' h in
    let key : any (allows_devices config.max_devices card.id)
          (db.card_keys ++ record { card = card; order_id = none } ∷ [])
        ≡ true =
      any-append (allows_devices config.max_devices card.id) db.card_keys _ (ground arith) in
    let joined : any (allows_devices config.max_devices card.id) db'.card_keys ≡ true =
      ap (any (allows_devices config.max_devices card.id)) cards
      ∙ (any-update_where _ (redeemable card.id) _ (λ _. refl) _ ∙ key) in
    let full : is_full_access c.query_now u.id config.max_devices db'.card_keys
          (granted config c u card)
        ≡ true =
      ground (arith, joined, default_features_full) in
    ap (any (is_full_access c.query_now u.id config.max_devices db'.card_keys)) entitlements
    ∙ any-append _ db.entitlements _ full

generate_card_key-max_devices :
    (lib : Libraries) (c : KeyDraws) (plan_code : Text) (tenant_id : Uuid)
    (duration_days max_devices : ℕ) {generated : GeneratedCardKey}
    → generate_card_key lib c plan_code tenant_id duration_days max_devices ≡ ok generated
    → generated.card_key.max_devices ≡ max_devices
unfolding generate_card_key
generate_card_key-max_devices lib c plan_code tenant_id duration_days max_devices h = ground arith

-- Nothing is granted, or one entitlement is added.
abbrev pub GrantOutcome :
    Libraries → TestAccessConfig → GrantDraws → User → Database → Database → Type 0
GrantOutcome lib config c u db db' =
    ((test_full_access_matches lib config u ≡ false) × (db' ≡ db))
    ⊎ ((test_full_access_matches lib config u ≡ true)
        × (has_active_full_access_entitlement c.query_now u.id config.max_devices db' ≡ true)
        × ((db' ≡ db)
            ⊎ ((e : Entitlement) × (e.user_id ≡ u.id)
                × (has_active_full_access_entitlement c.query_now u.id config.max_devices db
                    ≡ false)
                × (db'.entitlements ≡ db.entitlements ++ e ∷ []))))

-- A grant whose days end after the time of its query, and that goes through, leaves the tables as
-- they were for a user who is not listed; a listed user has afterwards an active entitlement with
-- every default feature and the configured number of devices, and one entitlement has been added for
-- that user only if there was no such entitlement before.
pub ensure_test_full_access_outcome :
    (lib : Libraries) (config : TestAccessConfig) (c : GrantDraws) (u : User) (db db' : Database)
    → c.query_now + 1 ≤ c.redeemed_at + days config.duration_days
    → ensure_test_full_access_entitlement lib config c u db ≡ ok (tt, db')
    → GrantOutcome lib config c u db db'
unfolding ensure_test_full_access_entitlement lock_user_for_update
ensure_test_full_access_outcome lib config c u db db' later h =
    elim (Bool-cases (test_full_access_matches lib config u)) [
      | inr other ↦ inl (other, ground arith)
      | inl listed ↦
          elim (Bool-cases
            (has_active_full_access_entitlement c.query_now u.id config.max_devices db)) [
              | inl has ↦ let same : db' ≡ db = ground arith in inr (listed, rw same has, inl same)
              | inr lacks ↦
                  let (_, db1, locked, h1) =
                    >>=-eq-ok (lock_user_for_update u.id) _ db (rw listed at h) in
                  let unlocked : db1 ≡ db = ground arith in
                  let (generated, db2, made, stored) =
                    >>=-eq-ok
                      (lift (
                        generate_card_key lib c.key standard_30d u.tenant_id config.duration_days
                          config.max_devices))
                      _ db (rw (unlocked, lacks) at h1) in
                  let same : db2 ≡ db = lift-eq-ok _ db db2 made in
                  let devices =
                    generate_card_key-max_devices lib c.key standard_30d u.tenant_id
                      config.duration_days config.max_devices {generated = generated}
                      (lift-eq-ok_result _ db db2 made) in
                  let writes : store_grant lib config c u generated.card_key db ≡ ok (tt, db') =
                    rw same at stored in
                  inr (
                    listed,
                    store_grant-full lib config c u generated.card_key db db' writes devices later,
                    inr (
                      granted config c u generated.card_key,
                      refl,
                      lacks,
                      (store_grant-eq-ok lib config c u generated.card_key db db' writes).0,
                    ),
                  )
            ]
    ]
