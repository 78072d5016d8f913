-- ===== src/Cloud/Orders/Provision.antt =====
-- apps/cloud-api/src/main.rs: what the entitlement of a paid order does to the tables.
use ozon_rust_suite.Common.{
  ℕ, ◌+◌, ◌≡◌, refl, [], ◌∷◌, ◌++◌, none, some, Text, text_eq, text_eq_sound, ok, err, arith,
  Bool-cases, inl, inr,
}
use ozon_rust_suite.Domain.Account.{days, Entitlement, CardKey, Order, standard_30d}
use ozon_rust_suite.Cloud.Libraries.{Libraries}
use ozon_rust_suite.Cloud.Database.{Database}
use ozon_rust_suite.Cloud.Tx.{statement, insert_audit, >>=-eq-ok, statement-eq-ok}
use ozon_rust_suite.Cloud.Statements.{
  insert_card_key-eq-ok, insert_entitlement-eq-ok, mark_card_key_redeemed-eq-ok, insert_audit-eq-ok,
}
use ozon_rust_suite.Cloud.CardKeys.{mark_card_key_redeemed, generate_card_key}
use ozon_rust_suite.Cloud.Orders.{
  ProvisionDraws, store_provision, provision_paid_order_entitlement, fulfillment_terms_for_plan,
}

-- One entitlement is added, for the order's user and plan, for some days from the redemption, from a
-- key that is added and marked as redeemed; orders and payment events stay.
pub record Activates (c : ProvisionDraws) (order : Order) (duration_days : ℕ) (db : Database)
    (e : Entitlement) (db' : Database) : Type 0 where
  pub owner : e.user_id ≡ order.user_id
  pub tenant : e.tenant_id ≡ order.tenant_id
  pub plan : e.plan_code ≡ order.plan_code
  pub live : e.revoked_at ≡ none
  pub expiry : e.expires_at ≡ c.redeemed_at + days duration_days
  pub entitlements : db'.entitlements ≡ db.entitlements ++ e ∷ []
  pub orders : db'.orders ≡ db.orders
  pub payment_events : db'.payment_events ≡ db.payment_events

store_provision-Activates :
    (lib : Libraries) (c : ProvisionDraws) (order : Order) (actor summary : Text) (card : CardKey)
    (duration_days : ℕ) (db : Database) (e : Entitlement) (db' : Database)
    → store_provision lib c order actor summary card duration_days db ≡ ok (e, db')
    → Activates c order duration_days db e db'
unfolding store_provision
store_provision-Activates lib c order actor summary card duration_days db e db' h =
    let (_, db1, added, h1) = >>=-eq-ok (statement _ _) _ db h in
    let (_, db2, marked, h2) =
      >>=-eq-ok (mark_card_key_redeemed card.id order.user_id c.redeemed_at) _ db1 h1 in
    let (_, db3, inserted, h3) = >>=-eq-ok (statement _ _) _ db2 h2 in
    let (_, db4, audited, h4) = >>=-eq-ok (insert_audit _) _ db3 h3 in
    let k = insert_card_key-eq-ok card (some order.id) db db1 (statement-eq-ok _ _ db db1 added) in
    let m = mark_card_key_redeemed-eq-ok card.id order.user_id c.redeemed_at db1 db2 marked in
    let n = insert_entitlement-eq-ok _ db2 db3 (statement-eq-ok _ _ db2 db3 inserted) in
    let a = insert_audit-eq-ok _ db3 db4 audited in ground (arith, k.1, m, n.1, a)

pub provision-Activates :
    (lib : Libraries) (c : ProvisionDraws) (order : Order) (actor summary : Text) (db : Database)
    (e : Entitlement) (db' : Database)
    → provision_paid_order_entitlement lib c order actor summary db ≡ ok (e, db')
    → (order.plan_code ≡ standard_30d) × Activates c order 30 db e db'
unfolding provision_paid_order_entitlement fulfillment_terms_for_plan
provision-Activates lib c order actor summary db e db' h =
    elim (Bool-cases (text_eq order.plan_code standard_30d)) [
      | inl known ↦ (
        text_eq_sound _ _ known,
        elim (generate_card_key lib c.key order.plan_code order.tenant_id 30 1)
              as (λ g.
                generate_card_key lib c.key order.plan_code order.tenant_id 30 1 ≡ g
                → Activates c order 30 db e db') [
                  | ok generated ↦ λ made.
                      store_provision-Activates lib c order actor summary generated.card_key 30 db e
                        db' (ground arith)
                  | err _ ↦ λ failed. absurd (ground arith)
                ]
            refl,
      )
      | inr other ↦ absurd (ground arith)
    ]
