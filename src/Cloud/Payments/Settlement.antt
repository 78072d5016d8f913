-- ===== src/Cloud/Payments/Settlement.antt =====
-- apps/cloud-api/src/main.rs: what a payment webhook does to an order.
use ozon_rust_suite.Common.{
  ◌≡◌, ◌⊎◌, inl, inr, Bool, true, false, ◌++◌, ◌∷◌, [], Option, none, some, Text, ok, arith,
  Bool-cases, Option-cases,
}
use ozon_rust_suite.Common.Rows.{find, update_where}
use ozon_rust_suite.Domain.Task.{Uuid, Instant}
use ozon_rust_suite.Domain.Account.{Order, Entitlement, standard_30d}
use ozon_rust_suite.Cloud.Libraries.{Libraries}
use ozon_rust_suite.Cloud.Database.{Database}
use ozon_rust_suite.Cloud.Tx.{>>=-eq-ok}
use ozon_rust_suite.Cloud.Orders.{
  awaits, pay, is_pending_provider, update_order, confirm_provider_order,
  provision_paid_order_entitlement,
}
use ozon_rust_suite.Cloud.Orders.Provision.{provision-Activates}
use ozon_rust_suite.Cloud.Payments.{WebhookDraws, is_confirmed, settle_order}

confirm_provider_order-eq-ok :
    (id : Uuid) (intent : Option Text) (at : Instant) (db : Database) (paid : Order)
    (db' : Database)
    → confirm_provider_order id intent at db ≡ ok (paid, db')
    → (o : Order) × (find (awaits id) db.orders ≡ some o)
      × (paid ≡ pay intent at o)
      × (db' ≡ record db { orders = update_where (awaits id) (pay intent at) db.orders })
unfolding confirm_provider_order update_order
confirm_provider_order-eq-ok id intent at db paid db' h =
    elim (Option-cases (find (awaits id) db.orders)) [
      | inl missing ↦ absurd (ground arith)
      | inr (o, found) ↦ (o, found, ground arith, ground arith)
    ]

-- The order that `id` names awaited the payment and is now confirmed; one entitlement is added, for
-- its user, and the plan is the standard one.
pub record Settles (c : WebhookDraws) (id : Uuid) (intent : Option Text) (at : Instant)
    (db db' : Database) : Type 0 where
  pub order : Order
  pub awaited : find (awaits id) db.orders ≡ some order
  pub confirms : db'.orders ≡ update_where (awaits id) (pay intent at) db.orders
  pub plan : order.plan_code ≡ standard_30d
  pub entitlement : Entitlement
  pub owner : entitlement.user_id ≡ order.user_id
  pub live : entitlement.revoked_at ≡ none
  pub entitlements : db'.entitlements ≡ db.entitlements ++ entitlement ∷ []
  pub payment_events : db'.payment_events ≡ db.payment_events

pub settle_order-eq-ok :
    (lib : Libraries) (c : WebhookDraws) (order : Order) (intent : Option Text) (at : Instant)
    (actor summary : Text) (db : Database) (b : Bool) (db' : Database)
    → settle_order lib c order intent at actor summary db ≡ ok (b, db')
    → ((b ≡ false) × (db' ≡ db)) ⊎ ((b ≡ true) × Settles c order.id intent at db db')
unfolding settle_order
settle_order-eq-ok lib c order intent at actor summary db b db' h =
    elim (Bool-cases (is_confirmed order.status)) [
      | inl already ↦ inl (ground arith)
      | inr open_ ↦ elim (Bool-cases (is_pending_provider order.status)) [
        | inr other ↦ absurd (ground arith)
        | inl pending ↦
            let (paid, db1, done, h1) =
              >>=-eq-ok (confirm_provider_order order.id intent at) _ db
                (rw (open_, pending) at h) in
            let (e, db2, provided, h2) =
              >>=-eq-ok (provision_paid_order_entitlement lib _ _ _ _) _ db1 h1 in
            let (o, awaited, changed, tables) =
              confirm_provider_order-eq-ok order.id intent at db paid db1 done in
            let (plan, a) = provision-Activates lib _ paid actor summary db1 e db2 provided in
            inr (
              ground arith,
              record {
                order = o;
                awaited = awaited;
                confirms = ground (arith, a.orders);
                plan = ground arith;
                entitlement = e;
                owner = ground (arith, a.owner);
                live = a.live;
                entitlements = ground (arith, a.entitlements);
                payment_events = ground (arith, a.payment_events);
              },
            )
      ]
    ]
