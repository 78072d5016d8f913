-- ===== src/Cloud/Payments/Events.antt =====
-- apps/cloud-api/src/main.rs: what a payment webhook promises, and its repetition.
use ozon_rust_suite.Common.{
  ◌≡◌, refl, sym, ◌⊎◌, inl, inr, Bool, true, false, ◌&&◌, Option, none, some, Text, text, text_eq,
  text_eq_refl, ok, err, arith, Bool-cases, Option-cases, any,
}
use mathlib.Core.Path.{subst}
use ozon_rust_suite.Common.Rows.{find}
use ozon_rust_suite.Common.Rows.Laws.{any-append}
use ozon_rust_suite.Domain.Task.{Uuid, Instant}
use ozon_rust_suite.Domain.Account.{Order, PaymentProvider}
use ozon_rust_suite.Cloud.Libraries.{Libraries}
use ozon_rust_suite.Cloud.Database.{
  Database, PaymentEvent, has_payment_event, insert_payment_event_row, is_manual,
}
use ozon_rust_suite.Cloud.Tx.{lift, >>=-eq-ok, lift-eq-ok, lift-eq-ok_result}
use ozon_rust_suite.Cloud.Columns.{payment_provider_to_db}
use ozon_rust_suite.Cloud.Orders.{with_id}
use ozon_rust_suite.Cloud.Payments.{
  StripeSession, StripeEvent, WebhookDraws, text_is, amount_is, same_provider, insert_payment_event,
  settle_stripe_session, validate_stripe_session_matches_order, record_ignored_event,
  stripe_session_order_id, fulfill_stripe_checkout_session,
}
use ozon_rust_suite.Cloud.Payments.Settlement.{Settles, settle_order-eq-ok}

-- Only the table of payment events differs.
pub record SameButEvents (db db' : Database) : Type 0 where
  pub tenants : db'.tenants ≡ db.tenants
  pub users : db'.users ≡ db.users
  pub orders : db'.orders ≡ db.orders
  pub card_keys : db'.card_keys ≡ db.card_keys
  pub devices : db'.devices ≡ db.devices
  pub entitlements : db'.entitlements ≡ db.entitlements
  pub audit_events : db'.audit_events ≡ db.audit_events

pub insert_payment_event-eq-ok :
    (at : Instant) (provider : PaymentProvider) (event_id event_type : Text)
    (order_id : Option Uuid) (hash : Text) (db : Database) (b : Bool) (db' : Database)
    → insert_payment_event at provider event_id event_type order_id hash db ≡ ok (b, db')
    → (has_payment_event db' provider event_id ≡ true) × SameButEvents db db'
unfolding insert_payment_event insert_payment_event_row
insert_payment_event-eq-ok at provider event_id event_type order_id hash db b db' h =
    elim (Bool-cases (has_payment_event db provider event_id)) [
      | inl there ↦ (ground arith, ground arith)
      | inr fresh ↦
          let added =
            any-append
              (λ (x : PaymentEvent).
                text_eq (payment_provider_to_db x.provider) (payment_provider_to_db provider)
                && text_eq x.event_id event_id)
              db.payment_events
              (record {
                provider = provider;
                event_id = event_id;
                event_type = event_type;
                order_id = order_id;
                payload_hash = hash;
                received_at = at;
              })
              (ground
                (arith, text_eq_refl event_id, text_eq_refl (payment_provider_to_db provider))) in
          (ground (arith, added), ground arith)
    ]

pub insert_payment_event_again :
    (at : Instant) (provider : PaymentProvider) (event_id event_type : Text)
    (order_id : Option Uuid) (hash : Text) (db : Database)
    → is_manual provider ≡ false
    → has_payment_event db provider event_id ≡ true
    → insert_payment_event at provider event_id event_type order_id hash db ≡ ok (false, db)
unfolding insert_payment_event insert_payment_event_row
insert_payment_event_again at provider event_id event_type order_id hash db h k = ground arith

validate_stripe-eq-ok :
    (session : StripeSession) (order : Order) {u : Unit {0}}
    → validate_stripe_session_matches_order session order ≡ ok u
    → (same_provider order.payment_provider PaymentProvider.stripe ≡ true)
      × (text_is order.checkout_session_id session.id ≡ true)
      × (amount_is session.amount_total order.amount_minor ≡ true)
unfolding validate_stripe_session_matches_order
validate_stripe-eq-ok session order h = ground arith

-- The locked order is the one that the session says, and it is settled.
pub record StripeSettles (c : WebhookDraws) (session : StripeSession) (id : Uuid)
    (db db' : Database) : Type 0 where
  pub order : Order
  pub found : find (with_id id) db.orders ≡ some order
  pub provider : same_provider order.payment_provider PaymentProvider.stripe ≡ true
  pub session_id : text_is order.checkout_session_id session.id ≡ true
  pub amount : amount_is session.amount_total order.amount_minor ≡ true
  pub settles : Settles c order.id session.payment_intent c.paid_at db db'

settle_stripe_session-eq-ok :
    (lib : Libraries) (c : WebhookDraws) (session : StripeSession) (id : Uuid) (db : Database)
    (b : Bool) (db' : Database)
    → settle_stripe_session lib c session id db ≡ ok (b, db')
    → ((b ≡ false) × (db' ≡ db)) ⊎ ((b ≡ true) × StripeSettles c session id db db')
unfolding settle_stripe_session
settle_stripe_session-eq-ok lib c session id db b db' h =
    elim (Option-cases (find (with_id id) db.orders)) [
      | inl missing ↦ absurd (ground arith)
      | inr (order, found) ↦
          let (_, db1, valid, h1) =
            >>=-eq-ok (lift (validate_stripe_session_matches_order session order)) _ db
              (rw found at h) in
          let same : db1 ≡ db = lift-eq-ok _ db db1 valid in
          let (provider, session_id, amount) =
            validate_stripe-eq-ok session order (lift-eq-ok_result _ db db1 valid) in
          elim (settle_order-eq-ok lib c order _ _ _ _ db b db' (rw same at h1)) [
            | inl (kept, left) ↦ inl (kept, left)
            | inr (done, settles) ↦ inr (
              done,
              record {
                order = order;
                found = found;
                provider = provider;
                session_id = session_id;
                amount = amount;
                settles = settles;
              },
            )
          ]
    ]

-- A delivered session that pays for an order: it says that it is paid, and it names the order, which
-- is settled from the tables as they stand with the event recorded.
pub record StripePays (lib : Libraries) (parse_uuid : Text → Option Uuid) (c : WebhookDraws)
    (session : StripeSession) (db db' : Database) : Type 0 where
  pub paid : text_is session.payment_status (text "paid") ≡ true
  pub id : Uuid
  pub named : stripe_session_order_id lib parse_uuid session ≡ ok id
  pub recorded : Database
  pub recorded_same : SameButEvents db recorded
  pub settles : StripeSettles c session id recorded db'

-- What a delivered event leaves behind: it is recorded, and either only the table of events has
-- changed, or the session pays for its order.
abbrev pub StripeOutcome :
    Libraries
    → (Text → Option Uuid)
    → WebhookDraws
    → StripeEvent
    → StripeSession
    → Database
    → Bool
    → Database
    → Type 0
StripeOutcome lib parse_uuid c event session db b db' =
    (has_payment_event db' PaymentProvider.stripe event.id ≡ true)
    × (((b ≡ false) × SameButEvents db db')
        ⊎ ((b ≡ true) × StripePays lib parse_uuid c session db db'))

module _ (lib : Libraries) (parse_uuid : Text → Option Uuid) where
  settled_outcome :
      (c : WebhookDraws) (event : StripeEvent) (session : StripeSession) (id : Uuid)
      (db db1 : Database) (b : Bool) (db' : Database)
      → text_is session.payment_status (text "paid") ≡ true
      → stripe_session_order_id lib parse_uuid session ≡ ok id
      → has_payment_event db1 PaymentProvider.stripe event.id ≡ true
      → SameButEvents db db1
      → settle_stripe_session lib c session id db1 ≡ ok (b, db')
      → StripeOutcome lib parse_uuid c event session db b db'
  settled_outcome c event session id db db1 b db' paid named there same h =
      elim (settle_stripe_session-eq-ok lib c session id db1 b db' h) [
        | inl (kept, left) ↦ (rw left there, inl (kept, subst (SameButEvents db) (sym left) same))
        | inr (done, settles) ↦ (
          subst
              (λ es.
                any
                  (λ (x : PaymentEvent).
                    text_eq (payment_provider_to_db x.provider)
                      (payment_provider_to_db PaymentProvider.stripe)
                    && text_eq x.event_id event.id)
                  es
                ≡ true)
              (sym settles.settles.payment_events) there,
          inr (
            done,
            record {
              paid = paid;
              id = id;
              named = named;
              recorded = db1;
              recorded_same = same;
              settles = settles;
            },
          ),
        )
      ]

  -- A Stripe event that is accepted is recorded, and then either it is not reported as processed,
  -- and no table but that of events has changed; or it is reported as processed, the session is
  -- paid, is the checkout session of a stored Stripe order of the same amount, that order awaited
  -- its payment and is confirmed, its plan is the standard one, and exactly one entitlement is
  -- added, unrevoked, for the order's user.
  pub fulfill-StripeOutcome :
      (c : WebhookDraws) (event : StripeEvent) (session : StripeSession) (hash : Text)
      (db : Database) (b : Bool) (db' : Database)
      → fulfill_stripe_checkout_session lib parse_uuid c event session hash db ≡ ok (b, db')
      → StripeOutcome lib parse_uuid c event session db b db'
  unfolding fulfill_stripe_checkout_session record_ignored_event
  fulfill-StripeOutcome c event session hash db b db' h =
      elim (Bool-cases (text_is session.payment_status (text "paid"))) [
        | inr unpaid ↦
            let (inserted, db1, done, h1) =
              >>=-eq-ok
                (insert_payment_event c.received_at PaymentProvider.stripe event.id event.kind none
                  hash)
                _ db (rw unpaid at h) in
            let (there, same) = insert_payment_event-eq-ok _ _ _ _ _ _ db inserted db1 done in
            (ground arith, inl (ground arith))
        | inl paid ↦
            elim (stripe_session_order_id lib parse_uuid session)
                as (λ r.
                  stripe_session_order_id lib parse_uuid session ≡ r
                  → StripeOutcome lib parse_uuid c event session db b db') [
                    | err _ ↦ λ failed. absurd (ground arith)
                    | ok id ↦ λ named.
                        let (inserted, db1, done, h1) =
                          >>=-eq-ok
                            (insert_payment_event c.received_at PaymentProvider.stripe event.id
                              event.kind (some id) hash)
                            _ db (rw (paid, named) at h) in
                        let (there, same) =
                          insert_payment_event-eq-ok _ _ _ _ _ _ db inserted db1 done in
                        elim (Bool-cases inserted) [
                          | inr old ↦ (ground arith, inl (ground arith))
                          | inl new ↦
                              settled_outcome c event session id db db1 b db' paid named there same
                                (rw new at h1)
                        ]
                  ]
              refl
      ]
