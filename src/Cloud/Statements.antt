-- ===== src/Cloud/Statements.antt =====
-- apps/cloud-api/src/main.rs: what each statement that goes through has done to the tables.
use ozon_rust_suite.Common.{◌≡◌, false, ◌++◌, [], ◌∷◌, Option, ok, arith, any, ◌==◌}
use ozon_rust_suite.Common.Rows.{update_where}
use ozon_rust_suite.Domain.Task.{Uuid, Instant, AuditEvent}
use ozon_rust_suite.Domain.Account.{CardKey, Entitlement}
use ozon_rust_suite.Cloud.Database.{Database, insert_card_key, insert_entitlement, has_card}
use ozon_rust_suite.Cloud.Tx.{insert_audit}
use ozon_rust_suite.Cloud.CardKeys.{mark_card_key_redeemed, redeemable, redeem_row}

pub insert_card_key-eq-ok :
    (card : CardKey) (order_id : Option Uuid) (db db' : Database)
    → insert_card_key card order_id db ≡ ok db'
    → (has_card db card.id ≡ false)
      × (db' ≡ record db {
        card_keys = db.card_keys ++ record { card = card; order_id = order_id } ∷ [];
      })
unfolding insert_card_key
insert_card_key-eq-ok card order_id db db' h = ground arith

pub insert_entitlement-eq-ok :
    (e : Entitlement) (db db' : Database)
    → insert_entitlement e db ≡ ok db'
    → (any (λ (x : Entitlement). x.source_card_key_id == e.source_card_key_id) db.entitlements
        ≡ false)
      × (db' ≡ record db { entitlements = db.entitlements ++ e ∷ [] })
unfolding insert_entitlement
insert_entitlement-eq-ok e db db' h = ground arith

pub mark_card_key_redeemed-eq-ok :
    (id user_id : Uuid) (at : Instant) (db db' : Database)
    → mark_card_key_redeemed id user_id at db ≡ ok (tt, db')
    → db'
      ≡ record db { card_keys = update_where (redeemable id) (redeem_row user_id at) db.card_keys }
unfolding mark_card_key_redeemed
mark_card_key_redeemed-eq-ok id user_id at db db' h = ground arith

pub insert_audit-eq-ok :
    (e : AuditEvent) (db db' : Database)
    → insert_audit e db ≡ ok (tt, db')
    → db' ≡ record db { audit_events = db.audit_events ++ e ∷ [] }
unfolding insert_audit
insert_audit-eq-ok e db db' h = ground arith
