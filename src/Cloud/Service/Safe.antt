-- ===== src/Cloud/Service/Safe.antt =====
-- apps/cloud-api/src/main.rs: what every statement of the service keeps, every transaction keeps.
use ozon_rust_suite.Common.{
  ◌≡◌, inl, inr, Bool, true, false, List, [], ◌∷◌, ◌++◌, Option, Result, ok, err, ◌==◌,
  if◌then◌else◌, arith, some, any, Result-cases, Bool-cases,
}
use ozon_rust_suite.Common.Rows.{update_where}
use ozon_rust_suite.Domain.Task.{Uuid, Instant, AuditEvent}
use ozon_rust_suite.Domain.Account.{User, Order, CardKey, Device, Entitlement}
use ozon_rust_suite.Cloud.Errors.{ApiError}
use ozon_rust_suite.Cloud.Database.{
  Database, CardRow, PaymentEvent, SqlError, has_tenant, insert_tenant, insert_card_key,
  insert_entitlement, insert_order_row,
}
use ozon_rust_suite.Cloud.Tx.{
  Tx, ◌>>=◌, ◌>>◌, lift, read, pure, fail, statement, insert_audit, commit,
}
use ozon_rust_suite.Cloud.Statements.{
  insert_card_key-eq-ok, insert_entitlement-eq-ok, mark_card_key_redeemed-eq-ok, insert_audit-eq-ok,
}
use ozon_rust_suite.Cloud.CardKeys.{mark_card_key_redeemed, redeemable, redeem_row}
use ozon_rust_suite.Cloud.Accounts.{insert_user}
use ozon_rust_suite.Cloud.Accounts.Logins.{insert_user-eq-ok}
use ozon_rust_suite.Cloud.Skybridge.{
  SkybridgeProfile, update_profile, clashes, find_user_by_skybridge_user_id,
}

-- A property of the tables that no statement of the service breaks.
pub record IsStable (P : Database → Type 0) : Type 0 where
  pub tenant :
      (db : Database) (id : Uuid) → P db → P (record db { tenants = db.tenants ++ id ∷ [] })
  pub user :
      (db : Database) (u : User)
      → any (λ (x : User). x.id == u.id) db.users ≡ false
      → P db
      → P (record db { users = db.users ++ u ∷ [] })
  -- A profile is written to the account that it is linked to, where it clashes with no other.
  pub profile :
      (db : Database) (linked old : User) (at : Instant) (p : SkybridgeProfile)
      → find_user_by_skybridge_user_id p.user_id db ≡ some linked
      → (old.id == linked.id) ≡ true
      → any (clashes (update_profile at p old)) db.users ≡ false
      → P db
      → P (record db {
        users = update_where (λ (u : User). u.id == linked.id) (update_profile at p) db.users;
      })
  pub order : (db : Database) (rows : List Order) → P db → P (record db { orders = rows })
  pub device : (db : Database) (rows : List Device) → P db → P (record db { devices = rows })
  pub entitlement :
      (db : Database) (rows : List Entitlement) → P db → P (record db { entitlements = rows })
  pub audited :
      (db : Database) (rows : List AuditEvent) → P db → P (record db { audit_events = rows })
  pub key :
      (db : Database) (row : CardRow)
      → P db
      → P (record db { card_keys = db.card_keys ++ row ∷ [] })
  pub redeemed :
      (db : Database) (id user_id : Uuid) (at : Instant)
      → P db
      → P (record db {
        card_keys = update_where (redeemable id) (redeem_row user_id at) db.card_keys;
      })
  pub event :
      (db : Database) (e : PaymentEvent)
      → P db
      → P (record db { payment_events = db.payment_events ++ e ∷ [] })

-- A transaction from some tables is refused, or leads to tables with the property.
pub data Safe (P : Database → Type 0) {A : Type 0} : Result ApiError (A × Database) → Type 0 where
  stopped : {e : ApiError} → Safe P (err e)
  went : {a : A} {db : Database} → P db → Safe P (ok (a, db))

-- A transaction keeps the property, from whatever tables it starts.
pub record Keeps (P : Database → Type 0) {A : Type 0} (m : Tx A) : Type 0 where
  pub from : (db : Database) → P db → Safe P (m db)

module _ {P : Database → Type 0} where
  pub bind-Keeps :
      {A B : Type 0} (m : Tx A) (f : A → Tx B)
      → Keeps P m
      → ((a : A) → Keeps P (f a))
      → Keeps P (m >>= f)
  bind-Keeps {A} {B} m f s k = record { from = λ db p. go (m db) (s.from db p) }
    where
      go :
          (r : Result ApiError (A × Database))
          → Safe P r
          → Safe P {A = B} (elim r [ err e ↦ err e | ok (a, u) ↦ f a u ])
      go _ stopped = stopped
      go _ (went {a} {db} p) = (k a).from db p

  pub then-Keeps :
      {B : Type 0} (m : Tx (Unit {0})) (k : Tx B) → Keeps P m → Keeps P k → Keeps P (m >> k)
  then-Keeps m k s next = bind-Keeps m (λ _. k) s λ _. next

  pub read-Keeps : {A : Type 0} (f : Database → A) → Keeps P (read f)
  read-Keeps f = record { from = λ db p. went p }

  pub pure-Keeps : {A : Type 0} (a : A) → Keeps P (pure a)
  pure-Keeps a = record { from = λ db p. went p }

  pub fail-Keeps : {A : Type 0} (e : ApiError) → Keeps P {A = A} (fail e)
  fail-Keeps e = record { from = λ db p. stopped }

  pub lift-Keeps : {A : Type 0} (r : Result ApiError A) → Keeps P (lift r)
  lift-Keeps (ok a) = record { from = λ db p. went p }
  lift-Keeps (err e) = record { from = λ db p. stopped }

  pub if_Keeps :
      {A : Type 0} (b : Bool) (m n : Tx A) → Keeps P m → Keeps P n → Keeps P (if b then m else n)
  if_Keeps true m n p q = p
  if_Keeps false m n p q = q

  pub commit_keeps : {A : Type 0} (m : Tx A) (db : Database) → P db → Keeps P m → P (commit m db).0
  commit_keeps {A} m db p s = go (m db) (s.from db p)
    where
      go :
          (r : Result ApiError (A × Database))
          → Safe P r
          → P
              (elim r as (λ x. Database × Result ApiError A) [
                | err e ↦ (db, err e)
                | ok (a, u) ↦ (u, ok a)
              ]).0
      go _ stopped = p
      go _ (went q) = q

  statement_safe :
      (refuse : SqlError → ApiError) (run : Database → Result SqlError Database)
      → ((db db' : Database) → P db → run db ≡ ok db' → P db')
      → Keeps P (statement refuse run)
  unfolding statement
  statement_safe refuse run k = record {
    from = λ db p. elim (Result-cases (run db)) [
      | inl (db', e) ↦ rw (statement, e) (went (k db db' p e))
      | inr (x, e) ↦ rw (statement, e) stopped
    ];
  }

module _ {P : Database → Type 0} (st : IsStable P) where
  pub tenant-Keeps :
      (refuse : SqlError → ApiError) (id : Uuid) → Keeps P (statement refuse (insert_tenant id))
  unfolding insert_tenant
  tenant-Keeps refuse id = statement_safe refuse (insert_tenant id) λ db db' p h.
      elim (Bool-cases (has_tenant db id)) [
        | inl there ↦ let same : db' ≡ db = ground arith in rw same p
        | inr missing ↦
            let same : db' ≡ record db { tenants = db.tenants ++ id ∷ [] } = ground arith in
            rw same (st.tenant db id p)
      ]

  pub user-Keeps :
      (refuse : SqlError → ApiError) (u : User) → Keeps P (statement refuse (insert_user u))
  user-Keeps refuse u = statement_safe refuse (insert_user u) λ db db' p h.
      let (free, _, _, same) = insert_user-eq-ok u db db' h in rw same (st.user db u free p)

  pub key-Keeps :
      (refuse : SqlError → ApiError) (card : CardKey) (order_id : Option Uuid)
      → Keeps P (statement refuse (insert_card_key card order_id))
  key-Keeps refuse card order_id =
      statement_safe refuse (insert_card_key card order_id)
        λ db db' p h. rw ((insert_card_key-eq-ok card order_id db db' h).1) (st.key db _ p)

  pub entitlement-Keeps :
      (refuse : SqlError → ApiError) (e : Entitlement)
      → Keeps P (statement refuse (insert_entitlement e))
  entitlement-Keeps refuse e =
      statement_safe refuse (insert_entitlement e)
        λ db db' p h. rw ((insert_entitlement-eq-ok e db db' h).1) (st.entitlement db _ p)

  pub order-Keeps :
      (refuse : SqlError → ApiError) (o : Order) → Keeps P (statement refuse (insert_order_row o))
  unfolding insert_order_row
  order-Keeps refuse o = statement_safe refuse (insert_order_row o) λ db db' p h.
      let same : db' ≡ record db { orders = db.orders ++ o ∷ [] } = ground arith in
      rw same (st.order db _ p)

  pub redeemed-Keeps :
      (id user_id : Uuid) (at : Instant) → Keeps P (mark_card_key_redeemed id user_id at)
  redeemed-Keeps id user_id at = record {
    from = λ db p. elim (Result-cases (mark_card_key_redeemed id user_id at db)) [
      | inl ((_, db'), e) ↦ rw e (
          went (
            rw (mark_card_key_redeemed-eq-ok id user_id at db db' e)
              (st.redeemed db id user_id at p)))
      | inr (x, e) ↦ rw e stopped
    ];
  }

  pub audit-Keeps : (e : AuditEvent) → Keeps P (insert_audit e)
  audit-Keeps e = record {
    from = λ db p. elim (Result-cases (insert_audit e db)) [
      | inl ((_, db'), h) ↦ rw h (went (rw (insert_audit-eq-ok e db db' h) (st.audited db _ p)))
      | inr (x, h) ↦ rw h stopped
    ];
  }
