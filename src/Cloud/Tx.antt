-- ===== src/Cloud/Tx.antt =====
-- apps/cloud-api/src/main.rs: a database transaction. An early return drops the transaction, which
-- rolls it back; the rows that it reads for an update are locked, so a transaction is one step.
use ozon_rust_suite.Common.{
  ◌≡◌, refl, Option, Text, text, text_eq, Result, ok, err, arith, if◌then◌else◌,
}
use ozon_rust_suite.Domain.Task.{Uuid, Instant, AuditEvent}
use ozon_rust_suite.Cloud.Errors.{ApiError, internal, conflict}
use ozon_rust_suite.Cloud.Database.{Database, SqlError, violates, insert_audit_row}

abbrev pub Tx : Type 0 → Type 0
Tx A = Database → Result ApiError (A × Database)

infixl 5 ◌>>=◌ ◌>>◌
abbrev pub ◌>>=◌ : {A B : Type 0} → Tx A → (A → Tx B) → Tx B
◌>>=◌ m f db = elim (m db) [ err e ↦ err e | ok (a, db') ↦ f a db' ]

abbrev pub ◌>>◌ : {B : Type 0} → Tx (Unit {0}) → Tx B → Tx B
m >> k = m >>= λ _. k

abbrev pub pure : {A : Type 0} → A → Tx A
pure a db = ok (a, db)

abbrev pub fail : {A : Type 0} → ApiError → Tx A
fail e db = err e

-- `?` on a result that does not touch the database.
abbrev pub lift : {A : Type 0} → Result ApiError A → Tx A
lift (ok a) db = ok (a, db)
lift (err e) db = err e

-- A query that only reads.
abbrev pub read : {A : Type 0} → (Database → A) → Tx A
read f db = ok (f db, db)

-- `begin`, the body, and `commit`.
abbrev pub commit : {A : Type 0} → Tx A → Database → Database × Result ApiError A
commit m db = elim (m db) [ err e ↦ (db, err e) | ok (a, db') ↦ (db', ok a) ]

abbrev pub db_internal : SqlError → ApiError
db_internal _ = internal (text "database operation failed")

abbrev pub map_unique_conflict : Text → Text → SqlError → ApiError
map_unique_conflict constraint message (violates name) =
    if text_eq name constraint then conflict message else db_internal (violates name)

-- A statement, with the error that the handler makes of a refusal.
unfoldable pub statement :
    (SqlError → ApiError) → (Database → Result SqlError Database) → Tx (Unit {0})
statement refuse run db = elim (run db) [ err e ↦ err (refuse e) | ok db' ↦ ok (tt, db') ]

-- What the generator of identifiers and the clock give to an audit event.
pub record Stamp : Type 0 where
  pub id : Uuid
  pub at : Instant

abbrev pub audit : Stamp → Option Uuid → Text → Text → Text → Text → AuditEvent
audit stamp tenant_id actor action target summary = record {
  id = stamp.id;
  tenant_id = tenant_id;
  actor = actor;
  action = action;
  target = target;
  summary = summary;
  created_at = stamp.at;
}

unfoldable pub insert_audit : AuditEvent → Tx (Unit {0})
unfolding insert_audit_row statement
insert_audit e = statement db_internal (insert_audit_row e)

-- A transaction that goes through went through at each step.
pub >>=-eq-ok :
    {A B : Type 0} (m : Tx A) (f : A → Tx B) (db : Database) {r : B × Database}
    → (m >>= f) db ≡ ok r
    → (a : A) × (db' : Database) × (m db ≡ ok (a, db')) × (f a db' ≡ ok r)
>>=-eq-ok {A} {B} m f db {r} h = go (m db) refl h
  where
    go :
        (x : Result ApiError (A × Database))
        → m db ≡ x
        → ◌≡◌ {A = Result ApiError (B × Database)}
            (elim x [ err e ↦ err e | ok (a, db') ↦ f a db' ])
            (ok r)
        → (a : A) × (db' : Database) × (m db ≡ ok (a, db')) × (f a db' ≡ ok r)
    go (ok (a, db')) e k = (a, db', e, k)
    go (err e) _ k = cc

pub statement-eq-ok :
    (refuse : SqlError → ApiError) (run : Database → Result SqlError Database) (db db' : Database)
    → statement refuse run db ≡ ok (tt, db')
    → run db ≡ ok db'
unfolding statement
statement-eq-ok refuse run db db' h = ground arith

pub lift-eq-ok :
    {A : Type 0} (r : Result ApiError A) (db : Database) {a : A} (db' : Database)
    → lift r db ≡ ok (a, db')
    → db' ≡ db
lift-eq-ok (ok a) db db' h = ground arith
lift-eq-ok (err e) db db' h = cc

pub lift-eq-ok_result :
    {A : Type 0} (r : Result ApiError A) (db : Database) {a : A} (db' : Database)
    → lift r db ≡ ok (a, db')
    → r ≡ ok a
lift-eq-ok_result (ok a) db db' h = ground arith
lift-eq-ok_result (err e) db db' h = cc
