-- ===== src/Cloud/Accounts/Logins.antt =====
-- apps/cloud-api/src/main.rs: who registers can log in.
use mathlib.Core.Path.{subst}
use ozon_rust_suite.Common.{
  ◌≡◌, refl, ◌∙◌, sym, ap, inl, inr, Bool, true, false, not, [], ◌∷◌, ◌++◌, none, some, Text, text,
  text_eq_refl, Result, ok, err, ◌==◌, ok_or, any, arith, bind-eq-ok, Option-cases, Bool-cases,
}
use ozon_rust_suite.Common.Rows.{find}
use ozon_rust_suite.Common.Rows.Laws.{find_no_match, find-append_none, any-append}
use ozon_rust_suite.Domain.Task.{Uuid, DomainError, AuditEvent}
use ozon_rust_suite.Domain.Account.{User, NebulaSource, Email, PhoneNumber, NebulaId}
use ozon_rust_suite.Domain.Identity.{parse_email, parse_phone_number}
use ozon_rust_suite.Cloud.Errors.{ApiError}
use ozon_rust_suite.Cloud.Libraries.{Libraries}
use ozon_rust_suite.Cloud.Database.{Database, has_tenant, insert_tenant, insert_audit_row}
use ozon_rust_suite.Cloud.Tx.{
  lift, Stamp, audit, statement, insert_audit, >>=-eq-ok, statement-eq-ok, lift-eq-ok,
  lift-eq-ok_result,
}
use ozon_rust_suite.Cloud.Statements.{insert_audit-eq-ok}
use ozon_rust_suite.Cloud.CardKeys.{verify}
use ozon_rust_suite.Cloud.Accounts.{
  map_err, map_ok, LoginMethod, RegisterRequest, LoginRequest, RegistrationIdentity, LoginIdentity,
  check_password, check_registration, new_user, RegisterDraws, or_else, taken, email_text,
  phone_text, identifies, requested_login_method, registration_identity, login_identity,
  insert_user, store_user, register, login, find_user_by_login_identity, password_hash_of,
  create_unique_nebula_id, ensure_local_password_login_allowed, is_local,
}

-- The login request with the identity and the password of a registration.
abbrev pub same_credentials : RegisterRequest → LoginRequest
same_credentials input = record {
  email = input.email;
  phone = input.phone;
  nebula_id = none;
  login_method = some (requested_login_method input.login_method input.email input.phone);
  identifier = input.identifier;
  password = input.password;
}

pub insert_tenant-eq-ok :
    (id : Uuid) (db db' : Database)
    → insert_tenant id db ≡ ok db'
    → (db'.users ≡ db.users) × (has_tenant db' id ≡ true)
unfolding insert_tenant
insert_tenant-eq-ok id db db' h =
    let added = any-append (λ x. x == id) db.tenants id (ground arith) in
    elim (Bool-cases (has_tenant db id)) [
      | inl there ↦ let same : db' ≡ db = ground arith in (ap (λ d. d.users) same, rw same there)
      | inr missing ↦
          let same : db' ≡ record db { tenants = db.tenants ++ id ∷ [] } = ground arith in
          (ap (λ d. d.users) same, ap (λ d. has_tenant d id) same ∙ added)
    ]

pub insert_user-eq-ok :
    (u : User) (db db' : Database)
    → insert_user u db ≡ ok db'
    → (any (λ (x : User). x.id == u.id) db.users ≡ false)
      × (taken (email_text u) email_text db ≡ false)
      × (taken (phone_text u) phone_text db ≡ false)
      × (db' ≡ record db { users = db.users ++ u ∷ [] })
unfolding insert_user
insert_user-eq-ok u db db' h = ground arith

store_user-eq-ok :
    (lib : Libraries) (c : RegisterDraws) (u v : User) (db db' : Database)
    → store_user lib c u db ≡ ok (v, db')
    → (v ≡ u)
      × (any (λ (x : User). x.id == u.id) db.users ≡ false)
      × (taken (email_text u) email_text db ≡ false)
      × (taken (phone_text u) phone_text db ≡ false)
      × (db'.users ≡ db.users ++ u ∷ [])
      × (has_tenant db' u.tenant_id ≡ true)
unfolding store_user
store_user-eq-ok lib c u v db db' h =
    let (_, db1, tenant, h1) = >>=-eq-ok (statement _ _) _ db h in
    let (_, db2, inserted, h2) = >>=-eq-ok (statement _ _) _ db1 h1 in
    let (_, db3, audited, h3) = >>=-eq-ok (insert_audit _) _ db2 h2 in
    let t = insert_tenant-eq-ok u.tenant_id db db1 (statement-eq-ok _ _ db db1 tenant) in
    let n = insert_user-eq-ok u db1 db2 (statement-eq-ok _ _ db1 db2 inserted) in
    let a = insert_audit-eq-ok _ db2 db3 audited in ground (arith, t, n, a)

-- A registration identity, and the login identity of the same request.
record Matches (identity : RegistrationIdentity) (l : LoginIdentity) : Type 0 where
  finds : (u : User) → u.email ≡ identity.email → u.phone ≡ identity.phone → identifies l u ≡ true
  fresh :
      (u : User) (db : Database)
      → u.email ≡ identity.email
      → u.phone ≡ identity.phone
      → taken (email_text u) email_text db ≡ false
      → taken (phone_text u) phone_text db ≡ false
      → find (identifies l) db.users ≡ none

email-Matches :
    (e : Email) → Matches (record { email = some e; phone = none }) (LoginIdentity.email e)
email-Matches e = record {
  finds = λ u at _. rw at (text_eq_refl e.value);
  fresh = λ u db at _ free _. find_no_match _ db.users (rw at at free);
}

phone-Matches :
    (p : PhoneNumber) → Matches (record { email = none; phone = some p }) (LoginIdentity.phone p)
phone-Matches p = record {
  finds = λ u _ at. rw at (text_eq_refl p.value);
  fresh = λ u db _ at _ free. find_no_match _ db.users (rw at at free);
}

map-eq-ok :
    {A B : Type 0} (e : ApiError) (f : A → B) (r : Result DomainError A) {b : B}
    → map_err e (map_ok f r) ≡ ok b
    → (a : A) × (r ≡ ok a) × (b ≡ f a)
map-eq-ok e f (ok a) h = (a, refl, ground arith)
map-eq-ok e f (err d) h = cc

abbrev with_method : LoginMethod → RegisterRequest → LoginRequest
with_method method input = record {
  email = input.email;
  phone = input.phone;
  nebula_id = none;
  login_method = some method;
  identifier = input.identifier;
  password = input.password;
}

registration_identity-Matches :
    (lib : Libraries) (method : LoginMethod) (input : RegisterRequest)
    (identity : RegistrationIdentity)
    → registration_identity lib method input ≡ ok identity
    → (l : LoginIdentity) × (login_identity lib (with_method method input) ≡ ok l)
      × Matches identity l
unfolding registration_identity login_identity
registration_identity-Matches lib LoginMethod.email input identity h =
    let (value, given, parsed) = bind-eq-ok (ok_or (or_else input.identifier input.email) _) _ h in
    let (e, it, same) = map-eq-ok _ _ (parse_email lib.tables value) parsed in
    (
      LoginIdentity.email e,
      ground (arith, given, it),
      subst (λ i. Matches i (LoginIdentity.email e)) (sym same) (email-Matches e),
    )
registration_identity-Matches lib LoginMethod.phone input identity h =
    let (value, given, parsed) = bind-eq-ok (ok_or (or_else input.identifier input.phone) _) _ h in
    let (p, it, same) = map-eq-ok _ _ (parse_phone_number value) parsed in
    (
      LoginIdentity.phone p,
      ground (arith, given, it),
      subst (λ i. Matches i (LoginIdentity.phone p)) (sym same) (phone-Matches p),
    )
registration_identity-Matches lib LoginMethod.nebula input identity h = cc

abbrev pub fresh_audit : Uuid → Database → Bool
fresh_audit id db = not (any (λ (x : AuditEvent). x.id == id) db.audit_events)

pub login_succeeds :
    (lib : Libraries) (stamp : Stamp) (input : LoginRequest) (l : LoginIdentity) (u : User)
    (db : Database)
    → login_identity lib input ≡ ok l
    → find (identifies l) db.users ≡ some u
    → is_local u.nebula_source ≡ true
    → lib.verify_password u.password_hash input.password ≡ true
    → has_tenant db u.tenant_id ≡ true
    → fresh_audit stamp.id db ≡ true
    → (db' : Database) × (login lib stamp input db ≡ ok (u, db'))
unfolding login find_user_by_login_identity insert_audit insert_audit_row statement
login_succeeds lib stamp input l u db parsed found local good tenant fresh = (
  record db {
    audit_events =
        db.audit_events
        ++ audit stamp (some u.tenant_id) u.nebula_id.value (text "auth.login") (text "user")
            (text "user logged in")
          ∷ [];
  },
  ground arith,
)

-- A registration that goes through has an identity, a hash, and a row for its user.
register-eq-ok :
    (lib : Libraries) (allow : Bool) (c : RegisterDraws) (input : RegisterRequest) (db : Database)
    (u : User) (db' : Database)
    → register lib allow c input db ≡ ok (u, db')
    → (identity : RegistrationIdentity) × (id : NebulaId) × (hash : Text) × (registration_identity
          lib
          (requested_login_method input.login_method input.email input.phone)
          input
        ≡ ok identity)
      × (lib.hash_password c.salt input.password ≡ some hash)
      × (store_user lib c (new_user c identity input.name id hash) db ≡ ok (u, db'))
unfolding register password_hash_of
register-eq-ok lib allow c input db u db' h =
    let (identity, db1, parsed, h1) =
      >>=-eq-ok
        (lift (
          registration_identity lib
            (requested_login_method input.login_method input.email input.phone) input))
        _ db h in
    let (_, db2, long, h2) = >>=-eq-ok (lift (check_password input.password)) _ db1 h1 in
    let (_, db3, allowed, h3) = >>=-eq-ok (lift (check_registration allow)) _ db2 h2 in
    let (id, db4, allocated, h4) =
      >>=-eq-ok (lift (create_unique_nebula_id lib c.attempt 8 0 db3)) _ db3 h3 in
    let (hash, db5, hashed, h5) =
      >>=-eq-ok (lift (password_hash_of lib c.salt input.password)) _ db4 h4 in
    let made =
      lift-eq-ok_result (password_hash_of lib c.salt input.password) db4 {a = hash} db5 hashed in
    let same : db5 ≡ db =
      lift-eq-ok _ db4 db5 hashed
      ∙ (lift-eq-ok _ db3 db4 allocated
          ∙ (lift-eq-ok _ db2 db3 allowed
              ∙ (lift-eq-ok _ db1 db2 long ∙ lift-eq-ok _ db db1 parsed))) in
    (identity, id, hash, lift-eq-ok_result _ db db1 parsed, ground (arith, made), rw same at h5)

-- What a registration that goes through stores: a local user that its identity finds.
pub record Registers (lib : Libraries) (input : RegisterRequest) (db : Database) (u : User)
    (db' : Database) : Type 0 where
  pub identity : LoginIdentity
  pub named : login_identity lib (same_credentials input) ≡ ok identity
  pub found : find (identifies identity) db'.users ≡ some u
  pub local : is_local u.nebula_source ≡ true
  pub unlinked : u.skybridge_user_id ≡ none
  pub new_id : any (λ (x : User). x.id == u.id) db.users ≡ false
  pub users : db'.users ≡ db.users ++ u ∷ []
  pub tenant : has_tenant db' u.tenant_id ≡ true
  pub salt : Text
  pub hashed : lib.hash_password salt input.password ≡ some u.password_hash

pub register-Registers :
    (lib : Libraries) (allow : Bool) (c : RegisterDraws) (input : RegisterRequest) (db : Database)
    (u : User) (db' : Database)
    → register lib allow c input db ≡ ok (u, db')
    → Registers lib input db u db'
unfolding new_user
register-Registers lib allow c input db u db' h =
    let (identity, id, hash, parsed, hashed, stored) =
      register-eq-ok lib allow c input db u db' h in
    let v = new_user c identity input.name id hash in
    let (same, new_id, free_email, free_phone, users, tenant) =
      store_user-eq-ok lib c v u db db' stored in
    let (l, named, matches) =
      registration_identity-Matches lib
        (requested_login_method input.login_method input.email input.phone) input identity parsed in
    let nobody = matches.fresh v db refl refl free_email free_phone in
    let me : identifies l v ≡ true = matches.finds v refl refl in
    let found : find (identifies l) db'.users ≡ some v =
      ap (find (identifies l)) users ∙ find-append_none (identifies l) db.users _ nobody me in
    subst (λ w. Registers lib input db w db') (sym same)
      (record {
        identity = l;
        named = named;
        found = found;
        local = refl;
        unlinked = refl;
        new_id = new_id;
        users = users;
        tenant = tenant;
        salt = c.salt;
        hashed = hashed;
      })

is_local-eq-true : (s : NebulaSource) → is_local s ≡ true → s ≡ NebulaSource.local_dev
is_local-eq-true NebulaSource.local_dev h = refl
is_local-eq-true NebulaSource.skybridge h = cc

-- A login that goes through is of a stored user that the request's identity names, whose account is
-- not one of SkyBridge, and whose password hash accepts the password; no user is changed.
pub login_stored :
    (lib : Libraries) (stamp : Stamp) (input : LoginRequest) (db : Database) (u : User)
    (db' : Database)
    → login lib stamp input db ≡ ok (u, db')
    → (l : LoginIdentity) × (login_identity lib input ≡ ok l)
      × (find (identifies l) db.users ≡ some u)
      × (u.nebula_source ≡ NebulaSource.local_dev)
      × (lib.verify_password u.password_hash input.password ≡ true)
      × (db'.users ≡ db.users)
unfolding login find_user_by_login_identity
login_stored lib stamp input db u db' h =
    let (l, db1, parsed, h1) = >>=-eq-ok (lift (login_identity lib input)) _ db h in
    let same : db1 ≡ db = lift-eq-ok _ db db1 parsed in
    elim (Option-cases (find (identifies l) db1.users)) [
      | inl missing ↦ absurd (ground arith)
      | inr (v, found) ↦
          let (_, db2, local, h2) =
            >>=-eq-ok (lift (ensure_local_password_login_allowed v)) _ db1 (rw found at h1) in
          let (_, db3, good, h3) =
            >>=-eq-ok (lift (verify lib v.password_hash input.password)) _ db2 h2 in
          let (_, db4, audited, h4) = >>=-eq-ok (insert_audit _) _ db3 h3 in
          let a = insert_audit-eq-ok _ db3 db4 audited in
          let it : v ≡ u = ground arith in
          (
            l,
            lift-eq-ok_result _ db db1 parsed,
            ground (arith, found, same),
            is_local-eq-true u.nebula_source (rw (← it) (ground arith)),
            rw (← it) (ground arith),
            ground (arith, a, same, lift-eq-ok _ db1 db2 local, lift-eq-ok _ db2 db3 good),
          )
    ]
