-- ===== src/Cloud/Accounts/Kept.antt =====
-- apps/cloud-api/src/main.rs: an account that was registered stays, whatever calls follow.
use ozon_rust_suite.Common.{
  ◌≡◌, refl, ap, ◌∙◌, inl, inr, Bool, true, false, ◌&&◌, List, [], ◌∷◌, Option, none, some, Text,
  text_eq, text_eq_sound, ok, ◌==◌, any, is_some, arith, Bool-cases,
}
use ozon_rust_suite.Common.Rows.{find, update_where}
use ozon_rust_suite.Common.Rows.Laws.{
  find_sound, find-append, any-append_left, any-append_false, any-find, find-update_other,
  any-update_other,
}
use ozon_rust_suite.Domain.Task.{Uuid, Instant}
use ozon_rust_suite.Domain.Account.{User}
use ozon_rust_suite.Cloud.Libraries.{Libraries}
use ozon_rust_suite.Cloud.Database.{Database, has_tenant, same_id}
use ozon_rust_suite.Cloud.Tx.{Stamp}
use ozon_rust_suite.Cloud.Accounts.{
  LoginIdentity, RegisterDraws, RegisterRequest, same_value, email_text, phone_text, identifies,
  register, login,
}
use ozon_rust_suite.Cloud.Accounts.Logins.{
  same_credentials, fresh_audit, login_succeeds, register-Registers,
}
use ozon_rust_suite.Cloud.Skybridge.{
  SkybridgeProfile, update_profile, both_value, clashes, find_user_by_skybridge_user_id,
}
use ozon_rust_suite.Cloud.Service.{Calls}
use ozon_rust_suite.Cloud.Service.Safe.{IsStable}
use ozon_rust_suite.Cloud.Service.Runs.{Calls_keep}

-- The user of an identifier who is linked to a SkyBridge account.
abbrev is_linked : Uuid → User → Bool
is_linked id x = (x.id == id) && is_some x.skybridge_user_id

-- The identity finds the user, whose identifier is that of no linked account and whose tenant is stored.
abbrev IsAccount : LoginIdentity → User → Database → Type 0
IsAccount l u db =
    (find (identifies l) db.users ≡ some u)
    × (any (is_linked u.id) db.users ≡ false)
    × (has_tenant db u.tenant_id ≡ true)

both_values :
    (a b : Option Text) (v : Text)
    → same_value a v ≡ true
    → same_value b v ≡ true
    → both_value a b ≡ true
both_values a none v h k = cc
both_values a (some t) v h k = rw (text_eq_sound t v k) h

-- Two users with the same login identity clash.
identifies_clash :
    (l : LoginIdentity) (new u : User)
    → identifies l new ≡ true
    → identifies l u ≡ true
    → (u.id == new.id) ≡ false
    → clashes new u ≡ true
identifies_clash (LoginIdentity.email e) new u h k other =
    let both = both_values (email_text u) (email_text new) e.value k h in
    ground (arith, both, other)
identifies_clash (LoginIdentity.phone e) new u h k other =
    let both = both_values (phone_text u) (phone_text new) e.value k h in
    ground (arith, both, other)
identifies_clash (LoginIdentity.nebula_id n) new u h k other =
    let both : text_eq u.nebula_id.value new.nebula_id.value ≡ true = rw (text_eq_sound _ _ h) k in
    ground (arith, both, other)

-- A login identity of a profile's account is one of the profile.
identifies-update_profile :
    (l : LoginIdentity) (at : Instant) (p : SkybridgeProfile) (x y : User)
    → identifies l (update_profile at p x) ≡ identifies l (update_profile at p y)
identifies-update_profile (LoginIdentity.email e) at p x y = refl
identifies-update_profile (LoginIdentity.phone e) at p x y = refl
identifies-update_profile (LoginIdentity.nebula_id n) at p x y = refl

profile-IsAccount :
    (l : LoginIdentity) (u : User) (db : Database) (linked old : User) (at : Instant)
    (p : SkybridgeProfile)
    → find_user_by_skybridge_user_id p.user_id db ≡ some linked
    → (old.id == linked.id) ≡ true
    → any (clashes (update_profile at p old)) db.users ≡ false
    → IsAccount l u db
    → IsAccount l u (record db {
      users = update_where (λ (x : User). x.id == linked.id) (update_profile at p) db.users;
    })
unfolding find_user_by_skybridge_user_id
profile-IsAccount l u db linked old at p named same alone (found, unlinked, tenant) =
    let mine = find_sound (identifies l) db.users found in
    let has : same_id linked.skybridge_user_id (some p.user_id) ≡ true =
      find_sound (λ (x : User). same_id x.skybridge_user_id (some p.user_id)) db.users named in
    let off = any-find (is_linked u.id) _ db.users unlinked named in
    let other : (linked.id == u.id) ≡ false = ground (arith, has, off) in
    let apart = any-find (clashes (update_profile at p old)) _ db.users alone found in
    let nobody : identifies l (update_profile at p old) ≡ false =
      elim (Bool-cases (identifies l (update_profile at p old))) [
        | inr e ↦ e
        | inl e ↦
            let clash =
              identifies_clash l (update_profile at p old) u e mine (ground (arith, other, same)) in
            cc (clash, apart)
      ] in
    (
      find-update_other (identifies l) (λ (x : User). x.id == linked.id) (update_profile at p)
          (λ x _. identifies-update_profile l at p x old ∙ nobody) db.users found
          (ground (arith, other)),
      any-update_other (is_linked u.id) (λ (x : User). x.id == linked.id) (update_profile at p)
          (λ x here. ground (arith, other, here)) db.users unlinked,
      tenant,
    )

IsAccount-IsStable : (l : LoginIdentity) (u : User) → IsStable (IsAccount l u)
IsAccount-IsStable l u = record {
  tenant = λ db id (found, unlinked, tenant).
      (found, unlinked, any-append_left (λ t. t == u.tenant_id) db.tenants (id ∷ []) tenant);
  user = λ db x free (found, unlinked, tenant).
      let apart = any-find (λ (y : User). y.id == x.id) _ db.users free found in
      (
        find-append (identifies l) db.users (x ∷ []) found,
        any-append_false (is_linked u.id) db.users x unlinked (ground (arith, apart)),
        tenant,
      );
  profile = λ db linked old at p named same alone a.
      profile-IsAccount l u db linked old at p named same alone a;
  order = λ db rows a. a;
  device = λ db rows a. a;
  entitlement = λ db rows a. a;
  audited = λ db rows a. a;
  key = λ db row a. a;
  redeemed = λ db id user_id at a. a;
  event = λ db e a. a;
}

no_linked :
    (id : Uuid) (xs : List User)
    → any (λ (x : User). x.id == id) xs ≡ false
    → any (is_linked id) xs ≡ false
no_linked id [] h = refl
no_linked id (x ∷ xs) h = ground (arith, no_linked id xs)

-- Where passwords verify against their own hashes, whoever registers can log in from then on, after
-- any further calls of the service, with the same identity and password, as the registered user,
-- whatever kind of identity it was; the audit event of the login must have an identifier that is
-- not in use.
pub register-login :
    (lib : Libraries) (parse_uuid : Text → Option Uuid) (allow : Bool) (c : RegisterDraws)
    (stamp : Stamp) (input : RegisterRequest) (db : Database) (u : User) (db' later : Database)
    → ((salt password hash : Text)
        → lib.hash_password salt password ≡ some hash
        → lib.verify_password hash password ≡ true)
    → register lib allow c input db ≡ ok (u, db')
    → Calls lib parse_uuid db' later
    → fresh_audit stamp.id later ≡ true
    → (end_ : Database) × (login lib stamp (same_credentials input) later ≡ ok (u, end_))
register-login lib parse_uuid allow c stamp input db u db' later verifies h calls fresh =
    let r = register-Registers lib allow c input db u db' h in
    let before : any (is_linked u.id) db.users ≡ false = no_linked u.id db.users r.new_id in
    let now : any (is_linked u.id) db'.users ≡ false =
      ap (any (is_linked u.id)) r.users
      ∙ any-append_false (is_linked u.id) db.users u before (ground (arith, r.unlinked)) in
    let (found, _, tenant) =
      Calls_keep lib parse_uuid (IsAccount-IsStable r.identity u) calls (r.found, now, r.tenant) in
    login_succeeds lib stamp (same_credentials input) r.identity u later r.named found r.local
      (verifies r.salt input.password u.password_hash r.hashed) tenant fresh
