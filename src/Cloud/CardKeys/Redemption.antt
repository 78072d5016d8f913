-- ===== src/Cloud/CardKeys/Redemption.antt =====
-- apps/cloud-api/src/main.rs: what a redemption does, and that a card key is redeemed once.
use ozon_rust_suite.Common.{
  ◌+◌, ◌≡◌, refl, ap, ◌∙◌, inl, inr, true, false, [], ◌∷◌, ◌++◌, none, some, Option, Text, text, ok,
  err, arith, Option-cases,
}
use ozon_rust_suite.Common.Rows.{find, update_where}
use ozon_rust_suite.Common.Rows.Laws.{find-update_where, find-append}
use ozon_rust_suite.Domain.Task.{Uuid}
use ozon_rust_suite.Domain.Account.{days, Entitlement, CardKey}
use ozon_rust_suite.Cloud.Errors.{conflict}
use ozon_rust_suite.Cloud.Libraries.{Libraries}
use ozon_rust_suite.Cloud.Database.{Database, CardRow}
use ozon_rust_suite.Cloud.Tx.{commit, statement, insert_audit, >>=-eq-ok, statement-eq-ok}
use ozon_rust_suite.Cloud.Statements.{
  insert_entitlement-eq-ok, mark_card_key_redeemed-eq-ok, insert_audit-eq-ok,
}
use ozon_rust_suite.Cloud.CardKeys.{
  AuthClaims, RedeemDraws, is_available, redeemable, redeem_row, with_fingerprint,
  mark_card_key_redeemed, store_redemption, redeem_card_key,
}
use ozon_rust_suite.Cloud.Service.{Calls}
use ozon_rust_suite.Cloud.Service.Safe.{IsStable}
use ozon_rust_suite.Cloud.Service.Runs.{Calls_keep}

-- The facts of a redemption that goes through: the key that the code's fingerprint finds was
-- available and accepts the code; it alone is marked, for the bearer; one entitlement is added, for
-- the bearer, from that key, for as many days as the key says.
pub record Redeems (lib : Libraries) (c : RedeemDraws) (claims : AuthClaims) (code : Text)
    (db : Database) (e : Entitlement) (db' : Database) : Type 0 where
  pub row : CardRow
  pub found : find (with_fingerprint (lib.sha256_hex code)) db.card_keys ≡ some row
  pub was_available : is_available row.card.status ≡ true
  pub verified : lib.verify_password row.card.code_hash code ≡ true
  pub owner : e.user_id ≡ claims.sub
  pub source : e.source_card_key_id ≡ row.card.id
  pub live : e.revoked_at ≡ none
  pub expiry : e.expires_at ≡ c.redeemed_at + days row.card.duration_days
  pub cards :
      db'.card_keys
      ≡ update_where (redeemable row.card.id) (redeem_row claims.sub c.redeemed_at) db.card_keys
  pub entitlements : db'.entitlements ≡ db.entitlements ++ e ∷ []

store_redemption-eq-ok :
    (lib : Libraries) (c : RedeemDraws) (claims : AuthClaims) (card : CardKey) (db : Database)
    (e : Entitlement) (db' : Database)
    → store_redemption lib c claims card db ≡ ok (e, db')
    → (e.user_id ≡ claims.sub)
      × (e.source_card_key_id ≡ card.id)
      × (e.revoked_at ≡ none)
      × (e.expires_at ≡ c.redeemed_at + days card.duration_days)
      × (db'.card_keys
          ≡ update_where (redeemable card.id) (redeem_row claims.sub c.redeemed_at) db.card_keys)
      × (db'.entitlements ≡ db.entitlements ++ e ∷ [])
unfolding store_redemption
store_redemption-eq-ok lib c claims card db e db' h =
    let (_, db1, marked, h1) =
      >>=-eq-ok (mark_card_key_redeemed card.id claims.sub c.redeemed_at) _ db h in
    let (_, db2, inserted, h2) = >>=-eq-ok (statement _ _) _ db1 h1 in
    let (_, db3, audited, h3) = >>=-eq-ok (insert_audit _) _ db2 h2 in
    let m = mark_card_key_redeemed-eq-ok card.id claims.sub c.redeemed_at db db1 marked in
    let n = insert_entitlement-eq-ok _ db1 db2 (statement-eq-ok _ _ db1 db2 inserted) in
    let a = insert_audit-eq-ok _ db2 db3 audited in ground (arith, m, n.1, a)

-- A redemption that goes through is of a stored key with the code's fingerprint that was available
-- and verifies the code: the key is marked as redeemed by the bearer, and one live entitlement is added,
-- for the bearer, from that key, for its days from the redemption.
pub redeem_card_key-Redeems :
    (lib : Libraries) (c : RedeemDraws) (claims : AuthClaims) (code : Text) (db : Database)
    (e : Entitlement) (db' : Database)
    → redeem_card_key lib c (ok claims) code db ≡ ok (e, db')
    → Redeems lib c claims code db e db'
unfolding redeem_card_key
redeem_card_key-Redeems lib c claims code db e db' h =
    elim (Option-cases (find (with_fingerprint (lib.sha256_hex code)) db.card_keys)) [
      | inl missing ↦ absurd (ground arith)
      | inr (row, found) ↦
          let was_available : is_available row.card.status ≡ true = ground arith in
          let verified : lib.verify_password row.card.code_hash code ≡ true = ground arith in
          let stored : store_redemption lib c claims row.card db ≡ ok (e, db') = ground arith in
          let (owner, source, live, expiry, cards, entitlements) =
            store_redemption-eq-ok lib c claims row.card db e db' stored in
          record {
            row = row;
            found = found;
            was_available = was_available;
            verified = verified;
            owner = owner;
            source = source;
            live = live;
            expiry = expiry;
            cards = cards;
            entitlements = entitlements;
          }
    ]

redeem_card_key_unavailable :
    (lib : Libraries) (c : RedeemDraws) (claims : AuthClaims) (code : Text) (db : Database)
    (row : CardRow)
    → find (with_fingerprint (lib.sha256_hex code)) db.card_keys ≡ some row
    → is_available row.card.status ≡ false
    → commit (redeem_card_key lib c (ok claims) code) db
      ≡ (db, err (conflict (text "card key is not available")))
unfolding redeem_card_key
redeem_card_key_unavailable lib c claims code db row found taken = ground arith

-- The key that a code finds is no longer available.
abbrev pub IsSpent : Libraries → Text → Database → Type 0
IsSpent lib code db =
    (row : CardRow) × (find (with_fingerprint (lib.sha256_hex code)) db.card_keys ≡ some row)
    × (is_available row.card.status ≡ false)

-- No statement makes a spent key available again, or puts another key before it.
IsSpent-IsStable : (lib : Libraries) (code : Text) → IsStable (IsSpent lib code)
IsSpent-IsStable lib code = record {
  tenant = λ db id p. p;
  user = λ db u free p. p;
  profile = λ db linked old at profile named same alone p. p;
  order = λ db rows p. p;
  device = λ db rows p. p;
  entitlement = λ db rows p. p;
  audited = λ db rows p. p;
  key = λ db row (old, found, spent).
      (old, find-append (with_fingerprint (lib.sha256_hex code)) db.card_keys _ found, spent);
  redeemed = λ db id user_id at (old, found, spent).
      let other : redeemable id old ≡ false = ground (arith, spent) in
      let still =
        find-update_where (with_fingerprint (lib.sha256_hex code)) (redeemable id)
          (redeem_row user_id at) (λ _. refl) db.card_keys found in
      (old, rw other at still, spent);
  event = λ db e p. p;
}

-- Once a card key has been redeemed, its code is refused as no longer available, to everybody and
-- after any further calls of the service, and the refusal changes nothing.
pub redeem_card_key_once :
    (lib : Libraries) (parse_uuid : Text → Option Uuid) (c c' : RedeemDraws)
    (claims claims' : AuthClaims) (code : Text) (db : Database) (e : Entitlement)
    (db' later : Database)
    → redeem_card_key lib c (ok claims) code db ≡ ok (e, db')
    → Calls lib parse_uuid db' later
    → commit (redeem_card_key lib c' (ok claims') code) later
      ≡ (later, err (conflict (text "card key is not available")))
redeem_card_key_once lib parse_uuid c c' claims claims' code db e db' later h calls =
    let r = redeem_card_key-Redeems lib c claims code db e db' h in
    let mine : redeemable r.row.card.id r.row ≡ true = ground (arith, r.was_available) in
    let again =
      find-update_where (with_fingerprint (lib.sha256_hex code)) (redeemable r.row.card.id)
        (redeem_row claims.sub c.redeemed_at) (λ _. refl) db.card_keys r.found in
    let spent : IsSpent lib code db' = (
      redeem_row claims.sub c.redeemed_at r.row,
      ap (find (with_fingerprint (lib.sha256_hex code))) r.cards ∙ (rw mine at again),
      refl,
    ) in
    let (row, found, taken) = Calls_keep lib parse_uuid (IsSpent-IsStable lib code) calls spent in
    redeem_card_key_unavailable lib c' claims' code later row found taken
