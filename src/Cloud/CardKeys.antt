-- ===== src/Cloud/CardKeys.antt =====
-- apps/cloud-api/src/main.rs: card keys and the entitlements that they are redeemed for.
pub mod Redemption
use Prim.Native.Nat.{min, max}
use ozon_rust_suite.Common.{
  ℕ, zero, suc, ◌+◌, ◌-◌, ◌≤◌, Bool, true, false, not, ◌&&◌, ◌||◌, List, [], ◌∷◌, ◌++◌, Option,
  none, some, Text, text, text_eq, Result, ok, err, ltb, leb, ◌==◌, if◌then◌else◌, require, ok_or,
}
use ozon_rust_suite.Common.Rows.{find, update_where}
use ozon_rust_suite.Common.Unicode.{CaseTables, to_uppercase, decimal}
use ozon_rust_suite.Domain.Task.{Uuid, Instant}
use ozon_rust_suite.Domain.Account.{
  days, UserRole, CardKey, CardKeyStatus, available, redeemed, Entitlement, Feature, ozon_read,
  ozon_write_mock, draft_import1688_mock, open_claw_bridge, local_approval, standard_30d,
}
use ozon_rust_suite.Cloud.Errors.{
  ApiError, bad_request, not_found, conflict, internal, unauthorized,
}
use ozon_rust_suite.Cloud.Columns.{card_key_status_to_db}
use ozon_rust_suite.Cloud.Libraries.{Libraries}
use ozon_rust_suite.Cloud.Database.{
  Database, CardRow, SqlError, holds, has_user, insert_card_key, insert_tenant, insert_entitlement,
}
use ozon_rust_suite.Cloud.Tx.{
  Tx, ◌>>=◌, ◌>>◌, pure, fail, lift, read, db_internal, map_unique_conflict, statement, Stamp,
  audit, insert_audit,
}

-- What a valid token says of its bearer.
pub record AuthClaims : Type 0 where
  pub sub : Uuid
  pub tenant_id : Uuid
  pub role : UserRole
  pub exp : ℕ

abbrev pub default_features : List Feature
default_features =
    ozon_read ∷ ozon_write_mock ∷ draft_import1688_mock ∷ open_claw_bridge ∷ local_approval ∷ []

abbrev pub validate_card_key_limits : ℕ → ℕ → Result ApiError (Unit {0})
validate_card_key_limits duration_days max_devices =
    if duration_days == 0
    then err (bad_request (text "duration_days must be greater than 0"))
    else if max_devices == 0
    then err (bad_request (text "max_devices must be greater than 0"))
    else ok tt

-- What the generators and the clock give to a new card key.
pub record KeyDraws : Type 0 where
  pub random : Text
  pub id : Uuid
  pub salt : Text
  pub created_at : Instant

pub record GeneratedCardKey : Type 0 where
  pub card_key : CardKey
  pub plain_code : Text

pub record CreateCardKeysRequest : Type 0 where
  pub count : ℕ
  pub plan_code : Option Text
  pub duration_days : Option ℕ
  pub max_devices : Option ℕ

-- `unwrap_or`.
abbrev pub get_or {ℓ} : {A : Type ℓ} → A → Option A → A
get_or d none = d
get_or d (some a) = a

-- `mark_card_key_redeemed`: only an available key is changed.
abbrev pub is_available : CardKeyStatus → Bool
is_available available = true
is_available _ = false

abbrev pub redeemable : Uuid → CardRow → Bool
redeemable id r = r.card.id == id && is_available r.card.status

abbrev pub redeem_row : Uuid → Instant → CardRow → CardRow
redeem_row user_id at r = record r {
  card = record r.card { status = redeemed; redeemed_by = some user_id; redeemed_at = some at };
}

unfoldable pub mark_card_key_redeemed : Uuid → Uuid → Instant → Tx (Unit {0})
mark_card_key_redeemed card_key_id user_id at db =
    elim (find (redeemable card_key_id) db.card_keys) [
      | none ↦ err (conflict (text "card key is not available"))
      | some _ ↦
          if has_user db user_id
          then ok (
            tt,
            record db {
              card_keys =
                  update_where (redeemable card_key_id) (redeem_row user_id at) db.card_keys;
            },
          )
          else err (internal (text "database operation failed"))
    ]

abbrev pub with_fingerprint : Text → CardRow → Bool
with_fingerprint fingerprint r = text_eq r.card.code_fingerprint fingerprint

-- What a redemption draws.
pub record RedeemDraws : Type 0 where
  pub redeemed_at : Instant
  pub entitlement_id : Uuid
  pub stamp : Stamp

module _ (lib : Libraries) where
  open lib use {sha256_hex, hash_password, verify_password, uuid_debug, tables}

  unfoldable pub generate_card_key :
      KeyDraws → Text → Uuid → ℕ → ℕ → Result ApiError GeneratedCardKey
  generate_card_key c plan_code tenant_id duration_days max_devices =
      let plain_code = text "ORS-" ++ (to_uppercase tables plan_code ++ (text "-" ++ c.random)) in
      elim (hash_password c.salt plain_code) [
        | none ↦ err (internal (text "failed to hash secret"))
        | some code_hash ↦ ok (record {
          card_key = record {
            id = c.id;
            tenant_id = tenant_id;
            plan_code = plan_code;
            code_hash = code_hash;
            code_fingerprint = sha256_hex plain_code;
            duration_days = duration_days;
            max_devices = max_devices;
            status = available;
            redeemed_by = none;
            redeemed_at = none;
            created_at = c.created_at;
          };
          plain_code = plain_code;
        })
      ]

  -- `verify_password(…)?`
  abbrev pub verify : Text → Text → Result ApiError (Unit {0})
  verify hash code = require (verify_password hash code) (unauthorized (text "invalid credentials"))

  -- The `for` loop of `create_card_keys`: `n` rounds are left, and `i` are done.
  unfoldable pub create_rounds : (ℕ → KeyDraws) → ℕ → ℕ → Text → Uuid → ℕ → ℕ → Tx (List Text)
  create_rounds draws zero i plan_code tenant_id duration_days max_devices = pure []
  create_rounds draws (suc n) i plan_code tenant_id duration_days max_devices = do
    generated ← lift (generate_card_key (draws i) plan_code tenant_id duration_days max_devices)
    statement db_internal (insert_card_key generated.card_key none)
    codes ← create_rounds draws n (i + 1) plan_code tenant_id duration_days max_devices
    pure (generated.plain_code ∷ codes)

  -- `create_card_keys`. The guards before `begin` touch no table.
  unfoldable pub create_card_keys :
      (ℕ → KeyDraws)
      → Uuid
      → Stamp
      → Result ApiError (Unit {0})
      → CreateCardKeysRequest
      → Tx (List Text)
  create_card_keys draws tenant_id stamp admin input = do
    lift admin
    let count = max 1 (min 50 input.count)
    let plan_code = get_or standard_30d input.plan_code
    let duration_days = get_or 30 input.duration_days
    let max_devices = get_or 1 input.max_devices
    lift (validate_card_key_limits duration_days max_devices)
    statement db_internal (insert_tenant tenant_id)
    codes ← create_rounds draws count 0 plan_code tenant_id duration_days max_devices
    insert_audit (
        audit stamp (some tenant_id) (text "admin") (text "card_keys.created") (text "card_keys")
          (decimal count ++ text " card keys created"))
    pure codes

  -- The writes of `redeem_card_key`.
  unfoldable pub store_redemption : RedeemDraws → AuthClaims → CardKey → Tx Entitlement
  store_redemption c claims card = do
    let entitlement : Entitlement = record {
      id = c.entitlement_id;
      tenant_id = claims.tenant_id;
      user_id = claims.sub;
      plan_code = card.plan_code;
      source_card_key_id = card.id;
      features = default_features;
      expires_at = c.redeemed_at + days card.duration_days;
      revoked_at = none;
    }
    mark_card_key_redeemed card.id claims.sub c.redeemed_at
    statement
        (map_unique_conflict (text "uq_entitlements_source_card_key")
          (text "card key is already redeemed"))
        (insert_entitlement entitlement)
    insert_audit (
        audit c.stamp (some claims.tenant_id)
          (text "UserId(" ++ (uuid_debug claims.sub ++ text ")")) (text "card_key.redeemed")
          (text "CardKeyId(" ++ (uuid_debug card.id ++ text ")")) (text "card key redeemed"))
    pure entitlement

  -- The transaction of `redeem_card_key`.
  unfoldable pub redeem_card_key : RedeemDraws → Result ApiError AuthClaims → Text → Tx Entitlement
  redeem_card_key c auth code = do
    claims ← lift auth
    row ← read (λ db. find (with_fingerprint (sha256_hex code)) db.card_keys)
    found ← lift (ok_or row (not_found (text "card key not found")))
    lift (require (is_available found.card.status) (conflict (text "card key is not available")))
    lift (verify found.card.code_hash code)
    store_redemption c claims found.card
