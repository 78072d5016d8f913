-- ===== src/Cloud/Service.antt =====
-- apps/cloud-api/src/main.rs: the calls of the service that change its tables, in any order.
pub mod Safe
pub mod Keys
pub mod Webhooks
pub mod Fleet
pub mod Runs
use ozon_rust_suite.Common.{ℕ, Bool, Option, Text, Result}
use ozon_rust_suite.Domain.Task.{Uuid, Instant}
use ozon_rust_suite.Cloud.Errors.{ApiError}
use ozon_rust_suite.Cloud.Libraries.{Libraries}
use ozon_rust_suite.Cloud.Database.{Database}
use ozon_rust_suite.Cloud.Tx.{Stamp, commit}
use ozon_rust_suite.Cloud.CardKeys.{
  AuthClaims, KeyDraws, RedeemDraws, CreateCardKeysRequest, create_card_keys, redeem_card_key,
}
use ozon_rust_suite.Cloud.Orders.{
  PaymentConfig, OrderDraws, create_order, attach_checkout_session, confirm_order,
  confirm_order_by_reference,
}
use ozon_rust_suite.Cloud.Payments.{
  WebhookDraws, StripeEvent, StripeSession, WechatEvent, WechatTransaction, stripe_webhook,
  process_wechatpay_transaction,
}
use ozon_rust_suite.Cloud.Devices.{DeviceDraws, ActivateDeviceRequest, revoke_entitlement}
use ozon_rust_suite.Cloud.TestAccess.{
  TestAccessConfig, GrantDraws, handle_activate_device, handle_issue_lease,
}
use ozon_rust_suite.Cloud.Accounts.{RegisterDraws, RegisterRequest, LoginRequest, register, login}
use ozon_rust_suite.Cloud.Skybridge.{LinkDraws, SkybridgeProfile, auth_skybridge}

-- A call, with its request, its configuration, the verdict of its authorisation check and its draws.
pub data Call : Type 0 where
  make_keys :
      (ℕ → KeyDraws) → Uuid → Stamp → Result ApiError (Unit {0}) → CreateCardKeysRequest → Call
  redeem : RedeemDraws → Result ApiError AuthClaims → Text → Call
  order : PaymentConfig → OrderDraws → Result ApiError AuthClaims → Option Text → Call
  attach : Uuid → Text → Call
  confirm : Instant → KeyDraws → Stamp → Result ApiError (Unit {0}) → Uuid → Call
  confirm_reference : Instant → KeyDraws → Stamp → Result ApiError (Unit {0}) → Text → Call
  stripe : WebhookDraws → StripeEvent → Option StripeSession → Text → Call
  wechat : PaymentConfig → WebhookDraws → WechatEvent → WechatTransaction → Text → Call
  activate :
      TestAccessConfig
      → GrantDraws
      → DeviceDraws
      → Result ApiError AuthClaims
      → ActivateDeviceRequest
      → Call
  lease : TestAccessConfig → GrantDraws → DeviceDraws → Result ApiError AuthClaims → Uuid → Call
  revoke : Instant → Stamp → Result ApiError (Unit {0}) → Uuid → Call
  sign_up : Bool → RegisterDraws → RegisterRequest → Call
  sign_in : Stamp → LoginRequest → Call
  sync : LinkDraws → Stamp → SkybridgeProfile → Call

module _ (lib : Libraries) (parse_uuid : Text → Option Uuid) where
  -- The tables after a call, which is rolled back where it fails.
  unfoldable pub serve : Call → Database → Database
  serve (make_keys draws tenant stamp admin input) db =
      (commit (create_card_keys lib draws tenant stamp admin input) db).0
  serve (redeem c auth code) db = (commit (redeem_card_key lib c auth code) db).0
  serve (order config c auth code) db = (commit (create_order lib config c auth code) db).0
  serve (attach id session) db = (commit (attach_checkout_session id session) db).0
  serve (confirm at key stamp admin id) db = (commit (confirm_order lib at key stamp admin id) db).0
  serve (confirm_reference at key stamp admin reference) db =
      (commit (confirm_order_by_reference lib at key stamp admin reference) db).0
  serve (stripe c event session hash) db =
      (commit (stripe_webhook lib parse_uuid c event session hash) db).0
  serve (wechat config c event t body) db =
      (commit (process_wechatpay_transaction lib config c event t body) db).0
  serve (activate config g c auth input) db =
      (handle_activate_device lib config g c auth input db).0
  serve (lease config g c auth id) db = (handle_issue_lease lib config g c auth id db).0
  serve (revoke at stamp admin id) db =
      (commit (revoke_entitlement at stamp lib.uuid_debug admin id) db).0
  serve (sign_up allow c input) db = (commit (register lib allow c input) db).0
  serve (sign_in stamp input) db = (commit (login lib stamp input) db).0
  serve (sync c stamp profile) db = (auth_skybridge c stamp profile db).0

  -- What any calls lead from one database to.
  pub data Calls : Database → Database → Type 0 where
    none_more : {db : Database} → Calls db db
    one : {db db' : Database} (c : Call) → Calls (serve c db) db' → Calls db db'
