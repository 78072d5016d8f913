-- ===== src/Cloud/Service/Runs.antt =====
-- apps/cloud-api/src/main.rs: what every statement keeps, every run of calls of the service keeps.
use ozon_rust_suite.Common.{Option, Text}
use ozon_rust_suite.Domain.Task.{Uuid}
use ozon_rust_suite.Cloud.Libraries.{Libraries}
use ozon_rust_suite.Cloud.Database.{Database}
use ozon_rust_suite.Cloud.TestAccess.{handle_activate_device, handle_issue_lease}
use ozon_rust_suite.Cloud.Service.{
  Call, make_keys, redeem, order, attach, confirm, confirm_reference, stripe, wechat, activate,
  lease, revoke, sign_up, sign_in, sync, serve, Calls, none_more, one,
}
use ozon_rust_suite.Cloud.Service.Safe.{IsStable, commit_keeps}
use ozon_rust_suite.Cloud.Service.Keys.{
  create_card_keys-Keeps, redeem_card_key-Keeps, register-Keeps, login-Keeps,
}
use ozon_rust_suite.Cloud.Service.Webhooks.{
  create_order-Keeps, attach_checkout_session-Keeps, confirm_order-Keeps,
  confirm_order_by_reference-Keeps, stripe_webhook-Keeps, process_wechatpay_transaction-Keeps,
}
use ozon_rust_suite.Cloud.Service.Fleet.{
  activate_device-Keeps, issue_lease-Keeps, revoke_entitlement-Keeps, auth_skybridge_keeps,
  with_test_access_keeps,
}

module _ (lib : Libraries) (parse_uuid : Text → Option Uuid) {P : Database → Type 0}
    (st : IsStable P) where
  serve_keeps : (c : Call) (db : Database) → P db → P (serve lib parse_uuid c db)
  unfolding serve handle_activate_device handle_issue_lease
  serve_keeps (make_keys draws tenant stamp admin input) db p =
      commit_keeps _ db p (create_card_keys-Keeps lib st draws tenant stamp admin input)
  serve_keeps (redeem c auth code) db p =
      commit_keeps _ db p (redeem_card_key-Keeps lib st c auth code)
  serve_keeps (order config c auth code) db p =
      commit_keeps _ db p (create_order-Keeps st lib config c auth code)
  serve_keeps (attach id session) db p =
      commit_keeps _ db p (attach_checkout_session-Keeps st id session)
  serve_keeps (confirm at key stamp admin id) db p =
      commit_keeps _ db p (confirm_order-Keeps st lib at key stamp admin id)
  serve_keeps (confirm_reference at key stamp admin reference) db p =
      commit_keeps _ db p (confirm_order_by_reference-Keeps st lib at key stamp admin reference)
  serve_keeps (stripe c event session hash) db p =
      commit_keeps _ db p (stripe_webhook-Keeps st lib parse_uuid c event session hash)
  serve_keeps (wechat config c event t body) db p =
      commit_keeps _ db p (process_wechatpay_transaction-Keeps st lib config c event t body)
  serve_keeps (activate config g c auth input) db p =
      with_test_access_keeps st lib config g auth _ db (activate_device-Keeps st lib c auth input) p
  serve_keeps (lease config g c auth id) db p =
      with_test_access_keeps st lib config g auth _ db (issue_lease-Keeps st c auth id) p
  serve_keeps (revoke at stamp admin id) db p =
      commit_keeps _ db p (revoke_entitlement-Keeps st at stamp lib.uuid_debug admin id)
  serve_keeps (sign_up allow c input) db p =
      commit_keeps _ db p (register-Keeps lib st allow c input)
  serve_keeps (sign_in stamp input) db p = commit_keeps _ db p (login-Keeps lib st stamp input)
  serve_keeps (sync c stamp profile) db p = auth_skybridge_keeps st c stamp profile db p

  pub Calls_keep : {db db' : Database} → Calls lib parse_uuid db db' → P db → P db'
  Calls_keep none_more p = p
  Calls_keep (one {db} c rest) p = Calls_keep rest (serve_keeps c db p)
