-- ===== src/Cloud/Examples.antt =====
-- A small database of the cloud service, and libraries that compute.
mod Keys
mod Webhooks
mod Devices
mod Accounts
use ozon_rust_suite.Common.{
  ◌≡◌, refl, text_eq_refl, arith, true, false, none, some, ok, err, text, text_eq, [], ◌∷◌, Text,
  Option, Bool, if◌then◌else◌,
}
use ozon_rust_suite.Common.Rows.{find, update_where, count_where}
use ozon_rust_suite.Common.Unicode.{CaseTables, trim, is_whitespace}
use ozon_rust_suite.Domain.Task.{Uuid}
use ozon_rust_suite.Domain.Account.{
  User, UserRole, NebulaSource, Order, OrderStatus, PaymentProvider, CardKeyStatus, Device,
  DeviceStatus, Entitlement, EntitlementLease, standard_30d, new_lease,
}
use ozon_rust_suite.Cloud.Errors.{conflict, internal}
use ozon_rust_suite.Cloud.Libraries.{Libraries}
use ozon_rust_suite.Cloud.Database.{
  Database, CardRow, insert_audit_row, insert_entitlement, insert_card_key,
  insert_payment_event_row,
}
use ozon_rust_suite.Cloud.Tx.{Tx, Stamp, statement, insert_audit, commit}
use ozon_rust_suite.Cloud.CardKeys.{
  AuthClaims, RedeemDraws, default_features, redeem_card_key, store_redemption,
  mark_card_key_redeemed,
}
use ozon_rust_suite.Cloud.CardKeys.Redemption.{
  Redeems, redeem_card_key-Redeems, redeem_card_key_once,
}
use ozon_rust_suite.Cloud.Columns.{payment_provider_from_db, payment_provider_to_db}
use ozon_rust_suite.Cloud.Columns.Laws.{decode_iff_encode}
use ozon_rust_suite.Cloud.Orders.{
  ConfiguredPaymentProvider, PaymentConfig, OrderDraws, create_order, update_order,
  confirm_provider_order, provision_paid_order_entitlement, store_provision,
  fulfillment_terms_for_plan, plan_code_of,
}
use ozon_rust_suite.Cloud.CardKeys.{generate_card_key}
use ozon_rust_suite.Cloud.Payments.{
  StripeSession, StripeEvent, WechatEvent, WechatTransaction, WebhookDraws, insert_payment_event,
  validate_stripe_session_matches_order, required_wechat_config, check_wechat_transaction,
  validate_wechatpay_transaction_for_order, settle_order, settle_stripe_session,
  settle_wechat_order, process_wechatpay_transaction, stripe_session_order_id,
  fulfill_stripe_checkout_session,
}
use ozon_rust_suite.Cloud.Payments.Events.{StripeOutcome, fulfill-StripeOutcome}
use ozon_rust_suite.Cloud.Payments.Wechat.{WechatOutcome, process-WechatOutcome}
use ozon_rust_suite.Cloud.Payments.Repeats.{fulfill_stripe_again}
use ozon_rust_suite.Cloud.Payments.Refusals.{create_order_wechat, fulfill_stripe_unknown}
use ozon_rust_suite.Cloud.Devices.{
  DeviceDraws, ActivateDeviceRequest, first_of, best_from, find_active_entitlement,
  count_active_devices_for_user, find_device_by_fingerprint, find_active_device,
  lock_user_for_update, upsert_device, enforce_device_limit_for_lease, touch_device_last_seen,
  issue_lease, store_device, device_id_for, activate_device,
}
use ozon_rust_suite.Cloud.Devices.Leases.{Leases, issue_lease-Leases}
use ozon_rust_suite.Cloud.Devices.Limits.{KeepsLimit, activate_device-KeepsLimit}
use ozon_rust_suite.Cloud.TestAccess.{
  TestAccessConfig, GrantDraws, test_full_access_matches, test_full_access_candidates,
  has_active_full_access_entitlement, is_full_access, store_grant,
  ensure_test_full_access_entitlement,
}
use ozon_rust_suite.Cloud.TestAccess.Grants.{GrantOutcome, ensure_test_full_access_outcome}
use ozon_rust_suite.Domain.Identity.{parse_email, check_email, split, split_once, parse_nebula_id}
use ozon_rust_suite.Common.Unicode.{to_lowercase, to_uppercase}
use ozon_rust_suite.Cloud.Database.{insert_tenant}
use ozon_rust_suite.Cloud.Accounts.{
  RegisterRequest, LoginIdentity, RegisterDraws, identifies, requested_login_method,
  registration_identity, login_identity, find_user_by_login_identity, insert_user, new_user,
  generate_nebula_id, create_unique_nebula_id, password_hash_of, store_user, register, login,
}
use ozon_rust_suite.Cloud.Accounts.Logins.{same_credentials, login_stored}
use ozon_rust_suite.Cloud.Skybridge.{
  SkybridgeProfile, LinkDraws, find_user_by_skybridge_user_id, linked_user, insert_linked_user,
  upsert_skybridge_user,
}
use ozon_rust_suite.Cloud.Skybridge.Links.{LinkOutcome}

abbrev tables : CaseTables
tables = record { lower_other = λ _ c _. c ∷ []; upper_other = λ c. c ∷ [] }

-- Digests and hashes that keep their text.
abbrev pub lib : Libraries
lib = record {
  sha256_hex = λ s. s;
  hash_password = λ _ s. some s;
  verify_password = text_eq;
  uuid_debug = λ _. text "uuid";
  uuid_simple = λ _. text "uuid";
  new_v5 = λ _ _. 900;
  tables = tables;
}

abbrev pub bearer : AuthClaims
bearer = record { sub = 2; tenant_id = 1; role = UserRole.user; exp = 100 }

abbrev buyer : User
buyer = record {
  id = 2;
  tenant_id = 1;
  nebula_id = record { value = text "nebula-1" };
  nebula_source = NebulaSource.skybridge;
  skybridge_user_id = none;
  email = none;
  phone = none;
  name = none;
  password_hash = [];
  role = UserRole.user;
  email_verified_at = none;
  phone_verified_at = none;
  created_at = 0;
}

abbrev key : Uuid → Text → CardKeyStatus → CardRow
key id code status = record {
  card = record {
    id = id;
    tenant_id = 1;
    plan_code = standard_30d;
    code_hash = code;
    code_fingerprint = code;
    duration_days = 30;
    max_devices = 2;
    status = status;
    redeemed_by = none;
    redeemed_at = none;
    created_at = 0;
  };
  order_id = none;
}

abbrev order_of : PaymentProvider → Uuid → Text → Order
order_of provider id reference = record {
  id = id;
  tenant_id = 1;
  user_id = 2;
  plan_code = standard_30d;
  status = OrderStatus.pending_provider_payment;
  payment_provider = provider;
  payment_reference = reference;
  amount_minor = 990;
  currency = text "cny";
  checkout_session_id = some reference;
  payment_intent_id = none;
  paid_at = none;
  created_at = 0;
  confirmed_at = none;
}

abbrev pub live_entitlement : Entitlement
live_entitlement = record {
  id = 5;
  tenant_id = 1;
  user_id = 2;
  plan_code = standard_30d;
  source_card_key_id = 6;
  features = default_features;
  expires_at = 1000;
  revoked_at = none;
}

abbrev pub laptop : Device
laptop = record {
  id = 8;
  tenant_id = 1;
  user_id = 2;
  name = text "laptop";
  fingerprint_hash = text "laptop";
  status = DeviceStatus.active;
  activated_at = 0;
  last_seen_at = none;
}

abbrev pub db : Database
db = record {
  tenants = 1 ∷ [];
  users = buyer ∷ [];
  orders =
      order_of PaymentProvider.stripe 3 (text "session")
      ∷ order_of PaymentProvider.wechat_pay 4 (text "trade")
      ∷ [];
  card_keys =
      key 6 (text "old") CardKeyStatus.redeemed ∷ key 7 (text "code") CardKeyStatus.available ∷ [];
  devices = laptop ∷ [];
  entitlements = live_entitlement ∷ [];
  payment_events = [];
  audit_events = [];
}

abbrev pub stamp : Stamp
stamp = record { id = 50; at = 10 }

-- What a run returns and leaves, when it goes through.
abbrev pub after : {A : Type 0} → A → Tx A → Database × A
after d run = elim (run db) [ ok (a, db') ↦ (db', a) | err _ ↦ (db, d) ]
