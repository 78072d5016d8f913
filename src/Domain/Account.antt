-- ===== src/Domain/Account.antt =====
-- crates/domain/src/lib.rs: users, orders, card keys, devices, entitlements and leases.
use Prim.Native.Nat.{min}
use ozon_rust_suite.Common.{ℕ, ◌+◌, ◌*◌, List, Option, none, Text, text}
use ozon_rust_suite.Domain.Task.{Uuid, Instant}

-- The ticks of a point in time are nanoseconds.
abbrev pub hours : ℕ → ℕ
hours n = n * 3600000000000

abbrev pub days : ℕ → ℕ
days n = n * 86400000000000

pub record Email : Type 0 where
  pub value : Text

pub record PhoneNumber : Type 0 where
  pub value : Text

pub record NebulaId : Type 0 where
  pub value : Text

pub data NebulaSource : Type 0 where
  skybridge local_dev : NebulaSource

pub data UserRole : Type 0 where
  user admin : UserRole

pub record User : Type 0 where
  pub id : Uuid
  pub tenant_id : Uuid
  pub nebula_id : NebulaId
  pub nebula_source : NebulaSource
  pub skybridge_user_id : Option Uuid
  pub email : Option Email
  pub phone : Option PhoneNumber
  pub name : Option Text
  pub password_hash : Text
  pub role : UserRole
  pub email_verified_at : Option Instant
  pub phone_verified_at : Option Instant
  pub created_at : Instant

pub data OrderStatus : Type 0 where
  pending_manual_payment pending_provider_payment confirmed cancelled : OrderStatus

pub data PaymentProvider : Type 0 where
  manual stripe alipay wechat_pay : PaymentProvider

-- `PlanCode` is its text. Amounts are never negative: the table `orders` has a check.
pub record Order : Type 0 where
  pub id : Uuid
  pub tenant_id : Uuid
  pub user_id : Uuid
  pub plan_code : Text
  pub status : OrderStatus
  pub payment_provider : PaymentProvider
  pub payment_reference : Text
  pub amount_minor : ℕ
  pub currency : Text
  pub checkout_session_id : Option Text
  pub payment_intent_id : Option Text
  pub paid_at : Option Instant
  pub created_at : Instant
  pub confirmed_at : Option Instant

abbrev pub standard_30d : Text
standard_30d = text "standard_30d"

pub data CardKeyStatus : Type 0 where
  available redeemed revoked : CardKeyStatus

pub record CardKey : Type 0 where
  pub id : Uuid
  pub tenant_id : Uuid
  pub plan_code : Text
  pub code_hash : Text
  pub code_fingerprint : Text
  pub duration_days : ℕ
  pub max_devices : ℕ
  pub status : CardKeyStatus
  pub redeemed_by : Option Uuid
  pub redeemed_at : Option Instant
  pub created_at : Instant

pub data DeviceStatus : Type 0 where
  active revoked : DeviceStatus

pub record Device : Type 0 where
  pub id : Uuid
  pub tenant_id : Uuid
  pub user_id : Uuid
  pub name : Text
  pub fingerprint_hash : Text
  pub status : DeviceStatus
  pub activated_at : Instant
  pub last_seen_at : Option Instant

pub data Feature : Type 0 where
  ozon_read ozon_write_mock draft_import1688_mock open_claw_bridge local_approval : Feature

pub record Entitlement : Type 0 where
  pub id : Uuid
  pub tenant_id : Uuid
  pub user_id : Uuid
  pub plan_code : Text
  pub source_card_key_id : Uuid
  pub features : List Feature
  pub expires_at : Instant
  pub revoked_at : Option Instant

pub record EntitlementLeaseSignature : Type 0 where
  pub alg : Text
  pub kid : Text
  pub issuer : Text
  pub audience : Text
  pub value : Text

pub record EntitlementLease : Type 0 where
  pub lease_id : Uuid
  pub tenant_id : Uuid
  pub user_id : Uuid
  pub device_id : Uuid
  pub entitlement_id : Uuid
  pub features : List Feature
  pub issued_at : Instant
  pub expires_at : Instant
  pub signature : Option EntitlementLeaseSignature

pub record EntitlementLeaseClaims : Type 0 where
  pub lease_id : Uuid
  pub tenant_id : Uuid
  pub user_id : Uuid
  pub device_id : Uuid
  pub entitlement_id : Uuid
  pub features : List Feature
  pub issued_at : Instant
  pub expires_at : Instant

-- `EntitlementLease::new`: `now` and `lease_id` are what the clock and the generator return.
unfoldable pub new_lease : Instant → Uuid → Uuid → Uuid → Uuid → Entitlement → EntitlementLease
new_lease now lease_id tenant_id user_id device_id entitlement = record {
  lease_id = lease_id;
  tenant_id = tenant_id;
  user_id = user_id;
  device_id = device_id;
  entitlement_id = entitlement.id;
  features = entitlement.features;
  issued_at = now;
  expires_at = min (now + hours 24) entitlement.expires_at;
  signature = none;
}

unfoldable pub claims : EntitlementLease → EntitlementLeaseClaims
claims lease = record {
  lease_id = lease.lease_id;
  tenant_id = lease.tenant_id;
  user_id = lease.user_id;
  device_id = lease.device_id;
  entitlement_id = lease.entitlement_id;
  features = lease.features;
  issued_at = lease.issued_at;
  expires_at = lease.expires_at;
}
