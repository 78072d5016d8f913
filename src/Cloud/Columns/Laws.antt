-- ===== src/Cloud/Columns/Laws.antt =====
-- apps/cloud-api/src/main.rs: what is stored in a column is read back.
use ozon_rust_suite.Common.{◌≡◌, refl, ◌↔◌, ok, text_eq, arith, text_eq_iff, text, Text}
use ozon_rust_suite.Domain.Account.{
  UserRole, NebulaSource, OrderStatus, PaymentProvider, CardKeyStatus, DeviceStatus, Feature,
}
use ozon_rust_suite.Cloud.Columns.{
  user_role_to_db, user_role_from_db, nebula_source_to_db, nebula_source_from_db,
  order_status_to_db, order_status_from_db, payment_provider_to_db, payment_provider_from_db,
  card_key_status_to_db, card_key_status_from_db, device_status_to_db, device_status_from_db,
  feature_to_db, feature_from_db,
}

user_role_round_trip : (x : UserRole) → user_role_from_db (user_role_to_db x) ≡ ok x
unfolding user_role_to_db user_role_from_db text_eq
user_role_round_trip UserRole.user = refl
user_role_round_trip UserRole.admin = refl

user_role_iff :
    (value : Text) (x : UserRole) → (user_role_from_db value ≡ ok x) ↔ (value ≡ user_role_to_db x)
unfolding user_role_to_db user_role_from_db
user_role_iff value x = (
  λ h. ground (arith, text_eq_iff value (text "user"), text_eq_iff value (text "admin")),
  λ e. rw e (user_role_round_trip x),
)

nebula_source_round_trip : (x : NebulaSource) → nebula_source_from_db (nebula_source_to_db x) ≡ ok x
unfolding nebula_source_to_db nebula_source_from_db text_eq
nebula_source_round_trip NebulaSource.skybridge = refl
nebula_source_round_trip NebulaSource.local_dev = refl

nebula_source_iff :
    (value : Text) (x : NebulaSource)
    → (nebula_source_from_db value ≡ ok x) ↔ (value ≡ nebula_source_to_db x)
unfolding nebula_source_to_db nebula_source_from_db
nebula_source_iff value x = (
  λ h. ground (arith, text_eq_iff value (text "skybridge"), text_eq_iff value (text "local_dev")),
  λ e. rw e (nebula_source_round_trip x),
)

order_status_round_trip : (x : OrderStatus) → order_status_from_db (order_status_to_db x) ≡ ok x
unfolding order_status_to_db order_status_from_db text_eq
order_status_round_trip OrderStatus.pending_manual_payment = refl
order_status_round_trip OrderStatus.pending_provider_payment = refl
order_status_round_trip OrderStatus.confirmed = refl
order_status_round_trip OrderStatus.cancelled = refl

order_status_iff :
    (value : Text) (x : OrderStatus)
    → (order_status_from_db value ≡ ok x) ↔ (value ≡ order_status_to_db x)
unfolding order_status_to_db order_status_from_db
order_status_iff value x = (
  λ h. ground (
    arith,
    text_eq_iff value (text "pending_manual_payment"),
    text_eq_iff value (text "pending_provider_payment"),
    text_eq_iff value (text "confirmed"),
    text_eq_iff value (text "cancelled"),
  ),
  λ e. rw e (order_status_round_trip x),
)

payment_provider_round_trip :
    (x : PaymentProvider) → payment_provider_from_db (payment_provider_to_db x) ≡ ok x
unfolding payment_provider_to_db payment_provider_from_db text_eq
payment_provider_round_trip PaymentProvider.manual = refl
payment_provider_round_trip PaymentProvider.stripe = refl
payment_provider_round_trip PaymentProvider.alipay = refl
payment_provider_round_trip PaymentProvider.wechat_pay = refl

payment_provider_iff :
    (value : Text) (x : PaymentProvider)
    → (payment_provider_from_db value ≡ ok x) ↔ (value ≡ payment_provider_to_db x)
unfolding payment_provider_to_db payment_provider_from_db
payment_provider_iff value x = (
  λ h. ground (
    arith,
    text_eq_iff value (text "manual"),
    text_eq_iff value (text "stripe"),
    text_eq_iff value (text "alipay"),
    text_eq_iff value (text "wechat_pay"),
  ),
  λ e. rw e (payment_provider_round_trip x),
)

card_key_status_round_trip :
    (x : CardKeyStatus) → card_key_status_from_db (card_key_status_to_db x) ≡ ok x
unfolding card_key_status_to_db card_key_status_from_db text_eq
card_key_status_round_trip CardKeyStatus.available = refl
card_key_status_round_trip CardKeyStatus.redeemed = refl
card_key_status_round_trip CardKeyStatus.revoked = refl

card_key_status_iff :
    (value : Text) (x : CardKeyStatus)
    → (card_key_status_from_db value ≡ ok x) ↔ (value ≡ card_key_status_to_db x)
unfolding card_key_status_to_db card_key_status_from_db
card_key_status_iff value x = (
  λ h. ground (
    arith,
    text_eq_iff value (text "available"),
    text_eq_iff value (text "redeemed"),
    text_eq_iff value (text "revoked"),
  ),
  λ e. rw e (card_key_status_round_trip x),
)

device_status_round_trip : (x : DeviceStatus) → device_status_from_db (device_status_to_db x) ≡ ok x
unfolding device_status_to_db device_status_from_db text_eq
device_status_round_trip DeviceStatus.active = refl
device_status_round_trip DeviceStatus.revoked = refl

device_status_iff :
    (value : Text) (x : DeviceStatus)
    → (device_status_from_db value ≡ ok x) ↔ (value ≡ device_status_to_db x)
unfolding device_status_to_db device_status_from_db
device_status_iff value x = (
  λ h. ground (arith, text_eq_iff value (text "active"), text_eq_iff value (text "revoked")),
  λ e. rw e (device_status_round_trip x),
)

feature_round_trip : (x : Feature) → feature_from_db (feature_to_db x) ≡ ok x
unfolding feature_to_db feature_from_db text_eq
feature_round_trip Feature.ozon_read = refl
feature_round_trip Feature.ozon_write_mock = refl
feature_round_trip Feature.draft_import1688_mock = refl
feature_round_trip Feature.open_claw_bridge = refl
feature_round_trip Feature.local_approval = refl

feature_iff :
    (value : Text) (x : Feature) → (feature_from_db value ≡ ok x) ↔ (value ≡ feature_to_db x)
unfolding feature_to_db feature_from_db
feature_iff value x = (
  λ h. ground (
    arith,
    text_eq_iff value (text "ozon_read"),
    text_eq_iff value (text "ozon_write_mock"),
    text_eq_iff value (text "draft_import1688_mock"),
    text_eq_iff value (text "open_claw_bridge"),
    text_eq_iff value (text "local_approval"),
  ),
  λ e. rw e (feature_round_trip x),
)

-- For each of the seven enums kept as text, the decoder returns a value exactly on the text that the
-- encoder writes for it.
pub decode_iff_encode :
    (value : Text)
    → ((x : UserRole) → (user_role_from_db value ≡ ok x) ↔ (value ≡ user_role_to_db x))
      × ((x : NebulaSource)
          → (nebula_source_from_db value ≡ ok x) ↔ (value ≡ nebula_source_to_db x))
      × ((x : OrderStatus) → (order_status_from_db value ≡ ok x) ↔ (value ≡ order_status_to_db x))
      × ((x : PaymentProvider)
          → (payment_provider_from_db value ≡ ok x) ↔ (value ≡ payment_provider_to_db x))
      × ((x : CardKeyStatus)
          → (card_key_status_from_db value ≡ ok x) ↔ (value ≡ card_key_status_to_db x))
      × ((x : DeviceStatus)
          → (device_status_from_db value ≡ ok x) ↔ (value ≡ device_status_to_db x))
      × ((x : Feature) → (feature_from_db value ≡ ok x) ↔ (value ≡ feature_to_db x))
decode_iff_encode value = (
  user_role_iff value,
  nebula_source_iff value,
  order_status_iff value,
  payment_provider_iff value,
  card_key_status_iff value,
  device_status_iff value,
  feature_iff value,
)
