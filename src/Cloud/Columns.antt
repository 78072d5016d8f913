-- ===== src/Cloud/Columns.antt =====
-- apps/cloud-api/src/main.rs: enums as text columns of the tables, and back.
pub mod Laws
use ozon_rust_suite.Common.{Text, text, text_eq, Result, ok, err, if◌then◌else◌}
use ozon_rust_suite.Domain.Account.{
  UserRole, NebulaSource, OrderStatus, PaymentProvider, CardKeyStatus, DeviceStatus, Feature,
}
use ozon_rust_suite.Cloud.Errors.{ApiError, internal}

unfoldable pub user_role_to_db : UserRole → Text
user_role_to_db UserRole.user = text "user"
user_role_to_db UserRole.admin = text "admin"

unfoldable pub user_role_from_db : Text → Result ApiError UserRole
user_role_from_db value =
    if text_eq value (text "user")
    then ok UserRole.user
    else if text_eq value (text "admin")
    then ok UserRole.admin
    else err (internal (text "invalid user role in database"))

unfoldable pub nebula_source_to_db : NebulaSource → Text
nebula_source_to_db NebulaSource.skybridge = text "skybridge"
nebula_source_to_db NebulaSource.local_dev = text "local_dev"

unfoldable pub nebula_source_from_db : Text → Result ApiError NebulaSource
nebula_source_from_db value =
    if text_eq value (text "skybridge")
    then ok NebulaSource.skybridge
    else if text_eq value (text "local_dev")
    then ok NebulaSource.local_dev
    else err (internal (text "invalid nebula source in database"))

unfoldable pub order_status_to_db : OrderStatus → Text
order_status_to_db OrderStatus.pending_manual_payment = text "pending_manual_payment"
order_status_to_db OrderStatus.pending_provider_payment = text "pending_provider_payment"
order_status_to_db OrderStatus.confirmed = text "confirmed"
order_status_to_db OrderStatus.cancelled = text "cancelled"

unfoldable pub order_status_from_db : Text → Result ApiError OrderStatus
order_status_from_db value =
    if text_eq value (text "pending_manual_payment")
    then ok OrderStatus.pending_manual_payment
    else if text_eq value (text "pending_provider_payment")
    then ok OrderStatus.pending_provider_payment
    else if text_eq value (text "confirmed")
    then ok OrderStatus.confirmed
    else if text_eq value (text "cancelled")
    then ok OrderStatus.cancelled
    else err (internal (text "invalid order status in database"))

unfoldable pub payment_provider_to_db : PaymentProvider → Text
payment_provider_to_db PaymentProvider.manual = text "manual"
payment_provider_to_db PaymentProvider.stripe = text "stripe"
payment_provider_to_db PaymentProvider.alipay = text "alipay"
payment_provider_to_db PaymentProvider.wechat_pay = text "wechat_pay"

unfoldable pub payment_provider_from_db : Text → Result ApiError PaymentProvider
payment_provider_from_db value =
    if text_eq value (text "manual")
    then ok PaymentProvider.manual
    else if text_eq value (text "stripe")
    then ok PaymentProvider.stripe
    else if text_eq value (text "alipay")
    then ok PaymentProvider.alipay
    else if text_eq value (text "wechat_pay")
    then ok PaymentProvider.wechat_pay
    else err (internal (text "invalid payment provider in database"))

unfoldable pub card_key_status_to_db : CardKeyStatus → Text
card_key_status_to_db CardKeyStatus.available = text "available"
card_key_status_to_db CardKeyStatus.redeemed = text "redeemed"
card_key_status_to_db CardKeyStatus.revoked = text "revoked"

unfoldable pub card_key_status_from_db : Text → Result ApiError CardKeyStatus
card_key_status_from_db value =
    if text_eq value (text "available")
    then ok CardKeyStatus.available
    else if text_eq value (text "redeemed")
    then ok CardKeyStatus.redeemed
    else if text_eq value (text "revoked")
    then ok CardKeyStatus.revoked
    else err (internal (text "invalid card key status in database"))

unfoldable pub device_status_to_db : DeviceStatus → Text
device_status_to_db DeviceStatus.active = text "active"
device_status_to_db DeviceStatus.revoked = text "revoked"

unfoldable pub device_status_from_db : Text → Result ApiError DeviceStatus
device_status_from_db value =
    if text_eq value (text "active")
    then ok DeviceStatus.active
    else if text_eq value (text "revoked")
    then ok DeviceStatus.revoked
    else err (internal (text "invalid device status in database"))

unfoldable pub feature_to_db : Feature → Text
feature_to_db Feature.ozon_read = text "ozon_read"
feature_to_db Feature.ozon_write_mock = text "ozon_write_mock"
feature_to_db Feature.draft_import1688_mock = text "draft_import1688_mock"
feature_to_db Feature.open_claw_bridge = text "open_claw_bridge"
feature_to_db Feature.local_approval = text "local_approval"

unfoldable pub feature_from_db : Text → Result ApiError Feature
feature_from_db value =
    if text_eq value (text "ozon_read")
    then ok Feature.ozon_read
    else if text_eq value (text "ozon_write_mock")
    then ok Feature.ozon_write_mock
    else if text_eq value (text "draft_import1688_mock")
    then ok Feature.draft_import1688_mock
    else if text_eq value (text "open_claw_bridge")
    then ok Feature.open_claw_bridge
    else if text_eq value (text "local_approval")
    then ok Feature.local_approval
    else err (internal (text "invalid feature in database"))
