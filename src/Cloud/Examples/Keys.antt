-- ===== src/Cloud/Examples/Keys.antt =====
-- Runs of the cloud service on a small database: card keys.
use ozon_rust_suite.Common.{◌≡◌, refl, Option, none, ok, err, Text, text, text_eq}
use ozon_rust_suite.Common.Rows.{find, update_where}
use ozon_rust_suite.Domain.Task.{Uuid}
use ozon_rust_suite.Domain.Account.{Entitlement}
use ozon_rust_suite.Cloud.Errors.{conflict}
use ozon_rust_suite.Cloud.Database.{Database, insert_audit_row, insert_entitlement}
use ozon_rust_suite.Cloud.Tx.{statement, insert_audit, commit}
use ozon_rust_suite.Cloud.CardKeys.{
  RedeemDraws, redeem_card_key, store_redemption, mark_card_key_redeemed,
}
use ozon_rust_suite.Cloud.CardKeys.Redemption.{
  Redeems, redeem_card_key-Redeems, redeem_card_key_once,
}
use ozon_rust_suite.Cloud.Service.{serve, redeem, one, none_more}
use ozon_rust_suite.Cloud.Examples.{lib, bearer, live_entitlement, db, stamp, after}

abbrev redemption : RedeemDraws
redemption = record { redeemed_at = 10; entitlement_id = 9; stamp = stamp }

abbrev redeeming : Database × Entitlement
redeeming = after live_entitlement (redeem_card_key lib redemption (ok bearer) (text "code"))

redeemed_code :
    redeem_card_key lib redemption (ok bearer) (text "code") db ≡ ok (redeeming.1, redeeming.0)
unfolding redeem_card_key store_redemption mark_card_key_redeemed statement insert_entitlement
    insert_audit insert_audit_row find update_where text_eq
redeemed_code = refl

abbrev no_uuid : Text → Option Uuid
no_uuid _ = none

-- The tables after another call, with a code that no key has.
abbrev later : Database
later = serve lib no_uuid (redeem redemption (ok bearer) (text "other")) redeeming.0

redeem_card_key_once_example :
    commit (redeem_card_key lib redemption (ok bearer) (text "code")) later
    ≡ (later, err (conflict (text "card key is not available")))
redeem_card_key_once_example =
    redeem_card_key_once lib no_uuid redemption redemption bearer bearer (text "code") db
      redeeming.1 redeeming.0 later redeemed_code
      (one (redeem redemption (ok bearer) (text "other")) none_more)

redeem_card_key-Redeems_example :
    Redeems lib redemption bearer (text "code") db redeeming.1 redeeming.0
redeem_card_key-Redeems_example =
    redeem_card_key-Redeems lib redemption bearer (text "code") db redeeming.1 redeeming.0
      redeemed_code
