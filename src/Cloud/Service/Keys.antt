-- ===== src/Cloud/Service/Keys.antt =====
-- apps/cloud-api/src/main.rs: the transactions on card keys and accounts keep what statements keep.
use ozon_rust_suite.Common.{ℕ, ◌+◌, zero, suc, [], none, Text, Result, Bool}
use ozon_rust_suite.Domain.Task.{Uuid}
use ozon_rust_suite.Domain.Account.{CardKey, User}
use ozon_rust_suite.Cloud.Errors.{ApiError}
use ozon_rust_suite.Cloud.Libraries.{Libraries}
use ozon_rust_suite.Cloud.Database.{Database, insert_card_key}
use ozon_rust_suite.Cloud.Tx.{Stamp, lift, statement, db_internal}
use ozon_rust_suite.Cloud.CardKeys.{
  AuthClaims, KeyDraws, RedeemDraws, CreateCardKeysRequest, generate_card_key, create_rounds,
  create_card_keys, store_redemption, redeem_card_key,
}
use ozon_rust_suite.Cloud.Accounts.{
  RegisterDraws, RegisterRequest, LoginRequest, store_user, register, login,
}
use ozon_rust_suite.Cloud.Service.Safe.{
  IsStable, Keeps, bind-Keeps, then-Keeps, read-Keeps, pure-Keeps, lift-Keeps, tenant-Keeps,
  user-Keeps, key-Keeps, entitlement-Keeps, redeemed-Keeps, audit-Keeps,
}

module _ (lib : Libraries) {P : Database → Type 0} (st : IsStable P) where
  create_rounds-Keeps :
      (draws : ℕ → KeyDraws) (n i : ℕ) (plan : Text) (tenant : Uuid) (days_ devices : ℕ)
      → Keeps P (create_rounds lib draws n i plan tenant days_ devices)
  unfolding create_rounds
  create_rounds-Keeps draws zero i plan tenant days_ devices = pure-Keeps []
  create_rounds-Keeps draws (suc n) i plan tenant days_ devices =
      let rest = create_rounds-Keeps draws n (i + 1) plan tenant days_ devices in
      bind-Keeps (lift (generate_card_key lib (draws i) plan tenant days_ devices)) _ (lift-Keeps _)
        λ generated.
          then-Keeps (statement db_internal (insert_card_key generated.card_key none)) _
            (key-Keeps st _ _ _)
            (bind-Keeps (create_rounds lib draws n (i + 1) plan tenant days_ devices) _ rest
              λ codes. pure-Keeps _)

  pub create_card_keys-Keeps :
      (draws : ℕ → KeyDraws) (tenant : Uuid) (stamp : Stamp) (admin : Result ApiError (Unit {0}))
      (input : CreateCardKeysRequest)
      → Keeps P (create_card_keys lib draws tenant stamp admin input)
  unfolding create_card_keys
  create_card_keys-Keeps draws tenant stamp admin input =
      search
        (
          bind-Keeps,
          then-Keeps,
          lift-Keeps,
          pure-Keeps,
          tenant-Keeps st,
          create_rounds-Keeps,
          audit-Keeps st,
        )
        depth 12

  store_redemption-Keeps :
      (c : RedeemDraws) (claims : AuthClaims) (card : CardKey)
      → Keeps P (store_redemption lib c claims card)
  unfolding store_redemption
  store_redemption-Keeps c claims card =
      search (then-Keeps, pure-Keeps, redeemed-Keeps st, entitlement-Keeps st, audit-Keeps st) depth
        12

  pub redeem_card_key-Keeps :
      (c : RedeemDraws) (auth : Result ApiError AuthClaims) (code : Text)
      → Keeps P (redeem_card_key lib c auth code)
  unfolding redeem_card_key
  redeem_card_key-Keeps c auth code =
      search (bind-Keeps, then-Keeps, lift-Keeps, read-Keeps, store_redemption-Keeps) depth 12

  store_user-Keeps : (c : RegisterDraws) (u : User) → Keeps P (store_user lib c u)
  unfolding store_user
  store_user-Keeps c u =
      search (then-Keeps, pure-Keeps, tenant-Keeps st, user-Keeps st, audit-Keeps st) depth 12

  pub register-Keeps :
      (allow : Bool) (c : RegisterDraws) (input : RegisterRequest)
      → Keeps P (register lib allow c input)
  unfolding register
  register-Keeps allow c input =
      search (bind-Keeps, then-Keeps, lift-Keeps, read-Keeps, store_user-Keeps) depth 14

  pub login-Keeps : (stamp : Stamp) (input : LoginRequest) → Keeps P (login lib stamp input)
  unfolding login
  login-Keeps stamp input =
      search (bind-Keeps, then-Keeps, lift-Keeps, read-Keeps, pure-Keeps, audit-Keeps st) depth 14
