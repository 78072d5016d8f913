-- ===== src/Cloud/Access.antt =====
-- apps/cloud-api/src/main.rs: who a request comes from, by its headers. Their verdict is what the
-- handlers of the other files take as an argument.
use ozon_rust_suite.Common.{
  ◌≡◌, refl, ◌↔◌, ◌⊎◌, inl, inr, Bool, true, false, [], ◌∷◌, Option, none, some, Text, text, Result,
  ok, err, ◌>>=◌, ok_or, ◌==◌, if◌then◌else◌, arith, Bool-cases, Result-cases,
}
use ozon_rust_suite.Common.Secure.{Bytes, presents, presents_iff}
use ozon_rust_suite.Domain.Account.{UserRole}
use ozon_rust_suite.Cloud.Errors.{ApiError, unauthorized, forbidden}
use ozon_rust_suite.Cloud.CardKeys.{AuthClaims}

-- The headers that are read, where they are there and `to_str` reads them.
pub record AuthHeaders : Type 0 where
  pub authorization : Option Text
  pub x_admin_token : Option Bytes

unfoldable pub strip_prefix : Text → Text → Option Text
strip_prefix s [] = some s
strip_prefix [] (p ∷ ps) = none
strip_prefix (c ∷ s) (p ∷ ps) = if c == p then strip_prefix s ps else none

abbrev pub is_admin : UserRole → Bool
is_admin UserRole.admin = true
is_admin UserRole.user = false

-- `decode` is the crate `jsonwebtoken` with the service's secret: it checks the signature and the
-- expiry.
module _ (decode : Text → Option AuthClaims) (admin_token : Bytes) where
  unfoldable pub require_user : AuthHeaders → Result ApiError AuthClaims
  require_user headers = do
    value ← ok_or headers.authorization (unauthorized (text "missing bearer token"))
    token ← ok_or (strip_prefix value (text "Bearer ")) (unauthorized (text "missing bearer token"))
    ok_or (decode token) (unauthorized (text "invalid bearer token"))

  abbrev pub admin_only : AuthClaims → Result ApiError (Unit {0})
  admin_only claims =
      if is_admin claims.role then ok tt else err (forbidden (text "admin access required"))

  unfoldable pub require_admin : AuthHeaders → Result ApiError (Unit {0})
  require_admin headers =
      let user = require_user headers in
      if presents headers.x_admin_token admin_token
      then ok tt
      else elim user [ err e ↦ err e | ok claims ↦ admin_only claims ]

  admin_only_iff :
      (claims : AuthClaims) → (admin_only claims ≡ ok tt) ↔ (is_admin claims.role ≡ true)
  admin_only_iff claims = elim (Bool-cases (is_admin claims.role)) [
    | inl y ↦ (λ h. y, λ h. rw y refl)
    | inr n ↦ (λ h. absurd (ground (arith, h, n)), λ h. absurd (ground (arith, h, n)))
  ]

  -- The administrator's check passes a request exactly when its header carries the administrator's
  -- token, or when its bearer token is valid and of an administrator.
  pub require_admin_iff :
      (headers : AuthHeaders)
      → (require_admin headers ≡ ok tt) ↔ (
          (headers.x_admin_token ≡ some admin_token)
          ⊎ ((claims : AuthClaims) × (require_user headers ≡ ok claims)
              × (is_admin claims.role ≡ true)))
  unfolding require_admin
  require_admin_iff headers =
      let token = presents_iff headers.x_admin_token admin_token in
      (
        λ h. elim (Bool-cases (presents headers.x_admin_token admin_token)) [
          | inl y ↦ inl (token.0 y)
          | inr n ↦ elim (Result-cases (require_user headers)) [
            | inl (claims, e) ↦ inr (claims, e, (admin_only_iff claims).0 (ground (arith, h, n, e)))
            | inr (x, e) ↦ absurd (ground (arith, h, n, e))
          ]
        ],
        λ h. elim h [
          | inl p ↦ rw (token.1 p) refl
          | inr (claims, e, r) ↦
              let last = (admin_only_iff claims).1 r in
              elim (Bool-cases (presents headers.x_admin_token admin_token)) [
                | inl y ↦ rw y refl
                | inr n ↦ rw (n, e) last
              ]
        ],
      )
