-- ===== src/Cloud/Skybridge/Links.antt =====
-- apps/cloud-api/src/main.rs: the account that a SkyBridge profile is linked to.
use ozon_rust_suite.Common.{◌≡◌, ◌⊎◌, [], ◌∷◌, ◌++◌, none, some, ◌==◌}
use ozon_rust_suite.Common.Rows.{find, update_where}
use ozon_rust_suite.Domain.Account.{User, UserRole, NebulaSource}
use ozon_rust_suite.Cloud.Database.{Database}
use ozon_rust_suite.Cloud.Skybridge.{
  SkybridgeProfile, LinkDraws, update_profile, find_user_by_skybridge_user_id,
  skybridge_password_sentinel,
}

-- The account that the profile was linked to is rewritten, and keeps what is not the profile's; or no
-- account was linked to it, and a new one is added.
abbrev pub LinkOutcome : LinkDraws → SkybridgeProfile → Database → User → Database → Type 0
LinkOutcome c profile db u db' =
    (u.skybridge_user_id ≡ some profile.user_id)
    × (u.nebula_source ≡ NebulaSource.skybridge)
    × (u.nebula_id ≡ profile.nebula_id)
    × (u.email ≡ profile.email)
    × (((linked : User) × (find_user_by_skybridge_user_id profile.user_id db ≡ some linked)
          × (u.id ≡ linked.id)
          × (db' ≡ record db {
            users =
                update_where (λ (x : User). x.id == linked.id)
                  (update_profile c.verified_at profile) db.users;
          })
          × (old : User) × (find (λ (x : User). x.id == linked.id) db.users ≡ some old)
          × (u ≡ update_profile c.verified_at profile old)
          × (u.tenant_id ≡ old.tenant_id)
          × (u.role ≡ old.role)
          × (u.password_hash ≡ old.password_hash))
        ⊎ ((find_user_by_skybridge_user_id profile.user_id db ≡ none)
            × (u.role ≡ UserRole.user)
            × (u.password_hash ≡ skybridge_password_sentinel)
            × (db'.users ≡ db.users ++ u ∷ [])))
