-- ===== src/Local/Models.antt =====
-- apps/local-node/src/model_router.rs, with the helpers of apps/local-node/src/main.rs that it calls:
-- which provider serves a capability, and the address of its requests. The answers of the secret
-- store and of `load_openai_config` are arguments.
use ozon_rust_suite.Common.{
  ◌≡◌, refl, inl, inr, All, Bool, true, false, ◌&&◌, ◌||◌, List, [], ◌∷◌, ◌++◌, Option, none, some,
  Text, text, text_eq, Result, ok, err, ◌>>=◌, ok_or, ◌==◌, if◌then◌else◌, arith, Result-cases,
}
use ozon_rust_suite.Common.Unicode.{is_empty}
use ozon_rust_suite.Local.{ApiError, bad_request}

pub data Capability : Type 0 where
  image_gen text_gen video_gen : Capability

pub data ProviderKind : Type 0 where
  open_ai_images open_ai_images_edit open_ai_compat_chat cloud_video : ProviderKind

pub data AuthStyle : Type 0 where
  bearer : AuthStyle
  header : (name : Text) → AuthStyle
  query : (name : Text) → AuthStyle

pub data VideoDialect : Type 0 where
  open_ai_compat kling mini_max vidu runway jimeng : VideoDialect

pub record ProviderEntry : Type 0 where
  pub kind : ProviderKind
  pub base_url : Text
  pub model : Text
  pub secret_ref : Text
  pub auth : AuthStyle
  pub enabled : Bool
  pub video_dialect : VideoDialect
  pub extra : List (Text × Text)

pub record StoredModelRegistry : Type 0 where
  pub image_entries : List ProviderEntry
  pub text_entries : List ProviderEntry
  pub video_entries : List ProviderEntry

pub record StoredOpenAiConfig : Type 0 where
  pub api_key : Text
  pub openai_base_url : Text
  pub image_model : Text

pub data ResolvedProvider : Type 0 where
  open_ai_image : (config : StoredOpenAiConfig) → ResolvedProvider
  generic :
      (kind : ProviderKind) (base_url model api_key : Text) (auth : AuthStyle)
      (video_dialect : VideoDialect) (extra : List (Text × Text))
      → ResolvedProvider
  not_configured : (capability reason : Text) → ResolvedProvider

-- `trim_end_matches('/')`
unfoldable pub trim_end_slashes : Text → Text
trim_end_slashes [] = []
trim_end_slashes (c ∷ s) =
    let rest = trim_end_slashes s in if (c == b'/') && is_empty rest then [] else c ∷ rest

unfoldable pub ends_with : Text → Text → Bool
ends_with [] suffix = text_eq [] suffix
ends_with (c ∷ s) suffix = text_eq (c ∷ s) suffix || ends_with s suffix

unfoldable pub openai_images_endpoint : Text → Text
openai_images_endpoint base_url =
    let base = trim_end_slashes base_url in
    if ends_with base (text "/v1")
    then base ++ text "/images/generations"
    else base ++ text "/v1/images/generations"

unfoldable pub openai_images_edit_endpoint : Text → Text
openai_images_edit_endpoint base_url =
    let base = trim_end_slashes base_url in
    if ends_with base (text "/v1")
    then base ++ text "/images/edits"
    else base ++ text "/v1/images/edits"

abbrev pub endpoint_suffix : ProviderKind → Text
endpoint_suffix ProviderKind.open_ai_images = text "images/generations"
endpoint_suffix ProviderKind.open_ai_images_edit = text "images/edits"
endpoint_suffix ProviderKind.open_ai_compat_chat = text "chat/completions"
endpoint_suffix ProviderKind.cloud_video = text "video/generations"

unfoldable pub endpoint_for : ProviderKind → Text → Text
endpoint_for kind base_url =
    let base = trim_end_slashes base_url in
    if ends_with base (text "/v1")
    then base ++ (text "/" ++ endpoint_suffix kind)
    else base ++ (text "/v1/" ++ endpoint_suffix kind)

unfoldable pub find_enabled : List ProviderEntry → Option ProviderEntry
find_enabled [] = none
find_enabled (e ∷ es) = let rest = find_enabled es in if e.enabled then some e else rest

-- `StoredOpenAiConfig::for_registry`
abbrev pub registry_config : ProviderEntry → Text → StoredOpenAiConfig
registry_config entry api_key = record {
  api_key = api_key;
  openai_base_url = entry.base_url;
  image_model = entry.model;
}

-- `secrets` is the answer of the store for a name, `loaded` that of `load_openai_config`.
module _ (secrets : Text → Result ApiError (Option Text))
    (loaded : Result ApiError StoredOpenAiConfig) where
  unfoldable pub stored_secret : Text → Result ApiError Text
  stored_secret secret_ref = do
    bundle ← secrets secret_ref
    ok_or bundle (bad_request (text "secret_ref '" ++ (secret_ref ++ text "' is not configured")))

  unfoldable pub resolve_secret_ref : Text → Result ApiError Text
  resolve_secret_ref secret_ref =
      let stored = stored_secret secret_ref in
      if text_eq secret_ref (text "openai_config")
      then (do config ← loaded; ok config.api_key)
      else stored

  unfoldable pub resolve_image : Option ProviderEntry → Result ApiError ResolvedProvider
  resolve_image none = do config ← loaded; ok (open_ai_image config)
  resolve_image (some entry) = do
    api_key ← resolve_secret_ref entry.secret_ref
    ok (open_ai_image (registry_config entry api_key))

  unfoldable pub resolve_generic :
      Option ProviderEntry → Text → Text → Result ApiError ResolvedProvider
  resolve_generic none capability reason = ok (not_configured capability reason)
  resolve_generic (some entry) capability reason = do
    api_key ← resolve_secret_ref entry.secret_ref
    ok (
        generic entry.kind entry.base_url entry.model api_key entry.auth entry.video_dialect
          entry.extra)

  unfoldable pub resolve_capability :
      StoredModelRegistry → Capability → Result ApiError ResolvedProvider
  resolve_capability registry Capability.image_gen =
      resolve_image (find_enabled registry.image_entries)
  resolve_capability registry Capability.text_gen =
      resolve_generic (find_enabled registry.text_entries) (text "text_gen")
        (text "no text provider configured")
  resolve_capability registry Capability.video_gen =
      resolve_generic (find_enabled registry.video_entries) (text "video_gen")
        (text "no video provider configured")

unfoldable pub expect_openai_image : ResolvedProvider → Result ApiError StoredOpenAiConfig
expect_openai_image (open_ai_image config) = ok config
expect_openai_image (not_configured capability reason) = err (bad_request reason)
expect_openai_image (generic kind base_url model api_key auth video_dialect extra) =
    err (bad_request (text "resolved provider is not an OpenAI image provider"))

-- The addresses of the router are those of the helpers for images, whatever the base address.
pub endpoint_for-images :
    (base_url : Text)
    → (endpoint_for ProviderKind.open_ai_images base_url ≡ openai_images_endpoint base_url)
      × (endpoint_for ProviderKind.open_ai_images_edit base_url
          ≡ openai_images_edit_endpoint base_url)
unfolding endpoint_for openai_images_endpoint openai_images_edit_endpoint
endpoint_for-images base_url = (refl, refl)

resolve_image-expect :
    (secrets : Text → Result ApiError (Option Text)) (loaded : Result ApiError StoredOpenAiConfig)
    (entry : Option ProviderEntry) (r : ResolvedProvider)
    → resolve_image secrets loaded entry ≡ ok r
    → (config : StoredOpenAiConfig) × (expect_openai_image r ≡ ok config)
unfolding resolve_image expect_openai_image
resolve_image-expect secrets loaded none r h = elim (Result-cases loaded) [
  | inl (config, e) ↦
      let same : r ≡ open_ai_image config = ground (arith, h, e) in (config, rw same refl)
  | inr (x, e) ↦ absurd (ground (arith, h, e))
]
resolve_image-expect secrets loaded (some entry) r h =
    elim (Result-cases (resolve_secret_ref secrets loaded entry.secret_ref)) [
      | inl (key, e) ↦
          let same : r ≡ open_ai_image (registry_config entry key) = ground (arith, h, e) in
          (registry_config entry key, rw same refl)
      | inr (x, e) ↦ absurd (ground (arith, h, e))
    ]

-- The first entry that is enabled serves the capability: entries before it that are not enabled, and
-- entries after it, do not matter.
pub find_enabled_first :
    (before after : List ProviderEntry) (entry : ProviderEntry)
    → All (λ e. e.enabled ≡ false) before
    → entry.enabled ≡ true
    → find_enabled (before ++ entry ∷ after) ≡ some entry
unfolding find_enabled
find_enabled_first [] after entry off on = rw on refl
find_enabled_first (e ∷ es) after entry off on =
    rw (off.0) (find_enabled_first es after entry off.1 on)

-- Whatever the store and the configuration answer, what is resolved for images is a configuration of
-- images: a caller that unwraps it is refused only when the resolving was refused, and then with the
-- same error.
pub resolve_capability-image :
    (secrets : Text → Result ApiError (Option Text)) (loaded : Result ApiError StoredOpenAiConfig)
    (registry : StoredModelRegistry) (r : ResolvedProvider)
    → resolve_capability secrets loaded registry Capability.image_gen ≡ ok r
    → (config : StoredOpenAiConfig) × (expect_openai_image r ≡ ok config)
unfolding resolve_capability
resolve_capability-image secrets loaded registry r h =
    resolve_image-expect secrets loaded (find_enabled registry.image_entries) r h
