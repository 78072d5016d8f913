-- ===== src/Local/Push/Writes.antt =====
-- apps/local-node/src/main.rs: what a push hands to the connector for Ozon.
use ozon_rust_suite.Common.{
  ℕ, suc, ◌≡◌, refl, sym, ap, ◌∙◌, inl, inr, Bool, true, false, ◌&&◌, List, [], ◌∷◌, ◌++◌, some,
  Text, Result, ok, err, if◌then◌else◌, arith, Bool-cases, Result-cases,
}
use ozon_rust_suite.Common.Unicode.{CaseTables}
use ozon_rust_suite.Local.{ApiError, LocalConfig}
use ozon_rust_suite.Local.Access.{Headers, require_bridge_or_operator_token_iff}
use ozon_rust_suite.Local.Push.{
  Module3PushTarget, Module3PushRequest, OzonProductCopyUpdate, Ozon, Prepared, prepare,
  module3_push_one, push_items, push_guards, module3_push,
}

abbrev pub is_ok : {A : Type 0} → Result ApiError A → Bool
is_ok (ok _) = true
is_ok (err e) = false

append_nil : {A : Type 0} (xs : List A) → xs ++ [] ≡ xs
append_nil [] = refl
append_nil (x ∷ xs) = ap (λ ys. x ∷ ys) (append_nil xs)

append_assoc : {A : Type 0} (xs ys zs : List A) → (xs ++ ys) ++ zs ≡ xs ++ (ys ++ zs)
append_assoc [] ys zs = refl
append_assoc (x ∷ xs) ys zs = ap (λ us. x ∷ us) (append_assoc xs ys zs)

module _ (tables : CaseTables) where
  -- The update that a push prepares for a product, where it can.
  abbrev pub prepared_update : Result Text (Prepared tables) → List OzonProductCopyUpdate
  prepared_update (ok p) = p.update ∷ []
  prepared_update (err e) = []

  abbrev pub updates_of : (ℕ → Ozon) → ℕ → List Module3PushTarget → List OzonProductCopyUpdate
  updates_of answers i [] = []
  updates_of answers i (t ∷ ts) =
      prepared_update (prepare tables (answers i) t) ++ updates_of answers (suc i) ts

  push_one-dry :
      (ozon : Ozon) (t : Module3PushTarget) (handed : List OzonProductCopyUpdate)
      → (module3_push_one tables ozon false t handed).0 ≡ handed
  unfolding module3_push_one
  push_one-dry ozon t handed = elim (Result-cases (prepare tables ozon t)) [
    | inl (p, e) ↦ ground (arith, e)
    | inr (x, e) ↦ ground (arith, e)
  ]

  push_one-confirmed :
      (ozon : Ozon) (t : Module3PushTarget) (handed : List OzonProductCopyUpdate)
      → (module3_push_one tables ozon true t handed).0
        ≡ handed ++ prepared_update (prepare tables ozon t)
  unfolding module3_push_one
  push_one-confirmed ozon t handed = go (prepare tables ozon t) refl
    where
      go :
          (r : Result Text (Prepared tables))
          → prepare tables ozon t ≡ r
          → (module3_push_one tables ozon true t handed).0
            ≡ handed ++ prepared_update (prepare tables ozon t)
      go (ok p) e = ground (arith, e)
      go (err x) e =
          let nothing : (module3_push_one tables ozon true t handed).0 ≡ handed =
            ground (arith, e) in
          nothing ∙ (sym (append_nil handed) ∙ ap (λ r. handed ++ prepared_update r) (sym e))

  push_items-dry :
      (answers : ℕ → Ozon) (i : ℕ) (ts : List Module3PushTarget)
      (handed : List OzonProductCopyUpdate)
      → (push_items tables answers i false ts handed).0 ≡ handed
  unfolding push_items
  push_items-dry answers i [] handed = refl
  push_items-dry answers i (t ∷ ts) handed =
      push_items-dry answers (suc i) ts _ ∙ push_one-dry (answers i) t handed

  push_items-confirmed :
      (answers : ℕ → Ozon) (i : ℕ) (ts : List Module3PushTarget)
      (handed : List OzonProductCopyUpdate)
      → (push_items tables answers i true ts handed).0 ≡ handed ++ updates_of answers i ts
  unfolding push_items
  push_items-confirmed answers i [] handed = sym (append_nil handed)
  push_items-confirmed answers i (t ∷ ts) handed =
      push_items-confirmed answers (suc i) ts _
      ∙ (ap (λ u. u ++ updates_of answers (suc i) ts) (push_one-confirmed (answers i) t handed)
          ∙ append_assoc handed (prepared_update (prepare tables (answers i) t))
              (updates_of answers (suc i) ts))

  -- What a push hands to the connector's `product_update_copy`: when its guards pass and the request
  -- says `confirm`, the update of every product for which one could be prepared, in order; in every
  -- other case nothing.
  pub module3_push-handed :
      (config : LocalConfig) (lease credentials : Result ApiError (Unit {0})) (answers : ℕ → Ozon)
      (headers : Headers) (input : Module3PushRequest) (handed : List OzonProductCopyUpdate)
      → (module3_push tables config lease credentials answers headers input handed).0 ≡ (
          if is_ok (push_guards tables config lease credentials headers input) && input.confirm
          then handed ++ updates_of answers 0 input.items
          else handed)
  unfolding module3_push
  module3_push-handed config lease credentials answers headers input handed =
      elim (Result-cases (push_guards tables config lease credentials headers input)) [
        | inr (e, g) ↦ ground (arith, g)
        | inl (_, g) ↦ elim (Bool-cases input.confirm) [
          | inr c ↦
              let dry = push_items-dry answers 0 input.items handed in ground (arith, g, c, dry)
          | inl c ↦
              let sends = push_items-confirmed answers 0 input.items handed in
              ground (arith, g, c, sends)
        ]
      ]

  push_guards_bridge :
      (config : LocalConfig) (lease credentials : Result ApiError (Unit {0})) (headers : Headers)
      (target : Module3PushTarget)
      → headers.x_openclaw_token ≡ some config.openclaw_token
      → lease ≡ ok tt
      → credentials ≡ ok tt
      → push_guards tables config lease credentials headers
          (record { items = target ∷ []; confirm = true })
        ≡ ok tt
  unfolding push_guards
  push_guards_bridge config lease credentials headers target token leased keys =
      let passes = (require_bridge_or_operator_token_iff config headers).1 (inr token) in
      ground (arith, passes, leased, keys)

  -- A request with the bridge's token and `confirm`, for one product whose update can be prepared,
  -- hands that update to the connector to write it to Ozon, where the lease check passes and there are
  -- credentials. No token of the operator and no approval is asked for.
  pub bridge_push_writes :
      (config : LocalConfig) (lease credentials : Result ApiError (Unit {0})) (answers : ℕ → Ozon)
      (headers : Headers) (target : Module3PushTarget) (handed : List OzonProductCopyUpdate)
      (p : Prepared tables)
      → headers.x_openclaw_token ≡ some config.openclaw_token
      → lease ≡ ok tt
      → credentials ≡ ok tt
      → prepare tables (answers 0) target ≡ ok p
      → (module3_push tables config lease credentials answers headers
          (record { items = target ∷ []; confirm = true })
          handed).0
        ≡ handed ++ p.update ∷ []
  bridge_push_writes config lease credentials answers headers target handed p token leased keys
        ready =
      let input : Module3PushRequest = record { items = target ∷ []; confirm = true } in
      let passes = push_guards_bridge config lease credentials headers target token leased keys in
      let sends = module3_push-handed config lease credentials answers headers input handed in
      let all : updates_of answers 0 (target ∷ []) ≡ p.update ∷ [] =
        ap (λ r. prepared_update r ++ []) ready in
      rw passes at sends ∙ ap (λ us. handed ++ us) all
