-- ===== src/Local/Push.antt =====
-- apps/local-node/src/main.rs: the push of reviewed product copy to Ozon, up to the calls of the
-- connector (crates/ozon-connector), whose answers are a parameter.
pub mod Writes
use ozon_rust_suite.Common.{
  ℕ, zero, suc, ◌-◌, Bool, true, false, not, ◌&&◌, List, [], ◌∷◌, ◌++◌, Option, none, some, Text,
  text, Result, ok, err, ◌>>=◌, ◌>>◌, require, ok_or, leb, ltb, ◌==◌, if◌then◌else◌, length, any,
}
use ozon_rust_suite.Common.Assoc.{nat_key, insert}
use ozon_rust_suite.Common.Rows.{find}
use ozon_rust_suite.Common.Unicode.{CaseTables, trim, trim_end, is_empty, decimal}
use ozon_rust_suite.Local.{ApiError, bad_request, LocalConfig}
use ozon_rust_suite.Local.Access.{Headers, require_bridge_or_operator_token}
use ozon_rust_suite.Local.Schedule.{connector_mode}
use ozon_rust_suite.Local.Video.{trimmed}
use ozon_rust_suite.Local.Matching.{
  OzonCategoryAttribute, is_dictionary, OzonCategoryAttributeValue, OzonResolvedAttribute,
  Module3Attribute, Module3MatchedAttribute, Module3DroppedItem, Module3MatchOutcome,
  ValuesByAttribute, module3_normalize, same_normal, module3_match_attributes,
}

pub record Module3Fields : Type 0 where
  pub title : Text
  pub description : Text
  pub attributes : List Module3Attribute
  pub type_category : Text

pub record Module3PushTarget : Type 0 where
  pub target_id : Text
  pub proposal : Module3Fields

pub record Module3PushRequest : Type 0 where
  pub items : List Module3PushTarget
  pub confirm : Bool

pub record Module3FieldChange : Type 0 where
  pub before : Text
  pub after : Text

pub record Module3PushPreview : Type 0 where
  pub title_change : Module3FieldChange
  pub description_change : Module3FieldChange
  pub attributes_to_write : List Module3MatchedAttribute
  pub preview_dropped : List Module3DroppedItem

pub record Module3PushItem : Type 0 where
  pub product_id : Text
  pub offer_id : Text
  pub preview : Option Module3PushPreview
  pub written : Bool
  pub task_id : Option Text
  pub error : Option Text

pub record Module3PushResponse : Type 0 where
  pub response_mode : Text
  pub confirmed : Bool
  pub response_items : List Module3PushItem

pub record OzonProductCopyUpdate : Type 0 where
  pub update_offer_id : Text
  pub update_name : Option Text
  pub update_description : Option Text
  pub update_attributes : List OzonResolvedAttribute

-- The fields of a product that a push reads.
pub record Product : Type 0 where
  pub live_id : Text
  pub live_offer_id : Text
  pub live_name : Option Text
  pub live_description : Option Text
  pub description_category_id : Option ℕ
  pub type_id : Option ℕ

-- What the connector answers while one product is pushed, with the texts of its errors. An update is
-- answered by whether it is accepted, and its task.
pub record Ozon : Type 0 where
  pub product_get : Option Text → Result Text Product
  pub category_attributes : ℕ → ℕ → Result Text (List OzonCategoryAttribute)
  pub attribute_values : ℕ → ℕ → ℕ → Result Text (List OzonCategoryAttributeValue)
  pub update_answer : OzonProductCopyUpdate → Result Text (Bool × Option Text)

abbrev pub take : ℕ → Text → Text
take zero s = []
take (suc n) [] = []
take (suc n) (c ∷ s) = c ∷ take n s

-- What stands before the last space, where there is one.
unfoldable pub before_last_space : Text → Option Text
before_last_space [] = none
before_last_space (c ∷ s) = elim (before_last_space s) [
  | some front ↦ some (c ∷ front)
  | none ↦ if c == b' ' then some [] else none
]

unfoldable pub word_boundary_truncate : Text → ℕ → Text
word_boundary_truncate value max_chars =
    if leb (length (trim value)) max_chars
    then trim value
    else elim (before_last_space (take max_chars (trim value))) [
      | some front ↦ trim_end front
      | none ↦ trim_end (take max_chars (trim value))
    ]

abbrev pub or_empty : Option Text → Text
or_empty none = []
or_empty (some s) = s

-- `Some(text).filter(|value| !value.is_empty())`
abbrev pub non_empty : Text → Option Text
non_empty s = if is_empty s then none else some s

abbrev pub said : {A : Type 0} → Text → Result Text A → Result Text A
said message (ok a) = ok a
said message (err e) = err (message ++ e)

module _ (tables : CaseTables) where
  abbrev pub add_referenced : List OzonCategoryAttribute → List ℕ → Module3Attribute → List ℕ
  add_referenced dictionary ids a =
      if is_empty (module3_normalize tables (trim a.proposed_name))
      then ids
      else elim (find
          (λ (d : OzonCategoryAttribute). same_normal tables d.name (trim a.proposed_name))
          dictionary) [
            | none ↦ ids
            | some d ↦
                if is_dictionary d && not (any (λ i. i == d.id) ids) then ids ++ d.id ∷ [] else ids
          ]

  unfoldable pub referenced_from :
      List OzonCategoryAttribute → List ℕ → List Module3Attribute → List ℕ
  referenced_from dictionary ids [] = ids
  referenced_from dictionary ids (a ∷ rest) =
      referenced_from dictionary (add_referenced dictionary ids a) rest

  unfoldable pub module3_referenced_dictionary_ids :
      List Module3Attribute → List OzonCategoryAttribute → List ℕ
  module3_referenced_dictionary_ids proposal dictionary = referenced_from dictionary [] proposal

  unfoldable pub read_values :
      Ozon → ℕ → ℕ → List ℕ → ValuesByAttribute → Result Text ValuesByAttribute
  read_values ozon category type_id [] found = ok found
  read_values ozon category type_id (id ∷ ids) found = do
    values ←
        said (text "read attribute values failed: ") (ozon.attribute_values category type_id id)
    read_values ozon category type_id ids (insert id values found)

  -- What a push has read and decided before it writes: the product, the preview, the update.
  pub record Prepared : Type 0 where
    pub product : Product
    pub prepared_preview : Module3PushPreview
    pub update : OzonProductCopyUpdate

  unfoldable pub decide : Product → Module3Fields → Module3MatchOutcome → Prepared
  decide product proposal outcome =
      let after_title = word_boundary_truncate (trim proposal.title) 200 in
      let after_description = word_boundary_truncate (trim proposal.description) 1800 in
      record {
        product = product;
        prepared_preview = record {
          title_change = record { before = or_empty product.live_name; after = after_title };
          description_change = record {
            before = or_empty product.live_description;
            after = after_description;
          };
          attributes_to_write = outcome.matched;
          preview_dropped = outcome.dropped;
        };
        update = record {
          update_offer_id = product.live_offer_id;
          update_name = non_empty after_title;
          update_description = non_empty after_description;
          update_attributes = outcome.resolved;
        };
      }

  unfoldable pub prepare : Ozon → Module3PushTarget → Result Text Prepared
  prepare ozon target = do
    product ←
        said (text "read product failed: ") (ozon.product_get (trimmed (some target.target_id)))
    category ←
        ok_or product.description_category_id
          (text "product has no description_category_id; cannot resolve attributes")
    type_id ← ok_or product.type_id (text "product has no type_id; cannot resolve attributes")
    dictionary ←
        said (text "read category attributes failed: ") (ozon.category_attributes category type_id)
    values ←
        read_values ozon category type_id
          (module3_referenced_dictionary_ids target.proposal.attributes dictionary) []
    ok (
        decide product target.proposal
          (module3_match_attributes tables dictionary values target.proposal.attributes))

  abbrev pub item_of : Prepared → Bool → Option Text → Module3PushItem
  item_of p written task_id = record {
    product_id = p.product.live_id;
    offer_id = p.product.live_offer_id;
    preview = some p.prepared_preview;
    written = written;
    task_id = task_id;
    error = none;
  }

  abbrev pub failed_item : Module3PushTarget → Text → Module3PushItem
  failed_item target e = record {
    product_id = target.target_id;
    offer_id = [];
    preview = none;
    written = false;
    task_id = none;
    error = some e;
  }

  abbrev pub written_item :
      Module3PushTarget → Prepared → Result Text (Bool × Option Text) → Module3PushItem
  written_item target p (ok (accepted, task_id)) = item_of p accepted task_id
  written_item target p (err e) = failed_item target (text "product update failed: " ++ e)

  -- `module3_push_one`, and what the loop makes of its error. The state is the
  -- updates handed to the connector, in the order of the calls of `product_update_copy`.
  unfoldable pub module3_push_one :
      Ozon
      → Bool
      → Module3PushTarget
      → List OzonProductCopyUpdate
      → List OzonProductCopyUpdate × Module3PushItem
  module3_push_one ozon confirm target handed = elim (prepare ozon target) [
    | err e ↦ (handed, failed_item target e)
    | ok p ↦
        if not confirm
        then (handed, item_of p false none)
        else (handed ++ p.update ∷ [], written_item target p (ozon.update_answer p.update))
  ]

  -- The loop over the batch: `i` products are done, and `answers` gives the answers for each.
  unfoldable pub push_items :
      (ℕ → Ozon)
      → ℕ
      → Bool
      → List Module3PushTarget
      → List OzonProductCopyUpdate
      → List OzonProductCopyUpdate × List Module3PushItem
  push_items answers i confirm [] handed = (handed, [])
  push_items answers i confirm (t ∷ ts) handed =
      let first = module3_push_one (answers i) confirm t handed in
      let rest = push_items answers (suc i) confirm ts first.0 in (rest.0, first.1 ∷ rest.1)

  module _ (config : LocalConfig) (lease credentials : Result ApiError (Unit {0})) where
    unfoldable pub push_guards : Headers → Module3PushRequest → Result ApiError (Unit {0})
    push_guards headers input = do
      require_bridge_or_operator_token config headers
      lease
      require (not (length input.items == 0)) (bad_request (text "nothing to push"))
      require (leb (length input.items) 12)
          (bad_request (text "push at most 12 products per batch"))
      credentials

    unfoldable pub module3_push :
        (ℕ → Ozon)
        → Headers
        → Module3PushRequest
        → List OzonProductCopyUpdate
        → List OzonProductCopyUpdate × Result ApiError Module3PushResponse
    module3_push answers headers input handed = elim (push_guards headers input) [
      | err e ↦ (handed, err e)
      | ok _ ↦
          let r = push_items answers 0 input.confirm input.items handed in
          (
            r.0,
            ok (record {
              response_mode = connector_mode config;
              confirmed = input.confirm;
              response_items = r.1;
            }),
          )
    ]
