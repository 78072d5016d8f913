-- ===== src/Local/Matching.antt =====
-- apps/local-node/src/main.rs: the matching of proposed attributes with the dictionary of a category.
-- The data types of Ozon's attributes are those of crates/ozon-connector/src/lib.rs.
pub mod Grounded
use ozon_rust_suite.Common.{
  ℕ, Bool, true, false, not, ◌&&◌, List, [], ◌∷◌, ◌++◌, Option, none, some, Text, text, text_eq,
  ◌==◌, if◌then◌else◌, any,
}
use ozon_rust_suite.Common.Assoc.{nat_key, lookup}
use ozon_rust_suite.Common.Rows.{find}
use ozon_rust_suite.Common.Unicode.{CaseTables, trim, is_empty, is_whitespace, to_lowercase}
use ozon_rust_suite.Local.Access.{cons_first}

pub record OzonCategoryAttribute : Type 0 where
  pub id : ℕ
  pub name : Text
  pub is_collection : Bool
  pub dictionary_id : ℕ
  pub attribute_type : Option Text

abbrev pub is_dictionary : OzonCategoryAttribute → Bool
is_dictionary a = not (a.dictionary_id == 0)

pub record OzonCategoryAttributeValue : Type 0 where
  pub value_id : ℕ
  pub value : Text

pub data OzonResolvedValue : Type 0 where
  dictionary_value : ℕ → OzonResolvedValue
  free_text : Text → OzonResolvedValue

pub record OzonResolvedAttribute : Type 0 where
  pub attribute_id : ℕ
  pub resolved_values : List OzonResolvedValue

pub record Module3Attribute : Type 0 where
  pub proposed_name : Text
  pub values : List Text

pub record Module3MatchedAttribute : Type 0 where
  pub matched_id : ℕ
  pub matched_name : Text
  pub matched_values : List Text

pub record Module3DroppedItem : Type 0 where
  pub dropped_name : Text
  pub dropped_value : Option Text
  pub reason : Text

pub record Module3MatchOutcome : Type 0 where
  pub resolved : List OzonResolvedAttribute
  pub matched : List Module3MatchedAttribute
  pub dropped : List Module3DroppedItem

abbrev pub begins_word : Text → Bool
begins_word [] = false
begins_word (c ∷ s) = not (is_whitespace c)

-- `split_whitespace`
unfoldable pub split_whitespace : Text → List Text
split_whitespace [] = []
split_whitespace (c ∷ s) =
    let rest = split_whitespace s in
    if is_whitespace c then rest else if begins_word s then cons_first c rest else (c ∷ []) ∷ rest

-- `join(" ")`
abbrev pub join_words : List Text → Text
join_words [] = []
join_words (w ∷ []) = w
join_words (w ∷ v ∷ ws) = w ++ (b' ' ∷ join_words (v ∷ ws))

-- The values of each dictionary, by the attribute's identifier.
abbrev pub ValuesByAttribute : Type 0
ValuesByAttribute = List (ℕ × List OzonCategoryAttributeValue)

-- What one value, or one attribute, adds to the three lists.
pub record ValueMatch : Type 0 where
  pub new_values : List OzonResolvedValue
  pub new_texts : List Text
  pub new_dropped : List Module3DroppedItem

abbrev pub no_match : ValueMatch
no_match = record { new_values = []; new_texts = []; new_dropped = [] }

abbrev pub join_matches : ValueMatch → ValueMatch → ValueMatch
join_matches a b = record {
  new_values = a.new_values ++ b.new_values;
  new_texts = a.new_texts ++ b.new_texts;
  new_dropped = a.new_dropped ++ b.new_dropped;
}

abbrev pub join_outcomes : Module3MatchOutcome → Module3MatchOutcome → Module3MatchOutcome
join_outcomes a b = record {
  resolved = a.resolved ++ b.resolved;
  matched = a.matched ++ b.matched;
  dropped = a.dropped ++ b.dropped;
}

abbrev pub only_dropped : List Module3DroppedItem → Module3MatchOutcome
only_dropped items = record { resolved = []; matched = []; dropped = items }

module _ (tables : CaseTables) where
  unfoldable pub module3_normalize : Text → Text
  module3_normalize value = to_lowercase tables (join_words (split_whitespace value))

  abbrev pub same_normal : Text → Text → Bool
  same_normal a b = text_eq (module3_normalize a) (module3_normalize b)

  module _ (dictionary : List OzonCategoryAttribute) (values_by_attribute : ValuesByAttribute) where
    -- `values_by_attribute.get(&definition.id).and_then(…find…)`
    unfoldable pub candidate_for : OzonCategoryAttribute → Text → Option OzonCategoryAttributeValue
    candidate_for definition value = elim (lookup definition.id values_by_attribute) [
      | none ↦ none
      | some entries ↦ find (λ (e : OzonCategoryAttributeValue). same_normal e.value value) entries
    ]

    unfoldable pub match_dictionary : Text → OzonCategoryAttribute → Text → ValueMatch
    match_dictionary raw_name definition value = elim (candidate_for definition value) [
      | some entry ↦ record {
        new_values = dictionary_value entry.value_id ∷ [];
        new_texts = entry.value ∷ [];
        new_dropped = [];
      }
      | none ↦ record no_match {
        new_dropped =
            record {
              dropped_name = raw_name;
              dropped_value = some value;
              reason = text "value not in attribute dictionary";
            }
            ∷ [];
      }
    ]

    -- One round of the inner loop.
    unfoldable pub match_value : Text → OzonCategoryAttribute → Text → ValueMatch
    match_value raw_name definition raw_value =
        if is_empty (trim raw_value)
        then no_match
        else if is_dictionary definition
        then match_dictionary raw_name definition (trim raw_value)
        else record {
          new_values = free_text (trim raw_value) ∷ [];
          new_texts = trim raw_value ∷ [];
          new_dropped = [];
        }

    unfoldable pub match_values : Text → OzonCategoryAttribute → List Text → ValueMatch
    match_values raw_name definition [] = no_match
    match_values raw_name definition (v ∷ vs) =
        join_matches (match_value raw_name definition v) (match_values raw_name definition vs)

    -- What follows the inner loop.
    unfoldable pub conclude : Text → OzonCategoryAttribute → ValueMatch → Module3MatchOutcome
    conclude raw_name definition m = elim m.new_values [
      | [] ↦ only_dropped (
          if is_dictionary definition
          then m.new_dropped
          else m.new_dropped
            ++ record {
              dropped_name = raw_name;
              dropped_value = none;
              reason = text "no non-empty values to write";
            }
              ∷ [])
      | v ∷ vs ↦ record {
        resolved = record { attribute_id = definition.id; resolved_values = v ∷ vs } ∷ [];
        matched =
            record {
              matched_id = definition.id;
              matched_name = definition.name;
              matched_values = m.new_texts;
            }
            ∷ [];
        dropped = m.new_dropped;
      }
    ]

    unfoldable pub definition_for : Text → Option OzonCategoryAttribute
    definition_for raw_name =
        find (λ (d : OzonCategoryAttribute). same_normal d.name raw_name) dictionary

    -- One round of the outer loop.
    unfoldable pub match_attribute : Module3Attribute → Module3MatchOutcome
    match_attribute attribute =
        if is_empty (trim attribute.proposed_name)
        then only_dropped (
            record { dropped_name = []; dropped_value = none; reason = text "empty attribute name" }
            ∷ [])
        else elim (definition_for (trim attribute.proposed_name)) [
          | none ↦ only_dropped (
              record {
                dropped_name = trim attribute.proposed_name;
                dropped_value = none;
                reason = text "attribute name not in category dictionary";
              }
              ∷ [])
          | some definition ↦
              conclude (trim attribute.proposed_name) definition
                (match_values (trim attribute.proposed_name) definition attribute.values)
        ]

    unfoldable pub module3_match_attributes : List Module3Attribute → Module3MatchOutcome
    module3_match_attributes [] = only_dropped []
    module3_match_attributes (a ∷ rest) =
        join_outcomes (match_attribute a) (module3_match_attributes rest)
