-- ===== src/Sep6/Info.antt =====
-- GET /info of packages/sep6/src/index.ts. `number_text` is `String(v)` of a JSON number that is
-- finite and not negative.
use corridor_in_a_box.Base.{
  ℕ, String, Bool, Option, none, some, List, [], ◌∷◌, if◌then◌else◌, or_else, str_eq,
}
use corridor_in_a_box.Money.{is_valid_amount}
use corridor_in_a_box.AdapterKit.Refunds.{parse_amount}
use corridor_in_a_box.Json.{
  Json, bool, num, str, arr, obj, Items, nil, cons, Fields, end, field, text_of, fields_of,
}
use corridor_in_a_box.Json

pub record Sep6Field : Type 0 where
  pub description : Option String
  pub choices : Option (List String)
  pub optional : Option Bool

pub record AssetInfo : Type 0 where
  pub enabled : Option Bool
  pub authentication_required : Option Bool
  pub min_amount : Option (List ℕ)
  pub max_amount : Option (List ℕ)
  pub fee_fixed : Option (List ℕ)
  pub fee_percent : Option (List ℕ)
  pub types : List (String × List (String × Sep6Field))

pub record Sep6Info : Type 0 where
  pub withdraw : List (String × AssetInfo)
  pub withdraw_exchange : List (String × AssetInfo)

abbrev bool_of : Option Json → Option Bool
bool_of (some (bool b)) = some b
bool_of _ = none

texts_of : Items → List String
texts_of nil = []
texts_of (cons (str s) xs) = s ∷ texts_of xs
texts_of (cons j xs) = texts_of xs

abbrev choices_of : Option Json → Option (List String)
choices_of (some (arr xs)) = some (texts_of xs)
choices_of _ = none

abbrev fields_in : Option Json → Fields
fields_in j = or_else (fields_of j) end

-- `parseFields`: what is not an object is dropped.
unfoldable pub parse_fields : Fields → List (String × Sep6Field)
unfolding Json.get texts_of
parse_fields end = []
parse_fields (field name (obj f) rest) =
    (
      name,
      record {
        description = text_of (Json.get "description" (obj f));
        choices = choices_of (Json.get "choices" (obj f));
        optional = bool_of (Json.get "optional" (obj f));
      },
    )
    ∷ parse_fields rest
parse_fields (field name j rest) = parse_fields rest

-- `parseTypes`.
unfoldable pub parse_types : Fields → List (String × List (String × Sep6Field))
unfolding Json.get parse_fields
parse_types end = []
parse_types (field name (obj t) rest) =
    (name, parse_fields (fields_in (Json.get "fields" (obj t)))) ∷ parse_types rest
parse_types (field name j rest) = parse_types rest

abbrev valid_only : Option (List ℕ) → Option (List ℕ)
valid_only none = none
valid_only (some t) = if is_valid_amount t then some t else none

module _ (number_text : ℕ → Option (List ℕ)) where
  -- `infoAmount`.
  unfoldable pub info_amount : Option Json → Option (List ℕ)
  unfolding parse_amount is_valid_amount
  info_amount (some (num n)) = valid_only (number_text n)
  info_amount v = parse_amount (text_of v)

  -- `parseAssetInfo`.
  unfoldable pub parse_asset_info : Json → AssetInfo
  unfolding Json.get info_amount parse_types
  parse_asset_info a = record {
    enabled = bool_of (Json.get "enabled" a);
    authentication_required = bool_of (Json.get "authentication_required" a);
    min_amount = info_amount (Json.get "min_amount" a);
    max_amount = info_amount (Json.get "max_amount" a);
    fee_fixed = info_amount (Json.get "fee_fixed" a);
    fee_percent = info_amount (Json.get "fee_percent" a);
    types = parse_types (fields_in (Json.get "types" a));
  }

  -- `parseSection`.
  unfoldable pub parse_section : Fields → List (String × AssetInfo)
  unfolding parse_asset_info
  parse_section end = []
  parse_section (field code (obj a) rest) = (code, parse_asset_info (obj a)) ∷ parse_section rest
  parse_section (field code j rest) = parse_section rest

  unfoldable pub parse_sep6_info : Json → Sep6Info
  unfolding Json.get parse_section
  parse_sep6_info doc = record {
    withdraw = parse_section (fields_in (Json.get "withdraw" doc));
    withdraw_exchange = parse_section (fields_in (Json.get "withdraw-exchange" doc));
  }

unfoldable pub entry_of : String → List (String × AssetInfo) → Option AssetInfo
entry_of code [] = none
entry_of code ((name, info) ∷ rest) = if str_eq name code then some info else entry_of code rest
