-- ===== src/Config/Decode.antt =====
-- How encoding/json fills the structs of internal/config/config.go, and the `UnmarshalJSON` of
-- `Duration`. `none` is an error. A null is none here: `rejectDuplicateKeys` has refused it before.
pub mod Spellings
use mathlib.Core.Option
use hetdns.Prelude.{
  ℕ, ◌-◌, ◌^◌, ◌&&◌, Bool, false, Option, none, some, List, [], ◌∷◌, map, ltb, leb, ◌==◌,
  if◌then◌else◌,
}
use hetdns.Prelude.Int.{ℤ, pos}
use hetdns.Prelude.Text.{Text, text, text_eq}
use hetdns.Prelude.Runes.{runes}
use hetdns.Prelude.Atoi.{parse_digits}
use hetdns.Prelude.Map.{Map, insert}
use hetdns.Config
use hetdns.Config.{Config}
use hetdns.Config.Json.Value.{
  Json, Items, Fields, json_bool, json_number, json_string, object, array, no_item, item, no_field,
  field,
}

-- The names of fields are compared without regard to case: a rune stands for the least one that
-- differs from it in case only, as far as that is ASCII (the long s and the Kelvin sign included).
fold_rune : ℕ → ℕ
fold_rune r =
    if leb b'a' r && leb r b'z'
    then r - 32
    else if r == 0x17f
    then b'S'
    else if r == 0x212a
    then b'K'
    else r

-- Whether a key of the JSON is the field with the given tag.
unfoldable pub is_field : Text → Text → Bool
unfolding fold_rune runes
is_field tag key = text_eq (map fold_rune (runes key)) (map fold_rune (runes tag))

unfoldable pub decode_text : Json → Option Text
decode_text (json_string s) = some s
decode_text v = none

unfoldable pub decode_bool : Json → Option Bool
decode_bool (json_bool b) = some b
decode_bool v = none

uint32 : Option ℕ → Option ℕ
uint32 none = none
uint32 (some n) = if ltb n (2 ^ 32) then some n else none

unfoldable pub decode_uint32 : Json → Option ℕ
unfolding uint32
decode_uint32 (json_number digits) = uint32 (parse_digits digits)
decode_uint32 v = none

cons_text : Option Text → Option (List Text) → Option (List Text)
cons_text none rest = none
cons_text (some s) rest = Option.map (λ ss. s ∷ ss) rest

decode_items : Items → Option (List Text)
unfolding cons_text decode_text
decode_items no_item = some []
decode_items (item v vs) = cons_text (decode_text v) (decode_items vs)

unfoldable pub decode_texts : Json → Option (List Text)
unfolding decode_items
decode_texts (array vs) = decode_items vs
decode_texts v = none

on_fields : {R : Type 0} → Option R → (R → Option R) → Option R
on_fields none next = none
on_fields (some r) next = next r

-- The fields of an object in their order, each into what the ones before it have filled.
module _ {R : Type 0} (set : Text → Json → R → Option R) where
  unfoldable pub fill : Fields → R → Option R
  unfolding on_fields
  fill no_field r = some r
  fill (field key v fs) r = on_fields (set key v r) (λ r'. fill fs r')

  unfoldable pub fill_object : Json → R → Option R
  fill_object (object fs) r = fill fs r
  fill_object v r = none

unfoldable pub record_field : Text → Json → Config.Record → Option Config.Record
record_field key v r =
    if is_field (text "zone") key
    then Option.map (λ s. record r { zone = s }) (decode_text v)
    else if is_field (text "name") key
    then Option.map (λ s. record r { name = s }) (decode_text v)
    else if is_field (text "type") key
    then Option.map (λ s. record r { kind = s }) (decode_text v)
    else if is_field (text "source") key
    then Option.map (λ s. record r { source = s }) (decode_text v)
    else if is_field (text "ttl") key
    then Option.map (λ n. record r { ttl = n }) (decode_uint32 v)
    else if is_field (text "create") key
    then Option.map (λ b. record r { create = some b }) (decode_bool v)
    else if is_field (text "replace_all") key
    then Option.map (λ b. record r { replace_all = b }) (decode_bool v)
    else none

abbrev pub no_record : Config.Record
no_record = record {
  zone = [];
  name = [];
  kind = [];
  source = [];
  ttl = 0;
  create = none;
  replace_all = false;
}

unfoldable pub decode_record : Json → Option Config.Record
decode_record v = fill_object record_field v no_record

abbrev pub no_source : Config.Source
no_source = record {
  kind = [];
  family = [];
  url = [];
  argv = [];
  timeout = pos 0;
  user_agent = none;
  allow_non_public = false;
  allow_insecure_http = false;
  allow_private_networks = false;
}

-- An entry of a map, over one of the same key.
map_entry : {V : Type 0} → (Json → Option V) → Text → Json → Map V → Option (Map V)
map_entry decode key v m = Option.map (λ x. insert key x m) (decode v)

-- `parse_duration` is `time.ParseDuration`.
module _ (parse_duration : Text → Option ℤ) where
  on_duration : Option Text → Option ℤ
  on_duration none = none
  on_duration (some s) = parse_duration s

  -- `UnmarshalJSON`.
  unfoldable pub unmarshal_duration : Json → Option ℤ
  unfolding on_duration
  unmarshal_duration v = on_duration (decode_text v)

  unfoldable pub source_field : Text → Json → Config.Source → Option Config.Source
  source_field key v s =
      if is_field (text "type") key
      then Option.map (λ t. record s { kind = t }) (decode_text v)
      else if is_field (text "family") key
      then Option.map (λ t. record s { family = t }) (decode_text v)
      else if is_field (text "url") key
      then Option.map (λ t. record s { url = t }) (decode_text v)
      else if is_field (text "argv") key
      then Option.map (λ ts. record s { argv = ts }) (decode_texts v)
      else if is_field (text "timeout") key
      then Option.map (λ d. record s { timeout = d }) (unmarshal_duration v)
      else if is_field (text "user_agent") key
      then Option.map (λ t. record s { user_agent = some t }) (decode_text v)
      else if is_field (text "allow_non_public") key
      then Option.map (λ b. record s { allow_non_public = b }) (decode_bool v)
      else if is_field (text "allow_insecure_http") key
      then Option.map (λ b. record s { allow_insecure_http = b }) (decode_bool v)
      else if is_field (text "allow_private_networks") key
      then Option.map (λ b. record s { allow_private_networks = b }) (decode_bool v)
      else none

  unfoldable pub decode_source : Json → Option Config.Source
  decode_source v = fill_object source_field v no_source

  config_field : Text → Json → Config → Option Config
  unfolding map_entry
  config_field key v cfg =
      if is_field (text "sources") key
      then Option.map (λ m. record cfg { sources = m })
          (fill_object (map_entry decode_source) v cfg.sources)
      else if is_field (text "records") key
      then Option.map (λ m. record cfg { records = m })
          (fill_object (map_entry decode_record) v cfg.records)
      else none

  -- `Decode(&cfg)` of a value, with `DisallowUnknownFields`.
  unfoldable pub decode_config : Json → Option Config
  unfolding config_field
  decode_config v = fill_object config_field v (record { sources = []; records = [] })
