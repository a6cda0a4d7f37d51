-- ===== src/Source/Build/Valid.antt =====
-- The sources of a valid configuration, by internal/config and internal/source.
use hetdns.Prelude.{
  ◌≡◌, ◌≢◌, inl, inr, refl, false, none, some, List, [], ◌∷◌, All, All-imp, map, arith, Bool-cases,
}
use hetdns.Prelude.Text.{Text, text, text_eq, text_eq_iff, text_eq_refl}
use hetdns.Prelude.Sort.{sort_texts, All-sort_texts}
use hetdns.Prelude.Map.{Map, lookup, keys}
use hetdns.Config
use hetdns.Config.{Config}
use hetdns.Config.Validate.{Codec, validate, first_arg}
use hetdns.Config.Validate.Sources.{IsSource}
use hetdns.Config.Validate.Sound.{SourceEntry, validate_iff}
use hetdns.Source.Fetch.{new_http, new_command, command_of}
use hetdns.Source.Build.{
  Item, item_id, Built, built, of_command, new_item, with_rest, new_items, new_sources,
}

not_http : (kind : Text) → kind ≡ text "command" → text_eq kind (text "http") ≡ false
not_http kind e = ground (arith, text_eq_iff kind (text "http"), e)

-- An id reads an acceptable source in the map.
abbrev Reads : Codec → Map Config.Source → Text → Type 0
Reads codec m id = (spec : Config.Source) × (lookup id m ≡ some spec) × IsSource codec spec

Reads-cons :
    (codec : Codec) (m : Map Config.Source) (k : Text) (v : Config.Source)
    → IsSource codec v
    → (id : Text) → Reads codec m id
    → Reads codec ((k, v) ∷ m) id
unfolding lookup
Reads-cons codec m k v ok id (spec, e, h) = elim (Bool-cases (text_eq k id)) [
  | inl same ↦ (v, rw same refl, ok)
  | inr other ↦ (spec, rw other e, h)
]

Reads-own :
    (codec : Codec) (m : Map Config.Source)
    → All (SourceEntry codec) m
    → All (Reads codec m) (keys m)
unfolding lookup
Reads-own codec [] h = tt
Reads-own codec ((k, v) ∷ m) h = (
  (v, rw (text_eq_refl k) refl, h.0.1),
  All-imp (Reads codec m) (Reads codec ((k, v) ∷ m)) (keys m) (Reads-cons codec m k v h.0.1)
      (Reads-own codec m h.1),
)

-- The item of an id.
abbrev Has : Text → Built Item → Type 0
Has id r = (item : Item) × (r ≡ built item) × (item_id item ≡ id)

command_built :
    (argv : List Text) (id : Text) (spec : Config.Source)
    → first_arg argv ≢ []
    → Has id (of_command (command_of argv id spec))
unfolding of_command
command_built [] id spec h = absurd (h refl)
command_built (arg ∷ args) id spec h = (_, refl, refl)

new_item-built :
    (codec : Codec) (quote : Text → Text) (user_agent id : Text) (spec : Config.Source)
    → IsSource codec spec
    → Has id (new_item quote user_agent id spec)
unfolding new_item new_http new_command
new_item-built codec quote user_agent id spec (family, low, high, inl (e, h)) =
    rw ((text_eq_iff spec.kind (text "http")).1 e) (_, refl, refl)
new_item-built codec quote user_agent id spec (family, low, high, inr (e, h)) =
    rw (not_http spec.kind e, (text_eq_iff spec.kind (text "command")).1 e)
      (command_built spec.argv id spec h.1)

new_items-built :
    (codec : Codec) (quote : Text → Text) (user_agent : Text) (sources : Map Config.Source)
    (ids : List Text)
    → All (Reads codec sources) ids
    → (items : List Item) × (new_items quote user_agent sources ids ≡ built items)
      × (map item_id items ≡ ids)
unfolding new_items with_rest
new_items-built codec quote user_agent sources [] h = ([], refl, refl)
new_items-built codec quote user_agent sources (id ∷ ids) ((spec, e, ok), more) =
    let (item, made, own) = new_item-built codec quote user_agent id spec ok in
    let (items, rest, names) = new_items-built codec quote user_agent sources ids more in
    (item ∷ items, rw (e, made, rest) refl, rw (own, names) refl)

-- Every configuration that `Validate` accepts has its sources built without an error, each under its
-- own id and in the order of the ids.
pub valid_sources_built :
    (codec : Codec) (quote : Text → Text) (cfg : Config) (user_agent : Text)
    → validate codec cfg ≡ none
    → (items : List Item) × (new_sources quote cfg.sources user_agent ≡ built items)
      × (map item_id items ≡ sort_texts (keys cfg.sources))
unfolding new_sources
valid_sources_built codec quote cfg user_agent valid =
    let (some_source, some_record, sources, records) = (validate_iff codec cfg).0 valid in
    new_items-built codec quote user_agent cfg.sources (sort_texts (keys cfg.sources)) (
      All-sort_texts (Reads codec cfg.sources) (keys cfg.sources)
        (Reads-own codec cfg.sources sources))
