-- ===== src/Source/Build.antt =====
-- `New` of internal/source/source.go.
pub mod Valid
use hetdns.Prelude.{ℕ, ◌++◌, Option, none, some, List, [], ◌∷◌, if◌then◌else◌}
use hetdns.Prelude.Text.{Text, text, text_eq}
use hetdns.Prelude.Sort.{sort_texts}
use hetdns.Prelude.Map.{Map, or_zero, lookup, keys}
use hetdns.Config
use hetdns.Source.Fetch.{HttpSource, CommandSource, new_http, new_command, zero_spec}

-- A value of the interface `Source`.
pub data Item : Type 0 where
  http : HttpSource → Item
  command : CommandSource → Item

abbrev pub item_id : Item → Text
item_id (http s) = s.id
item_id (command s) = s.id

pub data Built (A : Type 0) : Type 0 where
  built : A → Built A
  not_built : Text → Built A

of_command : Option CommandSource → Built Item
of_command none = not_built (text "empty command")
of_command (some s) = built (command s)

-- The switch of the loop, with `%q`.
new_item : (Text → Text) → Text → Text → Config.Source → Built Item
unfolding of_command
new_item quote user_agent id spec =
    if text_eq spec.kind (text "http")
    then built (http (new_http id spec user_agent))
    else if text_eq spec.kind (text "command")
    then of_command (new_command id spec)
    else not_built (text "unsupported source type " ++ quote spec.kind)

with_rest : Text → Built Item → Built (List Item) → Built (List Item)
with_rest id (not_built e) rest = not_built (text "source " ++ (id ++ (text ": " ++ e)))
with_rest id (built item) (built items) = built (item ∷ items)
with_rest id (built item) (not_built e) = not_built e

new_items : (Text → Text) → Text → Map Config.Source → List Text → Built (List Item)
unfolding with_rest new_item
new_items quote user_agent sources [] = built []
new_items quote user_agent sources (id ∷ ids) =
    with_rest id (new_item quote user_agent id (or_zero zero_spec (lookup id sources)))
      (new_items quote user_agent sources ids)

-- `New`: the sources in the order of their ids.
unfoldable pub new_sources : (Text → Text) → Map Config.Source → Text → Built (List Item)
unfolding new_items
new_sources quote sources user_agent =
    new_items quote user_agent sources (sort_texts (keys sources))
