-- ===== src/Config/Json/Value.antt =====
-- JSON values as trees, the tokens of each, and what the strict reader of
-- internal/config/config.go allows.
use hetdns.Prelude.{◌<◌, Bool, List, [], ◌∷◌, length, arith}
use mathlib.Core.List.{Nodup}
use hetdns.Prelude.Text.{Text}
use hetdns.Config.Json.{Token, null, literal, number, open_object, open_array, close, str}

mutual
  pub data Json : Type 0 where
    json_null : Json
    json_bool : Bool → Json
    json_number : Text → Json
    json_string : Text → Json
    object : Fields → Json
    array : Items → Json

  pub data Items : Type 0 where
    no_item : Items
    item : Json → Items → Items

  pub data Fields : Type 0 where
    no_field : Fields
    field : Text → Json → Fields → Fields

abbrev pub names : Fields → List Text
names no_field = []
names (field key v fs) = key ∷ names fs

-- The tokens of a value, before others.
unfoldable mutual
  pub print : Json → List Token → List Token
  print json_null ts = null ∷ ts
  print (json_bool b) ts = literal b ∷ ts
  print (json_number n) ts = number n ∷ ts
  print (json_string s) ts = str s ∷ ts
  print (object fs) ts = open_object ∷ print_fields fs ts
  print (array vs) ts = open_array ∷ print_items vs ts

  pub print_items : Items → List Token → List Token
  print_items no_item ts = close ∷ ts
  print_items (item v vs) ts = print v (print_items vs ts)

  pub print_fields : Fields → List Token → List Token
  print_fields no_field ts = close ∷ ts
  print_fields (field key v fs) ts = str key ∷ print v (print_fields fs ts)

-- No null anywhere, and no object with two fields of one name.
unfoldable mutual
  pub IsStrict : Json → Type 0
  IsStrict json_null = ⊥
  IsStrict (json_bool b) = Unit
  IsStrict (json_number n) = Unit
  IsStrict (json_string s) = Unit
  IsStrict (object fs) = Nodup (names fs) × AllFieldsStrict fs
  IsStrict (array vs) = AllItemsStrict vs

  pub AllItemsStrict : Items → Type 0
  AllItemsStrict no_item = Unit
  AllItemsStrict (item v vs) = IsStrict v × AllItemsStrict vs

  pub AllFieldsStrict : Fields → Type 0
  AllFieldsStrict no_field = Unit
  AllFieldsStrict (field key v fs) = IsStrict v × AllFieldsStrict fs

-- What is printed before some tokens makes them longer.
mutual
  unfolding print print_items print_fields

  pub print-longer : (v : Json) (ts : List Token) → length ts < length (print v ts)
  print-longer json_null ts = omega arith
  print-longer (json_bool b) ts = omega arith
  print-longer (json_number n) ts = omega arith
  print-longer (json_string s) ts = omega arith
  print-longer (object fs) ts = omega (arith, print_fields-longer fs ts)
  print-longer (array vs) ts = omega (arith, print_items-longer vs ts)

  pub print_items-longer : (vs : Items) (ts : List Token) → length ts < length (print_items vs ts)
  print_items-longer no_item ts = omega arith
  print_items-longer (item v vs) ts =
      omega (arith, print-longer v (print_items vs ts), print_items-longer vs ts)

  pub print_fields-longer :
      (fs : Fields) (ts : List Token) → length ts < length (print_fields fs ts)
  print_fields-longer no_field ts = omega arith
  print_fields-longer (field key v fs) ts =
      omega (arith, print-longer v (print_fields fs ts), print_fields-longer fs ts)
