-- ===== src/Config/Json/Tree.antt =====
-- How `Decode` of encoding/json reads the tokens of a value, and that it reads each value back.
use hetdns.Prelude.{
  ℕ, zero, suc, ◌+◌, ◌<◌, ◌≡◌, refl, ◌∙◌, Option, none, some, List, [], ◌∷◌, arith, length,
}
use hetdns.Config.Json.{Token, null, literal, number, str, open_object, open_array, close}
use hetdns.Config.Json.Value.{
  Json, Items, Fields, json_null, json_bool, json_number, json_string, object, array, no_item, item,
  no_field, field, print, print_items, print_fields, print-longer,
}

-- A value that is read and the tokens after it; `none` if there is no whole value.
abbrev pub Read : Type 0 → Type 0
Read A = Option (A × List Token)

read_as : {A B : Type 0} → (A → B) → Read A → Read B
read_as f none = none
read_as f (some (a, ts)) = some (f a, ts)

read_then : {A B C : Type 0} → (A → B → C) → Read A → (List Token → Read B) → Read C
unfolding read_as
read_then f none next = none
read_then f (some (a, ts)) next = read_as (f a) (next ts)

unfoldable mutual
  unfolding read_as read_then

  pub read_value : ℕ → List Token → Read Json
  read_value zero ts = none
  read_value (suc f) [] = none
  read_value (suc f) (null ∷ ts) = some (json_null, ts)
  read_value (suc f) (literal b ∷ ts) = some (json_bool b, ts)
  read_value (suc f) (number n ∷ ts) = some (json_number n, ts)
  read_value (suc f) (str s ∷ ts) = some (json_string s, ts)
  read_value (suc f) (open_object ∷ ts) = read_as object (read_fields f ts)
  read_value (suc f) (open_array ∷ ts) = read_as array (read_items f ts)
  read_value (suc f) (close ∷ ts) = none

  pub read_items : ℕ → List Token → Read Items
  read_items zero ts = none
  read_items (suc f) [] = none
  read_items (suc f) (close ∷ ts) = some (no_item, ts)
  read_items (suc f) (t ∷ ts) = read_then item (read_value f (t ∷ ts)) (λ us. read_items f us)

  pub read_fields : ℕ → List Token → Read Fields
  read_fields zero ts = none
  read_fields (suc f) (close ∷ ts) = some (no_field, ts)
  read_fields (suc f) (str key ∷ ts) =
      read_then (field key) (read_value f ts) (λ us. read_fields f us)
  read_fields (suc f) ts = none

-- The first value of the tokens; two units of fuel for each token are enough.

unfoldable pub tree : List Token → Read Json
tree ts = read_value (suc (length ts + length ts)) ts

read_as-some :
    {A B : Type 0} {r : Read A} {a : A} {ts : List Token} (f : A → B)
    → ◌≡◌ {A = Read A} r (some (a, ts))
    → ◌≡◌ {A = Read B} (read_as f r) (some (f a, ts))
unfolding read_as
read_as-some f e = rw e refl

read_then-some :
    {A B C : Type 0} {r : Read A} {a : A} {b : B} {ts us : List Token} (f : A → B → C)
    (next : List Token → Read B)
    → ◌≡◌ {A = Read A} r (some (a, ts))
    → ◌≡◌ {A = Read B} (next ts) (some (b, us))
    → ◌≡◌ {A = Read C} (read_then f r next) (some (f a b, us))
unfolding read_then read_as
read_then-some f next e k = rw e (read_as-some (f _) k)

item_round :
    (f : ℕ) (v : Json) (us : List Token)
    → read_items (suc f) (print v us)
      ≡ read_then item (read_value f (print v us)) (λ ws. read_items f ws)
unfolding read_items print read_then
item_round f json_null us = refl
item_round f (json_bool b) us = refl
item_round f (json_number n) us = refl
item_round f (json_string s) us = refl
item_round f (object fs) us = refl
item_round f (array vs) us = refl

mutual
  unfolding read_value read_items read_fields print print_items print_fields

  print-read :
      (v : Json) (f : ℕ) (rest : List Token)
      → length (print v rest) + length (print v rest) < f
      → read_value f (print v rest) ≡ some (v, rest)
  print-read v zero rest n = absurd (omega (arith, n))
  print-read json_null (suc f) rest n = refl
  print-read (json_bool b) (suc f) rest n = refl
  print-read (json_number m) (suc f) rest n = refl
  print-read (json_string s) (suc f) rest n = refl
  print-read (object fs) (suc f) rest n =
      read_as-some object (print_fields-read fs f rest (omega (arith, n)))
  print-read (array vs) (suc f) rest n =
      read_as-some array (print_items-read vs f rest (omega (arith, n)))

  print_items-read :
      (vs : Items) (f : ℕ) (rest : List Token)
      → suc (length (print_items vs rest) + length (print_items vs rest)) < f
      → read_items f (print_items vs rest) ≡ some (vs, rest)
  print_items-read vs zero rest n = absurd (omega (arith, n))
  print_items-read no_item (suc f) rest n = refl
  print_items-read (item v vs) (suc f) rest n =
      item_round f v (print_items vs rest)
      ∙ read_then-some item (λ ws. read_items f ws)
          (print-read v f (print_items vs rest) (omega (arith, n)))
          (print_items-read vs f rest (omega (arith, n, print-longer v (print_items vs rest))))

  print_fields-read :
      (fs : Fields) (f : ℕ) (rest : List Token)
      → length (print_fields fs rest) + length (print_fields fs rest) < f
      → read_fields f (print_fields fs rest) ≡ some (fs, rest)
  print_fields-read fs zero rest n = absurd (omega (arith, n))
  print_fields-read no_field (suc f) rest n = refl
  print_fields-read (field key v fs) (suc f) rest n =
      read_then-some (field key) (λ ws. read_fields f ws)
        (print-read v f (print_fields fs rest) (omega (arith, n)))
        (print_fields-read fs f rest (omega (arith, n, print-longer v (print_fields fs rest))))

pub tree-print : (v : Json) (rest : List Token) → tree (print v rest) ≡ some (v, rest)
unfolding tree
tree-print v rest =
    print-read v (suc (length (print v rest) + length (print v rest))) rest (omega arith)
