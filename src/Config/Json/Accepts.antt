-- ===== src/Config/Json/Accepts.antt =====
-- `scanJSONValue` of internal/config/config.go reads the tokens of every strict value to its end.
use mathlib.Core.List.{Nodup}
use hetdns.Prelude.{
  ℕ, zero, suc, ◌+◌, ◌<◌, ◌≡◌, refl, ◌∙◌, false, List, [], ◌∷◌, ◌++◌, arith, length,
}
use hetdns.Prelude.Text.{Text, text}
use hetdns.Config.Json.{
  Token, Stop, Scan, scanned, and_then, at_index, has_key, scan_value, scan_fields, scan_items,
}
use hetdns.Config.Json.Value.{
  Json, Items, Fields, json_null, json_bool, json_number, json_string, object, array, no_item, item,
  no_field, field, names, print, print_items, print_fields, IsStrict, AllItemsStrict,
  AllFieldsStrict, print-longer,
}
use hetdns.Config.Json.Fresh.{AllFresh, AllFresh-nil, fields_iff}

-- The fuel suffices for some tokens.
abbrev Enough : ℕ → List Token → Type 0
Enough f ts = length ts + length ts < f

and_then-scanned :
    {r : Scan} {us : List Token} (next : List Token → Scan)
    → r ≡ scanned us
    → and_then r next ≡ next us
unfolding and_then
and_then-scanned next e = rw e refl

module _ (quote : Text → Text) (stop : Stop) where
  -- A round of the loop over the items, at a value.
  item_round :
      (f : ℕ) (path : Text) (i : ℕ) (v : Json) (us : List Token)
      → scan_items quote stop (suc f) path i (print v us)
        ≡ and_then
            (scan_value quote stop f (at_index path i) (print v us))
            (λ ws. scan_items quote stop f path (suc i) ws)
  unfolding scan_items print and_then
  item_round f path i json_null us = refl
  item_round f path i (json_bool b) us = refl
  item_round f path i (json_number n) us = refl
  item_round f path i (json_string s) us = refl
  item_round f path i (object fs) us = refl
  item_round f path i (array vs) us = refl

  field_round :
      (f : ℕ) (path key : Text) (keys : List Text) (ts : List Token)
      → has_key key keys ≡ false
      → scan_fields quote stop (suc f) path keys (Token.str key ∷ ts)
        ≡ and_then
            (scan_value quote stop f (path ++ (text "." ++ key)) ts)
            (λ us. scan_fields quote stop f path (key ∷ keys) us)
  unfolding scan_fields and_then
  field_round f path key keys ts e = rw e refl

  mutual
    unfolding scan_value scan_fields scan_items print print_items print_fields IsStrict
        AllItemsStrict AllFieldsStrict

    pub print-scanned :
        (v : Json) (f : ℕ) (path : Text) (rest : List Token)
        → Enough f (print v rest)
        → IsStrict v
        → scan_value quote stop f path (print v rest) ≡ scanned rest
    print-scanned v zero path rest n h = absurd (omega (arith, n))
    print-scanned json_null (suc f) path rest n h = absurd h
    print-scanned (json_bool b) (suc f) path rest n h = refl
    print-scanned (json_number m) (suc f) path rest n h = refl
    print-scanned (json_string s) (suc f) path rest n h = refl
    print-scanned (object fs) (suc f) path rest n (d, h) =
        print_fields-scanned fs f path [] rest (omega (arith, n)) d (AllFresh-nil (names fs)) h
    print-scanned (array vs) (suc f) path rest n h =
        print_items-scanned vs f path 0 rest (omega (arith, n)) h

    print_items-scanned :
        (vs : Items) (f : ℕ) (path : Text) (i : ℕ) (rest : List Token)
        → suc (length (print_items vs rest) + length (print_items vs rest)) < f
        → AllItemsStrict vs
        → scan_items quote stop f path i (print_items vs rest) ≡ scanned rest
    print_items-scanned vs zero path i rest n h = absurd (omega (arith, n))
    print_items-scanned no_item (suc f) path i rest n h = refl
    print_items-scanned (item v vs) (suc f) path i rest n (k, h) =
        item_round f path i v (print_items vs rest)
        ∙ and_then-scanned (λ ws. scan_items quote stop f path (suc i) ws)
            (print-scanned v f (at_index path i) (print_items vs rest) (omega (arith, n)) k)
        ∙ print_items-scanned vs f path (suc i) rest
            (omega (arith, n, print-longer v (print_items vs rest))) h

    print_fields-scanned :
        (fs : Fields) (f : ℕ) (path : Text) (keys : List Text) (rest : List Token)
        → Enough f (print_fields fs rest)
        → Nodup (names fs)
        → AllFresh keys (names fs)
        → AllFieldsStrict fs
        → scan_fields quote stop f path keys (print_fields fs rest) ≡ scanned rest
    print_fields-scanned fs zero path keys rest n d a h = absurd (omega (arith, n))
    print_fields-scanned no_field (suc f) path keys rest n d a h = refl
    print_fields-scanned (field key v fs) (suc f) path keys rest n d a (k, h) =
        let (d', a') = (fields_iff key keys (names fs)).0 (d, a.1) in
        field_round f path key keys (print v (print_fields fs rest)) a.0
        ∙ and_then-scanned (λ us. scan_fields quote stop f path (key ∷ keys) us)
            (print-scanned v f (path ++ (text "." ++ key)) (print_fields fs rest) (omega (arith, n))
              k)
        ∙ print_fields-scanned fs f path (key ∷ keys) rest
            (omega (arith, n, print-longer v (print_fields fs rest))) d' a' h
