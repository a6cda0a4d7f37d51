-- ===== src/Config/Json/Sound.antt =====
-- What `rejectDuplicateKeys` of internal/config/config.go accepts.
use mathlib.Core.List.{Nodup, Nodup-nil}
use hetdns.Prelude.{
  ℕ, zero, suc, ◌+◌, ◌≡◌, ◌↔◌, refl, ap, ◌∙◌, true, false, none, List, [], ◌∷◌, ◌++◌, arith, length,
  Bool, if◌then◌else◌,
}
use hetdns.Prelude.Text.{Text, text}
use hetdns.Config.Json.{
  Token, null, literal, number, str, open_object, open_array, close, Stop, eof, broken, Decoder,
  Scan, scanned, refused, spent, and_then, at_index, has_key, scan_value, scan_fields, scan_items,
  ensure_eof, reject_duplicate_keys, after_value, on_scan,
}
use hetdns.Config.Json.Value.{
  Json, Items, Fields, json_bool, json_number, json_string, object, array, no_item, item, no_field,
  field, names, print, print_items, print_fields, IsStrict, AllItemsStrict, AllFieldsStrict,
}
use hetdns.Config.Json.Fresh.{AllFresh, fields_iff}
use hetdns.Config.Json.Accepts.{print-scanned}

and_then_inverse :
    (r : Scan) (next : List Token → Scan) (rest : List Token)
    → and_then r next ≡ scanned rest
    → (us : List Token) × (r ≡ scanned us) × (next us ≡ scanned rest)
unfolding and_then
and_then_inverse (scanned us) next rest h = (us, refl, h)
and_then_inverse (refused e) next rest h = absurd (ground (arith, h))
and_then_inverse spent next rest h = absurd (ground (arith, h))

unless :
    (b : Bool) (e : Text) (r : Scan) (rest : List Token)
    → (if b then refused e else r) ≡ scanned rest
    → (b ≡ false) × (r ≡ scanned rest)
unless true e r rest h = absurd (ground (arith, h))
unless false e r rest h = (refl, h)

scanned_inj : {us ws : List Token} → scanned us ≡ scanned ws → us ≡ ws
scanned_inj h = cc

-- The tokens are those of a strict value, of the items of one, or of the fields of one.
ValueRead : List Token → List Token → Type 0
ValueRead ts rest = (v : Json) × IsStrict v × (ts ≡ print v rest)

ItemsRead : List Token → List Token → Type 0
ItemsRead ts rest = (vs : Items) × AllItemsStrict vs × (ts ≡ print_items vs rest)

FieldsRead : List Text → List Token → List Token → Type 0
FieldsRead keys ts rest =
    (fs : Fields) × Nodup (names fs)
    × AllFresh keys (names fs)
    × AllFieldsStrict fs
    × (ts ≡ print_fields fs rest)

item_read : (ts us rest : List Token) → ValueRead ts us → ItemsRead us rest → ItemsRead ts rest
unfolding ValueRead ItemsRead AllItemsStrict print_items
item_read ts us rest (v, k, e) (vs, h, p) = (item v vs, (k, h), e ∙ ap (print v) p)

field_read :
    (key : Text) (keys : List Text) (ts us rest : List Token)
    → has_key key keys ≡ false
    → ValueRead ts us
    → FieldsRead (key ∷ keys) us rest
    → FieldsRead keys (str key ∷ ts) rest
unfolding ValueRead FieldsRead AllFieldsStrict print_fields
field_read key keys ts us rest new (v, k, e) (fs, d, a, h, p) =
    let (d', a') = (fields_iff key keys (names fs)).1 (d, a) in
    (field key v fs, d', (new, a'), (k, h), ap (λ w. str key ∷ w) (e ∙ ap (print v) p))

module _ (quote : Text → Text) (stop : Stop) where
  mutual
    unfolding scan_value scan_fields scan_items print print_items print_fields IsStrict
        AllItemsStrict AllFieldsStrict ValueRead ItemsRead FieldsRead

    value_read :
        (f : ℕ) (path : Text) (ts rest : List Token)
        → scan_value quote stop f path ts ≡ scanned rest
        → ValueRead ts rest
    value_read zero path ts rest h = absurd (ground (arith, h))
    value_read (suc f) path [] rest h = absurd (ground (arith, h))
    value_read (suc f) path (null ∷ ts) rest h = absurd (ground (arith, h))
    value_read (suc f) path (literal b ∷ ts) rest h =
        (json_bool b, tt, ap (λ us. literal b ∷ us) (scanned_inj h))
    value_read (suc f) path (number n ∷ ts) rest h =
        (json_number n, tt, ap (λ us. number n ∷ us) (scanned_inj h))
    value_read (suc f) path (str s ∷ ts) rest h =
        (json_string s, tt, ap (λ us. str s ∷ us) (scanned_inj h))
    value_read (suc f) path (open_object ∷ ts) rest h =
        let (fs, d, a, k, e) = fields_read f path [] ts rest h in
        (object fs, (d, k), ap (λ us. open_object ∷ us) e)
    value_read (suc f) path (open_array ∷ ts) rest h =
        let (vs, k, e) = items_read f path 0 ts rest h in
        (array vs, k, ap (λ us. open_array ∷ us) e)
    value_read (suc f) path (close ∷ ts) rest h = absurd (ground (arith, h))

    items_read :
        (f : ℕ) (path : Text) (i : ℕ) (ts rest : List Token)
        → scan_items quote stop f path i ts ≡ scanned rest
        → ItemsRead ts rest
    items_read zero path i ts rest h = absurd (ground (arith, h))
    items_read (suc f) path i [] rest h = absurd (ground (arith, h))
    items_read (suc f) path i (close ∷ ts) rest h =
        (no_item, tt, ap (λ us. close ∷ us) (scanned_inj h))
    items_read (suc f) path i (t ∷ ts) rest h =
        let (us, e, k) =
          and_then_inverse (scan_value quote stop f (at_index path i) (t ∷ ts))
            (λ us. scan_items quote stop f path (suc i) us) rest h in
        item_read (t ∷ ts) us rest (value_read f (at_index path i) (t ∷ ts) us e)
          (items_read f path (suc i) us rest k)

    fields_read :
        (f : ℕ) (path : Text) (keys : List Text) (ts rest : List Token)
        → scan_fields quote stop f path keys ts ≡ scanned rest
        → FieldsRead keys ts rest
    fields_read zero path keys ts rest h = absurd (ground (arith, h))
    fields_read (suc f) path keys [] rest h = absurd (ground (arith, h))
    fields_read (suc f) path keys (close ∷ ts) rest h =
        (no_field, Nodup-nil, tt, tt, ap (λ us. close ∷ us) (scanned_inj h))
    fields_read (suc f) path keys (str key ∷ ts) rest h =
        let (new, r) =
          unless (has_key key keys)
            (text "duplicate field " ++ (quote key ++ (text " at " ++ path)))
            (and_then (scan_value quote stop f (path ++ (text "." ++ key)) ts)
              (λ us. scan_fields quote stop f path (key ∷ keys) us))
            rest h in
        let (us, e, k) =
          and_then_inverse (scan_value quote stop f (path ++ (text "." ++ key)) ts)
            (λ us. scan_fields quote stop f path (key ∷ keys) us) rest r in
        field_read key keys ts us rest new (value_read f (path ++ (text "." ++ key)) ts us e)
          (fields_read f path (key ∷ keys) us rest k)
    fields_read (suc f) path keys (t ∷ ts) rest h = absurd (ground (arith, h))

value_ended :
    (stop : Stop) (rest : List Token) → after_value stop rest ≡ none → (rest ≡ []) × (stop ≡ eof)
unfolding after_value
value_ended eof [] h = (refl, refl)
value_ended (broken e) [] h = absurd (ground (arith, h))
value_ended stop (t ∷ ts) h = absurd (ground (arith, h))

scan_ended : (stop : Stop) (r : Scan) → on_scan stop r ≡ none → (r ≡ scanned []) × (stop ≡ eof)
unfolding on_scan ensure_eof
scan_ended stop (scanned rest) h = let (e, k) = value_ended stop rest h in (ap scanned e, k)
scan_ended stop (refused e) h = absurd (ground (arith, h))
scan_ended stop spent h = absurd (ground (arith, h))

pub ensure_eof-nil : ensure_eof (record { tokens = []; stop = eof }) ≡ none
unfolding ensure_eof after_value
ensure_eof-nil = refl

on_scanned : {stop : Stop} {r : Scan} → r ≡ scanned [] → stop ≡ eof → on_scan stop r ≡ none
unfolding on_scan ensure_eof after_value
on_scanned e k = rw (e, k) refl

-- Without an error the tokens are those of one JSON value, after which the input ends, that holds no
-- null and no object with two fields of one name; and there is no error for any such value.
pub reject_duplicate_keys_iff :
    (quote : Text → Text) (decoder : Decoder)
    → (reject_duplicate_keys quote decoder ≡ none)
      ↔ ((v : Json) × IsStrict v × (decoder.tokens ≡ print v []) × (decoder.stop ≡ eof))
unfolding reject_duplicate_keys ValueRead
reject_duplicate_keys_iff quote decoder =
    let ts = decoder.tokens in
    let f = suc (length ts + length ts) in
    (
      λ h.
          let (e, k) = scan_ended decoder.stop (scan_value quote decoder.stop f (text "$") ts) h in
          let (v, s, p) = value_read quote decoder.stop f (text "$") ts [] e in (v, s, p, k),
      λ (v, s, p, k).
          on_scanned
            (ap (λ us. scan_value quote decoder.stop f (text "$") us) p
              ∙ print-scanned quote decoder.stop v f (text "$") [] (omega (arith, ap length p)) s)
            k,
    )
