-- ===== src/Config/Decode/Spellings.antt =====
-- Two spellings of a field in the structs of internal/config/config.go.
use mathlib.Core.List.{Nodup, Nodup-nil, Nodup-cons, not-mem-nil, mem_of_ne_of_mem}
use hetdns.Prelude.{◌≡◌, ◌≢◌, refl, true, some, [], ◌∷◌}
use hetdns.Prelude.Text.{Text, text, text_eq}
use hetdns.Config.Json.Value.{json_string, object, no_field, field, IsStrict}
use hetdns.Config
use hetdns.Config.Decode.{
  on_fields, is_field, decode_record, no_record, decode_text, fill, fill_object, record_field,
}

two_apart : (a b : Text) → a ≢ b → Nodup (a ∷ b ∷ [])
two_apart a b n =
    Nodup-cons.1 (λ m. not-mem-nil (mem_of_ne_of_mem n m), Nodup-cons.1 (not-mem-nil, Nodup-nil))

zone_field :
    (key s : Text) (r : Config.Record)
    → is_field (text "zone") key ≡ true
    → record_field key (json_string s) r ≡ some (record r { zone = s })
unfolding record_field decode_text
zone_field key s r h = rw h refl

zone_itself : is_field (text "zone") (text "zone") ≡ true
unfolding is_field text_eq
zone_itself = refl

-- An object with a zone under the name "zone" and another under a name that differs from it in the
-- case of its letters only has no two fields of one name, and makes a record with the later zone.
pub spelling_overrides :
    (first later key : Text)
    → text "zone" ≢ key
    → is_field (text "zone") key ≡ true
    → IsStrict
        (object (field (text "zone") (json_string first) (field key (json_string later) no_field)))
      × (decode_record (
            object
              (field (text "zone") (json_string first) (field key (json_string later) no_field)))
          ≡ some (record no_record { zone = later }))
unfolding IsStrict decode_record fill fill_object on_fields
spelling_overrides first later key n h = (
  (two_apart (text "zone") key n, (tt, (tt, tt))),
  rw
      (
        zone_field (text "zone") first no_record zone_itself,
        zone_field key later (record no_record { zone = first }) h,
      )
      refl,
)
