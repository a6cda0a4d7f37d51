-- ===== src/Config/Parse/Sound.antt =====
-- Which files `Load` of internal/config/config.go accepts.
use mathlib.Core.Path.{subst}
use mathlib.Core.Option.{some_inj}
use hetdns.Prelude.{
  ℕ, ◌+◌, ◌≤◌, ◌≡◌, ◌↔◌, refl, sym, ap, ◌∙◌, Option, none, some, List, [], arith, take, length, ltb,
  if◌then◌else◌, length-take, take-all, ◌++◌,
}
use hetdns.Prelude.Text.{Text, text, decimal}
use hetdns.Config.{Config}
use hetdns.Config.Validate.{Codec, validate}
use hetdns.Config.Json.{Token, Stop, eof, ensure_eof, reject_duplicate_keys}
use hetdns.Config.Json.Value.{Json, print}
use hetdns.Config.Json.Tree.{tree, tree-print}
use hetdns.Config.Json.Sound.{reject_duplicate_keys_iff, ensure_eof-nil}
use hetdns.Config.Decode.{decode_config}
use hetdns.Config.Parse.{
  Reader, Parsed, parsed, not_parsed, File, content, not_opened, not_read, unless_error,
  max_config_size, on_config, on_tree, parse, on_file, load_config, IsText,
}

unless_error_iff :
    (e : Option Text) (next : Parsed) (cfg : Config)
    → (unless_error e next ≡ parsed cfg) ↔ ((e ≡ none) × (next ≡ parsed cfg))
unfolding unless_error
unless_error_iff none next cfg = ground arith
unless_error_iff (some e) next cfg = ground arith

parsed_inj : {a b : Config} → parsed a ≡ parsed b → a ≡ b
parsed_inj h = cc

sized_iff :
    (size : ℕ) (message : Text) (result : Parsed) (cfg : Config)
    → ((if ltb max_config_size size then not_parsed message else result) ≡ parsed cfg)
      ↔ ((size ≤ max_config_size) × (result ≡ parsed cfg))
sized_iff size message result cfg = ground arith

-- What `LimitReader` lets through is the whole file if the file is within the bound.
limited : (bytes : Text) → length bytes ≤ max_config_size → take (max_config_size + 1) bytes ≡ bytes
limited bytes h = take-all (max_config_size + 1) bytes (omega (arith, h))

within_bound :
    (bytes : Text)
    → length (take (max_config_size + 1) bytes) ≤ max_config_size
    → length bytes ≤ max_config_size
within_bound bytes h = omega (arith, length-take (max_config_size + 1) bytes, h)

content_inj : {a b : Text} → content a ≡ content b → a ≡ b
content_inj h = cc

module _ (reader : Reader) (codec : Codec) where
  valid_parsed :
      (cfg : Config)
      → validate codec cfg ≡ none
      → unless_error (validate codec cfg) (parsed cfg) ≡ parsed cfg
  valid_parsed cfg e = (unless_error_iff (validate codec cfg) (parsed cfg) cfg).1 (e, refl)

  on_config_iff :
      (bytes : Text) (o : Option Config) (cfg : Config)
      → (on_config reader codec bytes eof [] o ≡ parsed cfg)
        ↔ ((o ≡ some cfg) × (validate codec cfg ≡ none))
  unfolding on_config
  on_config_iff bytes none cfg = ground arith
  on_config_iff bytes (some c) cfg = (
    λ h.
        let (n, g) =
          (unless_error_iff (ensure_eof (record { tokens = []; stop = eof }))
              (unless_error (validate codec c) (parsed c)) cfg).0
            h in
        let (e, k) = (unless_error_iff (validate codec c) (parsed c) cfg).0 g in
        (ap some (parsed_inj k), subst (λ d. validate codec d ≡ none) (parsed_inj k) e),
    λ (e, k).
        (unless_error_iff (ensure_eof (record { tokens = []; stop = eof }))
            (unless_error (validate codec c) (parsed c)) cfg).1
          (
            ensure_eof-nil,
            subst (λ d. unless_error (validate codec d) (parsed d) ≡ parsed cfg)
                (sym (some_inj.0 e)) (valid_parsed cfg k),
          ),
  )

  on_print :
      (bytes : Text) (ts : List Token) (stop : Stop) (v : Json)
      → ts ≡ print v []
      → stop ≡ eof
      → on_tree reader codec bytes stop (tree ts)
        ≡ on_config reader codec bytes eof [] (decode_config reader.parse_duration v)
  unfolding on_tree
  on_print bytes ts stop v e k = rw (e, k, tree-print v []) refl

  pub parse_iff :
      (bytes : Text) (cfg : Config)
      → (parse reader codec bytes ≡ parsed cfg) ↔ IsText reader codec bytes cfg
  unfolding parse
  parse_iff bytes cfg =
      let d = reader.decoder_of bytes in
      let first =
        unless_error_iff (reject_duplicate_keys codec.quote d)
          (on_tree reader codec bytes d.stop (tree d.tokens)) cfg in
      let strict = reject_duplicate_keys_iff codec.quote d in
      (
        λ h.
            let (e, k) = first.0 h in
            let (v, s, p, q) = strict.0 e in
            let g = on_config_iff bytes (decode_config reader.parse_duration v) cfg in
            let (o, valid) = g.0 (sym (on_print bytes d.tokens d.stop v p q) ∙ k) in
            (v, s, p, q, o, valid),
        λ (v, s, p, q, o, valid).
            let g = on_config_iff bytes (decode_config reader.parse_duration v) cfg in
            first.1 (strict.1 (v, s, p, q), on_print bytes d.tokens d.stop v p q ∙ g.1 (o, valid)),
      )

  on_file_iff :
      (file : File) (cfg : Config)
      → (on_file reader codec file ≡ parsed cfg) ↔ (
          (bytes : Text) × (file ≡ content bytes)
          × (length bytes ≤ max_config_size)
          × IsText reader codec bytes cfg)
  unfolding on_file
  on_file_iff (content bytes) cfg =
      let read = take (max_config_size + 1) bytes in
      let sized =
        sized_iff (length read)
          (text "configuration exceeds " ++ (decimal max_config_size ++ text " bytes"))
          (parse reader codec read) cfg in
      (
        λ h.
            let (n, k) = sized.0 h in
            let m = within_bound bytes n in
            (
              bytes,
              refl,
              m,
              (parse_iff bytes cfg).0
                  (subst (λ s. parse reader codec s ≡ parsed cfg) (limited bytes m) k),
            ),
        λ (s, e, n, t).
            let m = subst (λ u. length u ≤ max_config_size) (sym (content_inj e)) n in
            let k = (parse_iff s cfg).1 t in
            sized.1 (
              omega (arith, ap length (limited bytes m), m),
              subst (λ u. parse reader codec u ≡ parsed cfg) (sym (limited bytes m ∙ content_inj e))
                  k,
            ),
      )
  on_file_iff (not_opened e) cfg = ground arith
  on_file_iff (not_read e) cfg = ground arith

  -- A file is loaded as a configuration if and only if it can be read, has at most 1 MiB, and is one
  -- strict JSON value, with nothing after it, of known fields only, each with a value of its type,
  -- that makes this configuration, which is valid.
  pub load_config_iff :
      (file_at : Text → File) (path : Text) (cfg : Config)
      → (load_config reader codec file_at path ≡ parsed cfg) ↔ (
          (bytes : Text) × (file_at path ≡ content bytes)
          × (length bytes ≤ max_config_size)
          × IsText reader codec bytes cfg)
  unfolding load_config
  load_config_iff file_at path cfg = on_file_iff (file_at path) cfg
