-- ===== src/Config/Parse.antt =====
-- `Parse` and `Load` of internal/config/config.go.
pub mod Sound
use mathlib.Core.Path.{subst}
use hetdns.Prelude.{
  ℕ, ◌+◌, ◌^◌, ◌≤◌, ◌≡◌, ◌↔◌, refl, sym, ap, ◌∙◌, Option, none, some, List, [], ◌++◌, arith, take,
  length, ltb, if◌then◌else◌, length-take, take-all, true, false, Bool,
}
use hetdns.Prelude.Int.{ℤ}
use hetdns.Prelude.Text.{Text, text, decimal}
use hetdns.Config.{Config}
use hetdns.Config.Validate.{Codec, validate}
use hetdns.Config.Json.{Token, Stop, eof, Decoder, ensure_eof, reject_duplicate_keys}
use hetdns.Config.Json.Value.{Json, print, IsStrict}
use hetdns.Config.Json.Tree.{Read, tree, tree-print}
use hetdns.Config.Json.Sound.{reject_duplicate_keys_iff}
use hetdns.Config.Decode.{decode_config}

-- The tokens of a text for `json.NewDecoder`, the message of the first error of `Decode(&cfg)`, and
-- `time.ParseDuration`.
pub record Reader : Type 0 where
  pub decoder_of : Text → Decoder
  pub decode_message : Text → Text
  pub parse_duration : Text → Option ℤ

pub data Parsed : Type 0 where
  parsed : Config → Parsed
  not_parsed : Text → Parsed

-- What becomes of a file that is opened and read.
pub data File : Type 0 where
  content : Text → File
  not_opened : Text → File
  not_read : Text → File

-- An error ends the parse.
unless_error : Option Text → Parsed → Parsed
unless_error none next = next
unless_error (some e) next = not_parsed e

abbrev pub max_config_size : ℕ
max_config_size = 2 ^ 20

module _ (reader : Reader) (codec : Codec) where
  on_config : Text → Stop → List Token → Option Config → Parsed
  unfolding unless_error
  on_config bytes stop rest none =
      not_parsed (text "decode configuration: " ++ reader.decode_message bytes)
  on_config bytes stop rest (some cfg) =
      unless_error (ensure_eof (record { tokens = rest; stop = stop }))
        (unless_error (validate codec cfg) (parsed cfg))

  on_tree : Text → Stop → Read Json → Parsed
  unfolding on_config
  on_tree bytes stop none =
      not_parsed (text "decode configuration: " ++ reader.decode_message bytes)
  on_tree bytes stop (some (v, rest)) =
      on_config bytes stop rest (decode_config reader.parse_duration v)

  -- `Parse`.
  unfoldable pub parse : Text → Parsed
  unfolding unless_error on_tree
  parse bytes =
      let decoder = reader.decoder_of bytes in
      unless_error (reject_duplicate_keys codec.quote decoder)
        (on_tree bytes decoder.stop (tree decoder.tokens))

  on_file : File → Parsed
  on_file (content bytes) =
      let read = take (max_config_size + 1) bytes in
      let result = parse read in
      if ltb max_config_size (length read)
      then not_parsed (text "configuration exceeds " ++ (decimal max_config_size ++ text " bytes"))
      else result
  on_file (not_opened e) = not_parsed (text "open configuration: " ++ e)
  on_file (not_read e) = not_parsed (text "read configuration: " ++ e)

  -- `Load`, with the file system.
  unfoldable pub load_config : (Text → File) → Text → Parsed
  unfolding on_file
  load_config file_at path = on_file (file_at path)

  -- A text is one strict JSON value with nothing after it, whose fields are all known and have values
  -- of their types, and which makes a valid configuration.
  abbrev pub IsText : Text → Config → Type 0
  IsText bytes cfg =
      (v : Json) × IsStrict v
      × ((reader.decoder_of bytes).tokens ≡ print v [])
      × ((reader.decoder_of bytes).stop ≡ eof)
      × (decode_config reader.parse_duration v ≡ some cfg)
      × (validate codec cfg ≡ none)
