-- ===== src/Tests/Startup.antt =====
-- cmd/hetdns and the reading of the configuration at concrete inputs.
use hetdns.Config.Names.{split_dots, valid_domain, valid_id, valid_label, valid_labels, valid_owner}
use hetdns.Prelude.Atoi.{parse_digits}
use hetdns.Config.Validate.{validate, validate_record, validate_source}
use hetdns.Prelude.Trim.{has_prefix, trim_blank}
use hetdns.Prelude.{
  ◌≡◌, ◌↔◌, refl, true, false, Option, none, some, List, [], ◌∷◌, length, arith, ◌*◌, ◌≤◌,
  if◌then◌else◌,
}
use hetdns.Prelude.Int.{pos, minute}
use hetdns.Prelude.Text.{Text, text, text_eq}
use hetdns.Config.Json.{ensure_eof, reject_duplicate_keys, eof, scan_value}
use hetdns.Config.Json.Value.{
  Json, json_number, json_string, object, array, no_item, item, no_field, field, print, IsStrict,
}
use hetdns.Config.Json.Tree.{read_value, tree}
use hetdns.Config.Decode.{
  decode_config, decode_source, decode_text, decode_uint32, fill, fill_object, record_field,
  source_field, is_field, decode_record, no_record,
}
use hetdns.Config.Decode.Spellings.{spelling_overrides}
use hetdns.Config.Parse
use hetdns.Config.Parse.{Reader, parsed, load_config, max_config_size, IsText}
use hetdns.Config.Parse.Sound.{load_config_iff}
use mathlib.Core.List.{Nodup-nil, Nodup-cons, not-mem-nil}
use hetdns.Prelude.Map.{insert, lookup, lookup}
use hetdns.App.{Options}
use hetdns.Config.Token
use hetdns.Main.{exit_of, on_flags, Logging, System, run}
use hetdns.Main.Settings.{environment_duration, environment_int, parse_log_level, debug}
use hetdns.Main.Flags
use hetdns.Main.Flags.{flags, parse_arguments, default_flags}
use hetdns.Main.Walk.{MayStart}
use hetdns.Main.Starts.{run_starts}
use hetdns.Main.Exits.{IsExit, run-IsExit}
use hetdns.BuildInfo.{new_info}
use hetdns.Tests.Data.{cfg}
use hetdns.Tests.Guards.{codec}

one : Text → Json → Json
one key v = object (field key v no_field)

record_json : Text → Json
record_json zone = object (
    field (text "zone") (json_string zone) (
      field (text "name") (json_string (text "www")) (
        field (text "type") (json_string (text "A")) (
          field (text "source") (json_string (text "wan"))
            (field (text "ttl") (json_number (text "60")) no_field)))))

-- The JSON of the configuration of the tests.
cfg_json : Json
unfolding record_json one
cfg_json = object (
    field (text "sources")
      (one (text "wan") (
        object (
          field (text "type") (json_string (text "http")) (
            field (text "family") (json_string (text "ipv4"))
              (field (text "url") (json_string (text "https://ip.example")) no_field)))))
      (field (text "records")
        (object (
          field (text "b") (record_json (text "bad.example"))
            (field (text "a") (record_json (text "good.example")) no_field)))
        no_field))

reader : Reader
unfolding cfg_json
reader = record {
  decoder_of = λ s. record { tokens = print cfg_json []; stop = eof };
  decode_message = λ s. s;
  parse_duration = λ s. none;
}

cfg_loaded :
    load_config reader codec (λ path. Parse.content (text "{...}")) (text "config.json")
    ≡ parsed cfg
unfolding load_config reader Parse.parse reject_duplicate_keys scan_value print text_eq ensure_eof
    tree read_value decode_config fill_object fill is_field decode_source source_field decode_text
    decode_record record_field decode_uint32 split_dots valid_domain valid_id valid_label
    valid_labels valid_owner validate validate_record validate_source parse_digits insert lookup
    has_prefix
cfg_loaded = refl

load_config_iff_example :
    (load_config reader codec (λ path. Parse.content (text "{...}")) (text "config.json")
      ≡ parsed cfg)
    ↔ ((bytes : Text) × (Parse.content (text "{...}") ≡ Parse.content bytes)
        × (length bytes ≤ max_config_size)
        × IsText reader codec bytes cfg)
load_config_iff_example =
    load_config_iff reader codec (λ path. Parse.content (text "{...}")) (text "config.json") cfg

-- {"x":[1]}, with another value after it.
nested : Json
unfolding one
nested = one (text "x") (array (item (json_number (text "1")) no_item))

nested-IsStrict : IsStrict nested
unfolding IsStrict nested
nested-IsStrict = (Nodup-cons.1 (not-mem-nil, Nodup-nil), ((tt, tt), tt))

upper_is_zone : is_field (text "zone") (text "ZONE") ≡ true
unfolding is_field text_eq
upper_is_zone = refl

spelling_overrides_example :
    IsStrict (
      object (
        field
          (text "zone")
          (json_string (text "a.example"))
          (field (text "ZONE") (json_string (text "b.example")) no_field)))
    × (decode_record (
          object (
            field
              (text "zone")
              (json_string (text "a.example"))
              (field (text "ZONE") (json_string (text "b.example")) no_field)))
        ≡ some (record no_record { zone = text "b.example" }))
spelling_overrides_example =
    spelling_overrides (text "a.example") (text "b.example") (text "ZONE") (λ e. ground (arith, e))
      upper_is_zone

abbrev pub options : Options
options = record {
  config = cfg;
  token = text "secret";
  interval = pos (5 * minute);
  listen = text ":8080";
  history_limit = pos 100;
  build = new_info (text "1") [] [];
}

-- The program with its token in the environment, and a service that fails.
system : System
unfolding reader
system = record {
  env = λ key. if text_eq key (text "HETDNS_HETZNER_TOKEN") then some (text "secret ") else none;
  parsers = record { parse_duration = λ s. none; parse_int = λ s. none };
  duration_error = λ s. s;
  reader = reader;
  codec = codec;
  config_at = λ path. Parse.content (text "{...}");
  token_at = λ path. Token.not_read path;
  build_version = text "1";
  build_commit = [];
  build_date = [];
  service = λ o. some (text "listen on :8080");
}

logging : Logging
logging = record { level = debug; as_text = false }

arguments : List Text
arguments = text "-log-level=debug" ∷ []

run-IsExit_example :
    IsExit system
      (parse_arguments system.parsers arguments none (default_flags system.env))
      (run system arguments)
run-IsExit_example = run-IsExit system arguments

service_started :
    ◌≡◌ {A = Option (Options × Logging)} (run system arguments).started (some (options, logging))
unfolding run system arguments logging parse_arguments default_flags environment_duration
    environment_int parse_log_level exit_of on_flags Token.read_token trim_blank cfg_json one
    record_json load_config reader Parse.parse reject_duplicate_keys scan_value print text_eq
    ensure_eof tree read_value decode_config fill_object fill is_field decode_source source_field
    decode_text decode_record record_field decode_uint32 split_dots valid_domain valid_id
    valid_label valid_labels valid_owner validate validate_record validate_source parse_digits
    insert lookup has_prefix
service_started = refl

run_starts_example :
    (f : Flags.Flags) × (parse_arguments system.parsers arguments none (default_flags system.env)
      ≡ flags f [])
    × MayStart system f options
run_starts_example = run_starts system arguments options logging service_started
