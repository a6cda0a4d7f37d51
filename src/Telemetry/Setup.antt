-- ===== src/Telemetry/Setup.antt =====
-- `New` of internal/telemetry/metrics.go, and what it reads of the environment.
use hetdns.Prelude.{
  ◌*◌, Bool, true, false, not, ◌||◌, ◌&&◌, Option, none, some, List, [], ◌∷◌, if◌then◌else◌, ◌==◌,
}
use hetdns.Prelude.Int.{ℤ, pos, negsuc, int64_of, millisecond}
use hetdns.Prelude.Text.{Text, text, text_eq}
use hetdns.Prelude.Trim.{is_empty}
use hetdns.Prelude.Atoi.{atoi, trim_space}
use hetdns.Prelude.ParseBool.{parse_bool}
use hetdns.BuildInfo.{Info}
use hetdns.Prelude.Environment.{Environment, getenv}
use hetdns.Telemetry.{Metrics, no_metrics, Settings, Sdk}

abbrev parsed_or_false : Option Bool → Bool
parsed_or_false none = false
parsed_or_false (some b) = b

unfoldable pub sdk_disabled : Environment → Bool
sdk_disabled env = parsed_or_false (parse_bool (getenv env (text "OTEL_SDK_DISABLED")))

unfoldable pub endpoint_configured : Environment → Bool
endpoint_configured env =
    not (is_empty (getenv env (text "OTEL_EXPORTER_OTLP_METRICS_ENDPOINT")))
    || not (is_empty (getenv env (text "OTEL_EXPORTER_OTLP_ENDPOINT")))

-- `time.Duration(milliseconds) * time.Millisecond`, if they are positive.
positive_milliseconds : Option ℤ → Option ℤ
positive_milliseconds none = none
positive_milliseconds (some (negsuc n)) = none
positive_milliseconds (some (pos n)) = if n == 0 then none else some (int64_of (n * millisecond))

unfoldable pub milliseconds_environment : Environment → Text → Option ℤ
unfolding positive_milliseconds
milliseconds_environment env key =
    let value = trim_space (getenv env key) in
    let parsed = positive_milliseconds (atoi value) in if is_empty value then none else parsed

unfoldable pub first_non_empty : List Text → Text
first_non_empty [] = []
first_non_empty (value ∷ values) =
    let rest = first_non_empty values in if not (is_empty value) then value else rest

-- What `New` returns, and what it has set up.
pub data Opened : Type 0 where
  disabled : Metrics → Opened
  opened : Metrics → Settings → Opened
  failed : Text → Opened

-- The instruments in the order in which they are made.
abbrev pub instruments : List Text
instruments =
    text "hetdns.reconcile.cycles"
    ∷ text "hetdns.reconcile.duration"
    ∷ text "hetdns.source.fetches"
    ∷ text "hetdns.source.fetch.duration"
    ∷ text "hetdns.record.checks"
    ∷ text "hetdns.record.check.duration"
    ∷ text "hetdns.record.last_success"
    ∷ text "hetdns.scheduler.ready"
    ∷ []

-- An error ends the setup.
unless_failed : Option Text → Opened → Opened
unless_failed none next = next
unless_failed (some e) next = failed e

make_instruments : (Text → Option Text) → List Text → Opened → Opened
unfolding unless_failed
make_instruments instrument [] next = next
make_instruments instrument (name ∷ names) next =
    unless_failed (instrument name) (make_instruments instrument names next)

service_name : Text → Text
service_name s = if is_empty s then text "hetdns" else s

module _ (env : Environment) (sdk : Sdk) (build : Info) where
  settings : Settings
  unfolding service_name
  settings = record {
    interval = milliseconds_environment env (text "OTEL_METRIC_EXPORT_INTERVAL");
    timeout = milliseconds_environment env (text "OTEL_METRIC_EXPORT_TIMEOUT");
    attributes =
        (text "service.name", service_name (getenv env (text "OTEL_SERVICE_NAME")))
        ∷ (text "service.version", build.version)
        ∷ (text "vcs.revision", build.commit)
        ∷ [];
  }

  set_up : Opened
  unfolding settings make_instruments unless_failed
  set_up =
      if not sdk.new_exporter
      then failed (text "initialize OTLP/HTTP metrics exporter")
      else if not sdk.new_resource
      then failed (text "initialize telemetry resource")
      else make_instruments sdk.instrument instruments (
          unless_failed sdk.register (
            opened (record { enabled = true; has_provider = true; last_success = []; samples = [] })
              settings))

  -- `New`.
  unfoldable pub new_metrics : Opened
  unfolding set_up
  new_metrics =
      let protocol = first_non_empty (
        getenv env (text "OTEL_EXPORTER_OTLP_METRICS_PROTOCOL")
        ∷ getenv env (text "OTEL_EXPORTER_OTLP_PROTOCOL")
        ∷ []) in
      if sdk_disabled env || not (endpoint_configured env)
      then disabled no_metrics
      else if not (is_empty protocol) && not (text_eq protocol (text "http/protobuf"))
      then failed (text "OTLP metrics protocol must be http/protobuf")
      else set_up
