-- ===== src/Telemetry.antt =====
-- internal/telemetry/metrics.go: the measurements of the service. The OpenTelemetry SDK is a
-- parameter; what its instruments get is a list of samples.
pub mod Setup
pub mod Latest
pub mod Gauges
use hetdns.Prelude.{
  ℕ, ◌+◌, ◌*◌, ◌/◌, Bool, true, false, not, ◌||◌, ◌&&◌, Option, none, some, List, [], ◌∷◌, ◌++◌,
  map, if◌then◌else◌, ◌==◌,
}
use hetdns.Prelude.Int.{ℤ, pos, negsuc, sub_ℕ, int64_of, second, millisecond}
use hetdns.Prelude.Text.{Text, text, text_eq}
use hetdns.Prelude.Trim.{is_empty}
use hetdns.Prelude.Atoi.{atoi, trim_space}
use hetdns.Prelude.ParseBool.{parse_bool}
use hetdns.Prelude.Map.{Map, or_zero, insert}
use hetdns.BuildInfo.{Info}
use hetdns.Reconcile.State.{Measure}
use hetdns.Status.{Store}

-- What a counter or a histogram gets, with its attributes. A histogram gets a duration as a float of
-- seconds; here it is in nanoseconds.
pub data Sample : Type 0 where
  added : Text → List (Text × Text) → ℕ → Sample
  recorded : Text → List (Text × Text) → ℤ → Sample

-- `Metrics`: whether it is enabled and has a provider, the times of the last successes, and the
-- samples, the last one first.
pub record Metrics : Type 0 where
  pub enabled : Bool
  pub has_provider : Bool
  pub last_success : Map ℤ
  pub samples : List Sample

abbrev pub no_metrics : Metrics
no_metrics = record { enabled = false; has_provider = false; last_success = []; samples = [] }

-- What the SDK is set up with: the options of the reader, and the attributes of the resource.
pub record Settings : Type 0 where
  pub interval : Option ℤ
  pub timeout : Option ℤ
  pub attributes : List (Text × Text)

-- The SDK: whether the exporter and the resource can be made, the error of an instrument by its name
-- and that of the callback's registration, if there is one, and whether a flush and a shutdown
-- succeed.
pub record Sdk : Type 0 where
  pub new_exporter : Bool
  pub new_resource : Bool
  pub instrument : Text → Option Text
  pub register : Option Text
  pub flush : Bool
  pub shutdown : Bool

-- One more of something that took some time.
count_and_time : Text → Text → List (Text × Text) → ℤ → Metrics → Metrics
count_and_time counter histogram attributes duration m = if not m.enabled then m else record m {
  samples = recorded histogram attributes duration ∷ added counter attributes 1 ∷ m.samples;
}

-- `Cycle`.
unfoldable pub on_cycle : Text → ℤ → Metrics → Metrics
unfolding count_and_time
on_cycle result duration m =
    count_and_time (text "hetdns.reconcile.cycles") (text "hetdns.reconcile.duration")
      ((text "result", result) ∷ []) duration m

-- `Source`.
unfoldable pub on_source : Text → Text → ℤ → Metrics → Metrics
unfolding count_and_time
on_source id result duration m =
    count_and_time (text "hetdns.source.fetches") (text "hetdns.source.fetch.duration")
      ((text "source.id", id) ∷ (text "result", result) ∷ []) duration m

-- `Record`.
unfoldable pub on_record : Text → Text → ℤ → Metrics → Metrics
unfolding count_and_time
on_record id result duration m =
    count_and_time (text "hetdns.record.checks") (text "hetdns.record.check.duration")
      ((text "record.id", id) ∷ (text "result", result) ∷ []) duration m

-- `t.Unix()`: the seconds since 1970, which is 62135596800 seconds after Go's zero time.
abbrev pub unix : ℕ → ℤ
unix t = sub_ℕ (t / second) 62135596800

-- `RecordSuccess`.
unfoldable pub on_success : Text → ℕ → Metrics → Metrics
on_success id at m = record m { last_success = insert id (unix at) m.last_success }

-- What the reconciler reports.
unfoldable pub receive : Measure → Metrics → Metrics
receive (Measure.cycle result duration) m = on_cycle result duration m
receive (Measure.fetched id result duration) m = on_source id result duration m
receive (Measure.checked id result duration) m = on_record id result duration m
receive (Measure.record_success id at) m = on_success id at m

-- What the callback of `New` lets the SDK observe: a gauge's value with its attributes.
pub record Observation : Type 0 where
  pub gauge : Text
  pub value : ℤ
  pub attributes : List (Text × Text)

observe_success : Text × ℤ → Observation
observe_success (id, timestamp) = record {
  gauge = text "hetdns.record.last_success";
  value = timestamp;
  attributes = (text "record.id", id) ∷ [];
}

unfoldable pub observe : Store → Metrics → List Observation
unfolding observe_success
observe store m =
    map observe_success m.last_success
    ++ record {
      gauge = text "hetdns.scheduler.ready";
      value = if store.is_ready then pos 1 else pos 0;
      attributes = [];
    }
      ∷ []

-- `Shutdown`; `none` is nil.
unfoldable pub shutdown_metrics : Sdk → Metrics → Option Text
shutdown_metrics sdk m =
    if not m.has_provider
    then none
    else if not sdk.flush || not sdk.shutdown
    then some (text "flush or shutdown telemetry")
    else none
