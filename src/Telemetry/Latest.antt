-- ===== src/Telemetry/Latest.antt =====
-- What the instruments of internal/telemetry/metrics.go show after any measures.
use hetdns.Prelude.{
  ℕ, suc, ◌+◌, ◌*◌, ◌≡◌, refl, ◌∙◌, ap, Bool, true, false, Option, none, some, List, [], ◌∷◌, arith,
  length, if◌then◌else◌, inl, inr, Bool-cases, not, ◌||◌,
}
use hetdns.Prelude.Int.{ℤ}
use hetdns.Prelude.Text.{Text, text, text_eq}
use hetdns.Prelude.Map.{lookup, lookup-insert}
use hetdns.BuildInfo.{Info}
use hetdns.Reconcile.State.{Measure}
use hetdns.Telemetry.{
  Metrics, no_metrics, Sdk, count_and_time, on_cycle, on_source, on_record, on_success, receive,
  unix, shutdown_metrics,
}
use hetdns.Telemetry.Setup.{sdk_disabled, endpoint_configured, Opened, disabled, new_metrics}
use hetdns.Prelude.Environment.{Environment, getenv}

-- Measures, one after the other.
unfoldable pub receive_all : List Measure → Metrics → Metrics
receive_all [] m = m
receive_all (x ∷ xs) m = receive_all xs (receive x m)

-- The times of the successes of a record, in their order.
abbrev pub successes : Text → List Measure → List ℕ
successes id [] = []
successes id (Measure.cycle result duration ∷ ms) = successes id ms
successes id (Measure.fetched j result duration ∷ ms) = successes id ms
successes id (Measure.checked j result duration ∷ ms) = successes id ms
successes id (Measure.record_success j at ∷ ms) =
    let rest = successes id ms in if text_eq j id then at ∷ rest else rest

-- The last of some times in seconds, or what was there before.
abbrev pub last_or : Option ℤ → List ℕ → Option ℤ
last_or before [] = before
last_or before (t ∷ ts) = last_or (some (unix t)) ts

-- How many of some measures are no successes.
abbrev pub attempts : List Measure → ℕ
attempts [] = 0
attempts (Measure.cycle result duration ∷ ms) = suc (attempts ms)
attempts (Measure.fetched j result duration ∷ ms) = suc (attempts ms)
attempts (Measure.checked j result duration ∷ ms) = suc (attempts ms)
attempts (Measure.record_success j at ∷ ms) = attempts ms

after_success :
    (id j : Text) (at : ℕ) (before : Option ℤ) (ms : List Measure)
    → last_or (if text_eq j id then some (unix at) else before) (successes id ms)
      ≡ last_or before (successes id (Measure.record_success j at ∷ ms))
after_success id j at before ms = elim (Bool-cases (text_eq j id)) [
  | inl e ↦ rw e refl
  | inr e ↦ rw e refl
]

abbrev pub samples_of : Bool → ℕ → ℕ
samples_of true n = 2 * n
samples_of false n = 0

-- The rest of the metrics is as it was, and there are two more samples if they are enabled.
record Counted (x m : Metrics) (n : ℕ) : Type 0 where
  times : x.last_success ≡ m.last_success
  flag : x.enabled ≡ m.enabled
  provider : x.has_provider ≡ m.has_provider
  samples : length x.samples ≡ length m.samples + samples_of m.enabled n

Counted-one :
    (counter histogram : Text) (attributes : List (Text × Text)) (duration : ℤ) (m : Metrics)
    → Counted (count_and_time counter histogram attributes duration m) m 1
unfolding count_and_time
Counted-one counter histogram attributes duration m = elim (Bool-cases m.enabled) [
  | inl e ↦ rw e (record { times = refl; flag = refl; provider = refl; samples = omega arith })
  | inr e ↦ rw e (record { times = refl; flag = refl; provider = refl; samples = omega arith })
]

pub gauge_latest :
    (ms : List Measure) (m : Metrics) (id : Text)
    → lookup id (receive_all ms m).last_success
      ≡ last_or (lookup id m.last_success) (successes id ms)
unfolding receive_all receive on_cycle on_source on_record on_success
gauge_latest [] m id = refl
gauge_latest (Measure.cycle result duration ∷ ms) m id =
    gauge_latest ms (on_cycle result duration m) id
    ∙ ap (λ l. last_or (lookup id l) (successes id ms)) (Counted-one _ _ _ duration m).times
gauge_latest (Measure.fetched j result duration ∷ ms) m id =
    gauge_latest ms (on_source j result duration m) id
    ∙ ap (λ l. last_or (lookup id l) (successes id ms)) (Counted-one _ _ _ duration m).times
gauge_latest (Measure.checked j result duration ∷ ms) m id =
    gauge_latest ms (on_record j result duration m) id
    ∙ ap (λ l. last_or (lookup id l) (successes id ms)) (Counted-one _ _ _ duration m).times
gauge_latest (Measure.record_success j at ∷ ms) m id =
    gauge_latest ms (on_success j at m) id
    ∙ ap (λ o. last_or o (successes id ms)) (lookup-insert j id (unix at) m.last_success)
    ∙ after_success id j at (lookup id m.last_success) ms

samples_of-suc : (b : Bool) (n : ℕ) → samples_of b 1 + samples_of b n ≡ samples_of b (suc n)
samples_of-suc true n = omega arith
samples_of-suc false n = omega arith

one_more :
    (x m : Metrics) (n : ℕ)
    → Counted x m 1
    → length x.samples + samples_of x.enabled n ≡ length m.samples + samples_of m.enabled (suc n)
one_more x m n c =
    omega (arith, c.samples, ap (λ b. samples_of b n) c.flag, samples_of-suc m.enabled n)

pub samples_counted :
    (ms : List Measure) (m : Metrics)
    → length (receive_all ms m).samples ≡ length m.samples + samples_of m.enabled (attempts ms)
unfolding receive_all receive on_cycle on_source on_record on_success
samples_counted [] m = elim (Bool-cases m.enabled) [
  | inl e ↦ rw e (omega arith)
  | inr e ↦ rw e (omega arith)
]
samples_counted (Measure.cycle result duration ∷ ms) m =
    let x = on_cycle result duration m in
    samples_counted ms x ∙ one_more x m (attempts ms) (Counted-one _ _ _ duration m)
samples_counted (Measure.fetched j result duration ∷ ms) m =
    let x = on_source j result duration m in
    samples_counted ms x ∙ one_more x m (attempts ms) (Counted-one _ _ _ duration m)
samples_counted (Measure.checked j result duration ∷ ms) m =
    let x = on_record j result duration m in
    samples_counted ms x ∙ one_more x m (attempts ms) (Counted-one _ _ _ duration m)
samples_counted (Measure.record_success j at ∷ ms) m = samples_counted ms (on_success j at m)

provider_kept : (ms : List Measure) (m : Metrics) → (receive_all ms m).has_provider ≡ m.has_provider
unfolding receive_all receive on_cycle on_source on_record on_success
provider_kept [] m = refl
provider_kept (Measure.cycle result duration ∷ ms) m =
    provider_kept ms (on_cycle result duration m) ∙ (Counted-one _ _ _ duration m).provider
provider_kept (Measure.fetched j result duration ∷ ms) m =
    provider_kept ms (on_source j result duration m) ∙ (Counted-one _ _ _ duration m).provider
provider_kept (Measure.checked j result duration ∷ ms) m =
    provider_kept ms (on_record j result duration m) ∙ (Counted-one _ _ _ duration m).provider
provider_kept (Measure.record_success j at ∷ ms) m = provider_kept ms (on_success j at m)

not_configured :
    (env : Environment)
    → getenv env (text "OTEL_EXPORTER_OTLP_METRICS_ENDPOINT") ≡ []
    → getenv env (text "OTEL_EXPORTER_OTLP_ENDPOINT") ≡ []
    → endpoint_configured env ≡ false
unfolding endpoint_configured
not_configured env metrics shared = rw (metrics, shared) refl

first_taken : (off on : Bool) (x y : Opened) → on ≡ false → (if off || not on then x else y) ≡ x
first_taken true on x y e = refl
first_taken false on x y e = rw e refl

shut_down : (sdk : Sdk) (m : Metrics) → m.has_provider ≡ false → shutdown_metrics sdk m ≡ none
unfolding shutdown_metrics
shut_down sdk m e = rw e refl

-- With no endpoint in the environment, whatever else is in it, the telemetry starts disabled, passes
-- no sample on whatever it receives, and shuts down without an error.
pub without_endpoint :
    (env : Environment) (sdk : Sdk) (build : Info) (ms : List Measure)
    → getenv env (text "OTEL_EXPORTER_OTLP_METRICS_ENDPOINT") ≡ []
    → getenv env (text "OTEL_EXPORTER_OTLP_ENDPOINT") ≡ []
    → (new_metrics env sdk build ≡ disabled no_metrics)
      × (length (receive_all ms no_metrics).samples ≡ 0)
      × (shutdown_metrics sdk (receive_all ms no_metrics) ≡ none)
unfolding new_metrics
without_endpoint env sdk build ms metrics shared = (
  first_taken (sdk_disabled env) (endpoint_configured env) (disabled no_metrics) _
      (not_configured env metrics shared),
  samples_counted ms no_metrics,
  shut_down sdk (receive_all ms no_metrics) (provider_kept ms no_metrics),
)
