-- ===== src/Telemetry/Gauges.antt =====
-- What the callback of internal/telemetry/metrics.go lets the SDK observe after any measures.
use mathlib.Core.List.{append_assoc}
use hetdns.Prelude.{
  ◌≡◌, refl, ◌∙◌, ap, sym, Bool, true, false, Option, none, some, List, [], ◌∷◌, ◌++◌,
  if◌then◌else◌, ◌&&◌, map,
}
use hetdns.Prelude.Int.{ℤ, pos}
use hetdns.Prelude.Text.{Text, text, text_eq}
use hetdns.Prelude.Map.{Map, lookup}
use hetdns.Reconcile.State.{Measure}
use hetdns.Status.{Store}
use hetdns.Telemetry.{
  Metrics, Sample, added, recorded, count_and_time, on_cycle, on_source, on_record, on_success,
  receive, Observation, observe, observe_success,
}
use hetdns.Telemetry.Latest.{receive_all, successes, last_or, gauge_latest}

abbrev attributes_eq : List (Text × Text) → List (Text × Text) → Bool
attributes_eq [] [] = true
attributes_eq [] (b ∷ bs) = false
attributes_eq (a ∷ as_) [] = false
attributes_eq (a ∷ as_) (b ∷ bs) = text_eq a.0 b.0 && text_eq a.1 b.1 && attributes_eq as_ bs

-- The value that a gauge shows with some attributes: that of the first such observation.
abbrev pub shown : Text → List (Text × Text) → List Observation → Option ℤ
shown gauge attributes [] = none
shown gauge attributes (o ∷ os) =
    if text_eq o.gauge gauge && attributes_eq o.attributes attributes
    then some o.value
    else shown gauge attributes os

-- The time that is shown for the last success of a record.
abbrev pub success_shown : Text → List Observation → Option ℤ
success_shown id os = shown (text "hetdns.record.last_success") ((text "record.id", id) ∷ []) os

both_true : (b : Bool) (x y : Option ℤ) → (if b && true then x else y) ≡ (if b then x else y)
both_true true x y = refl
both_true false x y = refl

one_shown :
    (id j : Text) (t : ℤ) (os : List Observation)
    → success_shown id (observe_success (j, t) ∷ os)
      ≡ (if text_eq j id then some t else success_shown id os)
unfolding observe_success text_eq
one_shown id j t os = both_true (text_eq j id) (some t) (success_shown id os)

map_shown :
    (id : Text) (times : Map ℤ) (os : List Observation)
    → success_shown id os ≡ none
    → success_shown id (map observe_success times ++ os) ≡ lookup id times
unfolding lookup
map_shown id [] os h = h
map_shown id ((j, t) ∷ times) os h =
    one_shown id j t (map observe_success times ++ os)
    ∙ ap (λ x. if text_eq j id then some t else x) (map_shown id times os h)

success_observed :
    (store : Store) (m : Metrics) (id : Text)
    → success_shown id (observe store m) ≡ lookup id m.last_success
unfolding observe text_eq
success_observed store m id = map_shown id m.last_success _ refl

ready_last :
    (times : Map ℤ) (os : List Observation)
    → shown (text "hetdns.scheduler.ready") [] (map observe_success times ++ os)
      ≡ shown (text "hetdns.scheduler.ready") [] os
unfolding observe_success text_eq
ready_last [] os = refl
ready_last ((j, t) ∷ times) os = ready_last times os

ready_observed :
    (store : Store) (m : Metrics)
    → shown (text "hetdns.scheduler.ready") [] (observe store m)
      ≡ some (if store.is_ready then pos 1 else pos 0)
unfolding observe text_eq
ready_observed store m = ready_last m.last_success _

-- The samples of a measure, the last one first: its duration, and one more of its kind.
abbrev pub passed : Measure → List Sample
passed (Measure.cycle result duration) =
    recorded (text "hetdns.reconcile.duration") ((text "result", result) ∷ []) duration
    ∷ added (text "hetdns.reconcile.cycles") ((text "result", result) ∷ []) 1
    ∷ []
passed (Measure.fetched id result duration) =
    let attributes = (text "source.id", id) ∷ (text "result", result) ∷ [] in
    recorded (text "hetdns.source.fetch.duration") attributes duration
    ∷ added (text "hetdns.source.fetches") attributes 1
    ∷ []
passed (Measure.checked id result duration) =
    let attributes = (text "record.id", id) ∷ (text "result", result) ∷ [] in
    recorded (text "hetdns.record.check.duration") attributes duration
    ∷ added (text "hetdns.record.checks") attributes 1
    ∷ []
passed (Measure.record_success id at) = []

abbrev pub passed_all : List Measure → List Sample
passed_all [] = []
passed_all (x ∷ xs) = passed_all xs ++ passed x

one_passed :
    (x : Measure) (m : Metrics)
    → m.enabled ≡ true
    → ((receive x m).samples ≡ passed x ++ m.samples) × ((receive x m).enabled ≡ true)
unfolding receive on_cycle on_source on_record on_success count_and_time
one_passed (Measure.cycle result duration) m e = rw e (refl, refl)
one_passed (Measure.fetched id result duration) m e = rw e (refl, refl)
one_passed (Measure.checked id result duration) m e = rw e (refl, refl)
one_passed (Measure.record_success id at) m e = (refl, e)

all_passed :
    (xs : List Measure) (m : Metrics)
    → m.enabled ≡ true
    → (receive_all xs m).samples ≡ passed_all xs ++ m.samples
unfolding receive_all
all_passed [] m e = refl
all_passed (x ∷ xs) m e =
    let (first, on) = one_passed x m e in
    all_passed xs (receive x m) on
    ∙ (ap (λ l. passed_all xs ++ l) first ∙ sym (append_assoc (passed_all xs) (passed x) m.samples))

none_passed :
    (x : Measure) (m : Metrics)
    → m.enabled ≡ false
    → ((receive x m).samples ≡ m.samples) × ((receive x m).enabled ≡ false)
unfolding receive on_cycle on_source on_record on_success count_and_time
none_passed (Measure.cycle result duration) m e = rw e (refl, refl)
none_passed (Measure.fetched id result duration) m e = rw e (refl, refl)
none_passed (Measure.checked id result duration) m e = rw e (refl, refl)
none_passed (Measure.record_success id at) m e = (refl, e)

all_dropped :
    (xs : List Measure) (m : Metrics) → m.enabled ≡ false → (receive_all xs m).samples ≡ m.samples
unfolding receive_all
all_dropped [] m e = refl
all_dropped (x ∷ xs) m e =
    let (first, off) = none_passed x m e in all_dropped xs (receive x m) off ∙ first

samples_passed :
    (xs : List Measure) (m : Metrics) (on : Bool)
    → m.enabled ≡ on
    → (receive_all xs m).samples ≡ (if on then passed_all xs ++ m.samples else m.samples)
samples_passed xs m true e = all_passed xs m e
samples_passed xs m false e = all_dropped xs m e

-- After any measures the callback shows for a record the time of its last success among them, in
-- seconds since 1970, or what it showed before if there is none, and 1 for readiness if the store is
-- ready and 0 if not. An enabled service has passed on for each cycle, fetch and check its duration
-- and one more of its kind, with its attributes, and a disabled one nothing.
pub measures_shown :
    (ms : List Measure) (m : Metrics) (store : Store) (id : Text)
    → (success_shown id (observe store (receive_all ms m))
        ≡ last_or (success_shown id (observe store m)) (successes id ms))
      × (shown (text "hetdns.scheduler.ready") [] (observe store (receive_all ms m))
          ≡ some (if store.is_ready then pos 1 else pos 0))
      × ((receive_all ms m).samples ≡ (if m.enabled then passed_all ms ++ m.samples else m.samples))
measures_shown ms m store id = (
  success_observed store (receive_all ms m) id
      ∙ (gauge_latest ms m id
          ∙ ap (λ o. last_or o (successes id ms)) (sym (success_observed store m id))),
  ready_observed store (receive_all ms m),
  samples_passed ms m m.enabled refl,
)
