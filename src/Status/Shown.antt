-- ===== src/Status/Shown.antt =====
-- `Snapshot` of internal/status/store.go.
use hetdns.Prelude.{ℕ, Bool, true, false, ◌||◌, List, [], ◌∷◌, ◌==◌, if◌then◌else◌}
use mathlib.Core.List.{reverse}
use hetdns.Prelude.Text.{Text, text, text_eq}
use hetdns.Prelude.Map.{Map, or_zero, lookup}
use hetdns.Status.State.{Source, Record, Store, Snapshot, zero_source, zero_record}
use hetdns.Status.Uptime.{uptime_text}

abbrev pub is_zero_time : ℕ → Bool
is_zero_time t = t == 0

-- What the two loops and the switch of `Snapshot` find out about a source and a record.
abbrev pub source_degraded : Source → Bool
source_degraded value = if text_eq value.error [] then false else true

abbrev pub source_pending : Source → Bool
source_pending value = is_zero_time value.last_attempt

abbrev pub record_degraded : Record → Bool
record_degraded value =
    text_eq value.state (text "source_error")
    || text_eq value.state (text "provider_error")
    || text_eq value.state (text "backoff")

abbrev pub record_pending : Record → Bool
record_pending value =
    if record_degraded value
    then false
    else text_eq value.state (text "pending") || text_eq value.state (text "checking")

-- A loop of `Snapshot`: the values in order, and the two flags as it leaves them.
module _ {V : Type 0} (zero_value : V) (is_degraded is_pending : V → Bool) (m : Map V) where
  unfoldable pub snapshot_loop : List Text → Bool → Bool → List V × Bool × Bool
  snapshot_loop [] degraded pending = ([], degraded, pending)
  snapshot_loop (id ∷ ids) degraded pending =
      let value = or_zero zero_value (lookup id m) in
      let (values, degraded', pending') =
        snapshot_loop ids (if is_degraded value then true else degraded)
          (if is_pending value then true else pending) in
      (value ∷ values, degraded', pending')

abbrev pub overall_text : Bool → Bool → Text
overall_text true pending = text "degraded"
overall_text false true = text "pending"
overall_text false false = text "healthy"

-- `Snapshot`, at the time that it reads.
unfoldable pub snapshot : ℕ → Store → Snapshot
snapshot now s =
    let (sources, degraded, pending) =
      snapshot_loop zero_source source_degraded source_pending s.sources s.source_order false
        false in
    let (records, degraded', pending') =
      snapshot_loop zero_record record_degraded record_pending s.records s.record_order degraded
        pending in
    record {
      build = s.build;
      start_time = s.started;
      uptime = uptime_text now s.started;
      is_ready = s.is_ready;
      scheduler = s.scheduler;
      sources = sources;
      records = records;
      events = reverse s.events;
      overall = overall_text degraded' pending';
    }
