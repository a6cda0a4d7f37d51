-- ===== src/Status.antt =====
-- internal/status/store.go: the operational state of the service. Each method takes the mutex for
-- its whole body, so it is a function of the store; the time that it reads is an argument.
mod State
mod Uptime
mod Shown
mod Loop
pub mod Ops
pub mod Entries
pub mod Events
pub mod Determinism
pub mod Overall
pub mod Views
use hetdns.Prelude.{
  ℕ, ◌+◌, ◌-◌, ◌%◌, ◌^◌, Bool, true, false, ◌||◌, Option, none, some, List, [], ◌∷◌, ◌++◌, map, ltb,
  ◌==◌, if◌then◌else◌, length, take, drop,
}
use hetdns.Prelude.Int.{ℤ, pos, sub_time}
use hetdns.Prelude.Text.{Text, text, text_eq}
use hetdns.Prelude.Runes.{runes, encode, fields, join_space}
use hetdns.Prelude.Sort.{sort_texts}
use hetdns.Prelude.Map.{Map, or_zero, lookup, insert, keys}
use hetdns.BuildInfo.{Info}
use hetdns.Config
use hetdns.Config.{Config}
use hetdns.Status.State.{Scheduler, Source, Record, Event, Store}
use hetdns.Status.State.{zero_source, zero_record, initial_scheduler}
pub use State.*
pub use Shown.*

abbrev printable_rune : ℕ → ℕ
printable_rune char = if ltb char 0x20 || char == 0x7f then 0x20 else char

-- `safeError`: the message of an error (`none` is nil) with control characters and runs of blanks
-- replaced by single blanks, cut at 256 bytes.
unfoldable pub safe_error : Option Text → Text
safe_error none = []
safe_error (some message) =
    take 256 (encode (join_space (fields (map printable_rune (runes message)))))

-- `addEventLocked`: append, then drop the oldest events beyond the limit.
unfoldable pub add_event : Store → Event → Store
add_event s event =
    let events = s.events ++ event ∷ [] in
    let excess = length events - s.history_limit in
    record s { events = if ltb 0 excess then drop excess events else events }

initial_source : Text → Config.Source → Source
initial_source id spec = record zero_source { id = id; family = spec.family }

initial_record : Text → Config.Record → Record
initial_record id spec = record zero_record {
  id = id;
  fqdn = if text_eq spec.name (text "@") then spec.zone else spec.name ++ text "." ++ spec.zone;
  kind = spec.kind;
  source = spec.source;
  state = text "pending";
}

-- A loop of `New`: an initial value for each entry of the configuration.
module _ {C V : Type 0} (initial : Text → C → V) where
  load : Map C → Map V → Map V
  load [] m = m
  load ((id, spec) ∷ rest) m = load rest (insert id (initial id spec) m)

-- `New`, at the time that it reads; a limit below 1 counts as 1.
unfoldable pub new_store : ℕ → Info → Config → ℕ → Store
unfolding load initial_source initial_record
new_store now build cfg history_limit = record {
  build = build;
  started = now;
  is_ready = false;
  scheduler = initial_scheduler;
  sources = load initial_source cfg.sources [];
  records = load initial_record cfg.records [];
  source_order = sort_texts (keys cfg.sources);
  record_order = sort_texts (keys cfg.records);
  events = [];
  history_limit = if ltb history_limit 1 then 1 else history_limit;
}

-- `SetReady`.
unfoldable pub set_ready : Bool → Store → Store
set_ready ready s = record s {
  is_ready = ready;
  scheduler = record s.scheduler { state = if ready then text "running" else text "stopping" };
}

-- `CycleStarted`: the new store and the cycle's number, a uint64.
unfoldable pub cycle_started : ℕ → Store → Store × ℕ
cycle_started now s =
    let cycle = (s.scheduler.cycle + 1) % 2 ^ 64 in
    (
      record s {
        scheduler = record s.scheduler {
          cycle = cycle;
          last_cycle_start = now;
          last_cycle_result = text "running";
          next_cycle = 0;
        };
      },
      cycle,
    )

-- `CycleFinished`.
unfoldable pub cycle_finished : ℕ → Text → Store → Store
cycle_finished now result s = record s {
  scheduler = record s.scheduler {
    last_cycle_end = now;
    last_cycle_result = result;
    last_duration = sub_time now s.scheduler.last_cycle_start;
  };
}

-- `SetNextCycle`.
unfoldable pub set_next_cycle : ℕ → Store → Store
set_next_cycle next s = record s { scheduler = record s.scheduler { next_cycle = next } }

abbrev record_success : Option Text → ℕ → Text → Source → Source
record_success none now address value = record value { last_success = now; address = address }
record_success (some e) now address value = value

abbrev pub failure_event : Option Text → Event → Store → Store
failure_event none event s = s
failure_event (some e) event s = add_event s event

-- `SourceResult`, with the message of its error.
unfoldable pub source_result : ℕ → Text → Text → ℤ → Option Text → Store → Store
source_result now id address duration err s =
    let value = or_zero zero_source (lookup id s.sources) in
    let attempted = record value {
      last_attempt = now;
      duration = duration;
      error = safe_error err;
    } in
    let stored = record s {
      sources = insert id (record_success err now address attempted) s.sources;
    } in
    failure_event err
      (record { time = now; kind = text "source_error"; id = id; message = safe_error err }) stored

-- `RecordChecking`.
unfoldable pub record_checking : Text → Text → Store → Store
record_checking id desired s =
    let value = or_zero zero_record (lookup id s.records) in
    record s {
      records =
          insert id (record value { state = text "checking"; desired = desired; error = [] })
            s.records;
    }

-- The arguments of `RecordResult`.
pub record Report : Type 0 where
  pub id : Text
  pub state : Text
  pub desired : Text
  pub observed : List Text
  pub duration : ℤ
  pub changed : Bool
  pub next_retry : ℕ
  pub err : Option Text

abbrev pub reported : ℕ → Report → Record → Record
reported now r value = record value {
  state = r.state;
  desired = r.desired;
  observed = r.observed;
  duration = r.duration;
  last_check = now;
  next_retry = r.next_retry;
  error = safe_error r.err;
  last_change = if r.changed then now else value.last_change;
}

-- `RecordResult`.
unfoldable pub record_result : ℕ → Report → Store → Store
record_result now r s =
    let value = or_zero zero_record (lookup r.id s.records) in
    let stored = record s { records = insert r.id (reported now r value) s.records } in
    if r.changed
    then add_event stored (record {
      time = now;
      kind = r.state;
      id = r.id;
      message = text "authoritative RRset changed";
    })
    else failure_event r.err
        (record { time = now; kind = r.state; id = r.id; message = safe_error r.err }) stored
