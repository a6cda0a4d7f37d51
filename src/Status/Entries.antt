-- ===== src/Status/Entries.antt =====
-- What the methods of internal/status/store.go do to the state of each record.
use hetdns.Prelude.{ℕ, ◌≡◌, ◌∙◌, refl, Bool, true, false, Option, none, some, arith, if◌then◌else◌}
use hetdns.Prelude.Text.{Text, text, text_eq}
use hetdns.Prelude.Map.{or_zero, lookup, insert, lookup-insert}
use hetdns.Status.{
  Store, Record, Report, Event, zero_record, add_event, failure_event, reported, record_checking,
  record_result, cycle_finished,
}

-- The state of a record, as a reader of the map finds it.
unfoldable pub state_at : Store → Text → Text
state_at s id = (or_zero zero_record (lookup id s.records)).state

state-insert :
    (v : Record) (k j : Text) (s : Store)
    → state_at (record s { records = insert k v s.records }) j
      ≡ (if text_eq k j then v.state else state_at s j)
unfolding state_at
state-insert v k j s = ground (arith, lookup-insert k j v s.records)

state-add_event : (s : Store) (e : Event) (j : Text) → state_at (add_event s e) j ≡ state_at s j
unfolding state_at add_event
state-add_event s e j = refl

state-failure_event :
    (err : Option Text) (e : Event) (s : Store) (j : Text)
    → state_at (failure_event err e s) j ≡ state_at s j
state-failure_event none e s j = refl
state-failure_event (some m) e s j = state-add_event s e j

pub state-record_checking :
    (id desired : Text) (s : Store) (j : Text)
    → state_at (record_checking id desired s) j
      ≡ (if text_eq id j then text "checking" else state_at s j)
unfolding record_checking
state-record_checking id desired s j = state-insert _ id j s

report_events :
    (changed : Bool) (err : Option Text) (d e : Event) (s : Store) (j : Text)
    → state_at (if changed then add_event s d else failure_event err e s) j ≡ state_at s j
report_events true err d e s j = state-add_event s d j
report_events false err d e s j = state-failure_event err e s j

pub state-record_result :
    (t : ℕ) (r : Report) (s : Store) (j : Text)
    → state_at (record_result t r s) j ≡ (if text_eq r.id j then r.state else state_at s j)
unfolding record_result
state-record_result t r s j =
    report_events r.changed r.err _ _ _ j
    ∙ state-insert (reported t r (or_zero zero_record (lookup r.id s.records))) r.id j s

pub state-cycle_finished :
    (t : ℕ) (outcome : Text) (s : Store) (j : Text)
    → state_at (cycle_finished t outcome s) j ≡ state_at s j
unfolding state_at cycle_finished
state-cycle_finished t outcome s j = refl
