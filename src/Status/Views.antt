-- ===== src/Status/Views.antt =====
-- What a snapshot of internal/status/store.go lists: the configured sources and records, each once,
-- in ascending order of their ids, whatever the program did in between.
use hetdns.Prelude.{
  ℕ, ◌≡◌, ◌∙◌, refl, ap, Bool, true, false, Option, none, some, List, [], ◌∷◌, arith, All,
  if◌then◌else◌, map, inl, inr, Bool-cases,
}
use hetdns.Prelude.Text.{Text, text_eq, text_eq_iff, text_eq_refl}
use hetdns.Prelude.Sort.{sort_texts, All-sort_texts}
use hetdns.Prelude.Map.{Map, or_zero, lookup, insert, keys, lookup-insert}
use hetdns.BuildInfo.{Info}
use hetdns.Config.{Config}
use hetdns.Status.{
  Store, Event, Source, Record, new_store, load, initial_source, initial_record, set_ready,
  cycle_started, cycle_finished, set_next_cycle, source_result, record_checking, record_result,
  add_event, failure_event, reported, Scheduler, zero_source, zero_record,
}
use hetdns.Status.Shown.{snapshot}
use hetdns.Status.Loop.{loop_lem}
use hetdns.Status.Ops.{
  Op, ready, started, finished, next_cycle, source, checking, result, apply, run, run_induction,
}

-- The entry of `id` is there and carries that id.
module _ {V : Type 0} (id_of : V → Text) where
  abbrev Holds : Map V → Text → Type 0
  Holds m id = (v : V) × (lookup id m ≡ some v) × (id_of v ≡ id)

  Holds-insert_self : (w : V) (k : Text) (m : Map V) → id_of w ≡ k → Holds (insert k w m) k
  Holds-insert_self w k m e = (w, simp (lookup-insert, text_eq_refl), e)

  Holds-insert :
      (w : V) (k : Text) (m : Map V) (id : Text)
      → (k ≡ id → id_of w ≡ id)
      → Holds m id
      → Holds (insert k w m) id
  Holds-insert w k m id e (v, found, same) = elim (Bool-cases (text_eq k id)) [
    | inl hit ↦ (w, simp (lookup-insert, hit), e ((text_eq_iff k id).0 hit))
    | inr miss ↦ (v, simp (lookup-insert, miss) found, same)
  ]

  -- A method writes back the value that it read, with its id unchanged.
  All-Holds-update :
      (zero_value w : V) (k : Text) (m : Map V) (ids : List Text)
      → id_of w ≡ id_of (or_zero zero_value (lookup k m))
      → All (Holds m) ids
      → All (Holds (insert k w m)) ids
  All-Holds-update zero_value w k m [] e h = tt
  All-Holds-update zero_value w k m (id ∷ ids) e (h, hs) = (
    Holds-insert w k m id (λ p. ground (arith, e, h, ap (λ j. lookup j m) p)) h,
    All-Holds-update zero_value w k m ids e hs,
  )

  -- The values that a loop over such ids reads carry these ids.
  map-Holds :
      (zero_value : V) (m : Map V) (ids : List Text)
      → All (Holds m) ids
      → map id_of (map (λ id. or_zero zero_value (lookup id m)) ids) ≡ ids
  map-Holds zero_value m [] h = refl
  map-Holds zero_value m (id ∷ ids) (h, hs) = ground (arith, h, map-Holds zero_value m ids hs)

module _ {C V : Type 0} (id_of : V → Text) (initial : Text → C → V)
    (named : (id : Text) (spec : C) → id_of (initial id spec) ≡ id) where
  load-Holds :
      (cfg : Map C) (m : Map V) (id : Text) → Holds id_of m id → Holds id_of (load initial cfg m) id
  unfolding load
  load-Holds [] m id h = h
  load-Holds ((k, spec) ∷ rest) m id h =
      load-Holds rest (insert k (initial k spec) m) id
        (Holds-insert id_of (initial k spec) k m id (λ p. named k spec ∙ p) h)

  load-All-Holds : (cfg : Map C) (m : Map V) → All (Holds id_of (load initial cfg m)) (keys cfg)
  unfolding load
  load-All-Holds [] m = tt
  load-All-Holds ((k, spec) ∷ rest) m =
      let m' = insert k (initial k spec) m in
      (
        load-Holds rest m' k (Holds-insert_self id_of (initial k spec) k m (named k spec)),
        load-All-Holds rest m',
      )

abbrev pub source_id : Source → Text
source_id v = v.id

abbrev pub record_id : Record → Text
record_id v = v.id

record Tracks (ids : List Text) (records : List Text) (s : Store) : Type 0 where
  source_order : s.source_order ≡ ids
  record_order : s.record_order ≡ records
  held_sources : All (Holds source_id s.sources) ids
  held_records : All (Holds record_id s.records) records

new_store-Tracks :
    (now : ℕ) (build : Info) (cfg : Config) (limit : ℕ)
    → Tracks
        (sort_texts (keys cfg.sources))
        (sort_texts (keys cfg.records))
        (new_store now build cfg limit)
unfolding new_store initial_source initial_record
new_store-Tracks now build cfg limit = record {
  source_order = refl;
  record_order = refl;
  held_sources =
      All-sort_texts (Holds source_id _) _
        (load-All-Holds source_id initial_source (λ id spec. refl) cfg.sources []);
  held_records =
      All-sort_texts (Holds record_id _) _
        (load-All-Holds record_id initial_record (λ id spec. refl) cfg.records []);
}

module _ (ids records : List Text) where
  add_event-Tracks :
      (s : Store) (e : Event) → Tracks ids records s → Tracks ids records (add_event s e)
  unfolding add_event
  add_event-Tracks s e h = record {
    source_order = h.source_order;
    record_order = h.record_order;
    held_sources = h.held_sources;
    held_records = h.held_records;
  }

  failure_event-Tracks :
      (err : Option Text) (e : Event) (s : Store)
      → Tracks ids records s
      → Tracks ids records (failure_event err e s)
  failure_event-Tracks none e s h = h
  failure_event-Tracks (some m) e s h = add_event-Tracks s e h

  report-Tracks :
      (changed : Bool) (err : Option Text) (d e : Event) (s : Store)
      → Tracks ids records s
      → Tracks ids records (if changed then add_event s d else failure_event err e s)
  report-Tracks true err d e s h = add_event-Tracks s d h
  report-Tracks false err d e s h = failure_event-Tracks err e s h

  write_source-Tracks :
      (w : Source) (k : Text) (s : Store)
      → w.id ≡ (or_zero zero_source (lookup k s.sources)).id
      → Tracks ids records s
      → Tracks ids records (record s { sources = insert k w s.sources })
  write_source-Tracks w k s e h = record {
    source_order = h.source_order;
    record_order = h.record_order;
    held_sources = All-Holds-update source_id zero_source w k s.sources ids e h.held_sources;
    held_records = h.held_records;
  }

  write_record-Tracks :
      (w : Record) (k : Text) (s : Store)
      → w.id ≡ (or_zero zero_record (lookup k s.records)).id
      → Tracks ids records s
      → Tracks ids records (record s { records = insert k w s.records })
  write_record-Tracks w k s e h = record {
    source_order = h.source_order;
    record_order = h.record_order;
    held_sources = h.held_sources;
    held_records = All-Holds-update record_id zero_record w k s.records records e h.held_records;
  }

  scheduler-Tracks :
      (b : Bool) (scheduler : Scheduler) (s : Store)
      → Tracks ids records s
      → Tracks ids records (record s { is_ready = b; scheduler = scheduler })
  scheduler-Tracks b scheduler s h = record {
    source_order = h.source_order;
    record_order = h.record_order;
    held_sources = h.held_sources;
    held_records = h.held_records;
  }

  step-Tracks : (op : Op) (s : Store) → Tracks ids records s → Tracks ids records (apply op s)
  unfolding set_ready cycle_started cycle_finished set_next_cycle source_result record_checking
      record_result
  step-Tracks (ready b) s h = scheduler-Tracks _ _ s h
  step-Tracks (started now) s h = scheduler-Tracks _ _ s h
  step-Tracks (finished now outcome) s h = scheduler-Tracks _ _ s h
  step-Tracks (next_cycle next) s h = scheduler-Tracks _ _ s h
  step-Tracks (source now id address duration none) s h = write_source-Tracks _ id s refl h
  step-Tracks (source now id address duration (some e)) s h =
      add_event-Tracks _ _ (write_source-Tracks _ id s refl h)
  step-Tracks (checking id desired) s h = write_record-Tracks _ id s refl h
  step-Tracks (result now r) s h = report-Tracks r.changed r.err _ _ _ (
      write_record-Tracks (reported now r (or_zero zero_record (lookup r.id s.records))) r.id s refl
        h)

  snapshot_ids :
      (later : ℕ) (s : Store)
      → Tracks ids records s
      → (map source_id (snapshot later s).sources ≡ ids)
        × (map record_id (snapshot later s).records ≡ records)
  unfolding snapshot
  snapshot_ids later s h =
      simp (loop_lem, h.source_order, h.record_order)
        (
          map-Holds source_id zero_source s.sources ids h.held_sources,
          map-Holds record_id zero_record s.records records h.held_records,
        )

-- After any calls on a new store a snapshot lists exactly the configured sources and records, each
-- under its own id and in ascending order of the ids.
pub snapshot_lists_config :
    (now : ℕ) (build : Info) (cfg : Config) (limit : ℕ) (ops : List Op) (later : ℕ)
    → let p = snapshot later (run ops (new_store now build cfg limit)) in
      (map source_id p.sources ≡ sort_texts (keys cfg.sources))
      × (map record_id p.records ≡ sort_texts (keys cfg.records))
snapshot_lists_config now build cfg limit ops later =
    snapshot_ids _ _ later (run ops (new_store now build cfg limit)) (
      run_induction (step-Tracks (sort_texts (keys cfg.sources)) (sort_texts (keys cfg.records)))
        ops (new_store now build cfg limit) (new_store-Tracks now build cfg limit))
