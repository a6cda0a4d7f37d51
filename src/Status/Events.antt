-- ===== src/Status/Events.antt =====
-- The bounded event history of internal/status/store.go against the unbounded list of all events.
use hetdns.Prelude.{
  ℕ, zero, suc, max, ◌-◌, ◌≤◌, ◌≡◌, refl, ap, ◌∙◌, sym, Bool, true, false, Option, none, some, List,
  [], ◌∷◌, ◌++◌, arith, ltb, if◌then◌else◌, length, drop, length-append, length-drop, drop-nil,
  drop-append, drop-drop,
}
use mathlib.Core.List.{append_assoc, append-nil}
use hetdns.Prelude.Text.{Text, text}
use hetdns.BuildInfo.{Info}
use hetdns.Config.{Config}
use hetdns.Status.{
  Store, Event, safe_error, add_event, failure_event, new_store, set_ready, cycle_started,
  cycle_finished, set_next_cycle, source_result, record_checking, record_result,
}
use hetdns.Status.Ops.{
  Op, ready, started, finished, next_cycle, source, checking, result, apply, run, run_induction,
}

-- The last `n` items of a list.
pub newest : ℕ → List Event → List Event
newest n xs = drop (length xs - n) xs

length-newest : (n : ℕ) (xs : List Event) → length (newest n xs) ≤ n
unfolding newest
length-newest n xs = omega (arith, length-drop (length xs - n) xs)

newest-nil : (n : ℕ) → newest n [] ≡ []
unfolding newest
newest-nil n = drop-nil (0 - n)

-- What was dropped before is never missed later.
newest-append : (n : ℕ) (xs ys : List Event) → newest n (newest n xs ++ ys) ≡ newest n (xs ++ ys)
unfolding newest
newest-append n xs ys =
    let k = length xs - n in
    let j = length (drop k xs ++ ys) - n in
    ap (drop j) (sym (drop-append k xs ys (omega arith)))
    ∙ (drop-drop j k (xs ++ ys)
        ∙ ap (λ i. drop i (xs ++ ys))
            (omega (arith, length-append xs ys, length-append (drop k xs) ys, length-drop k xs)))

abbrev error_event : ℕ → Text → Text → Option Text → Event
error_event now kind id err = record { time = now; kind = kind; id = id; message = safe_error err }

abbrev changed_event : ℕ → Text → Text → Event
changed_event now kind id = record {
  time = now;
  kind = kind;
  id = id;
  message = text "authoritative RRset changed";
}

-- The event that a call reports, if it reports one.
failure : ℕ → Text → Text → Option Text → List Event
failure now kind id none = []
failure now kind id (some e) = error_event now kind id (some e) ∷ []

pub emitted : Op → List Event
unfolding failure
emitted (source now id address duration err) = failure now (text "source_error") id err
emitted (result now r) =
    if r.changed then changed_event now r.state r.id ∷ [] else failure now r.state r.id r.err
emitted _ = []

pub all_emitted : List Op → List Event
all_emitted [] = []
all_emitted (op ∷ ops) = emitted op ++ all_emitted ops

limit-apply : (op : Op) (s : Store) → (apply op s).history_limit ≡ s.history_limit
unfolding set_ready cycle_started cycle_finished set_next_cycle source_result record_checking
    record_result add_event
limit-apply (source now id address duration none) s = refl
limit-apply (source now id address duration (some e)) s = refl
limit-apply (result now r) s = ground arith
limit-apply op s = refl

drop_if : (k : ℕ) (xs : List Event) → (if ltb 0 k then drop k xs else xs) ≡ drop k xs
drop_if zero xs = refl
drop_if (suc k) xs = ground arith

module _ (s : Store) (log : List Event) (agree : s.events ≡ newest s.history_limit log) where
  add_event-newest : (e : Event) → (add_event s e).events ≡ newest s.history_limit (log ++ e ∷ [])
  unfolding add_event newest
  add_event-newest e =
      drop_if _ (s.events ++ e ∷ [])
      ∙ (ap (λ xs. newest s.history_limit (xs ++ e ∷ [])) agree
          ∙ newest-append s.history_limit log (e ∷ []))

  events_same : s.events ≡ newest s.history_limit (log ++ [])
  events_same = rw append-nil agree

  -- The last statement of `RecordResult`.
  report-newest :
      (changed : Bool) (err : Option Text) (now : ℕ) (kind id : Text)
      → (if changed
          then add_event s (changed_event now kind id)
          else failure_event err (error_event now kind id err) s).events
        ≡ newest s.history_limit
            (log ++ (if changed then changed_event now kind id ∷ [] else failure now kind id err))
  unfolding failure
  report-newest true err now kind id = add_event-newest _
  report-newest false none now kind id = events_same
  report-newest false (some e) now kind id = add_event-newest _

-- What a call adds to the history is what it reports.
events-apply :
    (op : Op) (s : Store) (log : List Event)
    → s.events ≡ newest s.history_limit log
    → (apply op s).events ≡ newest s.history_limit (log ++ emitted op)
unfolding emitted set_ready cycle_started cycle_finished set_next_cycle record_checking
    source_result record_result
events-apply (ready b) s log h = events_same s log h
events-apply (started now) s log h = events_same s log h
events-apply (finished now outcome) s log h = events_same s log h
events-apply (next_cycle next) s log h = events_same s log h
events-apply (checking id desired) s log h = events_same s log h
events-apply (source now id address duration none) s log h = events_same s log h
events-apply (source now id address duration (some e)) s log h = add_event-newest _ log h _
events-apply (result now r) s log h = report-newest _ log h r.changed r.err now r.state r.id

run-newest :
    (ops : List Op) (s : Store) (log : List Event)
    → s.events ≡ newest s.history_limit log
    → (run ops s).events ≡ newest (run ops s).history_limit (log ++ all_emitted ops)
unfolding run all_emitted
run-newest [] s log h = events_same s log h
run-newest (op ∷ ops) s log h = rw (← append_assoc log (emitted op) (all_emitted ops)) (
    run-newest ops (apply op s) (log ++ emitted op)
      (events-apply op s log h ∙ ap (λ n. newest n (log ++ emitted op)) (sym (limit-apply op s))))

run-limit : (ops : List Op) (s : Store) → (run ops s).history_limit ≡ s.history_limit
run-limit ops s =
    run_induction {P = λ t. t.history_limit ≡ s.history_limit} (λ op t h. limit-apply op t ∙ h) ops
      s refl

-- After any calls on a new store the history is the newest events of all that were ever reported,
-- in order, as many as the limit allows (a limit of 0 counts as 1), and never more.
pub history_newest :
    (now : ℕ) (build : Info) (cfg : Config) (limit : ℕ) (ops : List Op)
    → let s = run ops (new_store now build cfg limit) in
      (s.events ≡ newest (max limit 1) (all_emitted ops)) × (length s.events ≤ max limit 1)
unfolding new_store
history_newest now build cfg limit ops =
    let start = new_store now build cfg limit in
    let kept : (run ops start).history_limit ≡ max limit 1 = run-limit ops start ∙ ground arith in
    let events : (run ops start).events ≡ newest (max limit 1) (all_emitted ops) =
      run-newest ops start [] (sym (newest-nil _)) ∙ ap (λ n. newest n (all_emitted ops)) kept in
    (events, rw events (length-newest (max limit 1) (all_emitted ops)))
