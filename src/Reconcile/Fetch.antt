-- ===== src/Reconcile/Fetch.antt =====
-- `fetchSources` of internal/reconcile/reconciler.go: the workers, step by step, in any interleaving.
-- Each source is fetched once in a cycle, so what its fetch yields is a function of its id.
pub mod Complete
pub mod Ends
use hetdns.Prelude.{ℕ, suc, ◌<◌, ◌≡◌, min, Option, none, some, List, [], ◌∷◌, ◌++◌, length}
use hetdns.Prelude.Text.{Text, text}
use hetdns.Prelude.Map.{Map, insert}
use hetdns.Addr.{Netip}
use hetdns.Status.{Store, source_result}
use hetdns.Reconcile.State.{SourceResult, Measure}

-- Where a worker is: it has taken a source and fetches it, it has a result, it has put that into the
-- map, or it has told the status store.
pub data Stage : Type 0 where
  asking holding reporting measuring : Stage

-- The sources that no worker has taken, what the workers are at, and what they have written.
pub record Fetching : Type 0 where
  pub jobs : List Text
  pub active : List (Stage × Text)
  pub results : Map SourceResult
  pub store : Store
  pub measures : List Measure

abbrev pub start_of : List Text → Store → List Measure → Fetching
start_of ids store measures = record {
  jobs = ids;
  active = [];
  results = [];
  store = store;
  measures = measures;
}

abbrev worker_count : List Text → ℕ
worker_count ids = min 4 (length ids)

abbrev address_text : Netip → SourceResult → Text
address_text netip r = elim r.err [ none ↦ netip.show_addr r.address | some e ↦ [] ]

abbrev outcome_of : Option Text → Text
outcome_of none = text "success"
outcome_of (some e) = text "error"

-- What a worker does next, at a time; `others` are before and after it.
unfoldable pub move :
    Netip
    → (Text → SourceResult)
    → ℕ
    → Stage × Text
    → List (Stage × Text)
    → List (Stage × Text)
    → Fetching
    → Fetching
move netip outcome now (asking, id) before after s = record s {
  active = before ++ (holding, id) ∷ after;
}
move netip outcome now (holding, id) before after s = record s {
  active = before ++ (reporting, id) ∷ after;
  results = insert id (outcome id) s.results;
}
move netip outcome now (reporting, id) before after s =
    let r = outcome id in
    record s {
      active = before ++ (measuring, id) ∷ after;
      store = source_result now id (address_text netip r) r.duration r.err s.store;
    }
move netip outcome now (measuring, id) before after s =
    let r = outcome id in
    record s {
      active = before ++ after;
      measures = Measure.fetched id (outcome_of r.err) r.duration ∷ s.measures;
    }

module _ (netip : Netip) (outcome : Text → SourceResult) (ids : List Text) where
  -- A free worker takes the next source, or a busy one moves on.
  pub data Step (s : Fetching) : Fetching → Type 0 where
    take_job :
        (id : Text) (rest : List Text)
        → s.jobs ≡ id ∷ rest
        → length s.active < worker_count ids
        → Step s (record s { jobs = rest; active = (asking, id) ∷ s.active })
    work :
        (now : ℕ) (worker : Stage × Text) (before after : List (Stage × Text))
        → s.active ≡ before ++ worker ∷ after
        → Step s (move netip outcome now worker before after s)

  -- A number of steps.
  pub data Steps (s : Fetching) : ℕ → Fetching → Type 0 where
    none_yet : Steps s 0 s
    then_step : (n : ℕ) (t u : Fetching) → Steps s n t → Step t u → Steps s (suc n) u
