-- ===== src/Reconcile/Outcome.antt =====
-- The outcome of a cycle of internal/reconcile/reconciler.go against the states that it leaves.
use mathlib.Core.List.{Mem, Nodup, Nodup-cons, mem-cons_of_mem, mem-cons_self}
use mathlib.Core.Path.{subst}
use mathlib.Core.List.Perm
use hetdns.Prelude.{
  ℕ, ◌≡◌, ◌≢◌, refl, sym, ap, ◌∙◌, Bool, true, false, ◌||◌, Option, none, some, List, [], ◌∷◌,
  arith, any, if◌then◌else◌, ltb,
}
use hetdns.Prelude.Text.{Text, text, text_eq, text_eq_iff, text_eq_refl}
use hetdns.Prelude.Sort.{sort_texts, sort_texts-perm}
use hetdns.Prelude.Map.{Map, or_zero, lookup, keys}
use hetdns.Addr.{Addr}
use hetdns.Config
use hetdns.Config.{Config}
use hetdns.Status.{Store, record_checking, cycle_started, cycle_finished}
use hetdns.Status.Entries.{state_at, state-record_checking, state-record_result}
use hetdns.Reconcile.State.{SourceResult, Cycle, Env, M, now, on_store, zero_retry}
use hetdns.Reconcile.Backoff.{fail_record}
use hetdns.Hetzner.Types.{
  Result, Error, unset, unchanged, updated, created, state_text, State as ProviderState,
}
use hetdns.Reconcile.{
  is_change, after_call, check, unless_backoff, with_source, call_provider, provider_record,
  process_record, process_records, outcome_text, run,
}

-- The states that make a snapshot degraded.
unfoldable pub is_failing : Text → Bool
is_failing state =
    text_eq state (text "source_error")
    || text_eq state (text "provider_error")
    || text_eq state (text "backoff")

success_state :
    (st : ProviderState)
    → is_failing (if is_change st then text "updated" else state_text st) ≡ false
unfolding is_failing text_eq
success_state unset = refl
success_state unchanged = refl
success_state updated = refl
success_state created = refl

text_ne : (x y : Text) → x ≢ y → text_eq x y ≡ false
text_ne x y h = ground (arith, text_eq_iff x y)

module _ {W : Type 0} (env : Env W) (cfg : Config) (id : Text) where
  -- A step leaves the record in a state that is failing exactly if the step says so, and leaves
  -- every other record alone.
  abbrev Tells : Cycle W → Bool × Cycle W → Type 0
  Tells s r =
      (r.0 ≡ is_failing (state_at r.1.store id))
      × ((j : Text) → id ≢ j → state_at r.1.store j ≡ state_at s.store j)

  after_call-Tells :
      (desired : Text) (start : ℕ) (result : Result) (failure : Option Error) (s : Cycle W)
      → Tells s (after_call env cfg id desired start result failure s)
  unfolding after_call fail_record is_failing text_eq
  after_call-Tells desired start result (some e) s = (
    rw (state-record_result, text_eq_refl id) refl,
    λ j ne. rw (state-record_result, text_ne id j ne) refl,
  )
  after_call-Tells desired start result none s = (
    rw (state-record_result, text_eq_refl id) (sym (success_state result.state)),
    λ j ne. rw (state-record_result, text_ne id j ne) refl,
  )

  check-Tells :
      (spec : Config.Record) (address : Addr) (s : Cycle W)
      → Tells s (check env cfg id spec address s)
  unfolding check
  check-Tells spec address s =
      let checking = on_store {W = W} (record_checking id (env.netip.show_addr address)) s in
      let start = now env checking.1 in
      let called = call_provider env cfg (provider_record id spec) address start.1 in
      let after =
        after_call-Tells (env.netip.show_addr address) start.0 called.0.result called.0.failure
          called.1 in
      (after.0, λ j ne. after.1 j ne ∙ rw (state-record_checking, text_ne id j ne) refl)

  unless_backoff-Tells :
      (b : Bool) (spec : Config.Record) (address : Addr) (next : ℕ) (s : Cycle W)
      → Tells s (unless_backoff env cfg b id spec address next s)
  unfolding unless_backoff is_failing text_eq
  unless_backoff-Tells true spec address next s = (
    rw (state-record_result, text_eq_refl id) refl,
    λ j ne. rw (state-record_result, text_ne id j ne) refl,
  )
  unless_backoff-Tells false spec address next s = check-Tells spec address s

  with_source-Tells :
      (spec : Config.Record) (address : Addr) (err : Option Text) (s : Cycle W)
      → Tells s (with_source env cfg id spec address err s)
  unfolding with_source is_failing text_eq
  with_source-Tells spec address (some e) s = (
    rw (state-record_result, text_eq_refl id) refl,
    λ j ne. rw (state-record_result, text_ne id j ne) refl,
  )
  with_source-Tells spec address none s =
      let t = now env s in
      let next = (or_zero zero_retry (lookup id s.backoff)).next in
      unless_backoff-Tells (ltb t.0 next) spec address next t.1

  process_record-Tells :
      (results : Map SourceResult) (s : Cycle W) → Tells s (process_record env cfg results id s)
  unfolding process_record
  process_record-Tells results s = with_source-Tells _ _ _ s

abbrev pub some_failing : List Text → Store → Bool
some_failing ids store = any (λ id. is_failing (state_at store id)) ids

some_failing-cycle_finished :
    (ids : List Text) (t : ℕ) (outcome : Text) (store : Store)
    → some_failing ids (cycle_finished t outcome store) ≡ some_failing ids store
unfolding state_at cycle_finished
some_failing-cycle_finished ids t outcome store = refl

or_false : (b : Bool) → (b || false) ≡ b
or_false true = refl
or_false false = refl

module _ {W : Type 0} (env : Env W) (cfg : Config) (results : Map SourceResult) where
  other_states :
      (ids : List Text) (degraded : Bool) (s : Cycle W) (j : Text)
      → ¬ Mem j ids
      → state_at (process_records env cfg results ids degraded s).1.store j ≡ state_at s.store j
  unfolding process_records
  other_states [] degraded s j ne = refl
  other_states (id ∷ ids) degraded s j ne =
      other_states ids _ (process_record env cfg results id s).1 j (λ m. ne (mem-cons_of_mem id m))
      ∙ (process_record-Tells env cfg id results s).1 j
          (λ e. ne (subst (λ k. Mem k (id ∷ ids)) e mem-cons_self))

  process_records_tell :
      (ids : List Text) (degraded : Bool) (s : Cycle W)
      → Nodup ids
      → let r = process_records env cfg results ids degraded s in
        r.0 ≡ (some_failing ids r.1.store || degraded)
  unfolding process_records
  process_records_tell [] degraded s d = refl
  process_records_tell (id ∷ ids) degraded s d =
      let first = process_record env cfg results id s in
      let (fresh, rest) = Nodup-cons.0 d in
      let flag = (if first.0 then true else degraded) in
      ground (
        arith,
        process_records_tell ids flag first.1 rest,
        (process_record-Tells env cfg id results s).0,
        ap is_failing (other_states ids flag first.1 id fresh),
      )

-- The outcome of a cycle is `degraded` exactly if it leaves one of the configured records, whose
-- names differ, in a failing state: source_error, provider_error or backoff. It is `success`
-- otherwise.
pub run_outcome :
    {W : Type 0} (env : Env W) (cfg : Config) (fetch_sources : M W (Map SourceResult)) (s : Cycle W)
    → Nodup (keys cfg.records)
    → let r = run env cfg fetch_sources s in
      r.0 ≡ outcome_text (some_failing (sort_texts (keys cfg.records)) r.1.store)
unfolding run
run_outcome env cfg fetch_sources s d =
    let ids = sort_texts (keys cfg.records) in
    let started = now env s in
    let begun = on_store (λ u. (cycle_started started.0 u).0) started.1 in
    let fetched = fetch_sources begun.1 in
    let distinct = Perm.nodup (Perm.symm (sort_texts-perm (keys cfg.records))) d in
    let told = process_records_tell env cfg fetched.0 ids false fetched.1 distinct in
    ap outcome_text (told ∙ or_false _ ∙ sym (some_failing-cycle_finished ids _ _ _))
