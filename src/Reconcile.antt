-- ===== src/Reconcile.antt =====
-- internal/reconcile/reconciler.go: one reconciliation cycle over the configured records. The mutex
-- makes cycles sequential, so a cycle is a function of the state that it finds. The provider and the
-- clock are parameters, and so is the phase that fetches the sources, which Fetch is about.
pub mod State
pub mod Backoff
pub mod Gate
pub mod Outcome
pub mod Calls
pub mod Fetch
use hetdns.Prelude.{
  ℕ, ◌+◌, Bool, true, false, Option, none, some, List, [], ◌∷◌, ◌*◌, ltb, if◌then◌else◌,
}
use hetdns.Prelude.Int.{pos, sub_time, second}
use hetdns.Prelude.Text.{Text, text}
use hetdns.Prelude.Sort.{sort_texts}
use hetdns.Prelude.Map.{Map, or_zero, lookup, delete, keys}
use hetdns.Addr.{Addr, no_addr}
use hetdns.Config
use hetdns.Config.{Config, may_create}
use hetdns.Hetzner.Types.{State as ProviderState}
use hetdns.Hetzner.Types.{Record, Result, created, updated, state_text, Error, error_text}
use hetdns.Hetzner.Client.{Reconciled}
use hetdns.Status.{Store, Report, record_checking, record_result, cycle_started, cycle_finished}
use hetdns.Reconcile.State.{
  Retry, zero_retry, SourceResult, Measure, Cycle, Env, M, ◌>>=◌, ◌>>◌, return, now, on_store,
  measure, set_backoff,
}
use hetdns.Reconcile.Backoff.{fail_record}

abbrev pub zero_result : SourceResult
zero_result = record { address = no_addr; err = none; duration = pos 0 }

abbrev zero_spec : Config.Record
zero_spec = record {
  zone = [];
  name = [];
  kind = [];
  source = [];
  ttl = 0;
  create = none;
  replace_all = false;
}

-- `time.Time{}`.
abbrev zero_time : ℕ
zero_time = 0

abbrev pub record_timeout : ℕ
record_timeout = 45 * second

abbrev is_change : ProviderState → Bool
is_change created = true
is_change updated = true
is_change _ = false

-- What the provider is asked for.
unfoldable pub provider_record : Text → Config.Record → Record
provider_record id spec = record {
  id = id;
  zone = spec.zone;
  name = spec.name;
  kind = spec.kind;
  ttl = spec.ttl;
  create = may_create spec;
  replace_all = spec.replace_all;
}

abbrev source_failure : Text → Report
source_failure id = record {
  id = id;
  state = text "source_error";
  desired = [];
  observed = [];
  duration = pos 0;
  changed = false;
  next_retry = zero_time;
  err = some (text "configured address source failed");
}

abbrev in_backoff : Text → Text → ℕ → Report
in_backoff id desired next = record {
  id = id;
  state = text "backoff";
  desired = desired;
  observed = [];
  duration = pos 0;
  changed = false;
  next_retry = next;
  err = none;
}

abbrev pub outcome_text : Bool → Text
outcome_text degraded = if degraded then text "degraded" else text "success"

module _ {W : Type 0} (env : Env W) (cfg : Config) where
  -- `r.status.RecordResult`, which reads the time.
  report : Report → M W (Unit {0})
  report r = do t ← now env; on_store (record_result t r)

  get_retry_next : Text → M W ℕ
  get_retry_next id s = ((or_zero zero_retry (lookup id s.backoff)).next, s)

  call_provider : Record → Addr → M W Reconciled
  call_provider target address s =
      let (r, world) = env.reconcile record_timeout target address s.world in
      (r, record s { world = world })

  -- After a call of the provider that took from `start` on; the result tells whether the cycle
  -- becomes degraded.
  after_call : Text → Text → ℕ → Result → Option Error → M W Bool
  unfolding report
  after_call id desired start result (some e) = do
    end ← now env
    let duration = sub_time end start
    next ← fail_record env id e
    report (record {
      id = id;
      state = text "provider_error";
      desired = desired;
      observed = result.observed;
      duration = duration;
      changed = false;
      next_retry = next;
      err = some (error_text e);
    })
    measure (Measure.checked id (text "provider_error") duration)
    return true
  after_call id desired start result none = do
    end ← now env
    let duration = sub_time end start
    set_backoff (delete id)
    let changed = is_change result.state
    let state = if changed then text "updated" else state_text result.state
    report (record {
      id = id;
      state = state;
      desired = desired;
      observed = result.observed;
      duration = duration;
      changed = changed;
      next_retry = zero_time;
      err = none;
    })
    measure (Measure.checked id state duration)
    t ← now env
    measure (Measure.record_success id t)
    return false

  -- The part of the loop's body behind the backoff test.
  check : Text → Config.Record → Addr → M W Bool
  unfolding after_call call_provider
  check id spec address = do
    let desired = env.netip.show_addr address
    on_store (record_checking id desired)
    start ← now env
    called ← call_provider (provider_record id spec) address
    after_call id desired start called.result called.failure

  unless_backoff : Bool → Text → Config.Record → Addr → ℕ → M W Bool
  unfolding report
  unless_backoff true id spec address next = do
    report (in_backoff id (env.netip.show_addr address) next)
    measure (Measure.checked id (text "backoff") (pos 0))
    return true
  unless_backoff false id spec address next = check id spec address

  pub with_source : Text → Config.Record → Addr → Option Text → M W Bool
  unfolding report get_retry_next
  with_source id spec address (some e) = do
    report (source_failure id)
    measure (Measure.checked id (text "source_error") (pos 0))
    return true
  with_source id spec address none = do
    t ← now env
    next ← get_retry_next id
    unless_backoff (ltb t next) id spec address next

  -- The body of the loop of `Run`: whether the record makes the cycle degraded.
  unfoldable pub process_record : Map SourceResult → Text → M W Bool
  unfolding with_source unless_backoff check
  process_record results id =
      let spec = or_zero zero_spec (lookup id cfg.records) in
      let value = or_zero zero_result (lookup spec.source results) in
      with_source id spec value.address value.err

  process_records : Map SourceResult → List Text → Bool → M W Bool
  process_records results [] degraded = return degraded
  process_records results (id ∷ ids) degraded = do
    failed ← process_record results id
    process_records results ids (if failed then true else degraded)

  -- `Run`, with the phase that fetches the sources.
  unfoldable pub run : M W (Map SourceResult) → M W Text
  unfolding process_records
  run fetch_sources = do
    started ← now env
    on_store (λ s. (cycle_started started s).0)
    results ← fetch_sources
    degraded ← process_records results (sort_texts (keys cfg.records)) false
    let outcome = outcome_text degraded
    end ← now env
    let duration = sub_time end started
    finished ← now env
    on_store (cycle_finished finished outcome)
    measure (Measure.cycle outcome duration)
    return outcome
