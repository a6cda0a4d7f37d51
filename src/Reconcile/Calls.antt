-- ===== src/Reconcile/Calls.antt =====
-- Which calls of the status store internal/reconcile/reconciler.go makes for a record.
pub mod Whole
use hetdns.Prelude.{
  ℕ, ◌+◌, ◌<◌, ◌≤◌, ◌≡◌, refl, ◌∙◌, ap, sym, Bool, true, false, Option, none, some, List, [], ◌∷◌,
  ◌++◌, arith, ltb, Bool-cases, inl, inr, if◌then◌else◌,
}
use hetdns.Prelude.Int.{pos, sub_time, add_time}
use hetdns.Prelude.Text.{Text, text}
use hetdns.Prelude.Sort.{sort_texts}
use hetdns.Prelude.Map.{Map, or_zero, lookup, keys}
use hetdns.Addr.{Addr}
use hetdns.Config
use hetdns.Config.{Config}
use hetdns.Status.{Store, Report}
use hetdns.Status.Ops
use hetdns.Status.Ops.{Op, started, finished, checking, result, apply, run-append}
use hetdns.Hetzner.Types.{
  State as ProviderState, unset, unchanged, created, updated, Result, Error, error_text, state_text,
}
use hetdns.Hetzner.Client.{Reconciled}
use hetdns.Reconcile.State.{SourceResult, Retry, zero_retry, Cycle, Env, M, now}
use hetdns.Reconcile.Backoff.{fail_record, retry_delay}
use hetdns.Reconcile.Gate.{spec_of, value_of}
use hetdns.Reconcile.{
  after_call, check, unless_backoff, with_source, provider_record, process_record, process_records,
  run, record_timeout, outcome_text, is_change,
}

-- The state that a success is reported with, and whether it is reported as a change.
abbrev pub state_told : ProviderState → Text
state_told unset = []
state_told unchanged = text "unchanged"
state_told created = text "updated"
state_told updated = text "updated"

abbrev pub change_told : ProviderState → Bool
change_told created = true
change_told updated = true
change_told unset = false
change_told unchanged = false

module _ {W : Type 0} (env : Env W) where
  abbrev pub retry_before : Text → Cycle W → Retry
  retry_before id s = or_zero zero_retry (lookup id s.backoff)

  -- What the provider answers when it is asked in a state.
  abbrev pub answer_to : Text → Config.Record → Addr → Cycle W → Reconciled
  answer_to id spec address s =
      (env.reconcile record_timeout (provider_record id spec) address s.world).0

  -- The calls of the store for one record, from a state and with the result of its source: one report
  -- that the source failed, or that the backoff has not run out; or that the record is checked, and
  -- then one report of what the provider has answered.
  pub data RecordCalls (id : Text) (spec : Config.Record) (address : Addr) (err : Option Text)
      (s : Cycle W) : List Op → Type 0 where
    no_source :
        (e : Text) (t : ℕ)
        → err ≡ some e
        → RecordCalls id spec address err s (
            result t (record {
              id = id;
              state = text "source_error";
              desired = [];
              observed = [];
              duration = pos 0;
              changed = false;
              next_retry = 0;
              err = some (text "configured address source failed");
            })
            ∷ [])
    waits :
        (t : ℕ)
        → err ≡ none
        → env.clock s.reads < (retry_before id s).next
        → RecordCalls id spec address err s (
            result t (record {
              id = id;
              state = text "backoff";
              desired = env.netip.show_addr address;
              observed = [];
              duration = pos 0;
              changed = false;
              next_retry = (retry_before id s).next;
              err = none;
            })
            ∷ [])
    fails :
        (e : Error) (t start end_ next : ℕ)
        → err ≡ none
        → (answer_to id spec address s).failure ≡ some e
        → next
          ≡ add_time (env.clock (s.reads + 3)) (retry_delay ((retry_before id s).failures + 1) e)
        → RecordCalls id spec address err s (
            checking id (env.netip.show_addr address)
            ∷ result t (record {
              id = id;
              state = text "provider_error";
              desired = env.netip.show_addr address;
              observed = (answer_to id spec address s).result.observed;
              duration = sub_time end_ start;
              changed = false;
              next_retry = next;
              err = some (error_text e);
            })
            ∷ [])
    succeeds :
        (t start end_ : ℕ)
        → err ≡ none
        → (answer_to id spec address s).failure ≡ none
        → RecordCalls id spec address err s (
            checking id (env.netip.show_addr address)
            ∷ result t (record {
              id = id;
              state = state_told (answer_to id spec address s).result.state;
              desired = env.netip.show_addr address;
              observed = (answer_to id spec address s).result.observed;
              duration = sub_time end_ start;
              changed = change_told (answer_to id spec address s).result.state;
              next_retry = 0;
              err = none;
            })
            ∷ [])

  -- Some calls lead from a state to the store of another.
  abbrev pub Made : Text → Config.Record → Addr → Option Text → Cycle W → Cycle W → Type 0
  Made id spec address err s t =
      (ops : List Op) × (t.store ≡ Ops.run ops s.store) × RecordCalls id spec address err s ops

  module _ (cfg : Config) (id : Text) (spec : Config.Record) (address : Addr) (s : Cycle W) where
    told_state :
        (st : ProviderState)
        → (if is_change st then text "updated" else state_text st) ≡ state_told st
    told_state unset = refl
    told_state unchanged = refl
    told_state created = refl
    told_state updated = refl

    told_change : (st : ProviderState) → is_change st ≡ change_told st
    told_change unset = refl
    told_change unchanged = refl
    told_change created = refl
    told_change updated = refl

    abbrev answer : Reconciled × W
    answer = env.reconcile record_timeout (provider_record id spec) address s.world

    -- The state in which the provider's answer is known.
    abbrev answered : Cycle W
    answered = record s {
      store = apply (checking id (env.netip.show_addr address)) s.store;
      reads = s.reads + 1 + 1;
      world = answer.1;
    }

    three : s.reads + 1 + 1 + 1 ≡ s.reads + 3
    three = omega arith

    after_call-Made :
        (failure : Option Error)
        → answer.0.failure ≡ failure
        → Made id spec address none s
            (after_call env cfg id
              (env.netip.show_addr address)
              (env.clock (s.reads + 1))
              answer.0.result
              failure
              answered).1
    unfolding after_call fail_record Ops.run
    after_call-Made none e = (
      _,
      rw (told_state answer.0.result.state, told_change answer.0.result.state) refl,
      succeeds (env.clock (s.reads + 1 + 1 + 1)) (env.clock (s.reads + 1))
          (env.clock (s.reads + 1 + 1)) refl e,
    )
    after_call-Made (some f) e = (
      _,
      refl,
      fails f _ _ _ _ refl e (
          ap (λ n. add_time (env.clock n) (retry_delay ((retry_before id s).failures + 1) f))
            three),
    )

  unless_backoff-Made :
      (cfg : Config) (id : Text) (spec : Config.Record) (address : Addr) (s : Cycle W) (b : Bool)
      → ltb (env.clock s.reads) (retry_before id s).next ≡ b
      → Made id spec address none s
          (unless_backoff env cfg b id spec address
            (retry_before id s).next
            (record s { reads = s.reads + 1 })).1
  unfolding unless_backoff check Ops.run
  unless_backoff-Made cfg id spec address s true e = (_, refl, waits _ refl (ground (arith, e)))
  unless_backoff-Made cfg id spec address s false e =
      after_call-Made cfg id spec address s (answer_to id spec address s).failure refl

  pub with_source-Made :
      (cfg : Config) (id : Text) (spec : Config.Record) (address : Addr) (s : Cycle W)
      (err : Option Text)
      → Made id spec address err s (with_source env cfg id spec address err s).1
  unfolding with_source Ops.run
  with_source-Made cfg id spec address s (some e) = (_, refl, no_source e _ refl)
  with_source-Made cfg id spec address s none = unless_backoff-Made cfg id spec address s _ refl
