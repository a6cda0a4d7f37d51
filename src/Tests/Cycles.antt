-- ===== src/Tests/Cycles.antt =====
-- internal/reconcile/reconciler.go at concrete cycles.
use hetdns.Prelude.{ℕ, ◌+◌, ◌≡◌, ◌≤◌, ◌⊎◌, refl, arith}
use hetdns.Prelude.Int.{minute, hour}
use hetdns.Prelude.Text.{Text, text, text_eq, text_leb}
use hetdns.Prelude.Sort.{sort_texts}
use hetdns.Prelude.Map.{keys, or_zero, lookup, delete}
use hetdns.Hetzner.Types.{missing}
use hetdns.Reconcile.State.{Cycle, zero_retry}
use hetdns.Reconcile.Backoff.{fail_record}
use hetdns.Reconcile.Gate.{Left, Called, record_decision, failure_waits}
use hetdns.Reconcile.Outcome.{some_failing, run_outcome}
use hetdns.Reconcile.{outcome_text, provider_record, process_record, run}
use hetdns.Tests.Data.{env, cfg, results, first_cycle, record_keys}

abbrev cycle : Text × Cycle ℕ
cycle = run env cfg (λ s. (results, s)) first_cycle

run_outcome_example :
    cycle.0 ≡ outcome_text (some_failing (sort_texts (keys cfg.records)) cycle.1.store)
run_outcome_example = run_outcome env cfg (λ s. (results, s)) first_cycle record_keys

-- The provider is called for both records and refuses one of them.
cycle_test : (cycle.0 ≡ text "degraded") × (cycle.1.world ≡ 2)
unfolding run process_record sort_texts text_leb lookup text_eq provider_record delete fail_record
cycle_test = (refl, refl)

record_decision_example :
    Left env cfg results (text "a") first_cycle ⊎ Called env cfg results (text "a") first_cycle
record_decision_example = record_decision env cfg results (text "a") first_cycle

abbrev refused : Cycle ℕ
refused = (process_record env cfg results (text "b") first_cycle).1

failure_waits_example :
    let t = env.clock (first_cycle.reads + 3) in
    let next = (or_zero zero_retry (lookup (text "b") refused.backoff)).next in
    (t + minute ≤ next)
    × (next ≤ t + hour)
    × ((next ≤ env.clock refused.reads)
        ⊎ ((process_record env cfg results (text "b") refused).1.world ≡ refused.world))
unfolding lookup text_eq provider_record
failure_waits_example =
    failure_waits env cfg results results (text "b") first_cycle refused missing refl (omega arith)
      refl refl
