-- ===== src/Reconcile/Gate.antt =====
-- When `Run` of internal/reconcile/reconciler.go calls the provider for a record, and what a call
-- does to the record's backoff.
use hetdns.Prelude.{
  ap, ◌+◌, ℕ, refl, inl, inr, ◌∙◌, Option, ◌+◌, ◌≤◌, ◌<◌, ◌≡◌, ◌≢◌, ◌⊎◌, Bool, true, false, none,
  some, arith,
}
use hetdns.Prelude.Int.{add_time, minute, hour}
use hetdns.Prelude.Text.{text_eq_refl, Text}
use hetdns.Prelude.Map.{lookup-insert, Map, or_zero, lookup, insert, delete}
use hetdns.Config
use hetdns.Config.{Config}
use hetdns.Hetzner.Types.{Error}
use hetdns.Hetzner.Client.{Reconciled}
use hetdns.Reconcile.State.{Retry, zero_retry, SourceResult, Cycle, Env}
use hetdns.Reconcile.Backoff.Bounds.{retry_delay_bounds}
use hetdns.Reconcile.Backoff.{retry_delay, fail_record}
use hetdns.Reconcile.{zero_result, zero_spec, record_timeout, provider_record, process_record}

some_differs : {A : Type 0} {o : Option A} {x : A} → o ≡ some x → o ≢ none
some_differs h n = ground (arith, h, n)

lt_or_le : (a b : ℕ) → (a < b) ⊎ (b ≤ a)
lt_or_le a b = omega arith

-- Whether a call failed, and what it leaves of the backoffs when failRecord reads the time `t`.
abbrev failed : Option Error → Bool
failed none = false
failed (some _) = true

abbrev backoff_after : Text → ℕ → Option Error → Map Retry → Map Retry
backoff_after id t none m = delete id m
backoff_after id t (some e) m =
    let failures = (or_zero zero_retry (lookup id m)).failures + 1 in
    insert id (record { failures = failures; next = add_time t (retry_delay failures e) }) m

module _ {W : Type 0} (env : Env W) (cfg : Config) (results : Map SourceResult) (id : Text)
    (s : Cycle W) where
  abbrev pub spec_of : Config.Record
  spec_of = or_zero zero_spec (lookup id cfg.records)

  abbrev pub value_of : SourceResult
  value_of = or_zero zero_result (lookup spec_of.source results)

  abbrev pub retry_of : Retry
  retry_of = or_zero zero_retry (lookup id s.backoff)

  abbrev after : Bool × Cycle W
  after = process_record env cfg results id s

  -- A record whose source failed, or whose backoff has not run out, makes the cycle degraded; the
  -- provider is not called, and every backoff stays as it is.
  pub record_gated :
      (value_of.err ≢ none) ⊎ (env.clock s.reads < retry_of.next)
      → (after.0 ≡ true) × (after.1.world ≡ s.world) × (after.1.backoff ≡ s.backoff)
  unfolding process_record
  record_gated h = ground arith

  abbrev pub answer : Reconciled × W
  answer = env.reconcile record_timeout (provider_record id spec_of) value_of.address s.world

  -- Any other record is passed to the provider, once; a success forgets its backoff.
  pub record_succeeds :
      value_of.err ≡ none
      → retry_of.next ≤ env.clock s.reads
      → answer.0.failure ≡ none
      → (after.0 ≡ false) × (after.1.world ≡ answer.1) × (after.1.backoff ≡ delete id s.backoff)
  unfolding process_record
  record_succeeds h k e = ground arith

  -- A failure counts one more failure and puts the next attempt off by the delay for that count.
  pub record_fails :
      (e : Error)
      → value_of.err ≡ none
      → retry_of.next ≤ env.clock s.reads
      → answer.0.failure ≡ some e
      → let failures = retry_of.failures + 1 in
        (after.0 ≡ true)
        × (after.1.world ≡ answer.1)
        × (after.1.backoff
            ≡ insert id
                (record {
                  failures = failures;
                  next = add_time (env.clock (s.reads + 3)) (retry_delay failures e);
                })
                s.backoff)
  unfolding process_record fail_record
  record_fails e h k f = ground arith

  called :
      (failure : Option Error)
      → value_of.err ≡ none
      → retry_of.next ≤ env.clock s.reads
      → answer.0.failure ≡ failure
      → (after.0 ≡ failed failure)
        × (after.1.world ≡ answer.1)
        × (after.1.backoff ≡ backoff_after id (env.clock (s.reads + 3)) failure s.backoff)
  called none h k f = record_succeeds h k f
  called (some e) h k f = record_fails e h k f

  abbrev pub Left : Type 0
  Left =
      ((value_of.err ≢ none) ⊎ (env.clock s.reads < retry_of.next))
      × (after.0 ≡ true)
      × (after.1.world ≡ s.world)
      × (after.1.backoff ≡ s.backoff)

  abbrev pub Called : Type 0
  Called =
      (value_of.err ≡ none)
      × (retry_of.next ≤ env.clock s.reads)
      × (after.0 ≡ failed answer.0.failure)
      × (after.1.world ≡ answer.1)
      × (after.1.backoff ≡ backoff_after id (env.clock (s.reads + 3)) answer.0.failure s.backoff)

  decide : (o : Option Text) → value_of.err ≡ o → Left ⊎ Called
  decide (some e) h =
      let some_err = inl (some_differs h) in
      let (flag, world, backoff) = record_gated some_err in inl (some_err, flag, world, backoff)
  decide none h = elim (lt_or_le (env.clock s.reads) retry_of.next) [
    | inl early ↦
        let (flag, world, backoff) = record_gated (inr early) in
        inl (inr early, flag, world, backoff)
    | inr late ↦
        let (flag, world, backoff) = called answer.0.failure h late refl in
        inr (h, late, flag, world, backoff)
  ]

  -- A record is either left alone, because its source failed or its backoff has not run out, and
  -- then makes the cycle degraded, with the provider's world and all backoffs as they were; or the
  -- provider is called for it once, it makes the cycle degraded exactly if the call fails, a success
  -- forgets its backoff, and a failure counts one more and puts the next attempt off.
  pub record_decision : Left ⊎ Called
  record_decision = decide value_of.err refl

next_bounds :
    (t : ℕ) (failures : ℕ) (e : Error)
    → let next = add_time t (retry_delay failures e) in (t + minute ≤ next) × (next ≤ t + hour)
unfolding add_time
next_bounds t failures e = ground (arith, retry_delay_bounds failures e)

next_after :
    (id : Text) (t : ℕ) (e : Error) (m m' : Map Retry)
    → lookup id m' ≡ lookup id (backoff_after id t (some e) m)
    → let next = (or_zero zero_retry (lookup id m')).next in (t + minute ≤ next) × (next ≤ t + hour)
next_after id t e m m' q =
    let failures = (or_zero zero_retry (lookup id m)).failures + 1 in
    rw (q, lookup-insert, text_eq_refl id) (next_bounds t failures e)

-- After a call of the provider for a record failed, with failRecord reading the time `t`, every
-- later state that still holds the record's backoff puts the next attempt at least a minute and at
-- most an hour after `t`, and until then the provider is not called for the record.
pub failure_waits :
    {W : Type 0} (env : Env W) (cfg : Config) (results later : Map SourceResult) (id : Text)
    (s s' : Cycle W) (e : Error)
    → (value_of env cfg results id s).err ≡ none
    → (retry_of env cfg results id s).next ≤ env.clock s.reads
    → (answer env cfg results id s).0.failure ≡ some e
    → lookup id s'.backoff ≡ lookup id (process_record env cfg results id s).1.backoff
    → let t = env.clock (s.reads + 3) in
      let next = (or_zero zero_retry (lookup id s'.backoff)).next in
      (t + minute ≤ next)
      × (next ≤ t + hour)
      × ((next ≤ env.clock s'.reads) ⊎ ((process_record env cfg later id s').1.world ≡ s'.world))
failure_waits env cfg results later id s s' e h k f q =
    let kept = q ∙ ap (lookup id) (record_fails env cfg results id s e h k f).2 in
    let (low, high) = next_after id (env.clock (s.reads + 3)) e s.backoff s'.backoff kept in
    (
      low,
      high,
      elim (lt_or_le (env.clock s'.reads) (retry_of env cfg later id s').next) [
        | inl early ↦ inr (record_gated env cfg later id s' (inr early)).1
        | inr late ↦ inl late
      ],
    )
