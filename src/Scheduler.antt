-- ===== src/Scheduler.antt =====
-- internal/scheduler/scheduler.go: cycles one after the other, with a delay between them.
pub mod Delay
pub mod Rounds
use hetdns.Prelude.{
  ℕ, zero, suc, ◌+◌, ◌-◌, ◌*◌, ◌/◌, ◌%◌, max, leb, ltb, Bool, true, false, Option, none, some, List,
  [], ◌∷◌, if◌then◌else◌, ◌==◌,
}
use hetdns.Prelude.Int.{ℤ, pos, pos_part, ◌-ℤ◌, add_int64, add_time}
use hetdns.Prelude.Text.{Text}
use hetdns.Status.{Store, set_next_cycle}

-- `jitter`, with a random number: `rand.Int64N(n)` is its remainder by `n`. The quotient of a negative
-- interval is not positive.
unfoldable pub jitter : ℤ → ℕ → ℤ
jitter interval random =
    let bound = pos_part interval / 20 in
    if bound == 0 then pos 0 else pos (random % (bound * 2 + 1)) -ℤ pos bound

-- The delay of the next cycle, an int64.
unfoldable pub delay_of : ℤ → ℕ → ℤ
delay_of interval random = add_int64 interval (jitter interval random)

-- What happened: a cycle that began and ended, and a pause, with the time of the next cycle that the
-- store shows during it.
pub data Happening : Type 0 where
  cycle : ℕ → ℕ → Happening
  announced : ℕ → Happening

-- The time, the store and what happened, the last first.
pub record Machine : Type 0 where
  pub now : ℕ
  pub store : Store
  pub log : List Happening

-- The interval is an int64. The runner takes some time and changes the store. The context ends at a time, or never. A timer
-- may fire late. All of these may depend on what happened, and so may the random numbers and the
-- case that `select` takes when both are ready.
pub record Setup : Type 0 where
  pub interval : ℤ
  pub run : Machine → ℕ × Store
  pub done_at : Option ℕ
  pub random : Machine → ℕ
  pub late : Machine → ℕ
  pub prefers_done : Machine → Bool

-- A round of the loop ends it or leads to the next one.
pub data Round : Type 0 where
  stopped : Machine → Round
  again : Machine → Round

abbrev done_by : Option ℕ → ℕ → Bool
done_by none now = false
done_by (some t) now = leb t now

-- `ctx.Err() != nil`.
unfoldable pub is_done : Setup → Machine → Bool
is_done setup m = done_by setup.done_at m.now

-- The `select`: the context ends, or the timer fires at `fire`.
woken : Option ℕ → ℕ → Bool → Machine → Round
woken none fire tie m = again (record m { now = fire })
woken (some t) fire tie m =
    if ltb t fire
    then stopped (record m { now = max m.now t })
    else if ltb fire t
    then again (record m { now = fire })
    else if tie
    then stopped (record m { now = fire })
    else again (record m { now = fire })

module _ (setup : Setup) where
  -- From the announcement of the next cycle on. A timer with a negative delay fires at once.
  pause : Machine → Round
  unfolding woken
  pause m =
      let delay = delay_of setup.interval (setup.random m) in
      let store = set_next_cycle (add_time m.now delay) m.store in
      let told = record m { store = store; log = announced store.scheduler.next_cycle ∷ m.log } in
      woken setup.done_at (m.now + pos_part delay + setup.late m) (setup.prefers_done m) told

  after_cycle : Machine → Round
  unfolding pause
  after_cycle m = if is_done setup m then stopped m else pause m

  begin_cycle : Machine → Round
  unfolding after_cycle
  begin_cycle m =
      let (took, store) = setup.run m in
      after_cycle
        (record { now = m.now + took; store = store; log = cycle m.now (m.now + took) ∷ m.log })

  -- The body of the loop of `Run`.
  unfoldable pub round : Machine → Round
  unfolding begin_cycle
  round m = if is_done setup m then stopped m else begin_cycle m

  on_round : Round → (Machine → Round) → Round
  on_round (stopped m) rest = stopped m
  on_round (again m) rest = rest m

  -- That many rounds of `Run`, or fewer if it stops.
  unfoldable pub rounds : ℕ → Machine → Round
  unfolding on_round
  rounds zero m = again m
  rounds (suc n) m = on_round (round m) (rounds n)
