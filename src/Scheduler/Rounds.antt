-- ===== src/Scheduler/Rounds.antt =====
-- How the cycles of internal/scheduler/scheduler.go follow each other.
use mathlib.Core.Path.{subst}
use hetdns.Status.{Store, set_next_cycle}
use hetdns.Prelude.{
  ℕ, zero, suc, ◌+◌, ◌/◌, ◌^◌, ◌≤◌, ◌<◌, ◌∙◌, ap, ◌≡◌, inl, inr, refl, ltb, Bool, true, false,
  Option, none, some, List, [], ◌∷◌, arith, if◌then◌else◌, Bool-cases,
}
use hetdns.Prelude.Int.{pos, add_time}
use hetdns.Scheduler.Delay.{Fits, delay_bounds}
use hetdns.Scheduler.{
  delay_of, Happening, cycle, announced, Machine, Setup, Round, stopped, again, is_done, woken,
  pause, after_cycle, begin_cycle, round, on_round, rounds,
}

-- Cycles do not overlap: after each its next one is announced, for its end plus the interval give or
-- take a twentieth, and the next one does not begin before that.
abbrev pub Spaced : ℕ → List Happening → Type 0
Spaced interval [] = Unit
Spaced interval (cycle s e ∷ []) = s ≤ e
Spaced interval (cycle s e ∷ announced n ∷ rest) =
    (s ≤ e) × (n ≤ s) × Spaced interval (announced n ∷ rest)
Spaced interval (announced n ∷ cycle s e ∷ rest) =
    (e + interval ≤ n + interval / 20)
    × (n ≤ e + interval + interval / 20)
    × Spaced interval (cycle s e ∷ rest)
Spaced interval _ = ⊥

-- Where a round may begin: nothing has happened yet, or the announced time is over.
abbrev Waits : List Happening → ℕ → Type 0
Waits [] now = Unit
Waits (cycle s e ∷ rest) now = ⊥
Waits (announced n ∷ rest) now = n ≤ now

add_time-pos : (t d : ℕ) → add_time t (pos d) ≡ t + d
unfolding add_time
add_time-pos t d = omega arith

module _ (setup : Setup) (interval : ℕ) (same : setup.interval ≡ pos interval)
    (fits : Fits interval) where
  abbrev Good : Round → Type 0
  Good (stopped m) = Spaced interval m.log × (is_done setup m ≡ true)
  Good (again m) = Spaced interval m.log × Waits m.log m.now

  begun :
      (log : List Happening) (now took : ℕ)
      → Spaced interval log
      → Waits log now
      → Spaced interval (cycle now (now + took) ∷ log)
  begun [] now took h w = omega arith
  begun (announced n ∷ rest) now took h w = (omega arith, w, h)
  begun (cycle s e ∷ rest) now took h w = absurd w

  woken-Good :
      (o : Option ℕ) (n fire : ℕ) (tie : Bool) (m : Machine) (rest : List Happening)
      → n ≤ fire
      → setup.done_at ≡ o
      → m.log ≡ announced n ∷ rest
      → Spaced interval m.log
      → Good (woken o fire tie m)
  unfolding woken is_done
  woken-Good none n fire tie m rest le e q h = (h, rw q le)
  woken-Good (some t) n fire tie m rest le e q h = elim (Bool-cases (ltb t fire)) [
    | inl sooner ↦ rw sooner (h, rw e (ground arith))
    | inr later ↦ rw later (elim (Bool-cases (ltb fire t)) [
      | inl fires ↦ rw fires (h, rw q le)
      | inr both ↦ rw both (at_once tie later both)
    ])
  ]
    where
      at_once :
          (b : Bool)
          → ltb t fire ≡ false
          → ltb fire t ≡ false
          → Good (if b then stopped (record m { now = fire }) else again (record m { now = fire }))
      at_once true k l = (h, rw e (ground (arith, k, l)))
      at_once false k l = (h, rw q le)

  pause-Good :
      (s : ℕ) (m : Machine) (rest : List Happening)
      → m.log ≡ cycle s m.now ∷ rest
      → Spaced interval m.log
      → Good (pause setup m)
  unfolding pause set_next_cycle
  pause-Good s m rest q h =
      let (d, e, low, high) = delay_bounds interval (setup.random m) fits in
      let exact = ap (λ i. delay_of i (setup.random m)) same ∙ e in
      let next = add_time-pos m.now d in
      rw exact (
        woken-Good setup.done_at (add_time m.now (pos d)) (m.now + d + setup.late m)
          (setup.prefers_done m) _ m.log (omega (arith, next)) refl refl
          (rw q (omega (arith, low, next), omega (arith, high, next), subst (Spaced interval) q h)))

  after_cycle-Good :
      (s : ℕ) (m : Machine) (rest : List Happening)
      → m.log ≡ cycle s m.now ∷ rest
      → Spaced interval m.log
      → Good (after_cycle setup m)
  unfolding after_cycle
  after_cycle-Good s m rest q h = elim (Bool-cases (is_done setup m)) [
    | inl done ↦ rw done (h, done)
    | inr open_ ↦ rw open_ (pause-Good s m rest q h)
  ]

  round-Good : (m : Machine) → Spaced interval m.log → Waits m.log m.now → Good (round setup m)
  unfolding round begin_cycle
  round-Good m h w = elim (Bool-cases (is_done setup m)) [
    | inl done ↦ rw done (h, done)
    | inr open_ ↦
        rw open_ (after_cycle-Good m.now _ m.log refl (begun m.log m.now (setup.run m).0 h w))
  ]

  on_round-Good :
      (n : ℕ) (r : Round)
      → ((m : Machine) → Spaced interval m.log → Waits m.log m.now → Good (rounds setup n m))
      → Good r
      → Good (on_round setup r (rounds setup n))
  unfolding on_round
  on_round-Good n (stopped m) k g = g
  on_round-Good n (again m) k g = k m g.0 g.1

  rounds-Good :
      (n : ℕ) (m : Machine) → Spaced interval m.log → Waits m.log m.now → Good (rounds setup n m)
  unfolding rounds
  rounds-Good zero m h w = (h, w)
  rounds-Good (suc n) m h w = on_round-Good n (round setup m) (rounds-Good n) (round-Good m h w)

-- What a scheduler has done, in the order of the rounds, when it stops or goes on.
abbrev pub machine_of : Round → Machine
machine_of (stopped m) = m
machine_of (again m) = m

abbrev pub Stops : Setup → Round → Type 0
Stops setup (stopped m) = is_done setup m ≡ true
Stops setup (again m) = Unit

Good-parts :
    (setup : Setup) (interval : ℕ) (same : setup.interval ≡ pos interval) (fits : Fits interval)
    (r : Round)
    → Good setup interval same fits r
    → Spaced interval (machine_of r).log × Stops setup r
Good-parts setup interval same fits (stopped m) g = g
Good-parts setup interval same fits (again m) g = (g.0, tt)

-- However many rounds the scheduler makes from the start, whatever its cycles do and however late its
-- timers are, as long as the interval plus a twentieth of it is an int64: the cycles do not overlap;
-- during each pause the store shows as the time of the next cycle the end of the last one plus the
-- interval, give or take a twentieth, and the next one does not begin before that; and it stops only
-- when its context has ended.
pub rounds-Spaced :
    (setup : Setup) (interval n now : ℕ) (store : Store)
    → setup.interval ≡ pos interval
    → interval + interval / 20 < 2 ^ 63
    → let r = rounds setup n (record { now = now; store = store; log = [] }) in
      Spaced interval (machine_of r).log × Stops setup r
rounds-Spaced setup interval n now store same fits =
    Good-parts setup interval same fits
      (rounds setup n (record { now = now; store = store; log = [] }))
      (rounds-Good setup interval same fits n (record { now = now; store = store; log = [] }) tt tt)
