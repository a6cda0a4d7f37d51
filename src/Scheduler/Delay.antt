-- ===== src/Scheduler/Delay.antt =====
-- The delays of internal/scheduler/scheduler.go, in int64.
use hetdns.Prelude.{
  ℕ, ◌+◌, ◌-◌, ◌*◌, ◌/◌, ◌%◌, ◌^◌, ◌≤◌, ◌<◌, ◌∙◌, ap, ◌==◌, ◌≡◌, inl, inr, true, false, arith,
  Bool-cases,
}
use hetdns.Prelude.Int.{pos, int64_of, add_int64, wrap_int64, ℤ, ltb_ℤ, ◌+ℤ◌, ◌-ℤ◌}
use hetdns.Scheduler.{jitter, delay_of}

-- An interval whose sum with its largest jitter is an int64.
abbrev pub Fits : ℕ → Type 0
Fits interval = interval + interval / 20 < 2 ^ 63

jittered : (n d b : ℕ) → b ≤ n → pos n +ℤ (pos d -ℤ pos b) ≡ pos (n + d - b)
unfolding ◌+ℤ◌ ◌-ℤ◌
jittered n d b q = ground (arith, q)

small : (n : ℕ) → n < 2 ^ 63 → int64_of n ≡ pos n
unfolding int64_of
small n h = ground (arith, h)

big : (n : ℕ) → 2 ^ 63 ≤ n → n < 2 ^ 64 → ltb_ℤ (int64_of n) (pos 0) ≡ true
unfolding int64_of
big n h k = ground (arith, h, k)

add_int64-sum : (n : ℕ) (z : ℤ) (m : ℕ) → pos n +ℤ z ≡ pos m → add_int64 (pos n) z ≡ int64_of m
unfolding add_int64
add_int64-sum n z m e = ap wrap_int64 e

add_int64-jitter : (n d b : ℕ) → b ≤ n → add_int64 (pos n) (pos d -ℤ pos b) ≡ int64_of (n + d - b)
add_int64-jitter n d b q = add_int64-sum n (pos d -ℤ pos b) (n + d - b) (jittered n d b q)

no_jitter : (n : ℕ) → pos n +ℤ pos 0 ≡ pos n
unfolding ◌+ℤ◌
no_jitter n = ground arith

-- The delay is the interval, give or take a twentieth.
pub delay_bounds :
    (interval random : ℕ)
    → Fits interval
    → (d : ℕ) × (delay_of (pos interval) random ≡ pos d)
      × (interval ≤ d + interval / 20)
      × (d ≤ interval + interval / 20)
unfolding delay_of jitter
delay_bounds interval random h = elim (Bool-cases ((interval / 20) == 0)) [
  | inl e ↦ rw e (
    interval,
    add_int64-sum interval (pos 0) interval (no_jitter interval)
        ∙ small interval (omega (arith, h)),
    omega arith,
    omega arith,
  )
  | inr e ↦ rw e (
      let b = interval / 20 in
      let d = random % (b * 2 + 1) in
      (
        interval + d - b,
        add_int64-jitter interval d b (omega arith) ∙ small (interval + d - b) (grind (arith, h)),
        omega arith,
        grind arith,
      ))
]

most : (b : ℕ) → (2 * b) % (b * 2 + 1) ≡ 2 * b
most b = grind arith

largest_delay :
    (interval : ℕ)
    → ((interval / 20) == 0) ≡ false
    → delay_of (pos interval) (2 * (interval / 20))
      ≡ int64_of (interval + 2 * (interval / 20) - interval / 20)
unfolding delay_of jitter
largest_delay interval e =
    rw (e, most (interval / 20))
      (add_int64-jitter interval (2 * (interval / 20)) (interval / 20) (omega arith))

-- For an interval that is an int64 but whose sum with a twentieth of it is none, some random number
-- makes the delay of the next cycle negative.
pub delay_wraps :
    (interval : ℕ)
    → interval < 2 ^ 63
    → 2 ^ 63 ≤ interval + interval / 20
    → (random : ℕ) × (ltb_ℤ (delay_of (pos interval) random) (pos 0) ≡ true)
delay_wraps interval h k =
    let b = interval / 20 in
    (
      2 * b,
      ap (λ z. ltb_ℤ z (pos 0)) (largest_delay interval (ground (arith, h, k)))
          ∙ big (interval + 2 * b - b) (omega (arith, h, k)) (omega (arith, h, k)),
    )
