-- ===== src/Hetzner/Poll/Ends.antt =====
-- `awaitAction` ends: its rounds are enough, since each takes one interval of a bounded time.
use hetdns.Prelude.{
  leb, Bool-cases, inl, inr, ◌≢◌, ap, ℕ, zero, suc, ◌+◌, ◌*◌, ◌/◌, ◌≤◌, ◌<◌, ◌≡◌, refl, Option,
  none, some, arith,
}
use native.Mathlib.Numerals.{add-one}
use hetdns.Hetzner.Types.{Action, Error, unfinished}
use hetdns.Hetzner.Poll.Failures.{progress-Real, poll-Real}
use hetdns.Hetzner.Env.{Runtime, World, Context, with_timeout, earlier, wait}
use hetdns.Hetzner.Request.{Client}
use hetdns.Hetzner.Request.Sent.{now-le-get_json}
use hetdns.Hetzner.Poll.{
  poll, Progress, running, finished, Polled, ended, on_wait, on_progress, poll_rounds, action_path,
  progress, out_of_rounds, polled_error, on_start, await_action,
}

abbrev EndsBy : Context → ℕ → Type 0
EndsBy ctx deadline = (t : ℕ) × (ctx.done_at ≡ some t) × (t ≤ deadline)

-- Waiting takes time: if the context ends by `deadline`, the timer fires only up to then.
module _ (rt : Runtime) (ctx : Context) (delay deadline : ℕ) where
  wait_fires :
      (w : World)
      → EndsBy ctx deadline
      → (wait rt ctx delay w).0 ≡ none
      → ((wait rt ctx delay w).1.now ≡ w.now + delay) × (w.now + delay ≤ deadline)
  unfolding wait
  wait_fires w (t, e, le) h = ground arith

-- A polling loop whose context ends by a deadline ends within the rounds that reach it.
module _ (rt : Runtime) (c : Client) (ctx : Context) (current : Action) (deadline : ℕ)
    (ends : EndsBy ctx deadline) where
  abbrev Ends : Polled × World → Type 0
  Ends r = (result : Option Error) × (r.0 ≡ ended result)

  on_progress-Ends :
      (p : Progress) (rest : World → Polled × World) (w : World)
      → Ends (rest w)
      → Ends (on_progress rt c p rest w)
  unfolding on_progress
  on_progress-Ends (finished result) rest w h = (result, refl)
  on_progress-Ends running rest w h = h

  on_wait-Ends :
      (rest : World → Polled × World) (s : Option Error × World)
      → (s.0 ≡ none → (w : World) → s.1.now ≤ w.now → Ends (rest w))
      → Ends (on_wait rt c ctx current rest s)
  unfolding on_wait
  on_wait-Ends rest (some e, w) h = (_, refl)
  on_wait-Ends rest (none, w) h =
      on_progress-Ends _ rest _
        (h refl _ (now-le-get_json rt c rt.unmarshal_action ctx (action_path rt c current) w))

  poll-Ends :
      (rounds : ℕ) (w : World)
      → deadline < w.now + suc rounds * c.poll_every
      → Ends (poll rt c ctx current (suc rounds) w)
  unfolding poll
  poll-Ends zero w h =
      on_wait-Ends (poll rt c ctx current zero) (wait rt ctx c.poll_every w) (λ fired v later.
        absurd (omega (arith, wait_fires rt ctx c.poll_every deadline w ends fired)))
  poll-Ends (suc rounds) w h =
      on_wait-Ends (poll rt c ctx current (suc rounds)) (wait rt ctx c.poll_every w)
        (λ fired v later.
          poll-Ends rounds v (omega (arith, wait_fires rt ctx c.poll_every deadline w ends fired)))

earlier-EndsBy :
    (ctx : Context) (d : Option ℕ) (deadline : ℕ)
    → ctx.done_at ≡ d
    → EndsBy (earlier d deadline ctx) deadline
earlier-EndsBy ctx none deadline e = (deadline, refl, omega arith)
earlier-EndsBy ctx (some t) deadline e = elim (Bool-cases (leb t deadline)) [
  | inl sooner ↦ rw sooner (t, e, ground arith)
  | inr later ↦ rw later (deadline, refl, omega arith)
]

with_timeout-EndsBy :
    (ctx : Context) (now limit : ℕ) → EndsBy (with_timeout ctx now limit) (now + limit)
unfolding with_timeout
with_timeout-EndsBy ctx now limit = earlier-EndsBy ctx ctx.done_at (now + limit) refl

rounds_reach : (limit every : ℕ) → 0 < every → limit < suc (limit / every) * every
rounds_reach limit every h = grind arith

enough_rounds :
    (rt : Runtime) (c : Client) (ctx : Context) (current : Action) (w : World)
    → 0 < c.poll_every
    → (result : Option Error) × ((poll rt c
          (with_timeout ctx w.now c.poll_limit)
          current
          (poll_rounds rt c)
          w).0
        ≡ ended result)
enough_rounds rt c ctx current w h = rw add-one (
    poll-Ends rt c (with_timeout ctx w.now c.poll_limit) current (w.now + c.poll_limit)
      (with_timeout-EndsBy ctx w.now c.poll_limit) (c.poll_limit / c.poll_every) w
      (omega (arith, rounds_reach c.poll_limit c.poll_every h)))

module _ (rt : Runtime) (c : Client) (current : Action) where
  polled-Real :
      (p : Polled)
      → (result : Option Error) × (p ≡ ended result)
      → p ≢ ended (some unfinished)
      → polled_error rt c p ≢ some unfinished
  unfolding polled_error
  polled-Real (ended result) e n h = n (ap ended h)
  polled-Real out_of_rounds (result, e) n h = ground (arith, e)

  on_start-Real :
      (ctx : Context) (p : Progress) (w : World)
      → 0 < c.poll_every
      → p ≢ finished (some unfinished)
      → (on_start rt c ctx current p w).0 ≢ some unfinished
  unfolding on_start
  on_start-Real ctx (finished result) w h n k = n (ap finished k)
  on_start-Real ctx running w h n k =
      polled-Real _ (enough_rounds rt c ctx current w h)
        (poll-Real rt c current (with_timeout ctx w.now c.poll_limit) (poll_rounds rt c) w) k

-- With a positive polling interval the rounds that the model gives to `awaitAction` are enough, whatever
-- the network answers and however long it takes: it never ends because they are used up, so it ends
-- by what is known of the action, by an error of a request or by the end of its context.
pub await_action_ends :
    (rt : Runtime) (c : Client) (ctx : Context) (current : Action) (w : World)
    → 0 < c.poll_every
    → (await_action rt c ctx current w).0 ≢ some unfinished
unfolding await_action
await_action_ends rt c ctx current w h =
    on_start-Real rt c current ctx (progress rt c current current) w h
      (progress-Real rt c current current)
