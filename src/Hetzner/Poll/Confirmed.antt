-- ===== src/Hetzner/Poll/Confirmed.antt =====
-- What `awaitAction` of internal/hetzner/client.go has seen when it returns no error.
use hetdns.Prelude.{
  ℕ, zero, suc, ◌≡◌, refl, ap, ◌⊎◌, inl, inr, Bool, true, false, Option, none, some, arith,
  if◌then◌else◌,
}
use hetdns.Prelude.Text.{text, text_eq_iff}
use hetdns.Hetzner.Types.{Action, Error, Outcome, ok, err}
use hetdns.Hetzner.Env.{Runtime, World, Context, with_timeout, wait}
use hetdns.Hetzner.Request.{Client, get_json, request_of}
use hetdns.Hetzner.Request.Answer.{AnsweredLast, get_json-AnsweredLast}
use hetdns.Hetzner.Poll.{
  progress, Progress, running, finished, Polled, ended, out_of_rounds, after_reply, on_progress,
  on_wait, poll, action_path, polled_error, on_start, await_action, poll_rounds,
}

-- The provider has said that the action has succeeded.
abbrev pub Succeeded : Action → Type 0
Succeeded latest = latest.status ≡ text "success"

-- Which test of `awaitAction` ends it without an error.
success_only :
    (success failed active : Bool) (e d : Error)
    → (if success
        then finished none
        else if failed
        then finished (some e)
        else if active
        then running
        else finished (some d))
      ≡ finished none
    → success ≡ true
success_only true failed active e d h = refl
success_only false true active e d h = absurd (ground (arith, h))
success_only false false true e d h = absurd (ground (arith, h))
success_only false false false e d h = absurd (ground (arith, h))

module _ (rt : Runtime) (c : Client) (current : Action) where
  -- The last request was one for the action, and its answer says that the action has succeeded.
  abbrev Seen : World → Type 0
  Seen w' =
      (latest : Action) × AnsweredLast rt rt.unmarshal_action
        (request_of c (text "GET") (action_path rt c current) none) latest w'
      × Succeeded latest

  -- An action has succeeded when it was returned, or it was seen to succeed.
  abbrev pub Confirmed : World → World → Type 0
  Confirmed w w' = (Succeeded current × (w' ≡ w)) ⊎ Seen w'

  progress-Succeeded :
      (latest : Action) → progress rt c current latest ≡ finished none → Succeeded latest
  unfolding progress
  progress-Succeeded latest h =
      (text_eq_iff latest.status (text "success")).0 (success_only _ _ _ _ _ h)

  reply-Succeeded :
      (o : Outcome Action)
      → after_reply rt c current o ≡ finished none
      → (latest : Action) × (o ≡ ok latest) × Succeeded latest
  unfolding after_reply
  reply-Succeeded (err e) h = absurd (ground (arith, h))
  reply-Succeeded (ok latest) h = (latest, refl, progress-Succeeded latest h)

  on_progress-Seen :
      (p : Progress) (rest : World → Polled × World) (w : World)
      → (p ≡ finished none → Seen w)
      → ((v : World) → (rest v).0 ≡ ended none → Seen (rest v).1)
      → (on_progress rt c p rest w).0 ≡ ended none
      → Seen (on_progress rt c p rest w).1
  unfolding on_progress
  on_progress-Seen running rest w now later h = later w h
  on_progress-Seen (finished none) rest w now later h = now refl
  on_progress-Seen (finished (some e)) rest w now later h = absurd (ground (arith, h))

  on_wait-Seen :
      (ctx : Context) (rest : World → Polled × World) (s : Option Error × World)
      → ((v : World) → (rest v).0 ≡ ended none → Seen (rest v).1)
      → (on_wait rt c ctx current rest s).0 ≡ ended none
      → Seen (on_wait rt c ctx current rest s).1
  unfolding on_wait
  on_wait-Seen ctx rest (some e, w) later h = absurd (ground (arith, h))
  on_wait-Seen ctx rest (none, w) later h =
      let x = get_json rt c rt.unmarshal_action ctx (action_path rt c current) w in
      on_progress-Seen (after_reply rt c current x.0.1) rest x.1
        (λ p.
          let (latest, e, s) = reply-Succeeded x.0.1 p in
          (latest, get_json-AnsweredLast rt c rt.unmarshal_action ctx _ w latest e, s))
        later h

  poll-Seen :
      (ctx : Context) (rounds : ℕ) (w : World)
      → (poll rt c ctx current rounds w).0 ≡ ended none
      → Seen (poll rt c ctx current rounds w).1
  unfolding poll
  poll-Seen ctx zero w h = absurd (ground (arith, h))
  poll-Seen ctx (suc rounds) w h =
      on_wait-Seen ctx (poll rt c ctx current rounds) (wait rt ctx c.poll_every w)
        (λ v k. poll-Seen ctx rounds v k) h

  polled_error-none : (r : Polled) → polled_error rt c r ≡ none → r ≡ ended none
  unfolding polled_error
  polled_error-none (ended result) h = ap ended h
  polled_error-none out_of_rounds h = absurd (ground (arith, h))

  on_start-Confirmed :
      (ctx : Context) (p : Progress) (w : World)
      → (p ≡ finished none → Succeeded current)
      → (on_start rt c ctx current p w).0 ≡ none
      → Confirmed w (on_start rt c ctx current p w).1
  unfolding on_start
  on_start-Confirmed ctx (finished none) w now h = inl (now refl, refl)
  on_start-Confirmed ctx (finished (some e)) w now h = absurd (ground (arith, h))
  on_start-Confirmed ctx running w now h =
      inr (
        poll-Seen (with_timeout ctx w.now c.poll_limit) (poll_rounds rt c) w
          (polled_error-none _ h))

  -- Without an error the action has succeeded: the mutation's answer says so, or the answer to the
  -- last request does.
  pub await_action-Confirmed :
      (ctx : Context) (w : World)
      → (await_action rt c ctx current w).0 ≡ none
      → Confirmed w (await_action rt c ctx current w).1
  unfolding await_action
  await_action-Confirmed ctx w h =
      on_start-Confirmed ctx (progress rt c current current) w (progress-Succeeded current) h
