-- ===== src/Hetzner/Poll/Failures.antt =====
-- The errors of `awaitAction` of internal/hetzner/client.go: none of them is the model's own.
use hetdns.Prelude.{
  ◌≢◌, ap, Bool, true, false, if◌then◌else◌, ℕ, zero, suc, Option, none, some, arith,
}
use hetdns.Prelude.Text.{Text}
use hetdns.Hetzner.Types.{
  Action, Error, plain, cancelled, waiting, api, multi_value, missing, unfinished, Outcome, ok, err,
}
use hetdns.Hetzner.Request.Failures.{wait-Real, get_json-Real}
use hetdns.Hetzner.Env.{Runtime, World, Context, wait}
use hetdns.Hetzner.Request.{Client, get_json}
use hetdns.Hetzner.Poll.{
  poll, Progress, running, finished, Polled, ended, on_wait, on_progress, action_path, progress,
  action_failure, after_reply, wrapped,
}

-- None of the errors that a loop ends with is the model's own.
module _ (rt : Runtime) (c : Client) (current : Action) where
  tests-Real :
      (success failed active : Bool) (m d : Text)
      → (if success
          then finished none
          else if failed
          then finished (some (plain m))
          else if active
          then running
          else finished (some (plain d)))
        ≢ finished (some unfinished)
  tests-Real true failed active m d h = ground (arith, h)
  tests-Real false true active m d h = ground (arith, h)
  tests-Real false false true m d h = ground (arith, h)
  tests-Real false false false m d h = ground (arith, h)

  pub progress-Real : (latest : Action) → progress rt c current latest ≢ finished (some unfinished)
  unfolding progress action_failure
  progress-Real latest h = tests-Real _ _ _ _ _ h

  reply-Real :
      (o : Outcome Action)
      → o ≢ err unfinished
      → after_reply rt c current o ≢ finished (some unfinished)
  unfolding after_reply
  reply-Real (err e) n h = n (ap err cc)
  reply-Real (ok latest) n h = progress-Real latest h

  wrapped-Real : (e : Error) → e ≢ unfinished → wrapped rt c current e ≢ unfinished
  unfolding wrapped
  wrapped-Real (cancelled reason) n h = ground (arith, h)
  wrapped-Real (plain m) n h = n h
  wrapped-Real (waiting id reason) n h = n h
  wrapped-Real (api e) n h = n h
  wrapped-Real (multi_value count) n h = n h
  wrapped-Real missing n h = n h
  wrapped-Real unfinished n h = n h

  on_progress-Real :
      (p : Progress) (rest : World → Polled × World) (w : World)
      → p ≢ finished (some unfinished)
      → ((v : World) → (rest v).0 ≢ ended (some unfinished))
      → (on_progress rt c p rest w).0 ≢ ended (some unfinished)
  unfolding on_progress
  on_progress-Real running rest w n later h = later w h
  on_progress-Real (finished result) rest w n later h = n (ap finished cc)

  on_wait-Real :
      (ctx : Context) (rest : World → Polled × World) (s : Option Error × World)
      → s.0 ≢ some unfinished
      → ((v : World) → (rest v).0 ≢ ended (some unfinished))
      → (on_wait rt c ctx current rest s).0 ≢ ended (some unfinished)
  unfolding on_wait
  on_wait-Real ctx rest (some e, w) n later h = wrapped-Real e (λ k. n (ap some k)) cc
  on_wait-Real ctx rest (none, w) n later h =
      let x = get_json rt c rt.unmarshal_action ctx (action_path rt c current) w in
      on_progress-Real (after_reply rt c current x.0.1) rest x.1
        (reply-Real x.0.1 (get_json-Real rt c rt.unmarshal_action ctx _ w)) later h

  pub poll-Real :
      (ctx : Context) (rounds : ℕ) (w : World)
      → (poll rt c ctx current rounds w).0 ≢ ended (some unfinished)
  unfolding poll
  poll-Real ctx zero w h = ground (arith, h)
  poll-Real ctx (suc rounds) w h =
      on_wait-Real ctx (poll rt c ctx current rounds) (wait rt ctx c.poll_every w)
        (wait-Real rt ctx c.poll_every w) (poll-Real ctx rounds) h
