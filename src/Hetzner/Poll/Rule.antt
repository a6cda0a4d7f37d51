-- ===== src/Hetzner/Poll/Rule.antt =====
-- A rule for `awaitAction`: what waiting and asking for the action keep holds when it returns.
use hetdns.Prelude.{ℕ, zero, suc, Option, none, some}
use hetdns.Hetzner.Types.{Action, Error}
use hetdns.Hetzner.Env.{Runtime, World, Context, with_timeout, wait}
use hetdns.Hetzner.Request.{Client, get_json}
use hetdns.Hetzner.Poll.{
  poll, await_action, progress, Progress, running, finished, Polled, on_wait, on_progress, on_start,
  poll_rounds, action_path,
}

module _ (rt : Runtime) (c : Client) (current : Action) (P : World → Type 0)
    (waiting : (ctx : Context) (w : World) → P w → P (wait rt ctx c.poll_every w).1)
    (asking : (ctx : Context) (w : World)
      → P w
      → P (get_json rt c rt.unmarshal_action ctx (action_path rt c current) w).1) where
  on_progress_rule :
      (p : Progress) (rest : World → Polled × World) (w : World)
      → P w
      → (P w → P (rest w).1)
      → P (on_progress rt c p rest w).1
  unfolding on_progress
  on_progress_rule (finished result) rest w h step = h
  on_progress_rule running rest w h step = step h

  on_wait_rule :
      (ctx : Context) (rest : World → Polled × World) (s : Option Error × World)
      → P s.1
      → ((w : World) → P w → P (rest w).1)
      → P (on_wait rt c ctx current rest s).1
  unfolding on_wait
  on_wait_rule ctx rest (some e, w) h step = h
  on_wait_rule ctx rest (none, w) h step = on_progress_rule _ rest _ (asking ctx w h) (step _)

  poll_rule : (ctx : Context) (rounds : ℕ) (w : World) → P w → P (poll rt c ctx current rounds w).1
  unfolding poll
  poll_rule ctx zero w h = h
  poll_rule ctx (suc rounds) w h =
      on_wait_rule ctx (poll rt c ctx current rounds) (wait rt ctx c.poll_every w) (waiting ctx w h)
        (poll_rule ctx rounds)

  on_start_rule :
      (ctx : Context) (p : Progress) (w : World) → P w → P (on_start rt c ctx current p w).1
  unfolding on_start
  on_start_rule ctx (finished result) w h = h
  on_start_rule ctx running w h =
      poll_rule (with_timeout ctx w.now c.poll_limit) (poll_rounds rt c) w h

  pub await_action_rule : (ctx : Context) (w : World) → P w → P (await_action rt c ctx current w).1
  unfolding await_action
  await_action_rule ctx w h = on_start_rule ctx (progress rt c current current) w h
