-- ===== src/Hetzner/Poll.antt =====
-- `awaitAction` and `actionFailure` of internal/hetzner/client.go.
pub mod Failures
pub mod Ends
pub mod Quiet
pub mod Rule
pub mod Confirmed
use hetdns.Prelude.{ℕ, zero, suc, ◌+◌, ◌/◌, Option, none, some, ◌++◌, if◌then◌else◌}
use hetdns.Prelude.Text.{Text, text, text_eq, decimal_ℤ}
use hetdns.Hetzner.Types.{
  Action, ErrorBody, Error, plain, waiting, unfinished, cancelled, Outcome, ok, err,
}
use hetdns.Hetzner.Safe.{safe_text}
use hetdns.Hetzner.Env.{Runtime, World, Context, with_timeout, wait}
use hetdns.Hetzner.Request.{Client, get_json}

abbrev failure_text : Action → Option ErrorBody → Text
failure_text value none = text "hetzner action " ++ (decimal_ℤ value.id ++ text " failed")
failure_text value (some e) =
    text "hetzner action "
    ++ (decimal_ℤ value.id
        ++ (text " failed (" ++ (safe_text e.code 64 ++ (text "): " ++ safe_text e.message 256))))

-- `actionFailure`.
unfoldable pub action_failure : Action → Error
action_failure value = plain (failure_text value value.failure)

-- The switch over an action's status: the call's result, or the action is still running.
pub data Progress : Type 0 where
  running : Progress
  finished : Option Error → Progress

pub data Polled : Type 0 where
  ended : Option Error → Polled
  out_of_rounds : Polled

module _ (rt : Runtime) (c : Client) where
  -- The number in the message of the last case is the id of the action that is waited for.
  unfoldable pub progress : Action → Action → Progress
  progress current latest =
      if text_eq latest.status (text "success")
      then finished none
      else if text_eq latest.status (text "error")
      then finished (some (action_failure latest))
      else if text_eq latest.status (text "running")
      then running
      else finished (
          some (
            plain (
              text "hetzner action "
              ++ (decimal_ℤ current.id
                  ++ (text " has unknown status " ++ rt.quote (safe_text latest.status 32))))))

  after_reply : Action → Outcome Action → Progress
  after_reply current (err e) = finished (some e)
  after_reply current (ok latest) = progress current latest

  unfoldable pub action_path : Action → Text
  action_path current = text "/actions/" ++ decimal_ℤ current.id

  -- What the rounds lead to; `out_of_rounds` is the model's alone.
  on_progress : Progress → (World → Polled × World) → World → Polled × World
  on_progress (finished result) rest w = (ended result, w)
  on_progress running rest w = rest w

  wrapped : Action → Error → Error
  wrapped current (cancelled reason) = waiting current.id reason
  wrapped current e = e

  on_wait : Context → Action → (World → Polled × World) → Option Error × World → Polled × World
  on_wait ctx current rest (some e, w) = (ended (some (wrapped current e)), w)
  on_wait ctx current rest (none, w) =
      let (reply, w') = get_json rt c rt.unmarshal_action ctx (action_path current) w in
      on_progress (after_reply current reply.1) rest w'

  -- The loop of `awaitAction`: each round waits for the timer, unless the context ends first, and
  -- asks for the action.
  unfoldable pub poll : Context → Action → ℕ → World → Polled × World
  unfolding on_wait on_progress wrapped after_reply
  poll ctx current zero w = (out_of_rounds, w)
  poll ctx current (suc rounds) w =
      on_wait ctx current (poll ctx current rounds) (wait rt ctx c.poll_every w)

  -- One round for each interval that fits into the limit, and one more.
  abbrev pub poll_rounds : ℕ
  poll_rounds = c.poll_limit / c.poll_every + 1

  polled_error : Polled → Option Error
  polled_error (ended result) = result
  polled_error out_of_rounds = some unfinished

  on_start : Context → Action → Progress → World → Option Error × World
  unfolding polled_error
  on_start ctx current (finished result) w = (result, w)
  on_start ctx current running w =
      let (polled, w') = poll (with_timeout ctx w.now c.poll_limit) current poll_rounds w in
      (polled_error polled, w')

  unfoldable pub await_action : Context → Action → World → Option Error × World
  unfolding on_start
  await_action ctx current w = on_start ctx current (progress current current) w
