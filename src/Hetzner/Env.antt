-- ===== src/Hetzner/Env.antt =====
-- What internal/hetzner/client.go is given from outside: the network, the clock, contexts, random
-- numbers and the codecs. The network and the random numbers may depend on all that was sent before.
use hetdns.Prelude.{ℕ, ◌+◌, Bool, false, Option, none, some, List, ◌∷◌, ltb, leb, if◌then◌else◌}
use hetdns.Prelude.Text.{Text, text}
use hetdns.Addr.{Netip}
use hetdns.Hetzner.Types.{ErrorBody, Action, Error, cancelled}

-- One HTTP request as it is sent.
pub record Request : Type 0 where
  pub method : Text
  pub url : Text
  pub authorization : Text
  pub accept : Text
  pub user_agent : Text
  pub content_type : Option Text
  pub body : Option Text

-- An HTTP response; a body of `none` fails while it is read.
pub record Response : Type 0 where
  pub status : ℕ
  pub retry_after : Text
  pub body : Option Text

-- The time, and every request that was sent, the last one first.
pub record World : Type 0 where
  pub now : ℕ
  pub sent : List Request

-- The JSON object of a mutating call.
pub data Body : Type 0 where
  create_body : Text → Text → ℕ → Text → Body
  set_body : Text → Body

pub record Runtime : Type 0 where
  pub netip : Netip
  -- whether `http.NewRequestWithContext` accepts a request
  pub accepts : Request → Bool
  -- `http.Client.Do`: the time it takes, and the response unless it fails
  pub send : World → Request → ℕ × Option Response
  -- `rand.IntN(n)` is the remainder by `n`
  pub random : World → ℕ
  -- whether `select` takes the context's case when both are ready at once
  pub prefers_done : World → Bool
  -- `encoding/json`
  pub marshal : Body → Option Text
  pub unmarshal_rrset : Text → Option (List Text)
  pub unmarshal_action : Text → Option Action
  pub unmarshal_error : Text → Option ErrorBody
  -- `http.ParseTime`
  pub parse_time : Text → Option ℕ
  -- `%q`
  pub quote : Text → Text

-- A context: when it ends, if it does, and the error that it then has.
pub record Context : Type 0 where
  pub done_at : Option ℕ
  pub reason : Text

abbrev deadline_context : ℕ → Context
deadline_context at = record { done_at = some at; reason = text "context deadline exceeded" }

abbrev pub earlier : Option ℕ → ℕ → Context → Context
earlier none deadline ctx = deadline_context deadline
earlier (some t) deadline ctx = if leb t deadline then ctx else deadline_context deadline

-- `context.WithTimeout`.
unfoldable pub with_timeout : Context → ℕ → ℕ → Context
with_timeout ctx now timeout = earlier ctx.done_at (now + timeout) ctx

abbrev is_done_at : Option ℕ → ℕ → Bool
is_done_at none now = false
is_done_at (some t) now = leb t now

-- `ctx.Err() != nil`.
unfoldable pub is_done : Context → ℕ → Bool
is_done ctx now = is_done_at ctx.done_at now

abbrev later_of : ℕ → ℕ → ℕ
later_of a b = if ltb a b then b else a

abbrev woken : Option ℕ → ℕ → Text → Bool → World → Option Error × World
woken none fire reason tie w = (none, record w { now = fire })
woken (some t) fire reason tie w =
    if ltb t fire
    then (some (cancelled reason), record w { now = later_of w.now t })
    else if ltb fire t
    then (none, record w { now = fire })
    else if tie
    then (some (cancelled reason), record w { now = fire })
    else (none, record w { now = fire })

-- `select` between `ctx.Done()` and a timer that is set to a delay: the context's error, or none if
-- the timer fires, and the time at which that happens.
unfoldable pub wait : Runtime → Context → ℕ → World → Option Error × World
wait rt ctx delay w = woken ctx.done_at (w.now + delay) ctx.reason (rt.prefers_done w) w

-- Sends a request.
unfoldable pub exchange : Runtime → Request → World → Option Response × World
exchange rt request w =
    let (took, response) = rt.send w request in
    (response, record { now = w.now + took; sent = request ∷ w.sent })
