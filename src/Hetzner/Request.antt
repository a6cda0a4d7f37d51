-- ===== src/Hetzner/Request.antt =====
-- `requestJSON`, `retryPause` and `decodeAPIError` of internal/hetzner/client.go.
mod Rule
pub mod Sent
pub mod Destination
pub mod Posts
mod Good
pub mod Answer
pub mod Absent
pub mod Failures
use hetdns.Prelude.{
  ℕ, zero, suc, ◌+◌, ◌*◌, ◌^◌, ◌%◌, Bool, true, false, ◌&&◌, ◌||◌, Option, none, some, [], ◌++◌,
  take, length, ltb, leb, ◌==◌, if◌then◌else◌,
}
use hetdns.Prelude.Int.{pos, millisecond}
use hetdns.Prelude.Text.{Text, text}
use hetdns.Hetzner.Types.{ApiError, ErrorBody, Error, plain, api, Outcome, ok, err}
use hetdns.Hetzner.Safe.{safe_text}
use hetdns.Hetzner.RetryAfter.{parse_retry_after}
use hetdns.Hetzner.Http.{HttpClient}
use hetdns.Hetzner.Env.{Runtime, Request, Response, World, Context, Body, is_done, wait, exchange}

-- `Client`. `Do` of its HTTP client is the runtime's `send`, see `with_http`.
pub record Client : Type 0 where
  pub endpoint : Text
  pub token : Text
  pub user_agent : Text
  pub http : HttpClient
  pub poll_every : ℕ
  pub poll_limit : ℕ

abbrev pub max_response_body : ℕ
max_response_body = 64 * 2 ^ 10

-- A status (0 where there is none) and an outcome.
abbrev pub Reply : Type 0 → Type 0
Reply A = ℕ × Outcome A

unfoldable pub retry_pause : Runtime → Context → ℕ → World → Option Error × World
retry_pause rt ctx attempt w = wait rt ctx ((100 * 2 ^ attempt + rt.random w % 100) * millisecond) w

abbrev with_body : Option ErrorBody → ApiError → ApiError
with_body none e = e
with_body (some parsed) e = record e {
  code = safe_text parsed.code 64;
  message = safe_text parsed.message 256;
}

unfoldable pub decode_api_error : Runtime → ℕ → ℕ → Text → Text → Error
decode_api_error rt now status retry_after body = api (
    with_body (rt.unmarshal_error body) (record {
      status = status;
      code = [];
      message = [];
      retry_after = parse_retry_after rt.parse_time now retry_after;
    }))

-- What a response leads to: another attempt, or a reply.
pub data Verdict (A : Type 0) : Type 0 where
  again : Verdict A
  replied : Outcome A → Verdict A

not_found_error : ℕ → Error
not_found_error status =
    api (record { status = status; code = []; message = []; retry_after = pos 0 })

module _ (rt : Runtime) {A : Type 0} (decode : Text → Option A) where
  decoded : Option A → Outcome A
  decoded none = err (plain (text "decode Hetzner API response"))
  decoded (some a) = ok a

  read_body : Bool → ℕ → Response → Option Text → Verdict A
  unfolding decoded not_found_error
  read_body may_retry now r none = replied (err (plain (text "read Hetzner API response")))
  read_body may_retry now r (some body) =
      let limited = take (max_response_body + 1) body in
      if ltb max_response_body (length limited)
      then replied (err (plain (text "hetzner API response is too large")))
      else if leb 500 r.status && may_retry
      then again
      else if ltb r.status 200 || leb 300 r.status
      then replied (
          err (
            if r.status == 404
            then not_found_error r.status
            else decode_api_error rt now r.status r.retry_after limited))
      else replied (decoded (decode limited))

  -- The part of the loop's body behind `Do`; `may_retry` is `retry && attempt+1 < attempts`.
  unfoldable pub judge : Bool → ℕ → Response → Verdict A
  unfolding read_body
  judge may_retry now r = read_body may_retry now r r.body

  -- What follows a pause: `rest` is the next round of the loop.
  resume : (World → Reply A × World) → ℕ → Option Error × World → Reply A × World
  resume rest status (none, w) = rest w
  resume rest status (some e, w) = ((status, err e), w)

  -- `Do` has failed; the test is whether to try again.
  on_failure : Bool → (World → Reply A × World) → Option Error × World → World → Reply A × World
  on_failure true rest paused w = resume rest 0 paused
  on_failure false rest paused w = ((0, err (plain (text "hetzner API request failed"))), w)

  on_verdict :
      Verdict A → (World → Reply A × World) → ℕ → Option Error × World → World → Reply A × World
  on_verdict again rest status paused w = resume rest status paused
  on_verdict (replied outcome) rest status paused w = ((status, outcome), w)

  on_response :
      Context
      → Bool
      → (World → Reply A × World)
      → Option Error × World
      → Option Response × World
      → Reply A × World
  on_response ctx may_retry rest paused (none, w) =
      on_failure (may_retry && (if is_done ctx w.now then false else true)) rest paused w
  on_response ctx may_retry rest paused (some r, w) =
      on_verdict (judge may_retry w.now r) rest r.status paused w

  on_request : Bool → Reply A × World → World → Reply A × World
  on_request true sent w = sent
  on_request false sent w = ((0, err (plain (text "create Hetzner request"))), w)

  -- The loop of `requestJSON`: `left` attempts are to come, this one among them, so that
  -- `attempt+1 < attempts` is that more than this one are left. The pause is used only in the
  -- branches that retry.
  unfoldable pub attempts : Context → Request → Bool → ℕ → ℕ → World → Reply A × World
  unfolding on_request on_response on_verdict on_failure resume
  attempts ctx request retry zero attempt w =
      ((0, err (plain (text "hetzner API request failed"))), w)
  attempts ctx request retry (suc left) attempt w =
      let sent = exchange rt request w in
      on_request (rt.accepts request)
        (on_response ctx (retry && ltb 0 left) (attempts ctx request retry left (attempt + 1))
          (retry_pause rt ctx attempt sent.1) sent)
        w

-- The request that `requestJSON` builds; only one with an input has a content type.
abbrev pub request_of : Client → Text → Text → Option Text → Request
request_of c method path encoded = record {
  method = method;
  url = c.endpoint ++ path;
  authorization = text "Bearer " ++ c.token;
  accept = text "application/json";
  user_agent = c.user_agent;
  content_type = elim encoded [ none ↦ none | some _ ↦ some (text "application/json") ];
  body = encoded;
}

module _ (rt : Runtime) (c : Client) {A : Type 0} (decode : Text → Option A) where
  -- `requestJSON` with no input.
  unfoldable pub get_json : Context → Text → World → Reply A × World
  get_json ctx path w = attempts rt decode ctx (request_of c (text "GET") path none) true 3 0 w

  post_encoded : Context → Text → Option Text → World → Reply A × World
  post_encoded ctx path none w = ((0, err (plain (text "encode Hetzner request"))), w)
  post_encoded ctx path (some encoded) w =
      attempts rt decode ctx (request_of c (text "POST") path (some encoded)) false 1 0 w

  -- `requestJSON` with an input, without retries.
  unfoldable pub post_json : Context → Text → Body → World → Reply A × World
  unfolding post_encoded
  post_json ctx path input w = post_encoded ctx path (rt.marshal input) w
