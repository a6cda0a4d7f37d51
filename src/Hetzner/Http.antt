-- ===== src/Hetzner/Http.antt =====
-- `http.Client` as internal/hetzner/client.go uses it: a transport, and the redirects that it follows.
pub mod Once
use hetdns.Prelude.{ℕ, zero, suc, ◌+◌, Option, none, some, List, [], ◌∷◌}
use hetdns.Prelude.Text.{Text}
use hetdns.Hetzner.Env.{Runtime, Request, Response, World}

-- What `CheckRedirect` returns: nil, `ErrUseLastResponse`, or another error.
pub data Redirect : Type 0 where
  follow : Redirect
  use_last_response : Redirect
  refuse : Text → Redirect

-- `CheckRedirect`, with the next request and those made so far, the last one first.
pub record HttpClient : Type 0 where
  pub check_redirect : Request → List Request → Redirect

-- The transport: the time that a request takes and its response, unless it fails, and the request
-- that `net/http` makes of a response that redirects.
pub record Transport : Type 0 where
  pub round_trip : World → Request → ℕ × Option Response
  pub redirected : Request → Response → Option Request

-- What `Do` has done: the requests that it has made, the time, and the response.
pub record Exchange : Type 0 where
  pub made : List Request
  pub took : ℕ
  pub response : Option Response

-- A request before those of an exchange.
abbrev before : Request → ℕ → Exchange → Exchange
before r took e = record e { made = r ∷ e.made; took = took + e.took }

-- The response is taken as it is.
abbrev taken : Request → ℕ → Option Response → Exchange
taken r took response = record { made = r ∷ []; took = took; response = response }

on_policy : Redirect → Request → ℕ → Response → Exchange → Exchange
on_policy follow r took response followed = before r took followed
on_policy use_last_response r took response followed = taken r took (some response)
on_policy (refuse e) r took response followed = taken r took none

module _ (transport : Transport) (http : HttpClient) where
  on_redirect :
      Request → List Request → ℕ → Response → Option Request → (Request → Exchange) → Exchange
  unfolding on_policy
  on_redirect r via took response none rest = taken r took (some response)
  on_redirect r via took response (some next) rest =
      let followed = rest next in
      on_policy (http.check_redirect next (r ∷ via)) r took response followed

  on_response : Request → List Request → ℕ → Option Response → (Request → Exchange) → Exchange
  unfolding on_redirect
  on_response r via took none rest = taken r took none
  on_response r via took (some response) rest =
      on_redirect r via took response (transport.redirected r response) rest

  -- `Do`, with the requests that were made before; at most so many more are made.
  unfoldable pub do_request : ℕ → List Request → World → Request → Exchange
  unfolding on_response
  do_request zero via w r = record { made = []; took = 0; response = none }
  do_request (suc n) via w r =
      let (took, response) = transport.round_trip w r in
      on_response r via took response
        (do_request n (r ∷ via) (record { now = w.now + took; sent = r ∷ w.sent }))

-- The client's `Do` for what it is given from outside, with a bound on the redirects that it follows.
abbrev pub with_http : Runtime → Transport → HttpClient → ℕ → Runtime
with_http rt transport http n = record rt {
  send = λ w r. let e = do_request transport http (suc n) [] w r in (e.took, e.response);
}
