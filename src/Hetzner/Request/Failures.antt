-- ===== src/Hetzner/Request/Failures.antt =====
-- The errors that `requestJSON` of internal/hetzner/client.go returns: none of them is the model's own.
use hetdns.Prelude.{
  ℕ, zero, suc, ◌+◌, ◌≢◌, ap, Bool, true, false, Option, none, some, arith, take, length, ltb,
  if◌then◌else◌, ◌==◌,
}
use hetdns.Prelude.Text.{Text}
use hetdns.Hetzner.Types.{ApiError, Error, plain, api, unfinished, Outcome, err}
use hetdns.Hetzner.Env.{Runtime, Request, Response, World, Context, wait, exchange}
use hetdns.Hetzner.Request.{
  Client, Verdict, again, replied, decoded, read_body, judge, get_json, Reply, on_failure,
  on_verdict, on_response, on_request, attempts, resume, retry_pause, decode_api_error,
  not_found_error, max_response_body,
}

pub wait-Real :
    (rt : Runtime) (ctx : Context) (delay : ℕ) (w : World)
    → (wait rt ctx delay w).0 ≢ some unfinished
unfolding wait
wait-Real rt ctx delay w h = ground (arith, h)

pause-Real :
    (rt : Runtime) (ctx : Context) (attempt : ℕ) (w : World)
    → (retry_pause rt ctx attempt w).0 ≢ some unfinished
unfolding retry_pause
pause-Real rt ctx attempt w h = wait-Real rt ctx _ w h

-- A verdict without the model's own error.
abbrev Sound : {A : Type 0} → Verdict A → Type 0
Sound v = v ≢ replied (err unfinished)

tests_kept :
    {A : Type 0} (big retried refused absent : Bool) (m : Text) (a b : ApiError) (o : Outcome A)
    → Sound (replied o)
    → Sound (
        if big
        then replied (err (plain m))
        else if retried
        then again
        else if refused
        then replied (err (if absent then api a else api b))
        else replied o)
tests_kept true retried refused absent m a b o k h = ground (arith, h)
tests_kept false true refused absent m a b o k h = ground (arith, h)
tests_kept false false true true m a b o k h = ground (arith, h)
tests_kept false false true false m a b o k h = ground (arith, h)
tests_kept false false false absent m a b o k h = k h

module _ (rt : Runtime) {A : Type 0} (decode : Text → Option A) where
  decoded-Sound : (o : Option A) → Sound (replied (decoded rt decode o))
  unfolding decoded
  decoded-Sound none h = ground (arith, h)
  decoded-Sound (some a) h = ground (arith, h)

  body-Sound :
      (retry : Bool) (now : ℕ) (r : Response) (b : Option Text)
      → Sound (read_body rt decode retry now r b)
  unfolding read_body decode_api_error not_found_error
  body-Sound retry now r none h = ground (arith, h)
  body-Sound retry now r (some body) h =
      tests_kept (ltb max_response_body (length (take (max_response_body + 1) body))) _ _
        (r.status == 404) _ _ _ _ (decoded-Sound (decode (take (max_response_body + 1) body))) h

  judge-Sound : (retry : Bool) (now : ℕ) (r : Response) → Sound (judge rt decode retry now r)
  unfolding judge
  judge-Sound retry now r h = body-Sound retry now r r.body h

  abbrev Real : Reply A × World → Type 0
  Real x = x.0.1 ≢ err unfinished

  resume-Real :
      (rest : World → Reply A × World) (status : ℕ) (paused : Option Error × World)
      → ((w : World) → Real (rest w))
      → paused.0 ≢ some unfinished
      → Real (resume rt decode rest status paused)
  unfolding resume
  resume-Real rest status (none, w) h n k = h w k
  resume-Real rest status (some e, w) h n k = n (ap some cc)

  module _ (rest : World → Reply A × World) (paused : Option Error × World)
      (later : (w : World) → Real (rest w)) (fine : paused.0 ≢ some unfinished) where
    on_verdict-Real :
        (v : Verdict A) (status : ℕ) (w : World)
        → Sound v
        → Real (on_verdict rt decode v rest status paused w)
    unfolding on_verdict
    on_verdict-Real again status w s h = resume-Real rest status paused later fine h
    on_verdict-Real (replied o) status w s h = s (ap replied h)

    on_failure-Real : (retry : Bool) (w : World) → Real (on_failure rt decode retry rest paused w)
    unfolding on_failure
    on_failure-Real true w h = resume-Real rest 0 paused later fine h
    on_failure-Real false w h = ground (arith, h)

    on_response-Real :
        (ctx : Context) (retry : Bool) (sent : Option Response × World)
        → Real (on_response rt decode ctx retry rest paused sent)
    unfolding on_response
    on_response-Real ctx retry (none, w) h = on_failure-Real _ w h
    on_response-Real ctx retry (some r, w) h =
        on_verdict-Real (judge rt decode retry w.now r) r.status w (judge-Sound retry w.now r) h

  on_request-Real :
      (accepted : Bool) (x : Reply A × World) (w : World)
      → Real x
      → Real (on_request rt decode accepted x w)
  unfolding on_request
  on_request-Real true x w h k = h k
  on_request-Real false x w h k = ground (arith, k)

  attempts-Real :
      (ctx : Context) (request : Request) (retry : Bool) (left attempt : ℕ) (w : World)
      → Real (attempts rt decode ctx request retry left attempt w)
  unfolding attempts
  attempts-Real ctx request retry zero attempt w h = ground (arith, h)
  attempts-Real ctx request retry (suc left) attempt w h =
      on_request-Real (rt.accepts request) _ w
        (on_response-Real (attempts rt decode ctx request retry left (attempt + 1)) _
          (attempts-Real ctx request retry left (attempt + 1)) (pause-Real rt ctx attempt _) ctx _
          (exchange rt request w))
        h

pub get_json-Real :
    (rt : Runtime) (c : Client) {A : Type 0} (decode : Text → Option A) (ctx : Context)
    (path : Text) (w : World)
    → (get_json rt c decode ctx path w).0.1 ≢ err unfinished
unfolding get_json
get_json-Real rt c decode ctx path w = attempts-Real rt decode ctx _ true 3 0 w
