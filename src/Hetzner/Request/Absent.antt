-- ===== src/Hetzner/Request/Absent.antt =====
-- When a read by `requestJSON` of internal/hetzner/client.go returns the status 404.
use hetdns.Prelude.{
  ℕ, zero, suc, ◌+◌, ◌≡◌, ◌≢◌, refl, Bool, true, false, ◌&&◌, Option, none, some, arith, take,
  length, ltb, leb, if◌then◌else◌,
}
use hetdns.Prelude.Text.{Text, text}
use hetdns.Hetzner.Types.{Error, Outcome}
use hetdns.Hetzner.Env.{Runtime, Request, Response, World, Context, exchange}
use hetdns.Hetzner.Request.{
  Client, Verdict, again, replied, read_body, judge, get_json, Reply, on_failure, on_verdict,
  on_response, on_request, attempts, resume, request_of, max_response_body,
}

-- A response that is tried again is a 5xx one.
retried_only :
    {A : Type 0} (big retried refused : Bool) (o p q : Outcome A)
    → (if big
        then replied o
        else if retried
        then again
        else if refused
        then replied p
        else replied q)
      ≡ again
    → retried ≡ true
retried_only true retried refused o p q h = absurd (ground (arith, h))
retried_only false true refused o p q h = refl
retried_only false false true o p q h = absurd (ground (arith, h))
retried_only false false false o p q h = absurd (ground (arith, h))

not_missing : (status : ℕ) (retry : Bool) → (leb 500 status && retry) ≡ true → status ≢ 404
not_missing status retry h e = ground (arith, h, e)

zero_status : ¬ (zero ≡ 404)
zero_status e = omega (arith, e)

-- The last request was answered by a 404.
abbrev pub Missed : Runtime → Request → World → Type 0
Missed rt request w' =
    (w : World) × (r : Response) × (exchange rt request w ≡ (some r, w')) × (r.status ≡ 404)

module _ (rt : Runtime) {A : Type 0} (decode : Text → Option A) where
  body_again :
      (retry : Bool) (now : ℕ) (r : Response) (b : Option Text)
      → read_body rt decode retry now r b ≡ again
      → r.status ≢ 404
  unfolding read_body
  body_again retry now r none h = absurd (ground (arith, h))
  body_again retry now r (some body) h = not_missing r.status retry (
      retried_only (ltb max_response_body (length (take (max_response_body + 1) body))) _ _ _ _ _ h)

  judge_again :
      (retry : Bool) (now : ℕ) (r : Response) → judge rt decode retry now r ≡ again → r.status ≢ 404
  unfolding judge
  judge_again retry now r h = body_again retry now r r.body h

  module _ (request : Request) where
    abbrev Misses : Reply A × World → Type 0
    Misses x = x.0.0 ≡ 404 → Missed rt request x.1

    resume-Misses :
        (rest : World → Reply A × World) (status : ℕ) (paused : Option Error × World)
        → ((w : World) → Misses (rest w))
        → status ≢ 404
        → (resume rt decode rest status paused).0.0 ≡ 404
        → Missed rt request (resume rt decode rest status paused).1
    unfolding resume
    resume-Misses rest status (none, w) h n k = h w k
    resume-Misses rest status (some e, w) h n k = absurd (n k)

    module _ (w : World) (rest : World → Reply A × World) (paused : Option Error × World)
        (later : (w : World) → Misses (rest w)) where
      on_verdict-Misses :
          (retry : Bool) (r : Response) (w1 : World) (v : Verdict A)
          → judge rt decode retry w1.now r ≡ v
          → exchange rt request w ≡ (some r, w1)
          → (on_verdict rt decode v rest r.status paused w1).0.0 ≡ 404
          → Missed rt request (on_verdict rt decode v rest r.status paused w1).1
      unfolding on_verdict
      on_verdict-Misses retry r w1 again j e h =
          resume-Misses rest r.status paused later (judge_again retry w1.now r j) h
      on_verdict-Misses retry r w1 (replied o) j e h = (w, r, e, h)

      on_failure-Misses :
          (retry : Bool) (w1 : World)
          → (on_failure rt decode retry rest paused w1).0.0 ≡ 404
          → Missed rt request (on_failure rt decode retry rest paused w1).1
      unfolding on_failure
      on_failure-Misses true w1 h = resume-Misses rest 0 paused later zero_status h
      on_failure-Misses false w1 h = absurd (zero_status h)

      on_response-Misses :
          (ctx : Context) (retry : Bool) (sent : Option Response × World)
          → exchange rt request w ≡ sent
          → (on_response rt decode ctx retry rest paused sent).0.0 ≡ 404
          → Missed rt request (on_response rt decode ctx retry rest paused sent).1
      unfolding on_response
      on_response-Misses ctx retry (none, w1) e h = on_failure-Misses _ w1 h
      on_response-Misses ctx retry (some r, w1) e h = on_verdict-Misses retry r w1 _ refl e h

    on_request-Misses :
        (accepted : Bool) (x : Reply A × World) (w : World)
        → Misses x
        → (on_request rt decode accepted x w).0.0 ≡ 404
        → Missed rt request (on_request rt decode accepted x w).1
    unfolding on_request
    on_request-Misses true x w h k = h k
    on_request-Misses false x w h k = absurd (zero_status k)

    attempts-Missed :
        (ctx : Context) (retry : Bool) (left attempt : ℕ) (w : World)
        → (attempts rt decode ctx request retry left attempt w).0.0 ≡ 404
        → Missed rt request (attempts rt decode ctx request retry left attempt w).1
    unfolding attempts
    attempts-Missed ctx retry zero attempt w h = absurd (zero_status h)
    attempts-Missed ctx retry (suc left) attempt w h =
        on_request-Misses (rt.accepts request) _ w
          (on_response-Misses w (attempts rt decode ctx request retry left (attempt + 1)) _
            (attempts-Missed ctx retry left (attempt + 1)) ctx _ (exchange rt request w) refl)
          h

-- A read returns the status 404 only if the last response has it.
pub get_json-Missed :
    (rt : Runtime) (c : Client) {A : Type 0} (decode : Text → Option A) (ctx : Context)
    (path : Text) (w : World)
    → (get_json rt c decode ctx path w).0.0 ≡ 404
    → Missed rt (request_of c (text "GET") path none) (get_json rt c decode ctx path w).1
unfolding get_json
get_json-Missed rt c decode ctx path w = attempts-Missed rt decode _ ctx true 3 0 w
