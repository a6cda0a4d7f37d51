-- ===== src/Hetzner/Request/Answer.antt =====
-- From which response `requestJSON` of internal/hetzner/client.go has the value that it returns.
use hetdns.Prelude.{
  ℕ, zero, suc, ◌+◌, ◌≡◌, refl, ap, ◌∙◌, Bool, true, false, Option, none, some, arith,
}
use hetdns.Prelude.Text.{Text, text}
use hetdns.Hetzner.Types.{Error, Outcome, ok}
use hetdns.Hetzner.Env.{Runtime, Request, Response, World, Context, Body, exchange}
use hetdns.Hetzner.Request.{
  Client, Verdict, again, replied, judge, get_json, Reply, on_failure, on_verdict, on_response,
  on_request, attempts, resume, post_encoded, post_json, request_of,
}
use hetdns.Hetzner.Request.Good.{Good, judge-Good}

module _ (rt : Runtime) {A : Type 0} (decode : Text → Option A) where
  -- One request was sent, and the response to it is a success with the value.
  abbrev pub Answered : Request → World → A → World → Type 0
  Answered request w a w' =
      (r : Response) × (exchange rt request w ≡ (some r, w')) × Good decode r a

  err-absurd : {B : Type 0} (a : A) (e : Error) → Outcome.err e ≡ ok a → B
  err-absurd a e h = absurd (ground (arith, h))

  -- A rule for a value that is returned: what holds of each value that a response brings, and of the
  -- values of the next round, holds of it.
  module _ (P : A → World → Type 0) where
    abbrev Brings : Reply A × World → Type 0
    Brings x = (a : A) → x.0.1 ≡ ok a → P a x.1

    resume-Brings :
        (rest : World → Reply A × World) (status : ℕ) (paused : Option Error × World)
        → ((w : World) → Brings (rest w))
        → (a : A) → (resume rt decode rest status paused).0.1 ≡ ok a
        → P a (resume rt decode rest status paused).1
    unfolding resume
    resume-Brings rest status (none, w) h a k = h w a k
    resume-Brings rest status (some e, w) h a k = err-absurd a e k

    module _ (request : Request) (w : World) (rest : World → Reply A × World)
        (paused : Option Error × World) (later : (w : World) → Brings (rest w))
        (now : (a : A) (w' : World) → Answered request w a w' → P a w') where
      on_verdict-Brings :
          (retry : Bool) (r : Response) (w1 : World) (v : Verdict A) (a : A)
          → judge rt decode retry w1.now r ≡ v
          → exchange rt request w ≡ (some r, w1)
          → (on_verdict rt decode v rest r.status paused w1).0.1 ≡ ok a
          → P a (on_verdict rt decode v rest r.status paused w1).1
      unfolding on_verdict
      on_verdict-Brings retry r w1 again a j e h = resume-Brings rest r.status paused later a h
      on_verdict-Brings retry r w1 (replied o) a j e h =
          now a w1 (r, e, judge-Good rt decode retry w1.now r a (j ∙ ap replied h))

      on_failure-Brings :
          (retry : Bool) (w1 : World) (a : A)
          → (on_failure rt decode retry rest paused w1).0.1 ≡ ok a
          → P a (on_failure rt decode retry rest paused w1).1
      unfolding on_failure
      on_failure-Brings true w1 a h = resume-Brings rest 0 paused later a h
      on_failure-Brings false w1 a h = err-absurd a _ h

      on_response-Brings :
          (ctx : Context) (retry : Bool) (sent : Option Response × World) (a : A)
          → exchange rt request w ≡ sent
          → (on_response rt decode ctx retry rest paused sent).0.1 ≡ ok a
          → P a (on_response rt decode ctx retry rest paused sent).1
      unfolding on_response
      on_response-Brings ctx retry (none, w1) a e h = on_failure-Brings _ w1 a h
      on_response-Brings ctx retry (some r, w1) a e h =
          on_verdict-Brings retry r w1 (judge rt decode retry w1.now r) a refl e h

    on_request-Brings :
        (accepted : Bool) (x : Reply A × World) (w : World) (a : A)
        → Brings x
        → (on_request rt decode accepted x w).0.1 ≡ ok a
        → P a (on_request rt decode accepted x w).1
    unfolding on_request
    on_request-Brings true x w a h k = h a k
    on_request-Brings false x w a h k = err-absurd a _ k

    round-Brings :
        (ctx : Context) (request : Request) (retry : Bool) (left attempt : ℕ) (w : World)
        → ((v : World) → Brings (attempts rt decode ctx request retry left (attempt + 1) v))
        → ((a : A) (w' : World) → Answered request w a w' → P a w')
        → Brings (attempts rt decode ctx request retry (suc left) attempt w)
    unfolding attempts
    round-Brings ctx request retry left attempt w later now a h =
        on_request-Brings (rt.accepts request) _ w a
          (λ b k.
            on_response-Brings request w (attempts rt decode ctx request retry left (attempt + 1)) _
              later now ctx _ (exchange rt request w) b refl k)
          h

    no_attempt-Brings :
        (ctx : Context) (request : Request) (retry : Bool) (attempt : ℕ) (w : World)
        → Brings (attempts rt decode ctx request retry 0 attempt w)
    unfolding attempts
    no_attempt-Brings ctx request retry attempt w a h = err-absurd a _ h

  -- The last request that was sent was answered with the value.
  abbrev pub AnsweredLast : Request → A → World → Type 0
  AnsweredLast request a w' = (w : World) × Answered request w a w'

  attempts-AnsweredLast :
      (ctx : Context) (request : Request) (retry : Bool) (left attempt : ℕ) (w : World) (a : A)
      → (attempts rt decode ctx request retry left attempt w).0.1 ≡ ok a
      → AnsweredLast request a (attempts rt decode ctx request retry left attempt w).1
  attempts-AnsweredLast ctx request retry zero attempt w =
      no_attempt-Brings (AnsweredLast request) ctx request retry attempt w
  attempts-AnsweredLast ctx request retry (suc left) attempt w =
      round-Brings (AnsweredLast request) ctx request retry left attempt w
        (attempts-AnsweredLast ctx request retry left (attempt + 1)) (λ a w' h. (w, h))

  attempt-Answered :
      (ctx : Context) (request : Request) (w : World) (a : A)
      → (attempts rt decode ctx request false 1 0 w).0.1 ≡ ok a
      → Answered request w a (attempts rt decode ctx request false 1 0 w).1
  attempt-Answered ctx request w =
      round-Brings (Answered request w) ctx request false 0 0 w
        (no_attempt-Brings (Answered request w) ctx request false 1) (λ a w' h. h)

module _ (rt : Runtime) (c : Client) {A : Type 0} (decode : Text → Option A) (ctx : Context)
    (path : Text) where
  -- The POST of a body to a path was answered with a value.
  abbrev pub PostAnswered : Body → World → A → World → Type 0
  PostAnswered body w a w' =
      (encoded : Text) × (rt.marshal body ≡ some encoded)
      × Answered rt decode (request_of c (text "POST") path (some encoded)) w a w'

  encoded-Answered :
      (body : Body) (w : World) (m : Option Text) (a : A)
      → rt.marshal body ≡ m
      → (post_encoded rt c decode ctx path m w).0.1 ≡ ok a
      → PostAnswered body w a (post_encoded rt c decode ctx path m w).1
  unfolding post_encoded
  encoded-Answered body w none a e h = err-absurd rt decode a _ h
  encoded-Answered body w (some encoded) a e h = (
    encoded,
    e,
    attempt-Answered rt decode ctx (request_of c (text "POST") path (some encoded)) w a h,
  )

  -- A mutation that returns a value was sent once, and answered with it.
  pub post_json-PostAnswered :
      (body : Body) (w : World) (a : A)
      → (post_json rt c decode ctx path body w).0.1 ≡ ok a
      → PostAnswered body w a (post_json rt c decode ctx path body w).1
  unfolding post_json
  post_json-PostAnswered body w a h = encoded-Answered body w (rt.marshal body) a refl h

  -- A read that returns a value returns it from the last response.
  pub get_json-AnsweredLast :
      (w : World) (a : A)
      → (get_json rt c decode ctx path w).0.1 ≡ ok a
      → AnsweredLast rt decode
          (request_of c (text "GET") path none)
          a
          (get_json rt c decode ctx path w).1
  unfolding get_json
  get_json-AnsweredLast w = attempts-AnsweredLast rt decode ctx _ true 3 0 w
