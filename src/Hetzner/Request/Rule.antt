-- ===== src/Hetzner/Request/Rule.antt =====
-- A rule for the loop of `requestJSON`: what holds of the world after `n` requests, through sending
-- and pausing, holds when it returns.
use hetdns.Prelude.{ℕ, zero, suc, ◌+◌, ◌≤◌, ◌≡◌, Bool, true, false, Option, none, some, arith}
use hetdns.Prelude.Text.{Text}
use hetdns.Hetzner.Types.{Error}
use hetdns.Hetzner.Env.{Runtime, Request, Response, World, Context, exchange}
use hetdns.Hetzner.Request.{
  Reply, Verdict, again, replied, retry_pause, resume, on_failure, on_verdict, on_response,
  on_request, attempts,
}

module _ (P : ℕ → World → Type 0) (mono : (m n : ℕ) (w : World) → m ≤ n → P m w → P n w) where
  module _ (rt : Runtime) {A : Type 0} (decode : Text → Option A) (m n : ℕ) (le : m ≤ n)
      (rest : World → Reply A × World) (step : (w : World) → P m w → P n (rest w).1) where
    resume_rule :
        (status : ℕ) (p : Option Error × World) → P m p.1 → P n (resume rt decode rest status p).1
    unfolding resume
    resume_rule status (none, w) h = step w h
    resume_rule status (some e, w) h = mono m n w le h

    failure_rule :
        (b : Bool) (p : Option Error × World) (w : World)
        → P m p.1
        → P m w
        → P n (on_failure rt decode b rest p w).1
    unfolding on_failure
    failure_rule true p w hp h = resume_rule 0 p hp
    failure_rule false p w hp h = mono m n w le h

    verdict_rule :
        (v : Verdict A) (status : ℕ) (p : Option Error × World) (w : World)
        → P m p.1
        → P m w
        → P n (on_verdict rt decode v rest status p w).1
    unfolding on_verdict
    verdict_rule again status p w hp h = resume_rule status p hp
    verdict_rule (replied o) status p w hp h = mono m n w le h

    response_rule :
        (ctx : Context) (b : Bool) (p : Option Error × World) (s : Option Response × World)
        → P m p.1
        → P m s.1
        → P n (on_response rt decode ctx b rest p s).1
    unfolding on_response
    response_rule ctx b p (none, w) hp h = failure_rule _ p w hp h
    response_rule ctx b p (some x, w) hp h = verdict_rule _ x.status p w hp h

  request_rule :
      {A : Type 0} (rt : Runtime) (decode : Text → Option A) (n : ℕ) (b : Bool)
      (s : Reply A × World) (w : World)
      → P n s.1
      → P n w
      → P n (on_request rt decode b s w).1
  unfolding on_request
  request_rule rt decode n true s w hs h = hs
  request_rule rt decode n false s w hs h = h

  module _ (rt : Runtime) {A : Type 0} (decode : Text → Option A) (ctx : Context) (r : Request)
      (retry : Bool) (sending : (n : ℕ) (w : World) → P n w → P (suc n) (exchange rt r w).1)
      (pausing : (attempt n : ℕ) (w : World) → P n w → P n (retry_pause rt ctx attempt w).1) where
    pub attempts_rule :
        (left attempt n end : ℕ) (w : World)
        → n + left ≡ end
        → P n w
        → P end (attempts rt decode ctx r retry left attempt w).1
    unfolding attempts
    attempts_rule zero attempt n end w e h = mono n end w (omega arith) h
    attempts_rule (suc left) attempt n end w e h =
        let h' = sending n w h in
        request_rule rt decode end (rt.accepts r) _ w
          (response_rule rt decode (suc n) end (omega arith)
            (attempts rt decode ctx r retry left (attempt + 1))
            (λ w' i. attempts_rule left (attempt + 1) (suc n) end w' (omega arith) i) ctx _ _ _
            (pausing attempt (suc n) _ h') h')
          (mono n end w (omega arith) h)
