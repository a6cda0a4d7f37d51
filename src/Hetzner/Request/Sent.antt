-- ===== src/Hetzner/Request/Sent.antt =====
-- Which requests a call of `requestJSON` sends.
use hetdns.Prelude.{
  ℕ, zero, suc, ◌≤◌, ◌≡◌, ◌⊎◌, inl, inr, refl, ap, ◌∙◌, Bool, true, false, Option, none, some, List,
  ◌∷◌, arith,
}
use hetdns.Prelude.Text.{Text, text}
use hetdns.Hetzner.Env.{Runtime, Request, World, Context, Body, wait, exchange}
use hetdns.Hetzner.Request.Rule.{attempts_rule}
use hetdns.Hetzner.Request.{
  Client, retry_pause, attempts, get_json, post_json, post_encoded, request_of,
}

-- `n` more of one request at the front of a log.
abbrev pub repeat : ℕ → Request → List Request → List Request
repeat zero r log = log
repeat (suc n) r log = r ∷ repeat n r log

-- The log has grown by at most `n` requests, all the same.
abbrev pub Within : Request → List Request → ℕ → World → Type 0
Within r log n w = (k : ℕ) × (k ≤ n) × (w.sent ≡ repeat k r log)

pub sent-wait :
    (rt : Runtime) (ctx : Context) (delay : ℕ) (w : World) → (wait rt ctx delay w).1.sent ≡ w.sent
unfolding wait
sent-wait rt ctx delay w = ground arith

module _ (r : Request) (log : List Request) where
  Within-mono : (m n : ℕ) (w : World) → m ≤ n → Within r log m w → Within r log n w
  Within-mono m n w h (k, le, e) = (k, omega arith, e)

  Within-exchange :
      (rt : Runtime) (n : ℕ) (w : World)
      → Within r log n w
      → Within r log (suc n) (exchange rt r w).1
  unfolding exchange
  Within-exchange rt n w (k, le, e) = (suc k, omega arith, ap (◌∷◌ r) e)

  Within-pause :
      (rt : Runtime) (ctx : Context) (attempt n : ℕ) (w : World)
      → Within r log n w
      → Within r log n (retry_pause rt ctx attempt w).1
  unfolding retry_pause
  Within-pause rt ctx attempt n w (k, le, e) = (k, le, sent-wait rt ctx _ w ∙ e)

module _ (rt : Runtime) {A : Type 0} (decode : Text → Option A) (ctx : Context) (r : Request)
    (retry : Bool) (log : List Request) where
  Within-attempts :
      (left : ℕ) (w : World)
      → w.sent ≡ log
      → Within r log left (attempts rt decode ctx r retry left 0 w).1
  Within-attempts left w e =
      attempts_rule (Within r log) (Within-mono r log) rt decode ctx r retry
        (Within-exchange r log rt) (Within-pause r log rt ctx) left 0 0 left w (omega arith)
        (0, omega arith, e)

pub now-le-wait :
    (rt : Runtime) (ctx : Context) (delay : ℕ) (w : World) → w.now ≤ (wait rt ctx delay w).1.now
unfolding wait
now-le-wait rt ctx delay w = ground arith

now-le-exchange : (rt : Runtime) (r : Request) (w : World) → w.now ≤ (exchange rt r w).1.now
unfolding exchange
now-le-exchange rt r w = omega arith

now-le-pause :
    (rt : Runtime) (ctx : Context) (attempt : ℕ) (w : World)
    → w.now ≤ (retry_pause rt ctx attempt w).1.now
unfolding retry_pause
now-le-pause rt ctx attempt w = now-le-wait rt ctx _ w

module _ (rt : Runtime) (c : Client) {A : Type 0} (decode : Text → Option A) (ctx : Context)
    (path : Text) where
  -- A read sends its request at most three times, and nothing else.
  pub Within-get_json :
      (w : World)
      → Within (request_of c (text "GET") path none) w.sent 3 (get_json rt c decode ctx path w).1
  unfolding get_json
  Within-get_json w = Within-attempts rt decode ctx _ true w.sent 3 w refl

  -- Time does not run backwards over a read.
  pub now-le-get_json : (w : World) → w.now ≤ (get_json rt c decode ctx path w).1.now
  unfolding get_json
  now-le-get_json w =
      attempts_rule (λ n v. w.now ≤ v.now) (λ m n v h k. k) rt decode ctx _ true
        (λ n v h. omega (arith, now-le-exchange rt (request_of c (text "GET") path none) v))
        (λ a n v h. omega (arith, now-le-pause rt ctx a v)) 3 0 0 3 w refl (omega arith)

Within-once :
    (r : Request) (log : List Request) (w : World)
    → Within r log 1 w
    → (w.sent ≡ log) ⊎ (w.sent ≡ r ∷ log)
Within-once r log w (zero, le, e) = inl e
Within-once r log w (suc zero, le, e) = inr e
Within-once r log w (suc (suc k), le, e) = absurd (omega arith)

module _ (rt : Runtime) (c : Client) {A : Type 0} (decode : Text → Option A) (ctx : Context)
    (path : Text) (w : World) where
  -- A mutation has sent its request once, and nothing else.
  abbrev pub SentOnce : Option Text → List Request → Type 0
  SentOnce none log = ⊥
  SentOnce (some encoded) log = log ≡ request_of c (text "POST") path (some encoded) ∷ w.sent

  sent-post_encoded :
      (m : Option Text)
      → let log = (post_encoded rt c decode ctx path m w).1.sent in (log ≡ w.sent) ⊎ SentOnce m log
  unfolding post_encoded
  sent-post_encoded none = inl refl
  sent-post_encoded (some encoded) =
      Within-once _ w.sent (post_encoded rt c decode ctx path (some encoded) w).1
        (Within-attempts rt decode ctx _ false w.sent 1 w refl)

  pub sent-post_json :
      (input : Body)
      → let log = (post_json rt c decode ctx path input w).1.sent in
        (log ≡ w.sent) ⊎ SentOnce (rt.marshal input) log
  unfolding post_json
  sent-post_json input = sent-post_encoded (rt.marshal input)
