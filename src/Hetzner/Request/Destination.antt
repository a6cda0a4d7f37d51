-- ===== src/Hetzner/Request/Destination.antt =====
-- Where `requestJSON` of internal/hetzner/client.go sends its token.
use mathlib.Core.Path.{subst}
use hetdns.Prelude.{
  ℕ, zero, suc, ◌≡◌, inl, inr, refl, sym, true, Option, none, some, List, [], ◌∷◌, ◌++◌, All, arith,
}
use hetdns.Prelude.Text.{Text, text}
use hetdns.Prelude.Trim.{has_prefix}
use hetdns.Hetzner.Env.{Runtime, Request, World, Context, Body, wait}
use hetdns.Hetzner.Request.{Client, get_json, post_json, request_of}
use hetdns.Hetzner.Request.Sent.{repeat, sent-wait, Within-get_json, SentOnce, sent-post_json}

-- A request goes to a path of an endpoint and has a token.
abbrev pub GoesTo : Text → Text → Request → Type 0
GoesTo endpoint token r =
    (has_prefix r.url (endpoint ++ text "/") ≡ true) × (r.authorization ≡ text "Bearer " ++ token)

All-repeat :
    (P : Request → Type 0) (n : ℕ) (r : Request) (log : List Request)
    → P r
    → All P log
    → All P (repeat n r log)
All-repeat P zero r log h hs = hs
All-repeat P (suc n) r log h hs = (h, All-repeat P n r log h hs)

prefix-append : (xs ys : Text) → has_prefix (xs ++ (b'/' ∷ ys)) (xs ++ text "/") ≡ true
unfolding has_prefix
prefix-append [] ys = refl
prefix-append (x ∷ xs) ys = ground (arith, prefix-append xs ys)

module _ (rt : Runtime) (c : Client) where
  -- Every request that was sent goes to the client's endpoint.
  abbrev pub Stays : World → Type 0
  Stays w = All (GoesTo c.endpoint c.token) w.sent

  own_request :
      (method rest : Text) (encoded : Option Text)
      → GoesTo c.endpoint c.token (request_of c method (b'/' ∷ rest) encoded)
  own_request method rest encoded = (prefix-append c.endpoint rest, refl)

  pub Stays-get_json :
      {A : Type 0} (decode : Text → Option A) (ctx : Context) (rest : Text) (w : World)
      → Stays w
      → Stays (get_json rt c decode ctx (b'/' ∷ rest) w).1
  Stays-get_json decode ctx rest w h =
      let (k, le, e) = Within-get_json rt c decode ctx (b'/' ∷ rest) w in
      subst (λ log. All (GoesTo c.endpoint c.token) log) (sym e)
        (All-repeat (GoesTo c.endpoint c.token) k (request_of c (text "GET") (b'/' ∷ rest) none)
          w.sent (own_request (text "GET") rest none) h)

  Stays-once :
      {A : Type 0} (decode : Text → Option A) (ctx : Context) (rest : Text) (w : World)
      (m : Option Text) (log : List Request)
      → Stays w
      → SentOnce rt c decode ctx (b'/' ∷ rest) w m log
      → All (GoesTo c.endpoint c.token) log
  Stays-once decode ctx rest w none log h e = absurd e
  Stays-once decode ctx rest w (some encoded) log h e =
      subst (λ l. All (GoesTo c.endpoint c.token) l) (sym e)
        (own_request (text "POST") rest (some encoded), h)

  pub Stays-post_json :
      {A : Type 0} (decode : Text → Option A) (ctx : Context) (rest : Text) (input : Body)
      (w : World)
      → Stays w
      → Stays (post_json rt c decode ctx (b'/' ∷ rest) input w).1
  Stays-post_json decode ctx rest input w h =
      elim (sent-post_json rt c decode ctx (b'/' ∷ rest) w input) [
        | inl e ↦ subst (λ l. All (GoesTo c.endpoint c.token) l) (sym e) h
        | inr e ↦ Stays-once decode ctx rest w (rt.marshal input) _ h e
      ]

  pub Stays-wait : (ctx : Context) (delay : ℕ) (w : World) → Stays w → Stays (wait rt ctx delay w).1
  Stays-wait ctx delay w h =
      subst (λ l. All (GoesTo c.endpoint c.token) l) (sym (sent-wait rt ctx delay w)) h
