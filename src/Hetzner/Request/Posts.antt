-- ===== src/Hetzner/Request/Posts.antt =====
-- The mutating requests among those that a call of `requestJSON` sends.
use hetdns.Prelude.{
  ℕ, zero, suc, ◌≡◌, refl, Bool, false, Option, none, List, [], ◌∷◌, if◌then◌else◌,
}
use hetdns.Prelude.Text.{Text, text, text_eq}
use hetdns.Hetzner.Env.{Runtime, Request, World, Context}
use hetdns.Hetzner.Request.{Client, get_json, request_of}
use hetdns.Hetzner.Request.Sent.{Within, repeat, Within-get_json}

unfoldable pub is_post : Request → Bool
is_post r = text_eq r.method (text "POST")

-- The POST requests of a log.
unfoldable pub posts : List Request → List Request
unfolding is_post
posts [] = []
posts (r ∷ log) = if is_post r then r ∷ posts log else posts log

posts-repeat :
    (n : ℕ) (r : Request) (log : List Request)
    → is_post r ≡ false
    → posts (repeat n r log) ≡ posts log
unfolding posts
posts-repeat zero r log h = refl
posts-repeat (suc n) r log h = rw h (posts-repeat n r log h)

posts-Within :
    (r : Request) (log : List Request) (n : ℕ) (w : World)
    → is_post r ≡ false
    → Within r log n w
    → posts w.sent ≡ posts log
posts-Within r log n w h (k, le, e) = rw e (posts-repeat k r log h)

module _ (rt : Runtime) (c : Client) where
  pub posts-get_json :
      {A : Type 0} (decode : Text → Option A) (ctx : Context) (path : Text) (w : World)
      → posts (get_json rt c decode ctx path w).1.sent ≡ posts w.sent
  unfolding is_post text_eq
  posts-get_json decode ctx path w =
      posts-Within (request_of c (text "GET") path none) w.sent 3
        (get_json rt c decode ctx path w).1 refl (Within-get_json rt c decode ctx path w)
