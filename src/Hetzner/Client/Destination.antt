-- ===== src/Hetzner/Client/Destination.antt =====
-- Where internal/hetzner/client.go sends its token.
use mathlib.Core.Path.{subst}
use hetdns.Prelude.{
  refl, sym, ℕ, suc, ◌∷◌, Bool, true, false, Option, none, some, List, [], All, length, ltb, ◌&&◌,
  if◌then◌else◌,
}
use hetdns.Prelude.Text.{Text, text}
use hetdns.Addr.{Addr}
use hetdns.Hetzner.Types.{Record, Action, State, updated, created, Outcome, ok, err}
use hetdns.Hetzner.Path.{rrset_path, create_path}
use hetdns.Hetzner.Env.{Runtime, Request, World, Context}
use hetdns.Hetzner.Http.{Transport, HttpClient, do_request, with_http}
use hetdns.Hetzner.Http.Once.{made_once}
use hetdns.Hetzner.Request.{Client}
use hetdns.Hetzner.Request.Destination.{GoesTo, Stays, Stays-get_json, Stays-post_json, Stays-wait}
use hetdns.Hetzner.Poll.{await_action, action_path}
use hetdns.Hetzner.Poll.Rule.{await_action_rule}
use hetdns.Hetzner.Client.{
  new_client, production, Reconciled, get_rrset, mutate, create_rrset, set_records, settle,
  when_found, when_absent, after_get, reconcile, is_current,
}

module _ (rt : Runtime) (c : Client) (ctx : Context) where
  abbrev Kept : World → Type 0
  Kept w = Stays rt c w

  Stays-await_action :
      (action : Action) (w : World) → Kept w → Kept (await_action rt c ctx action w).1
  unfolding action_path
  Stays-await_action action w h =
      await_action_rule rt c action Kept (λ x v k. Stays-wait rt c x c.poll_every v k)
        (λ x v k. Stays-get_json rt c rt.unmarshal_action x _ v k) ctx w h

  Stays-get_rrset : (target : Record) (w : World) → Kept w → Kept (get_rrset rt c ctx target w).1
  unfolding get_rrset rrset_path
  Stays-get_rrset target w h = Stays-get_json rt c rt.unmarshal_rrset ctx _ w h

  Stays-create_rrset :
      (target : Record) (desired : Addr) (w : World)
      → Kept w
      → Kept (create_rrset rt c ctx target desired w).1
  unfolding create_rrset mutate create_path
  Stays-create_rrset target desired w h = Stays-post_json rt c rt.unmarshal_action ctx _ _ w h

  Stays-set_records :
      (target : Record) (desired : Addr) (w : World)
      → Kept w
      → Kept (set_records rt c ctx target desired w).1
  unfolding set_records mutate rrset_path
  Stays-set_records target desired w h = Stays-post_json rt c rt.unmarshal_action ctx _ _ w h

  Stays-settle :
      (state : State) (values : List Text) (s : Outcome Action × World)
      → Kept s.1
      → Kept (settle rt c ctx state values s).1
  unfolding settle
  Stays-settle state values (err e, w) h = h
  Stays-settle state values (ok action, w) h = Stays-await_action action w h

  either : (b : Bool) (x y : Reconciled × World) → Kept x.1 → Kept y.1 → Kept (if b then x else y).1
  either true x y h k = h
  either false x y h k = k

  Stays-when_absent :
      (target : Record) (desired : Addr) (w : World)
      → Kept w
      → Kept (when_absent rt c ctx target desired w).1
  unfolding when_absent
  Stays-when_absent target desired w h =
      either target.create _ _ (Stays-settle created [] _ (Stays-create_rrset target desired w h)) h

  Stays-when_found :
      (target : Record) (desired : Addr) (values : List Text) (w : World)
      → Kept w
      → Kept (when_found rt c ctx target desired values w).1
  unfolding when_found
  Stays-when_found target desired values w h = either (is_current rt c ctx desired values) _ _ h (
      either (ltb 1 (length values) && (if target.replace_all then false else true)) _ _ h
        (Stays-settle updated values _ (Stays-set_records target desired w h)))

  Stays-after_get :
      (target : Record) (desired : Addr) (s : Outcome (Option (List Text)) × World)
      → Kept s.1
      → Kept (after_get rt c ctx target desired s).1
  unfolding after_get
  Stays-after_get target desired (err e, w) h = h
  Stays-after_get target desired (ok none, w) h = Stays-when_absent target desired w h
  Stays-after_get target desired (ok (some values), w) h =
      Stays-when_found target desired values w h

  Stays-reconcile :
      (target : Record) (desired : Addr) (w : World)
      → Kept w
      → Kept (reconcile rt c ctx target desired w).1
  unfolding reconcile
  Stays-reconcile target desired w h =
      Stays-after_get target desired (get_rrset rt c ctx target w) (Stays-get_rrset target w h)

-- Whatever `Do` makes of a request has a property, in whatever state of the world.
abbrev pub Makes : Transport → HttpClient → ℕ → (Request → Type 0) → Request → Type 0
Makes transport http n P r = (v : World) → All P (do_request transport http (suc n) [] v r).made

made_of :
    (transport : Transport) (token user_agent : Text) (n : ℕ) (P : Request → Type 0)
    (rs : List Request)
    → All P rs
    → All (Makes transport (production token user_agent).http n P) rs
unfolding production new_client
made_of transport token user_agent n P [] h = tt
made_of transport token user_agent n P (r ∷ rs) (h, hs) = (
  λ v.
      subst (All P)
        (sym (made_once transport (production token user_agent).http (λ next via. refl) n v r))
        (h, tt),
  made_of transport token user_agent n P rs hs,
)

-- Every request that the client of the service makes, whatever it is answered and wherever the
-- answers redirect to, goes to a path below https://api.hetzner.cloud/v1/ and has the token of the
-- service and no other.
pub production-GoesTo :
    (rt : Runtime) (transport : Transport) (n : ℕ) (ctx : Context) (token user_agent : Text)
    (target : Record) (desired : Addr) (w : World)
    → All (GoesTo (text "https://api.hetzner.cloud/v1") token) w.sent
    → let c = production token user_agent in
      All
        (Makes transport c.http n (GoesTo (text "https://api.hetzner.cloud/v1") token))
        (reconcile (with_http rt transport c.http n) c ctx target desired w).1.sent
unfolding production new_client
production-GoesTo rt transport n ctx token user_agent target desired w h =
    let c = production token user_agent in
    made_of transport token user_agent n (GoesTo (text "https://api.hetzner.cloud/v1") token) _
      (Stays-reconcile (with_http rt transport c.http n) c ctx target desired w h)
