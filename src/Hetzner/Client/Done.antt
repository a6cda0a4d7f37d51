-- ===== src/Hetzner/Client/Done.antt =====
-- What a mutation of internal/hetzner/client.go has done at the provider when it ends without an
-- error.
use hetdns.Prelude.{
  ◌≡◌, ◌⊎◌, inl, inr, refl, sym, List, ap, ◌∙◌, Bool, true, false, Option, none, some, arith,
  if◌then◌else◌,
}
use hetdns.Prelude.Int.{ℤ, pos, leb_ℤ}
use hetdns.Prelude.Text.{Text}
use hetdns.Hetzner.Types.{Action, Error, Outcome, ok, err, State}
use hetdns.Hetzner.Env.{Runtime, World, Context, Body}
use hetdns.Hetzner.Request.{Client, post_json}
use hetdns.Hetzner.Request.Answer.{PostAnswered, post_json-PostAnswered}
use hetdns.Hetzner.Poll.{await_action}
use hetdns.Hetzner.Poll.Confirmed.{Confirmed, await_action-Confirmed}
use hetdns.Hetzner.Client.{Reconciled, mutate, checked_action, settle, finish_with, empty_result}

ok_inj : {a b : Action} → Outcome.ok a ≡ ok b → a ≡ b
ok_inj h = cc

module _ (rt : Runtime) (c : Client) (ctx : Context) where
  -- The POST of a body to a path was answered with an action of a positive id.
  abbrev Started : Text → Body → World → Action → World → Type 0
  Started path body w action w' =
      (leb_ℤ action.id (pos 0) ≡ false)
      × PostAnswered rt c rt.unmarshal_action ctx path body w action w'

  -- An action was started by the POST of a body to a path, and then confirmed to have succeeded.
  abbrev pub Done : Text → Body → World → World → ℤ → Type 0
  Done path body w w' id =
      (action : Action) × (mid : World) × (id ≡ action.id)
      × Started path body w action mid
      × Confirmed rt c action mid w'

  if_valid :
      (invalid : Bool) (e : Error) (action result : Action)
      → (if invalid then err e else ok action) ≡ ok result
      → (invalid ≡ false) × (Outcome.ok action ≡ ok result)
  if_valid true e action result h = absurd (ground (arith, h))
  if_valid false e action result h = (refl, h)

  checked_action-ok :
      (o : Outcome Action) (action : Action)
      → checked_action rt c ctx o ≡ ok action
      → (leb_ℤ action.id (pos 0) ≡ false) × (o ≡ ok action)
  unfolding checked_action
  checked_action-ok (err e) action h = absurd (ground (arith, h))
  checked_action-ok (ok started) action h =
      let (valid, e) = if_valid (leb_ℤ started.id (pos 0)) _ started action h in
      (ap (λ a. leb_ℤ a.id (pos 0)) (ok_inj (sym e)) ∙ valid, e)

  mutate-Started :
      (path : Text) (body : Body) (w : World) (action : Action)
      → (mutate rt c ctx path body w).0 ≡ ok action
      → Started path body w action (mutate rt c ctx path body w).1
  unfolding mutate
  mutate-Started path body w action h =
      let (valid, e) =
        checked_action-ok (post_json rt c rt.unmarshal_action ctx path body w).0.1 action h in
      (valid, post_json-PostAnswered rt c rt.unmarshal_action ctx path body w action e)

  -- A result that tells the values that were read, and a state only of what has been done.
  abbrev pub Settles : State → List Text → Text → Body → World → Reconciled × World → Type 0
  Settles state values path body w (r, w') =
      (r.result.observed ≡ values)
      × (((e : Error) × (r.failure ≡ some e))
          ⊎ (r.failure ≡ none) × (r.result.state ≡ state) × Done path body w w' r.result.action_id)

  finish_with-Settles :
      (state : State) (values : List Text) (path : Text) (body : Body) (w mid w' : World)
      (action : Action) (o : Option Error)
      → Started path body w action mid
      → (o ≡ none → Confirmed rt c action mid w')
      → Settles state values path body w (finish_with rt c ctx state values action o, w')
  unfolding finish_with
  finish_with-Settles state values path body w mid w' action none s h =
      (refl, inr (refl, refl, (action, mid, refl, s, h refl)))
  finish_with-Settles state values path body w mid w' action (some e) s h = (refl, inl (e, refl))

  settle-Settles :
      (state : State) (values : List Text) (path : Text) (body : Body) (w : World)
      (o : Outcome Action × World)
      → ((action : Action) → o.0 ≡ ok action → Started path body w action o.1)
      → Settles state values path body w (settle rt c ctx state values o)
  unfolding settle empty_result
  settle-Settles state values path body w (err e, mid) h = (refl, inl (e, refl))
  settle-Settles state values path body w (ok action, mid) h =
      finish_with-Settles state values path body w mid (await_action rt c ctx action mid).1 action _
        (h action refl) (await_action-Confirmed rt c action ctx mid)

  -- A mutation and the wait for its action end by an error, or the action was started and confirmed.
  pub mutate-Settles :
      (state : State) (values : List Text) (path : Text) (body : Body) (w : World)
      → Settles state values path body w
          (settle rt c ctx state values (mutate rt c ctx path body w))
  mutate-Settles state values path body w =
      settle-Settles state values path body w (mutate rt c ctx path body w)
        (mutate-Started path body w)
