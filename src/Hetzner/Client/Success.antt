-- ===== src/Hetzner/Client/Success.antt =====
-- What `Reconcile` of internal/hetzner/client.go reports, against what it has read.
use hetdns.Prelude.{
  ◌≡◌, refl, ◌⊎◌, inl, inr, Bool, true, false, ◌&&◌, Option, none, some, List, [], ◌∷◌, ◌++◌, arith,
  length, ltb, Bool-cases, if◌then◌else◌,
}
use hetdns.Prelude.Text.{Text, text}
use hetdns.Addr.{Addr, unmap, addr_eq_iff}
use hetdns.Hetzner.Types.{
  Record, Result, State, unchanged, updated, created, Error, Outcome, ok, err, missing,
}
use hetdns.Hetzner.Path.{rrset_path, create_path}
use hetdns.Hetzner.Env.{Runtime, World, Context, Body, create_body, set_body}
use hetdns.Hetzner.Request.{Client}
use hetdns.Hetzner.Client.{
  Reconciled, get_rrset, create_rrset, set_records, mutate, settle, empty_result, matches,
  is_current, when_found, when_absent, after_get, reconcile,
}
use hetdns.Hetzner.Client.Mutations.{IsCurrent}
use hetdns.Hetzner.Client.Done.{Done, Settles, mutate-Settles}

-- The values of the RRset that was read.
abbrev pub values_of : Outcome (Option (List Text)) → List Text
values_of (ok (some values)) = values
values_of _ = []

module _ (rt : Runtime) (c : Client) (ctx : Context) where
  matches-IsCurrent :
      (desired : Addr) (value : Text) (o : Option Addr)
      → rt.netip.parse_addr value ≡ o
      → matches rt c ctx desired o ≡ true
      → IsCurrent rt c ctx desired (value ∷ [])
  unfolding matches
  matches-IsCurrent desired value none e h = absurd (ground (arith, h))
  matches-IsCurrent desired value (some current) e h =
      (value, current, refl, e, (addr_eq_iff (unmap current) (unmap desired)).0 h)

  is_current-IsCurrent :
      (desired : Addr) (values : List Text)
      → is_current rt c ctx desired values ≡ true
      → IsCurrent rt c ctx desired values
  unfolding is_current
  is_current-IsCurrent desired [] h = absurd (ground (arith, h))
  is_current-IsCurrent desired (value ∷ []) h =
      matches-IsCurrent desired value (rt.netip.parse_addr value) refl h
  is_current-IsCurrent desired (value ∷ other ∷ values) h = absurd (ground (arith, h))

  -- The reason for a reported success, with the state of the world between reading and the rest of
  -- the call, and after the call.
  pub data Success (target : Record) (desired : Addr) (seen : Outcome (Option (List Text)))
      (between after : World) (result : Result) : Type 0 where
    in_place :
        (values : List Text)
        → seen ≡ ok (some values)
        → IsCurrent rt c ctx desired values
        → result.state ≡ unchanged
        → after ≡ between
        → Success target desired seen between after result
    replaced :
        (values : List Text)
        → seen ≡ ok (some values)
        → result.state ≡ updated
        → Done rt c ctx
            (rrset_path target ++ text "/actions/set_records")
            (set_body (rt.netip.show_addr desired))
            between
            after
            result.action_id
        → Success target desired seen between after result
    made :
        seen ≡ ok none
        → target.create ≡ true
        → result.state ≡ created
        → Done rt c ctx
            (create_path target)
            (create_body target.name target.kind target.ttl (rt.netip.show_addr desired))
            between
            after
            result.action_id
        → Success target desired seen between after result

  -- A result that reports what was read, and a success only for a reason.
  abbrev pub Reports :
      Record → Addr → Outcome (Option (List Text)) × World → Reconciled × World → Type 0
  Reports target desired (seen, between) (r, after) =
      (r.result.observed ≡ values_of seen)
      × (((e : Error) × (r.failure ≡ some e))
          ⊎ (r.failure ≡ none) × Success target desired seen between after r.result)

  Settles-Reports :
      (target : Record) (desired : Addr) (seen : Outcome (Option (List Text))) (state : State)
      (path : Text) (body : Body) (between : World) (r : Reconciled × World)
      → Settles rt c ctx state (values_of seen) path body between r
      → (r.0.result.state ≡ state
          → Done rt c ctx path body between r.1 r.0.result.action_id
          → Success target desired seen between r.1 r.0.result)
      → Reports target desired (seen, between) r
  Settles-Reports target desired seen state path body between (r, after) (o, inl failed) reason =
      (o, inl failed)
  Settles-Reports target desired seen state path body between (r, after) (o, inr (f, s, d)) reason =
      (o, inr (f, reason s d))

  replace-Reports :
      (target : Record) (desired : Addr) (values : List Text) (w : World)
      → Reports target desired
          (ok (some values), w)
          (settle rt c ctx updated values (set_records rt c ctx target desired w))
  unfolding set_records
  replace-Reports target desired values w =
      let path = rrset_path target ++ text "/actions/set_records" in
      let body = set_body (rt.netip.show_addr desired) in
      Settles-Reports target desired (ok (some values)) updated path body w
        (settle rt c ctx updated values (mutate rt c ctx path body w))
        (mutate-Settles rt c ctx updated values path body w) (replaced values refl)

  make-Reports :
      (target : Record) (desired : Addr) (w : World)
      → target.create ≡ true
      → Reports target desired
          (ok none, w)
          (settle rt c ctx created [] (create_rrset rt c ctx target desired w))
  unfolding create_rrset
  make-Reports target desired w allowed =
      let body = create_body target.name target.kind target.ttl (rt.netip.show_addr desired) in
      Settles-Reports target desired (ok none) created (create_path target) body w
        (settle rt c ctx created [] (mutate rt c ctx (create_path target) body w))
        (mutate-Settles rt c ctx created [] (create_path target) body w) (made refl allowed)

  found-Reports :
      (target : Record) (desired : Addr) (values : List Text) (w : World)
      → Reports target desired (ok (some values), w) (when_found rt c ctx target desired values w)
  unfolding when_found
  found-Reports target desired values w = elim (Bool-cases (is_current rt c ctx desired values)) [
    | inl current ↦ rw current (
      refl,
      inr (refl, in_place values refl (is_current-IsCurrent desired values current) refl refl),
    )
    | inr stale ↦
        rw stale
          (elim (Bool-cases
            (ltb 1 (length values) && (if target.replace_all then false else true))) [
              | inl guarded ↦ rw guarded (refl, inl (_, refl))
              | inr free ↦ rw free (replace-Reports target desired values w)
            ])
  ]

  creating :
      (target : Record) (desired : Addr) (w : World) (allowed : Bool)
      → target.create ≡ allowed
      → Reports target desired
          (ok none, w)
          (if allowed
            then settle rt c ctx created [] (create_rrset rt c ctx target desired w)
            else (record { result = empty_result; failure = some missing }, w))
  unfolding empty_result
  creating target desired w true e = make-Reports target desired w e
  creating target desired w false e = (refl, inl (_, refl))

  absent-Reports :
      (target : Record) (desired : Addr) (w : World)
      → Reports target desired (ok none, w) (when_absent rt c ctx target desired w)
  unfolding when_absent
  absent-Reports target desired w = creating target desired w target.create refl

  seen-Reports :
      (target : Record) (desired : Addr) (r : Outcome (Option (List Text)) × World)
      → Reports target desired r (after_get rt c ctx target desired r)
  unfolding after_get empty_result
  seen-Reports target desired (err e, w) = (refl, inl (e, refl))
  seen-Reports target desired (ok none, w) = absent-Reports target desired w
  seen-Reports target desired (ok (some values), w) = found-Reports target desired values w

-- `Reconcile` reports the values that it has read, whether it fails or not, and it succeeds for one of
-- three reasons. It reports `unchanged` for an RRset whose one value is the desired address, and has
-- then done nothing after reading. It reports `updated` for one that was there, and `created` for one
-- that was absent and may be created. The one POST of the desired address was then answered by a
-- 2xx response that holds the action whose id is reported, a positive one, and the status of this
-- action was `success` there or in the answer to the last request, a GET of the action.
pub reconcile-Reports :
    (rt : Runtime) (c : Client) (ctx : Context) (target : Record) (desired : Addr) (w : World)
    → Reports rt c ctx target desired
        (get_rrset rt c ctx target w)
        (reconcile rt c ctx target desired w)
unfolding reconcile
reconcile-Reports rt c ctx target desired w =
    seen-Reports rt c ctx target desired (get_rrset rt c ctx target w)
