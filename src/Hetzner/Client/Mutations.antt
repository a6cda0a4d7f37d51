-- ===== src/Hetzner/Client/Mutations.antt =====
-- What `Reconcile` of internal/hetzner/client.go may change at the provider, and when.
use hetdns.Prelude.{
  ◌≤◌, ◌≡◌, refl, ap, ◌∙◌, ◌⊎◌, inl, inr, Bool, true, false, ◌&&◌, Option, none, some, List, [],
  ◌∷◌, ◌++◌, arith, length, ltb, Bool-cases, if◌then◌else◌,
}
use hetdns.Prelude.Int.{pos}
use hetdns.Prelude.Text.{Text, text, text_eq}
use hetdns.Addr.{Addr, unmap, addr_eq_iff}
use hetdns.Hetzner.Types.{Record, State, Action, Outcome, ok, err, multi_value, missing}
use hetdns.Hetzner.Path.{rrset_path, create_path}
use hetdns.Hetzner.Env.{Runtime, Request, World, Context, Body, create_body, set_body}
use hetdns.Hetzner.Request.{Client, request_of, post_json}
use hetdns.Hetzner.Request.Sent.{SentOnce, sent-post_json}
use hetdns.Hetzner.Request.Posts.{posts, posts-get_json}
use hetdns.Hetzner.Poll.Quiet.{posts-await_action}
use hetdns.Hetzner.Client.{
  get_rrset, mutate, create_rrset, set_records, settle, is_current, when_found, when_absent,
  after_get, reconcile,
}

module _ (rt : Runtime) (c : Client) (ctx : Context) where
  -- Exactly one POST of a body to a path has been added.
  abbrev pub Posted : Text → Body → List Request → List Request → Type 0
  Posted path body before after =
      (encoded : Text) × (rt.marshal body ≡ some encoded)
      × (after ≡ request_of c (text "POST") path (some encoded) ∷ before)

  posts-mutate :
      (path : Text) (body : Body) (w : World)
      → let after = posts (mutate rt c ctx path body w).1.sent in
        (after ≡ posts w.sent) ⊎ Posted path body (posts w.sent) after
  unfolding mutate posts text_eq
  posts-mutate path body w = elim (sent-post_json rt c rt.unmarshal_action ctx path w body) [
    | inl e ↦ inl (ap posts e)
    | inr h ↦ inr (go (rt.marshal body) refl h)
  ]
    where
      go :
          (m : Option Text)
          → rt.marshal body ≡ m
          → SentOnce rt c rt.unmarshal_action ctx path w m
              (post_json rt c rt.unmarshal_action ctx path body w).1.sent
          → Posted path body
              (posts w.sent)
              (posts (post_json rt c rt.unmarshal_action ctx path body w).1.sent)
      go none e h = absurd h
      go (some encoded) e h = (encoded, e, rw h refl)

  posts-settle :
      (state : State) (values : List Text) (r : Outcome Action × World)
      → posts (settle rt c ctx state values r).1.sent ≡ posts r.1.sent
  unfolding settle
  posts-settle state values (err e, w) = refl
  posts-settle state values (ok action, w) = posts-await_action rt c ctx action w

  -- The RRset has one value, which is the desired address, up to its form.
  abbrev pub IsCurrent : Addr → List Text → Type 0
  IsCurrent desired values =
      (value : Text) × (current : Addr) × (values ≡ value ∷ [])
      × (rt.netip.parse_addr value ≡ some current)
      × (unmap current ≡ unmap desired)

  not-IsCurrent :
      (desired : Addr) (values : List Text)
      → is_current rt c ctx desired values ≡ false
      → ¬ IsCurrent desired values
  unfolding is_current
  not-IsCurrent desired values h (value, current, e, p, q) =
      ground
        (arith, addr_eq_iff (unmap current) (unmap desired), ap (is_current rt c ctx desired) e)

  -- Why and how a call of `Reconcile` mutates, given what it has seen of the RRset.
  pub data Mutation (target : Record) (desired : Addr) (seen : Outcome (Option (List Text)))
      (before after : List Request) : Type 0 where
    quiet : after ≡ before → Mutation target desired seen before after
    creates :
        seen ≡ ok none
        → target.create ≡ true
        → Posted
            (create_path target)
            (create_body target.name target.kind target.ttl (rt.netip.show_addr desired))
            before
            after
        → Mutation target desired seen before after
    replaces :
        (values : List Text)
        → seen ≡ ok (some values)
        → ¬ IsCurrent desired values
        → (length values ≤ 1) ⊎ (target.replace_all ≡ true)
        → Posted
            (rrset_path target ++ text "/actions/set_records")
            (set_body (rt.netip.show_addr desired))
            before
            after
        → Mutation target desired seen before after

  module _ (target : Record) (desired : Addr) (before : List Request) where
    after_set :
        (values : List Text) (w : World)
        → posts w.sent ≡ before
        → ¬ IsCurrent desired values
        → (length values ≤ 1) ⊎ (target.replace_all ≡ true)
        → Mutation target desired (ok (some values)) before (
            posts
              (settle rt c ctx State.updated values (set_records rt c ctx target desired w)).1.sent)
    unfolding set_records
    after_set values w e n g =
        let path = rrset_path target ++ text "/actions/set_records" in
        let body = set_body (rt.netip.show_addr desired) in
        let kept = posts-settle State.updated values (mutate rt c ctx path body w) in
        elim (posts-mutate path body w) [
          | inl q ↦ quiet (kept ∙ (q ∙ e))
          | inr (b, m, q) ↦
              replaces values refl n g
                (b, m, kept ∙ (q ∙ ap (◌∷◌ (request_of c (text "POST") path (some b))) e))
        ]

    guarded :
        (many : Bool)
        → (values : List Text) → ltb 1 (length values) ≡ many
        → (allowed : Bool) → target.replace_all ≡ allowed
        → (w : World) → posts w.sent ≡ before
        → ¬ IsCurrent desired values
        → Mutation target desired (ok (some values)) before (
            posts
              (if many && (if allowed then false else true)
                then (
                  record {
                    result = record { state = State.unset; observed = values; action_id = pos 0 };
                    failure = some (multi_value (length values));
                  },
                  w,
                )
                else settle rt c ctx State.updated values
                    (set_records rt c ctx target desired w)).1.sent)
    guarded true values m true a w e n = after_set values w e n (inr a)
    guarded true values m false a w e n = quiet e
    guarded false values m allowed a w e n = after_set values w e n (inl (ground arith))

    found-Mutation :
        (values : List Text) (w : World)
        → posts w.sent ≡ before
        → Mutation target desired
            (ok (some values))
            before
            (posts (when_found rt c ctx target desired values w).1.sent)
    unfolding when_found
    found-Mutation values w e = elim (Bool-cases (is_current rt c ctx desired values)) [
      | inl current ↦ rw current (quiet e)
      | inr stale ↦ rw stale (
          guarded (ltb 1 (length values)) values refl target.replace_all refl w e
            (not-IsCurrent desired values stale))
    ]

    creating :
        (allowed : Bool)
        → target.create ≡ allowed
        → (w : World) → posts w.sent ≡ before
        → Mutation target desired (ok none) before (
            posts
              (if allowed
                then settle rt c ctx State.created [] (create_rrset rt c ctx target desired w)
                else (
                  record {
                    result = record { state = State.unset; observed = []; action_id = pos 0 };
                    failure = some missing;
                  },
                  w,
                )).1.sent)
    unfolding create_rrset
    creating false a w e = quiet e
    creating true a w e =
        let body = create_body target.name target.kind target.ttl (rt.netip.show_addr desired) in
        let kept = posts-settle State.created [] (mutate rt c ctx (create_path target) body w) in
        elim (posts-mutate (create_path target) body w) [
          | inl q ↦ quiet (kept ∙ (q ∙ e))
          | inr (b, m, q) ↦ creates refl a (
            b,
            m,
            kept ∙ (q ∙ ap (◌∷◌ (request_of c (text "POST") (create_path target) (some b))) e),
          )
        ]

    absent-Mutation :
        (w : World)
        → posts w.sent ≡ before
        → Mutation target desired
            (ok none)
            before
            (posts (when_absent rt c ctx target desired w).1.sent)
    unfolding when_absent
    absent-Mutation w e = creating target.create refl w e

    seen-Mutation :
        (r : Outcome (Option (List Text)) × World)
        → posts r.1.sent ≡ before
        → Mutation target desired r.0 before (posts (after_get rt c ctx target desired r).1.sent)
    unfolding after_get
    seen-Mutation (err e, w) h = quiet h
    seen-Mutation (ok none, w) h = absent-Mutation w h
    seen-Mutation (ok (some values), w) h = found-Mutation values w h

  -- `Reconcile` mutates the provider at most once, whatever happens: it creates the RRset only if
  -- the provider reported it absent and the record allows that, and replaces its values only if
  -- these are not the desired address alone and either are at most one or may all be replaced.
  pub reconcile-Mutation :
      (target : Record) (desired : Addr) (w : World)
      → Mutation target desired
          (get_rrset rt c ctx target w).0
          (posts w.sent)
          (posts (reconcile rt c ctx target desired w).1.sent)
  unfolding reconcile get_rrset
  reconcile-Mutation target desired w =
      seen-Mutation target desired (posts w.sent) (get_rrset rt c ctx target w)
        (posts-get_json rt c rt.unmarshal_rrset ctx (rrset_path target) w)
