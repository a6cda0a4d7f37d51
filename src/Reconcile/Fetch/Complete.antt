-- ===== src/Reconcile/Fetch/Complete.antt =====
-- What the workers of internal/reconcile/reconciler.go have done when they are done.
use mathlib.Core.Path.{subst}
use hetdns.Prelude.{
  ◌≢◌, ℕ, ◌≡◌, ◌⊎◌, inl, inr, refl, ap, sym, some, List, [], ◌∷◌, ◌++◌, All, arith, Bool-cases,
}
use hetdns.Prelude.Text.{Text, text_eq, text_eq_iff, text_eq_refl}
use hetdns.Prelude.Map.{Map, lookup, insert, lookup-insert}
use hetdns.Addr.{Netip}
use hetdns.Status.{Store}
use hetdns.Reconcile.State.{SourceResult, Measure}
use hetdns.Reconcile.Fetch.{
  Stage, asking, holding, reporting, measuring, Fetching, start_of, move, Step, take_job, work,
  Steps, none_yet, then_step,
}

-- An item stands in a list.
data In {A : Type 0} (x : A) : List A → Type 0 where
  here : (xs : List A) → In x (x ∷ xs)
  there : (y : A) (xs : List A) → In x xs → In x (y ∷ xs)

In-swap :
    {A : Type 0} {x : A} (w v : A) (xs ys : List A)
    → In x (xs ++ w ∷ ys)
    → (x ≡ w) ⊎ (In x (xs ++ v ∷ ys) × In x (xs ++ ys))
In-swap w v [] ys (here _) = inl refl
In-swap w v [] ys (there _ _ h) = inr (there v ys h, h)
In-swap w v (y ∷ xs) ys (here _) = inr (here _, here _)
In-swap w v (y ∷ xs) ys (there _ _ h) = elim (In-swap w v xs ys h) [
  | inl e ↦ inl e
  | inr (a, b) ↦ inr (there y _ a, there y _ b)
]

In-cons : {A : Type 0} {x y : A} {xs : List A} → In x (y ∷ xs) → (x ≡ y) ⊎ In x xs
In-cons (here _) = inl refl
In-cons (there _ _ h) = inr h

In-new : {A : Type 0} (v : A) (xs ys : List A) → In v (xs ++ v ∷ ys)
In-new v [] ys = here ys
In-new v (y ∷ xs) ys = there y _ (In-new v xs ys)

In-kept :
    {stage other : Stage} {id : Text} (k : Text) (v : Stage × Text) (xs ys : List (Stage × Text))
    → stage ≢ other
    → In (stage, id) (xs ++ (other, k) ∷ ys)
    → In (stage, id) (xs ++ v ∷ ys) × In (stage, id) (xs ++ ys)
In-kept k v xs ys ne h = elim (In-swap _ v xs ys h) [
  | inl e ↦ absurd (ne (ap (λ p. p.0) e))
  | inr kept ↦ kept
]

asking≢holding : asking ≢ holding
asking≢holding e = ground (arith, e)

asking≢reporting : asking ≢ reporting
asking≢reporting e = ground (arith, e)

asking≢measuring : asking ≢ measuring
asking≢measuring e = ground (arith, e)

holding≢reporting : holding ≢ reporting
holding≢reporting e = ground (arith, e)

holding≢measuring : holding ≢ measuring
holding≢measuring e = ground (arith, e)

module _ (netip : Netip) (outcome : Text → SourceResult) where
  abbrev pub Stored : Text → Map SourceResult → Type 0
  Stored id m = lookup id m ≡ some (outcome id)

  Stored-own : (id : Text) (m : Map SourceResult) → Stored id (insert id (outcome id) m)
  Stored-own id m = rw (lookup-insert, text_eq_refl id) refl

  Stored-insert :
      (id j : Text) (m : Map SourceResult) → Stored j m → Stored j (insert id (outcome id) m)
  Stored-insert id j m h = elim (Bool-cases (text_eq id j)) [
    | inl same ↦
        subst (λ k. Stored k (insert id (outcome id) m)) ((text_eq_iff id j).0 same)
          (Stored-own id m)
    | inr other ↦ rw (lookup-insert, other) h
  ]

  -- A source waits, or a worker has it and has not stored its result, or the result is stored.
  data Placed (s : Fetching) (id : Text) : Type 0 where
    waits : In id s.jobs → Placed s id
    asks : In (asking, id) s.active → Placed s id
    holds : In (holding, id) s.active → Placed s id
    stored : Stored id s.results → Placed s id

  module _ (now : ℕ) (before after : List (Stage × Text)) (s : Fetching) (k id : Text) where
    abbrev At : Stage → Type 0
    At stage = s.active ≡ before ++ (stage, k) ∷ after

    Moved : Stage → Type 0
    Moved stage = Placed (move netip outcome now (stage, k) before after s) id

    found :
        (stage : Stage) (x : Stage × Text)
        → At stage
        → In x s.active
        → In x (before ++ (stage, k) ∷ after)
    found stage x e h = subst (In x) e h

    asked-Placed : At asking → Placed s id → Moved asking
    unfolding Moved move
    asked-Placed e (waits h) = waits h
    asked-Placed e (stored h) = stored h
    asked-Placed e (asks h) =
        elim (In-swap (asking, k) (holding, k) before after (found asking _ e h)) [
          | inl same ↦ holds (
              subst (λ j. In (holding, j) (before ++ (holding, k) ∷ after))
                (sym (ap (λ p. p.1) same)) (In-new (holding, k) before after))
          | inr kept ↦ asks kept.0
        ]
    asked-Placed e (holds h) =
        holds
          (In-kept k (holding, k) before after (λ q. asking≢holding (sym q)) (found asking _ e h)).0

    held-Placed : At holding → Placed s id → Moved holding
    unfolding Moved move
    held-Placed e (waits h) = waits h
    held-Placed e (stored h) = stored (Stored-insert k id s.results h)
    held-Placed e (asks h) =
        asks (In-kept k (reporting, k) before after asking≢holding (found holding _ e h)).0
    held-Placed e (holds h) =
        elim (In-swap (holding, k) (reporting, k) before after (found holding _ e h)) [
          | inl same ↦ stored (
              subst (λ j. Stored j (insert k (outcome k) s.results)) (sym (ap (λ p. p.1) same))
                (Stored-own k s.results))
          | inr kept ↦ holds kept.0
        ]

    reported-Placed : At reporting → Placed s id → Moved reporting
    unfolding Moved move
    reported-Placed e (waits h) = waits h
    reported-Placed e (stored h) = stored h
    reported-Placed e (asks h) =
        asks (In-kept k (measuring, k) before after asking≢reporting (found reporting _ e h)).0
    reported-Placed e (holds h) =
        holds (In-kept k (measuring, k) before after holding≢reporting (found reporting _ e h)).0

    measured-Placed : At measuring → Placed s id → Moved measuring
    unfolding Moved move
    measured-Placed e (waits h) = waits h
    measured-Placed e (stored h) = stored h
    measured-Placed e (asks h) =
        asks (In-kept k (measuring, k) before after asking≢measuring (found measuring _ e h)).1
    measured-Placed e (holds h) =
        holds (In-kept k (measuring, k) before after holding≢measuring (found measuring _ e h)).1

    move-Placed : (stage : Stage) → At stage → Placed s id → Moved stage
    move-Placed asking = asked-Placed
    move-Placed holding = held-Placed
    move-Placed reporting = reported-Placed
    move-Placed measuring = measured-Placed

  module _ (ids : List Text) where
    Step-Placed :
        (s t : Fetching) (id : Text) → Step netip outcome ids s t → Placed s id → Placed t id
    unfolding Moved
    Step-Placed s _ id (work now (stage, k) before after e) h =
        move-Placed now before after s k id stage e h
    Step-Placed s _ id (take_job k rest e room) (waits h) = elim (In-cons (subst (In id) e h)) [
      | inl same ↦
          asks (subst (λ j. In (asking, j) ((asking, k) ∷ s.active)) (sym same) (here s.active))
      | inr kept ↦ waits kept
    ]
    Step-Placed s _ id (take_job k rest e room) (asks h) = asks (there _ _ h)
    Step-Placed s _ id (take_job k rest e room) (holds h) = holds (there _ _ h)
    Step-Placed s _ id (take_job k rest e room) (stored h) = stored h

    Steps-Placed :
        (s : Fetching) (id : Text) (n : ℕ) (t : Fetching)
        → Steps netip outcome ids s n t
        → Placed s id
        → Placed t id
    Steps-Placed s id _ _ none_yet h = h
    Steps-Placed s id _ u (then_step n t _ before last) h =
        Step-Placed t u id last (Steps-Placed s id n t before h)

All-In : {P : Text → Type 0} (ids : List Text) → ((id : Text) → In id ids → P id) → All P ids
All-In [] f = tt
All-In (id ∷ ids) f = (f id (here ids), All-In ids (λ j h. f j (there id ids h)))

-- Once no source waits and no worker is busy, a source that was placed has its result stored.
all-Stored :
    (netip : Netip) (outcome : Text → SourceResult) (s : Fetching) (id : Text)
    → s.jobs ≡ []
    → s.active ≡ []
    → Placed netip outcome s id
    → Stored netip outcome id s.results
all-Stored netip outcome s id e f (waits h) = elim (subst (In id) e h) [ ]
all-Stored netip outcome s id e f (asks h) = elim (subst (In (asking, id)) f h) [ ]
all-Stored netip outcome s id e f (holds h) = elim (subst (In (holding, id)) f h) [ ]
all-Stored netip outcome s id e f (stored h) = h

-- In whatever order the workers go, once no source waits and no worker is busy the map of results has
-- for each source what its fetch yielded.
pub fetch_complete :
    (netip : Netip) (outcome : Text → SourceResult) (ids : List Text) (store : Store)
    (measures : List Measure) (n : ℕ) (s : Fetching)
    → Steps netip outcome ids (start_of ids store measures) n s
    → s.jobs ≡ []
    → s.active ≡ []
    → All (λ id. Stored netip outcome id s.results) ids
fetch_complete netip outcome ids store measures n s steps e f = All-In ids (λ id h.
    all-Stored netip outcome s id e f
      (Steps-Placed netip outcome ids (start_of ids store measures) id n s steps (waits h)))
