-- ===== src/Reconcile/Fetch/Ends.antt =====
-- The workers of internal/reconcile/reconciler.go come to an end.
use hetdns.Prelude.{
  ℕ, suc, ◌+◌, ◌*◌, ◌≤◌, ◌≡◌, ◌⊎◌, inl, inr, refl, ap, List, [], ◌∷◌, ◌++◌, length, arith,
  length-append,
}
use hetdns.Prelude.Text.{Text}
use hetdns.Addr.{Netip}
use hetdns.Status.{Store}
use hetdns.Reconcile.State.{SourceResult, Measure}
use hetdns.Reconcile.Fetch.{
  Stage, asking, holding, reporting, measuring, Fetching, start_of, worker_count, move, Step,
  take_job, work, Steps, none_yet, then_step,
}

-- How many steps a source and a worker have before them.
abbrev stage_weight : Stage → ℕ
stage_weight asking = 4
stage_weight holding = 3
stage_weight reporting = 2
stage_weight measuring = 1

abbrev weight_of : List (Stage × Text) → ℕ
weight_of [] = 0
weight_of ((stage, id) ∷ rest) = stage_weight stage + weight_of rest

weight_of-append :
    (xs ys : List (Stage × Text)) → weight_of (xs ++ ys) ≡ weight_of xs + weight_of ys
weight_of-append [] ys = omega arith
weight_of-append ((stage, id) ∷ xs) ys = omega (arith, weight_of-append xs ys)

abbrev weight : Fetching → ℕ
weight s = 5 * length s.jobs + weight_of s.active

module _ (netip : Netip) (outcome : Text → SourceResult) (ids : List Text) where
  move-weight :
      (now : ℕ) (stage : Stage) (id : Text) (before after : List (Stage × Text)) (s : Fetching)
      → s.active ≡ before ++ (stage, id) ∷ after
      → (weight s ≡ suc (weight (move netip outcome now (stage, id) before after s)))
        × (length (move netip outcome now (stage, id) before after s).active ≤ length s.active)
  unfolding move
  move-weight now asking id before after s e = omega (
    arith,
    ap weight_of e,
    ap length e,
    weight_of-append before ((asking, id) ∷ after),
    weight_of-append before ((holding, id) ∷ after),
    length-append before ((asking, id) ∷ after),
    length-append before ((holding, id) ∷ after),
  )
  move-weight now holding id before after s e = omega (
    arith,
    ap weight_of e,
    ap length e,
    weight_of-append before ((holding, id) ∷ after),
    weight_of-append before ((reporting, id) ∷ after),
    length-append before ((holding, id) ∷ after),
    length-append before ((reporting, id) ∷ after),
  )
  move-weight now reporting id before after s e = omega (
    arith,
    ap weight_of e,
    ap length e,
    weight_of-append before ((reporting, id) ∷ after),
    weight_of-append before ((measuring, id) ∷ after),
    length-append before ((reporting, id) ∷ after),
    length-append before ((measuring, id) ∷ after),
  )
  move-weight now measuring id before after s e = omega (
    arith,
    ap weight_of e,
    ap length e,
    weight_of-append before ((measuring, id) ∷ after),
    weight_of-append before after,
    length-append before ((measuring, id) ∷ after),
    length-append before after,
  )

  Step-weight :
      (s t : Fetching)
      → Step netip outcome ids s t
      → (weight s ≡ suc (weight t))
        × ((length s.active ≤ worker_count ids → length t.active ≤ worker_count ids))
  Step-weight s _ (take_job id rest e room) = (omega (arith, ap length e), λ h. omega (arith, room))
  Step-weight s _ (work now (stage, id) before after e) =
      let (w, l) = move-weight now stage id before after s e in (w, λ h. omega (arith, l, h))

  Steps-weight :
      (s : Fetching) (n : ℕ) (t : Fetching)
      → length s.active ≤ worker_count ids
      → Steps netip outcome ids s n t
      → (weight s ≡ n + weight t) × (length t.active ≤ worker_count ids)
  Steps-weight s _ _ h none_yet = (omega arith, h)
  Steps-weight s _ u h (then_step n t _ before last) =
      let (w, l) = Steps-weight s n t h before in
      let (v, k) = Step-weight t u last in (omega (arith, w, v), k l)

  next-Step :
      (s : Fetching) (jobs : List Text) (active : List (Stage × Text))
      → s.jobs ≡ jobs
      → s.active ≡ active
      → length s.jobs ≤ length ids
      → (s.jobs ≡ []) × (s.active ≡ []) ⊎ ((t : Fetching) × Step netip outcome ids s t)
  next-Step s jobs (worker ∷ rest) e f h = inr (_, work 0 worker [] rest f)
  next-Step s [] [] e f h = inl (e, f)
  next-Step s (id ∷ rest) [] e f h =
      inr (_, take_job id rest e (omega (arith, ap length e, ap length f, h)))

-- Four workers at most are busy at once; every execution ends, after at most five steps for each
-- source, and does not get stuck before no source waits and no worker is busy.
pub fetch_ends :
    (netip : Netip) (outcome : Text → SourceResult) (ids : List Text) (store : Store)
    (measures : List Measure) (n : ℕ) (s : Fetching)
    → Steps netip outcome ids (start_of ids store measures) n s
    → (length s.active ≤ 4)
      × (n ≤ 5 * length ids)
      × ((s.jobs ≡ []) × (s.active ≡ []) ⊎ ((t : Fetching) × Step netip outcome ids s t))
fetch_ends netip outcome ids store measures n s steps =
    let (w, l) =
      Steps-weight netip outcome ids (start_of ids store measures) n s (omega arith) steps in
    (
      omega (arith, l),
      omega (arith, w),
      next-Step netip outcome ids s s.jobs s.active refl refl (omega (arith, w)),
    )
