-- ===== src/Status/Loop.antt =====
-- The loops of `Snapshot` in internal/status/store.go without their accumulators.
use hetdns.Prelude.{◌≡◌, refl, Bool, true, ◌||◌, List, [], ◌∷◌, arith, if◌then◌else◌, any, map}
use hetdns.Prelude.Text.{Text}
use hetdns.Prelude.Map.{Map, or_zero, lookup}
use hetdns.Status.Shown.{snapshot_loop}

module _ {V : Type 0} (zero_value : V) (is_degraded is_pending : V → Bool) (m : Map V) where
  abbrev pub values : List Text → List V
  values = map (λ id. or_zero zero_value (lookup id m))

  pub loop_lem :
      (ids : List Text) (degraded pending : Bool)
      → snapshot_loop zero_value is_degraded is_pending m ids degraded pending ≡ (
        values ids,
        any is_degraded (values ids) || degraded,
        any is_pending (values ids) || pending,
      )
  unfolding snapshot_loop
  loop_lem [] degraded pending = refl
  loop_lem (id ∷ ids) degraded pending = ground (
    arith,
    loop_lem ids (if is_degraded (or_zero zero_value (lookup id m)) then true else degraded)
        (if is_pending (or_zero zero_value (lookup id m)) then true else pending),
  )
