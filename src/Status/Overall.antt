-- ===== src/Status/Overall.antt =====
-- The overall state that internal/status/store.go derives for a snapshot.
use hetdns.Prelude.{ℕ, ◌≡◌, refl, Bool, true, false, ◌||◌, List, [], ◌∷◌, arith, ◌≢◌, All, any, ◌↔◌}
use hetdns.Prelude.Text.{text, text_eq_iff}
use hetdns.Status.{
  Store, Source, Record, overall_text, source_degraded, source_pending, record_degraded,
  record_pending,
}
use hetdns.Status.Shown.{snapshot}
use hetdns.Status.Loop.{loop_lem}

-- What the snapshot shows decides its overall state.
overall_lem :
    (now : ℕ) (s : Store)
    → let p = snapshot now s in
      p.overall
      ≡ overall_text
          (any record_degraded p.records || (any source_degraded p.sources || false))
          (any record_pending p.records || (any source_pending p.sources || false))
unfolding snapshot
overall_lem now s = simp loop_lem

abbrev pub IsHealthySource : Source → Type 0
IsHealthySource v = (v.error ≡ []) × (v.last_attempt ≢ 0)

abbrev pub IsHealthyRecord : Record → Type 0
IsHealthyRecord v =
    (v.state ≢ text "source_error")
    × (v.state ≢ text "provider_error")
    × (v.state ≢ text "backoff")
    × (v.state ≢ text "pending")
    × (v.state ≢ text "checking")

module _ {V : Type 0} (p q : V → Bool) (P : V → Type 0)
    (at : (v : V) → (p v || q v ≡ false) ↔ P v) where
  any-false : (xs : List V) → (any p xs || any q xs ≡ false) ↔ All P xs
  any-false [] = (λ h. tt, λ h. refl)
  any-false (x ∷ xs) = ground (arith, at x, any-false xs)

healthy_source : (v : Source) → (source_degraded v || source_pending v ≡ false) ↔ IsHealthySource v
healthy_source v = ground (arith, text_eq_iff v.error [])

healthy_record : (v : Record) → (record_degraded v || record_pending v ≡ false) ↔ IsHealthyRecord v
healthy_record v = ground (
  arith,
  text_eq_iff v.state (text "source_error"),
  text_eq_iff v.state (text "provider_error"),
  text_eq_iff v.state (text "backoff"),
  text_eq_iff v.state (text "pending"),
  text_eq_iff v.state (text "checking"),
)

-- No failure to show: the last fetch, or the last check, did not go wrong.
abbrev pub IsSoundSource : Source → Type 0
IsSoundSource v = v.error ≡ []

abbrev pub IsSoundRecord : Record → Type 0
IsSoundRecord v =
    (v.state ≢ text "source_error") × (v.state ≢ text "provider_error") × (v.state ≢ text "backoff")

sound_source : (v : Source) → (source_degraded v || source_degraded v ≡ false) ↔ IsSoundSource v
sound_source v = ground (arith, text_eq_iff v.error [])

sound_record : (v : Record) → (record_degraded v || record_degraded v ≡ false) ↔ IsSoundRecord v
sound_record v = ground (
  arith,
  text_eq_iff v.state (text "source_error"),
  text_eq_iff v.state (text "provider_error"),
  text_eq_iff v.state (text "backoff"),
)

abbrev HealthyFlags : Bool → Bool → Type 0
HealthyFlags degraded pending = (degraded ≡ false) × (pending ≡ false)

overall_healthy : (d p : Bool) → (overall_text d p ≡ text "healthy") ↔ (d || p ≡ false)
overall_healthy true p = ground arith
overall_healthy false true = ground arith
overall_healthy false false = ground arith

overall_degraded : (d p : Bool) → (overall_text d p ≡ text "degraded") ↔ (d ≡ true)
overall_degraded true p = ground arith
overall_degraded false true = ground arith
overall_degraded false false = ground arith

-- A snapshot is healthy exactly when every source that it shows was tried and shows no error, and
-- no record that it shows is failing, pending or being checked; it is degraded exactly when some
-- source shows an error or some record is failing, whatever is still pending.
pub overall_iff :
    (now : ℕ) (s : Store)
    → let p = snapshot now s in
      ((p.overall ≡ text "healthy")
        ↔ (All IsHealthySource p.sources × All IsHealthyRecord p.records))
      × ((p.overall ≡ text "degraded")
          ↔ (¬ (All IsSoundSource p.sources × All IsSoundRecord p.records)))
overall_iff now s =
    let p = snapshot now s in
    ground (
      arith,
      overall_lem now s,
      overall_healthy (any record_degraded p.records || (any source_degraded p.sources || false))
          (any record_pending p.records || (any source_pending p.sources || false)),
      overall_degraded (any record_degraded p.records || (any source_degraded p.sources || false))
          (any record_pending p.records || (any source_pending p.sources || false)),
      any-false source_degraded source_pending IsHealthySource healthy_source p.sources,
      any-false record_degraded record_pending IsHealthyRecord healthy_record p.records,
      any-false source_degraded source_degraded IsSoundSource sound_source p.sources,
      any-false record_degraded record_degraded IsSoundRecord sound_record p.records,
    )
