-- ===== src/Tests/Workers.antt =====
-- The workers of internal/reconcile/reconciler.go on one source.
use hetdns.Prelude.{List, ◌*◌, ◌≤◌, ◌≡◌, ◌⊎◌, refl, none, [], ◌∷◌, All, length, arith}
use hetdns.Prelude.Int.{pos}
use hetdns.Prelude.Text.{Text, text}
use hetdns.Reconcile.State.{SourceResult, Measure}
use hetdns.Reconcile.Fetch.{
  Fetching, asking, holding, reporting, measuring, start_of, move, Step, take_job, work, Steps,
  none_yet, then_step,
}
use hetdns.Reconcile.Fetch.Complete.{Stored, fetch_complete}
use hetdns.Reconcile.Fetch.Ends.{fetch_ends}
use hetdns.Tests.Data.{netip, home, store}
use hetdns.Prelude.Map.{Map}
use hetdns.Status.{Store}
use hetdns.Status.Ops

abbrev wan : Text
wan = text "wan"

abbrev outcome : Text → SourceResult
outcome id = record { address = home; err = none; duration = pos 9 }

abbrev at_start : Store → List Measure → Fetching
at_start st ms = start_of (wan ∷ []) st ms

abbrev asked : Store → List Measure → Fetching
asked st ms = record (at_start st ms) { jobs = []; active = (asking, wan) ∷ [] }

abbrev held : Store → List Measure → Fetching
held st ms = move netip outcome 1 (asking, wan) [] [] (asked st ms)

abbrev kept : Store → List Measure → Fetching
kept st ms = move netip outcome 2 (holding, wan) [] [] (held st ms)

abbrev told : Store → List Measure → Fetching
told st ms = move netip outcome 3 (reporting, wan) [] [] (kept st ms)

abbrev done : Store → List Measure → Fetching
done st ms = move netip outcome 4 (measuring, wan) [] [] (told st ms)

five-Steps :
    (st : Store) (ms : List Measure)
    → Steps netip outcome (wan ∷ []) (at_start st ms) 5 (done st ms)
unfolding move
five-Steps st ms =
    then_step 4 (told st ms) (done st ms)
      (then_step 3 (kept st ms) (told st ms)
        (then_step 2 (held st ms) (kept st ms)
          (then_step 1 (asked st ms) (held st ms)
            (then_step 0 (at_start st ms) (asked st ms) none_yet
              (take_job wan [] refl (omega arith)))
            (work 1 (asking, wan) [] [] refl))
          (work 2 (holding, wan) [] [] refl))
        (work 3 (reporting, wan) [] [] refl))
      (work 4 (measuring, wan) [] [] refl)

none_waits : (done store []).jobs ≡ []
unfolding move
none_waits = refl

none_busy : (done store []).active ≡ []
unfolding move
none_busy = refl

fetch_complete_example : All (λ id. Stored netip outcome id (done store []).results) (wan ∷ [])
fetch_complete_example =
    fetch_complete netip outcome (wan ∷ []) store [] 5 (done store []) (five-Steps store [])
      none_waits none_busy

fetch_ends_example :
    (length (done store []).active ≤ 4)
    × (5 ≤ 5 * length (wan ∷ []))
    × (((done store []).jobs ≡ []) × ((done store []).active ≡ [])
        ⊎ ((t : Fetching) × Step netip outcome (wan ∷ []) (done store []) t))
fetch_ends_example =
    fetch_ends netip outcome (wan ∷ []) store [] 5 (done store []) (five-Steps store [])
