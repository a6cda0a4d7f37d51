-- ===== src/Status/Ops.antt =====
-- The calls that the rest of the program makes on the store, as data, and runs of them.
use hetdns.Prelude.{◌≡◌, refl, ◌++◌, true, false, ℕ, Bool, Option, List, [], ◌∷◌}
use hetdns.Prelude.Int.{ℤ}
use hetdns.Prelude.Text.{Text}
use hetdns.Status.{
  Store, Report, set_ready, cycle_started, cycle_finished, set_next_cycle, source_result,
  record_checking, record_result,
}

pub data Op : Type 0 where
  ready : Bool → Op
  started : ℕ → Op
  finished : ℕ → Text → Op
  next_cycle : ℕ → Op
  source : ℕ → Text → Text → ℤ → Option Text → Op
  checking : Text → Text → Op
  result : ℕ → Report → Op

abbrev pub apply : Op → Store → Store
apply (ready b) s = set_ready b s
apply (started now) s = (cycle_started now s).0
apply (finished now outcome) s = cycle_finished now outcome s
apply (next_cycle next) s = set_next_cycle next s
apply (source now id address duration err) s = source_result now id address duration err s
apply (checking id desired) s = record_checking id desired s
apply (result now r) s = record_result now r s

unfoldable pub run : List Op → Store → Store
run [] s = s
run (op ∷ ops) s = run ops (apply op s)

-- A call that is none of `SetReady`.
abbrev pub is_other : Op → Bool
is_other (ready b) = false
is_other op = true

pub run-append : (ops more : List Op) (s : Store) → run (ops ++ more) s ≡ run more (run ops s)
unfolding run
run-append [] more s = refl
run-append (op ∷ ops) more s = run-append ops more (apply op s)

-- A property that every call keeps holds after any calls.
module _ {P : Store → Type 0} (step : (op : Op) (s : Store) → P s → P (apply op s)) where
  pub run_induction : (ops : List Op) (s : Store) → P s → P (run ops s)
  unfolding run
  run_induction [] s h = h
  run_induction (op ∷ ops) s h = run_induction ops (apply op s) (step op s h)
