-- ===== src/Reconcile/Calls/Whole.antt =====
-- Which calls of the status store a whole cycle of internal/reconcile/reconciler.go makes.
use hetdns.Prelude.{◌≡◌, List, [], ◌∷◌, ◌++◌}
use hetdns.Prelude.Text.{Text}
use hetdns.Prelude.Map.{Map}
use hetdns.Config.{Config}
use hetdns.Status.Ops
use hetdns.Status.Ops.{Op, checking, result}
use hetdns.Reconcile.State.{SourceResult, Cycle, Env}
use hetdns.Reconcile.Gate.{spec_of, value_of}
use hetdns.Reconcile.{process_record}
use hetdns.Reconcile.Calls.{RecordCalls}

module _ {W : Type 0} (env : Env W) (cfg : Config) (results : Map SourceResult) where
  -- The calls for some records, one record after the other: those of each, from the state that the
  -- ones before it leave.
  abbrev pub AllCalls : List Text → Cycle W → List Op → Type 0
  AllCalls [] s ops = ops ≡ []
  AllCalls (id ∷ ids) s ops =
      (own : List Op) × (others : List Op) × (ops ≡ own ++ others)
      × RecordCalls env id (spec_of env cfg results id s) (value_of env cfg results id s).address
          (value_of env cfg results id s).err s own
      × AllCalls ids (process_record env cfg results id s).1 others
