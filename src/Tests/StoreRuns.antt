-- ===== src/Tests/StoreRuns.antt =====
-- internal/status/store.go at concrete calls.
use hetdns.Prelude.{ℕ, ◌≡◌, ◌≤◌, ◌↔◌, refl, max, none, some, List, [], ◌∷◌, map, length, true, All}
use mathlib.Core.List.Perm
use hetdns.Prelude.Int.{pos}
use hetdns.Prelude.Text.{text}
use hetdns.Prelude.Sort.{sort_texts}
use hetdns.Prelude.Map.{keys}
use hetdns.Config.{Config}
use hetdns.Status.{
  source_result, add_event, record_result, cycle_started, Store, new_store, snapshot,
}
use hetdns.Status.Ops.{Op, started, source, result, run}
use hetdns.Status.Events.{newest, all_emitted, history_newest}
use hetdns.Status.Overall.{
  IsHealthySource, IsHealthyRecord, IsSoundSource, IsSoundRecord, overall_iff,
}
use hetdns.Status.Views.{source_id, record_id, snapshot_lists_config}
use hetdns.Status.Determinism.{new_store_order}
use hetdns.Tests.Data.{source_keys, record_keys, build, cfg, store, record_spec}

-- Three failed sources and a change, of which a history of two keeps the last two.
abbrev failing : ℕ → Op
failing t = source t (text "wan") [] (pos 1) (some (text "timeout"))

abbrev ops : List Op
ops =
    failing 2
    ∷ failing 3
    ∷ started 4
    ∷ result 5 (record {
      id = text "a";
      state = text "updated";
      desired = text "192.0.2.1";
      observed = [];
      duration = pos 1;
      changed = true;
      next_retry = 0;
      err = none;
    })
    ∷ failing 6
    ∷ []

abbrev after : Store
after = run ops store

history_newest_example :
    (after.events ≡ newest (max 2 1) (all_emitted ops)) × (length after.events ≤ max 2 1)
history_newest_example = history_newest 1 build cfg 2 ops

-- The history has two events, the change and the last failure.
history_test : length after.events ≡ 2
unfolding run new_store source_result add_event record_result cycle_started
history_test = refl

overall_iff_example :
    (((snapshot 9 after).overall ≡ text "healthy") ↔ (
      All IsHealthySource (snapshot 9 after).sources
      × All IsHealthyRecord (snapshot 9 after).records))
    × (((snapshot 9 after).overall ≡ text "degraded") ↔ (
        ¬ (
          All IsSoundSource (snapshot 9 after).sources
          × All IsSoundRecord (snapshot 9 after).records)))
overall_iff_example = overall_iff 9 after

snapshot_lists_config_example :
    (map source_id (snapshot 9 after).sources ≡ sort_texts (keys cfg.sources))
    × (map record_id (snapshot 9 after).records ≡ sort_texts (keys cfg.records))
snapshot_lists_config_example = snapshot_lists_config 1 build cfg 2 ops 9

-- The records of the configuration in the other order.
abbrev other : Config
other = record cfg {
  records =
      (text "a", record_spec (text "good.example"))
      ∷ (text "b", record_spec (text "bad.example"))
      ∷ [];
}

new_store_order_example :
    snapshot 9 (new_store 1 build cfg 2) ≡ snapshot 9 (new_store 1 build other 2)
new_store_order_example =
    new_store_order 1 9 build 2 cfg other Perm.rfl (Perm.swap _ _ _) source_keys record_keys
