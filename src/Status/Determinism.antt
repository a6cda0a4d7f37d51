-- ===== src/Status/Determinism.antt =====
-- `New` of internal/status/store.go walks Go maps, whose order is random: what it builds shows the
-- same to every reader, whatever the order.
use mathlib.Core.Path.{fun_ext, subst, ap₂}
use mathlib.Core.Logic.{∥∥₁_elim}
use mathlib.Core.List.{Perm, Permᴰ, reverse, Mem, Nodup, Nodup-cons, mem-cons_self}
use mathlib.Core.List.Perm
use mathlib.Core.HLevel.{hedberg}
use native.Mathlib.Decide.{ℕ_discrete}
use hetdns.Prelude.{
  ℕ, ◌≡◌, ◌≢◌, refl, ap, ◌∙◌, sym, any, ◌||◌, false, Option, List, [], ◌∷◌, arith, map,
}
use hetdns.Prelude.Text.{Text, text_eq_iff}
use hetdns.Prelude.Sort.{sort_texts_of_perm}
use hetdns.Prelude.Map.{Map, or_zero, lookup, insert, keys, lookup-insert}
use hetdns.BuildInfo.{Info}
use hetdns.Config.{Config}
use hetdns.Status.{Store, new_store, load, initial_source, initial_record, Snapshot}
use hetdns.Status.{Source, Record, zero_source, zero_record}
use hetdns.Status.Shown.{
  snapshot, overall_text, source_degraded, source_pending, record_degraded, record_pending,
}
use hetdns.Status.Uptime.{uptime_text}
use hetdns.Status.Loop.{loop_lem}

-- The same entry at every key.
abbrev SameMap : {V : Type 0} → Map V → Map V → Type 0
SameMap m n = (id : Text) → lookup id m ≡ lookup id n

module _ {V : Type 0} where
  SameMap-insert :
      (k : Text) (v : V) (m n : Map V) → SameMap m n → SameMap (insert k v m) (insert k v n)
  SameMap-insert k v m n h id = simp (lookup-insert, h id)

  insert_comm :
      (k j : Text) (v w : V) (m n : Map V)
      → k ≢ j
      → SameMap m n
      → SameMap (insert k v (insert j w m)) (insert j w (insert k v n))
  insert_comm k j v w m n ne h id =
      simp lookup-insert (ground (arith, h id, text_eq_iff k id, text_eq_iff j id))

module _ {C V : Type 0} (initial : Text → C → V) where
  abbrev put : Text × C → Map V → Map V
  put e m = insert e.0 (initial e.0 e.1) m

  SameMap-load_same :
      (cfg : Map C) (m n : Map V) → SameMap m n → SameMap (load initial cfg m) (load initial cfg n)
  unfolding load
  SameMap-load_same [] m n h = h
  SameMap-load_same ((k, spec) ∷ rest) m n h =
      SameMap-load_same rest (put (k, spec) m) (put (k, spec) n)
        (SameMap-insert k (initial k spec) m n h)

  SameMap-load :
      {cfg other : Map C}
      → Permᴰ cfg other
      → Nodup (keys cfg)
      → (m n : Map V) → SameMap m n
      → SameMap (load initial cfg m) (load initial other n)
  unfolding load
  SameMap-load Permᴰ.nil d m n h = h
  SameMap-load (Permᴰ.cons {a} {b} e p) d m n h =
      SameMap-load p (Nodup-cons.0 d).1 (put a m) (put b n)
        (λ id. SameMap-insert a.0 (initial a.0 a.1) m n h id ∙ ap (λ x. lookup id (put x n)) e)
  SameMap-load (Permᴰ.swap {a} {b} {a'} {b'} {l} e f) d m n h =
      SameMap-load_same l (put b (put a m)) (put b' (put a' n)) (λ id.
        insert_comm b.0 a.0 (initial b.0 b.1) (initial a.0 a.1) m n
          (λ p. (Nodup-cons.0 d).0 (subst (λ k. Mem k (b.0 ∷ keys l)) p mem-cons_self)) h id
        ∙ ap₂ (λ x y. lookup id (put x (put y n))) e f)
  SameMap-load (Permᴰ.trans p q) d m n h =
      let d' = Perm.nodup (Perm.map (λ e. e.0) ∣ p ∣₁) d in
      λ id. SameMap-load p d m m (λ j. refl) id ∙ SameMap-load q d' m n h id

Snapshot-discrete : Discrete Snapshot
Snapshot-discrete = hlevel ℕ_discrete

-- A snapshot as a function of what it reads at each key.
module _ (later : ℕ) (s : Store) where
  abbrev shape : (Text → Option Source) → (Text → Option Record) → List Text → List Text → Snapshot
  shape sources records source_order record_order =
      let shown_sources = map (λ id. or_zero zero_source (sources id)) source_order in
      let shown_records = map (λ id. or_zero zero_record (records id)) record_order in
      record {
        build = s.build;
        start_time = s.started;
        uptime = uptime_text later s.started;
        is_ready = s.is_ready;
        scheduler = s.scheduler;
        sources = shown_sources;
        records = shown_records;
        events = reverse s.events;
        overall =
            overall_text
              (any record_degraded shown_records || (any source_degraded shown_sources || false))
              (any record_pending shown_records || (any source_pending shown_sources || false));
      }

  snapshot_lem :
      snapshot later s
      ≡ shape (λ id. lookup id s.sources) (λ id. lookup id s.records) s.source_order s.record_order
  unfolding snapshot
  snapshot_lem = simp loop_lem

snapshot_same :
    (now later : ℕ) (build : Info) (limit : ℕ) {cfg other : Config}
    → Permᴰ cfg.sources other.sources
    → Permᴰ cfg.records other.records
    → Nodup (keys cfg.sources)
    → Nodup (keys cfg.records)
    → snapshot later (new_store now build cfg limit)
      ≡ snapshot later (new_store now build other limit)
unfolding new_store
snapshot_same now later build limit {cfg} {other} p q d e =
    let a = fun_ext (SameMap-load initial_source p d [] [] (λ j. refl)) in
    let b = fun_ext (SameMap-load initial_record q e [] [] (λ j. refl)) in
    let c = sort_texts_of_perm (Perm.map (λ x. x.0) ∣ p ∣₁) in
    let f = sort_texts_of_perm (Perm.map (λ x. x.0) ∣ q ∣₁) in
    let s = new_store now build cfg limit in
    snapshot_lem later s
    ∙ ((λ i. shape later s (a i) (b i) (c i) (f i))
        ∙ sym (snapshot_lem later (new_store now build other limit)))

-- However Go walks the two maps of the configuration, the new store shows the same snapshot.
pub new_store_order :
    (now later : ℕ) (build : Info) (limit : ℕ) (cfg other : Config)
    → Perm cfg.sources other.sources
    → Perm cfg.records other.records
    → Nodup (keys cfg.sources)
    → Nodup (keys cfg.records)
    → snapshot later (new_store now build cfg limit)
      ≡ snapshot later (new_store now build other limit)
new_store_order now later build limit cfg other p q d e =
    ∥∥₁_elim p (hedberg Snapshot-discrete _ _) λ pd.
      ∥∥₁_elim q (hedberg Snapshot-discrete _ _) λ qd. snapshot_same now later build limit pd qd d e
