-- ===== src/Config/Validate/Sound.antt =====
-- Which configurations `Validate` of internal/config/config.go accepts.
use hetdns.Prelude.{
  refl, ◌≤◌, ◌≡◌, ◌≢◌, ◌↔◌, ◌⊎◌, true, Option, none, some, List, [], ◌∷◌, All, arith, ◌++◌, not,
  length, ◌==◌, Bool, false,
}
use hetdns.Prelude.Text.{Text, text, text_eq_iff}
use hetdns.Prelude.Map.{Map, lookup}
use hetdns.Config
use hetdns.Config.{Config}
use hetdns.Config.Names.{valid_id, valid_domain, valid_owner}
use hetdns.Config.Validate.{
  Codec, or_else, check, validate_source, validate_record, want_family, validate_sources,
  source_error, validate_records, validate,
}
use hetdns.Config.Validate.Sources.{
  within_iff, is_empty_iff, some_exists, IsSource, validate_source_iff,
}

-- An accepted record, for itself.
abbrev pub IsRecord : Config.Record → Type 0
IsRecord r =
    (valid_domain r.zone ≡ true)
    × (valid_owner r.name ≡ true)
    × ((r.kind ≡ text "A") ⊎ (r.kind ≡ text "AAAA"))
    × (r.source ≢ [])
    × ((r.ttl ≡ 0) ⊎ ((60 ≤ r.ttl) × (r.ttl ≤ 2147483647)))

record_iff : (r : Config.Record) → (validate_record r ≡ none) ↔ IsRecord r
unfolding validate_record or_else check
record_iff r =
    ground (
      arith,
      is_empty_iff r.source,
      text_eq_iff r.kind (text "A"),
      text_eq_iff r.kind (text "AAAA"),
    )

-- The checks of one entry, then those of the rest.
entry_iff :
    {A B C : Type 0} {a b c : Option Text} (message : Text) (valid : Bool)
    → (b ≡ none) ↔ B
    → (a ≡ none) ↔ A
    → (c ≡ none) ↔ C
    → (or_else (check (not valid) message) (or_else a (or_else b c)) ≡ none)
      ↔ (((valid ≡ true) × A × B) × C)
unfolding or_else check
entry_iff {a = none} {b = none} message true f g h =
    (λ e. ((refl, g.0 refl, f.0 refl), h.0 e), λ k. h.1 k.1)
entry_iff {a = none} {b = some m} message true f g h =
    (λ e. absurd (ground (arith, e)), λ k. absurd (ground (arith, f.1 k.0.2)))
entry_iff {a = some m} message true f g h =
    (λ e. absurd (ground (arith, e)), λ k. absurd (ground (arith, g.1 k.0.1)))
entry_iff message false f g h =
    (λ e. absurd (ground (arith, e)), λ k. absurd (ground (arith, k.0.0)))

module _ (codec : Codec) where
  abbrev pub SourceEntry : Text × Config.Source → Type 0
  SourceEntry (id, s) = (valid_id id ≡ true) × IsSource codec s

  sources_iff :
      (sources : Map Config.Source)
      → (validate_sources codec sources ≡ none) ↔ All SourceEntry sources
  unfolding validate_sources or_else check
  sources_iff [] = ground arith
  sources_iff ((id, s) ∷ rest) = ground (
    arith,
    within_iff (text "sources." ++ (id ++ text ": ")) (validate_source codec s),
    validate_source_iff codec s,
    sources_iff rest,
  )

  -- The record's source exists and has the family that the record's type needs.
  abbrev pub HasSource : Map Config.Source → Config.Record → Type 0
  HasSource sources r =
      (s : Config.Source) × (lookup r.source sources ≡ some s) × (s.family ≡ want_family r.kind)

  fits_iff :
      (id : Text) (r : Config.Record) (s : Config.Source)
      → (source_error codec id r (some s) ≡ none) ↔ (s.family ≡ want_family r.kind)
  unfolding source_error check
  fits_iff id r s = ground (arith, text_eq_iff s.family (want_family r.kind))

  found_iff :
      (id : Text) (r : Config.Record) (o : Option Config.Source)
      → (source_error codec id r o ≡ none)
        ↔ ((s : Config.Source) × (o ≡ some s) × (s.family ≡ want_family r.kind))
  unfolding source_error
  found_iff id r none = ground arith
  found_iff id r (some s) =
      let exists = some_exists (λ x. x.family ≡ want_family r.kind) s in
      let fits = fits_iff id r s in (λ h. exists.0 (fits.0 h), λ h. fits.1 (exists.1 h))

  abbrev pub RecordEntry : Map Config.Source → Text × Config.Record → Type 0
  RecordEntry sources (id, r) = (valid_id id ≡ true) × IsRecord r × HasSource sources r

  records_iff :
      (sources : Map Config.Source) (records : Map Config.Record)
      → (validate_records codec sources records ≡ none) ↔ All (RecordEntry sources) records
  unfolding validate_records or_else check
  records_iff sources [] = ground arith
  records_iff sources ((id, r) ∷ rest) =
      entry_iff (text "records." ++ (id ++ text ": invalid record ID")) (valid_id id)
        (found_iff id r (lookup r.source sources))
        (ground (
          arith,
          within_iff (text "records." ++ (id ++ text ": ")) (validate_record r),
          record_iff r,
        ))
        (records_iff sources rest)

some_entry : {A : Type 0} (m : List A) → ((length m == 0) ≡ false) ↔ (m ≢ [])
some_entry [] = ground arith
some_entry (e ∷ es) = ground arith

-- `Validate` accepts exactly the configurations that have a source and a record, whose IDs match the
-- pattern, whose sources and records are each acceptable, and each of whose records has a source of
-- the family that its type needs: ipv6 for AAAA and ipv4 for A.
pub validate_iff :
    (codec : Codec) (cfg : Config)
    → (validate codec cfg ≡ none) ↔ (
        (cfg.sources ≢ [])
        × (cfg.records ≢ [])
        × All (SourceEntry codec) cfg.sources
        × All (RecordEntry codec cfg.sources) cfg.records)
unfolding validate or_else check
validate_iff codec cfg = ground (
  arith,
  some_entry cfg.sources,
  some_entry cfg.records,
  sources_iff codec cfg.sources,
  records_iff codec cfg.sources cfg.records,
)
