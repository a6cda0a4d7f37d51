-- ===== src/Source/Family.antt =====
-- The addresses that a valid configuration lets into a record, by internal/config and internal/source.
use mathlib.Core.Path.{subst}
use mathlib.Core.Option.{some_inj}
use hetdns.Prelude.{
  ◌≡◌, ◌⊎◌, inl, inr, refl, ap, sym, ◌∙◌, Bool, true, Option, none, some, List, [], ◌∷◌, All, arith,
  Bool-cases, if◌then◌else◌,
}
use hetdns.Prelude.Text.{Text, text, text_eq}
use hetdns.Prelude.Map.{Map, lookup}
use hetdns.Addr.{Addr, Netip}
use hetdns.Config
use hetdns.Config.{Config}
use hetdns.Config.Validate.{Codec, validate, want_family}
use hetdns.Config.Validate.Sound.{RecordEntry, HasSource, validate_iff}
use hetdns.Source.Public.{is_public}
use hetdns.Source.Parse.{Family, ipv4, ipv6, family_of, address, parse_address}
use hetdns.Source.Parse.Accepts.{OfFamily, parse_address_iff}
use hetdns.Source.Buffer.{all_bytes}
use hetdns.Source.Fetch.{
  invocation, Web, CommandSource, Invocation, Ran, new_http, command_of, new_command, fetch_http,
  fetch_command,
}
use hetdns.Source.Fetch.Whole.{fetch_http-Whole, fetch_command-Whole}

-- The family of a record's type.
abbrev pub family_of_kind : Text → Family
family_of_kind kind = if text_eq kind (text "AAAA") then ipv6 else ipv4

family_of-want_family : (kind : Text) → family_of (want_family kind) ≡ family_of_kind kind
unfolding family_of text_eq
family_of-want_family kind = elim (Bool-cases (text_eq kind (text "AAAA"))) [
  | inl same ↦ rw same refl
  | inr other ↦ rw other refl
]

-- An address that may go into a record: of the family of its type, and public unless its source
-- allows others.
abbrev pub MayHold : Config.Record → Config.Source → Addr → Type 0
MayHold r s a =
    OfFamily (family_of_kind r.kind) a × ((s.allow_non_public ≡ true) ⊎ (is_public a ≡ true))

-- A fetch of a source yields an address.
pub data Yields {W : Type 0} (netip : Netip) (web : Web W) (execute : Invocation → W → Ran × W)
    (user_agent id : Text) (s : Config.Source) (w : W) (a : Addr) : Type 0 where
  by_http :
      (fetch_http netip web (new_http id s user_agent) w).0 ≡ address a
      → Yields netip web execute user_agent id s w a
  by_command :
      (c : CommandSource)
      → new_command id s ≡ some c
      → (fetch_command netip execute c w).0 ≡ address a
      → Yields netip web execute user_agent id s w a

entry_at :
    (codec : Codec) (sources : Map Config.Source) (records : Map Config.Record) (id : Text)
    (r : Config.Record)
    → All (RecordEntry codec sources) records
    → lookup id records ≡ some r
    → HasSource codec sources r
unfolding lookup
entry_at codec sources [] id r h e = absurd (ground (arith, e))
entry_at codec sources ((k, v) ∷ rest) id r h e =
    let read : Bool → Option Config.Record = λ b. if b then some v else lookup id rest in
    elim (Bool-cases (text_eq k id)) [
      | inl same ↦ subst (HasSource codec sources) (some_inj.0 (sym (ap read same) ∙ e)) h.0.2
      | inr other ↦ entry_at codec sources rest id r h.1 (sym (ap read other) ∙ e)
    ]

own_source :
    (codec : Codec) (sources : Map Config.Source) (r : Config.Record) (s : Config.Source)
    → HasSource codec sources r
    → lookup r.source sources ≡ some s
    → s.family ≡ want_family r.kind
own_source codec sources r s (t, e, f) q = ap (λ x. x.family) (some_inj.0 (sym q ∙ e)) ∙ f

command_keeps :
    (argv : List Text) (id : Text) (s : Config.Source) (c : CommandSource)
    → command_of argv id s ≡ some c
    → (family_of s.family ≡ c.family) × (s.allow_non_public ≡ c.allow_non_public)
command_keeps [] id s c e = absurd (ground (arith, e))
command_keeps (arg ∷ args) id s c e =
    let same = some_inj.0 e in (ap (λ x. x.family) same, ap (λ x. x.allow_non_public) same)

-- What a parsed address is, for a family and an allowance of its source.
Holds : Netip → Config.Source → Addr → Type 0
Holds netip s a =
    OfFamily (family_of s.family) a × ((s.allow_non_public ≡ true) ⊎ (is_public a ≡ true))

parsed-Holds :
    (netip : Netip) (s : Config.Source) (output : Text) (a : Addr)
    → parse_address netip output (family_of s.family) s.allow_non_public ≡ address a
    → Holds netip s a
unfolding Holds
parsed-Holds netip s output a h =
    let (some_output, found) =
      (parse_address_iff netip output (family_of s.family) s.allow_non_public a).0 h in
    let (x, e, u, accepted) = found in accepted

Yields-Holds :
    {W : Type 0} (netip : Netip) (web : Web W) (execute : Invocation → W → Ran × W)
    (user_agent id : Text) (s : Config.Source) (w : W) (a : Addr)
    → Yields netip web execute user_agent id s w a
    → Holds netip s a
unfolding new_http new_command
Yields-Holds netip web execute user_agent id s w a (by_http h) =
    let (answer, sent, good) = fetch_http-Whole netip web (new_http id s user_agent) a w h in
    let (low, high, whole) = good in
    let (body, e, le, parsed) = whole in parsed-Holds netip s body a parsed
Yields-Holds netip web execute user_agent id s w a (by_command c e h) =
    let (exit, out, err, parsed) = fetch_command-Whole netip execute c a w h in
    let (family, allow) = command_keeps s.argv id s c e in
    parsed-Holds netip s (all_bytes (execute (invocation netip execute c) w).0.stdout) a
      (rw (family, allow) parsed)

-- With a valid configuration an address that the source of a record yields is of the family of the
-- record's type, IPv6 for AAAA and IPv4 for A, and public unless the source allows others.
pub valid_family :
    {W : Type 0} (codec : Codec) (cfg : Config) (netip : Netip) (web : Web W)
    (execute : Invocation → W → Ran × W) (user_agent id : Text) (r : Config.Record)
    (s : Config.Source) (w : W) (a : Addr)
    → validate codec cfg ≡ none
    → lookup id cfg.records ≡ some r
    → lookup r.source cfg.sources ≡ some s
    → Yields netip web execute user_agent r.source s w a
    → MayHold r s a
unfolding Holds
valid_family codec cfg netip web execute user_agent id r s w a valid e q y =
    let (some_source, some_record, sources, records) = (validate_iff codec cfg).0 valid in
    let fits =
      own_source codec cfg.sources r s (entry_at codec cfg.sources cfg.records id r records e) q in
    let (family, allowed) = Yields-Holds netip web execute user_agent r.source s w a y in
    (subst (λ f. OfFamily f a) (ap family_of fits ∙ family_of-want_family r.kind) family, allowed)
