-- ===== src/Source/Parse/Accepts.antt =====
-- Which outputs `ParseAddress` of internal/source/source.go accepts.
use mathlib.Core.Path.{subst}
use mathlib.Core.Option.{some_inj}
use mathlib.Core.List.{cons≢nil}
use hetdns.Prelude.{
  sym, ◌∙◌, ◌≡◌, ◌↔◌, ◌⊎◌, Bool, true, Option, none, some, arith, refl, ap, [], ◌∷◌, ◌≢◌,
  if◌then◌else◌,
}
use hetdns.Prelude.Text.{Text, text}
use hetdns.Prelude.Trim.{trim_blank, is_empty}
use hetdns.Addr.{Addr, Netip, v4, v6, no_addr, unmap}
use hetdns.Addr.Ranges.{is_4, is_6}
use hetdns.Source.Public.{is_public}
use hetdns.Source.Parse.{Family, ipv4, ipv6, address, failed, accept, parsed, parse_address}

-- An address of a family.
abbrev pub OfFamily : Family → Addr → Type 0
OfFamily ipv4 (v4 n) = Unit
OfFamily ipv6 (v6 n zone) = Unit
OfFamily _ _ = ⊥

accept_iff :
    (family : Family) (allow : Bool) (a b : Addr)
    → (accept family allow a ≡ address b)
      ↔ ((a ≡ b) × OfFamily family a × ((allow ≡ true) ⊎ (is_public a ≡ true)))
unfolding accept is_4 is_6
accept_iff ipv4 allow (v4 n) b = ground arith
accept_iff ipv6 allow (v4 n) b = ground arith
accept_iff ipv4 allow (v6 n zone) b = ground arith
accept_iff ipv6 allow (v6 n zone) b = ground arith
accept_iff ipv4 allow no_addr b = ground arith
accept_iff ipv6 allow no_addr b = ground arith

-- What is said of an accepted address.
abbrev pub Accepted : Family → Bool → Addr → Type 0
Accepted family allow b = OfFamily family b × ((allow ≡ true) ⊎ (is_public b ≡ true))

same_address : {r : Option Addr} {a b : Addr} → r ≡ some a → r ≡ some b → a ≡ b
same_address p q = some_inj.0 (sym p ∙ q)

parsed_iff :
    (family : Family) (allow : Bool) (r : Option Addr) (b : Addr)
    → (parsed family allow r ≡ address b)
      ↔ ((a : Addr) × (r ≡ some a) × (unmap a ≡ b) × Accepted family allow b)
unfolding parsed
parsed_iff family allow none b = ground arith
parsed_iff family allow (some a) b = (
  λ h.
      let (e, f, p) = (accept_iff family allow (unmap a) b).0 h in
      (a, refl, e, subst (Accepted family allow) e (f, p)),
  λ (x, q, e, k).
      let u = ap unmap (same_address refl q) ∙ e in
      let (f, p) = subst (Accepted family allow) (sym u) k in
      (accept_iff family allow (unmap a) b).1 (u, f, p),
)

-- `ParseAddress` yields an address exactly if its output, trimmed, is not empty and parses to it, up
-- to the form of an IPv4 address in IPv6, the address is of the family that is asked for, and it is
-- public unless others are allowed.
pub parse_address_iff :
    (netip : Netip) (output : Text) (family : Family) (allow : Bool) (b : Addr)
    → (parse_address netip output family allow ≡ address b) ↔ (
        (trim_blank output ≢ [])
        × ((a : Addr) × (netip.parse_addr (trim_blank output) ≡ some a)
            × (unmap a ≡ b)
            × Accepted family allow b))
unfolding parse_address
parse_address_iff netip output family allow b = nonempty (trim_blank output)
  where
    nonempty :
        (value : Text)
        → ((if is_empty value
              then failed (text "source returned an empty result")
              else parsed family allow (netip.parse_addr value))
            ≡ address b)
          ↔ ((value ≢ [])
              × ((a : Addr) × (netip.parse_addr value ≡ some a)
                  × (unmap a ≡ b)
                  × Accepted family allow b))
    nonempty [] = ground arith
    nonempty (c ∷ cs) =
        let k = parsed_iff family allow (netip.parse_addr (c ∷ cs)) b in
        (λ h. (λ e. cons≢nil e, k.0 h), λ h. k.1 h.1)
