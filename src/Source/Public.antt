-- ===== src/Source/Public.antt =====
-- `isPublic` of internal/source/source.go.
use hetdns.Prelude.{
  ℕ, ◌+◌, ◌*◌, ◌^◌, ◌/◌, ◌<◌, ◌≡◌, ◌↔◌, ◌⊎◌, Bool, true, false, not, ◌||◌, List, [], ◌∷◌, any, All,
  arith, if◌then◌else◌, ◌≢◌, ◌-◌,
}
use hetdns.Prelude.Text.{Text, text_eq}
use hetdns.Addr.{no_addr, Addr, v4, v6, unmap, addr_eq}
use hetdns.Addr.Ranges.{
  Prefix, prefix4, prefix6, contains, is_global_unicast, is_private, is_loopback,
  is_link_local_unicast, is_link_local_multicast, is_multicast, is_unspecified,
}

-- `a.b.c.d`.
abbrev quad : ℕ → ℕ → ℕ → ℕ → ℕ
quad a b c d = ((a * 256 + b) * 256 + c) * 256 + d

-- `nonPublicSpecialUse`.
abbrev non_public_special_use : List Prefix
non_public_special_use =
    prefix4 (quad 0 0 0 0) 8
    ∷ prefix4 (quad 100 64 0 0) 10
    ∷ prefix4 (quad 192 0 0 0) 24
    ∷ prefix4 (quad 192 0 2 0) 24
    ∷ prefix4 (quad 192 88 99 0) 24
    ∷ prefix4 (quad 198 18 0 0) 15
    ∷ prefix4 (quad 198 51 100 0) 24
    ∷ prefix4 (quad 203 0 113 0) 24
    ∷ prefix4 (quad 240 0 0 0) 4
    ∷ prefix6 (0x100 * 2 ^ 112) 64
    ∷ prefix6 (0x20010db8 * 2 ^ 96) 32
    ∷ []

-- `isPublic`.
unfoldable pub is_public : Addr → Bool
is_public address =
    if not (is_global_unicast address)
      || is_private address
      || is_loopback address
      || is_link_local_unicast address
      || is_link_local_multicast address
      || is_multicast address
      || is_unspecified address
    then false
    else not (any (λ prefix. contains prefix address) non_public_special_use)

-- An address block by its first and its last address.
abbrev pub Outside : ℕ → ℕ × ℕ → Type 0
Outside n (first, last) = (n < first) ⊎ (last < n)

-- The blocks of IPv4 that no host on the Internet has its address in.
abbrev pub special_blocks : List (ℕ × ℕ)
special_blocks =
    (quad 0 0 0 0, quad 0 255 255 255)
    ∷ (quad 10 0 0 0, quad 10 255 255 255)
    ∷ (quad 100 64 0 0, quad 100 127 255 255)
    ∷ (quad 127 0 0 0, quad 127 255 255 255)
    ∷ (quad 169 254 0 0, quad 169 254 255 255)
    ∷ (quad 172 16 0 0, quad 172 31 255 255)
    ∷ (quad 192 0 0 0, quad 192 0 0 255)
    ∷ (quad 192 0 2 0, quad 192 0 2 255)
    ∷ (quad 192 88 99 0, quad 192 88 99 255)
    ∷ (quad 192 168 0 0, quad 192 168 255 255)
    ∷ (quad 198 18 0 0, quad 198 19 255 255)
    ∷ (quad 198 51 100 0, quad 198 51 100 255)
    ∷ (quad 203 0 113 0, quad 203 0 113 255)
    ∷ (quad 224 0 0 0, quad 255 255 255 255)
    ∷ []

-- An IPv4 address counts as public exactly if it lies outside all special blocks.
pub public_iff : (n : ℕ) → n < 2 ^ 32 → (is_public (v4 n) ≡ true) ↔ All (Outside n) special_blocks
unfolding is_public is_global_unicast is_private is_loopback is_link_local_unicast
    is_link_local_multicast is_multicast is_unspecified contains unmap addr_eq
public_iff n h = ground arith

-- An IPv6 block, from its upper 16 bits and so on down.
abbrev pub special_blocks_6 : List (ℕ × ℕ)
special_blocks_6 =
    (0, 1)
    ∷ (0x100 * 2 ^ 112, 0x100 * 2 ^ 112 + (2 ^ 64 - 1))
    ∷ (0x20010db8 * 2 ^ 96, 0x20010db8 * 2 ^ 96 + (2 ^ 96 - 1))
    ∷ (0xfc * 2 ^ 120, 0xfe * 2 ^ 120 - 1)
    ∷ (0xfe80 * 2 ^ 112, 0xfec0 * 2 ^ 112 - 1)
    ∷ (0xff * 2 ^ 120, 2 ^ 128 - 1)
    ∷ []

-- An IPv6 address with no zone, other than an IPv4 address in the form of IPv6, counts as public
-- exactly if it lies outside the special blocks of IPv6.
pub public_6_iff :
    (n : ℕ)
    → n < 2 ^ 128
    → n / 2 ^ 32 ≢ 0xffff
    → (is_public (v6 n []) ≡ true) ↔ All (Outside n) special_blocks_6
unfolding is_public is_global_unicast is_private is_loopback is_link_local_unicast
    is_link_local_multicast is_multicast is_unspecified contains unmap addr_eq text_eq
public_6_iff n h k = ground arith

-- An address of 32 or 128 bits, with no zone and not an IPv4 address in the form of IPv6.
abbrev pub IsPlain : Addr → Type 0
IsPlain (v4 n) = n < 2 ^ 32
IsPlain (v6 n []) = (n < 2 ^ 128) × (n / 2 ^ 32 ≢ 0xffff)
IsPlain (v6 n (c ∷ zone)) = ⊥
IsPlain no_addr = ⊥

-- It lies outside the special blocks of its family.
abbrev pub OutsideSpecial : Addr → Type 0
OutsideSpecial (v4 n) = All (Outside n) special_blocks
OutsideSpecial (v6 n zone) = All (Outside n) special_blocks_6
OutsideSpecial no_addr = ⊥

-- An IPv4 address, or an IPv6 address with no zone that is no IPv4 address in the form of IPv6,
-- counts as public exactly if it lies outside all special blocks of its family.
pub is_public_iff : (a : Addr) → IsPlain a → (is_public a ≡ true) ↔ OutsideSpecial a
is_public_iff (v4 n) h = public_iff n h
is_public_iff (v6 n []) (h, k) = public_6_iff n h k
is_public_iff (v6 n (c ∷ zone)) h = absurd h
is_public_iff no_addr h = absurd h

-- A documentation address with a zone counts as public, since a prefix contains no address with a
-- zone.
pub zone_hides :
    (n c : ℕ) (zone : Text) → n / 2 ^ 96 ≡ 0x20010db8 → is_public (v6 n (c ∷ zone)) ≡ true
unfolding is_public is_global_unicast is_private is_loopback is_link_local_unicast
    is_link_local_multicast is_multicast is_unspecified contains unmap addr_eq text_eq
zone_hides n c zone h = ground arith
