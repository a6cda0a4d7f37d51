-- ===== src/Addr/Ranges.antt =====
-- The tests of Go's `net/netip` on the range of an address. They look through an IPv4 address that is
-- written as IPv6, as `netip.Addr`'s methods do.
use hetdns.Prelude.{
  ℕ, ◌-◌, ◌/◌, ◌%◌, ◌^◌, Bool, true, false, not, ◌&&◌, ◌||◌, [], ◌==◌, if◌then◌else◌,
}
use hetdns.Prelude.Text.{text_eq}
use hetdns.Addr.{Addr, v4, v6, no_addr, unmap, addr_eq}

-- `Is4` and `Is6`, the second true of an IPv4 address in the form of IPv6 too.
unfoldable pub is_4 : Addr → Bool
is_4 (v4 n) = true
is_4 _ = false

unfoldable pub is_6 : Addr → Bool
is_6 (v6 n zone) = true
is_6 _ = false

abbrev loopback : Addr → Bool
loopback (v4 n) = n / 2 ^ 24 == 127
loopback (v6 n zone) = n == 1
loopback no_addr = false

unfoldable pub is_loopback : Addr → Bool
is_loopback a = loopback (unmap a)

abbrev multicast : Addr → Bool
multicast (v4 n) = n / 2 ^ 28 == 0xe
multicast (v6 n zone) = n / 2 ^ 120 == 0xff
multicast no_addr = false

unfoldable pub is_multicast : Addr → Bool
is_multicast a = multicast (unmap a)

abbrev link_local_unicast : Addr → Bool
link_local_unicast (v4 n) = n / 2 ^ 16 == 0xa9fe
link_local_unicast (v6 n zone) = n / 2 ^ 118 == 0x3fa
link_local_unicast no_addr = false

unfoldable pub is_link_local_unicast : Addr → Bool
is_link_local_unicast a = link_local_unicast (unmap a)

-- In IPv6 the flags of the address, bits 119 to 116, do not count.
abbrev link_local_multicast : Addr → Bool
link_local_multicast (v4 n) = n / 2 ^ 8 == 0xe00000
link_local_multicast (v6 n zone) = n / 2 ^ 120 == 0xff && n / 2 ^ 112 % 16 == 2
link_local_multicast no_addr = false

unfoldable pub is_link_local_multicast : Addr → Bool
is_link_local_multicast a = link_local_multicast (unmap a)

abbrev private : Addr → Bool
private (v4 n) = n / 2 ^ 24 == 10 || n / 2 ^ 20 == 0xac1 || n / 2 ^ 16 == 0xc0a8
private (v6 n zone) = n / 2 ^ 121 == 0x7e
private no_addr = false

unfoldable pub is_private : Addr → Bool
is_private a = private (unmap a)

-- `==` with 0.0.0.0 or ::, which has no zone.
unfoldable pub is_unspecified : Addr → Bool
is_unspecified a = addr_eq a (v4 0) || addr_eq a (v6 0 [])

unfoldable pub is_global_unicast : Addr → Bool
is_global_unicast no_addr = false
is_global_unicast (v4 n) =
    if n == 0 || n == 0xffffffff
    then false
    else not (is_loopback (v4 n)) && not (is_multicast (v4 n)) && not (is_link_local_unicast (v4 n))
is_global_unicast (v6 n zone) =
    not (addr_eq (v6 n zone) (v6 0 []))
    && not (is_loopback (v6 n zone))
    && not (is_multicast (v6 n zone))
    && not (is_link_local_unicast (v6 n zone))

-- `netip.Prefix` of an IPv4 or an IPv6 address: the address and how many bits count.
pub data Prefix : Type 0 where
  prefix4 : ℕ → ℕ → Prefix
  prefix6 : ℕ → ℕ → Prefix

-- `Prefix.Contains`, which is false of an address with a zone.
unfoldable pub contains : Prefix → Addr → Bool
contains (prefix4 base bits) (v4 n) = n / 2 ^ (32 - bits) == base / 2 ^ (32 - bits)
contains (prefix6 base bits) (v6 n zone) =
    text_eq zone [] && n / 2 ^ (128 - bits) == base / 2 ^ (128 - bits)
contains _ _ = false
