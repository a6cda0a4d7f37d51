-- ===== src/Addr.antt =====
-- Go's `net/netip` as far as the program uses it: addresses as numbers, `Unmap`, equality, and the
-- tests by which internal/source decides what is public. Parsing and printing an address are a
-- parameter of what uses them.
pub mod Ranges
use hetdns.Prelude.{
  ℕ, ◌/◌, ◌%◌, ◌^◌, Bool, true, false, ◌≡◌, ◌↔◌, arith, ◌&&◌, Option, ◌==◌, if◌then◌else◌,
}
use hetdns.Prelude.Text.{Text, text_eq, text_eq_iff}

pub data Addr : Type 0 where
  -- the 32 bits of an IPv4 address
  v4 : ℕ → Addr
  -- the 128 bits of an IPv6 address, and its zone
  v6 : ℕ → Text → Addr
  -- Go's zero `netip.Addr`, which is no address
  no_addr : Addr

-- `netip.ParseAddr` (`none` is its error) and `Addr.String`.
pub record Netip : Type 0 where
  pub parse_addr : Text → Option Addr
  pub show_addr : Addr → Text

-- `Unmap`: an IPv4 address that is written inside ::ffff:0:0/96 becomes that IPv4 address.
unfoldable pub unmap : Addr → Addr
unmap (v4 n) = v4 n
unmap no_addr = no_addr
unmap (v6 n zone) = if n / 2 ^ 32 == 0xffff then v4 (n % 2 ^ 32) else v6 n zone

-- `==` of two addresses.
unfoldable pub addr_eq : Addr → Addr → Bool
addr_eq (v4 m) (v4 n) = m == n
addr_eq (v6 m y) (v6 n z) = m == n && text_eq y z
addr_eq no_addr no_addr = true
addr_eq _ _ = false

pub addr_eq_iff : (a b : Addr) → (addr_eq a b ≡ true) ↔ (a ≡ b)
unfolding addr_eq
addr_eq_iff (v4 m) (v4 n) = ground arith
addr_eq_iff (v4 m) (v6 n z) = ground arith
addr_eq_iff (v6 m y) (v4 n) = ground arith
addr_eq_iff no_addr no_addr = ground arith
addr_eq_iff no_addr (v4 n) = ground arith
addr_eq_iff no_addr (v6 n z) = ground arith
addr_eq_iff (v4 n) no_addr = ground arith
addr_eq_iff (v6 n z) no_addr = ground arith
addr_eq_iff (v6 m y) (v6 n z) = ground (arith, text_eq_iff y z)
