-- ===== src/Source.antt =====
-- internal/source: the address that a source yields, and the guards of how it is fetched.
pub mod Public
pub mod Parse
pub mod Buffer
pub mod Dial
pub mod Fetch
pub mod Build
pub mod Family
use hetdns.Prelude.{
  ℕ, Bool, true, false, not, ◌&&◌, ◌||◌, Option, none, some, List, [], ◌∷◌, any, if◌then◌else◌,
}
use hetdns.Prelude.Text.{Text, text, text_eq}
use hetdns.Addr.{Addr, Netip, unmap}
use hetdns.Addr.Ranges.{is_4, is_6}
use hetdns.Source.Public.{is_public}
