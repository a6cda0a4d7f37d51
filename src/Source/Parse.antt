-- ===== src/Source/Parse.antt =====
-- `ParseAddress` of internal/source/source.go.
pub mod Accepts
use hetdns.Prelude.{
  ℕ, Bool, true, false, not, ◌&&◌, ◌||◌, ◌++◌, Option, none, some, List, [], ◌∷◌, if◌then◌else◌,
}
use hetdns.Prelude.Text.{Text, text, text_eq}
use hetdns.Prelude.Trim.{trim_blank, is_empty}
use hetdns.Addr.{Addr, Netip, unmap}
use hetdns.Addr.Ranges.{is_4, is_6}
use hetdns.Source.Public.{is_public}

-- `Family`.
pub data Family : Type 0 where
  ipv4 ipv6 : Family

abbrev pub family_text : Family → Text
family_text ipv4 = text "ipv4"
family_text ipv6 = text "ipv6"

-- `familyOf`.
unfoldable pub family_of : Text → Family
family_of value = if text_eq value (text "ipv6") then ipv6 else ipv4

-- An address or the message of an error.
pub data Fetched : Type 0 where
  address : Addr → Fetched
  failed : Text → Fetched

abbrev wrong_family : Family → Addr → Bool
wrong_family ipv4 a = not (is_4 a)
wrong_family ipv6 a = not (is_6 a)

accept : Family → Bool → Addr → Fetched
accept family allow_non_public a =
    if wrong_family family a
    then failed (
        text "source returned the wrong address family (wanted "
        ++ (family_text family ++ text ")"))
    else if not allow_non_public && not (is_public a)
    then failed (text "source returned a non-public address")
    else address a

parsed : Family → Bool → Option Addr → Fetched
unfolding accept
parsed family allow_non_public none = failed (text "source result is not exactly one IP address")
parsed family allow_non_public (some a) = accept family allow_non_public (unmap a)

-- `ParseAddress`.
unfoldable pub parse_address : Netip → Text → Family → Bool → Fetched
unfolding parsed
parse_address netip output family allow_non_public =
    let value = trim_blank output in
    if is_empty value
    then failed (text "source returned an empty result")
    else parsed family allow_non_public (netip.parse_addr value)
