-- ===== src/Source/Dial.antt =====
-- `safeDialer` and `CheckRedirect` of internal/source/http.go.
pub mod Safe
use hetdns.Prelude.{
  ℕ, Bool, true, false, not, ◌&&◌, ◌||◌, Option, none, some, List, [], ◌∷◌, length, leb,
  if◌then◌else◌,
}
use hetdns.Prelude.Text.{Text, text, text_eq}
use hetdns.Addr.{Addr, Netip, unmap}
use hetdns.Addr.Ranges.{is_unspecified, is_multicast}
use hetdns.Source.Public.{is_public}

-- `net.SplitHostPort`, `net.JoinHostPort`, the resolver and the dialer, whose error has a message.
pub record Net (W : Type 0) : Type 0 where
  pub split_host_port : Text → Option (Text × Text)
  pub join_host_port : Text → Text → Text
  pub look_up : Text → W → Option (List Addr) × W
  pub dial : Text → W → Option Text × W

-- The network's world and the destinations that were dialed, the last one first.
pub record Dialing (W : Type 0) : Type 0 where
  pub world : W
  pub dialed : List Text

pub data Dialed : Type 0 where
  connected : Dialed
  refused : Text → Dialed

-- `dialer.DialContext` with a destination.
abbrev pub dial_context : {W : Type 0} → Net W → Text → Dialing W → Option Text × Dialing W
dial_context net destination s =
    let (e, w) = net.dial destination s.world in
    (e, record { world = w; dialed = destination ∷ s.dialed })

module _ {W : Type 0} (netip : Netip) (net : Net W) (allow_private : Bool) (port : Text) where
  on_dial :
      (Option Text → Dialing W → Dialed × Dialing W) → Option Text × Dialing W → Dialed × Dialing W
  on_dial rest (none, s) = (connected, s)
  on_dial rest (some e, s) = rest (some e) s

  -- The body of the loop, with the rest of the loop, which takes `lastErr`.
  on_candidate :
      Addr → (Option Text → Dialing W → Dialed × Dialing W) → Dialing W → Dialed × Dialing W
  unfolding on_dial
  on_candidate candidate rest s =
      if is_unspecified candidate || is_multicast candidate
      then rest (some (text "source destination resolved to an unusable address")) s
      else if not allow_private && not (is_public candidate)
      then rest (some (text "source destination resolved to a non-public address")) s
      else on_dial rest (dial_context net (net.join_host_port (netip.show_addr candidate) port) s)

  last_error : Option Text → Text
  last_error none = text "source destination has no usable addresses"
  last_error (some e) = e

  dial_all : List Addr → Option Text → Dialing W → Dialed × Dialing W
  unfolding on_candidate last_error
  dial_all [] last s = (refused (last_error last), s)
  dial_all (a ∷ rest) last s = on_candidate (unmap a) (dial_all rest) s

module _ {W : Type 0} (netip : Netip) (net : Net W) (allow_private : Bool) where
  on_addresses : Text → Option (List Addr) × W → Dialed × Dialing W
  unfolding dial_all
  on_addresses port (none, w) =
      (refused (text "resolve source destination"), record { world = w; dialed = [] })
  on_addresses port (some addresses, w) =
      dial_all netip net allow_private port addresses none (record { world = w; dialed = [] })

  on_host : Option (Text × Text) → W → Dialed × Dialing W
  unfolding on_addresses
  on_host none w = (refused (text "invalid source destination"), record { world = w; dialed = [] })
  on_host (some (host, port)) w = on_addresses port (net.look_up host w)

  -- The function that `safeDialer` returns.
  unfoldable pub safe_dial : Text → W → Dialed × Dialing W
  unfolding on_host
  safe_dial address w = on_host (net.split_host_port address) w

-- `CheckRedirect`, by the schemes of the requests that were made, the last one first (there is one
-- at least), and of the next one; `none` lets it through.
unfoldable pub check_redirect : List Text → Text → Option Text
check_redirect [] next = none
check_redirect (last ∷ via) next =
    if leb 3 (length (last ∷ via))
    then some (text "too many redirects")
    else if text_eq last (text "https") && not (text_eq next (text "https"))
    then some (text "HTTPS redirect downgrade refused")
    else none
