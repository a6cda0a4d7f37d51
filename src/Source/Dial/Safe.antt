-- ===== src/Source/Dial/Safe.antt =====
-- Where a source's HTTP client may connect to, by internal/source/http.go.
use mathlib.Core.List.{Mem, mem-cons_self, mem-cons_of_mem}
use hetdns.Prelude.{
  ◌≤◌, ◌≡◌, ◌⊎◌, inl, inr, refl, Bool, true, false, not, ◌&&◌, ◌||◌, Option, none, some, List, [],
  ◌∷◌, All, arith, length, Bool-cases,
}
use hetdns.Prelude.Text.{Text, text, text_eq_iff}
use hetdns.Addr.{Addr, Netip, unmap}
use hetdns.Addr.Ranges.{is_unspecified, is_multicast}
use hetdns.Source.Public.{is_public}
use hetdns.Source.Dial.{
  Net, dial_context, Dialing, Dialed, on_dial, on_candidate, dial_all, on_addresses, on_host,
  safe_dial, check_redirect,
}

-- An address that may be dialed.
abbrev pub MayDial : Bool → Addr → Type 0
MayDial allow_private a =
    (is_unspecified a ≡ false)
    × (is_multicast a ≡ false)
    × ((allow_private ≡ true) ⊎ (is_public a ≡ true))

module _ {W : Type 0} (netip : Netip) (net : Net W) (allow_private : Bool) (port : Text)
    (found : List Addr) where
  -- The destination is one of the addresses that were found, one that may be dialed, at the port.
  abbrev pub Destination : Text → Type 0
  Destination d =
      (a : Addr) × Mem a found
      × MayDial allow_private (unmap a)
      × (d ≡ net.join_host_port (netip.show_addr (unmap a)) port)

  abbrev Safe : Dialed × Dialing W → Type 0
  Safe r = All Destination r.1.dialed

  on_dial-Safe :
      (rest : Option Text → Dialing W → Dialed × Dialing W) (r : Option Text × Dialing W)
      → All Destination r.1.dialed
      → ((last : Option Text) (t : Dialing W) → All Destination t.dialed → Safe (rest last t))
      → Safe (on_dial netip net allow_private port rest r)
  unfolding on_dial
  on_dial-Safe rest (none, s) h k = h
  on_dial-Safe rest (some e, s) h k = k (some e) s h

  may_dial :
      (a : Addr)
      → (is_unspecified a || is_multicast a) ≡ false
      → (not allow_private && not (is_public a)) ≡ false
      → MayDial allow_private a
  may_dial a h k = ground (arith, h, k)

  on_candidate-Safe :
      (a : Addr) (rest : Option Text → Dialing W → Dialed × Dialing W) (s : Dialing W)
      → Mem a found
      → All Destination s.dialed
      → ((last : Option Text) (t : Dialing W) → All Destination t.dialed → Safe (rest last t))
      → Safe (on_candidate netip net allow_private port (unmap a) rest s)
  unfolding on_candidate
  on_candidate-Safe a rest s m h k =
      elim (Bool-cases (is_unspecified (unmap a) || is_multicast (unmap a))) [
        | inl unusable ↦ rw unusable (k _ s h)
        | inr usable ↦
            rw usable (elim (Bool-cases (not allow_private && not (is_public (unmap a)))) [
              | inl private ↦ rw private (k _ s h)
              | inr allowed ↦ rw allowed (
                  on_dial-Safe rest
                    (dial_context net (net.join_host_port (netip.show_addr (unmap a)) port) s)
                    ((a, m, may_dial (unmap a) usable allowed, refl), h) k)
            ])
      ]

  dial_all-Safe :
      (addresses : List Addr) (last : Option Text) (s : Dialing W)
      → ((a : Addr) → Mem a addresses → Mem a found)
      → All Destination s.dialed
      → Safe (dial_all netip net allow_private port addresses last s)
  unfolding dial_all
  dial_all-Safe [] last s m h = h
  dial_all-Safe (a ∷ rest) last s m h =
      on_candidate-Safe a (dial_all netip net allow_private port rest) s (m a mem-cons_self) h
        (λ e t k. dial_all-Safe rest e t (λ b n. m b (mem-cons_of_mem a n)) k)

module _ {W : Type 0} (netip : Netip) (net : Net W) (allow_private : Bool) where
  -- What may be dialed for a destination: the host is looked up, and the port is kept.
  abbrev pub Dials : Text → W → List Text → Type 0
  Dials address w dialed =
      (dialed ≡ [])
      ⊎ (host : Text) × (port : Text) × (found : List Addr) × (net.split_host_port address
          ≡ some (host, port))
        × ((net.look_up host w).0 ≡ some found)
        × All (Destination netip net allow_private port found) dialed

  on_addresses-Dials :
      (address host port : Text) (w : W) (r : Option (List Addr) × W)
      → net.split_host_port address ≡ some (host, port)
      → (net.look_up host w).0 ≡ r.0
      → Dials address w (on_addresses netip net allow_private port r).1.dialed
  unfolding on_addresses
  on_addresses-Dials address host port w (none, v) e l = inl refl
  on_addresses-Dials address host port w (some found, v) e l = inr (
    host,
    port,
    found,
    e,
    l,
    dial_all-Safe netip net allow_private port found found none _ (λ a m. m) tt,
  )

  on_host-Dials :
      (address : Text) (r : Option (Text × Text)) (w : W)
      → net.split_host_port address ≡ r
      → Dials address w (on_host netip net allow_private r w).1.dialed
  unfolding on_host
  on_host-Dials address none w e = inl refl
  on_host-Dials address (some (host, port)) w e =
      on_addresses-Dials address host port w (net.look_up host w) e refl

-- Whatever a name resolves to, a source's client dials nothing but addresses that the host's name was
-- resolved to, each in the form that was checked and at the port of the destination, no unspecified
-- and no multicast one among them, and none that is not public unless private networks are allowed.
pub safe_dial-MayDial :
    {W : Type 0} (netip : Netip) (net : Net W) (allow_private : Bool) (address : Text) (w : W)
    → Dials netip net allow_private address w (safe_dial netip net allow_private address w).1.dialed
unfolding safe_dial
safe_dial-MayDial netip net allow_private address w =
    on_host-Dials netip net allow_private address (net.split_host_port address) w refl

-- The schemes of the requests of one fetch, the last one first: the redirects that were let through.
pub data Followed (first : Text) : List Text → Type 0 where
  start : Followed first (first ∷ [])
  redirect :
      (via : List Text) (next : Text)
      → Followed first via
      → check_redirect via next ≡ none
      → Followed first (next ∷ via)

abbrev pub IsHttps : Text → Type 0
IsHttps scheme = scheme ≡ text "https"

let_through :
    (last next : Text) (via : List Text)
    → check_redirect (last ∷ via) next ≡ none
    → last ≡ text "https"
    → (length (next ∷ last ∷ via) ≤ 3) × (next ≡ text "https")
unfolding check_redirect
let_through last next via h e =
    ground (arith, h, text_eq_iff last (text "https"), text_eq_iff next (text "https"), e)

-- A fetch that starts with HTTPS makes three requests at most, all of them with HTTPS.
pub redirects_safe :
    (via : List Text) → Followed (text "https") via → (length via ≤ 3) × All IsHttps via
redirects_safe _ start = (omega arith, (refl, tt))
redirects_safe _ (redirect [] next f h) = elim f [ ]
redirects_safe _ (redirect (last ∷ via) next f h) =
    let (short, every) = redirects_safe (last ∷ via) f in
    let (le, e) = let_through last next via h every.0 in (le, (e, every))
