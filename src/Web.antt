-- ===== src/Web.antt =====
-- internal/web/server.go: the read-only HTTP surface. The template, the JSON encoder, the embedded
-- assets and the redirects of `ServeMux` are parameters.
pub mod Wire
pub mod Headers
pub mod Methods
use hetdns.Prelude.{
  ℕ, ◌+◌, ◌-◌, ◌%◌, ◌^◌, ◌++◌, Bool, true, false, not, Option, none, some, [], ◌∷◌, ltb, leb, ◌==◌,
  if◌then◌else◌,
}
use hetdns.Prelude.Int.{ℤ, pos, negsuc, sub_ℕ, millisecond}
use hetdns.Prelude.Text.{Text, text, text_eq}
use hetdns.Prelude.Trim.{has_prefix}
use hetdns.Status.{Store, Snapshot, snapshot}
use hetdns.Web.Wire.{
  Writer, new_writer, set_header, write_status, write, http_error, Response, respond,
}

abbrev pub content_security_policy : Text
content_security_policy =
    text
      "default-src 'none'; style-src 'self'; img-src 'self'; script-src 'none'; connect-src 'none'; frame-ancestors 'none'; base-uri 'none'; form-action 'none'"

abbrev pub permissions_policy : Text
permissions_policy = text "camera=(), microphone=(), geolocation=(), payment=(), usb=()"

pub record Request : Type 0 where
  pub method : Text
  pub path : Text

-- What a handler comes to: it returns, or it panics.
pub data Handled : Type 0 where
  returned : Writer → Handled
  panicked : Writer → Handled

abbrev pub Handler : Type 0
Handler = Request → Writer → Handled

-- What the page's template writes before it ends or fails, the encoding of a snapshot unless it
-- fails, the file server of the assets, the path that `ServeMux` redirects a request to, if it does,
-- and the handler that redirects.
pub record Site : Type 0 where
  pub page : Snapshot → Text
  pub encode : Snapshot → Option Text
  pub assets : Handler
  pub redirects : Text → Option Text
  pub redirect : Text → Handler

-- An em dash in UTF-8.
abbrev dash : Text
dash = 0xe2 ∷ 0x80 ∷ 0x94 ∷ []

-- The functions of the template: a time, under `Format(time.RFC3339)`, and a duration, under `String`.
unfoldable pub clock : (ℕ → Text) → ℕ → Text
clock format value = if value == 0 then dash else format value

-- `Round(time.Millisecond)` of nanoseconds: half a millisecond goes up, and the sum saturates.
round_milliseconds : ℕ → ℕ
round_milliseconds n =
    let r = n % millisecond in
    if ltb (r + r) millisecond
    then n - r
    else if leb (n + (millisecond - r)) (2 ^ 63 - 1)
    then n + (millisecond - r)
    else 2 ^ 63 - 1

rounded : ℤ → ℤ
unfolding round_milliseconds
rounded (pos n) = pos (round_milliseconds n)
rounded (negsuc n) =
    let r = (n + 1) % millisecond in
    if ltb (r + r) millisecond
    then sub_ℕ 0 (n + 1 - r)
    else if leb (n + 1 + (millisecond - r)) (2 ^ 63)
    then sub_ℕ 0 (n + 1 + (millisecond - r))
    else negsuc (2 ^ 63 - 1)

unfoldable pub duration_text : (ℤ → Text) → ℤ → Text
unfolding rounded
duration_text show (pos n) = if n == 0 then dash else show (rounded (pos n))
duration_text show (negsuc n) = show (rounded (negsuc n))

no_store : Text → Writer → Writer
no_store content_type w =
    set_header (text "Cache-Control") (text "no-store")
      (set_header (text "Content-Type") content_type w)

write_encoded : Option Text → Writer → Writer
write_encoded none w = w
write_encoded (some bytes) w = write bytes w

module _ (site : Site) (now : ℕ) (store : Store) where
  -- `index`; an error of the template is only logged.
  unfoldable pub index : Handler
  unfolding no_store
  index request w =
      if not (text_eq request.path (text "/"))
      then returned (http_error (text "404 page not found") 404 w)
      else returned
          (write (site.page (snapshot now store)) (no_store (text "text/html; charset=utf-8") w))

  -- `apiStatus`; an error of the encoder is only logged.
  unfoldable pub api_status : Handler
  unfolding no_store write_encoded
  api_status request w = returned (
      write_encoded (site.encode (snapshot now store))
        (no_store (text "application/json; charset=utf-8") w))

  -- `health`.
  unfoldable pub health : Handler
  unfolding no_store
  health request w =
      returned
        (write (text "ok\n") (write_status 200 (no_store (text "text/plain; charset=utf-8") w)))

  -- `ready`.
  unfoldable pub ready : Handler
  unfolding no_store
  ready request w =
      let typed = no_store (text "text/plain; charset=utf-8") w in
      if not store.is_ready
      then returned (write (text "not ready\n") (write_status 503 typed))
      else returned (write (text "ready\n") (write_status 200 typed))

  route : Handler
  route request w =
      if text_eq request.path (text "/api/v1/status")
      then api_status request w
      else if text_eq request.path (text "/healthz")
      then health request w
      else if text_eq request.path (text "/readyz")
      then ready request w
      else if has_prefix request.path (text "/assets/")
      then site.assets request w
      else index request w

  route_or_redirect : Option Text → Handler
  unfolding route
  route_or_redirect none request w = route request w
  route_or_redirect (some path) request w = site.redirect path request w

  -- The `ServeMux` of `New`.
  unfoldable pub mux : Handler
  unfolding route_or_redirect
  mux request w = route_or_redirect (site.redirects request.path) request w

cache : Bool → Writer → Writer
cache true w = set_header (text "Cache-Control") (text "public, max-age=3600") w
cache false w = w

-- The deferred function of `middleware`.
recovered : Handled → Writer
recovered (returned w) = w
recovered (panicked w) = http_error (text "internal server error") 500 w

secure : Writer → Writer
secure w = set_header (text "Permissions-Policy") permissions_policy (
    set_header (text "X-Frame-Options") (text "DENY") (
      set_header (text "Referrer-Policy") (text "no-referrer") (
        set_header (text "X-Content-Type-Options") (text "nosniff")
          (set_header (text "Content-Security-Policy") content_security_policy w))))

-- `middleware`.
unfoldable pub middleware : Handler → Request → Writer → Writer
unfolding secure cache recovered
middleware next request w =
    let cached = cache (has_prefix request.path (text "/assets/")) (secure w) in
    if not (text_eq request.method (text "GET"))
    then http_error (text "method not allowed") 405 (set_header (text "Allow") (text "GET") cached)
    else recovered (next request cached)

-- The response to a request, at a time and with what the store holds then.
unfoldable pub serve : Site → ℕ → Store → Request → Response
serve site now store request = respond (middleware (mux site now store) request new_writer)
