-- ===== src/Web/Headers.antt =====
-- The headers that the middleware of internal/web/server.go sets before everything else.
use hetdns.Prelude.{
  ℕ, ◌≡◌, refl, Option, none, some, not, Bool, true, false, List, [], ◌∷◌, if◌then◌else◌, inl, inr,
  Bool-cases, ◌++◌,
}
use hetdns.Prelude.Text.{Text, text, text_eq}
use hetdns.Prelude.Trim.{has_prefix}
use hetdns.Prelude.Map.{lookup, insert}
use hetdns.Status.{Store, snapshot}
use hetdns.Web.{
  content_security_policy, permissions_policy, Request, Handled, returned, panicked, Handler, Site,
  no_store, write_encoded, index, api_status, health, ready, route, route_or_redirect, mux, cache,
  recovered, secure, middleware, serve,
}
use hetdns.Web.Wire.Keeps.{
  AllSet, may_set, may_delete, HasHeaders, HasHeaders-header, HasHeaders-delete, HasHeaders-status,
  HasHeaders-write, HasHeaders-respond,
}
use hetdns.Web.Wire.{Writer, new_writer, set_header, delete_header, write_status, write, http_error}

abbrev pub security_headers : List (Text × Text)
security_headers =
    (text "Content-Security-Policy", content_security_policy)
    ∷ (text "X-Content-Type-Options", text "nosniff")
    ∷ (text "Referrer-Policy", text "no-referrer")
    ∷ (text "X-Frame-Options", text "DENY")
    ∷ (text "Permissions-Policy", permissions_policy)
    ∷ []

-- What a handler may do to a response: it sets and deletes other headers, and it writes.
pub data Writes : Writer → Writer → Type 0 where
  done : (w : Writer) → Writes w w
  sets :
      (w v : Writer) (name value : Text)
      → may_set security_headers name value ≡ true
      → Writes (set_header name value w) v
      → Writes w v
  deletes :
      (w v : Writer) (name : Text)
      → may_delete security_headers name ≡ true
      → Writes (delete_header name w) v
      → Writes w v
  status : (w v : Writer) (code : ℕ) → Writes (write_status code w) v → Writes w v
  writes : (w v : Writer) (bytes : Text) → Writes (write bytes w) v → Writes w v

abbrev pub writer_of : Handled → Writer
writer_of (returned w) = w
writer_of (panicked w) = w

-- A handler does nothing else, whether it returns or panics.
abbrev pub OnlyWrites : Handler → Type 0
OnlyWrites handler = (request : Request) (w : Writer) → Writes w (writer_of (handler request w))

abbrev Secure : Writer → Type 0
Secure w = HasHeaders security_headers w

Writes-Secure : {w v : Writer} → Writes w v → Secure w → Secure v
Writes-Secure (done w) h = h
Writes-Secure (sets w v name value e k) h =
    Writes-Secure k (HasHeaders-header security_headers name value w e h)
Writes-Secure (deletes w v name e k) h =
    Writes-Secure k (HasHeaders-delete security_headers name w e h)
Writes-Secure (status w v code k) h = Writes-Secure k (HasHeaders-status security_headers code w h)
Writes-Secure (writes w v bytes k) h = Writes-Secure k (HasHeaders-write security_headers bytes w h)

-- A header that may be set is set.
header :
    (name value : Text) {w : Writer}
    → may_set security_headers name value ≡ true
    → Secure w
    → Secure (set_header name value w)
header name value {w} e h = HasHeaders-header security_headers name value w e h

written : (bytes : Text) {w : Writer} → Secure w → Secure (write bytes w)
written bytes {w} h = HasHeaders-write security_headers bytes w h

with_status : (code : ℕ) {w : Writer} → Secure w → Secure (write_status code w)
with_status code {w} h = HasHeaders-status security_headers code w h

length_deleted : {w : Writer} → Secure w → Secure (delete_header (text "Content-Length") w)
unfolding text_eq
length_deleted {w} h = HasHeaders-delete security_headers (text "Content-Length") w refl h

http_error-Secure :
    (message : Text) (code : ℕ) {w : Writer} → Secure w → Secure (http_error message code w)
unfolding http_error text_eq
http_error-Secure message code h = written (message ++ text "\n") (
    with_status code (
      header (text "X-Content-Type-Options") (text "nosniff") refl
        (header (text "Content-Type") (text "text/plain; charset=utf-8") refl (length_deleted h))))

no_store-Secure : (content_type : Text) {w : Writer} → Secure w → Secure (no_store content_type w)
unfolding no_store text_eq
no_store-Secure content_type h =
    header (text "Cache-Control") (text "no-store") refl
      (header (text "Content-Type") content_type refl h)

write_encoded-Secure : (o : Option Text) {w : Writer} → Secure w → Secure (write_encoded o w)
unfolding write_encoded
write_encoded-Secure none h = h
write_encoded-Secure (some bytes) h = written bytes h

branches :
    (b : Bool) (x y : Handled)
    → Secure (writer_of x)
    → Secure (writer_of y)
    → Secure (writer_of (if b then x else y))
branches true x y h k = h
branches false x y h k = k

cache-Secure : (b : Bool) {w : Writer} → Secure w → Secure (cache b w)
unfolding cache text_eq
cache-Secure true h = header (text "Cache-Control") (text "public, max-age=3600") refl h
cache-Secure false h = h

recovered-Secure : (x : Handled) → Secure (writer_of x) → Secure (recovered x)
unfolding recovered
recovered-Secure (returned w) h = h
recovered-Secure (panicked w) h = http_error-Secure (text "internal server error") 500 h

secure-Secure : Secure (secure new_writer)
unfolding secure set_header insert lookup text_eq
secure-Secure = record { set = (refl, (refl, (refl, (refl, (refl, tt))))); sent = tt }

module _ (site : Site) (now : ℕ) (store : Store) where
  index-Secure :
      (r : Request) {w : Writer} → Secure w → Secure (writer_of (index site now store r w))
  unfolding index
  index-Secure r h =
      branches (not (text_eq r.path (text "/"))) _ _
        (http_error-Secure (text "404 page not found") 404 h)
        (written (site.page (snapshot now store))
          (no_store-Secure (text "text/html; charset=utf-8") h))

  api_status-Secure :
      (r : Request) {w : Writer} → Secure w → Secure (writer_of (api_status site now store r w))
  unfolding api_status
  api_status-Secure r h =
      write_encoded-Secure (site.encode (snapshot now store))
        (no_store-Secure (text "application/json; charset=utf-8") h)

  health-Secure :
      (r : Request) {w : Writer} → Secure w → Secure (writer_of (health site now store r w))
  unfolding health
  health-Secure r h =
      written (text "ok\n") (with_status 200 (no_store-Secure (text "text/plain; charset=utf-8") h))

  ready-Secure :
      (r : Request) {w : Writer} → Secure w → Secure (writer_of (ready site now store r w))
  unfolding ready
  ready-Secure r h =
      let typed = no_store-Secure (text "text/plain; charset=utf-8") h in
      branches (not store.is_ready) _ _ (written (text "not ready\n") (with_status 503 typed))
        (written (text "ready\n") (with_status 200 typed))

  module _ (assets : OnlyWrites site.assets)
      (redirects : (p : Text) → OnlyWrites (site.redirect p)) where
    route-Secure :
        (r : Request) {w : Writer} → Secure w → Secure (writer_of (route site now store r w))
    unfolding route
    route-Secure r {w} h =
        branches (text_eq r.path (text "/api/v1/status")) _ _ (api_status-Secure r h) (
          branches (text_eq r.path (text "/healthz")) _ _ (health-Secure r h) (
            branches (text_eq r.path (text "/readyz")) _ _ (ready-Secure r h) (
              branches (has_prefix r.path (text "/assets/")) _ _ (Writes-Secure (assets r w) h)
                (index-Secure r h))))

    or_redirect-Secure :
        (o : Option Text) (r : Request) {w : Writer}
        → Secure w
        → Secure (writer_of (route_or_redirect site now store o r w))
    unfolding route_or_redirect
    or_redirect-Secure none r h = route-Secure r h
    or_redirect-Secure (some path) r {w} h = Writes-Secure (redirects path r w) h

    mux-Secure : (r : Request) {w : Writer} → Secure w → Secure (writer_of (mux site now store r w))
    unfolding mux
    mux-Secure r h = or_redirect-Secure (site.redirects r.path) r h

allow_set : may_set security_headers (text "Allow") (text "GET") ≡ true
unfolding text_eq
allow_set = refl

middleware-Secure :
    (next : Handler) (r : Request)
    → ((w : Writer) → Secure w → Secure (writer_of (next r w)))
    → Secure (middleware next r new_writer)
unfolding middleware
middleware-Secure next r step =
    let w = cache (has_prefix r.path (text "/assets/")) (secure new_writer) in
    let h = cache-Secure (has_prefix r.path (text "/assets/")) secure-Secure in
    elim (Bool-cases (text_eq r.method (text "GET"))) [
      | inl e ↦ rw e (recovered-Secure (next r w) (step w h))
      | inr e ↦ rw e (
          http_error-Secure (text "method not allowed") 405
            (header (text "Allow") (text "GET") allow_set h))
    ]

-- Every response has the five security headers with their values, whatever its request and the state
-- are, and also if a handler panics, as long as the file server and the redirects do nothing to a
-- response but write it and set and delete other headers.
pub every_response_secure :
    (site : Site) (now : ℕ) (store : Store) (request : Request)
    → OnlyWrites site.assets
    → ((path : Text) → OnlyWrites (site.redirect path))
    → AllSet security_headers (serve site now store request).headers
unfolding serve
every_response_secure site now store request assets redirects =
    HasHeaders-respond security_headers (middleware (mux site now store) request new_writer) (
      middleware-Secure (mux site now store) request
        (λ w h. mux-Secure site now store assets redirects request h))
