-- ===== src/Web/Methods.antt =====
-- Which requests reach a handler of internal/web/server.go, and what the probes say.
use hetdns.Prelude.{◌∙◌, ap, ℕ, ◌≡◌, ◌≢◌, refl, Bool, true, false, Option, none, some, arith}
use hetdns.Prelude.Text.{Text, text, text_eq, text_eq_iff}
use hetdns.Prelude.Trim.{has_prefix}
use hetdns.Prelude.Map.{lookup, insert, delete}
use hetdns.Status.{Store}
use hetdns.Web.{
  Request, Handler, Site, no_store, ready, health, route, route_or_redirect, mux, cache, secure,
  recovered, middleware, serve,
}
use hetdns.Web.Wire.{
  Writer, new_writer, set_header, delete_header, write_status, write, http_error, Response, respond,
}

refused_lem :
    (next : Handler) (r : Request)
    → text_eq r.method (text "GET") ≡ false
    → middleware next r new_writer
      ≡ http_error (text "method not allowed") 405 (
          set_header
            (text "Allow")
            (text "GET")
            (cache (has_prefix r.path (text "/assets/")) (secure new_writer)))
unfolding middleware
refused_lem next r e = rw e refl

abbrev pub IsRefusal : Response → Type 0
IsRefusal answer =
    (answer.status ≡ 405)
    × (lookup (text "Allow") answer.headers ≡ some (text "GET"))
    × (answer.body ≡ text "method not allowed\n")

IsRefusal-error :
    (b : Bool)
    → IsRefusal (
        respond (
          http_error
            (text "method not allowed")
            405
            (set_header (text "Allow") (text "GET") (cache b (secure new_writer)))))
unfolding respond http_error write write_status set_header delete_header cache secure insert delete
    lookup text_eq
IsRefusal-error true = (refl, refl, refl)
IsRefusal-error false = (refl, refl, refl)

-- A request with another method than GET is answered with 405 and names GET as the one method that is
-- allowed, whatever the path, the handlers and the state are.
pub only_get :
    (site : Site) (now : ℕ) (store : Store) (request : Request)
    → request.method ≢ text "GET"
    → IsRefusal (serve site now store request)
unfolding serve
only_get site now store request n =
    rw
      (refused_lem (mux site now store) request
        (ground (arith, n, text_eq_iff request.method (text "GET"))))
      (IsRefusal-error (has_prefix request.path (text "/assets/")))

abbrev pub probe : Text → Request
probe path = record { method = text "GET"; path = path }

abbrev pub ready_status : Bool → ℕ
ready_status true = 200
ready_status false = 503

abbrev pub ready_body : Bool → Text
ready_body true = text "ready\n"
ready_body false = text "not ready\n"

module _ (site : Site) (now : ℕ) (store : Store) where
  not_redirected :
      (o : Option Text) (r : Request) (w : Writer)
      → o ≡ none
      → route_or_redirect site now store o r w ≡ route site now store r w
  unfolding route_or_redirect
  not_redirected o r w e = rw e refl

  ready_routed :
      (w : Writer)
      → site.redirects (text "/readyz") ≡ none
      → mux site now store (probe (text "/readyz")) w
        ≡ ready site now store (probe (text "/readyz")) w
  unfolding mux route text_eq
  ready_routed w e = not_redirected (site.redirects (text "/readyz")) (probe (text "/readyz")) w e

  health_routed :
      (w : Writer)
      → site.redirects (text "/healthz") ≡ none
      → mux site now store (probe (text "/healthz")) w
        ≡ health site now store (probe (text "/healthz")) w
  unfolding mux route text_eq
  health_routed w e =
      not_redirected (site.redirects (text "/healthz")) (probe (text "/healthz")) w e

  ready_answer :
      (b : Bool)
      → store.is_ready ≡ b
      → ((respond (middleware (ready site now store) (probe (text "/readyz")) new_writer)).status
          ≡ ready_status b)
        × ((respond (middleware (ready site now store) (probe (text "/readyz")) new_writer)).body
            ≡ ready_body b)
  unfolding respond middleware ready no_store write write_status set_header cache secure recovered
      insert text_eq has_prefix
  ready_answer true e = rw e (refl, refl)
  ready_answer false e = rw e (refl, refl)

  health_answer :
      (respond (middleware (health site now store) (probe (text "/healthz")) new_writer)).status
      ≡ 200
  unfolding respond middleware health no_store write write_status set_header cache secure recovered
      insert text_eq has_prefix
  health_answer = refl

  -- The middleware calls its handler once, with the headers that it has set.
  handled :
      (h k : Handler) (r : Request)
      → ((w : Writer) → h r w ≡ k r w)
      → middleware h r new_writer ≡ middleware k r new_writer
  unfolding middleware
  handled h k r e = rw (e (cache (has_prefix r.path (text "/assets/")) (secure new_writer))) refl

-- Without a redirect of its path, a GET of /readyz is answered by 200 and "ready" while the store is
-- ready, and by 503 and "not ready" while it is not.
pub readyz_answer :
    (site : Site) (now : ℕ) (store : Store)
    → site.redirects (text "/readyz") ≡ none
    → ((serve site now store (probe (text "/readyz"))).status ≡ ready_status store.is_ready)
      × ((serve site now store (probe (text "/readyz"))).body ≡ ready_body store.is_ready)
unfolding serve
readyz_answer site now store no_redirect =
    let k =
      handled site now store (mux site now store) (ready site now store) (probe (text "/readyz"))
        (λ w. ready_routed site now store w no_redirect) in
    let (status, body) = ready_answer site now store store.is_ready refl in
    (ap (λ w. (respond w).status) k ∙ status, ap (λ w. (respond w).body) k ∙ body)

-- Without a redirect of its path, a GET of /healthz is answered by 200 in every state.
healthz_answer :
    (site : Site) (now : ℕ) (store : Store)
    → site.redirects (text "/healthz") ≡ none
    → (serve site now store (probe (text "/healthz"))).status ≡ 200
unfolding serve
healthz_answer site now store no_redirect =
    ap (λ w. (respond w).status)
      (handled site now store (mux site now store) (health site now store) (probe (text "/healthz"))
        (λ w. health_routed site now store w no_redirect))
    ∙ health_answer site now store
