-- ===== src/Web/Wire.antt =====
-- The `http.ResponseWriter` of net/http, as internal/web/server.go uses it: headers that are set until
-- the status is written, then a body.
pub mod Keeps
use hetdns.Prelude.{ℕ, ◌≡◌, ◌≢◌, refl, Option, none, some, ◌++◌, [], ◌∷◌, arith, if◌then◌else◌}
use hetdns.Prelude.Text.{Text, text, text_eq, text_eq_iff}
use hetdns.Prelude.Map.{Map, lookup, insert, delete, lookup-insert, lookup-delete}

-- The headers as they stand, the status and the headers that have been sent with it, if they have,
-- and the body so far.
pub record Writer : Type 0 where
  pub headers : Map Text
  pub sent : Option (ℕ × Map Text)
  pub body : Text

abbrev pub new_writer : Writer
new_writer = record { headers = []; sent = none; body = [] }

-- `Header().Set`; all names are in their canonical form.
unfoldable pub set_header : Text → Text → Writer → Writer
set_header name value w = record w { headers = insert name value w.headers }

-- `Header().Del`.
unfoldable pub delete_header : Text → Writer → Writer
delete_header name w = record w { headers = delete name w.headers }

-- The status that counts is the first one.
status_once : ℕ → Map Text → Option (ℕ × Map Text) → Option (ℕ × Map Text)
status_once code headers none = some (code, headers)
status_once code headers (some s) = some s

-- `WriteHeader`.
unfoldable pub write_status : ℕ → Writer → Writer
unfolding status_once
write_status code w = record w { sent = status_once code w.headers w.sent }

-- `Write`.
unfoldable pub write : Text → Writer → Writer
write bytes w = let v = write_status 200 w in record v { body = v.body ++ bytes }

-- `http.Error`.
unfoldable pub http_error : Text → ℕ → Writer → Writer
http_error message code w = write (message ++ text "\n") (
    write_status code (
      set_header (text "X-Content-Type-Options") (text "nosniff") (
        set_header (text "Content-Type") (text "text/plain; charset=utf-8")
          (delete_header (text "Content-Length") w))))

-- What the client gets once the handler has returned.
pub record Response : Type 0 where
  pub status : ℕ
  pub headers : Map Text
  pub body : Text

response_of : Text → Map Text → Option (ℕ × Map Text) → Response
response_of body headers none = record { status = 200; headers = headers; body = body }
response_of body headers (some (code, sent)) = record { status = code; headers = sent; body = body }

unfoldable pub respond : Writer → Response
unfolding response_of
respond w = response_of w.body w.headers w.sent
