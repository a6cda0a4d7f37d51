-- ===== src/Web/Wire/Keeps.antt =====
-- Headers that stay as they are under the writes of internal/web/server.go.
use hetdns.Prelude.{
  ℕ, ◌≡◌, ◌∙◌, Option, none, some, ◌||◌, not, Bool, true, List, [], ◌∷◌, All, all, arith,
}
use hetdns.Prelude.Text.{Text, text_eq, text_eq_iff}
use hetdns.Prelude.Map.{Map, lookup, insert, delete, lookup-insert, lookup-delete}
use hetdns.Web.Wire.{
  Writer, set_header, delete_header, status_once, write_status, write, response_of, respond,
}

-- Some headers have the values that they should have.
abbrev pub AllSet : List (Text × Text) → Map Text → Type 0
AllSet wanted headers = All (λ e. lookup e.0 headers ≡ some e.1) wanted

-- A header may be set, or deleted, without harm to those that are wanted.
abbrev pub may_set : List (Text × Text) → Text → Text → Bool
may_set wanted name value = all (λ e. not (text_eq name e.0) || text_eq value e.1) wanted

abbrev pub may_delete : List (Text × Text) → Text → Bool
may_delete wanted name = all (λ e. not (text_eq name e.0)) wanted

abbrev pub AllSent : List (Text × Text) → Option (ℕ × Map Text) → Type 0
AllSent wanted none = Unit
AllSent wanted (some (code, headers)) = AllSet wanted headers

AllSet-insert :
    (wanted : List (Text × Text)) (name value : Text) (headers : Map Text)
    → may_set wanted name value ≡ true
    → AllSet wanted headers
    → AllSet wanted (insert name value headers)
AllSet-insert [] name value headers e h = tt
AllSet-insert ((n, v) ∷ wanted) name value headers e (p, h) = (
  lookup-insert name n value headers
      ∙ ground (arith, e, p, text_eq_iff name n, text_eq_iff value v),
  AllSet-insert wanted name value headers (ground (arith, e)) h,
)

AllSet-delete :
    (wanted : List (Text × Text)) (name : Text) (headers : Map Text)
    → may_delete wanted name ≡ true
    → AllSet wanted headers
    → AllSet wanted (delete name headers)
AllSet-delete [] name headers e h = tt
AllSet-delete ((n, v) ∷ wanted) name headers e (p, h) = (
  lookup-delete name n headers ∙ ground (arith, e, p),
  AllSet-delete wanted name headers (ground (arith, e)) h,
)

-- The headers are set, and have been sent if any have.
pub record HasHeaders (wanted : List (Text × Text)) (w : Writer) : Type 0 where
  pub set : AllSet wanted w.headers
  pub sent : AllSent wanted w.sent

module _ (wanted : List (Text × Text)) where
  status_once-AllSent :
      (code : ℕ) (headers : Map Text) (sent : Option (ℕ × Map Text))
      → AllSet wanted headers
      → AllSent wanted sent
      → AllSent wanted (status_once code headers sent)
  unfolding status_once
  status_once-AllSent code headers none h k = h
  status_once-AllSent code headers (some s) h k = k

  pub HasHeaders-header :
      (name value : Text) (w : Writer)
      → may_set wanted name value ≡ true
      → HasHeaders wanted w
      → HasHeaders wanted (set_header name value w)
  unfolding set_header
  HasHeaders-header name value w e h = record {
    set = AllSet-insert wanted name value w.headers e h.set;
    sent = h.sent;
  }

  pub HasHeaders-delete :
      (name : Text) (w : Writer)
      → may_delete wanted name ≡ true
      → HasHeaders wanted w
      → HasHeaders wanted (delete_header name w)
  unfolding delete_header
  HasHeaders-delete name w e h = record {
    set = AllSet-delete wanted name w.headers e h.set;
    sent = h.sent;
  }

  pub HasHeaders-status :
      (code : ℕ) (w : Writer) → HasHeaders wanted w → HasHeaders wanted (write_status code w)
  unfolding write_status
  HasHeaders-status code w h = record {
    set = h.set;
    sent = status_once-AllSent code w.headers w.sent h.set h.sent;
  }

  pub HasHeaders-write :
      (bytes : Text) (w : Writer) → HasHeaders wanted w → HasHeaders wanted (write bytes w)
  unfolding write write_status
  HasHeaders-write bytes w h = record {
    set = h.set;
    sent = status_once-AllSent 200 w.headers w.sent h.set h.sent;
  }

  respond_sent :
      (body : Text) (headers : Map Text) (sent : Option (ℕ × Map Text))
      → AllSet wanted headers
      → AllSent wanted sent
      → AllSet wanted (response_of body headers sent).headers
  unfolding response_of
  respond_sent body headers none h k = h
  respond_sent body headers (some (code, sent)) h k = k

  pub HasHeaders-respond : (w : Writer) → HasHeaders wanted w → AllSet wanted (respond w).headers
  unfolding respond
  HasHeaders-respond w h = respond_sent w.body w.headers w.sent h.set h.sent
