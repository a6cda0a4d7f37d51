-- ===== src/Hetzner/Request/Good.antt =====
-- Which responses `requestJSON` of internal/hetzner/client.go takes for a success.
use hetdns.Prelude.{
  ℕ, ◌+◌, ◌≤◌, ◌<◌, ◌≡◌, refl, ap, Bool, true, false, ◌&&◌, ◌||◌, Option, none, some, arith, take,
  length, ltb, leb, if◌then◌else◌,
}
use hetdns.Prelude.Text.{Text}
use hetdns.Hetzner.Types.{Error, Outcome, ok, err}
use hetdns.Hetzner.Env.{Runtime, Response}
use hetdns.Hetzner.Request.{Verdict, again, replied, decoded, read_body, judge, max_response_body}

-- A response is a success with a value: its status is 2xx, and its body is short enough and the
-- value is what it decodes to.
abbrev pub Good : {A : Type 0} → (Text → Option A) → Response → A → Type 0
Good decode r a =
    (200 ≤ r.status)
    × (r.status < 300)
    × ((body : Text) × (r.body ≡ some body)
        × (length (take (max_response_body + 1) body) ≤ max_response_body)
        × (decode (take (max_response_body + 1) body) ≡ some a))

not_again : {A : Type 0} {o : Outcome A} → ¬ (Verdict.again ≡ replied o)
not_again h = ground (arith, h)

not_failed : {A : Type 0} {e : Error} {a : A} → ¬ (Verdict.replied (err e) ≡ replied (ok a))
not_failed h = ground (arith, h)

-- Which way the tests of `requestJSON` have gone if it returns a value.
tests_passed :
    {A : Type 0} (big retried refused : Bool) (e d : Error) (o : Outcome A) (a : A)
    → (if big
        then replied (err e)
        else if retried
        then again
        else if refused
        then replied (err d)
        else replied o)
      ≡ replied (ok a)
    → (big ≡ false) × (refused ≡ false) × (replied o ≡ replied (ok a))
tests_passed true retried refused e d o a h = absurd (not_failed h)
tests_passed false true refused e d o a h = absurd (not_again h)
tests_passed false false true e d o a h = absurd (not_failed h)
tests_passed false false false e d o a h = (refl, refl, h)

success_status :
    (status : ℕ) → (ltb status 200 || leb 300 status) ≡ false → (200 ≤ status) × (status < 300)
success_status status h = ground (arith, h)

not_longer : (n limit : ℕ) → ltb limit n ≡ false → n ≤ limit
not_longer n limit h = ground (arith, h)

module _ (rt : Runtime) {A : Type 0} (decode : Text → Option A) where
  decoded-ok : (o : Option A) (a : A) → replied (decoded rt decode o) ≡ replied (ok a) → o ≡ some a
  unfolding decoded
  decoded-ok none a h = absurd (not_failed h)
  decoded-ok (some b) a h = ap some cc

  body-Good :
      (retry : Bool) (now : ℕ) (r : Response) (b : Option Text) (a : A)
      → r.body ≡ b
      → read_body rt decode retry now r b ≡ replied (ok a)
      → Good decode r a
  unfolding read_body
  body-Good retry now r none a e h = absurd (not_failed h)
  body-Good retry now r (some body) a e h =
      let limited = take (max_response_body + 1) body in
      let (small, accepted, k) =
        tests_passed (ltb max_response_body (length limited)) (leb 500 r.status && retry)
          (ltb r.status 200 || leb 300 r.status) _ _ _ a h in
      (
        (success_status r.status accepted).0,
        (success_status r.status accepted).1,
        (
          body,
          e,
          not_longer (length limited) max_response_body small,
          decoded-ok (decode limited) a k,
        ),
      )

  pub judge-Good :
      (retry : Bool) (now : ℕ) (r : Response) (a : A)
      → judge rt decode retry now r ≡ replied (ok a)
      → Good decode r a
  unfolding judge
  judge-Good retry now r a h = body-Good retry now r r.body a refl h
