-- ===== src/Hetzner/Client/Reads.antt =====
-- What `getRRSet` of internal/hetzner/client.go sends, and from which responses its results come.
use hetdns.Prelude.{◌≡◌, refl, Option, none, some, List, arith, ◌==◌, Bool-cases, inl, inr}
use hetdns.Prelude.Text.{Text, text}
use hetdns.Hetzner.Types.{Record, Outcome, ok, err}
use hetdns.Hetzner.Path.{rrset_path}
use hetdns.Hetzner.Env.{Runtime, Request, World, Context}
use hetdns.Hetzner.Request.{Client, Reply, get_json, request_of}
use hetdns.Hetzner.Request.Sent.{Within, Within-get_json}
use hetdns.Hetzner.Request.Answer.{AnsweredLast, get_json-AnsweredLast}
use hetdns.Hetzner.Request.Absent.{Missed, get_json-Missed}
use hetdns.Hetzner.Client.{found_values, get_rrset}

-- What is seen of an RRset is what the last response tells: its values, or that it is not there.
abbrev pub Tells : Runtime → Request → Outcome (Option (List Text)) → World → Type 0
Tells rt request (err e) w' = Unit
Tells rt request (ok none) w' = Missed rt request w'
Tells rt request (ok (some values)) w' = AnsweredLast rt rt.unmarshal_rrset request values w'

module _ (rt : Runtime) (c : Client) (ctx : Context) where
  found-Tells :
      (request : Request) (reply : Reply (List Text)) (w' : World)
      → (reply.0 ≡ 404 → Missed rt request w')
      → ((values : List Text)
          → reply.1 ≡ ok values
          → AnsweredLast rt rt.unmarshal_rrset request values w')
      → Tells rt request (found_values rt c ctx reply) w'
  unfolding found_values
  found-Tells request (status, err e) w' absent present = elim (Bool-cases (status == 404)) [
    | inl h ↦ rw h (absent (ground (arith, h)))
    | inr h ↦ rw h tt
  ]
  found-Tells request (status, ok values) w' absent present = elim (Bool-cases (status == 404)) [
    | inl h ↦ rw h (absent (ground (arith, h)))
    | inr h ↦ rw h (present values refl)
  ]

  -- `getRRSet` sends the GET of the record's RRset at most three times and nothing else; it says that
  -- the RRset is absent only if the last response is a 404, and returns values only from a last
  -- response with a 2xx status and a body of at most 64 KiB that decodes to them.
  pub get_rrset-Tells :
      (target : Record) (w : World)
      → let request = request_of c (text "GET") (rrset_path target) none in
        let (seen, w') = get_rrset rt c ctx target w in
        Within request w.sent 3 w' × Tells rt request seen w'
  unfolding get_rrset
  get_rrset-Tells target w =
      let path = rrset_path target in
      let x = get_json rt c rt.unmarshal_rrset ctx path w in
      (
        Within-get_json rt c rt.unmarshal_rrset ctx path w,
        found-Tells (request_of c (text "GET") path none) x.0 x.1
            (get_json-Missed rt c rt.unmarshal_rrset ctx path w)
            (get_json-AnsweredLast rt c rt.unmarshal_rrset ctx path w),
      )
