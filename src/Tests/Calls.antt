-- ===== src/Tests/Calls.antt =====
-- internal/hetzner/client.go at concrete calls.
use hetdns.Prelude.{All, ◌≡◌, ◌≢◌, ◌*◌, refl, none, some, arith, true}
use hetdns.Prelude.Int.{pos, second, ltb_ℤ}
use hetdns.Prelude.Text.{text}
use hetdns.Prelude.Atoi.{atoi, trim_space}
use hetdns.Hetzner.Types.{unfinished}
use hetdns.Hetzner.RetryAfter.{parse_retry_after, seconds_wrap}
use hetdns.Hetzner.Request.{Client, request_of}
use hetdns.Hetzner.Request.Sent.{Within}
use hetdns.Hetzner.Request.Posts.{posts}
use hetdns.Hetzner.Poll.{await_action}
use hetdns.Hetzner.Poll.Ends.{await_action_ends}
use hetdns.Hetzner.Path.{rrset_path}
use hetdns.Hetzner.Path.Injective.{rrset_path-injective}
use hetdns.Hetzner.Client.{production, get_rrset, reconcile}
use hetdns.Hetzner.Client.Mutations.{Mutation, reconcile-Mutation}
use hetdns.Hetzner.Client.Reads.{Tells, get_rrset-Tells}
use hetdns.Hetzner.Client.Success.{Reports, reconcile-Reports}
use hetdns.Hetzner.Request.Destination.{GoesTo}
use hetdns.Hetzner.Client.Destination.{Makes, production-GoesTo}
use hetdns.Hetzner.Http.{Transport, use_last_response, with_http}
use hetdns.Tests.Data.{rt, ctx, world, target, home, running_action}

abbrev client : Client
client = record {
  endpoint = text "https://api.example";
  token = text "secret";
  user_agent = text "hetdns";
  http = record { check_redirect = λ next via. use_last_response };
  poll_every = second;
  poll_limit = 3 * second;
}

reconcile-Mutation_example :
    Mutation rt client ctx target home
      (get_rrset rt client ctx target world).0
      (posts world.sent)
      (posts (reconcile rt client ctx target home world).1.sent)
reconcile-Mutation_example = reconcile-Mutation rt client ctx target home world

reconcile-Reports_example :
    Reports rt client ctx target home
      (get_rrset rt client ctx target world)
      (reconcile rt client ctx target home world)
reconcile-Reports_example = reconcile-Reports rt client ctx target home world

await_action_ends_example : (await_action rt client ctx running_action world).0 ≢ some unfinished
await_action_ends_example = await_action_ends rt client ctx running_action world (omega arith)

get_rrset-Tells_example :
    let request = request_of client (text "GET") (rrset_path target) none in
    let (seen, w') = get_rrset rt client ctx target world in
    Within request world.sent 3 w' × Tells rt request seen w'
get_rrset-Tells_example = get_rrset-Tells rt client ctx target world

two_minutes : atoi (trim_space (text " 120")) ≡ some (pos 120)
unfolding atoi trim_space
two_minutes = refl

centuries : atoi (trim_space (text "10000000000")) ≡ some (pos 10000000000)
unfolding atoi trim_space
centuries = refl

seconds_wrap_example : ltb_ℤ (parse_retry_after rt.parse_time 5 (text "10000000000")) (pos 0) ≡ true
seconds_wrap_example =
    seconds_wrap rt.parse_time 5 10000000000 (text "10000000000") centuries (omega arith)
      (omega arith)

-- Every response redirects to another host.
abbrev elsewhere : Transport
elsewhere = record {
  round_trip = rt.send;
  redirected = λ r response. some (record r { url = text "https://other.example/" });
}

production-GoesTo_example :
    let c = production (text "secret") (text "hetdns/1") in
    All
      (Makes elsewhere c.http 9 (GoesTo (text "https://api.hetzner.cloud/v1") (text "secret")))
      (reconcile (with_http rt elsewhere c.http 9) c ctx target home world).1.sent
production-GoesTo_example =
    production-GoesTo rt elsewhere 9 ctx (text "secret") (text "hetdns/1") target home world tt

same_path : rrset_path target ≡ rrset_path (record target { id = text "b" })
unfolding rrset_path
same_path = refl

rrset_path-injective_example :
    (target.zone ≡ target.zone) × (target.name ≡ target.name) × (target.kind ≡ target.kind)
rrset_path-injective_example =
    rrset_path-injective target (record target { id = text "b" }) same_path
