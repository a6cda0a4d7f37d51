-- ===== src/Hetzner/Client.antt =====
-- `Reconcile` of internal/hetzner/client.go, and the calls that it is made of.
pub mod Mutations
mod Done
pub mod Reads
pub mod Success
pub mod Destination
use hetdns.Prelude.{
  ◌*◌, Bool, true, false, ◌&&◌, Option, none, some, List, [], ◌∷◌, ◌++◌, length, ltb, ◌==◌,
  if◌then◌else◌,
}
use hetdns.Prelude.Int.{pos, second, leb_ℤ}
use hetdns.Prelude.Text.{Text, text}
use hetdns.Addr.{Addr, unmap, addr_eq}
use hetdns.Hetzner.Types.{
  Record, Result, unset, unchanged, updated, created, State, Action, Error, plain, multi_value,
  missing, Outcome, ok, err,
}
use hetdns.Hetzner.Path.{rrset_path, create_path}
use hetdns.Hetzner.Http.{HttpClient}
use hetdns.Hetzner.Http
use hetdns.Hetzner.Env.{Runtime, World, Context, create_body, set_body, Body}
use hetdns.Hetzner.Request.{Client, Reply, get_json, post_json}
use hetdns.Hetzner.Poll.{await_action}

is_empty : Text → Bool
is_empty [] = true
is_empty (c ∷ cs) = false

-- `strings.TrimRight(s, "/")`.
trim_slashes : Text → Text
unfolding is_empty
trim_slashes [] = []
trim_slashes (c ∷ cs) =
    let rest = trim_slashes cs in if c == b'/' && is_empty rest then [] else c ∷ rest

-- `newClient`.
unfoldable pub new_client : Text → Text → Text → HttpClient → Client
unfolding trim_slashes
new_client endpoint token user_agent http = record {
  endpoint = trim_slashes endpoint;
  token = token;
  user_agent = user_agent;
  http = http;
  poll_every = second;
  poll_limit = 30 * second;
}

abbrev pub api_endpoint : Text
api_endpoint = text "https://api.hetzner.cloud/v1"

-- `New`; the timeouts are the transport's.
unfoldable pub production : Text → Text → Client
production token user_agent =
    new_client api_endpoint token user_agent
      (record { check_redirect = λ next via. Http.use_last_response })

-- The two results of `Reconcile`.
pub record Reconciled : Type 0 where
  pub result : Result
  pub failure : Option Error

empty_result : Result
empty_result = record { state = unset; observed = []; action_id = pos 0 }

module _ (rt : Runtime) (c : Client) (ctx : Context) where
  -- A 404 counts as an absent RRset, whatever else went wrong with it; `none` is "not found".
  found_values : Reply (List Text) → Outcome (Option (List Text))
  found_values (status, err e) = if status == 404 then ok none else err e
  found_values (status, ok values) = if status == 404 then ok none else ok (some values)

  -- `getRRSet`.
  unfoldable pub get_rrset : Record → World → Outcome (Option (List Text)) × World
  unfolding found_values
  get_rrset target w =
      let (reply, w') = get_json rt c rt.unmarshal_rrset ctx (rrset_path target) w in
      (found_values reply, w')

  checked_action : Outcome Action → Outcome Action
  checked_action (err e) = err e
  checked_action (ok action) =
      if leb_ℤ action.id (pos 0)
      then err (plain (text "hetzner API returned an invalid action ID"))
      else ok action

  -- `mutate`.
  unfoldable pub mutate : Text → Body → World → Outcome Action × World
  unfolding checked_action
  mutate path body w =
      let (reply, w') = post_json rt c rt.unmarshal_action ctx path body w in
      (checked_action reply.1, w')

  -- `createRRSet`.
  unfoldable pub create_rrset : Record → Addr → World → Outcome Action × World
  create_rrset target desired =
      mutate (create_path target)
        (create_body target.name target.kind target.ttl (rt.netip.show_addr desired))

  -- `setRecords`.
  unfoldable pub set_records : Record → Addr → World → Outcome Action × World
  set_records target desired =
      mutate (rrset_path target ++ text "/actions/set_records")
        (set_body (rt.netip.show_addr desired))

  -- The end of both branches: wait for the action that a mutation started.
  finish_with : State → List Text → Action → Option Error → Reconciled
  finish_with state values action none = record {
    result = record { state = state; observed = values; action_id = action.id };
    failure = none;
  }
  finish_with state values action (some e) = record {
    result = record { state = unset; observed = values; action_id = action.id };
    failure = some e;
  }

  pub settle : State → List Text → Outcome Action × World → Reconciled × World
  unfolding finish_with empty_result
  settle state values (err e, w) =
      (record { result = record empty_result { observed = values }; failure = some e }, w)
  settle state values (ok action, w) =
      let (ended, w') = await_action rt c ctx action w in
      (finish_with state values action ended, w')

  matches : Addr → Option Addr → Bool
  matches desired none = false
  matches desired (some current) = addr_eq (unmap current) (unmap desired)

  -- Whether the RRset has one value, which is the desired address.
  is_current : Addr → List Text → Bool
  unfolding matches
  is_current desired (value ∷ []) = matches desired (rt.netip.parse_addr value)
  is_current desired _ = false

  when_found : Record → Addr → List Text → World → Reconciled × World
  unfolding is_current settle
  when_found target desired values w =
      if is_current desired values
      then (
        record {
          result = record { state = unchanged; observed = values; action_id = pos 0 };
          failure = none;
        },
        w,
      )
      else if ltb 1 (length values) && (if target.replace_all then false else true)
      then (
        record {
          result = record empty_result { observed = values };
          failure = some (multi_value (length values));
        },
        w,
      )
      else settle updated values (set_records target desired w)

  when_absent : Record → Addr → World → Reconciled × World
  unfolding settle
  when_absent target desired w =
      if target.create
      then settle created [] (create_rrset target desired w)
      else (record { result = empty_result; failure = some missing }, w)

  after_get : Record → Addr → Outcome (Option (List Text)) × World → Reconciled × World
  after_get target desired (err e, w) = (record { result = empty_result; failure = some e }, w)
  after_get target desired (ok none, w) = when_absent target desired w
  after_get target desired (ok (some values), w) = when_found target desired values w

  -- `Reconcile`.
  unfoldable pub reconcile : Record → Addr → World → Reconciled × World
  unfolding after_get when_found when_absent empty_result
  reconcile target desired w = after_get target desired (get_rrset target w)
