-- ===== src/Tests/Data.antt =====
-- A configuration, a runtime and a provider for the tests.
use hetdns.Prelude.{◌≢◌, arith, ℕ, ◌+◌, true, false, none, some, List, [], ◌∷◌, if◌then◌else◌}
use hetdns.Prelude.Int.{pos, minute}
use hetdns.Prelude.Text.{Text, text, text_eq}
use hetdns.Prelude.Map.{keys}
use mathlib.Core.List.{Nodup, Nodup-nil, Nodup-cons, not-mem-nil, Mem, mem_of_ne_of_mem}
use hetdns.Addr.{Addr, v4, Netip}
use hetdns.BuildInfo.{Info}
use hetdns.Config
use hetdns.Config.{Config}
use hetdns.Hetzner.Types.{Record, Action, missing, created, unset}
use hetdns.Hetzner.Env.{Runtime, World, Context}
use hetdns.Hetzner.Client.{Reconciled}
use hetdns.Reconcile.State.{Env, Cycle, SourceResult}
use hetdns.Status.{Store, new_store}

abbrev pub build : Info
build = record { version = text "1"; commit = text "c"; date = text "d" }

abbrev pub source_spec : Config.Source
source_spec = record {
  kind = text "http";
  family = text "ipv4";
  url = text "https://ip.example";
  argv = [];
  timeout = pos 0;
  user_agent = none;
  allow_non_public = false;
  allow_insecure_http = false;
  allow_private_networks = false;
}

abbrev pub record_spec : Text → Config.Record
record_spec zone = record {
  zone = zone;
  name = text "www";
  kind = text "A";
  source = text "wan";
  ttl = 60;
  create = none;
  replace_all = false;
}

-- Two records, the second of a zone that the provider of `env` refuses.
abbrev pub cfg : Config
cfg = record {
  sources = (text "wan", source_spec) ∷ [];
  records =
      (text "b", record_spec (text "bad.example"))
      ∷ (text "a", record_spec (text "good.example"))
      ∷ [];
}

abbrev pub home : Addr
home = v4 3221225985

abbrev pub netip : Netip
netip = record { parse_addr = λ t. none; show_addr = λ a. text "192.0.2.1" }

abbrev answer_to : Record → Reconciled
answer_to target =
    if text_eq target.zone (text "bad.example")
    then record {
      result = record { state = unset; observed = []; action_id = pos 0 };
      failure = some missing;
    }
    else record {
      result = record { state = created; observed = []; action_id = pos 7 };
      failure = none;
    }

-- The provider's world counts its calls.
abbrev pub env : Env ℕ
env = record {
  netip = netip;
  clock = λ reads. minute + reads;
  reconcile = λ timeout target address calls. (answer_to target, calls + 1);
}

abbrev pub results : List (Text × SourceResult)
results = (text "wan", record { address = home; err = none; duration = pos 5 }) ∷ []

abbrev pub store : Store
store = new_store 1 build cfg 2

abbrev pub first_cycle : Cycle ℕ
first_cycle = record { store = store; backoff = []; world = 0; reads = 0; measures = [] }

-- A runtime whose network answers every request with an action that runs.
abbrev pub running_action : Action
running_action = record { id = pos 7; status = text "running"; failure = none }

abbrev pub rt : Runtime
rt = record {
  netip = netip;
  accepts = λ r. true;
  send = λ w r. (1000, some (record { status = 200; retry_after = []; body = some (text "body") }));
  random = λ w. 5;
  prefers_done = λ w. true;
  marshal = λ b. some (text "{}");
  unmarshal_rrset = λ t. some (text "198.51.100.7" ∷ []);
  unmarshal_action = λ t. some running_action;
  unmarshal_error = λ t. none;
  parse_time = λ t. none;
  quote = λ t. t;
}

abbrev pub ctx : Context
ctx = record { done_at = none; reason = text "context canceled" }

abbrev pub world : World
world = record { now = 5; sent = [] }

abbrev pub target : Record
target = record {
  id = text "a";
  zone = text "good.example";
  name = text "www";
  kind = text "A";
  ttl = 60;
  create = true;
  replace_all = false;
}

pub source_keys : Nodup (keys cfg.sources)
source_keys = Nodup-cons.1 (not-mem-nil, Nodup-nil)

names_differ : text "b" ≢ text "a"
names_differ e = ground (arith, e)

b_ne_a : ¬ Mem (text "b") (text "a" ∷ [])
b_ne_a m = not-mem-nil (mem_of_ne_of_mem names_differ m)

pub record_keys : Nodup (keys cfg.records)
record_keys = Nodup-cons.1 (b_ne_a, Nodup-cons.1 (not-mem-nil, Nodup-nil))
