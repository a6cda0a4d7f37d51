-- ===== src/Tests/Guards.antt =====
-- internal/config, internal/source and internal/scheduler at concrete inputs.
use hetdns.Prelude.{
  ℕ, ◌+◌, ◌*◌, ◌^◌, ◌≤◌, ◌≡◌, ◌≢◌, ◌↔◌, ◌⊎◌, refl, true, false, none, some, [], ◌∷◌, All, arith,
  length, take,
}
use hetdns.Prelude.Int.{pos, ltb_ℤ}
use hetdns.Prelude.Text.{Text, text, text_eq}
use hetdns.Prelude.Trim.{trim_blank, has_prefix}
use hetdns.Prelude.Map.{lookup}
use hetdns.Addr.{Addr, Netip, v4, v6, unmap, addr_eq}
use hetdns.Addr.Ranges.{
  is_4, is_global_unicast, is_loopback, is_multicast, is_link_local_unicast, is_private,
  is_link_local_multicast, is_unspecified, contains,
}
use hetdns.Config.Names.{valid_id, valid_domain, valid_labels, split_dots, valid_label, valid_owner}
use hetdns.Config.Names.Labels.{IsDomain, valid_domain_iff}
use hetdns.Config.Validate.{Codec, validate, validate_source, validate_record}
use hetdns.Config.Validate.Sound.{SourceEntry, RecordEntry, validate_iff}
use hetdns.Config.Token.{File, content, read_token, Given, IsToken, read_token-IsToken}
use hetdns.Source.Public.{OutsideSpecial, is_public_iff, is_public, zone_hides}
use hetdns.Source.Parse.{family_of, address, ipv4, parse_address}
use hetdns.Source.Parse.Accepts.{Accepted, parse_address_iff}
use hetdns.Source.Buffer.{new_buffer, write, write_all, all_bytes, buffer_keeps}
use hetdns.Source.Dial.{Net, safe_dial, check_redirect}
use hetdns.Source.Dial.Safe.{Dials, safe_dial-MayDial, start, redirect, IsHttps, redirects_safe}
use hetdns.Source.Fetch.{
  HttpSource, CommandSource, Web, Answer, Ran, Invocation, succeeded, fetch_http, new_http, request,
  fetch_command, invocation,
}
use hetdns.Source.Fetch.Whole.{WholeAnswer, WholeRun, fetch_http-Whole, fetch_command-Whole}
use hetdns.Scheduler.{Setup, rounds, delay_of}
use hetdns.Scheduler.Rounds.{Spaced, Stops, machine_of, rounds-Spaced}
use hetdns.Scheduler.Delay.{delay_wraps}
use hetdns.Source.Family.{MayHold, Yields, by_http, valid_family}
use hetdns.Tests.Data.{source_spec, record_spec, cfg, store}

abbrev pub codec : Codec
codec = record {
  parse_url = λ url. some (record {
    scheme = text "https";
    host = text "ip.example";
    hostname = text "ip.example";
    has_user = false;
    fragment = [];
  });
  quote = λ s. s;
}

validate_iff_example : (validate codec cfg ≡ none) ↔ (
    (cfg.sources ≢ [])
    × (cfg.records ≢ [])
    × All (SourceEntry codec) cfg.sources
    × All (RecordEntry codec cfg.sources) cfg.records)
validate_iff_example = validate_iff codec cfg

valid_domain_iff_example :
    (valid_domain (text "a-1.example") ≡ true) ↔ IsDomain (text "a-1.example")
valid_domain_iff_example = valid_domain_iff (text "a-1.example")

pub cfg_valid : validate codec cfg ≡ none
unfolding validate valid_id validate_source text_eq validate_record valid_domain valid_labels
    split_dots valid_label valid_owner has_prefix lookup
cfg_valid = refl

-- 8.8.8.8.
abbrev resolver : Addr
resolver = v4 134744072

abbrev netip : Netip
netip = record { parse_addr = λ s. some resolver; show_addr = λ a. text "8.8.8.8" }

parse_address_iff_example :
    (parse_address netip (text "8.8.8.8 ") ipv4 false ≡ address resolver) ↔ (
      (trim_blank (text "8.8.8.8 ") ≢ [])
      × ((a : Addr) × (netip.parse_addr (trim_blank (text "8.8.8.8 ")) ≡ some a)
          × (unmap a ≡ resolver)
          × Accepted ipv4 false resolver))
parse_address_iff_example = parse_address_iff netip (text "8.8.8.8 ") ipv4 false resolver

-- 2600::1.
is_public_iff_example :
    (is_public (v6 (0x2600 * 2 ^ 112 + 1) []) ≡ true)
    ↔ OutsideSpecial (v6 (0x2600 * 2 ^ 112 + 1) [])
is_public_iff_example =
    is_public_iff (v6 (0x2600 * 2 ^ 112 + 1) []) (omega arith, λ e. ground (arith, e))

-- 2001:db8::1%e.
zone_hides_example : is_public (v6 (0x20010db8 * 2 ^ 96 + 1) (b'e' ∷ [])) ≡ true
zone_hides_example = zone_hides (0x20010db8 * 2 ^ 96 + 1) b'e' [] (omega arith)

-- A name with a loopback address and a public one.
abbrev net : Net ℕ
net = record {
  split_host_port = λ s. some (s, text "443");
  join_host_port = λ h p. h;
  look_up = λ h w. (some (v4 2130706433 ∷ resolver ∷ []), w);
  dial = λ d w. (none, w + 1);
}

safe_dial-MayDial_example :
    Dials netip net false
      (text "ip.example")
      0
      (safe_dial netip net false (text "ip.example") 0).1.dialed
safe_dial-MayDial_example = safe_dial-MayDial netip net false (text "ip.example") 0

redirects_safe_example :
    (length (text "https" ∷ text "https" ∷ []) ≤ 3) × All IsHttps (text "https" ∷ text "https" ∷ [])
unfolding check_redirect text_eq
redirects_safe_example =
    redirects_safe (text "https" ∷ text "https" ∷ [])
      (redirect (text "https" ∷ []) (text "https") start refl)

abbrev source : HttpSource
source = record {
  id = text "wan";
  family = ipv4;
  url = text "https://ip.example";
  allow_non_public = false;
  user_agent = text "hetdns";
  timeout = pos 1000;
  allow_private_networks = false;
}

abbrev web : Web ℕ
web = record {
  accepts = λ r. true;
  send = λ r w. (some (record { status = 200; body = some (text "8.8.8.8") }), w);
}

parsed : parse_address netip (text "8.8.8.8") ipv4 false ≡ address resolver
unfolding parse_address trim_blank is_4 unmap is_public is_global_unicast is_loopback is_multicast
    is_link_local_unicast is_private is_link_local_multicast is_unspecified addr_eq contains
parsed = refl

fetched : (fetch_http netip web source 0).0 ≡ address resolver
unfolding fetch_http
fetched = parsed

fetch_http-Whole_example :
    (answer : Answer) × ((web.send (request netip web source) 0).0 ≡ some answer)
    × WholeAnswer netip web source resolver answer
fetch_http-Whole_example = fetch_http-Whole netip web source resolver 0 fetched

abbrev command : CommandSource
command = record {
  id = text "wan";
  family = ipv4;
  argv = text "/bin/ip" ∷ [];
  timeout = pos 1000;
  allow_non_public = false;
}

abbrev execute : Invocation → ℕ → Ran × ℕ
execute i w = (record { stdout = text "8.8." ∷ text "8.8" ∷ []; stderr = []; exit = succeeded }, w)

ran : (fetch_command netip execute command 0).0 ≡ address resolver
unfolding fetch_command write_all write
ran = parsed

fetch_command-Whole_example :
    WholeRun netip execute command resolver (execute (invocation netip execute command) 0).0
fetch_command-Whole_example = fetch_command-Whole netip execute command resolver 0 ran

buffer_keeps_example :
    let b = write_all (text "8.8." ∷ text "8.8" ∷ []) (new_buffer 5) in
    (b.bytes ≡ take 5 (all_bytes (text "8.8." ∷ text "8.8" ∷ [])))
    × ((length (all_bytes (text "8.8." ∷ text "8.8" ∷ [])) ≤ 5) ⊎ (b.exceeded ≡ true))
    × ((b.exceeded ≡ false) ⊎ (5 ≤ length (all_bytes (text "8.8." ∷ text "8.8" ∷ []))))
buffer_keeps_example = buffer_keeps 5 (text "8.8." ∷ text "8.8" ∷ [])

abbrev setup : Setup
setup = record {
  interval = pos 100;
  run = λ m. (7, m.store);
  done_at = some 250;
  random = λ m. m.now;
  late = λ m. 1;
  prefers_done = λ m. true;
}

rounds-Spaced_example :
    Spaced 100 (machine_of (rounds setup 5 (record { now = 3; store = store; log = [] }))).log
    × Stops setup (rounds setup 5 (record { now = 3; store = store; log = [] }))
rounds-Spaced_example = rounds-Spaced setup 100 5 3 store refl (omega arith)

delay_wraps_example :
    (random : ℕ) × (ltb_ℤ (delay_of (pos 9223372036854775807) random) (pos 0) ≡ true)
delay_wraps_example = delay_wraps 9223372036854775807 (omega arith) (omega arith)

abbrev no_file : Text → File
no_file path = content []

read_token-IsToken_example :
    (bytes : Text) × Given no_file [] (text " secret ") bytes × IsToken bytes (text "secret")
unfolding read_token trim_blank
read_token-IsToken_example = read_token-IsToken no_file [] (text " secret ") (text "secret") refl

-- The source of the record `a`, as it is built.
yields : Yields netip web execute (text "hetdns") (text "wan") source_spec 0 resolver
unfolding fetch_http new_http family_of text_eq
yields = by_http parsed

record_found : lookup (text "a") cfg.records ≡ some (record_spec (text "good.example"))
unfolding lookup text_eq
record_found = refl

source_found : lookup (text "wan") cfg.sources ≡ some source_spec
unfolding lookup text_eq
source_found = refl

valid_family_example : MayHold (record_spec (text "good.example")) source_spec resolver
valid_family_example =
    valid_family codec cfg netip web execute (text "hetdns") (text "a")
      (record_spec (text "good.example")) source_spec 0 resolver cfg_valid record_found source_found
      yields
