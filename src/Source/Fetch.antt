-- ===== src/Source/Fetch.antt =====
-- The two kinds of sources: `Fetch` of internal/source/http.go and of internal/source/command.go,
-- and `New` of internal/source/source.go.
pub mod Whole
use hetdns.Prelude.{
  ℕ, ◌+◌, ◌*◌, min, Bool, true, false, ◌||◌, ◌++◌, Option, none, some, List, [], ◌∷◌, length, take,
  ltb, leb, ◌==◌, if◌then◌else◌,
}
use hetdns.Prelude.Int.{ℤ, pos, second}
use hetdns.Prelude.Text.{Text, text, text_eq, decimal}
use hetdns.Prelude.Sort.{sort_texts}
use hetdns.Prelude.Map.{Map, lookup, or_zero, keys}
use hetdns.Addr.{Netip}
use hetdns.Config
use hetdns.Source.Parse.{Family, family_of, Fetched, failed, parse_address}
use hetdns.Source.Buffer.{Buffer, new_buffer, write_all}

abbrev pub max_source_output : ℕ
max_source_output = 1024

-- What a missing key of the map of sources reads as.
abbrev pub zero_spec : Config.Source
zero_spec = record {
  kind = [];
  family = [];
  url = [];
  argv = [];
  timeout = pos 0;
  user_agent = none;
  allow_non_public = false;
  allow_insecure_http = false;
  allow_private_networks = false;
}

-- `HTTP`, with what its client is set up with; timeouts are in nanoseconds.
pub record HttpSource : Type 0 where
  pub id : Text
  pub family : Family
  pub url : Text
  pub allow_non_public : Bool
  pub user_agent : Text
  pub timeout : ℤ
  pub allow_private_networks : Bool

-- `Command`.
pub record CommandSource : Type 0 where
  pub id : Text
  pub family : Family
  pub argv : List Text
  pub timeout : ℤ
  pub allow_non_public : Bool

abbrev default_timeout : ℤ → ℤ
default_timeout (pos n) = if n == 0 then pos (10 * second) else pos n
default_timeout n = n

abbrev own_user_agent : Option Text → Text → Text
own_user_agent none user_agent = user_agent
own_user_agent (some own) user_agent = own

-- `NewHTTP`, which never fails.
unfoldable pub new_http : Text → Config.Source → Text → HttpSource
new_http id spec user_agent = record {
  id = id;
  family = family_of spec.family;
  url = spec.url;
  allow_non_public = spec.allow_non_public;
  user_agent = own_user_agent spec.user_agent user_agent;
  timeout = default_timeout spec.timeout;
  allow_private_networks = spec.allow_private_networks;
}

abbrev pub command_of : List Text → Text → Config.Source → Option CommandSource
command_of [] id spec = none
command_of (arg ∷ args) id spec = some (record {
  id = id;
  family = family_of spec.family;
  argv = arg ∷ args;
  timeout = default_timeout spec.timeout;
  allow_non_public = spec.allow_non_public;
})

-- `NewCommand`; `none` is the error for an empty command.
unfoldable pub new_command : Text → Config.Source → Option CommandSource
new_command id spec = command_of spec.argv id spec

-- The request of a fetch.
pub record Get : Type 0 where
  pub url : Text
  pub user_agent : Text
  pub accept : Text

-- A response; a body of `none` fails while it is read.
pub record Answer : Type 0 where
  pub status : ℕ
  pub body : Option Text

-- `http.NewRequestWithContext` accepts a request or not; `Do`, with the client's redirects, may fail.
pub record Web (W : Type 0) : Type 0 where
  pub accepts : Get → Bool
  pub send : Get → W → Option Answer × W

module _ {W : Type 0} (netip : Netip) (web : Web W) (s : HttpSource) where
  read_answer : ℕ → Option Text → Fetched
  read_answer status none =
      if ltb status 200 || leb 300 status
      then failed (text "HTTP source returned status " ++ decimal status)
      else failed (text "read HTTP source response")
  read_answer status (some body) =
      let output = take (max_source_output + 1) body in
      if ltb status 200 || leb 300 status
      then failed (text "HTTP source returned status " ++ decimal status)
      else if ltb max_source_output (length output)
      then failed (text "HTTP source response is too large")
      else parse_address netip output s.family s.allow_non_public

  on_answer : Option Answer × W → Fetched × W
  unfolding read_answer
  on_answer (none, w) = (failed (text "HTTP source request failed"), w)
  on_answer (some r, w) = (read_answer r.status r.body, w)

  abbrev pub request : Get
  request = record { url = s.url; user_agent = s.user_agent; accept = text "text/plain" }

  -- `Fetch` of an HTTP source.
  unfoldable pub fetch_http : W → Fetched × W
  unfolding on_answer
  fetch_http w =
      if web.accepts request
      then on_answer (web.send request w)
      else (failed (text "create source request"), w)

-- How a command ends: well, by its context's deadline, by an error of the writer that takes its
-- output, or by another error.
pub data Exit : Type 0 where
  succeeded : Exit
  timed_out : Exit
  output_limit : Exit
  unsuccessful : Exit

-- What is started: the environment is the same for all commands.
pub record Invocation : Type 0 where
  pub argv : List Text
  pub directory : Text
  pub environment : List Text
  pub timeout : ℤ

-- A run of a command: the chunks that it writes to each stream, and how it ends.
pub record Ran : Type 0 where
  pub stdout : List Text
  pub stderr : List Text
  pub exit : Exit

module _ {W : Type 0} (netip : Netip) (execute : Invocation → W → Ran × W) (s : CommandSource) where
  too_large : Fetched
  too_large = failed (text "command source output is too large")

  on_exit : Exit → Buffer → Buffer → Fetched
  unfolding too_large
  on_exit timed_out stdout stderr = failed (text "command source timed out")
  on_exit output_limit stdout stderr = too_large
  on_exit unsuccessful stdout stderr = failed (text "command source exited unsuccessfully")
  on_exit succeeded stdout stderr =
      if stdout.exceeded || stderr.exceeded
      then too_large
      else parse_address netip stdout.bytes s.family s.allow_non_public

  abbrev pub invocation : Invocation
  invocation = record {
    argv = s.argv;
    directory = text "/";
    environment = text "PATH=/usr/bin:/bin" ∷ text "LANG=C" ∷ text "LC_ALL=C" ∷ [];
    timeout = s.timeout;
  }

  -- `Fetch` of a command source.
  unfoldable pub fetch_command : W → Fetched × W
  unfolding on_exit
  fetch_command w =
      let (ran, w') = execute invocation w in
      (
        on_exit ran.exit (write_all ran.stdout (new_buffer max_source_output))
            (write_all ran.stderr (new_buffer max_source_output)),
        w',
      )
