-- ===== src/Main/Flags.antt =====
-- The flags of cmd/hetdns/main.go, as the flag package reads them.
use hetdns.Prelude.{
  ◌≡◌, refl, ℕ, ◌*◌, Bool, true, false, Option, none, some, List, [], ◌∷◌, any, if◌then◌else◌, ◌==◌,
  ◌||◌, length,
}
use hetdns.Prelude.Int.{ℤ, pos, minute}
use hetdns.Prelude.Text.{Text, text, text_eq}
use hetdns.Prelude.ParseBool.{parse_bool}
use hetdns.Prelude.Environment.{Environment, env_or}

-- The values of the flags, and the names of those that were given.
pub record Flags : Type 0 where
  pub config : Text
  pub token_file : Text
  pub interval : ℤ
  pub listen : Text
  pub log_level : Text
  pub log_format : Text
  pub history_limit : ℤ
  pub check : Bool
  pub version : Bool
  pub explicit : List Text

-- The flags as they are declared.
unfoldable pub default_flags : Environment → Flags
default_flags env = record {
  config = env_or env (text "HETDNS_CONFIG") (text "/etc/hetdns/config.json");
  token_file = env_or env (text "HETDNS_HETZNER_TOKEN_FILE") [];
  interval = pos (5 * minute);
  listen = env_or env (text "HETDNS_LISTEN") (text ":8080");
  log_level = env_or env (text "HETDNS_LOG_LEVEL") (text "info");
  log_format = env_or env (text "HETDNS_LOG_FORMAT") (text "json");
  history_limit = pos 100;
  check = false;
  version = false;
  explicit = [];
}

-- What the arguments come to: the flags and the arguments after them, help, or an error.
pub data Arguments : Type 0 where
  flags : Flags → List Text → Arguments
  help : Arguments
  invalid : Arguments

-- One argument: it is none of a flag, the end of the flags, no flag's syntax, or a flag with its name
-- and, after an equals sign, its value.
pub data Argument : Type 0 where
  other : Argument
  end_of_flags : Argument
  malformed : Argument
  flag : Text → Option Text → Argument

-- A name and what follows the first equals sign after its first byte.
with_byte : ℕ → Text × Option Text → Text × Option Text
with_byte c (name, value) = (c ∷ name, value)

split_equals : Text → Text × Option Text
unfolding with_byte
split_equals [] = ([], none)
split_equals (c ∷ cs) =
    let rest = with_byte c (split_equals cs) in if c == b'=' then ([], some cs) else rest

flag_of : Text → Argument
unfolding with_byte split_equals
flag_of [] = malformed
flag_of (c ∷ cs) =
    let (name, value) = with_byte c (split_equals cs) in
    if c == b'-' || c == b'=' then malformed else flag name value

argument : Text → Argument
unfolding flag_of
argument [] = other
argument (c ∷ []) = other
argument (c ∷ d ∷ []) =
    if c == b'-' then (if d == b'-' then end_of_flags else flag_of (d ∷ [])) else other
argument (c ∷ d ∷ e ∷ cs) =
    if c == b'-' then (if d == b'-' then flag_of (e ∷ cs) else flag_of (d ∷ e ∷ cs)) else other

abbrev is_bool_flag : Text → Bool
is_bool_flag name = text_eq name (text "check") || text_eq name (text "version")

abbrev is_value_flag : Text → Bool
is_value_flag name = any (text_eq name) (
    text "config"
    ∷ text "token-file"
    ∷ text "interval"
    ∷ text "listen"
    ∷ text "log-level"
    ∷ text "log-format"
    ∷ text "history-limit"
    ∷ [])

-- `time.ParseDuration`, and `strconv.ParseInt` in base 0 with 64 bits.
pub record Parsers : Type 0 where
  pub parse_duration : Text → Option ℤ
  pub parse_int : Text → Option ℤ

set_duration : Option ℤ → Flags → Option Flags
set_duration none f = none
set_duration (some d) f = some (record f { interval = d })

set_limit : Option ℤ → Flags → Option Flags
set_limit none f = none
set_limit (some n) f = some (record f { history_limit = n })

set_bool : (Bool → Flags → Flags) → Option Bool → Flags → Option Flags
set_bool put none f = none
set_bool put (some b) f = some (put b f)

module _ (parsers : Parsers) where
  -- `Set` of a flag, before it counts as given.
  set_value : Text → Text → Flags → Option Flags
  unfolding set_duration set_limit set_bool
  set_value name value f =
      if text_eq name (text "config")
      then some (record f { config = value })
      else if text_eq name (text "token-file")
      then some (record f { token_file = value })
      else if text_eq name (text "interval")
      then set_duration (parsers.parse_duration value) f
      else if text_eq name (text "listen")
      then some (record f { listen = value })
      else if text_eq name (text "log-level")
      then some (record f { log_level = value })
      else if text_eq name (text "log-format")
      then some (record f { log_format = value })
      else if text_eq name (text "history-limit")
      then set_limit (parsers.parse_int value) f
      else if text_eq name (text "check")
      then set_bool (λ b g. record g { check = b }) (parse_bool value) f
      else if text_eq name (text "version")
      then set_bool (λ b g. record g { version = b }) (parse_bool value) f
      else none

  given : Text → Option Flags → Option Flags
  given name none = none
  given name (some f) = some (record f { explicit = name ∷ f.explicit })

  on_set : Option Flags → (Flags → Arguments) → Arguments
  on_set none next = invalid
  on_set (some f) next = next f

  unknown : Text → Arguments
  unknown name = if text_eq name (text "help") || text_eq name (text "h") then help else invalid

  -- A flag: a Boolean one without a value is true; another one without a value waits for the next
  -- argument.
  on_flag : Text → Option Text → Flags → (Option Text → Flags → Arguments) → Arguments
  unfolding on_set set_value given unknown
  on_flag name none f next =
      if is_bool_flag name
      then on_set (given name (set_value name (text "true") f)) (λ g. next none g)
      else if is_value_flag name
      then next (some name) f
      else unknown name
  on_flag name (some value) f next =
      if is_bool_flag name || is_value_flag name
      then on_set (given name (set_value name value f)) (λ g. next none g)
      else unknown name

  on_argument : Argument → Text → List Text → Flags → (Option Text → Flags → Arguments) → Arguments
  unfolding on_flag
  on_argument other arg rest f next = flags f (arg ∷ rest)
  on_argument end_of_flags arg rest f next = flags f rest
  on_argument malformed arg rest f next = invalid
  on_argument (flag name value) arg rest f next = on_flag name value f next

  -- The loop of `Parse`, with the flag that waits for its value, if there is one.
  unfoldable pub parse_arguments : List Text → Option Text → Flags → Arguments
  unfolding on_set set_value given on_argument argument
  parse_arguments [] none f = flags f []
  parse_arguments [] (some name) f = invalid
  parse_arguments (arg ∷ rest) (some name) f =
      on_set (given name (set_value name arg f)) (λ g. parse_arguments rest none g)
  parse_arguments (arg ∷ rest) none f =
      on_argument (argument arg) arg rest f (λ waiting g. parse_arguments rest waiting g)

parsers_test : Parsers
parsers_test = record { parse_duration = λ s. some (pos 7); parse_int = λ s. none }

abbrev env_test : Environment
env_test key = none

abbrev flags_of : Arguments → Option (Text × ℤ × Bool × ℕ)
flags_of (flags f rest) = some (f.config, f.interval, f.check, length rest)
flags_of help = none
flags_of invalid = none

parse_arguments_test :
    (flags_of (
        parse_arguments parsers_test
          (text "-config=a=b"
            ∷ text "--interval"
            ∷ text "7ns"
            ∷ text "-check"
            ∷ text "--"
            ∷ text "x"
            ∷ [])
          none
          (default_flags env_test))
      ≡ some (text "a=b", pos 7, true, 1))
    × (parse_arguments parsers_test (text "-h" ∷ []) none (default_flags env_test) ≡ help)
    × (parse_arguments parsers_test (text "-listen" ∷ []) none (default_flags env_test) ≡ invalid)
unfolding parse_arguments default_flags parsers_test text_eq parse_bool
parse_arguments_test = (refl, refl, refl)
