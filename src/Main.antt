-- ===== src/Main.antt =====
-- cmd/hetdns/main.go: from the arguments to an exit code.
pub mod Flags
pub mod Settings
pub mod Step
pub mod Walk
pub mod Exits
pub mod Starts
use hetdns.Prelude.{
  ℕ, ◌++◌, Bool, true, false, not, ◌||◌, ◌&&◌, Option, none, some, List, [], ◌∷◌, any,
  if◌then◌else◌,
}
use hetdns.Prelude.Int.{ℤ, pos, minute, ltb_ℤ}
use hetdns.Prelude.Text.{Text, text, text_eq}
use hetdns.Prelude.Atoi.{atoi}
use hetdns.BuildInfo.{Info, new_info}
use hetdns.Config.{Config}
use hetdns.Config.Validate.{Codec}
use hetdns.Config.Parse
use hetdns.Config.Parse.{Reader, Parsed, parsed, not_parsed, load_config}
use hetdns.Config.Token
use hetdns.Config.Token.{token, refused, read_token}
use hetdns.Prelude.Environment.{Environment, getenv}
use hetdns.App.{Options}
use hetdns.Main.Settings.{
  Level, parse_log_level, Setting, set, bad, environment_duration, environment_int,
}
use hetdns.Main.Flags.{Arguments, Parsers, help, invalid, parse_arguments, default_flags}

-- What the logger is made with: its level, and whether it writes text or JSON.
pub record Logging : Type 0 where
  pub level : Level
  pub as_text : Bool

-- What the program runs in: the environment, the parsers of the flags with the message of a duration
-- that is none, the files, the values that the build has set, and the service with the error that it
-- returns, if it does.
pub record System : Type 0 where
  pub env : Environment
  pub parsers : Parsers
  pub duration_error : Text → Text
  pub reader : Reader
  pub codec : Codec
  pub config_at : Text → Parse.File
  pub token_at : Text → Token.File
  pub build_version : Text
  pub build_commit : Text
  pub build_date : Text
  pub service : Options → Option Text

-- An exit: its code, what `run` itself has written to the standard output and as an error, and what
-- the service was started with, if it was.
pub record Exit : Type 0 where
  pub code : ℕ
  pub out : Text
  pub message : Text
  pub started : Option (Options × Logging)

abbrev pub tells : Text → Exit
tells out = record { code = 0; out = out; message = []; started = none }

abbrev pub refuses : Text → Exit
refuses message = record { code = 2; out = []; message = message; started = none }

-- An early return.
pub guard : Bool → Text → Exit → Exit
guard true message next = refuses message
guard false message next = next

pub with_setting : Setting → (ℤ → Exit) → Exit
with_setting (set n) next = next n
with_setting (bad e) next = refuses e

pub with_level : Option Level → (Level → Exit) → Exit
with_level none next = refuses (text "log-level must be debug, info, warn, or error")
with_level (some level) next = next level

pub with_config : Parsed → (Config → Exit) → Exit
with_config (parsed cfg) next = next cfg
with_config (not_parsed e) next = refuses (text "configuration error: " ++ e)

pub with_token : Token.Token → (Text → Exit) → Exit
with_token (token t) next = next t
with_token (refused e) next = refuses (text "secret error: " ++ e)

-- The exit once the service has returned.
unfoldable pub exit_of : Options × Logging → Option Text → Exit
exit_of started none = record { code = 0; out = []; message = []; started = some started }
exit_of started (some e) = record {
  code = 1;
  out = [];
  message = text "service failed";
  started = some started;
}

pub build_text : Info → Text
build_text build =
    text "hetdns "
    ++ (build.version
        ++ (text "\ncommit: " ++ (build.commit ++ (text "\nbuilt: " ++ (build.date ++ text "\n")))))

module _ (system : System) where
  pub interval_of : Flags.Flags → Setting
  interval_of f =
      if any (text_eq (text "interval")) f.explicit
      then set f.interval
      else environment_duration system.env system.parsers.parse_duration system.duration_error
          (text "HETDNS_INTERVAL") f.interval

  pub limit_of : Flags.Flags → Setting
  limit_of f =
      if any (text_eq (text "history-limit")) f.explicit
      then set f.history_limit
      else environment_int system.env (text "HETDNS_HISTORY_LIMIT") f.history_limit

  pub build : Info
  build = new_info system.build_version system.build_commit system.build_date

  options_of : Flags.Flags → ℤ → ℤ → Config → Text → Options
  unfolding build
  options_of f interval limit cfg secret = record {
    config = cfg;
    token = secret;
    interval = interval;
    listen = f.listen;
    history_limit = limit;
    build = build;
  }

  logging_of : Flags.Flags → Level → Logging
  logging_of f level = record { level = level; as_text = text_eq f.log_format (text "text") }

  -- With the configuration and the token.
  start : Flags.Flags → Options → Logging → Exit
  unfolding exit_of
  start f options logging =
      if f.check
      then tells (text "configuration is valid\n")
      else exit_of (options, logging) (system.service options)

  -- From the secret on, and from the configuration on.
  on_secret : Flags.Flags → ℤ → ℤ → Level → Config → Text → Exit
  unfolding start options_of logging_of
  on_secret f interval limit level cfg secret =
      start f (options_of f interval limit cfg secret) (logging_of f level)

  on_config : Flags.Flags → ℤ → ℤ → Level → Config → Exit
  unfolding with_token on_secret
  on_config f interval limit level cfg =
      with_token
        (read_token system.token_at f.token_file (getenv system.env (text "HETDNS_HETZNER_TOKEN")))
        (on_secret f interval limit level cfg)

  on_level : Flags.Flags → ℤ → ℤ → Level → Exit
  unfolding guard with_config on_config
  on_level f interval limit level =
      guard (not (text_eq f.log_format (text "json")) && not (text_eq f.log_format (text "text")))
        (text "log-format must be json or text")
        (with_config (load_config system.reader system.codec system.config_at f.config)
          (on_config f interval limit level))

  -- From the checks of the values on.
  checked : Flags.Flags → ℤ → ℤ → Exit
  unfolding guard with_level on_level
  checked f interval limit =
      guard (ltb_ℤ interval (pos minute)) (text "interval must be at least 1m") (
        guard (ltb_ℤ limit (pos 1) || ltb_ℤ (pos 10000) limit)
          (text "history-limit must be between 1 and 10000")
          (with_level (parse_log_level f.log_level) (on_level f interval limit)))

  on_limit : Flags.Flags → ℤ → ℤ → Exit
  unfolding checked build_text build
  on_limit f interval limit =
      let rest = checked f interval limit in if f.version then tells (build_text build) else rest

  on_interval : Flags.Flags → ℤ → Exit
  unfolding with_setting limit_of on_limit
  on_interval f interval = with_setting (limit_of f) (on_limit f interval)

  unfoldable pub on_flags : Flags.Flags → Exit
  unfolding with_setting interval_of on_interval
  on_flags f = with_setting (interval_of f) (on_interval f)

  on_arguments : Arguments → Exit
  unfolding on_flags
  on_arguments help = tells []
  on_arguments invalid = refuses []
  on_arguments (Flags.flags f []) = on_flags f
  on_arguments (Flags.flags f (arg ∷ rest)) =
      refuses (text "hetdns does not accept positional arguments")

  -- `run`.
  unfoldable pub run : List Text → Exit
  unfolding on_arguments
  run arguments =
      on_arguments (parse_arguments system.parsers arguments none (default_flags system.env))
