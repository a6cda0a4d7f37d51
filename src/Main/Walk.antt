-- ===== src/Main/Walk.antt =====
-- The steps that cmd/hetdns/main.go takes once the flags are read.
use hetdns.Prelude.{◌++◌, ℕ, ◌≤◌, ◌≡◌, Bool, true, false, ◌||◌, ◌&&◌, not, none, arith, length}
use hetdns.Prelude.Int.{ℤ, pos, negsuc, minute, ◌≤ℤ◌, ltb_ℤ}
use hetdns.Prelude.Text.{Text, text, text_eq}
use hetdns.Config.{Config}
use hetdns.Config.Parse
use hetdns.Config.Parse.{Parsed, parsed, not_parsed, load_config, max_config_size, IsText}
use hetdns.Config.Parse.Sound.{load_config_iff}
use hetdns.Config.Token.{refused, read_token, Given, IsToken, read_token-IsToken}
use hetdns.Prelude.Environment.{getenv}
use hetdns.App.{Options}
use hetdns.Main.{
  Logging, System, Exit, tells, refuses, guard, with_level, exit_of, options_of, logging_of, start,
  on_secret, on_config, on_level, checked, on_limit, on_interval, on_flags, interval_of, limit_of,
  build, build_text,
}
use hetdns.Main.Step.{guard_step, setting_step, level_step, config_step, token_step, message_step}
use hetdns.Main.Settings.{Level, set, bad, parse_log_level}
use hetdns.Main.Flags
use hetdns.Main.Flags.{Arguments, help, invalid, flags, parse_arguments, default_flags}

-- The configuration is that of a file, which it can only be if it is valid.
abbrev pub FromFile : System → Text → Config → Type 0
FromFile system path cfg =
    (bytes : Text) × (system.config_at path ≡ Parse.content bytes)
    × (length bytes ≤ max_config_size)
    × IsText system.reader system.codec bytes cfg

-- The token is that of a file or of the environment.
abbrev pub TokenGiven : System → Text → Text → Type 0
TokenGiven system token_file secret =
    (bytes : Text) × Given system.token_at token_file
      (getenv system.env (text "HETDNS_HETZNER_TOKEN")) bytes
    × IsToken bytes secret

-- What the options of the service are.
abbrev pub AreOptions : System → Flags.Flags → Options → Type 0
AreOptions system f options =
    (pos minute ≤ℤ options.interval)
    × (pos 1 ≤ℤ options.history_limit)
    × (options.history_limit ≤ℤ pos 10000)
    × FromFile system f.config options.config
    × TokenGiven system f.token_file options.token

-- What the service may be started with, with the flags that are in effect.
abbrev pub MayStart : System → Flags.Flags → Options → Type 0
MayStart system f options = (f.check ≡ false) × (f.version ≡ false) × AreOptions system f options

at_least : (n : ℕ) (z : ℤ) → ltb_ℤ z (pos n) ≡ false → pos n ≤ℤ z
at_least n (pos m) e = ground (arith, e)
at_least n (negsuc m) e = ground (arith, e)

at_most : (n : ℕ) (z : ℤ) → ltb_ℤ (pos n) z ≡ false → z ≤ℤ pos n
at_most n (pos m) e = ground (arith, e)
at_most n (negsuc m) e = ground (arith, e)

neither : (a b : Bool) → (a || b) ≡ false → (a ≡ false) × (b ≡ false)
neither a b e = ground (arith, e)

-- Why flags are refused, with the message.
pub data Refusal (system : System) (f : Flags.Flags) : Text → Type 0 where
  bad_interval : (e : Text) → interval_of system f ≡ bad e → Refusal system f e
  bad_limit : (e : Text) → limit_of system f ≡ bad e → Refusal system f e
  short_interval :
      (interval : ℤ)
      → interval_of system f ≡ set interval
      → ltb_ℤ interval (pos minute) ≡ true
      → Refusal system f (text "interval must be at least 1m")
  outside_limit :
      (limit : ℤ)
      → limit_of system f ≡ set limit
      → (ltb_ℤ limit (pos 1) || ltb_ℤ (pos 10000) limit) ≡ true
      → Refusal system f (text "history-limit must be between 1 and 10000")
  bad_level :
      parse_log_level f.log_level ≡ none
      → Refusal system f (text "log-level must be debug, info, warn, or error")
  bad_format :
      (not (text_eq f.log_format (text "json")) && not (text_eq f.log_format (text "text"))) ≡ true
      → Refusal system f (text "log-format must be json or text")
  bad_config :
      (e : Text)
      → load_config system.reader system.codec system.config_at f.config ≡ not_parsed e
      → Refusal system f (text "configuration error: " ++ e)
  bad_token :
      (e : Text)
      → read_token system.token_at f.token_file (getenv system.env (text "HETDNS_HETZNER_TOKEN"))
        ≡ refused e
      → Refusal system f (text "secret error: " ++ e)

-- A property of every way to end holds of what the flags lead to.
module _ (P : Exit → Type 0) (system : System) (f : Flags.Flags)
    (refusal : (message : Text) → Refusal system f message → P (refuses message))
    (version : f.version ≡ true → P (tells (build_text (build system))))
    (validated : (options : Options)
      → f.check ≡ true
      → f.version ≡ false
      → AreOptions system f options
      → P (tells (text "configuration is valid\n")))
    (service : (options : Options) (logging : Logging)
      → MayStart system f options
      → P (exit_of (options, logging) (system.service options))) where
  secret_walk :
      (interval limit : ℤ) (level : Level) (cfg : Config) (secret : Text)
      → f.version ≡ false
      → AreOptions system f (options_of system f interval limit cfg secret)
      → P (on_secret system f interval limit level cfg secret)
  unfolding on_secret start
  secret_walk interval limit level cfg secret no_version fit =
      let options = options_of system f interval limit cfg secret in
      let logging = logging_of system f level in
      message_step P f.check (text "configuration is valid\n")
        (exit_of (options, logging) (system.service options))
        (λ check. validated options check no_version fit)
        (λ no_check. service options logging (no_check, no_version, fit))

  config_walk :
      (interval limit : ℤ) (level : Level) (cfg : Config)
      → f.version ≡ false
      → pos minute ≤ℤ interval
      → pos 1 ≤ℤ limit
      → limit ≤ℤ pos 10000
      → FromFile system f.config cfg
      → P (on_config system f interval limit level cfg)
  unfolding on_config options_of
  config_walk interval limit level cfg no_version long low high file =
      let env_token = getenv system.env (text "HETDNS_HETZNER_TOKEN") in
      token_step P (read_token system.token_at f.token_file env_token)
        (on_secret system f interval limit level cfg)
        (λ e r. refusal (text "secret error: " ++ e) (bad_token e r))
        (λ secret was_read. secret_walk interval limit level cfg secret no_version (
          long,
          low,
          high,
          file,
          read_token-IsToken system.token_at f.token_file env_token secret was_read,
        ))

  level_walk :
      (interval limit : ℤ) (level : Level)
      → f.version ≡ false
      → pos minute ≤ℤ interval
      → pos 1 ≤ℤ limit
      → limit ≤ℤ pos 10000
      → P (on_level system f interval limit level)
  unfolding on_level
  level_walk interval limit level no_version long low high =
      guard_step P _ _ _
        (λ format. refusal (text "log-format must be json or text") (bad_format format))
        (λ format.
          config_step P (load_config system.reader system.codec system.config_at f.config)
            (on_config system f interval limit level)
            (λ e r. refusal (text "configuration error: " ++ e) (bad_config e r))
            (λ cfg loaded. config_walk interval limit level cfg no_version long low high (
              (load_config_iff system.reader system.codec system.config_at f.config cfg).0 loaded)))

  limit_walk :
      (interval limit : ℤ)
      → f.version ≡ false
      → limit_of system f ≡ set limit
      → ltb_ℤ interval (pos minute) ≡ false
      → P (
          guard
            (ltb_ℤ limit (pos 1) || ltb_ℤ (pos 10000) limit)
            (text "history-limit must be between 1 and 10000")
            (with_level (parse_log_level f.log_level) (on_level system f interval limit)))
  limit_walk interval limit no_version given long =
      guard_step P _ _ _
        (λ outside.
          refusal (text "history-limit must be between 1 and 10000")
            (outside_limit limit given outside))
        (λ inside.
          let (low, high) = neither (ltb_ℤ limit (pos 1)) (ltb_ℤ (pos 10000) limit) inside in
          level_step P (parse_log_level f.log_level) (on_level system f interval limit)
            (λ r. refusal (text "log-level must be debug, info, warn, or error") (bad_level r))
            (λ level.
              level_walk interval limit level no_version (at_least minute interval long)
                (at_least 1 limit low) (at_most 10000 limit high)))

  checked_walk :
      (interval limit : ℤ)
      → f.version ≡ false
      → interval_of system f ≡ set interval
      → limit_of system f ≡ set limit
      → P (checked system f interval limit)
  unfolding checked
  checked_walk interval limit no_version given_interval given_limit =
      guard_step P _ _ _
        (λ short.
          refusal (text "interval must be at least 1m")
            (short_interval interval given_interval short))
        (limit_walk interval limit no_version given_limit)

  pub flags_walk : P (on_flags system f)
  unfolding on_flags on_interval on_limit
  flags_walk =
      setting_step P (interval_of system f) (on_interval system f)
        (λ e r. refusal e (bad_interval e r))
        (λ interval given_interval.
          setting_step P (limit_of system f) (on_limit system f interval)
            (λ e r. refusal e (bad_limit e r))
            (λ limit given_limit.
              message_step P f.version (build_text (build system)) (checked system f interval limit)
                version
                (λ no_version. checked_walk interval limit no_version given_interval given_limit)))
