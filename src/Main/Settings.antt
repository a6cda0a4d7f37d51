-- ===== src/Main/Settings.antt =====
-- The helpers of cmd/hetdns/main.go that read single settings.
use hetdns.Prelude.{Option, none, some, ◌++◌, if◌then◌else◌}
use hetdns.Prelude.Int.{ℤ}
use hetdns.Prelude.Text.{Text, text, text_eq}
use hetdns.Prelude.Atoi.{atoi}
use hetdns.Prelude.Environment.{Environment}

pub data Level : Type 0 where
  debug : Level
  info : Level
  warn : Level
  error : Level

-- A value of the environment, or what is wrong with it.
pub data Setting : Type 0 where
  set : ℤ → Setting
  bad : Text → Setting

duration_of : (Text → Text) → Text → Text → Option ℤ → Setting
duration_of duration_error key value none =
    bad (key ++ (text " must be a duration: " ++ duration_error value))
duration_of duration_error key value (some d) = set d

int_of : Text → Option ℤ → Setting
int_of key none = bad (key ++ text " must be an integer")
int_of key (some n) = set n

or_fallback : ℤ → (Text → Setting) → Option Text → Setting
or_fallback fallback parse none = set fallback
or_fallback fallback parse (some value) = parse value

-- `environmentInt`.
unfoldable pub environment_int : Environment → Text → ℤ → Setting
unfolding int_of or_fallback
environment_int env key fallback = or_fallback fallback (λ value. int_of key (atoi value)) (env key)

unfoldable pub parse_log_level : Text → Option Level
parse_log_level value =
    if text_eq value (text "debug")
    then some debug
    else if text_eq value (text "info")
    then some info
    else if text_eq value (text "warn")
    then some warn
    else if text_eq value (text "error")
    then some error
    else none

-- `environmentDuration`, with `time.ParseDuration` and the message of its error.
unfoldable pub environment_duration :
    Environment → (Text → Option ℤ) → (Text → Text) → Text → ℤ → Setting
unfolding duration_of or_fallback
environment_duration env parse_duration duration_error key fallback =
    or_fallback fallback (λ value. duration_of duration_error key value (parse_duration value))
      (env key)
