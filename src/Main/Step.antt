-- ===== src/Main/Step.antt =====
-- What the early returns of cmd/hetdns/main.go keep.
use hetdns.Prelude.{◌++◌, ◌≡◌, refl, Bool, true, false, Option, none, some, if◌then◌else◌}
use hetdns.Prelude.Int.{ℤ}
use hetdns.Prelude.Text.{Text, text}
use hetdns.Config.{Config}
use hetdns.Config.Parse.{Parsed, parsed, not_parsed}
use hetdns.Config.Token
use hetdns.Config.Token.{token, refused, read_token, Given, IsToken, read_token-IsToken}
use hetdns.Main.{Exit, tells, refuses, guard, with_setting, with_level, with_config, with_token}
use hetdns.Main.Settings.{Level, Setting, set, bad}

-- A property of an exit holds of each step if it holds of its refusal and of what follows.
module _ (P : Exit → Type 0) where
  pub guard_step :
      (b : Bool) (message : Text) (next : Exit)
      → (b ≡ true → P (refuses message))
      → (b ≡ false → P next)
      → P (guard b message next)
  unfolding guard
  guard_step true message next r h = r refl
  guard_step false message next r h = h refl

  pub setting_step :
      (s : Setting) (next : ℤ → Exit)
      → ((e : Text) → s ≡ bad e → P (refuses e))
      → ((n : ℤ) → s ≡ set n → P (next n))
      → P (with_setting s next)
  unfolding with_setting
  setting_step (set n) next r h = h n refl
  setting_step (bad e) next r h = r e refl

  pub level_step :
      (o : Option Level) (next : Level → Exit)
      → (o ≡ none → P (refuses (text "log-level must be debug, info, warn, or error")))
      → ((level : Level) → P (next level))
      → P (with_level o next)
  unfolding with_level
  level_step none next r h = r refl
  level_step (some level) next r h = h level

  pub config_step :
      (p : Parsed) (next : Config → Exit)
      → ((e : Text) → p ≡ not_parsed e → P (refuses (text "configuration error: " ++ e)))
      → ((cfg : Config) → p ≡ parsed cfg → P (next cfg))
      → P (with_config p next)
  unfolding with_config
  config_step (parsed cfg) next r h = h cfg refl
  config_step (not_parsed e) next r h = r e refl

  pub token_step :
      (t : Token.Token) (next : Text → Exit)
      → ((e : Text) → t ≡ refused e → P (refuses (text "secret error: " ++ e)))
      → ((secret : Text) → t ≡ token secret → P (next secret))
      → P (with_token t next)
  unfolding with_token
  token_step (token s) next r h = h s refl
  token_step (refused e) next r h = r e refl

  pub message_step :
      (b : Bool) (out : Text) (next : Exit)
      → (b ≡ true → P (tells out))
      → (b ≡ false → P next)
      → P (if b then tells out else next)
  message_step true out next m h = m refl
  message_step false out next m h = h refl
