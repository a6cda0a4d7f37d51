-- ===== src/Prelude/Environment.antt =====
-- The environment of a process, as `os.LookupEnv` reads it.
use mathlib.Core.Option.{Option}
use mathlib.Core.List.{[]}
use hetdns.Prelude.Text.{Text}
use hetdns.Prelude.Map.{or_zero}

abbrev pub Environment : Type 0
Environment = Text → Option Text

-- `os.Getenv`.
abbrev pub getenv : Environment → Text → Text
getenv env key = or_zero [] (env key)

-- A variable, or what stands for it if it is not set.
abbrev pub env_or : Environment → Text → Text → Text
env_or env key fallback = or_zero fallback (env key)
