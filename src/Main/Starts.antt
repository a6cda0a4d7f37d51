-- ===== src/Main/Starts.antt =====
-- With what cmd/hetdns/main.go starts the service.
use mathlib.Core.Path.{subst}
use mathlib.Core.Option.{some_inj}
use hetdns.Prelude.{◌≡◌, refl, Option, none, some, List, [], ◌∷◌, arith}
use hetdns.Prelude.Text.{Text}
use hetdns.App.{Options}
use hetdns.Main.{Logging, System, exit_of, on_flags, on_arguments, run}
use hetdns.Main.Walk.{MayStart, flags_walk}
use hetdns.Main.Flags
use hetdns.Main.Flags.{Arguments, help, invalid, flags, parse_arguments, default_flags}

-- If the service is started, then with options that it may be started with.
StartOk : System → Flags.Flags → Option (Options × Logging) → Type 0
StartOk system f none = Unit
StartOk system f (some (options, logging)) = MayStart system f options

exit_of-StartOk :
    (system : System) (f : Flags.Flags) (options : Options) (logging : Logging) (o : Option Text)
    → MayStart system f options
    → StartOk system f (exit_of (options, logging) o).started
unfolding exit_of StartOk
exit_of-StartOk system f options logging none h = h
exit_of-StartOk system f options logging (some e) h = h

on_flags-StartOk :
    (system : System) (f : Flags.Flags) → StartOk system f (on_flags system f).started
unfolding StartOk
on_flags-StartOk system f =
    flags_walk (λ e. StartOk system f e.started) system f (λ message r. tt) (λ v. tt)
      (λ options check no_version fit. tt)
      (λ options logging h. exit_of-StartOk system f options logging (system.service options) h)

started_options :
    (system : System) (f : Flags.Flags) (o : Option (Options × Logging)) (options : Options)
    (logging : Logging)
    → StartOk system f o
    → ◌≡◌ {A = Option (Options × Logging)} o (some (options, logging))
    → MayStart system f options
unfolding StartOk
started_options system f none options logging h e = absurd (ground (arith, e))
started_options system f (some (o, l)) options logging h e =
    subst (λ p. MayStart system f p.0) (some_inj.0 e) h

arguments_started :
    (system : System) (a : Arguments) (options : Options) (logging : Logging)
    → ◌≡◌ {A = Option (Options × Logging)} (on_arguments system a).started (some (options, logging))
    → (f : Flags.Flags) × (a ≡ flags f []) × MayStart system f options
unfolding on_arguments
arguments_started system help options logging e = absurd (ground (arith, e))
arguments_started system invalid options logging e = absurd (ground (arith, e))
arguments_started system (flags f (arg ∷ rest)) options logging e = absurd (ground (arith, e))
arguments_started system (flags f []) options logging e = (
  f,
  refl,
  started_options system f (on_flags system f).started options logging (on_flags-StartOk system f)
      e,
)

-- The service is started only from flags with no argument after them, neither -check nor -version
-- among them, with an interval of at least a minute, a history limit from 1 to 10000, the
-- configuration that the named file holds, which is valid, and the token of the named file or of the
-- environment.
pub run_starts :
    (system : System) (arguments : List Text) (options : Options) (logging : Logging)
    → ◌≡◌ {A = Option (Options × Logging)} (run system arguments).started (some (options, logging))
    → (f : Flags.Flags) × (parse_arguments system.parsers arguments none (default_flags system.env)
        ≡ flags f [])
      × MayStart system f options
unfolding run
run_starts system arguments options logging e =
    arguments_started system
      (parse_arguments system.parsers arguments none (default_flags system.env)) options logging e
