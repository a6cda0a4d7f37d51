-- ===== src/Main/Exits.antt =====
-- The exit codes of cmd/hetdns/main.go.
use hetdns.Prelude.{◌≡◌, refl, ◌++◌, true, false, Option, none, some, List, [], ◌∷◌}
use hetdns.Prelude.Text.{Text, text}
use hetdns.App.{Options}
use hetdns.Main.{Logging, System, Exit, build_text, build, exit_of, on_flags, on_arguments, run}
use hetdns.BuildInfo.{new_info}
use hetdns.Main.Walk.{AreOptions, MayStart, Refusal, flags_walk}
use hetdns.Main.Flags
use hetdns.Main.Flags.{Arguments, help, invalid, flags, parse_arguments, default_flags}

-- Why a run is refused: the arguments are none, or too many, or the flags are refused.
pub data Refused (system : System) : Arguments → Text → Type 0 where
  not_flags : Refused system invalid []
  positional :
      (f : Flags.Flags) (arg : Text) (rest : List Text)
      → Refused system (flags f (arg ∷ rest)) (text "hetdns does not accept positional arguments")
  refused_flags :
      (f : Flags.Flags) (message : Text)
      → Refusal system f message
      → Refused system (flags f []) message

-- How a run can end, by its arguments as the flag package reads them.
pub data IsExit (system : System) : Arguments → Exit → Type 0 where
  helped : IsExit system help (record { code = 0; out = []; message = []; started = none })
  versioned :
      (f : Flags.Flags)
      → f.version ≡ true
      → IsExit system (flags f []) (
          let info = new_info system.build_version system.build_commit system.build_date in
          record {
            code = 0;
            out =
                text "hetdns "
                ++ (info.version
                    ++ (text "\ncommit: "
                        ++ (info.commit ++ (text "\nbuilt: " ++ (info.date ++ text "\n")))));
            message = [];
            started = none;
          })
  validated :
      (f : Flags.Flags) (options : Options)
      → f.check ≡ true
      → f.version ≡ false
      → AreOptions system f options
      → IsExit system
          (flags f [])
          (record { code = 0; out = text "configuration is valid\n"; message = []; started = none })
  was_refused :
      (a : Arguments) (message : Text)
      → Refused system a message
      → IsExit system a (record { code = 2; out = []; message = message; started = none })
  ended :
      (f : Flags.Flags) (options : Options) (logging : Logging)
      → MayStart system f options
      → system.service options ≡ none
      → IsExit system
          (flags f [])
          (record { code = 0; out = []; message = []; started = some (options, logging) })
  failed :
      (f : Flags.Flags) (options : Options) (logging : Logging) (e : Text)
      → MayStart system f options
      → system.service options ≡ some e
      → IsExit system (flags f []) (record {
        code = 1;
        out = [];
        message = text "service failed";
        started = some (options, logging);
      })

exit_of-IsExit :
    (system : System) (f : Flags.Flags) (options : Options) (logging : Logging) (o : Option Text)
    → MayStart system f options
    → system.service options ≡ o
    → IsExit system (flags f []) (exit_of (options, logging) o)
unfolding exit_of
exit_of-IsExit system f options logging none may e = ended f options logging may e
exit_of-IsExit system f options logging (some m) may e = failed f options logging m may e

on_flags-IsExit :
    (system : System) (f : Flags.Flags) → IsExit system (flags f []) (on_flags system f)
unfolding build_text build
on_flags-IsExit system f =
    flags_walk (IsExit system (flags f [])) system f
      (λ message r. was_refused (flags f []) message (refused_flags f message r)) (versioned f)
      (validated f)
      (λ options logging may.
        exit_of-IsExit system f options logging (system.service options) may refl)

on_arguments-IsExit : (system : System) (a : Arguments) → IsExit system a (on_arguments system a)
unfolding on_arguments
on_arguments-IsExit system help = helped
on_arguments-IsExit system invalid = was_refused invalid [] not_flags
on_arguments-IsExit system (flags f []) = on_flags-IsExit system f
on_arguments-IsExit system (flags f (arg ∷ rest)) =
    was_refused (flags f (arg ∷ rest)) _ (positional f arg rest)

-- How a run ends. It exits with 0 for -help; for -version, with the build on the standard output; for
-- -check, if the options are ones that the service may be started with, and says so; and for the
-- service, if it may be started and returns no error. It exits with 1 if the service returns an error,
-- and with 2, with nothing on the standard output, if it is refused for one of the reasons that the
-- message tells: the arguments are none that the flag package reads, one follows the flags, or the
-- interval, the history limit, the log level, the log format, the configuration or the token is
-- refused. The service is started in no other case.
pub run-IsExit :
    (system : System) (arguments : List Text)
    → IsExit system
        (parse_arguments system.parsers arguments none (default_flags system.env))
        (run system arguments)
unfolding run
run-IsExit system arguments =
    on_arguments-IsExit system
      (parse_arguments system.parsers arguments none (default_flags system.env))
