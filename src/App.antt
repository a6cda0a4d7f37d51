-- ===== src/App.antt =====
-- internal/app/app.go: the service from its start to its end. The calls that the scheduler's goroutine
-- makes on the store meanwhile are parameters, as are the errors of what the system does.
pub mod Life
use hetdns.Prelude.{ℕ, ◌++◌, Bool, true, false, Option, none, some, List, [], if◌then◌else◌}
use hetdns.Prelude.Int.{ℤ, pos_part}
use hetdns.Prelude.Text.{Text, text}
use hetdns.Prelude.Environment.{Environment}
use hetdns.BuildInfo.{Info}
use hetdns.Config.{Config}
use hetdns.Status.{Store, new_store, set_ready}
use hetdns.Status.Ops.{Op, run}
use hetdns.Source.Build.{Item, Built, built, not_built, new_sources}
use hetdns.Telemetry.{Metrics, Sdk, shutdown_metrics}
use hetdns.Telemetry.Setup.{Opened, disabled, opened, failed, new_metrics}

-- `Options`, without the logger.
pub record Options : Type 0 where
  pub config : Config
  pub token : Text
  pub interval : ℤ
  pub listen : Text
  pub history_limit : ℤ
  pub build : Info

-- Which case the `select` takes: the context ends, `Serve` returns an error, which is
-- `ErrServerClosed` or not, or the scheduler returns one, or nil.
pub data Ended : Type 0 where
  cancelled : Ended
  server_ended : Bool → Text → Ended
  scheduler_ended : Option Text → Ended

-- What a run depends on: the environment and the telemetry SDK, the errors of `web.New`, of the
-- listener and of the server's shutdown, the time at which the store is made, the scheduler's calls
-- on the store before it is set ready, until the `select` ends, and after it is set unready, and how
-- the `select` ends and whether the context has ended then.
pub record Host : Type 0 where
  pub env : Environment
  pub sdk : Sdk
  pub web_error : Option Text
  pub listen_error : Text → Option Text
  pub shutdown_error : Option Text
  pub now : ℕ
  pub before : List Op
  pub during : List Op
  pub after : List Op
  pub ended : Ended
  pub is_done : Bool

-- The store when the `select` ends and when the service has stopped.
pub record Stores : Type 0 where
  pub serving : Store
  pub stopped : Store

-- How a run ends: before it serves, or after it has served, with its error if there is one, and
-- whether the warning of a failed telemetry shutdown is logged.
pub data Ran : Type 0 where
  not_started : Text → Ran
  served : Stores → Option Text → Bool → Ran

is_some : Option Text → Bool
is_some none = false
is_some (some e) = true

-- The error of the `select`.
unfoldable pub end_error : Ended → Bool → Option Text
end_error cancelled done = none
end_error (server_ended closed e) done =
    if closed then none else some (text "HTTP server stopped: " ++ e)
end_error (scheduler_ended (some e)) done =
    if done then none else some (text "scheduler stopped: " ++ e)
end_error (scheduler_ended none) done =
    if done then none else some (text "scheduler stopped unexpectedly")

-- An error of the server's shutdown counts if there is none before.
unfoldable pub or_shutdown : Option Text → Option Text → Option Text
or_shutdown (some e) shutdown = some e
or_shutdown none none = none
or_shutdown none (some e) = some (text "shutdown HTTP server: " ++ e)

-- `"hetdns/" + options.Build.Version`.
abbrev pub user_agent_of : Options → Text
user_agent_of options = text "hetdns/" ++ options.build.version

module _ (quote : Text → Text) (host : Host) (options : Options) where
  -- The store through the service's life.
  unfoldable pub stores : Stores
  stores =
      let store =
        new_store host.now options.build options.config (pos_part options.history_limit) in
      let serving = run host.during (set_ready true (run host.before store)) in
      record { serving = serving; stopped = run host.after (set_ready false serving) }

  -- From the goroutines on.
  serve_until_end : Metrics → Ran
  unfolding is_some
  serve_until_end metrics =
      served stores (or_shutdown (end_error host.ended host.is_done) host.shutdown_error)
        (is_some (shutdown_metrics host.sdk metrics))

  on_listener : Metrics → Option Text → Ran
  unfolding serve_until_end
  on_listener metrics none = serve_until_end metrics
  on_listener metrics (some e) =
      not_started (text "listen on " ++ (options.listen ++ (text ": " ++ e)))

  on_server : Metrics → Option Text → Ran
  unfolding on_listener
  on_server metrics none = on_listener metrics (host.listen_error options.listen)
  on_server metrics (some e) = not_started (text "initialize web server: " ++ e)

  on_metrics : Opened → Ran
  unfolding on_server
  on_metrics (disabled metrics) = on_server metrics host.web_error
  on_metrics (opened metrics settings) = on_server metrics host.web_error
  on_metrics (failed e) = not_started (text "initialize telemetry: " ++ e)

  on_sources : Built (List Item) → Ran
  unfolding on_metrics
  on_sources (built items) = on_metrics (new_metrics host.env host.sdk options.build)
  on_sources (not_built e) = not_started e

  -- `Run`.
  unfoldable pub run_app : Ran
  unfolding on_sources
  run_app = on_sources (new_sources quote options.config.sources (user_agent_of options))

-- The error that `Run` returns; `none` is nil.
unfoldable pub run_error : Ran → Option Text
run_error (not_started e) = some e
run_error (served s e warned) = e
