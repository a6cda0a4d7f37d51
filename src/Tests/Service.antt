-- ===== src/Tests/Service.antt =====
-- internal/web, internal/telemetry and internal/app at concrete inputs.
use hetdns.Prelude.{◌≡◌, ◌↔◌, refl, true, none, some, List, [], ◌∷◌, ◌++◌, length, if◌then◌else◌}
use hetdns.Prelude.Int.{pos}
use hetdns.Prelude.Text.{Text, text, text_eq}
use hetdns.Reconcile.State.{Measure}
use hetdns.Status.Ops.{started, finished}
use hetdns.Web.{Request, returned, Site, serve}
use hetdns.Web.Wire.{write_status, write}
use hetdns.Web.Wire.Keeps.{AllSet}
use hetdns.Web.Headers.{security_headers, OnlyWrites, done, status, writes, every_response_secure}
use hetdns.Web.Methods.{probe}
use hetdns.Telemetry.{Metrics, observe, no_metrics, Sdk, shutdown_metrics}
use hetdns.Telemetry.Setup.{disabled, new_metrics}
use hetdns.Telemetry.Latest.{receive_all, without_endpoint}
use hetdns.Telemetry.Gauges.{shown, success_shown, passed_all, measures_shown}
use hetdns.App.{Host, cancelled, stores, run_app, run_error}
use hetdns.App.Life.{IsOpen, EndsWell, run_app_iff, readyz_while_serving}
use hetdns.Tests.Data.{build, store}
use hetdns.Tests.Guards.{codec, cfg_valid}
use hetdns.Tests.Startup.{options}
use hetdns.Prelude.Environment.{Environment}

-- The web server with a style sheet as its only asset.
site : Site
site = record {
  page = λ s. text "<html>";
  encode = λ s. some (text "{}");
  assets = λ r w. returned (write (text "body{}") w);
  redirects = λ p. none;
  redirect = λ p r w. returned (write_status 301 w);
}

assets-OnlyWrites : OnlyWrites site.assets
unfolding site
assets-OnlyWrites r w =
    writes w (write (text "body{}") w) (text "body{}") (done (write (text "body{}") w))

redirect-OnlyWrites : (p : Text) → OnlyWrites (site.redirect p)
unfolding site
redirect-OnlyWrites p r w = status w (write_status 301 w) 301 (done (write_status 301 w))

style : Request
style = record { method = text "GET"; path = text "/assets/style.css" }

every_response_secure_example : AllSet security_headers (serve site 5 store style).headers
every_response_secure_example =
    every_response_secure site 5 store style assets-OnlyWrites redirect-OnlyWrites

env : Environment
env key = none

sdk : Sdk
sdk = record {
  new_exporter = true;
  new_resource = true;
  instrument = λ s. none;
  register = none;
  flush = true;
  shutdown = true;
}

measures : List Measure
measures =
    Measure.record_success (text "a") 62135596805000000000
    ∷ Measure.cycle (text "success") (pos 7)
    ∷ Measure.record_success (text "a") 62135596806000000000
    ∷ []

abbrev enabled : Metrics
enabled = record no_metrics { enabled = true }

measures_shown_example :
    (success_shown (text "a") (observe store (receive_all measures enabled)) ≡ some (pos 6))
    × (shown (text "hetdns.scheduler.ready") [] (observe store (receive_all measures enabled))
        ≡ some (if store.is_ready then pos 1 else pos 0))
    × ((receive_all measures enabled).samples ≡ passed_all measures ++ [])
unfolding measures text_eq observe
measures_shown_example = measures_shown measures enabled store (text "a")

without_endpoint_example :
    (new_metrics env sdk build ≡ disabled no_metrics)
    × (length (receive_all measures no_metrics).samples ≡ 0)
    × (shutdown_metrics sdk (receive_all measures no_metrics) ≡ none)
unfolding env
without_endpoint_example = without_endpoint env sdk build measures refl refl

host : Host
unfolding sdk env
host = record {
  env = env;
  sdk = sdk;
  web_error = none;
  listen_error = λ a. none;
  shutdown_error = none;
  now = 1;
  before = started 2 ∷ [];
  during = finished 3 (text "success") ∷ [];
  after = started 4 ∷ [];
  ended = cancelled;
  is_done = true;
}

run_app_iff_example : (run_error (run_app (λ s. s) host options) ≡ none) ↔ (
    IsOpen (new_metrics host.env host.sdk options.build)
    × (host.web_error ≡ none)
    × (host.listen_error options.listen ≡ none)
    × (EndsWell host.ended host.is_done × (host.shutdown_error ≡ none)))
run_app_iff_example = run_app_iff codec (λ s. s) host options cfg_valid

readyz_while_serving_example :
    ((serve site 9 (stores (λ s. s) host options).serving (probe (text "/readyz"))).status ≡ 200)
    × ((serve site 9 (stores (λ s. s) host options).stopped (probe (text "/readyz"))).status ≡ 503)
unfolding host site
readyz_while_serving_example =
    readyz_while_serving (λ s. s) host options site 9 (refl, tt) (refl, tt) refl
