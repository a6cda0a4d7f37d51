-- ===== src/App/Life.antt =====
-- Which runs of internal/app/app.go fail, and what the service shows of its readiness.
use hetdns.Prelude.{
  ℕ, ◌≡◌, ◌↔◌, refl, ap, ◌∙◌, Bool, true, false, Option, none, some, List, [], ◌∷◌, All, arith,
  if◌then◌else◌,
}
use hetdns.Prelude.Text.{Text, text}
use hetdns.Config.Validate.{Codec, validate}
use hetdns.Status.{
  Store, Event, Report, set_ready, cycle_started, cycle_finished, set_next_cycle, source_result,
  record_checking, record_result, add_event, failure_event,
}
use hetdns.Status.Ops.{
  is_other, Op, ready, started, finished, next_cycle, source, checking, result, apply, run,
}
use hetdns.Source.Build.Valid.{valid_sources_built}
use hetdns.Telemetry.{Metrics}
use hetdns.Telemetry.Setup.{Opened, disabled, opened, failed, new_metrics}
use hetdns.Web.{Site, serve}
use hetdns.Web.Methods.{probe, ready_status, readyz_answer}
use hetdns.App.{
  Options, Ended, cancelled, server_ended, scheduler_ended, Host, end_error, or_shutdown,
  user_agent_of, stores, serve_until_end, on_listener, on_server, on_metrics, on_sources, run_app,
  run_error,
}

-- The telemetry is set up, or off.
abbrev pub IsOpen : Opened → Type 0
IsOpen (disabled metrics) = Unit
IsOpen (opened metrics settings) = Unit
IsOpen (failed e) = ⊥

-- The end that is meant: the context ends, the server is closed, or the scheduler ends once the context
-- has ended.
abbrev pub EndsWell : Ended → Bool → Type 0
EndsWell cancelled done = Unit
EndsWell (server_ended closed e) done = closed ≡ true
EndsWell (scheduler_ended e) done = done ≡ true

end_error_iff : (ended : Ended) (done : Bool) → (end_error ended done ≡ none) ↔ EndsWell ended done
unfolding end_error
end_error_iff cancelled done = ground arith
end_error_iff (server_ended closed e) done = ground arith
end_error_iff (scheduler_ended none) done = ground arith
end_error_iff (scheduler_ended (some e)) done = ground arith

or_shutdown_iff :
    (e shutdown : Option Text) → (or_shutdown e shutdown ≡ none) ↔ ((e ≡ none) × (shutdown ≡ none))
unfolding or_shutdown
or_shutdown_iff none none = ground arith
or_shutdown_iff none (some s) = ground arith
or_shutdown_iff (some e) shutdown = ground arith

module _ (quote : Text → Text) (host : Host) (options : Options) where
  -- What has to go well from the listener on.
  abbrev Serves : Type 0
  Serves = EndsWell host.ended host.is_done × (host.shutdown_error ≡ none)

  serves_iff : (m : Metrics) → (run_error (serve_until_end quote host options m) ≡ none) ↔ Serves
  unfolding serve_until_end run_error
  serves_iff m = ground (
    arith,
    or_shutdown_iff (end_error host.ended host.is_done) host.shutdown_error,
    end_error_iff host.ended host.is_done,
  )

  listener_iff :
      (m : Metrics) (e : Option Text)
      → (run_error (on_listener quote host options m e) ≡ none) ↔ ((e ≡ none) × Serves)
  unfolding on_listener run_error
  listener_iff m none = ground (arith, serves_iff m)
  listener_iff m (some e) = ground arith

  server_iff :
      (m : Metrics) (e : Option Text)
      → (run_error (on_server quote host options m e) ≡ none)
        ↔ ((e ≡ none) × (host.listen_error options.listen ≡ none) × Serves)
  unfolding on_server run_error
  server_iff m none = ground (arith, listener_iff m (host.listen_error options.listen))
  server_iff m (some e) = ground arith

  metrics_iff :
      (o : Opened)
      → (run_error (on_metrics quote host options o) ≡ none)
        ↔ (IsOpen o × (host.web_error ≡ none) × (host.listen_error options.listen ≡ none) × Serves)
  unfolding on_metrics run_error
  metrics_iff (disabled m) = ground (arith, server_iff m host.web_error)
  metrics_iff (opened m settings) = ground (arith, server_iff m host.web_error)
  metrics_iff (failed e) = ground arith

-- With a valid configuration a run returns no error exactly if the telemetry is set up or off, the web
-- server and the listener can be made, the service ends because its context has ended or its server
-- was closed, and the server shuts down without an error.
pub run_app_iff :
    (codec : Codec) (quote : Text → Text) (host : Host) (options : Options)
    → validate codec options.config ≡ none
    → (run_error (run_app quote host options) ≡ none) ↔ (
        IsOpen (new_metrics host.env host.sdk options.build)
        × (host.web_error ≡ none)
        × (host.listen_error options.listen ≡ none)
        × (EndsWell host.ended host.is_done × (host.shutdown_error ≡ none)))
unfolding run_app on_sources
run_app_iff codec quote host options valid =
    let (items, e, ids) =
      valid_sources_built codec quote options.config (user_agent_of options) valid in
    rw e (metrics_iff quote host options (new_metrics host.env host.sdk options.build))

kept_by_failure :
    (err : Option Text) (event : Event) (s : Store)
    → (failure_event err event s).is_ready ≡ s.is_ready
unfolding add_event
kept_by_failure none event s = refl
kept_by_failure (some e) event s = refl

kept_by_either :
    (b : Bool) (x y : Store) (flag : Bool)
    → x.is_ready ≡ flag
    → y.is_ready ≡ flag
    → (if b then x else y).is_ready ≡ flag
kept_by_either true x y flag h k = h
kept_by_either false x y flag h k = k

kept_by_result : (now : ℕ) (r : Report) (s : Store) → (record_result now r s).is_ready ≡ s.is_ready
unfolding record_result add_event
kept_by_result now r s = kept_by_either r.changed _ _ s.is_ready refl (kept_by_failure r.err _ _)

apply_keeps : (op : Op) (s : Store) → is_other op ≡ true → (apply op s).is_ready ≡ s.is_ready
unfolding cycle_started cycle_finished set_next_cycle source_result record_checking
apply_keeps (ready b) s e = absurd (ground (arith, e))
apply_keeps (started now) s e = refl
apply_keeps (finished now outcome) s e = refl
apply_keeps (next_cycle next) s e = refl
apply_keeps (source now id address duration err) s e = kept_by_failure err _ _
apply_keeps (checking id desired) s e = refl
apply_keeps (result now r) s e = kept_by_result now r s

run_keeps :
    (ops : List Op) (s : Store)
    → All (λ op. is_other op ≡ true) ops
    → (run ops s).is_ready ≡ s.is_ready
unfolding run
run_keeps [] s h = refl
run_keeps (op ∷ ops) s (h, hs) = run_keeps ops (apply op s) hs ∙ apply_keeps op s h

module _ (quote : Text → Text) (host : Host) (options : Options) where
  stores_ready :
      All (λ op. is_other op ≡ true) host.during
      → All (λ op. is_other op ≡ true) host.after
      → ((stores quote host options).serving.is_ready ≡ true)
        × ((stores quote host options).stopped.is_ready ≡ false)
  unfolding stores set_ready
  stores_ready during after = (run_keeps host.during _ during, run_keeps host.after _ after)

-- While the service runs, whatever other calls are made on its store, a GET of /readyz is answered by
-- 200; once the `select` has ended it is answered by 503, whatever calls still follow.
pub readyz_while_serving :
    (quote : Text → Text) (host : Host) (options : Options) (site : Site) (now : ℕ)
    → All (λ op. is_other op ≡ true) host.during
    → All (λ op. is_other op ≡ true) host.after
    → site.redirects (text "/readyz") ≡ none
    → ((serve site now (stores quote host options).serving (probe (text "/readyz"))).status ≡ 200)
      × ((serve site now (stores quote host options).stopped (probe (text "/readyz"))).status ≡ 503)
readyz_while_serving quote host options site now during after no_redirect =
    let (up, down) = stores_ready quote host options during after in
    let s = stores quote host options in
    (
      (readyz_answer site now s.serving no_redirect).0 ∙ ap ready_status up,
      (readyz_answer site now s.stopped no_redirect).0 ∙ ap ready_status down,
    )
