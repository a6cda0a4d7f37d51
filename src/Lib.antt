-- ===== src/Lib.antt =====
-- hetdns keeps the DNS records of Hetzner zones at the current addresses of a host. A scheduler
-- (internal/scheduler) starts cycles; a cycle (internal/reconcile) fetches the addresses of all
-- sources (internal/source), and for each configured record asks the provider client
-- (internal/hetzner) to bring the RRset to the address; what happened goes to the status store
-- (internal/status), which the web server (internal/web) shows. internal/config holds the
-- configuration, internal/telemetry the measurements, internal/app and cmd/hetdns tie them together.
--
-- Which file models what:
-- - Prelude and the files below it: lists, signed 64-bit integers, texts as lists of bytes, Go's
--   runes, strings.Fields, strconv.Atoi, sort.Strings and maps as association lists.
-- - BuildInfo: internal/buildinfo/buildinfo.go (Info, New as new_info).
-- - Config: the types of internal/config/config.go and MayCreate. Names has the tests on IDs, domains
--   and user agents, Validate Validate, Token ReadToken. Json has scanJSONValue (scan_value,
--   scan_fields, scan_items), rejectDuplicateKeys and ensureEOF over the tokens of a text, Json/Value
--   the trees that the tokens print, Decode the decoding into the structs, Parse Parse and Load.
-- - Addr: the part of net/netip that the program uses (Unmap, ==, the tests on the
--   range of an address in Ranges).
-- - Status: internal/status/store.go. State has its structs, Shown Snapshot, Uptime the text of the
--   uptime; the methods are functions of the store (New as new_store, addEventLocked as add_event,
--   RecordResult as record_result and so on) and Ops runs sequences of them.
-- - Hetzner: internal/hetzner. Types is types.go, Env what the client is given from outside, Request
--   requestJSON, Http the redirects of net/http under a CheckRedirect, Poll awaitAction, Client
--   Reconcile and the calls below it, Path, Safe and RetryAfter the helpers.
-- - Reconcile: internal/reconcile/reconciler.go. Run is run, its loop's body process_record, and
--   failRecord is fail_record in Backoff. Fetch has the workers of fetchSources as a step relation;
--   Calls is about what a cycle does to the store.
-- - Scheduler: internal/scheduler/scheduler.go. A round of the loop of Run is round.
-- - Source: internal/source. Public and Parse are isPublic and ParseAddress, Buffer limitedBuffer,
--   Dial safeDialer and CheckRedirect, Fetch both kinds of sources, Build New;
--   Family is about sources and configuration together.
-- - Telemetry: internal/telemetry/metrics.go. New is new_metrics, the methods that take measures are
--   on_cycle, on_source, on_record and on_success, its callback is observe.
-- - Web: internal/web/server.go. Wire is the part of http.ResponseWriter that it uses; the handlers,
--   the mux and the middleware are functions of it.
-- - App: internal/app/app.go. Run is run_app; stores is what becomes of the store meanwhile.
-- - Main: cmd/hetdns/main.go. run is run, in steps that each end in an exit or go on; Flags has the
--   flags and how the flag package reads arguments.
-- - Tests: the theorems at concrete inputs.
--
-- State. A method of the store holds its mutex for its whole body, and a cycle holds the
-- reconciler's, so each is a function of the state that it finds. Code that reads the clock, calls
-- the network or the provider passes a state along; a time is the number of nanoseconds since Go's
-- zero time, so IsZero is a test for 0, and the clock may do anything between two readings of a
-- cycle. A reader of a map finds Go's zero value under a missing key.
--
-- The runtime's send of the provider's client is the Do of its HTTP client: with_http makes it of a
-- transport and of the client's CheckRedirect.
--
-- Parameters. JSON codecs, netip.ParseAddr and String, http.ParseTime, %q, the network with its
-- latencies, random numbers, the choice of a select with two ready cases, contexts and the phase that
-- fetches the sources, url.Parse, time.ParseDuration, the lexing of JSON, the resolver, the dialer,
-- processes, files, the environment, the OpenTelemetry SDK and the template of the status page are
-- arguments of the definitions that use them, unconstrained. The file server and the redirects of
-- ServeMux are assumed to set and delete no security header.
--
-- Fuel. requestJSON's loop runs on the attempts that are left, 3 for a read and 1 for a mutation, as
-- in the code. The scheduler's loop has no end of its own and takes a number of rounds. awaitAction's
-- loop gets pollLimit / pollEvery + 1 rounds: every round waits pollEvery, and the context ends at
-- pollLimit. The redirects that an HTTP client follows have a bound, any one; that of the provider
-- follows none. scanJSONValue gets two units for each token of its input and one more: every call and
-- every round but the one that opens an item of an array takes a token.
--
-- Not modelled. Logging; the uptime beyond 292 years, where time.Since saturates; a negative history
-- limit of a store, which counts as 1 like 0 does; the overflow of the count of failures in a row;
-- MarshalJSON of a duration, SafeURL and NewWithEndpoint, which the program does not call; the usage
-- text of the flags; signals, which end a context; the timeouts of the HTTP server.
pub mod Prelude
pub mod Addr
pub mod App
pub mod BuildInfo
pub mod Config
pub mod Hetzner
pub mod Main
pub mod Reconcile
pub mod Scheduler
pub mod Source
pub mod Status
pub mod Telemetry
pub mod Web
pub mod Tests
