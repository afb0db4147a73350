-- ===== src/Lib.antt =====
-- Verification of lkrequest-py, the Python binding (src/*.rs, pyo3) of the HTTP client library
-- `lkrequest`.
--
-- The program. A `Session` (src/session.rs) checks and resolves the arguments of a request, turns them
-- into calls on a builder of the library, and hands the work to a bridge (src/bridge.rs) between the
-- tokio runtime and the asyncio loop. Handles onto one session share its state
-- (src/session_state.rs): event hooks, middleware callbacks, and a closed flag that ends the requests
-- in flight. Answers become responses (src/response.rs) and are counted (src/metrics.rs). Bodies may be
-- pulled from Python objects (src/upload.rs), and a connection may be upgraded (src/websocket.rs).
-- Options are checked in src/types.rs, src/dns.rs, src/proxy.rs, src/fingerprint.rs and src/client.rs,
-- which builds the clients and makes their sessions; src/client_pool.rs rotates over clients and
-- src/session_pool.rs leases sessions; Python callables decide on retries (src/retry.rs) and change
-- requests and responses (src/middleware.rs). A blocking twin of each class does the same work on a
-- runtime of its own. The library's errors become exceptions in src/error.rs.
--
-- The files.
--   Prelude           names of the libraries, Boolean tests, lists, Python errors as values.
--   Bridge            one crossing is a record of its stage and of where its in-flight guard is;
--                     `step` runs one event, `drain` is drain(). Guards: the count against the guards;
--                     Final: ended crossings stay; Drain: what drain() promises.
--   SessionState      EventHooks, SessionState, MiddlewareSlots::release, Closing::guard; Firing and
--                     Released: the hooks, and closing, also by a hook; Guarding: a guarded request,
--                     polled while its session is used.
--   Types             f64 as whole multiples of 2 ^ -1074, Duration in nanoseconds, the validated
--                     constructors.
--   Metrics           HostMetrics, MetricsInner and the exported series; History: the collector against
--                     its calls; Cas: the compare-exchange loop as moves of several calls, and
--                     Finishing, its end; Text: the escaping of labels as code points.
--   Upload            UploadSource::extract, the conversions; Blocking and Async: poll_next of the two
--                     streams, a poll being told whether the pull in flight has finished.
--   Websocket         SharedConnection and the methods, each in two halves around its await.
--   Session           apply_request_options as the list of builder calls that it makes, and
--                     validate_body_params. Sending: the methods and execute_request over an
--                     environment of session, collector and Multipart objects; Sending/Blocking:
--                     BlockingSession, against Session in Twins.
--   Dns               parse_ip_family and parse_connect_to.
--   ClientPool        new, acquire, add.
--   ClientOptions     ClientConfig, and the calls on the library's builder.
--   Client            build_client (client.rs) as the list of calls that it makes on the library's
--                     builder, or the exception that it raises; Arguments: the constructors of
--                     Client and BlockingClient, which resolve profiles by name first.
--   ClientSession     Client.session, from its options (hsts.rs among them) to the library's session
--                     and the shared state.
--   Presets           the names of types.rs, the static constructors of client.rs and fingerprint.rs;
--                     Validation: validate_fingerprint_consistency (lib.rs).
--   Fingerprint       the constructors of fingerprint.rs; H2: those of HTTP/2.
--   Protocol          the enums of protocol.rs.
--   Proxy             proxy.rs, and the MASQUE argument of masque.rs.
--   Errors            to_py_err and the hierarchy of exceptions (error.rs).
--   SessionPool       the guard objects of a SessionPool, one locked piece of a method at a time;
--                     Blocking: the constructor, and the blocking pool, one call at a time; Leases,
--                     Released, Effects and Settled: where the leases are and what the methods do to
--                     them.
--   Retry             the constructors of the two policies and PyCallableRetryPolicy::should_retry.
--   Middleware        on_request and on_response of PyMiddlewareWrapper.
--   Response          HeaderMap, parse_encoding, Response with its caches, over a heap of the objects
--                     that json() gives; Streaming: the responses read piece by piece,
--                     asynchronous and blocking.
-- Runs at concrete inputs stand in modules called Tests.
--
-- Numbers are natural numbers, with the wrap of the atomics and of `usize` written out as a remainder
-- by 2 ^ 64. There is no fuel: every loop runs over a list, of events, polls, moves, rounds or entries,
-- which stands for what the scheduler, the transport or the caller does.
--
-- What is outside src/ is a parameter: the library's send, its streams and its connection, the URL
-- crate, the decoders of encoding_rs, json.loads, Python callbacks, the addition of floats. Values of
-- the library's types are identities.
--
-- Not modelled: the registration of classes and exceptions and the set-up of tracing (lib.rs, error.rs),
-- the parsing of JSON and of captures, which is the library's (fingerprint.rs), the wrappers that only
-- copy fields or forward to the library (priority.rs, multipart.rs, quic.rs, most of masque.rs,
-- network_partition.rs, randomize.rs, the cookie methods of session.rs), the buffer protocol of
-- Response (raw FFI), and the exception that the bridge sets for a future that panicked, which carries
-- no guard.
pub mod Bridge
pub mod Client
pub mod ClientOptions
pub mod ClientPool
pub mod ClientSession
pub mod Dns
pub mod Errors
pub mod Fingerprint
pub mod Metrics
pub mod Middleware
pub mod Prelude
pub mod Presets
pub mod Protocol
pub mod Proxy
pub mod Response
pub mod Retry
pub mod Session
pub mod SessionPool
pub mod SessionState
pub mod Types
pub mod Upload
pub mod Websocket
