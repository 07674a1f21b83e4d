-- ===== src/Lib.antt =====
-- A verification of blahaj, a supervisor of processes with a reverse proxy (the Rust crate in the
-- folder src of the repository).
--
-- The program starts a caretaker for each configured program (src/supervisor/caretaker.rs). It
-- spawns the program, watches it with a future that is polled by hand (WaitAbortFut in
-- src/supervisor/futs.rs) while an actor checks its health over HTTP (src/supervisor/health.rs), and
-- runs it again behind a delay (RepeatedActFut) until a stop signal comes or the retry guard
-- (src/supervisor/retry.rs) refuses. A request that is none of the program's own goes through the
-- table of upstreams (src/proxy/mod.rs), with a Forwarded header (src/proxy/forwarded_header.rs),
-- by the handler src/proxy/handler.rs. The supervisor (src/supervisor/mod.rs) holds the caretakers
-- and collects their states, which the endpoints (src/endpoints.rs) show.
--
-- Which file models which part:
-- - Prelude and its children: names of the libraries, Boolean tests, lists over the native numbers,
--   calls that may panic (Outcome), text as a list of code points.
-- - Text: the methods of `str` that the program calls; Text.Laws, Text.Split: their laws.
-- - Map: a HashMap as an association list; Map.Laws: lookup after insertion and collection.
-- - Config: the types and defaults of src/config.rs; Config.Values: its command lines and values of
--   an environment, with shellexpand and shlex as arguments (expand, words); Config.Document: what
--   its attributes say of a file (read_config), with serde_yaml as an argument (Deserializer);
--   Programs, Unknown: what is made of it.
-- - Error: src/error.rs. Logger: src/logger.rs, with wrap_stream of src/supervisor/caretaker.rs;
--   Streams, Lines: which items and lines are taken and logged.
-- - LogFormat: src/log_format.rs, the width that calls share by single accesses (access); Width:
--   what holds of it; Columns: how the lines line up.
-- - Proxy: src/proxy/mod.rs (entry_from is ProxyEntry::from, new and get are ProxyConfig's); below
--   it Ancestors, Routing, Forwarding, Forwarded for src/proxy/forwarded_header.rs, and Handler
--   for src/proxy/handler.rs (forward is the handler), with Headers and Served.
-- - Endpoints: src/endpoints.rs (health and status); Endpoints.Answers: what they tell.
-- - Supervisor.Retry: RetryGuard. Supervisor.Futs: the two futures (poll_repeated and poll_abort are
--   their poll). Supervisor.Health: HealthActor (on_reply is the callback of a request).
-- - Supervisor.Caretaker: the actor's state and its small handlers; Run: the handlers of Run and
--   Daemon and terminate_ext.rs, cut at the points where they wait; System: the caretaker, its
--   daemon and its run as one state, with a step for each thing that can happen next.
--   Invariant, Transitions, Endings, Children, GivingUp, Panics, Endless and Terminating say what
--   holds of it.
-- - Supervisor.Checked: a caretaker with the health actors that it starts, what they tell it and the
--   signal that its poll finds; Fit, Counted, Excused, Failing, Restarts: what holds of
--   them.
-- - Supervisor.Fleet: src/supervisor/mod.rs, the actor that holds the caretakers. World: the actor
--   with its caretakers, their mailboxes and the answers to their Waits as one state, and the
--   relation Reach of the worlds that can come to be; Members, Sent, Awaiting, Mail, Shutdown,
--   Gone, Alive, Stopping, Progress: what holds of them.
-- - CtrlcHandler: src/ctrlc_handler.rs; Signalled: the handler beside the supervisor with its
--   mailbox; Termination: what a signal brings about.
-- - Main: what main of src/main.rs makes of the configuration (relays_of, proxy_config, services) and
--   the task that stops the server (stop_task); Launch: how it comes up (launch) and ends (finish),
--   with what other crates do as an argument (Host); Starting, Serving, Order, Shutdown: the parts
--   put together.
--
-- Conventions. An Instant is a number of nanoseconds since the platform's earliest instant, a
-- Duration a number of nanoseconds, a text a list of code points. A call that may panic returns an
-- Outcome. What is not in the repository is an argument: the clock, the answers of polled futures,
-- the replies to health checks, spawning (spawn), the crate http (UriApi, build_uri, is_success),
-- signal_name of signal-hook, try_join_all of futures (Joining once all answers are there, Polling
-- before that), the lines that FramedRead yields, the order of the runtime (take_items), the
-- requests of awc (ClientApi) and the builders of actix_web (BuilderApi). A sender of a one-shot
-- channel is a Boolean that says whether it is there; the broadcast's sender is the number of its
-- receivers. A Wait that was handled is a task of its own, and is answered also where its caretaker
-- panics.
--
-- Bounds and fuel. `ancestors` takes the length of the path as fuel, and each parent is shorter
-- (Proxy.Ancestors). Numbers print with five digits for a u16 and twenty for a usize, which is
-- enough. A run is a function of the list of what happens, so it needs no fuel: Passes and IsFair say
-- that a list has what a caretaker needs to come to its end. The product of an interval and a count
-- of failures panics as it does for u32 and Duration.
--
-- Not modelled: how actix runs the actors, beyond the order of what happens; the arguments' parsing,
-- what the log and the HTTP server are set up with (src/main.rs), the server itself; the time and the
-- colours of a line (src/log_format.rs); the tests in the source, but for some that are repeated
-- among the tests here.
pub mod Prelude
pub mod Text
pub mod Map
pub mod Error
pub mod Logger
pub mod LogFormat
pub mod Config
pub mod Endpoints
pub mod Main
pub mod CtrlcHandler
pub mod Proxy
pub mod Supervisor
