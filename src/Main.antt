-- ===== src/Main.antt =====
-- src/main.rs: what `main` makes of the configuration and how it starts and ends. Reading the
-- arguments and the file, the log's set-up and the HTTP server are other crates' work.
pub mod Serving
pub mod Shutdown
pub mod Launch
pub mod Starting
pub mod Order
mod Tests
use blahaj.Prelude.{
  List, [], ◌∷◌, Bool, true, false, Option, none, some, Outcome, ok, panic, ◌⊎◌, inl, inr,
}
use blahaj.Supervisor.Futs.{Poll, ready, pending}
use blahaj.Prelude.Text.{Str, codes}
use blahaj.Config.{Config, Program, HttpRelay}
use blahaj.Proxy
use blahaj.Proxy.{ProxyConfig}

-- `filter_map` over the programs: the relays of those that have one.
unfoldable pub relays_of : List (Str × Program) → List HttpRelay
relays_of [] = []
relays_of ((_, program) ∷ programs) =
    let rest = relays_of programs in elim program.http [ none ↦ rest | some relay ↦ relay ∷ rest ]

unfoldable pub proxy_config : Config → ProxyConfig
unfolding relays_of
proxy_config config = Proxy.new (relays_of config.programs) config.bind

-- The services that the server is made with: those under the scope, and the default one.
pub data Endpoint : Type 0 where
  health status forward : Endpoint

pub record Services : Type 0 where
  pub scope : Str
  pub routes : List (Str × Endpoint)
  pub default_service : Endpoint

unfoldable pub services : Config → Services
services config = record {
  scope = config.api_scope;
  routes = (codes "health", health) ∷ (codes "status", status) ∷ [];
  default_service = forward;
}

-- What `send(Join)` to the supervisor, which lives, is answered with.
abbrev pub answer_of : {Error : Type 0} → Poll (Unit {0}) → Poll (Error ⊎ Unit {0})
answer_of pending = pending
answer_of (ready done) = ready (inr done)

-- The task that `main` spawns, from what `send(Join)` is answered with: whether the server is told
-- to stop, upon which `main` returns.
unfoldable pub stop_task : {Error : Type 0} → Poll (Error ⊎ Unit {0}) → Outcome Bool
stop_task pending = ok false
stop_task (ready (inr done)) = ok true
stop_task (ready (inl e)) = panic
