-- ===== src/Engine/Health.antt =====
-- the-engine/src/health_server.rs: what `GET /health` answers.
pub mod Reports
use Prim.Native.String.{String}
use soroban_cron.Common.{ℕ, Option, none, some, ◌==◌, if◌then◌else◌}
use soroban_cron.Engine.Errors.{Result, ◌>>=◌}
use soroban_cron.Engine.InFlight.{InFlightSet, len}
use soroban_cron.Engine.Poller.{LedgerPoller}
use soroban_cron.Engine.Discovery.{Discovery}

pub record HealthResponse : Type 0 where
  pub current_ledger : ℕ
  pub last_execution_timestamp : Option ℕ
  pub in_flight_count : ℕ

-- The handles into the poller and the pipeline, as they are read.
pub record HealthState : Type 0 where
  pub current_ledger : ℕ
  pub last_confirmed_ts : ℕ
  pub in_flight : InFlightSet

unfoldable pub health_handler : HealthState → HealthResponse
unfolding len
health_handler state = record {
  current_ledger = state.current_ledger;
  last_execution_timestamp =
      if state.last_confirmed_ts == 0 then none else some state.last_confirmed_ts;
  in_flight_count = len state.in_flight;
}

-- The handles that main.rs wires in, as they are read.
unfoldable pub health_state : {N : Type 0} → LedgerPoller → Discovery N → HealthState
health_state poller discovery = record {
  current_ledger = poller.last_known_ledger;
  last_confirmed_ts = discovery.machine.last_confirmed_ts;
  in_flight = discovery.machine.in_flight;
}

-- Its state is the handles of `HealthState`, which each request reads anew.
pub record HealthServer : Type 0 where
  pub port : ℕ

-- `HealthServer::run`: the port on which `/health` is answered from then on; where the listener
-- cannot be bound, the task panics.
unfoldable pub serve : (bind : ℕ → Result (Unit {0}) String) → HealthServer → Result ℕ String
serve bind self = do _ ← bind self.port; Result.ok self.port
