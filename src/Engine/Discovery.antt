-- ===== src/Engine/Discovery.antt =====
-- the-engine/src/task_discovery.rs and grace_monitor.rs: which tasks the daemon executes at a ledger,
-- and in which role. `log_missed` only writes a log line, so it leaves no trace here.
pub mod Windows
pub mod Events
pub mod Cache
pub mod OnChain
use Prim.Native.String.{String}
use mathlib.Core.Option.{get_or}
use text.Mathlib.Text.{◌==◌ as ◌=~◌}
use soroban_cron.Common.{
  ℕ, ◌-◌, ◌&&◌, Bool, true, false, Option, none, some, List, [], ◌∷◌, ltb, leb, ◌==◌, if◌then◌else◌,
}
use soroban_cron.Common.Word.{add_u32}
use soroban_cron.Engine.Errors.{EngineError, Result}
use soroban_cron.Engine.Rpc.{RemoteTask, query_executable_tasks}
use soroban_cron.Engine.InFlight.{contains}
use soroban_cron.Engine.Poller.{LedgerEvent}
use soroban_cron.Engine.Pipeline.{
  ExecutionRole, Network, Machine, ExecutionPipeline, first_bytes, dispatch,
}

-- The in-flight set that both structures share is a field of `Machine`.
pub record GraceMonitor : Type 0 where
  pub keeper_address : String
  pub pipeline : ExecutionPipeline

pub record TaskDiscovery : Type 0 where
  pub anchor_contract_address : String
  pub keeper_address : String
  pub pipeline : ExecutionPipeline
  pub grace_monitor : GraceMonitor
  -- In seconds.
  pub task_query_timeout : ℕ

-- The hash map from a task's identifier to its record, as an association list.
abbrev pub TaskCache : Type 0
TaskCache = List (String × RemoteTask)

unfoldable pub cache_insert : RemoteTask → TaskCache → TaskCache
cache_insert task [] = (task.task_id_hex, task) ∷ []
cache_insert task ((hex, old) ∷ cache) =
    let rest = cache_insert task cache in
    if task.task_id_hex =~ hex then (hex, task) ∷ cache else (hex, old) ∷ rest

unfoldable pub cache_all : List RemoteTask → TaskCache → TaskCache
unfolding cache_insert
cache_all [] cache = cache
cache_all (task ∷ tasks) cache = cache_all tasks (cache_insert task cache)

-- The state of the discovery loop: the pipeline's, and the cache.
pub record Discovery (N : Type 0) : Type 0 where
  pub machine : Machine N
  pub task_cache : TaskCache

-- What `recv` on the broadcast channel answers.
pub data Received : Type 0 where
  event : LedgerEvent → Received
  lagged : (skipped : ℕ) → Received
  closed : Received

-- The outcome of a query under its timeout: `none` where the timeout fires first.
abbrev pub Query : Type 0
Query = ℕ → Option (Result (List RemoteTask) EngineError)

module _ {V N : Type 0} (net : Network V N) where
  -- task_discovery.rs and grace_monitor.rs each have a copy of `parse_task_id`.
  unfoldable pub parse_hex : String → ℕ
  unfolding first_bytes
  parse_hex hex = first_bytes 32 (get_or (net.hex_decode hex) []) 0

  unfoldable pub parse_task_id_hex : String → ℕ
  unfolding first_bytes
  parse_task_id_hex hex = first_bytes 32 (get_or (net.hex_decode hex) []) 0

  -- `GraceMonitor::evaluate`; the difference saturates.
  unfoldable pub evaluate : GraceMonitor → RemoteTask → (current_ledger : ℕ) → Machine N → Machine N
  unfolding parse_task_id_hex
  evaluate self task current_ledger m =
      if ltb 50 (current_ledger - task.next_allowed_execution)
      then m
      else if self.keeper_address =~ task.designated_keeper
      then m
      else if contains (parse_task_id_hex task.task_id_hex) m.in_flight
      then m
      else dispatch net self.pipeline task ExecutionRole.secondary m

  module _ (self : TaskDiscovery) where
    unfoldable pub classify_and_dispatch : RemoteTask → (current_ledger : ℕ) → Machine N → Machine N
    unfolding evaluate parse_hex
    classify_and_dispatch task current_ledger m =
        let next = task.next_allowed_execution in
        if contains (parse_hex task.task_id_hex) m.in_flight
        then m
        else if (current_ledger == next) && (task.designated_keeper =~ self.keeper_address)
        then dispatch net self.pipeline task ExecutionRole.designated m
        else if ltb next current_ledger && leb current_ledger (add_u32 next 50)
        then evaluate self.grace_monitor task current_ledger m
        else if ltb (add_u32 next 50) current_ledger
        then dispatch net self.pipeline task ExecutionRole.post_grace m
        else m

    unfoldable pub dispatch_all : List RemoteTask → (current_ledger : ℕ) → Machine N → Machine N
    unfolding classify_and_dispatch
    dispatch_all [] current_ledger m = m
    dispatch_all (task ∷ tasks) current_ledger m =
        dispatch_all tasks current_ledger (classify_and_dispatch task current_ledger m)

    unfoldable pub on_ledger_advance : Query → (current_ledger : ℕ) → Discovery N → Discovery N
    unfolding dispatch_all cache_all
    on_ledger_advance query current_ledger s = elim (query current_ledger) [
      | none ↦ s
      | some (Result.err e) ↦ s
      | some (Result.ok tasks) ↦ record {
        machine = dispatch_all tasks current_ledger s.machine;
        task_cache = cache_all tasks s.task_cache;
      }
    ]

    -- The loop, driven by what the channel answers; at the end of the list it waits.
    unfoldable pub run : Query → List Received → Discovery N → Discovery N
    unfolding on_ledger_advance
    run query [] s = s
    run query (Received.event (LedgerEvent.advance seq) ∷ received) s =
        run query received (on_ledger_advance query seq s)
    run query (Received.lagged skipped ∷ received) s = run query received s
    run query (Received.closed ∷ received) s = s

-- The query that the code makes: it answers at once, so no timeout fires.
unfoldable pub executable_tasks : TaskDiscovery → Query
unfolding query_executable_tasks
executable_tasks self current_ledger =
    some (query_executable_tasks self.anchor_contract_address current_ledger)
