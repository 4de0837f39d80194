-- ===== src/Engine/Executions.antt =====
-- the-engine/src/execution_pipeline.rs, task_discovery.rs and grace_monitor.rs once more, cut at the
-- points where another task can see the difference: before each task of a ledger, and around each
-- execution.
pub mod Pieces
use text.Mathlib.Text.{◌==◌ as ◌=~◌}
use soroban_cron.Common.{ℕ, Option, none, some, List, ltb, leb, ◌&&◌, ◌-◌, ◌==◌, if◌then◌else◌}
use soroban_cron.Common.Word.{add_u32}
use soroban_cron.Engine.Rpc.{RemoteTask}
use soroban_cron.Engine.InFlight.{contains, insert, remove}
use soroban_cron.Engine.Pipeline.{
  ExecutionRole, ExecutionPipeline, Network, Machine, parse_task_id, execute_with_retry,
}
use soroban_cron.Engine.Discovery.{TaskDiscovery, parse_hex, parse_task_id_hex}

-- An execution in which the discovery loop waits.
pub record Execution : Type 0 where
  pub pipeline : ExecutionPipeline
  pub task : RemoteTask
  pub role : ExecutionRole

-- Where the discovery loop stands: at `recv`, before the tasks that are left of a ledger's query,
-- in an execution, after one whose task is still in the set, or at its end.
pub data Phase : Type 0 where
  waiting : Phase
  scanning : (current_ledger : ℕ) → List RemoteTask → Phase
  executing : (current_ledger : ℕ) → Execution → List RemoteTask → Phase
  executed : (current_ledger : ℕ) → Execution → List RemoteTask → Phase
  exited : Phase

module _ {V N : Type 0} (net : Network V N) where
  -- The first half of `dispatch`.
  unfoldable pub begins :
      Execution → (current_ledger : ℕ) → List RemoteTask → Machine N → Phase × Machine N
  unfolding insert parse_task_id
  begins x current_ledger tasks m =
      let (fresh, set) = insert (parse_task_id net x.task.task_id_hex) m.in_flight in
      if fresh
      then (Phase.executing current_ledger x tasks, record m { in_flight = set })
      else (Phase.scanning current_ledger tasks, m)

  -- The second half of `dispatch`, in two.
  unfoldable pub carries_out : Execution → Machine N → Machine N
  unfolding execute_with_retry
  carries_out x m = execute_with_retry net x.pipeline x.task x.role m

  unfoldable pub releases : Execution → Machine N → Machine N
  unfolding remove parse_task_id
  releases x m = record m { in_flight = remove (parse_task_id net x.task.task_id_hex) m.in_flight }

module _ {V N : Type 0} (net : Network V N) (self : TaskDiscovery) where
  -- The tests of `classify_and_dispatch` and `evaluate`, with the dispatch that they lead to.
  unfoldable pub choose : RemoteTask → (current_ledger : ℕ) → Machine N → Option Execution
  unfolding parse_hex parse_task_id_hex
  choose task current_ledger m =
      let next = task.next_allowed_execution in
      let monitor = self.grace_monitor in
      if contains (parse_hex net task.task_id_hex) m.in_flight
      then none
      else if (current_ledger == next) && (task.designated_keeper =~ self.keeper_address)
      then some (record { pipeline = self.pipeline; task = task; role = ExecutionRole.designated })
      else if ltb next current_ledger && leb current_ledger (add_u32 next 50)
      then if ltb 50 (current_ledger - next)
        then none
        else if monitor.keeper_address =~ task.designated_keeper
        then none
        else if contains (parse_task_id_hex net task.task_id_hex) m.in_flight
        then none
        else some
            (record { pipeline = monitor.pipeline; task = task; role = ExecutionRole.secondary })
      else if ltb (add_u32 next 50) current_ledger
      then some (record { pipeline = self.pipeline; task = task; role = ExecutionRole.post_grace })
      else none
