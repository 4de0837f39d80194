-- ===== src/Anchor/Calls.antt =====
-- the-anchor/src/lib.rs: the interface of the contract, as data.
use soroban_cron.Common.{ℕ}
use soroban_cron.Common.Int.{ℤ}
use soroban_cron.Anchor.Types.{Address, TaskId, Keeper, ExecutionTask}

-- A call of an entry point, with its arguments.
pub data Call : Type 0 where
  initialize : (admin native_token : Address) (min_keeper_stake : ℤ) → Call
  register_keeper : (keeper : Address) (stake_amount : ℤ) → Call
  get_keeper : (keeper : Address) → Call
  provision_task : (target : Address) (interval : ℕ) (reward : ℤ) (designated : Address) → Call
  get_task : (id : TaskId) → Call
  execute_drip_split : (id : TaskId) (caller : Address) → Call

-- What an entry point returns.
pub data Answer : Type 0 where
  nothing : Answer
  a_keeper : Keeper → Answer
  a_task_id : TaskId → Answer
  a_task : ExecutionTask → Answer
