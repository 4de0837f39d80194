-- ===== src/Anchor/Types.antt =====
-- The on-chain records of chronos-types/src/lib.rs. An `Address` and a `TaskId` are only compared
-- and used as keys, so each is a number (a `TaskId` is the number that its 32 bytes spell).
-- An `i128` is an integer within `IsI128`; `u32` and `u64` are natural numbers below their modulus.
use soroban_cron.Common.{ℕ, Bool}
use soroban_cron.Common.Int.{ℤ}

abbrev pub Address : Type 0
Address = ℕ

abbrev pub TaskId : Type 0
TaskId = ℕ

pub record Keeper : Type 0 where
  pub address : Address
  pub stake_amount : ℤ
  pub last_execution_ledger : ℕ
  pub total_executions : ℕ
  pub ineligible : Bool

pub record ExecutionTask : Type 0 where
  pub task_id : TaskId
  pub target_drip_list : Address
  pub execution_interval_ledgers : ℕ
  pub next_allowed_execution : ℕ
  pub micro_reward_per_run : ℤ
  pub designated_keeper : Address
