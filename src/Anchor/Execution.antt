-- ===== src/Anchor/Execution.antt =====
-- the-anchor/src/execution.rs: the window arbitration and the shared execution path.
pub mod Outcome
pub mod Regions
pub mod Windows
pub mod Refinement
pub mod Payments
pub mod Completeness
pub mod Overflow
use soroban_cron.Common.{ℕ, ◌-◌, Bool, true, false, not, ltb, leb, ◌==◌}
use soroban_cron.Common.Int.{ℤ, pos, ltb_ℤ}
use soroban_cron.Common.Word.{add_u32, add_u64}
use soroban_cron.Anchor.Types.{Address, TaskId, ExecutionTask, Keeper}
use soroban_cron.Anchor.Errors.{ContractError}
use soroban_cron.Anchor.Host.{Host}
use soroban_cron.Anchor.Env.{
  Contract, ◌>>=◌, ◌>>◌, gets, fail_if, either, when, expect, require_auth, on_world,
}
use soroban_cron.Anchor.Events.{
  emit_task_executed, emit_task_executed_by_secondary, emit_missed_execution,
}
use soroban_cron.Anchor.Registry.{is_registered, get_keeper, update_keeper}
use soroban_cron.Anchor.Slashing.{apply_slash}
use soroban_cron.Anchor.Tasks.{get_task, update_task}

-- The keeper's record after one more execution.
unfoldable pub credited : Keeper → ℕ → Keeper
credited keeper ledger = record keeper {
  total_executions = add_u64 keeper.total_executions 1;
  last_execution_ledger = ledger;
}

-- The task's record after an execution.
unfoldable pub advanced : ExecutionTask → ℕ → ExecutionTask
advanced task ledger = record task {
  next_allowed_execution = add_u32 ledger task.execution_interval_ledgers;
}

module _ {W : Type 0} (h : Host W) where
  -- The balance check and the transfer that stand in both functions below.
  unfoldable pub pay : Address → ℤ → Contract W (Unit {0})
  pay recipient amount = do
    token ← expect (← gets (λ env. env.storage.native_token))
    this ← gets (λ env. env.current_contract_address)
    balance ← gets (λ env. h.balance token this env.world)
    fail_if (ltb_ℤ balance amount) ContractError.insufficient_reward_balance
    on_world (h.transfer token this recipient amount)

  unfoldable pub execute_distribution : ExecutionTask → Address → Bool → Contract W (Unit {0})
  unfolding update_task get_keeper update_keeper emit_task_executed
  execute_distribution task caller is_secondary = do
    current_ledger ← gets (λ env. env.ledger_sequence)
    on_world (h.invoke_contract task.target_drip_list "distribute_wave_splits")
    pay caller task.micro_reward_per_run
    update_task (advanced task current_ledger)
    keeper ← get_keeper caller
    update_keeper (credited keeper current_ledger)
    when (not is_secondary)
        (emit_task_executed task.task_id caller current_ledger task.micro_reward_per_run)

  -- Region 2: exactly at `next_allowed_execution`.
  unfoldable pub execute_designated : ExecutionTask → Address → Contract W (Unit {0})
  execute_designated task caller = do
    fail_if (not (caller == task.designated_keeper)) ContractError.unauthorized_executor
    execute_distribution task caller false

  -- Region 3: the 50 ledgers after it.
  unfoldable pub execute_in_grace : TaskId → ExecutionTask → Address → ℕ → Contract W (Unit {0})
  unfolding emit_task_executed_by_secondary
  execute_in_grace id task caller current_ledger = do
    fail_if (caller == task.designated_keeper) ContractError.grace_period_active
    registered ← gets (λ env. is_registered env caller)
    fail_if (not registered) ContractError.caller_not_secondary_eligible
    amounts ← apply_slash task.designated_keeper
    execute_distribution task caller true
    when (ltb_ℤ (pos 0) amounts.1) (pay caller amounts.1)
    emit_task_executed_by_secondary id caller task.designated_keeper current_ledger amounts.0
        amounts.1 task.micro_reward_per_run

  -- Region 4: later.
  unfoldable pub execute_post_grace : TaskId → ExecutionTask → Address → ℕ → Contract W (Unit {0})
  unfolding emit_missed_execution
  execute_post_grace id task caller ledgers_elapsed = do
    registered ← gets (λ env. is_registered env caller)
    fail_if (not registered) ContractError.unauthorized_executor
    emit_missed_execution id ledgers_elapsed
    execute_distribution task caller false

  unfoldable pub execute_drip_split : TaskId → Address → Contract W (Unit {0})
  unfolding get_task
  execute_drip_split id caller = do
    task ← get_task id
    require_auth caller
    current_ledger ← gets (λ env. env.ledger_sequence)
    fail_if (ltb current_ledger task.next_allowed_execution) ContractError.too_early_to_execute
    let ledgers_elapsed = current_ledger - task.next_allowed_execution
    either (ledgers_elapsed == 0) (execute_designated task caller) (
        either (leb ledgers_elapsed 50) (execute_in_grace id task caller current_ledger)
          (execute_post_grace id task caller ledgers_elapsed))
