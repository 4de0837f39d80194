-- ===== src/Anchor/Tasks.antt =====
-- the-anchor/src/tasks.rs: task provisioning and lookup.
pub mod Outcome
use mathlib.Core.Option.{get_or}
use soroban_cron.Common.{ℕ, not, some, List, ◌++◌, ◌==◌}
use soroban_cron.Common.Int.{ℤ, pos, leb_ℤ}
use soroban_cron.Common.Word.{add_u32, to_be_bytes}
use soroban_cron.Anchor.Types.{Address, TaskId, ExecutionTask}
use soroban_cron.Anchor.Errors.{ContractError}
use soroban_cron.Anchor.Host.{Host}
use soroban_cron.Anchor.Env.{
  Contract, ◌>>=◌, ◌>>◌, gets, return, fail_if, ok_or, require_auth, modify, set_task,
}
use soroban_cron.Anchor.Events.{emit_task_provisioned}
use soroban_cron.Anchor.Registry.{is_registered, is_eligible}

module _ {W : Type 0} where
  unfoldable pub get_task : TaskId → Contract W ExecutionTask
  get_task id = do
    found ← gets (λ env. env.storage.task id)
    ok_or found ContractError.task_not_found

  unfoldable pub update_task : ExecutionTask → Contract W (Unit {0})
  update_task task = modify (set_task task.task_id task)

-- The 8-byte buffer that is hashed: the counter, then the ledger.
unfoldable pub task_seed : ℕ → ℕ → List ℕ
task_seed counter current_ledger = to_be_bytes counter ++ to_be_bytes current_ledger

module _ {W : Type 0} (h : Host W) where
  unfoldable pub next_task_id : Contract W TaskId
  next_task_id = do
    counter ← gets (λ env. get_or env.storage.task_counter 0)
    modify (λ s. record s { task_counter = some (add_u32 counter 1) })
    current_ledger ← gets (λ env. env.ledger_sequence)
    return (h.sha256 (task_seed counter current_ledger))

  unfoldable pub provision_task : Address → ℕ → ℤ → Address → Contract W TaskId
  unfolding is_registered is_eligible next_task_id emit_task_provisioned
  provision_task target interval reward designated = do
    admin ← ok_or (← gets (λ env. env.storage.admin)) ContractError.unauthorized_caller
    require_auth admin
    fail_if (interval == 0) ContractError.invalid_interval
    fail_if (leb_ℤ reward (pos 0)) ContractError.invalid_reward
    registered ← gets (λ env. is_registered env designated)
    fail_if (not registered) ContractError.keeper_not_found
    eligible ← gets (λ env. is_eligible env designated)
    fail_if (not eligible) ContractError.ineligible_keeper
    id ← next_task_id
    current_ledger ← gets (λ env. env.ledger_sequence)
    modify (
        set_task id (record {
          task_id = id;
          target_drip_list = target;
          execution_interval_ledgers = interval;
          next_allowed_execution = add_u32 current_ledger interval;
          micro_reward_per_run = reward;
          designated_keeper = designated;
        }))
    emit_task_provisioned id target interval reward designated
    return id
