-- ===== src/Anchor/Scenarios/Provisioning.antt =====
-- tests/integration/tests/test_task_provisioning.rs
use soroban_cron.Anchor.Types.{TaskId}
use soroban_cron.Common.{ℕ, zero, suc, ◌*◌, ◌+◌, Bool, true, ◌&&◌, ◌≡◌, refl, ◌==◌}
use soroban_cron.Common.Int.{pos, eqb_ℤ}
use soroban_cron.Anchor.Errors.{discriminant}
use soroban_cron.Anchor.Env.{Contract, gets, return, ◌>>=◌, ◌>>◌}
use soroban_cron.Anchor.Registry.{register_keeper, get_keeper}
use soroban_cron.Anchor.Tasks.{provision_task, get_task}
use soroban_cron.Anchor.History.{runs}
use soroban_cron.Anchor.Samples.{Balances, test_host}
use soroban_cron.Anchor.Scenarios.{
  drip_list, designated, stranger, unwrap_err, is_number, passes, setup,
}

unfoldable provision_task_stores_all_fields : Contract Balances Bool
provision_task_stores_all_fields = do
  register_keeper designated (pos 10_000_000)
  id ← provision_task test_host drip_list 100 (pos 5_000_000) designated
  task ← get_task id
  current ← gets (λ env. env.ledger_sequence)
  return (
      (task.task_id == id)
      && (task.target_drip_list == drip_list)
      && (task.execution_interval_ledgers == 100)
      && eqb_ℤ task.micro_reward_per_run (pos 5_000_000)
      && (task.designated_keeper == designated)
      && (task.next_allowed_execution == current + 100))

provision_task_stores_all_fields-passes : passes provision_task_stores_all_fields ≡ true
unfolding runs setup provision_task_stores_all_fields get_task get_keeper discriminant
provision_task_stores_all_fields-passes = refl

unfoldable provision_task_rejects_zero_interval : Contract Balances Bool
provision_task_rejects_zero_interval = do
  register_keeper designated (pos 10_000_000)
  e ← unwrap_err (provision_task test_host drip_list 0 (pos 5_000_000) designated)
  return (is_number e 4)

provision_task_rejects_zero_interval-passes : passes provision_task_rejects_zero_interval ≡ true
unfolding runs setup provision_task_rejects_zero_interval get_task get_keeper discriminant
provision_task_rejects_zero_interval-passes = refl

unfoldable provision_task_rejects_zero_reward : Contract Balances Bool
provision_task_rejects_zero_reward = do
  register_keeper designated (pos 10_000_000)
  e ← unwrap_err (provision_task test_host drip_list 100 (pos 0) designated)
  return (is_number e 5)

provision_task_rejects_zero_reward-passes : passes provision_task_rejects_zero_reward ≡ true
unfolding runs setup provision_task_rejects_zero_reward get_task get_keeper discriminant
provision_task_rejects_zero_reward-passes = refl

unfoldable provision_task_rejects_unregistered_keeper : Contract Balances Bool
provision_task_rejects_unregistered_keeper = do
  e ← unwrap_err (provision_task test_host drip_list 100 (pos 5_000_000) stranger)
  return (is_number e 3)

provision_task_rejects_unregistered_keeper-passes :
    passes provision_task_rejects_unregistered_keeper ≡ true
unfolding runs setup provision_task_rejects_unregistered_keeper get_task get_keeper discriminant
provision_task_rejects_unregistered_keeper-passes = refl

-- The number that n equal bytes spell.
abbrev spelled : ℕ → (byte : ℕ) → TaskId
spelled zero byte = 0
spelled (suc n) byte = 256 * spelled n byte + byte

abbrev fake_id : TaskId
fake_id = spelled 32 222

unfoldable get_task_returns_not_found_for_unknown_id : Contract Balances Bool
get_task_returns_not_found_for_unknown_id = do
  e ← unwrap_err (get_task fake_id)
  return (is_number e 8)

get_task_returns_not_found_for_unknown_id-passes :
    passes get_task_returns_not_found_for_unknown_id ≡ true
unfolding runs setup get_task_returns_not_found_for_unknown_id get_task get_keeper discriminant
get_task_returns_not_found_for_unknown_id-passes = refl
