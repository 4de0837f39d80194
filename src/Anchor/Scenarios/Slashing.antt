-- ===== src/Anchor/Scenarios/Slashing.antt =====
-- tests/integration/tests/test_slashing.rs
use soroban_cron.Common.{◌+◌, Bool, true, ◌≡◌, refl, ◌==◌, if◌then◌else◌}
use soroban_cron.Common.Int.{pos, eqb_ℤ, leb_ℤ, ltb_ℤ, ◌-ℤ◌, ◌*ℤ◌, quot}
use soroban_cron.Anchor.Errors.{discriminant}
use soroban_cron.Anchor.Env.{Contract, return, ◌>>=◌, ◌>>◌}
use soroban_cron.Anchor.Registry.{register_keeper, get_keeper}
use soroban_cron.Anchor.Tasks.{provision_task, get_task}
use soroban_cron.Anchor.Execution.{execute_drip_split}
use soroban_cron.Anchor.History.{runs}
use soroban_cron.Anchor.Samples.{Balances, test_host}
use soroban_cron.Anchor.Scenarios.{drip_list, designated, other, set_sequence_number, passes, setup}

unfoldable secondary_execution_slashes_designated_keeper_by_5_percent : Contract Balances Bool
secondary_execution_slashes_designated_keeper_by_5_percent = do
  register_keeper designated (pos 100_000_000)
  register_keeper other (pos 100_000_000)
  id ← provision_task test_host drip_list 100 (pos 5_000_000) designated
  task ← get_task id
  set_sequence_number (task.next_allowed_execution + 25)
  execute_drip_split test_host id other
  designated_rec ← get_keeper designated
  return
      (eqb_ℤ designated_rec.stake_amount (pos 100_000_000 -ℤ quot (pos 100_000_000 *ℤ pos 5) 100))

secondary_execution_slashes_designated_keeper_by_5_percent-passes :
    passes secondary_execution_slashes_designated_keeper_by_5_percent ≡ true
unfolding runs setup secondary_execution_slashes_designated_keeper_by_5_percent get_task get_keeper
    discriminant
secondary_execution_slashes_designated_keeper_by_5_percent-passes = refl

unfoldable slash_never_produces_negative_stake : Contract Balances Bool
slash_never_produces_negative_stake = do
  register_keeper designated (pos 10_000_000)
  register_keeper other (pos 10_000_000)
  id ← provision_task test_host drip_list 100 (pos 5_000_000) designated
  task ← get_task id
  set_sequence_number (task.next_allowed_execution + 10)
  execute_drip_split test_host id other
  designated_rec ← get_keeper designated
  return (leb_ℤ (pos 0) designated_rec.stake_amount)

slash_never_produces_negative_stake-passes : passes slash_never_produces_negative_stake ≡ true
unfolding runs setup slash_never_produces_negative_stake get_task get_keeper discriminant
slash_never_produces_negative_stake-passes = refl

unfoldable keeper_marked_ineligible_after_stake_falls_below_minimum : Contract Balances Bool
keeper_marked_ineligible_after_stake_falls_below_minimum = do
  register_keeper designated (pos 10_000_001)
  register_keeper other (pos 10_000_000)
  id ← provision_task test_host drip_list 100 (pos 5_000_000) designated
  task ← get_task id
  set_sequence_number (task.next_allowed_execution + 1)
  execute_drip_split test_host id other
  designated_rec ← get_keeper designated
  return (
      if ltb_ℤ (pos 10_000_001 -ℤ quot (pos 10_000_001 *ℤ pos 5) 100) (pos 10_000_000)
      then designated_rec.ineligible
      else true)

keeper_marked_ineligible_after_stake_falls_below_minimum-passes :
    passes keeper_marked_ineligible_after_stake_falls_below_minimum ≡ true
unfolding runs setup keeper_marked_ineligible_after_stake_falls_below_minimum get_task get_keeper
    discriminant
keeper_marked_ineligible_after_stake_falls_below_minimum-passes = refl

unfoldable secondary_keeper_receives_micro_reward : Contract Balances Bool
secondary_keeper_receives_micro_reward = do
  register_keeper designated (pos 100_000_000)
  register_keeper other (pos 100_000_000)
  id ← provision_task test_host drip_list 100 (pos 5_000_000) designated
  task ← get_task id
  set_sequence_number (task.next_allowed_execution + 20)
  execute_drip_split test_host id other
  secondary_rec ← get_keeper other
  return (secondary_rec.total_executions == 1)

secondary_keeper_receives_micro_reward-passes : passes secondary_keeper_receives_micro_reward ≡ true
unfolding runs setup secondary_keeper_receives_micro_reward get_task get_keeper discriminant
secondary_keeper_receives_micro_reward-passes = refl
