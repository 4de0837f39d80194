-- ===== src/Anchor/Scenarios/Windows.antt =====
-- tests/integration/tests: test_designated_execution.rs, test_grace_period.rs, test_post_grace.rs
use soroban_cron.Common.{◌+◌, Bool, true, ◌&&◌, ◌≡◌, refl, ◌==◌}
use soroban_cron.Common.Int.{pos, eqb_ℤ}
use soroban_cron.Anchor.Errors.{discriminant}
use soroban_cron.Anchor.Env.{Contract, return, ◌>>=◌, ◌>>◌}
use soroban_cron.Anchor.Registry.{register_keeper, get_keeper}
use soroban_cron.Anchor.Tasks.{provision_task, get_task}
use soroban_cron.Anchor.Execution.{execute_drip_split}
use soroban_cron.Anchor.History.{runs}
use soroban_cron.Anchor.Samples.{Balances, test_host}
use soroban_cron.Anchor.Scenarios.{
  drip_list, designated, other, stranger, set_sequence_number, unwrap_err, is_number, passes, setup,
}

unfoldable designated_keeper_executes_and_state_updates : Contract Balances Bool
designated_keeper_executes_and_state_updates = do
  register_keeper designated (pos 10_000_000)
  id ← provision_task test_host drip_list 100 (pos 5_000_000) designated
  task ← get_task id
  set_sequence_number task.next_allowed_execution
  execute_drip_split test_host id designated
  task_after ← get_task id
  keeper_rec ← get_keeper designated
  return (
      (task_after.next_allowed_execution == task.next_allowed_execution + 100)
      && (keeper_rec.total_executions == 1)
      && (keeper_rec.last_execution_ledger == task.next_allowed_execution))

designated_keeper_executes_and_state_updates-passes :
    passes designated_keeper_executes_and_state_updates ≡ true
unfolding runs setup designated_keeper_executes_and_state_updates get_task get_keeper discriminant
designated_keeper_executes_and_state_updates-passes = refl

unfoldable execution_before_window_is_rejected : Contract Balances Bool
execution_before_window_is_rejected = do
  register_keeper designated (pos 10_000_000)
  id ← provision_task test_host drip_list 100 (pos 5_000_000) designated
  e ← unwrap_err (execute_drip_split test_host id designated)
  return (is_number e 9)

execution_before_window_is_rejected-passes : passes execution_before_window_is_rejected ≡ true
unfolding runs setup execution_before_window_is_rejected get_task get_keeper discriminant
execution_before_window_is_rejected-passes = refl

unfoldable wrong_caller_in_designated_window_is_rejected : Contract Balances Bool
wrong_caller_in_designated_window_is_rejected = do
  register_keeper designated (pos 10_000_000)
  register_keeper other (pos 10_000_000)
  id ← provision_task test_host drip_list 100 (pos 5_000_000) designated
  task ← get_task id
  set_sequence_number task.next_allowed_execution
  e ← unwrap_err (execute_drip_split test_host id other)
  return (is_number e 10)

wrong_caller_in_designated_window_is_rejected-passes :
    passes wrong_caller_in_designated_window_is_rejected ≡ true
unfolding runs setup wrong_caller_in_designated_window_is_rejected get_task get_keeper discriminant
wrong_caller_in_designated_window_is_rejected-passes = refl

unfoldable secondary_keeper_executes_in_grace_and_schedule_advances : Contract Balances Bool
secondary_keeper_executes_in_grace_and_schedule_advances = do
  register_keeper designated (pos 50_000_000)
  register_keeper other (pos 50_000_000)
  id ← provision_task test_host drip_list 200 (pos 5_000_000) designated
  task ← get_task id
  set_sequence_number (task.next_allowed_execution + 30)
  execute_drip_split test_host id other
  task_after ← get_task id
  secondary_rec ← get_keeper other
  return (
      (task_after.next_allowed_execution == task.next_allowed_execution + 30 + 200)
      && (secondary_rec.total_executions == 1)
      && (secondary_rec.last_execution_ledger == task.next_allowed_execution + 30))

secondary_keeper_executes_in_grace_and_schedule_advances-passes :
    passes secondary_keeper_executes_in_grace_and_schedule_advances ≡ true
unfolding runs setup secondary_keeper_executes_in_grace_and_schedule_advances get_task get_keeper
    discriminant
secondary_keeper_executes_in_grace_and_schedule_advances-passes = refl

unfoldable designated_keeper_blocked_during_grace : Contract Balances Bool
designated_keeper_blocked_during_grace = do
  register_keeper designated (pos 50_000_000)
  id ← provision_task test_host drip_list 100 (pos 5_000_000) designated
  task ← get_task id
  set_sequence_number (task.next_allowed_execution + 10)
  e ← unwrap_err (execute_drip_split test_host id designated)
  return (is_number e 13)

designated_keeper_blocked_during_grace-passes : passes designated_keeper_blocked_during_grace ≡ true
unfolding runs setup designated_keeper_blocked_during_grace get_task get_keeper discriminant
designated_keeper_blocked_during_grace-passes = refl

unfoldable unregistered_caller_blocked_during_grace : Contract Balances Bool
unregistered_caller_blocked_during_grace = do
  register_keeper designated (pos 50_000_000)
  id ← provision_task test_host drip_list 100 (pos 5_000_000) designated
  task ← get_task id
  set_sequence_number (task.next_allowed_execution + 5)
  e ← unwrap_err (execute_drip_split test_host id stranger)
  return (is_number e 15)

unregistered_caller_blocked_during_grace-passes :
    passes unregistered_caller_blocked_during_grace ≡ true
unfolding runs setup unregistered_caller_blocked_during_grace get_task get_keeper discriminant
unregistered_caller_blocked_during_grace-passes = refl

unfoldable post_grace_execution_succeeds_with_no_slash : Contract Balances Bool
post_grace_execution_succeeds_with_no_slash = do
  register_keeper designated (pos 50_000_000)
  register_keeper other (pos 50_000_000)
  id ← provision_task test_host drip_list 100 (pos 5_000_000) designated
  task ← get_task id
  set_sequence_number (task.next_allowed_execution + 80)
  execute_drip_split test_host id other
  designated_rec ← get_keeper designated
  task_after ← get_task id
  return (
      eqb_ℤ designated_rec.stake_amount (pos 50_000_000)
      && (task_after.next_allowed_execution == task.next_allowed_execution + 80 + 100))

post_grace_execution_succeeds_with_no_slash-passes :
    passes post_grace_execution_succeeds_with_no_slash ≡ true
unfolding runs setup post_grace_execution_succeeds_with_no_slash get_task get_keeper discriminant
post_grace_execution_succeeds_with_no_slash-passes = refl

unfoldable designated_keeper_can_execute_post_grace : Contract Balances Bool
designated_keeper_can_execute_post_grace = do
  register_keeper designated (pos 50_000_000)
  id ← provision_task test_host drip_list 100 (pos 5_000_000) designated
  task ← get_task id
  set_sequence_number (task.next_allowed_execution + 51)
  execute_drip_split test_host id designated
  return true

designated_keeper_can_execute_post_grace-passes :
    passes designated_keeper_can_execute_post_grace ≡ true
unfolding runs setup designated_keeper_can_execute_post_grace get_task get_keeper discriminant
designated_keeper_can_execute_post_grace-passes = refl

unfoldable unregistered_caller_blocked_post_grace : Contract Balances Bool
unregistered_caller_blocked_post_grace = do
  register_keeper designated (pos 50_000_000)
  id ← provision_task test_host drip_list 100 (pos 5_000_000) designated
  task ← get_task id
  set_sequence_number (task.next_allowed_execution + 60)
  e ← unwrap_err (execute_drip_split test_host id stranger)
  return (is_number e 10)

unregistered_caller_blocked_post_grace-passes : passes unregistered_caller_blocked_post_grace ≡ true
unfolding runs setup unregistered_caller_blocked_post_grace get_task get_keeper discriminant
unregistered_caller_blocked_post_grace-passes = refl
