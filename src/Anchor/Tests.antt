-- ===== src/Anchor/Tests.antt =====
-- Runs of the contract on the sample chain, and the theorems at inputs that meet their hypotheses.
use soroban_cron.Common.{ℕ, ◌+◌, ◌-◌, ◌^◌, ◌<◌, update, ◌≡◌, refl, true, false, none, some, arith}
use soroban_cron.Common.Int.{ℤ, pos, ◌≤ℤ◌}
use soroban_cron.Anchor.Types.{Address, Keeper, ExecutionTask}
use soroban_cron.Anchor.Errors.{ContractError}
use soroban_cron.Anchor.Env.{Env, Storage, ok, err, is_ok}
use soroban_cron.Anchor.Samples.{
  Balances, test_host, deployed, at_ledger, after, test_hash-IsCollisionFree, busy_at, weekly,
  keeper_at, rich, busy_storage,
}
use soroban_cron.Anchor.Registry.{register_keeper}
use soroban_cron.Anchor.Registry.Outcome.{register_keeper_outcome}
use soroban_cron.Anchor.Tasks.Outcome.{provision_task_outcome}
use soroban_cron.Anchor.Slashing.{apply_slash}
use soroban_cron.Anchor.Tasks.{provision_task}
use soroban_cron.Anchor.Execution.{execute_drip_split}
use soroban_cron.Anchor.Execution.Refinement.{Executed, execute_drip_split-Executed}
use soroban_cron.Anchor.Execution.Windows.{execute_drip_split-refused, verdict}
use soroban_cron.Anchor.Execution.Payments.{Rewards, execute_drip_split_pays}
use soroban_cron.Anchor.Execution.Overflow.{overflowing_interval_is_overdue}
use soroban_cron.Anchor.Slashing.Conservation.{
  Split, Penalised, apply_slash_conserves, overflowing_slash_rewards,
}
use soroban_cron.Anchor.Contract.{initialize}
use soroban_cron.Anchor.System.{here, next, elsewhere}
use soroban_cron.Anchor.System.Soundness.{IsSound, Reach-IsSound}
use soroban_cron.Anchor.System.Keepers.{Keeps, Reach-Keeps, ineligible_forever}
use soroban_cron.Anchor.System.Identifiers.{provision_task_is_fresh}
use soroban_cron.Anchor.System.Schedule.{once_per_interval}
use soroban_cron.Anchor.System.Configuration.{IsConfigured, initialize_is_final}
use soroban_cron.Anchor.History.{
  runs, two_keepers, in_window, executed, two_keepers-Reach, in_window-Reach, later-Reach,
  test_host-TokenLaws,
}

-- Keeper 11 runs the task in the grace period: 5 XLM of reward and half of a 5 % slash.
grace_run :
    let env = after (execute_drip_split test_host 1000 11 (busy_at 1125)) in
    (env.world 11 ≡ pos 7_500_000) × (env.storage.treasury_balance ≡ some (pos 2_500_000))
unfolding runs
grace_run = (refl, refl)

execute_drip_split-Executed_example :
    Executed test_host 1000 11
      (busy_at 1125)
      (after (execute_drip_split test_host 1000 11 (busy_at 1125)))
unfolding runs
execute_drip_split-Executed_example =
    execute_drip_split-Executed test_host 1000 11 (busy_at 1125)
      (after (execute_drip_split test_host 1000 11 (busy_at 1125))) {u = tt} refl

-- The designated keeper is blocked in the grace period.
execute_drip_split-refused_example :
    execute_drip_split test_host 1000 10 (busy_at 1150)
    ≡ err ContractError.grace_period_active (busy_at 1150)
execute_drip_split-refused_example =
    execute_drip_split-refused test_host 1000 10 (busy_at 1150) weekly
      ContractError.grace_period_active refl refl refl

once_per_interval_example :
    is_ok (execute_drip_split test_host 1000 11 (at_ledger 1199 executed)) ≡ false
unfolding runs
once_per_interval_example =
    once_per_interval test_host {start = deployed} {env = in_window} {env' = executed}
      {later = at_ledger 1199 executed} test_hash-IsCollisionFree refl in_window-Reach 1000 10 11 tt
      weekly refl refl (omega arith) (next here (elsewhere refl (omega arith))) (omega arith)

provision_task_is_fresh_example : in_window.storage.task 4_294_968_396 ≡ none
unfolding runs
provision_task_is_fresh_example =
    provision_task_is_fresh test_host test_hash-IsCollisionFree {env = deployed} {env' = in_window}
      refl in_window-Reach 20 5 (pos 1) 11 refl

Reach-IsSound_example : IsSound in_window.storage
Reach-IsSound_example = Reach-IsSound test_host {env = deployed} refl in_window-Reach

Reach-Keeps_example : Keeps 10 (keeper_at 10 rich) in_window.storage
unfolding runs
Reach-Keeps_example =
    Reach-Keeps test_host 10 (keeper_at 10 rich)
      (Reach-IsSound test_host {env = deployed} refl two_keepers-Reach) refl later-Reach

-- Keeper 10 after a slash that left it below 1 XLM.
abbrev poor : Keeper
poor = record (keeper_at 10 (pos 9_500_000)) { ineligible = true }

abbrev poor_storage : Storage
poor_storage = record busy_storage { keeper = update 10 (some poor) (λ a. none); task = λ i. none }

abbrev poor_env : Env Balances
poor_env = record deployed { storage = poor_storage }

poor_storage-IsSound : IsSound poor_storage
poor_storage-IsSound = record {
  minimum = λ m e. ground arith;
  keepers = λ a k e. ground arith;
  tasks = λ i t e. cc;
}

ineligible_forever_example :
    is_ok (provision_task test_host 20 100 (pos 1) 10 (at_ledger 2000 poor_env)) ≡ false
ineligible_forever_example =
    ineligible_forever test_host 10 poor {env = poor_env} poor_storage-IsSound refl refl
      (next here (elsewhere refl (omega arith))) 20 100 (pos 1)

initialize_is_final_example :
    IsConfigured 7 8 (pos 10_000_000) in_window.storage
    × ((a t : Address) (m : ℤ)
        → initialize a t m in_window ≡ err ContractError.already_initialized in_window)
unfolding runs
initialize_is_final_example =
    initialize_is_final test_host 7 8 (pos 10_000_000) {env = two_keepers}
      (record { admin_set = refl; token_set = refl; minimum_set = refl }) later-Reach

apply_slash_conserves_example :
    (slash : ℕ) × (reward : ℕ) × (portion : ℕ) × (env' : Env Balances) × Split 100_000_000 slash
      reward portion
    × (apply_slash 10 (busy_at 1125) ≡ ok (pos slash, pos reward) env')
    × ((k' : Keeper) × (env'.storage.keeper 10 ≡ some k')
        × Penalised (keeper_at 10 rich) k' (100_000_000 - slash))
    × (env'.storage.treasury_balance ≡ some (pos (0 + portion)))
apply_slash_conserves_example =
    apply_slash_conserves 10 (busy_at 1125) (keeper_at 10 rich) 100_000_000 0 refl refl refl refl
      (omega arith) (omega arith) (omega arith)

overflowing_slash_rewards_example :
    (registered : Env Balances) × (register_keeper 12 (pos (2 ^ 125)) (busy_at 1000)
      ≡ ok tt registered)
    × (amounts : ℤ × ℤ) × (env' : Env Balances) × (apply_slash 12 registered ≡ ok amounts env')
    × (amounts.0 ≤ℤ pos 0)
    × ((k' : Keeper) × (env'.storage.keeper 12 ≡ some k') × (pos (2 ^ 125) ≤ℤ k'.stake_amount))
overflowing_slash_rewards_example =
    overflowing_slash_rewards 12 (busy_at 1000) (2 ^ 125) (omega arith) (omega arith) refl refl
      (omega arith)

-- An interval of 2 ^ 32 - 10 at ledger 1000.
abbrev overdue : Env Balances
overdue = after (provision_task test_host 20 4_294_967_286 (pos 1) 10 two_keepers)

overflowing_interval_is_overdue_example :
    (t : ExecutionTask) × (overdue.storage.task 1000 ≡ some t)
    × (t.next_allowed_execution < 1000)
    × (verdict test_host t 11 overdue ≡ none)
unfolding runs
overflowing_interval_is_overdue_example =
    overflowing_interval_is_overdue test_host 20 4_294_967_286 (pos 1) 10 two_keepers overdue 1000
      11 (omega arith) refl (omega arith) (omega arith) (omega arith) refl

execute_drip_split_pays_example :
    Rewards test_host test_host-TokenLaws 11 8
      (busy_at 1125)
      (after (execute_drip_split test_host 1000 11 (busy_at 1125))).world
      weekly
unfolding runs
execute_drip_split_pays_example =
    execute_drip_split_pays test_host test_host-TokenLaws 1000 11 8 (busy_at 1125)
      (after (execute_drip_split test_host 1000 11 (busy_at 1125))) tt weekly (keeper_at 10 rich)
      100_000_000 (omega arith) refl refl refl refl (omega arith) refl

register_keeper_outcome_example :
    register_keeper 10 rich (busy_at 1000)
    ≡ err ContractError.keeper_already_registered (busy_at 1000)
register_keeper_outcome_example = register_keeper_outcome 10 rich (busy_at 1000)

provision_task_outcome_example :
    provision_task test_host 20 0 (pos 1) 10 (busy_at 1000)
    ≡ err ContractError.invalid_interval (busy_at 1000)
provision_task_outcome_example = provision_task_outcome test_host 20 0 (pos 1) 10 (busy_at 1000)
