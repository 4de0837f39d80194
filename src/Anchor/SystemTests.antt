-- ===== src/Anchor/SystemTests.antt =====
-- The theorems on the contract's life, at a history that meets their hypotheses.
use soroban_cron.Common.{◌≡◌, refl, true, arith}
use soroban_cron.Common.Int.{pos}
use soroban_cron.Anchor.Env.{Env, ok, is_ok}
use soroban_cron.Anchor.Samples.{
  test_hash-IsCollisionFree, rich, Balances, test_host, deployed, after, weekly,
}
use soroban_cron.Anchor.History.{
  runs, two_keepers, provisioned, two_keepers-Reach, in_window, executed, in_window-Reach,
  test_host-TokenLaws, in_grace, in_grace-Reach, in_grace-Supplied,
}
use soroban_cron.Anchor.Calls.{Call, Answer}
use soroban_cron.Anchor.Entry.{invoke}
use soroban_cron.Anchor.Entry.Authority.{invoke-signer}
use soroban_cron.Anchor.Entry.Frame.{Untouched, execute_drip_split-Untouched}
use soroban_cron.Anchor.System.Soundness.{Reach-IsSound}
use soroban_cron.Anchor.Types.{ExecutionTask}
use soroban_cron.Anchor.Tasks.{get_task}
use soroban_cron.Anchor.System.Terms.{HasTerms, get_task-provision_task}
use soroban_cron.Anchor.Execution.{execute_drip_split}
use soroban_cron.Anchor.Execution.Completeness.{Executed-execute_drip_split}
use soroban_cron.Anchor.Execution.Refinement.{execute_drip_split-Executed}
use soroban_cron.Anchor.System.{
  Reach, here, next, elsewhere, executes, initialises, registers, provisions,
}
use soroban_cron.Anchor.System.Liveness.{due_task_is_executed}
use soroban_cron.Anchor.System.Accounts.{IsBalanced}
use soroban_cron.Anchor.System.Books.{books_balance}

due_task_is_executed_example : is_ok (execute_drip_split test_host 1000 11 in_grace) ≡ true
unfolding runs
due_task_is_executed_example =
    due_task_is_executed test_host test_host-TokenLaws {start = deployed} {env = in_grace} 1000 11 8
      weekly in_grace.world refl in_grace-Reach refl in_grace-Supplied refl refl

Executed-execute_drip_split_example :
    execute_drip_split test_host 1000 10 in_window ≡ ok tt executed
unfolding runs
Executed-execute_drip_split_example =
    Executed-execute_drip_split test_host 1000 10 in_window executed refl
      (execute_drip_split-Executed test_host 1000 10 in_window executed {u = tt} refl)

-- Two registered stakes of 10 XLM, and one slash.
abbrev penalised : Env Balances
penalised = after (execute_drip_split test_host 1000 11 in_grace)

whole_life : Reach test_host deployed penalised
unfolding runs
whole_life =
    next
      (next {t = in_grace}
        (next
          (next
            (next (next here (initialises 7 8 (pos 10_000_000) tt (omega arith) refl))
              (registers 10 rich tt (omega arith) refl))
            (registers 11 rich tt (omega arith) refl))
          (provisions 20 100 (pos 5_000_000) 10 1000 (omega arith) refl))
        (elsewhere refl (omega arith)))
      (executes 1000 11 tt refl)

books_balance_example : IsBalanced penalised.storage 200_000_000 2_500_000
unfolding runs whole_life
books_balance_example =
    books_balance test_host {start = deployed} {env = penalised} whole_life refl (omega arith)

invoke-signer_example : in_window.authorized 10 ≡ true
unfolding runs invoke
invoke-signer_example =
    invoke-signer test_host (Call.execute_drip_split 1000 10) in_window executed Answer.nothing refl

execute_drip_split-Untouched_example : Untouched 1000 weekly 10 in_window.storage executed.storage
unfolding runs
execute_drip_split-Untouched_example =
    execute_drip_split-Untouched test_host 1000 10 in_window executed tt weekly
      (Reach-IsSound test_host refl in_window-Reach) refl refl

get_task-provision_task_example :
    (t : ExecutionTask) × (get_task 1000 executed ≡ ok t executed)
    × HasTerms 20 100 (pos 5_000_000) 10 1000 t
unfolding runs
get_task-provision_task_example =
    get_task-provision_task test_host test_hash-IsCollisionFree 20 100 (pos 5_000_000) 10 1000
      {start = deployed} {env = two_keepers} {env' = provisioned} {later = executed} refl
      two_keepers-Reach (omega arith) refl
      (next (next {t = in_window} here (elsewhere refl (omega arith))) (executes 1000 10 tt refl))
