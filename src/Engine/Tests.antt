-- ===== src/Engine/Tests.antt =====
-- Runs of the daemon's parts at concrete inputs.
use soroban_cron.Common.{ℕ, update, ◌^◌, ◌+◌, ◌<◌, ◌≤◌, ◌≡◌, refl, List, [], ◌∷◌, arith}
use soroban_cron.Engine.Errors.{TransientError, Result}
use soroban_cron.Engine.InFlight.{insert, contains}
use soroban_cron.Engine.InFlight.Workers.{
  System, Reach, Step, IsExclusive, Reach-IsExclusive, Worker,
}
use soroban_cron.Engine.Poller.{start, run}
use soroban_cron.Engine.Poller.Progress.{IsCaughtUp, run-IsCaughtUp, run-backoff}
use soroban_cron.Engine.Pipeline.{
  ExecutionRole, parse_task_id, build_signed_transaction, query, wait_for_confirmation, submit,
  execute_with_retry, dispatch,
}
use soroban_cron.Engine.Pipeline.Confirmation.{wait_for_confirmation_asks_once}
use soroban_cron.Engine.Pipeline.Retries.{
  submissions, unlucky, execute_with_retry_submits, execute_with_retry_backs_off,
}
use soroban_cron.Engine.Pipeline.Dispatch.{dispatch_outcome}
use soroban_cron.Engine.Discovery.{classify_and_dispatch}
use soroban_cron.Engine.Discovery.Windows.{classify_and_dispatch-arbitrate}
use soroban_cron.Engine.Samples.{flaky, down, pipeline, task, fresh, discovery}

execute_with_retry_submits_example :
    (0
      < submissions
          (execute_with_retry flaky pipeline task ExecutionRole.designated (fresh 1)).actions)
    × (submissions
          (execute_with_retry flaky pipeline task ExecutionRole.designated (fresh 1)).actions
        ≤ 0 + 3)
execute_with_retry_submits_example =
    execute_with_retry_submits flaky pipeline task ExecutionRole.designated (fresh 1)

execute_with_retry_backs_off_example :
    (execute_with_retry down pipeline task ExecutionRole.designated (fresh 1)).actions
    ≡ unlucky (build_signed_transaction down pipeline task ExecutionRole.designated) 1 60 2 0
unfolding submit
execute_with_retry_backs_off_example =
    execute_with_retry_backs_off down pipeline task ExecutionRole.designated (fresh 1) (omega arith)
      (λ m. (TransientError.rpc_timeout, refl))

wait_for_confirmation_asks_once_example :
    wait_for_confirmation flaky pipeline "h1" (fresh 0)
    ≡ ((query flaky "h1" (fresh 0)).0, (query flaky "h1" (fresh 0)).2)
unfolding query
wait_for_confirmation_asks_once_example =
    wait_for_confirmation_asks_once flaky pipeline "h1" (fresh 0)

dispatch_outcome_example :
    dispatch flaky pipeline task ExecutionRole.designated (fresh 1)
    ≡ record (execute_with_retry flaky pipeline task ExecutionRole.designated
        (record (fresh 1) { in_flight = 2 ^ 248 ∷ [] })) { in_flight = [] }
unfolding contains parse_task_id
dispatch_outcome_example = dispatch_outcome flaky pipeline task ExecutionRole.designated (fresh 1)

-- Ledger 1010 is in the grace period of a task of another keeper.
classify_and_dispatch-arbitrate_example :
    classify_and_dispatch flaky discovery task 1010 (fresh 0)
    ≡ dispatch flaky pipeline task ExecutionRole.secondary (fresh 0)
classify_and_dispatch-arbitrate_example =
    classify_and_dispatch-arbitrate flaky discovery task 1010 (fresh 0) refl (omega arith)

abbrev two_running : System
two_running = record {
  set = 6 ∷ 5 ∷ [];
  worker = update 1 (Worker.running 6) (update 0 (Worker.running 5) (λ w. Worker.idle));
}

two_running-Reach : Reach two_running
unfolding insert
two_running-Reach =
    Reach.next (Reach.next Reach.here (Step.begins 0 5 (5 ∷ []) refl refl))
      (Step.begins 1 6 (6 ∷ 5 ∷ []) refl refl)

Reach-IsExclusive_example : IsExclusive two_running
Reach-IsExclusive_example = Reach-IsExclusive two_running-Reach

abbrev answers : List (Result ℕ TransientError)
answers =
    Result.ok 100
    ∷ Result.err TransientError.rpc_timeout
    ∷ Result.ok 99
    ∷ Result.ok 102
    ∷ Result.err TransientError.connection_reset
    ∷ Result.err TransientError.rpc_timeout
    ∷ []

run-IsCaughtUp_example : IsCaughtUp 0 answers (run answers (start 1 60))
unfolding start
run-IsCaughtUp_example = run-IsCaughtUp answers (start 1 60)

run-backoff_example : (run answers (start 1 60)).0.backoff ≡ 4
run-backoff_example = run-backoff 1 60 answers (omega arith) (omega arith)
