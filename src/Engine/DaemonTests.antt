-- ===== src/Engine/DaemonTests.antt =====
-- The daemon, alone and beside the contract, at concrete inputs.
use Prim.Native.String.{String}
use text.Mathlib.Text.{◌==◌ as ◌=~◌}
use soroban_cron.Anchor.Types.{Address}
use soroban_cron.Engine.Pipeline.{Network, Action, parse_task_id}
use soroban_cron.Common.{
  ℕ, zero, suc, some, List, if◌then◌else◌, ◌+◌, ◌*◌, ◌≤◌, ◌≡◌, ◌⊎◌, refl, true, [], ◌∷◌, arith,
}
use soroban_cron.Anchor.Samples.{test_host, deployed, weekly}
use soroban_cron.Anchor.History.{
  runs, in_grace, in_grace-Reach, in_grace-Supplied, test_host-TokenLaws,
}
use soroban_cron.Anchor.Env.{is_ok}
use soroban_cron.Anchor.Execution.{execute_drip_split}
use soroban_cron.Engine.Errors.{TransientError, Result}
use soroban_cron.Engine.InFlight.{contains}
use soroban_cron.Engine.Rpc.{RemoteTask}
use soroban_cron.Engine.Poller.{LedgerEvent, start}
use soroban_cron.Engine.Poller
use soroban_cron.Engine.Poller.Progress.{Answers}
use soroban_cron.Engine.Pipeline.{ExecutionRole, dispatch, execute_with_retry}
use soroban_cron.Engine.Pipeline.Timestamp.{Confirmed, execute_with_retry-timestamp}
use soroban_cron.Engine.Discovery.{classify_and_dispatch}
use soroban_cron.Engine.Discovery.OnChain.{Mirrors, dispatched_task_is_executed}
use soroban_cron.Engine.Config.{assemble}
use soroban_cron.Engine.Main.{startup, build_daemon}
use soroban_cron.Engine.Main.Startup.{IsStarted, startup-IsStarted}
use soroban_cron.Engine.Main.Waits.{started_poller_waits, started_dispatch_ends}
use soroban_cron.Engine.Samples.{
  flaky, pipeline, task, fresh, discovery, timed, timed-IsTimed, process, strkey, daemon,
}

abbrev answers : Answers
answers = Result.ok 100 ∷ Result.err TransientError.rpc_timeout ∷ Result.ok 102 ∷ Result.ok 105 ∷ []

-- The contract's task, as keeper 11 sees it; the keeper is GA for the daemon.
abbrev copy : RemoteTask
copy = record task { next_allowed_execution = 1100 }

abbrev zeros : ℕ → List ℕ → List ℕ
zeros zero bytes = bytes
zeros (suc n) bytes = 0 ∷ zeros n bytes

-- Every identifier is that of the contract's task, 1000 in 32 bytes.
abbrev spelling : Network String ℕ
spelling = record flaky { hex_decode = λ text. some (zeros 30 (3 ∷ 232 ∷ [])) }

abbrev address_of : String → Address
address_of text = if text =~ "GB" then 10 else 11

copy-Mirrors : Mirrors spelling address_of discovery copy 1000 weekly 11
unfolding parse_task_id
copy-Mirrors = record {
  identifier = refl;
  window = refl;
  designated = refl;
  own = refl;
  distinct = λ same. absurd (omega arith);
  signs = refl;
  addresses = refl;
}

dispatched_task_is_executed_example :
    ((rest : List Action) × ((classify_and_dispatch spelling discovery copy 1125 (fresh 0)).actions
        ≡ Action.submitted "SIGNED:contract=CA:task=01:keeper=GA:role=Secondary:sig=00" ∷ rest))
    × (is_ok (execute_drip_split test_host 1000 11 in_grace) ≡ true)
unfolding runs parse_task_id contains
dispatched_task_is_executed_example =
    dispatched_task_is_executed spelling discovery address_of test_host test_host-TokenLaws
      {start = deployed} {env = in_grace} 1000 11 8 weekly in_grace.world copy (fresh 0) refl
      copy-Mirrors refl (omega arith) refl in_grace-Reach refl in_grace-Supplied refl refl

execute_with_retry-timestamp_example :
    ((execute_with_retry flaky pipeline task ExecutionRole.designated (fresh 0)).last_confirmed_ts
      ≡ 0)
    ⊎ Confirmed flaky pipeline task ExecutionRole.designated
        (execute_with_retry flaky pipeline task ExecutionRole.designated (fresh 0))
execute_with_retry-timestamp_example =
    execute_with_retry-timestamp flaky pipeline task ExecutionRole.designated (fresh 0)

starts : startup process strkey ≡ Result.ok daemon
unfolding startup
starts = refl

startup-IsStarted_example : IsStarted process strkey daemon
startup-IsStarted_example = startup-IsStarted process strkey daemon starts

started_poller_waits_example :
    (1 ≤ (Poller.run answers daemon.poller).0.backoff)
    × ((Poller.run answers daemon.poller).0.backoff ≤ 60)
started_poller_waits_example =
    started_poller_waits process strkey daemon starts answers (omega arith)

started_dispatch_ends_example :
    (dispatch timed daemon.discovery.pipeline task ExecutionRole.designated (fresh 0)).net
    ≤ 20_000 + daemon.discovery.pipeline.max_retries * 70_000
unfolding build_daemon assemble
started_dispatch_ends_example =
    started_dispatch_ends process strkey daemon starts timed (λ n. n) task ExecutionRole.designated
      (fresh 0) timed-IsTimed
