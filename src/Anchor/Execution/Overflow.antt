-- ===== src/Anchor/Execution/Overflow.antt =====
-- A task whose first window does not fit a `u32`.
use soroban_cron.Common.{ℕ, ◌+◌, ◌<◌, ◌≤◌, ◌≡◌, ◌≢◌, true, none, some, arith}
use soroban_cron.Common.Int.{ℤ}
use soroban_cron.Common.Word.{u32_mod}
use soroban_cron.Anchor.Types.{Address, TaskId, ExecutionTask}
use soroban_cron.Anchor.Host.{Host}
use soroban_cron.Anchor.Env.{Env, ok}
use soroban_cron.Anchor.Registry.{is_registered}
use soroban_cron.Anchor.Tasks.{provision_task}
use soroban_cron.Anchor.Tasks.Outcome.{new_task, provision_task-inv}
use soroban_cron.Anchor.Execution.Windows.{verdict}

module _ {W : Type 0} (h : Host W) where
  -- With an interval that carries the ledger past 2 ^ 32, a build without overflow checks stores a
  -- window that already lies in the past: at the very ledger of the provisioning every registered
  -- keeper but the designated one is admitted.
  pub overflowing_interval_is_overdue :
      (target : Address) (interval : ℕ) (reward : ℤ) (designated : Address) (env env' : Env W)
      (id : TaskId) (caller : Address)
      → caller ≢ designated
      → is_registered env' caller ≡ true
      → env.ledger_sequence < u32_mod
      → interval < u32_mod
      → u32_mod ≤ env.ledger_sequence + interval
      → provision_task h target interval reward designated env ≡ ok id env'
      → (t : ExecutionTask) × (env'.storage.task id ≡ some t)
        × (t.next_allowed_execution < env'.ledger_sequence)
        × (verdict h t caller env' ≡ none)
  overflowing_interval_is_overdue target interval reward designated env env' id caller other
        registered small short over e =
      let (a, same, f) = provision_task-inv h target interval reward designated env id env' e in
      (new_task h target interval reward designated env, ground arith, ground arith, ground arith)
