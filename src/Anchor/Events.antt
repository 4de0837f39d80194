-- ===== src/Anchor/Events.antt =====
-- the-anchor/src/events.rs: each function publishes one event under its short symbol.
use soroban_cron.Common.{ℕ, [], ◌∷◌}
use soroban_cron.Common.Int.{ℤ}
use soroban_cron.Anchor.Types.{Address, TaskId}
use soroban_cron.Anchor.Env.{Contract, Val, publish}

module _ {W : Type 0} where
  unfoldable pub emit_keeper_registered : Address → ℤ → Contract W (Unit {0})
  emit_keeper_registered keeper stake_amount =
      publish "kpr_reg" (Val.address keeper ∷ Val.amount stake_amount ∷ [])

  unfoldable pub emit_slash_applied : Address → ℤ → ℤ → Contract W (Unit {0})
  emit_slash_applied keeper amount_slashed new_stake =
      publish "slashed" (Val.address keeper ∷ Val.amount amount_slashed ∷ Val.amount new_stake ∷ [])

  unfoldable pub emit_zero_slash : Address → Contract W (Unit {0})
  emit_zero_slash keeper = publish "zero_slsh" (Val.address keeper ∷ [])

  unfoldable pub emit_task_provisioned : TaskId → Address → ℕ → ℤ → Address → Contract W (Unit {0})
  emit_task_provisioned id target interval reward designated = publish "task_prov" (
      Val.task_id id
      ∷ Val.address target
      ∷ Val.u32 interval
      ∷ Val.amount reward
      ∷ Val.address designated
      ∷ [])

  unfoldable pub emit_task_executed : TaskId → Address → ℕ → ℤ → Contract W (Unit {0})
  emit_task_executed id keeper ledger reward =
      publish "task_exec"
        (Val.task_id id ∷ Val.address keeper ∷ Val.u32 ledger ∷ Val.amount reward ∷ [])

  unfoldable pub emit_task_executed_by_secondary :
      TaskId → Address → Address → ℕ → ℤ → ℤ → ℤ → Contract W (Unit {0})
  emit_task_executed_by_secondary id secondary designated ledger slash secondary_reward reward =
      publish "task_sec" (
        Val.task_id id
        ∷ Val.address secondary
        ∷ Val.address designated
        ∷ Val.u32 ledger
        ∷ Val.amount slash
        ∷ Val.amount secondary_reward
        ∷ Val.amount reward
        ∷ [])

  unfoldable pub emit_missed_execution : TaskId → ℕ → Contract W (Unit {0})
  emit_missed_execution id ledgers_elapsed =
      publish "missed" (Val.task_id id ∷ Val.u32 ledgers_elapsed ∷ [])
