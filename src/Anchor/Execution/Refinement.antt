-- ===== src/Anchor/Execution/Refinement.antt =====
-- Every call of `execute_drip_split` that returns is one of three kinds of execution, each with its
-- final environment.
use soroban_cron.Common.{
  ◌-◌, ◌+◌, ◌≤◌, ◌<◌, ◌≡◌, true, false, some, inl, inr, [], ◌∷◌, ◌++◌, arith, Option-cases,
  Bool-cases, ltb, leb, ◌==◌,
}
use soroban_cron.Anchor.Types.{Address, TaskId, ExecutionTask, Keeper}
use soroban_cron.Anchor.Host.{Host}
use soroban_cron.Anchor.Env.{Env, Val, ok}
use soroban_cron.Anchor.Registry.{is_registered}
use soroban_cron.Anchor.Execution.{
  execute_drip_split, execute_designated, execute_in_grace, execute_post_grace,
}
use soroban_cron.Anchor.Execution.Outcome.{Distributed, distributed_env, execute_distribution-cases}
use soroban_cron.Anchor.Execution.Regions.{InGrace, grace_env, execute_in_grace-cases}

module _ {W : Type 0} where
  abbrev pub missed_env : TaskId → ExecutionTask → Env W → Env W
  missed_env id task env = record env {
    events =
        env.events
        ++ record {
          topic = "missed";
          values =
              Val.task_id id ∷ Val.u32 (env.ledger_sequence - task.next_allowed_execution) ∷ [];
        }
          ∷ [];
  }

module _ {W : Type 0} (h : Host W) where
  pub data Executed (id : TaskId) (caller : Address) (env env' : Env W) : Type 0 where
    by_designated :
        (task : ExecutionTask) (k : Keeper) (w : W)
        → env.storage.task id ≡ some task
        → env.ledger_sequence ≡ task.next_allowed_execution
        → caller ≡ task.designated_keeper
        → Distributed h task caller env k w
        → env' ≡ distributed_env task caller false k env w
        → Executed id caller env env'
    by_secondary :
        (task : ExecutionTask) (x k : Keeper) (w : W)
        → env.storage.task id ≡ some task
        → task.next_allowed_execution < env.ledger_sequence
        → env.ledger_sequence ≤ task.next_allowed_execution + 50
        → InGrace h task caller env x k w
        → env' ≡ grace_env id task caller x k env w
        → Executed id caller env env'
    after_grace :
        (task : ExecutionTask) (k : Keeper) (w : W)
        → env.storage.task id ≡ some task
        → task.next_allowed_execution + 50 < env.ledger_sequence
        → is_registered env caller ≡ true
        → Distributed h task caller (missed_env id task env) k w
        → env' ≡ distributed_env task caller false k (missed_env id task env) w
        → Executed id caller env env'

  module _ (id : TaskId) (caller : Address) (env env' : Env W) {u : Unit {0}} where
    designated-Executed :
        (task : ExecutionTask)
        → env.storage.task id ≡ some task
        → env.ledger_sequence ≡ task.next_allowed_execution
        → execute_designated h task caller env ≡ ok u env'
        → Executed id caller env env'
    unfolding execute_designated
    designated-Executed task found now e = elim (Bool-cases (caller == task.designated_keeper)) [
      | inr other ↦ ground arith
      | inl designated ↦ elim (execute_distribution-cases h task caller false env) [
        | inr refused ↦ ground arith
        | inl (k, w, d, f) ↦ by_designated task k w found now (ground arith) d (ground arith)
      ]
    ]

    grace-Executed :
        (task : ExecutionTask)
        → env.storage.task id ≡ some task
        → task.next_allowed_execution < env.ledger_sequence
        → env.ledger_sequence ≤ task.next_allowed_execution + 50
        → execute_in_grace h id task caller env.ledger_sequence env ≡ ok u env'
        → Executed id caller env env'
    grace-Executed task found late early e = elim (execute_in_grace-cases h id task caller env) [
      | inr refused ↦ ground arith
      | inl (x, k, w, g, f) ↦ by_secondary task x k w found late early g (ground arith)
    ]

    post_grace-Executed :
        (task : ExecutionTask)
        → env.storage.task id ≡ some task
        → task.next_allowed_execution + 50 < env.ledger_sequence
        → execute_post_grace h id task caller
            (env.ledger_sequence - task.next_allowed_execution)
            env
          ≡ ok u env'
        → Executed id caller env env'
    unfolding execute_post_grace
    post_grace-Executed task found late e = elim (Bool-cases (is_registered env caller)) [
      | inr unregistered ↦ ground arith
      | inl registered ↦
          elim (execute_distribution-cases h task caller false (missed_env id task env)) [
            | inr refused ↦ ground arith
            | inl (k, w, d, f) ↦ after_grace task k w found late registered d (ground arith)
          ]
    ]

    -- A call of `execute_drip_split` that returns was made in a region and by a caller that the
    -- region admits, and has done exactly that region's work.
    pub execute_drip_split-Executed :
        execute_drip_split h id caller env ≡ ok u env' → Executed id caller env env'
    unfolding execute_drip_split
    execute_drip_split-Executed e = elim (Option-cases (env.storage.task id)) [
      | inl missing ↦ ground arith
      | inr (task, found) ↦ elim (Bool-cases (env.authorized caller)) [
        | inr unsigned ↦ ground arith
        | inl signed ↦ elim (Bool-cases (ltb env.ledger_sequence task.next_allowed_execution)) [
          | inl early ↦ ground arith
          | inr due ↦ elim (Bool-cases (env.ledger_sequence - task.next_allowed_execution == 0)) [
            | inl now ↦ designated-Executed task found (ground arith) (ground arith)
            | inr late ↦
                elim (Bool-cases (leb (env.ledger_sequence - task.next_allowed_execution) 50)) [
                  | inl grace ↦
                      grace-Executed task found (ground arith) (ground arith) (ground arith)
                  | inr over ↦ post_grace-Executed task found (ground arith) (ground arith)
                ]
          ]
        ]
      ]
    ]
