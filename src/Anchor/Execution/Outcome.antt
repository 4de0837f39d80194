-- ===== src/Anchor/Execution/Outcome.antt =====
-- What an execution path that returns has done to the chain, as an explicit final environment.
use soroban_cron.Common.{
  ◌≡◌, ◌⊎◌, Bool, false, some, inl, inr, List, [], ◌∷◌, ◌++◌, arith, Option-cases, Bool-cases,
  if◌then◌else◌,
}
use soroban_cron.Common.Int.{ℤ, ◌≤ℤ◌, ltb_ℤ}
use soroban_cron.Anchor.Types.{Address, ExecutionTask, Keeper}
use soroban_cron.Anchor.Host.{Host}
use soroban_cron.Anchor.Env.{Env, Storage, Event, Val, ok, is_ok, set_keeper, set_task}
use soroban_cron.Anchor.Execution.{credited, advanced, pay, execute_distribution}

module _ {W : Type 0} where
  abbrev pub executed_events : ExecutionTask → Address → Bool → Env W → List Event
  executed_events task caller is_secondary env =
      if is_secondary
      then env.events
      else env.events
        ++ record {
          topic = "task_exec";
          values =
              Val.task_id task.task_id
              ∷ Val.address caller
              ∷ Val.u32 env.ledger_sequence
              ∷ Val.amount task.micro_reward_per_run
              ∷ [];
        }
          ∷ []

  abbrev pub distributed_storage : ExecutionTask → Keeper → Env W → Storage
  distributed_storage task k env =
      set_keeper k.address (credited k env.ledger_sequence)
        (set_task task.task_id (advanced task env.ledger_sequence) env.storage)

  abbrev pub distributed_env : ExecutionTask → Address → Bool → Keeper → Env W → W → Env W
  distributed_env task caller is_secondary k env w = record env {
    storage = distributed_storage task k env;
    events = executed_events task caller is_secondary env;
    world = w;
  }

module _ {W : Type 0} (h : Host W) where
  -- The amount was covered, and the transfer led to the world `after`.
  pub record Paid (recipient : Address) (amount : ℤ) (env : Env W) (after : W) : Type 0 where
    pub token : Address
    pub native : env.storage.native_token ≡ some token
    pub covered : amount ≤ℤ h.balance token env.current_contract_address env.world
    pub transferred :
        h.transfer token env.current_contract_address recipient amount env.world ≡ some after

  -- A payment returns after a transfer, and has changed nothing but the world; or it does not
  -- return.
  pub pay-cases :
      (recipient : Address) (amount : ℤ) (env : Env W)
      → ((w : W) × Paid recipient amount env w
          × (pay h recipient amount env ≡ ok tt (record env { world = w })))
        ⊎ (is_ok (pay h recipient amount env) ≡ false)
  unfolding pay
  pay-cases recipient amount env = elim (Option-cases env.storage.native_token) [
    | inl missing ↦ inr (ground arith)
    | inr (token, native) ↦
        elim (Option-cases
          (h.transfer token env.current_contract_address recipient amount env.world)) [
            | inl refused ↦ inr (ground arith)
            | inr (w, transferred) ↦
                elim (Bool-cases
                  (ltb_ℤ (h.balance token env.current_contract_address env.world) amount)) [
                    | inl short ↦ inr (ground arith)
                    | inr covered ↦ inl (
                      w,
                      record {
                        token = token;
                        native = native;
                        covered = ground arith;
                        transferred = transferred;
                      },
                      ground arith,
                    )
                  ]
          ]
  ]

  -- The drip list was called, then the reward paid, which led to the world `after`.
  pub record Distributed (task : ExecutionTask) (caller : Address) (env : Env W) (k : Keeper)
      (after : W) : Type 0 where
    pub called : W
    pub invoked :
        h.invoke_contract task.target_drip_list "distribute_wave_splits" env.world ≡ some called
    pub paid : Paid caller task.micro_reward_per_run (record env { world = called }) after
    pub found : env.storage.keeper caller ≡ some k

  -- The shared path returns after these steps, in the environment shown; or it does not return.
  pub execute_distribution-cases :
      (task : ExecutionTask) (caller : Address) (is_secondary : Bool) (env : Env W)
      → ((k : Keeper) × (w : W) × Distributed task caller env k w
          × (execute_distribution h task caller is_secondary env
              ≡ ok tt (distributed_env task caller is_secondary k env w)))
        ⊎ (is_ok (execute_distribution h task caller is_secondary env) ≡ false)
  unfolding execute_distribution credited advanced
  execute_distribution-cases task caller is_secondary env =
      elim (Option-cases
        (h.invoke_contract task.target_drip_list "distribute_wave_splits" env.world)) [
          | inl refused ↦ inr (ground arith)
          | inr (v, invoked) ↦
              elim (pay-cases caller task.micro_reward_per_run (record env { world = v })) [
                | inr unpaid ↦ inr (ground arith)
                | inl (w, paid, e) ↦ elim (Option-cases (env.storage.keeper caller)) [
                  | inl missing ↦ inr (ground arith)
                  | inr (k, found) ↦ inl (
                    k,
                    w,
                    record { called = v; invoked = invoked; paid = paid; found = found },
                    ground arith,
                  )
                ]
              ]
        ]
