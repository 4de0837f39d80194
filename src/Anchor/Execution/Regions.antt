-- ===== src/Anchor/Execution/Regions.antt =====
-- Each region of `execute_drip_split` that returns, with its explicit final environment.
use soroban_cron.Common.{
  ℕ, ◌≡◌, ◌≢◌, ◌⊎◌, true, false, some, inl, inr, [], ◌∷◌, ◌++◌, arith, Bool-cases, ◌==◌, refl,
}
use soroban_cron.Common.Int.{ℤ, pos, ltb_ℤ}
use soroban_cron.Anchor.Types.{Address, TaskId, ExecutionTask, Keeper}
use soroban_cron.Anchor.Host.{Host}
use soroban_cron.Anchor.Env.{Env, Event, Val, ok, is_ok}
use soroban_cron.Anchor.Registry.{is_registered}
use soroban_cron.Anchor.Slashing.{slash_of, secondary_of}
use soroban_cron.Anchor.Slashing.Outcome.{slashed_env, apply_slash-cases}
use soroban_cron.Anchor.Execution.{execute_in_grace}
use soroban_cron.Anchor.Execution.Outcome.{
  Paid, pay-cases, Distributed, distributed_env, execute_distribution-cases,
}

abbrev pub secondary_event : TaskId → ExecutionTask → Address → ℕ → ℤ → Event
secondary_event id task caller ledger slash = record {
  topic = "task_sec";
  values =
      Val.task_id id
      ∷ Val.address caller
      ∷ Val.address task.designated_keeper
      ∷ Val.u32 ledger
      ∷ Val.amount slash
      ∷ Val.amount (secondary_of slash)
      ∷ Val.amount task.micro_reward_per_run
      ∷ [];
}

module _ {W : Type 0} where
  -- After the shared path in the grace period: the bonus, if there is one, and the event.
  abbrev pub grace_env : TaskId → ExecutionTask → Address → Keeper → Keeper → Env W → W → Env W
  grace_env id task caller slashed_keeper k env w =
      let slash = slash_of slashed_keeper.stake_amount in
      let env1 = slashed_env task.designated_keeper slashed_keeper env in
      record (distributed_env task caller true k env1 w) {
        events = env1.events ++ secondary_event id task caller env.ledger_sequence slash ∷ [];
      }

module _ {W : Type 0} (h : Host W) where
  -- The bonus leads from the world `v` to `w`.
  abbrev pub Bonus : Address → ℤ → Env W → W → Type 0
  Bonus caller bonus env w =
      ((ltb_ℤ (pos 0) bonus ≡ true) × Paid h caller bonus env w)
      ⊎ ((ltb_ℤ (pos 0) bonus ≡ false) × (w ≡ env.world))

  -- `slashed_keeper` is the designated keeper before the slash, `k` the caller after it.
  pub record InGrace (task : ExecutionTask) (caller : Address) (env : Env W)
      (slashed_keeper k : Keeper) (after : W) : Type 0 where
    pub other : caller ≢ task.designated_keeper
    pub registered : is_registered env caller ≡ true
    pub found : env.storage.keeper task.designated_keeper ≡ some slashed_keeper
    pub staked : slashed_keeper.stake_amount ≢ pos 0
    pub middle : W
    pub distributed :
        Distributed h task caller (slashed_env task.designated_keeper slashed_keeper env) k middle
    pub bonus :
        Bonus caller
          (secondary_of (slash_of slashed_keeper.stake_amount))
          (distributed_env task caller true k
            (slashed_env task.designated_keeper slashed_keeper env)
            middle)
          after

  pub execute_in_grace-cases :
      (id : TaskId) (task : ExecutionTask) (caller : Address) (env : Env W)
      → ((x : Keeper) × (k : Keeper) × (w : W) × InGrace task caller env x k w
          × (execute_in_grace h id task caller env.ledger_sequence env
              ≡ ok tt (grace_env id task caller x k env w)))
        ⊎ (is_ok (execute_in_grace h id task caller env.ledger_sequence env) ≡ false)
  unfolding execute_in_grace
  execute_in_grace-cases id task caller env = elim (Bool-cases (caller == task.designated_keeper)) [
    | inl designated ↦ inr (ground arith)
    | inr other ↦ elim (Bool-cases (is_registered env caller)) [
      | inr unregistered ↦ inr (ground arith)
      | inl registered ↦ elim (apply_slash-cases task.designated_keeper env) [
        | inr refused ↦ inr (ground arith)
        | inl (x, found, staked, slashing) ↦
            let env1 = slashed_env task.designated_keeper x env in
            elim (execute_distribution-cases h task caller true env1) [
              | inr refused ↦ inr (ground arith)
              | inl (k, v, distributed, e) ↦
                  let env2 = distributed_env task caller true k env1 v in
                  let bonus = secondary_of (slash_of x.stake_amount) in
                  elim (Bool-cases (ltb_ℤ (pos 0) bonus)) [
                    | inr nothing ↦ inl (
                      x,
                      k,
                      v,
                      record {
                        other = ground arith;
                        registered = registered;
                        found = found;
                        staked = staked;
                        middle = v;
                        distributed = distributed;
                        bonus = inr (nothing, refl);
                      },
                      ground arith,
                    )
                    | inl something ↦ elim (pay-cases h caller bonus env2) [
                      | inr unpaid ↦ inr (ground arith)
                      | inl (w, paid, p) ↦ inl (
                        x,
                        k,
                        w,
                        record {
                          other = ground arith;
                          registered = registered;
                          found = found;
                          staked = staked;
                          middle = v;
                          distributed = distributed;
                          bonus = inl (something, paid);
                        },
                        ground arith,
                      )
                    ]
                  ]
            ]
      ]
    ]
  ]
