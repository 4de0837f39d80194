-- ===== src/Anchor/Execution/Payments.antt =====
-- What an execution pays, in terms of the native token's balances.
use soroban_cron.Common.{
  ℕ, ◌+◌, ◌*◌, ◌/◌, ◌<◌, ◌≤◌, ◌≡◌, ◌≢◌, refl, ap, sym, ◌∙◌, true, false, none, some, inl, inr,
  arith, ltb, leb, ◌&&◌, ◌⊎◌, subst,
}
use soroban_cron.Common.Int.{ℤ, pos, ◌+ℤ◌, ◌-ℤ◌, i128_half, +ℤ-zero, -ℤ-zero}
use soroban_cron.Anchor.Types.{Address, TaskId, ExecutionTask, Keeper}
use soroban_cron.Anchor.Host.{Host}
use soroban_cron.Anchor.Env.{Env, Storage, ok}
use soroban_cron.Anchor.Slashing.{slash_of, secondary_of}
use soroban_cron.Anchor.Slashing.Amounts.{slash_of-pos, secondary_of-pos}
use soroban_cron.Anchor.Slashing.Outcome.{slashed_env}
use soroban_cron.Anchor.Execution.{execute_drip_split}
use soroban_cron.Anchor.Execution.Outcome.{Paid, Distributed, distributed_env}
use soroban_cron.Anchor.Execution.Regions.{Bonus, InGrace}
use soroban_cron.Anchor.Execution.Refinement.{
  Executed, missed_env, by_designated, by_secondary, after_grace, execute_drip_split-Executed,
}

-- What is asked of the native token: a transfer that goes through between two accounts lowers the
-- one and raises the other by the amount.
pub record TokenLaws {W : Type 0} (h : Host W) : Type 0 where
  pub debits :
      (token from to : Address) (amount : ℤ) (w w' : W)
      → from ≢ to
      → h.transfer token from to amount w ≡ some w'
      → h.balance token from w' ≡ h.balance token from w -ℤ amount
  pub credits :
      (token from to : Address) (amount : ℤ) (w w' : W)
      → from ≢ to
      → h.transfer token from to amount w ≡ some w'
      → h.balance token to w' ≡ h.balance token to w +ℤ amount

-- What a caller is due beyond the task's reward: in the grace period, half of the slash.
abbrev pub bonus_due : ExecutionTask → Storage → ℕ → ℤ
bonus_due task s ledger = elim (s.keeper task.designated_keeper) [
  | none ↦ pos 0
  | some k ↦
      elim (ltb task.next_allowed_execution ledger
        && leb ledger (task.next_allowed_execution + 50)) [
          | true ↦ secondary_of (slash_of k.stake_amount)
          | false ↦ pos 0
        ]
]

module _ {W : Type 0} (h : Host W) (laws : TokenLaws h) where
  -- A payment out of the contract, on both accounts.
  Paid-balances :
      (caller token : Address) (amount : ℤ) (env : Env W) (w : W)
      → env.current_contract_address ≢ caller
      → env.storage.native_token ≡ some token
      → Paid h caller amount env w
      → (h.balance token caller w ≡ h.balance token caller env.world +ℤ amount)
        × (h.balance token env.current_contract_address w
            ≡ h.balance token env.current_contract_address env.world -ℤ amount)
  Paid-balances caller token amount env w other native p =
      let this = env.current_contract_address in
      let same : p.token ≡ token = ground (arith, p.native) in
      let moved : h.transfer token this caller amount env.world ≡ some w =
        rw (← same) p.transferred in
      (
        laws.credits token this caller amount env.world w other moved,
        laws.debits token this caller amount env.world w other moved,
      )

  -- Both accounts after a call, counted from the world `called` that the drip list left.
  abbrev pub Settles : Address → Address → ℤ → ℤ → Env W → W → W → Type 0
  Settles caller token reward bonus env called after =
      (h.balance token caller after ≡ h.balance token caller called +ℤ reward +ℤ bonus)
      × (h.balance token env.current_contract_address after
          ≡ h.balance token env.current_contract_address called -ℤ reward -ℤ bonus)

  plain_Settles :
      (caller token : Address) (reward : ℤ) (env : Env W) (called w : W)
      → env.current_contract_address ≢ caller
      → env.storage.native_token ≡ some token
      → Paid h caller reward (record env { world = called }) w
      → Settles caller token reward (pos 0) env called w
  plain_Settles caller token reward env called w other native p =
      let (up, down) =
        Paid-balances caller token reward (record env { world = called }) w other native p in
      (up ∙ sym (+ℤ-zero _), down ∙ sym (-ℤ-zero _))

  -- The bonus of a slash of `n` stroops of stake, on top of the reward.
  Bonus-Settles :
      (caller token : Address) (reward z : ℤ) (n : ℕ) (env env2 : Env W) (called w : W)
      → z ≡ pos n
      → n * 5 < i128_half
      → env.current_contract_address ≢ caller
      → env.storage.native_token ≡ some token
      → env2.current_contract_address ≡ env.current_contract_address
      → env2.storage.native_token ≡ some token
      → Settles caller token reward (pos 0) env called env2.world
      → Bonus h caller (secondary_of (slash_of z)) env2 w
      → Settles caller token reward (secondary_of (slash_of z)) env called w
  Bonus-Settles caller token reward z n env env2 called w stake modest other native this native2
        (up, down) (inl (something, p)) =
      let other2 : env2.current_contract_address ≢ caller = rw this other in
      let (up2, down2) =
        Paid-balances caller token (secondary_of (slash_of z)) env2 w other2 native2 p in
      (
        up2 ∙ ap (λ (v : ℤ). v +ℤ secondary_of (slash_of z)) (up ∙ +ℤ-zero _),
        rw this at down2 ∙ ap (λ (v : ℤ). v -ℤ secondary_of (slash_of z)) (down ∙ -ℤ-zero _),
      )
  Bonus-Settles caller token reward z n env env2 called w stake modest other native this native2
        (up, down) (inr (nothing, same)) =
      let none_due : secondary_of (slash_of z) ≡ pos 0 =
        ground (arith, slash_of-pos n modest, secondary_of-pos (n * 5 / 100)) in
      rw (same, none_due) (up, down)

  -- The drip list was called, and from the world that it left the reward and the bonus were paid.
  abbrev pub Rewards : Address → Address → Env W → W → ExecutionTask → Type 0
  Rewards caller token env after t =
      (called : W) × (h.invoke_contract t.target_drip_list "distribute_wave_splits" env.world
        ≡ some called)
      × Settles caller token t.micro_reward_per_run (bonus_due t env.storage env.ledger_sequence)
          env called after

  module _ (caller token : Address) (env : Env W) (t : ExecutionTask) (x : Keeper)
      (other : env.current_contract_address ≢ caller)
      (native : env.storage.native_token ≡ some token)
      (found : env.storage.keeper t.designated_keeper ≡ some x) where
    -- Outside the grace period there is no bonus.
    plain_Rewards :
        (k : Keeper) (w : W) (env1 : Env W)
        → (env.ledger_sequence ≤ t.next_allowed_execution)
          ⊎ (t.next_allowed_execution + 50 < env.ledger_sequence)
        → env1.world ≡ env.world
        → env1.storage ≡ env.storage
        → env1.current_contract_address ≡ env.current_contract_address
        → Distributed h t caller env1 k w
        → Rewards caller token env w t
    plain_Rewards k w env1 outside same_world same_storage same_address d =
        let no_bonus : bonus_due t env.storage env.ledger_sequence ≡ pos 0 = ground arith in
        (
          d.called,
          rw (← same_world) d.invoked,
          rw (no_bonus, ← same_address)
              (plain_Settles caller token t.micro_reward_per_run env1 d.called w
                (rw same_address other) (rw same_storage native) d.paid),
        )

    grace_Rewards :
        (k : Keeper) (w : W) (n : ℕ)
        → t.next_allowed_execution < env.ledger_sequence
        → env.ledger_sequence ≤ t.next_allowed_execution + 50
        → x.stake_amount ≡ pos n
        → n * 5 < i128_half
        → InGrace h t caller env x k w
        → Rewards caller token env w t
    grace_Rewards k w n late early stake modest g =
        let env1 = slashed_env t.designated_keeper x env in
        let d = g.distributed in
        let due : bonus_due t env.storage env.ledger_sequence
            ≡ secondary_of (slash_of x.stake_amount) =
          ground arith in
        (
          d.called,
          d.invoked,
          rw due (
              Bonus-Settles caller token t.micro_reward_per_run x.stake_amount n env
                (distributed_env t caller true k env1 g.middle) d.called w stake modest other native
                refl native
                (plain_Settles caller token t.micro_reward_per_run env1 d.called g.middle other
                  native d.paid)
                g.bonus),
        )

  -- For a token that keeps `TokenLaws`, configured, and a caller other than the contract: a call of
  -- `execute_drip_split` that returns has called the drip list and then moved the task's reward and
  -- the bonus due, and nothing else, from the contract's account to the caller's. The designated
  -- keeper's stake is some n with room for n * 5 in an `i128`.
  pub execute_drip_split_pays :
      (id : TaskId) (caller token : Address) (env env' : Env W) (u : Unit {0}) (t : ExecutionTask)
      (k : Keeper) (n : ℕ)
      → env.current_contract_address ≢ caller
      → env.storage.native_token ≡ some token
      → env.storage.task id ≡ some t
      → env.storage.keeper t.designated_keeper ≡ some k
      → k.stake_amount ≡ pos n
      → n * 5 < i128_half
      → execute_drip_split h id caller env ≡ ok u env'
      → Rewards caller token env env'.world t
  execute_drip_split_pays id caller token env env' u t k n other native stored found stake modest
        e =
      go (execute_drip_split-Executed h id caller env env' e)
    where
      go : Executed h id caller env env' → Rewards caller token env env'.world t
      go (by_designated t' k' w stored' now designated d f) =
          let same : t ≡ t' = ground arith in
          let after : env'.world ≡ w = ground arith in
          let found' = rw same at found in
          subst (Rewards caller token env env'.world) (sym same) (
            rw after (
              plain_Rewards caller token env t' k other native found' k' w env (inl (omega arith))
                refl refl refl d))
      go (by_secondary t' x k' w stored' late early g f) =
          let same : t ≡ t' = ground arith in
          let after : env'.world ≡ w = ground arith in
          let found' = rw same at found in
          let stake' : x.stake_amount ≡ pos n = ground (arith, g.found, found') in
          subst (Rewards caller token env env'.world) (sym same) (
            rw after (
              grace_Rewards caller token env t' x other native g.found k' w n late early stake'
                modest g))
      go (after_grace t' k' w stored' late registered d f) =
          let same : t ≡ t' = ground arith in
          let after : env'.world ≡ w = ground arith in
          let found' = rw same at found in
          subst (Rewards caller token env env'.world) (sym same) (
            rw after (
              plain_Rewards caller token env t' k other native found' k' w (missed_env id t' env)
                (inr late) refl refl refl d))
