-- ===== src/Anchor/Execution/Completeness.antt =====
-- Every kind of execution that `Executed` describes does happen: the calls are neither refused nor
-- trapped.
use soroban_cron.Common.{Bool, ◌≡◌, true, false, inl, inr, arith}
use soroban_cron.Common.Int.{ℤ}
use soroban_cron.Anchor.Types.{Address, TaskId, ExecutionTask, Keeper}
use soroban_cron.Anchor.Host.{Host}
use soroban_cron.Anchor.Env.{Env, ok}
use soroban_cron.Anchor.Slashing.{slash_of, secondary_of}
use soroban_cron.Anchor.Slashing.Outcome.{slashed_env, apply_slash-ok}
use soroban_cron.Anchor.Execution.{
  credited, advanced, pay, execute_distribution, execute_designated, execute_in_grace,
  execute_post_grace, execute_drip_split,
}
use soroban_cron.Anchor.Execution.Outcome.{Paid, Distributed, distributed_env}
use soroban_cron.Anchor.Execution.Regions.{InGrace, grace_env}
use soroban_cron.Anchor.Execution.Refinement.{
  Executed, missed_env, by_designated, by_secondary, after_grace,
}

module _ {W : Type 0} (h : Host W) where
  Paid-pay :
      (recipient : Address) (amount : ℤ) (env : Env W) (w : W)
      → Paid h recipient amount env w
      → pay h recipient amount env ≡ ok tt (record env { world = w })
  unfolding pay
  Paid-pay recipient amount env w p = ground (arith, p.native, p.covered, p.transferred)

  Distributed-execute_distribution :
      (task : ExecutionTask) (caller : Address) (is_secondary : Bool) (env : Env W) (k : Keeper)
      (w : W)
      → Distributed h task caller env k w
      → execute_distribution h task caller is_secondary env
        ≡ ok tt (distributed_env task caller is_secondary k env w)
  unfolding execute_distribution credited advanced
  Distributed-execute_distribution task caller is_secondary env k w d = ground (
    arith,
    d.invoked,
    d.found,
    Paid-pay caller task.micro_reward_per_run (record env { world = d.called }) w d.paid,
  )

  InGrace-execute_in_grace :
      (id : TaskId) (task : ExecutionTask) (caller : Address) (env : Env W) (x k : Keeper) (w : W)
      → InGrace h task caller env x k w
      → execute_in_grace h id task caller env.ledger_sequence env
        ≡ ok tt (grace_env id task caller x k env w)
  unfolding execute_in_grace
  InGrace-execute_in_grace id task caller env x k w g =
      let env1 = slashed_env task.designated_keeper x env in
      let env2 = distributed_env task caller true k env1 g.middle in
      let bonus = secondary_of (slash_of x.stake_amount) in
      let slash = apply_slash-ok task.designated_keeper env x g.found g.staked in
      let share = Distributed-execute_distribution task caller true env1 k g.middle g.distributed in
      elim g.bonus [
        | inl (something, paid) ↦
            ground (arith, g.other, g.registered, slash, share, Paid-pay caller bonus env2 w paid)
        | inr (nothing, same) ↦ ground (arith, g.other, g.registered, slash, share)
      ]

  -- Every execution that `Executed` describes, by a caller that has signed, is what a call of
  -- `execute_drip_split` does: it returns, and leaves just that environment. A secondary keeper has to
  -- be registered at the call, whenever it registered.
  pub Executed-execute_drip_split :
      (id : TaskId) (caller : Address) (env env' : Env W)
      → env.authorized caller ≡ true
      → Executed h id caller env env'
      → execute_drip_split h id caller env ≡ ok tt env'
  unfolding execute_drip_split execute_designated execute_post_grace
  Executed-execute_drip_split id caller env env' signed (by_designated t k w found now own d f) =
      ground (arith, Distributed-execute_distribution t caller false env k w d)
  Executed-execute_drip_split id caller env env' signed
        (by_secondary t x k w found late early g f) =
      ground (arith, InGrace-execute_in_grace id t caller env x k w g)
  Executed-execute_drip_split id caller env env' signed
        (after_grace t k w found late registered d f) =
      ground (arith, Distributed-execute_distribution t caller false (missed_env id t env) k w d)
