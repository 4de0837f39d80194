-- ===== src/Anchor/System/Liveness.antt =====
-- A due task can be executed: under what conditions a call returns.
use soroban_cron.Common.{
  ◌≡◌, ◌≢◌, refl, ap, ◌+◌, ◌<◌, ◌≤◌, true, none, some, inl, inr, arith, ◌==◌, leb, Bool-cases,
  Option-cases,
}
use soroban_cron.Common.Int.{ℤ, pos, ◌≤ℤ◌, ltb_ℤ}
use soroban_cron.Anchor.Types.{Address, TaskId, ExecutionTask, Keeper}
use soroban_cron.Anchor.Host.{Host}
use soroban_cron.Anchor.Env.{Env, is_ok}
use soroban_cron.Anchor.Registry.{is_registered}
use soroban_cron.Anchor.Slashing.{slash_of, secondary_of}
use soroban_cron.Anchor.Slashing.Outcome.{slashed_env}
use soroban_cron.Anchor.Execution.{execute_drip_split}
use soroban_cron.Anchor.Execution.Outcome.{Distributed, distributed_env}
use soroban_cron.Anchor.Execution.Regions.{Bonus}
use soroban_cron.Anchor.Execution.Refinement.{
  Executed, missed_env, by_designated, by_secondary, after_grace,
}
use soroban_cron.Anchor.Execution.Windows.{verdict}
use soroban_cron.Anchor.Execution.Payments.{TokenLaws, bonus_due}
use soroban_cron.Anchor.Execution.Completeness.{Executed-execute_drip_split}
use soroban_cron.Anchor.System.Funding.{Supplied, bonus_sign, covers_both}
use soroban_cron.Anchor.System.{empty_storage, Reach}
use soroban_cron.Anchor.System.Soundness.{IsSound, Reach-IsSound}

module _ {W : Type 0} (h : Host W) (laws : TokenLaws h) (id : TaskId) (caller token : Address)
    (env : Env W) (task : ExecutionTask) (called : W) (sound : IsSound env.storage)
    (stored : env.storage.task id ≡ some task)
    (supplied : Supplied h env task token caller called) where
  abbrev this : Address
  this = env.current_contract_address

  abbrev reward : ℤ
  reward = task.micro_reward_per_run

  -- The shared path, from an environment that differs from the call's in keepers and events only.
  reward_paid :
      reward ≤ℤ h.balance token this called
      → (w : W) × (h.transfer token this caller reward called ≡ some w)
  reward_paid =
      supplied.transfers reward called (inl refl)
        (omega (arith, (sound.tasks id task stored).rewarded))

  distribution :
      (k : Keeper) (env1 : Env W) (w : W)
      → env1.world ≡ env.world
      → env1.storage.native_token ≡ some token
      → env1.current_contract_address ≡ this
      → env1.storage.keeper caller ≡ some k
      → reward ≤ℤ h.balance token this called
      → h.transfer token this caller reward called ≡ some w
      → Distributed h task caller env1 k w
  distribution k env1 w same native here found covered moved = record {
    called = called;
    invoked = rw same supplied.invoked;
    paid = record {
      token = token;
      native = native;
      covered = rw here covered;
      transferred = rw here moved;
    };
    found = found;
  }

  is_registered-some :
      (k : Keeper) → env.storage.keeper caller ≡ some k → is_registered env caller ≡ true
  unfolding is_registered
  is_registered-some k found = ground arith

  in_designated_window :
      (k : Keeper)
      → env.storage.keeper caller ≡ some k
      → env.ledger_sequence ≡ task.next_allowed_execution
      → caller ≡ task.designated_keeper
      → (env' : Env W) × Executed h id caller env env'
  in_designated_window k found now own =
      let due : bonus_due task env.storage env.ledger_sequence ≡ pos 0 = ground arith in
      let covered = (covers_both _ reward (pos 0) (omega arith) (rw due at supplied.funds)).0 in
      let (w, moved) = reward_paid covered in
      (
        _,
        by_designated task k w stored now own
            (distribution k env w refl supplied.native refl found covered moved) refl,
      )

  after_the_grace_period :
      (k : Keeper)
      → env.storage.keeper caller ≡ some k
      → task.next_allowed_execution + 50 < env.ledger_sequence
      → (env' : Env W) × Executed h id caller env env'
  after_the_grace_period k found late =
      let due : bonus_due task env.storage env.ledger_sequence ≡ pos 0 = ground arith in
      let covered = (covers_both _ reward (pos 0) (omega arith) (rw due at supplied.funds)).0 in
      let (w, moved) = reward_paid covered in
      (
        _,
        after_grace task k w stored late (is_registered-some k found)
            (distribution k (missed_env id task env) w refl supplied.native refl found covered
              moved)
            refl,
      )

  -- A bonus that the rest of the balance covers is paid, or there is none.
  pays-Bonus :
      (bonus : ℤ) (env1 : Env W) (v : W)
      → env1.storage.native_token ≡ some token
      → env1.current_contract_address ≡ this
      → env1.world ≡ v
      → h.transfer token this caller reward called ≡ some v
      → pos 0 ≤ℤ bonus
      → bonus ≤ℤ h.balance token this v
      → (w : W) × Bonus h caller bonus env1 w
  pays-Bonus bonus env1 v native here now moved sign covered =
      let (w, gone) = supplied.transfers bonus v (inr moved) sign covered in
      elim (Bool-cases (ltb_ℤ (pos 0) bonus)) [
        | inr nothing ↦ (env1.world, inr (nothing, refl))
        | inl something ↦ (
          w,
          inl (
            something,
            record {
              token = token;
              native = native;
              covered = rw (here, now) covered;
              transferred = rw (here, now) gone;
            },
          ),
        )
      ]

  in_grace_period :
      (x k : Keeper)
      → env.storage.keeper task.designated_keeper ≡ some x
      → env.storage.keeper caller ≡ some k
      → caller ≢ task.designated_keeper
      → task.next_allowed_execution < env.ledger_sequence
      → env.ledger_sequence ≤ task.next_allowed_execution + 50
      → (env' : Env W) × Executed h id caller env env'
  in_grace_period x k designated found other late early =
      let bonus = secondary_of (slash_of x.stake_amount) in
      let good = sound.keepers task.designated_keeper x designated in
      let sign = bonus_sign x.stake_amount good.staked good.modest in
      let due : bonus_due task env.storage env.ledger_sequence ≡ bonus = ground arith in
      let (covered, rest) = covers_both _ reward bonus sign (rw due at supplied.funds) in
      let (v, moved) = reward_paid covered in
      let left = laws.debits token this caller reward called v supplied.other moved in
      let env1 = slashed_env task.designated_keeper x env in
      let share =
        distribution k env1 v refl supplied.native refl (ground (arith, good.own_key)) covered
          moved in
      let (w, paid) =
        pays-Bonus bonus (distributed_env task caller true k env1 v) v supplied.native refl refl
          moved sign (rw left rest) in
      (
        _,
        by_secondary task x k w stored late early
            (record {
              other = other;
              registered = is_registered-some k found;
              found = designated;
              staked = λ z. ground (arith, good.staked);
              middle = v;
              distributed = share;
              bonus = paid;
            })
            refl,
      )

  admitted-Executed :
      verdict h task caller env ≡ none → (env' : Env W) × Executed h id caller env env'
  unfolding is_registered
  admitted-Executed admitted =
      let next = task.next_allowed_execution in
      let known = (sound.tasks id task stored).known in
      elim (Option-cases (env.storage.keeper task.designated_keeper)) [
        | inl missing ↦ absurd (known missing)
        | inr (x, designated) ↦ elim (Bool-cases (env.ledger_sequence == next)) [
          | inl now ↦ in_designated_window x (ground arith) (ground arith) (ground arith)
          | inr away ↦ elim (Option-cases (env.storage.keeper caller)) [
            | inl missing ↦ ground arith
            | inr (k, found) ↦ elim (Bool-cases (leb env.ledger_sequence (next + 50))) [
              | inl early ↦
                  in_grace_period x k designated found (ground arith) (ground arith) (ground arith)
              | inr late ↦ after_the_grace_period k found (ground arith)
            ]
          ]
        ]
      ]

module _ {W : Type 0} (h : Host W) (laws : TokenLaws h) where
  -- In every state that a new contract can reach by steps of `Step`, a caller that the window table
  -- admits and that has signed executes the task: the call returns, if the contract is `Supplied`
  -- and the token keeps `TokenLaws`. In the grace period the table admits a registered caller
  -- whenever it registered.
  pub due_task_is_executed :
      {start env : Env W} (id : TaskId) (caller token : Address) (task : ExecutionTask) (called : W)
      → start.storage ≡ empty_storage
      → Reach h start env
      → env.storage.task id ≡ some task
      → Supplied h env task token caller called
      → env.authorized caller ≡ true
      → verdict h task caller env ≡ none
      → is_ok (execute_drip_split h id caller env) ≡ true
  due_task_is_executed {env} id caller token task called new r stored supplied signed admitted =
      let (env', x) =
        admitted-Executed h laws id caller token env task called (Reach-IsSound h new r) stored
          supplied admitted in
      ap is_ok (Executed-execute_drip_split h id caller env env' signed x)
