-- ===== src/Anchor/System/Changes.antt =====
-- A step of the contract as at most two elementary changes of its storage, so that an invariant is
-- proved once for each kind of change.
use soroban_cron.Common.{ℕ, ◌+◌, ◌≤◌, ◌<◌, ◌≡◌, ◌≢◌, refl, sym, subst, false, none, some, arith}
use soroban_cron.Common.Int.{ℤ, pos, ◌≤ℤ◌, ◌<ℤ◌}
use soroban_cron.Common.Word.{add_u32, u32_mod}
use soroban_cron.Anchor.Types.{Address, TaskId, Keeper, ExecutionTask}
use soroban_cron.Anchor.Host.{Host}
use soroban_cron.Anchor.Env.{Env, Storage, ok, set_keeper, set_task}
use soroban_cron.Anchor.Registry.Outcome.{new_keeper, min_stake, register_keeper-inv}
use soroban_cron.Anchor.Slashing.Outcome.{slashed_storage, slashed_env}
use soroban_cron.Anchor.Tasks.{task_seed}
use soroban_cron.Anchor.Tasks.Outcome.{counter, provision_task-inv, new_task}
use soroban_cron.Anchor.Execution.{credited, advanced}
use soroban_cron.Anchor.Execution.Refinement.{
  Executed, by_designated, by_secondary, after_grace, execute_drip_split-Executed,
}
use soroban_cron.Anchor.Contract.{initialize}
use soroban_cron.Anchor.System.{
  IsModest, Step, elsewhere, initialises, registers, provisions, executes, Reach, here, next,
}

abbrev pub executed_storage : ExecutionTask → Keeper → ℕ → Storage → Storage
executed_storage task k l s =
    set_keeper k.address (credited k l) (set_task task.task_id (advanced task l) s)

abbrev pub counted : Storage → Storage
counted s = record s { task_counter = some (add_u32 (counter s) 1) }

module _ {W : Type 0} (h : Host W) where
  -- What may happen to the storage `s` at ledger `l`.
  pub data Change (l : ℕ) (s s' : Storage) : Type 0 where
    configure :
        (admin token : Address) (minimum : ℤ)
        → s.admin ≡ none
        → pos 1 ≤ℤ minimum
        → s' ≡ record s {
          admin = some admin;
          native_token = some token;
          min_keeper_stake = some minimum;
        }
        → Change l s s'
    enrol :
        (a : Address) (stake : ℤ)
        → s.keeper a ≡ none
        → min_stake s ≤ℤ stake
        → IsModest stake
        → s' ≡ set_keeper a (new_keeper a stake) s
        → Change l s s'
    appoint :
        (task : ExecutionTask) (k : Keeper)
        → counter s + 1 < u32_mod
        → task.task_id ≡ h.sha256 (task_seed (counter s) l)
        → 0 < task.execution_interval_ledgers
        → pos 0 <ℤ task.micro_reward_per_run
        → s.keeper task.designated_keeper ≡ some k
        → k.ineligible ≡ false
        → s' ≡ set_task task.task_id task (counted s)
        → Change l s s'
    penalise :
        (a : Address) (k : Keeper)
        → s.keeper a ≡ some k
        → k.stake_amount ≢ pos 0
        → s' ≡ slashed_storage k s
        → Change l s s'
    complete :
        (id : TaskId) (task : ExecutionTask) (a : Address) (k : Keeper)
        → s.task id ≡ some task
        → task.next_allowed_execution ≤ l
        → s.keeper a ≡ some k
        → s' ≡ executed_storage task k l s
        → Change l s s'

  -- The rule: what every change preserves, every step preserves.
  module _ (P : ℕ → Storage → Type 0)
      (keep : (l : ℕ) (s s' : Storage) → Change l s s' → P l s → P l s')
      (age : (l m : ℕ) (s : Storage) → l ≤ m → P l s → P m s) where
    abbrev At : Env W → Type 0
    At env = P env.ledger_sequence env.storage

    Executed-keeps :
        (id : TaskId) (caller : Address) (env env' : Env W)
        → Executed h id caller env env'
        → At env
        → At env'
    Executed-keeps id caller env env' (by_designated task k w stored now designated d f) p =
        subst At (sym f) (
          keep env.ledger_sequence env.storage _
            (complete id task caller k stored (omega arith) d.found refl) p)
    Executed-keeps id caller env env' (by_secondary task x k w stored late early g f) p =
        let middle = slashed_env task.designated_keeper x env in
        subst At (sym f) (
          keep env.ledger_sequence middle.storage _
            (complete id task caller k stored (omega arith) g.distributed.found refl)
            (keep env.ledger_sequence env.storage _
              (penalise task.designated_keeper x g.found g.staked refl) p))
    Executed-keeps id caller env env' (after_grace task k w stored late registered d f) p =
        subst At (sym f) (
          keep env.ledger_sequence env.storage _
            (complete id task caller k stored (omega arith) d.found refl) p)

    initialize-keeps :
        (admin token : Address) (minimum : ℤ) (env env' : Env W) {u : Unit {0}}
        → pos 1 ≤ℤ minimum
        → initialize admin token minimum env ≡ ok u env'
        → At env
        → At env'
    unfolding initialize
    initialize-keeps admin token minimum env env' positive e p =
        let same : env'.ledger_sequence ≡ env.ledger_sequence = ground arith in
        subst (λ (l : ℕ). P l env'.storage) (sym same)
          (keep env.ledger_sequence env.storage env'.storage
            (configure admin token minimum (ground arith) positive (ground arith)) p)

    pub Step-keeps : {env env' : Env W} → Step h env env' → At env → At env'
    Step-keeps {env} {env'} (elsewhere same later) p =
        subst (P env'.ledger_sequence) (sym same)
          (age env.ledger_sequence env'.ledger_sequence env.storage later p)
    Step-keeps {env} {env'} (initialises admin token minimum u positive e) p =
        initialize-keeps admin token minimum env env' positive e p
    Step-keeps {env} {env'} (registers a stake u modest e) p =
        let (signed, enough, fresh, f) = register_keeper-inv a stake env env' e in
        subst At (sym f)
          (keep env.ledger_sequence env.storage _ (enrol a stake fresh enough modest refl) p)
    Step-keeps {env} {env'} (provisions target interval reward designated id room e) p =
        let (a, same, f) = provision_task-inv h target interval reward designated env id env' e in
        let task = new_task h target interval reward designated env in
        subst At (sym f) (
          keep env.ledger_sequence env.storage _
            (appoint task a.keeper room refl a.interval_pos a.reward_pos a.found a.eligible refl) p)
    Step-keeps {env} {env'} (executes id caller u e) p =
        Executed-keeps id caller env env' (execute_drip_split-Executed h id caller env env' e) p

    pub Reach-keeps : {env env' : Env W} → Reach h env env' → At env → At env'
    Reach-keeps here p = p
    Reach-keeps (next r st) p = Step-keeps st (Reach-keeps r p)
