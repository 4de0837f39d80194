-- ===== src/Anchor/Tasks/Outcome.antt =====
-- What a call of `provision_task` that returns has checked and stored.
use mathlib.Core.Option.{get_or}
use soroban_cron.Common.{
  ℕ, ◌<◌, ◌≡◌, true, false, none, some, inl, inr, [], ◌∷◌, ◌++◌, arith, Option-cases, Option,
  if◌then◌else◌, ◌==◌,
}
use soroban_cron.Common.Int.{ℤ, pos, ◌<ℤ◌, leb_ℤ}
use soroban_cron.Common.Word.{add_u32}
use soroban_cron.Anchor.Types.{Address, TaskId, Keeper, ExecutionTask}
use soroban_cron.Anchor.Errors.{ContractError}
use soroban_cron.Anchor.Host.{Host}
use soroban_cron.Anchor.Env.{Env, Storage, Val, ok, err, trap, set_task}
use soroban_cron.Anchor.Tasks.{provision_task, task_seed}

abbrev pub counter : Storage → ℕ
counter s = get_or s.task_counter 0

-- Why a task is refused by an administrator's call, in the order of the checks.
abbrev pub provision_error : ℕ → ℤ → Address → Storage → Option ContractError
provision_error interval reward designated s =
    if interval == 0
    then some ContractError.invalid_interval
    else if leb_ℤ reward (pos 0)
    then some ContractError.invalid_reward
    else elim (s.keeper designated) [
      | none ↦ some ContractError.keeper_not_found
      | some k ↦ if k.ineligible then some ContractError.ineligible_keeper else none
    ]

module _ {W : Type 0} (h : Host W) where
  abbrev pub fresh_id : Env W → TaskId
  fresh_id env = h.sha256 (task_seed (counter env.storage) env.ledger_sequence)

  abbrev pub new_task : Address → ℕ → ℤ → Address → Env W → ExecutionTask
  new_task target interval reward designated env = record {
    task_id = fresh_id env;
    target_drip_list = target;
    execution_interval_ledgers = interval;
    next_allowed_execution = add_u32 env.ledger_sequence interval;
    micro_reward_per_run = reward;
    designated_keeper = designated;
  }

  abbrev pub provisioned_env : Address → ℕ → ℤ → Address → Env W → Env W
  provisioned_env target interval reward designated env = record env {
    storage =
        set_task (fresh_id env) (new_task target interval reward designated env)
          (record (env.storage) { task_counter = some (add_u32 (counter env.storage) 1) });
    events =
        env.events
        ++ record {
          topic = "task_prov";
          values =
              Val.task_id (fresh_id env)
              ∷ Val.address target
              ∷ Val.u32 interval
              ∷ Val.amount reward
              ∷ Val.address designated
              ∷ [];
        }
          ∷ [];
  }

  -- The conditions under which a task is accepted.
  pub record Acceptable (interval : ℕ) (reward : ℤ) (designated : Address) (env : Env W)
      : Type 0 where
    pub admin : Address
    pub admin_set : env.storage.admin ≡ some admin
    pub signed : env.authorized admin ≡ true
    pub interval_pos : 0 < interval
    pub reward_pos : pos 0 <ℤ reward
    pub keeper : Keeper
    pub found : env.storage.keeper designated ≡ some keeper
    pub eligible : keeper.ineligible ≡ false

  module _ (target : Address) (interval : ℕ) (reward : ℤ) (designated : Address) (env : Env W) where
    -- Every call of `provision_task`: without a configured administrator it is refused, without the
    -- administrator's authorisation it traps; then the interval, the reward and the designated
    -- keeper are checked in this order, and an acceptable task is stored under a new identifier,
    -- with the counter advanced and one event. The target is not checked.
    pub provision_task_outcome :
        provision_task h target interval reward designated env ≡ elim env.storage.admin [
          | none ↦ err ContractError.unauthorized_caller env
          | some admin ↦
              if env.authorized admin
              then elim (provision_error interval reward designated env.storage) [
                | some e ↦ err e env
                | none ↦ ok (fresh_id env) (provisioned_env target interval reward designated env)
              ]
              else trap
        ]
    unfolding provision_task
    provision_task_outcome = ground arith

    -- A call that returns was acceptable, and has that effect.
    pub provision_task-inv :
        (id : TaskId) (env' : Env W)
        → provision_task h target interval reward designated env ≡ ok id env'
        → Acceptable interval reward designated env
          × (id ≡ fresh_id env)
          × (env' ≡ provisioned_env target interval reward designated env)
    unfolding provision_task
    provision_task-inv id env' e = elim (Option-cases env.storage.admin) [
      | inl missing ↦ ground arith
      | inr (admin, admin_set) ↦ elim (Option-cases (env.storage.keeper designated)) [
        | inl missing ↦ ground arith
        | inr (keeper, found) ↦ (
          record {
            admin = admin;
            admin_set = admin_set;
            signed = ground arith;
            interval_pos = ground arith;
            reward_pos = ground arith;
            keeper = keeper;
            found = found;
            eligible = ground arith;
          },
          ground arith,
          ground arith,
        )
      ]
    ]
