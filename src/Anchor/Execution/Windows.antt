-- ===== src/Anchor/Execution/Windows.antt =====
-- The window table of the protocol, stated apart from the code, and that the code enforces it.
use soroban_cron.Common.{
  ℕ, ◌+◌, ◌≡◌, Bool, true, false, Option, none, some, arith, ltb, leb, ◌==◌, if◌then◌else◌,
}
use soroban_cron.Anchor.Types.{Address, TaskId, ExecutionTask}
use soroban_cron.Anchor.Errors.{ContractError}
use soroban_cron.Anchor.Host.{Host}
use soroban_cron.Anchor.Env.{Env, err}
use soroban_cron.Anchor.Registry.{is_registered}
use soroban_cron.Anchor.Execution.{
  execute_drip_split, execute_designated, execute_in_grace, execute_post_grace,
}

pub data Region : Type 0 where
  pre_window designated_window grace_period post_grace : Region

abbrev pub grace_length : ℕ
grace_length = 50

-- Where ledger `current` lies for a task that is next allowed at `next`.
abbrev pub region : (next current : ℕ) → Region
region next current =
    if ltb current next
    then Region.pre_window
    else if current == next
    then Region.designated_window
    else if leb current (next + grace_length)
    then Region.grace_period
    else Region.post_grace

-- Who is refused, and why: by region, whether the caller is the designated keeper, and whether the
-- caller is registered.
abbrev pub arbitrate : Region → (designated registered : Bool) → Option ContractError
arbitrate Region.pre_window _ _ = some ContractError.too_early_to_execute
arbitrate Region.designated_window true _ = none
arbitrate Region.designated_window false _ = some ContractError.unauthorized_executor
arbitrate Region.grace_period true _ = some ContractError.grace_period_active
arbitrate Region.grace_period false true = none
arbitrate Region.grace_period false false = some ContractError.caller_not_secondary_eligible
arbitrate Region.post_grace _ true = none
arbitrate Region.post_grace _ false = some ContractError.unauthorized_executor

module _ {W : Type 0} (h : Host W) where
  abbrev pub verdict : ExecutionTask → Address → Env W → Option ContractError
  verdict task caller env =
      arbitrate (region task.next_allowed_execution env.ledger_sequence)
        (caller == task.designated_keeper) (is_registered env caller)

  -- An authorised call for a stored task that the window table refuses fails with the table's error
  -- and has written nothing.
  pub execute_drip_split-refused :
      (id : TaskId) (caller : Address) (env : Env W) (task : ExecutionTask) (e : ContractError)
      → env.storage.task id ≡ some task
      → env.authorized caller ≡ true
      → verdict task caller env ≡ some e
      → execute_drip_split h id caller env ≡ err e env
  unfolding execute_drip_split execute_designated execute_in_grace execute_post_grace
  execute_drip_split-refused id caller env task e found auth refused = ground arith
