-- ===== src/Anchor/Registry.antt =====
-- the-anchor/src/registry.rs: keeper registration and lookup.
pub mod Outcome
use mathlib.Core.Option.{get_or}
use soroban_cron.Common.{Bool, true, false, not, none, some}
use soroban_cron.Common.Int.{ℤ, pos, ltb_ℤ}
use soroban_cron.Anchor.Types.{Address, Keeper}
use soroban_cron.Anchor.Errors.{ContractError}
use soroban_cron.Anchor.Env.{
  Env, Contract, ◌>>=◌, ◌>>◌, gets, fail_if, ok_or, require_auth, modify, set_keeper,
}
use soroban_cron.Anchor.Events.{emit_keeper_registered}

-- `MIN_KEEPER_STAKE`, 1 XLM in stroops.
abbrev pub min_keeper_stake : ℤ
min_keeper_stake = pos 10_000_000

module _ {W : Type 0} where
  unfoldable pub is_registered : Env W → Address → Bool
  is_registered env keeper = elim (env.storage.keeper keeper) [ none ↦ false | some k ↦ true ]

  unfoldable pub is_eligible : Env W → Address → Bool
  is_eligible env keeper = elim (env.storage.keeper keeper) [
    | none ↦ false
    | some k ↦ not k.ineligible
  ]

  unfoldable pub register_keeper : Address → ℤ → Contract W (Unit {0})
  unfolding is_registered emit_keeper_registered
  register_keeper keeper stake_amount = do
    require_auth keeper
    min_stake ← gets (λ env. get_or env.storage.min_keeper_stake min_keeper_stake)
    fail_if (ltb_ℤ stake_amount min_stake) ContractError.stake_below_minimum
    registered ← gets (λ env. is_registered env keeper)
    fail_if registered ContractError.keeper_already_registered
    modify (
        set_keeper keeper (record {
          address = keeper;
          stake_amount = stake_amount;
          last_execution_ledger = 0;
          total_executions = 0;
          ineligible = false;
        }))
    emit_keeper_registered keeper stake_amount

  unfoldable pub get_keeper : Address → Contract W Keeper
  get_keeper keeper = do
    found ← gets (λ env. env.storage.keeper keeper)
    ok_or found ContractError.keeper_not_found

  unfoldable pub update_keeper : Keeper → Contract W (Unit {0})
  update_keeper keeper = modify (set_keeper keeper.address keeper)
