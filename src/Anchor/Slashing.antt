-- ===== src/Anchor/Slashing.antt =====
-- the-anchor/src/slashing.rs: the 5 % penalty of a designated keeper that missed its window.
pub mod Amounts
pub mod Outcome
pub mod Conservation
use mathlib.Core.Option.{get_or}
use soroban_cron.Common.{true, some, if◌then◌else◌}
use soroban_cron.Common.Int.{ℤ, pos, ltb_ℤ, eqb_ℤ, quot, add_i128, sub_i128, mul_i128}
use soroban_cron.Anchor.Types.{Address, Keeper}
use soroban_cron.Anchor.Errors.{ContractError}
use soroban_cron.Anchor.Env.{Contract, ◌>>=◌, ◌>>◌, gets, return, when, fail, modify}
use soroban_cron.Anchor.Events.{emit_slash_applied, emit_zero_slash}
use soroban_cron.Anchor.Registry.{get_keeper, update_keeper, min_keeper_stake}

-- `keeper.stake_amount * 5 / 100`
unfoldable pub slash_of : ℤ → ℤ
unfolding mul_i128 quot
slash_of stake = quot (mul_i128 stake (pos 5)) 100

-- `slash_amount / 2`
unfoldable pub secondary_of : ℤ → ℤ
unfolding quot
secondary_of slash = quot slash 2

unfoldable pub slashed : Keeper → ℤ → Keeper
slashed keeper new_stake = record keeper {
  stake_amount = new_stake;
  ineligible = if ltb_ℤ new_stake min_keeper_stake then true else keeper.ineligible;
}

module _ {W : Type 0} where
  unfoldable pub credit_treasury : ℤ → Contract W (Unit {0})
  unfolding add_i128
  credit_treasury treasury_portion = do
    current ← gets (λ env. get_or env.storage.treasury_balance (pos 0))
    modify (λ s. record s { treasury_balance = some (add_i128 current treasury_portion) })

  unfoldable pub apply_slash : Address → Contract W (ℤ × ℤ)
  unfolding get_keeper emit_zero_slash credit_treasury update_keeper slashed emit_slash_applied
  apply_slash designated = do
    keeper ← get_keeper designated
    when (eqb_ℤ keeper.stake_amount (pos 0))
        do emit_zero_slash designated; fail ContractError.slash_on_zero_stake
    let slash_amount = slash_of keeper.stake_amount
    let new_stake = sub_i128 keeper.stake_amount slash_amount
    let secondary_reward = secondary_of slash_amount
    let treasury_portion = sub_i128 slash_amount secondary_reward
    credit_treasury treasury_portion
    update_keeper (slashed keeper new_stake)
    emit_slash_applied designated slash_amount new_stake
    return (slash_amount, secondary_reward)
