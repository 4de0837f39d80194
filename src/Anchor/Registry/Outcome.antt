-- ===== src/Anchor/Registry/Outcome.antt =====
-- Every outcome of a registration.
use mathlib.Core.Option.{get_or}
use soroban_cron.Common.{◌≡◌, Option, if◌then◌else◌, true, false, none, some, [], ◌∷◌, ◌++◌, arith}
use soroban_cron.Common.Int.{ℤ, ◌≤ℤ◌, ltb_ℤ}
use soroban_cron.Anchor.Types.{Address, Keeper}
use soroban_cron.Anchor.Errors.{ContractError}
use soroban_cron.Anchor.Env.{Env, Storage, Val, ok, err, trap, set_keeper}
use soroban_cron.Anchor.Registry.{min_keeper_stake, register_keeper}

abbrev pub new_keeper : Address → ℤ → Keeper
new_keeper a stake = record {
  address = a;
  stake_amount = stake;
  last_execution_ledger = 0;
  total_executions = 0;
  ineligible = false;
}

-- The configured minimum, or the constant where none is stored.
abbrev pub min_stake : Storage → ℤ
min_stake s = get_or s.min_keeper_stake min_keeper_stake

-- Why a registration is refused, in the order of the checks.
abbrev pub registration_error : Address → ℤ → Storage → Option ContractError
registration_error a stake s =
    if ltb_ℤ stake (min_stake s)
    then some ContractError.stake_below_minimum
    else elim (s.keeper a) [ none ↦ none | some k ↦ some ContractError.keeper_already_registered ]

module _ {W : Type 0} where
  abbrev pub registered_env : Address → ℤ → Env W → Env W
  registered_env a stake env = record env {
    storage = set_keeper a (new_keeper a stake) env.storage;
    events =
        env.events
        ++ record { topic = "kpr_reg"; values = Val.address a ∷ Val.amount stake ∷ [] } ∷ [];
  }

  -- Every call of `register_keeper`: without the keeper's authorisation it traps; too small a stake
  -- is refused first, a known address next; otherwise a fresh record is stored and one event
  -- emitted, and nothing else changes, the token balances included.
  pub register_keeper_outcome :
      (a : Address) (stake : ℤ) (env : Env W)
      → register_keeper a stake env ≡ (
          if env.authorized a
          then elim (registration_error a stake env.storage) [
            | some e ↦ err e env
            | none ↦ ok tt (registered_env a stake env)
          ]
          else trap)
  unfolding register_keeper
  register_keeper_outcome a stake env = ground arith

  -- A registration that returns met these conditions, and has that effect.
  pub register_keeper-inv :
      (a : Address) (stake : ℤ) (env env' : Env W) {u : Unit {0}}
      → register_keeper a stake env ≡ ok u env'
      → (env.authorized a ≡ true)
        × (min_stake env.storage ≤ℤ stake)
        × (env.storage.keeper a ≡ none)
        × (env' ≡ registered_env a stake env)
  unfolding register_keeper
  register_keeper-inv a stake env env' e = ground arith
