-- ===== src/Anchor/Errors.antt =====
-- `ContractError` of the-anchor/src/errors.rs, with its `u32` discriminants.
use soroban_cron.Common.{ℕ}

pub data ContractError : Type 0 where
  stake_below_minimum keeper_already_registered keeper_not_found : ContractError
  invalid_interval invalid_reward unauthorized_caller invalid_drip_list : ContractError
  task_not_found too_early_to_execute unauthorized_executor : ContractError
  drip_list_invocation_failed insufficient_reward_balance : ContractError
  grace_period_active grace_period_expired caller_not_secondary_eligible : ContractError
  slash_on_zero_stake already_initialized ineligible_keeper : ContractError

-- The number that a caller decodes from the transaction's result.
unfoldable pub discriminant : ContractError → ℕ
discriminant ContractError.stake_below_minimum = 1
discriminant ContractError.keeper_already_registered = 2
discriminant ContractError.keeper_not_found = 3
discriminant ContractError.invalid_interval = 4
discriminant ContractError.invalid_reward = 5
discriminant ContractError.unauthorized_caller = 6
discriminant ContractError.invalid_drip_list = 7
discriminant ContractError.task_not_found = 8
discriminant ContractError.too_early_to_execute = 9
discriminant ContractError.unauthorized_executor = 10
discriminant ContractError.drip_list_invocation_failed = 11
discriminant ContractError.insufficient_reward_balance = 12
discriminant ContractError.grace_period_active = 13
discriminant ContractError.grace_period_expired = 14
discriminant ContractError.caller_not_secondary_eligible = 15
discriminant ContractError.slash_on_zero_stake = 16
discriminant ContractError.already_initialized = 17
discriminant ContractError.ineligible_keeper = 18
