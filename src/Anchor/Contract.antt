-- ===== src/Anchor/Contract.antt =====
-- the-anchor/src/lib.rs: initialize. Entry.antt has the other entry points.
use soroban_cron.Common.{true, false, none, some}
use soroban_cron.Common.Int.{ℤ}
use soroban_cron.Anchor.Types.{Address}
use soroban_cron.Anchor.Errors.{ContractError}
use soroban_cron.Anchor.Env.{Contract, ◌>>=◌, ◌>>◌, gets, fail_if, require_auth, modify}

module _ {W : Type 0} where
  unfoldable pub initialize : Address → Address → ℤ → Contract W (Unit {0})
  initialize admin native_token min_keeper_stake = do
    initialised ← gets (λ env. elim env.storage.admin [ none ↦ false | some a ↦ true ])
    fail_if initialised ContractError.already_initialized
    require_auth admin
    modify (λ s. record s {
      admin = some admin;
      native_token = some native_token;
      min_keeper_stake = some min_keeper_stake;
    })
