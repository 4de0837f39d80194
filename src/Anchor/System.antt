-- ===== src/Anchor/System.antt =====
-- The contract over its life: any sequence of calls that return, by anyone, while ledgers pass. A
-- call that fails or traps changes nothing, since the host drops its writes, so it is no step.
pub mod Changes
pub mod Soundness
pub mod Keepers
pub mod Identifiers
pub mod Terms
pub mod Schedule
pub mod Configuration
pub mod Funding
pub mod Liveness
pub mod Stakes
pub mod Accounts
pub mod Books
use soroban_cron.Common.{ℕ, ◌+◌, ◌*◌, ◌≤◌, ◌<◌, ◌≡◌, none}
use soroban_cron.Common.Int.{ℤ, pos, pos_part, ◌≤ℤ◌, i128_half}
use soroban_cron.Common.Word.{u32_mod}
use soroban_cron.Anchor.Types.{Address, TaskId}
use soroban_cron.Anchor.Host.{Host}
use soroban_cron.Anchor.Env.{Env, Storage, ok}
use soroban_cron.Anchor.Registry.{register_keeper}
use soroban_cron.Anchor.Tasks.{provision_task}
use soroban_cron.Anchor.Tasks.Outcome.{counter}
use soroban_cron.Anchor.Execution.{execute_drip_split}
use soroban_cron.Anchor.Contract.{initialize}

abbrev pub empty_storage : Storage
empty_storage = record {
  keeper = λ a. none;
  task = λ i. none;
  task_counter = none;
  admin = none;
  min_keeper_stake = none;
  treasury_balance = none;
  native_token = none;
}

-- Stakes whose product with 5 an `i128` can hold; the native token's whole supply is far below.
abbrev pub IsModest : ℤ → Type 0
IsModest stake = pos_part stake * 5 < i128_half

module _ {W : Type 0} (h : Host W) where
  pub data Step (env env' : Env W) : Type 0 where
    -- Other transactions, other callers, later ledgers.
    elsewhere :
        env'.storage ≡ env.storage → env.ledger_sequence ≤ env'.ledger_sequence → Step env env'
    -- The administrator sets a positive minimum.
    initialises :
        (admin native_token : Address) (minimum : ℤ) (u : Unit {0})
        → pos 1 ≤ℤ minimum
        → initialize admin native_token minimum env ≡ ok u env'
        → Step env env'
    registers :
        (keeper : Address) (stake : ℤ) (u : Unit {0})
        → IsModest stake
        → register_keeper keeper stake env ≡ ok u env'
        → Step env env'
    -- Fewer than 2 ^ 32 tasks are ever provisioned.
    provisions :
        (target : Address) (interval : ℕ) (reward : ℤ) (designated : Address) (id : TaskId)
        → counter env.storage + 1 < u32_mod
        → provision_task h target interval reward designated env ≡ ok id env'
        → Step env env'
    executes :
        (id : TaskId) (caller : Address) (u : Unit {0})
        → execute_drip_split h id caller env ≡ ok u env'
        → Step env env'

  pub data Reach (env : Env W) : Env W → Type 0 where
    here : Reach env env
    next : {s t : Env W} → Reach env s → Step s t → Reach env t
