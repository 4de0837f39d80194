-- ===== src/Anchor/Entry/Authority.antt =====
-- Whose signature each entry point asks for.
use soroban_cron.Common.{◌≡◌, true, Option, none, some, inl, inr, arith, Bool-cases, Option-cases}
use soroban_cron.Anchor.Types.{Address, TaskId}
use soroban_cron.Anchor.Host.{Host}
use soroban_cron.Anchor.Env.{Env, Storage, ok}
use soroban_cron.Anchor.Registry.{register_keeper, get_keeper}
use soroban_cron.Anchor.Tasks.{provision_task, get_task}
use soroban_cron.Anchor.Execution.{execute_drip_split}
use soroban_cron.Anchor.Contract.{initialize}
use soroban_cron.Anchor.Calls.{Call, Answer}
use soroban_cron.Anchor.Entry.{invoke}

-- Who must have signed: the lookups ask for nobody's signature.
abbrev pub signer : Call → Storage → Option Address
signer (Call.initialize admin token minimum) s = some admin
signer (Call.register_keeper keeper stake) s = some keeper
signer (Call.get_keeper keeper) s = none
signer (Call.provision_task target interval reward designated) s = s.admin
signer (Call.get_task id) s = none
signer (Call.execute_drip_split id caller) s = some caller

-- The signature was given, or nothing has changed.
abbrev pub Permitted : {W : Type 0} → Option Address → Env W → Env W → Type 0
Permitted none env env' = env' ≡ env
Permitted (some who) env env' = env.authorized who ≡ true

module _ {W : Type 0} (h : Host W) where
  execute_drip_split-signed :
      (id : TaskId) (caller : Address) (env env' : Env W) (answer : Answer)
      → invoke h (Call.execute_drip_split id caller) env ≡ ok answer env'
      → env.authorized caller ≡ true
  unfolding invoke execute_drip_split
  execute_drip_split-signed id caller env env' answer e =
      elim (Bool-cases (env.authorized caller)) [
        | inl signed ↦ signed
        | inr unsigned ↦ ground arith
      ]

  -- An entry point returns only with the signature of the keeper, caller or administrator that it
  -- acts for; the two lookups need none, and change nothing.
  pub invoke-signer :
      (call : Call) (env env' : Env W) (answer : Answer)
      → invoke h call env ≡ ok answer env'
      → Permitted (signer call env.storage) env env'
  unfolding invoke initialize register_keeper get_keeper provision_task get_task
  invoke-signer (Call.initialize admin token minimum) env env' answer e = ground arith
  invoke-signer (Call.register_keeper keeper stake) env env' answer e = ground arith
  invoke-signer (Call.get_keeper keeper) env env' answer e = ground arith
  invoke-signer (Call.provision_task target interval reward designated) env env' answer e =
      elim (Option-cases env.storage.admin) [
        | inl missing ↦ ground arith
        | inr (admin, set) ↦ ground arith
      ]
  invoke-signer (Call.get_task id) env env' answer e = ground arith
  invoke-signer (Call.execute_drip_split id caller) env env' answer e =
      execute_drip_split-signed id caller env env' answer e
