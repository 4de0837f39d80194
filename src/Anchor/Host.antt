-- ===== src/Anchor/Host.antt =====
-- What the contract asks of the Soroban host and of other contracts. None of it is in the
-- repository, so every operation that uses it takes it as an argument. `none` is a trap, which ends
-- the call. The host forbids re-entry, so no call below touches the contract's own storage.
use Prim.Native.String.{String}
use soroban_cron.Common.{ℕ, List, Option}
use soroban_cron.Common.Int.{ℤ}
use soroban_cron.Anchor.Types.{Address, TaskId}

pub record Host (W : Type 0) : Type 0 where
  -- `TokenClient::new(env, token).balance(owner)`
  pub balance : (token owner : Address) → W → ℤ
  -- `TokenClient::new(env, token).transfer(from, to, amount)`
  pub transfer : (token from to : Address) → ℤ → W → Option W
  -- `env.invoke_contract::<()>(contract, function, [])`
  pub invoke_contract : Address → String → W → Option W
  -- `env.crypto().sha256(bytes)`
  pub sha256 : List ℕ → TaskId
