-- ===== src/Anchor/System/Funding.antt =====
-- What a due task needs from the rest of the chain: a token that pays, and a balance that covers.
use soroban_cron.Common.{◌*◌, ◌/◌, ◌≡◌, ◌≢◌, ◌⊎◌, some, arith}
use soroban_cron.Common.Int.{ℤ, pos, negsuc, ◌≤ℤ◌, ◌+ℤ◌, ◌-ℤ◌}
use soroban_cron.Anchor.Types.{Address, ExecutionTask}
use soroban_cron.Anchor.Host.{Host}
use soroban_cron.Anchor.Env.{Env}
use soroban_cron.Anchor.Slashing.{slash_of, secondary_of}
use soroban_cron.Anchor.Slashing.Amounts.{slash_of-pos, secondary_of-pos}
use soroban_cron.Anchor.Execution.Payments.{bonus_due}
use soroban_cron.Anchor.System.{IsModest}

-- In the world `called` and in the one after the reward was paid there, the token carries out the
-- transfers to the caller that the contract's balance covers.
abbrev pub Transfers :
    {W : Type 0} → Host W → (token this caller : Address) → (reward : ℤ) → (called : W) → Type 0
Transfers {W} h token this caller reward called =
    (amount : ℤ) (w : W)
    → (w ≡ called) ⊎ (h.transfer token this caller reward called ≡ some w)
    → pos 0 ≤ℤ amount
    → amount ≤ℤ h.balance token this w
    → (w' : W) × (h.transfer token this caller amount w ≡ some w')

-- A bonus is never negative.
pub bonus_sign : (z : ℤ) → pos 1 ≤ℤ z → IsModest z → pos 0 ≤ℤ secondary_of (slash_of z)
bonus_sign (pos n) staked modest =
    rw (slash_of-pos n modest, secondary_of-pos (n * 5 / 100)) (omega arith)
bonus_sign (negsuc n) staked modest = absurd (omega arith)

-- A balance that covers two amounts covers the first, and what it leaves covers the second.
pub covers_both :
    (balance reward bonus : ℤ)
    → pos 0 ≤ℤ bonus
    → reward +ℤ bonus ≤ℤ balance
    → (reward ≤ℤ balance) × (bonus ≤ℤ balance -ℤ reward)
unfolding ◌+ℤ◌ ◌-ℤ◌
covers_both balance reward bonus positive both = (ground arith, ground arith)

-- What a call needs from the rest of the chain and from the contract's account: the drip list
-- accepts the call, which leads to the world `called`, and the balance then covers what is due.
pub record Supplied {W : Type 0} (h : Host W) (env : Env W) (task : ExecutionTask)
    (token caller : Address) (called : W) : Type 0 where
  pub native : env.storage.native_token ≡ some token
  pub other : env.current_contract_address ≢ caller
  pub invoked :
      h.invoke_contract task.target_drip_list "distribute_wave_splits" env.world ≡ some called
  pub transfers :
      Transfers h token env.current_contract_address caller task.micro_reward_per_run called
  pub funds :
      task.micro_reward_per_run +ℤ bonus_due task env.storage env.ledger_sequence
      ≤ℤ h.balance token env.current_contract_address called
