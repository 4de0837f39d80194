-- ===== src/Anchor/Entry.antt =====
-- the-anchor/src/lib.rs: the entry points of `AnchorContract`, which delegate to the modules.
pub mod Authority
pub mod Frame
pub mod Transactions
use soroban_cron.Anchor.Env.{Contract, ◌>>=◌, return}
use soroban_cron.Anchor.Host.{Host}
use soroban_cron.Anchor.Calls.{Call, Answer}
use soroban_cron.Anchor.Contract.{initialize}
use soroban_cron.Anchor.Registry.{register_keeper, get_keeper}
use soroban_cron.Anchor.Tasks.{provision_task, get_task}
use soroban_cron.Anchor.Execution.{execute_drip_split}

module _ {W : Type 0} (h : Host W) where
  -- The contract as one function of the call.
  unfoldable pub invoke : Call → Contract W Answer
  unfolding initialize register_keeper get_keeper provision_task get_task execute_drip_split
  invoke (Call.initialize admin native_token min_keeper_stake) = do
    u ← initialize admin native_token min_keeper_stake
    return Answer.nothing
  invoke (Call.register_keeper keeper stake_amount) = do
    u ← register_keeper keeper stake_amount
    return Answer.nothing
  invoke (Call.get_keeper keeper) = do found ← get_keeper keeper; return (Answer.a_keeper found)
  invoke (Call.provision_task target interval reward designated) = do
    id ← provision_task h target interval reward designated
    return (Answer.a_task_id id)
  invoke (Call.get_task id) = do found ← get_task id; return (Answer.a_task found)
  invoke (Call.execute_drip_split id caller) = do
    u ← execute_drip_split h id caller
    return Answer.nothing
