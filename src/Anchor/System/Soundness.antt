-- ===== src/Anchor/System/Soundness.antt =====
-- What every reachable storage satisfies.
use soroban_cron.Common.{
  ℕ, ◌<◌, ◌≡◌, ◌≢◌, refl, sym, subst, none, some, inl, inr, arith, Option-cases,
}
use soroban_cron.Common.Int.{ℤ, pos, negsuc, ◌≤ℤ◌, ◌<ℤ◌, sub_i128}
use soroban_cron.Anchor.Types.{Address, TaskId, Keeper, ExecutionTask}
use soroban_cron.Anchor.Host.{Host}
use soroban_cron.Anchor.Env.{Env, Storage, set_keeper, set_task}
use soroban_cron.Anchor.Registry.Outcome.{new_keeper, min_stake}
use soroban_cron.Anchor.Slashing.{slash_of, slashed}
use soroban_cron.Anchor.Slashing.Amounts.{left_of-pos}
use soroban_cron.Anchor.Slashing.Outcome.{new_stake, slashed_storage}
use soroban_cron.Anchor.Execution.{credited, advanced}
use soroban_cron.Anchor.System.{empty_storage, IsModest, Reach}
use soroban_cron.Anchor.System.Changes.{
  Change, configure, enrol, appoint, penalise, complete, counted, executed_storage, Reach-keeps,
}

-- A record stored under its own address, with a stake of at least one stroop.
pub record IsKeeper (a : Address) (k : Keeper) : Type 0 where
  pub own_key : k.address ≡ a
  pub staked : pos 1 ≤ℤ k.stake_amount
  pub modest : IsModest k.stake_amount

-- A record stored under its own identifier, with a positive interval and reward, and a designated
-- keeper that is registered.
pub record IsTask (s : Storage) (i : TaskId) (t : ExecutionTask) : Type 0 where
  pub own_key : t.task_id ≡ i
  pub recurs : 0 < t.execution_interval_ledgers
  pub rewarded : pos 0 <ℤ t.micro_reward_per_run
  pub known : s.keeper t.designated_keeper ≢ none

pub record IsSound (s : Storage) : Type 0 where
  pub minimum : (m : ℤ) → s.min_keeper_stake ≡ some m → pos 1 ≤ℤ m
  pub keepers : (a : Address) (k : Keeper) → s.keeper a ≡ some k → IsKeeper a k
  pub tasks : (i : TaskId) (t : ExecutionTask) → s.task i ≡ some t → IsTask s i t

pub empty_storage-IsSound : IsSound empty_storage
empty_storage-IsSound = record { minimum = λ m e. cc; keepers = λ a k e. cc; tasks = λ i t e. cc }

module _ (s : Storage) (sound : IsSound s) where
  set_keeper-IsSound : (a : Address) (k : Keeper) → IsKeeper a k → IsSound (set_keeper a k s)
  set_keeper-IsSound a k good = record {
    minimum = sound.minimum;
    keepers = λ b j e. ground (arith, sound.keepers b j);
    tasks = λ i t e. ground (arith, sound.tasks i t);
  }

  set_task-IsSound : (i : TaskId) (t : ExecutionTask) → IsTask s i t → IsSound (set_task i t s)
  set_task-IsSound i t good = record {
    minimum = sound.minimum;
    keepers = sound.keepers;
    tasks = λ j u e. ground (arith, sound.tasks j u);
  }

left_IsModest :
    (z : ℤ)
    → pos 1 ≤ℤ z
    → IsModest z
    → (pos 1 ≤ℤ sub_i128 z (slash_of z)) × IsModest (sub_i128 z (slash_of z))
left_IsModest (pos n) p m = rw (left_of-pos n m) (omega arith, omega arith)
left_IsModest (negsuc n) p m = absurd (omega arith)

-- A slash takes less than the whole stake.
slashed-IsKeeper : (a : Address) (k : Keeper) → IsKeeper a k → IsKeeper a (slashed k (new_stake k))
unfolding slashed
slashed-IsKeeper a k good =
    let left = left_IsModest k.stake_amount good.staked good.modest in
    record { own_key = good.own_key; staked = left.0; modest = left.1 }

credited-IsKeeper : (a : Address) (k : Keeper) (l : ℕ) → IsKeeper a k → IsKeeper a (credited k l)
unfolding credited
credited-IsKeeper a k l good = record {
  own_key = good.own_key;
  staked = good.staked;
  modest = good.modest;
}

pub slashed_storage-IsSound :
    (s : Storage) (a : Address) (k : Keeper)
    → s.keeper a ≡ some k
    → IsSound s
    → IsSound (slashed_storage k s)
slashed_storage-IsSound s a k found sound =
    let good = sound.keepers a k found in
    set_keeper-IsSound _
      (record {
        minimum = sound.minimum;
        keepers = sound.keepers;
        tasks = λ i t e. ground (arith, sound.tasks i t);
      })
      k.address (slashed k (new_stake k))
      (subst (λ b. IsKeeper b (slashed k (new_stake k))) (sym good.own_key)
        (slashed-IsKeeper a k good))

executed_storage-IsSound :
    (s : Storage) (i : TaskId) (task : ExecutionTask) (a : Address) (k : Keeper) (l : ℕ)
    → s.task i ≡ some task
    → s.keeper a ≡ some k
    → IsSound s
    → IsSound (executed_storage task k l s)
unfolding advanced
executed_storage-IsSound s i task a k l stored found sound =
    let t = sound.tasks i task stored in
    let good = sound.keepers a k found in
    set_keeper-IsSound _
      (set_task-IsSound s sound task.task_id (advanced task l)
        (record { own_key = refl; recurs = t.recurs; rewarded = t.rewarded; known = t.known }))
      k.address (credited k l)
      (subst (λ b. IsKeeper b (credited k l)) (sym good.own_key) (credited-IsKeeper a k l good))

enough_is_staked : (s : Storage) (stake : ℤ) → IsSound s → min_stake s ≤ℤ stake → pos 1 ≤ℤ stake
enough_is_staked s stake sound enough = elim (Option-cases s.min_keeper_stake) [
  | inl unset ↦ ground arith
  | inr (m, e) ↦ ground (arith, sound.minimum m e)
]

module _ {W : Type 0} (h : Host W) where
  -- Every change keeps the storage sound.
  pub Change-IsSound : (l : ℕ) (s s' : Storage) → Change h l s s' → IsSound s → IsSound s'
  Change-IsSound l s s' (configure admin token minimum unset positive f) sound =
      subst IsSound (sym f) (record {
        minimum = λ m e. ground arith;
        keepers = sound.keepers;
        tasks = λ i t e. ground (arith, sound.tasks i t);
      })
  Change-IsSound l s s' (enrol a stake fresh enough modest f) sound = subst IsSound (sym f) (
      set_keeper-IsSound s sound a (new_keeper a stake) (record {
        own_key = refl;
        staked = enough_is_staked s stake sound enough;
        modest = modest;
      }))
  Change-IsSound l s s' (appoint task k room hashed recurs rewarded found eligible f) sound =
      subst IsSound (sym f) (
        set_task-IsSound (counted s)
          (record {
            minimum = sound.minimum;
            keepers = sound.keepers;
            tasks = λ i t g. ground (arith, sound.tasks i t);
          })
          task.task_id task
          (record {
            own_key = refl;
            recurs = recurs;
            rewarded = rewarded;
            known = λ g. ground arith;
          }))
  Change-IsSound l s s' (penalise a k found staked f) sound =
      subst IsSound (sym f) (slashed_storage-IsSound s a k found sound)
  Change-IsSound l s s' (complete id task a k stored due found f) sound =
      subst IsSound (sym f) (executed_storage-IsSound s id task a k l stored found sound)

  -- In every state that a new contract can reach by steps of `Step`, each keeper's record stands
  -- under its own address with a positive stake, and each task's under its own identifier with a
  -- positive interval, a positive reward and a registered designated keeper.
  pub Reach-IsSound :
      {env env' : Env W} → env.storage ≡ empty_storage → Reach h env env' → IsSound env'.storage
  Reach-IsSound new r =
      Reach-keeps h (λ l s. IsSound s) Change-IsSound (λ l m s later sound. sound) r
        (subst IsSound (sym new) empty_storage-IsSound)
