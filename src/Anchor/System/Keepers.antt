-- ===== src/Anchor/System/Keepers.antt =====
-- What becomes of a registered keeper: it stays registered, its stake never grows, and once it is
-- ineligible it stays so.
use soroban_cron.Common.{ℕ, ◌≡◌, sym, subst, true, false, some, inl, inr, arith, ◌==◌, Bool-cases}
use soroban_cron.Common.Int.{ℤ, pos, negsuc, ◌≤ℤ◌, sub_i128}
use soroban_cron.Anchor.Types.{Address, Keeper}
use soroban_cron.Anchor.Host.{Host}
use soroban_cron.Anchor.Env.{Env, Storage, is_ok, set_keeper, set_task}
use soroban_cron.Anchor.Slashing.{slash_of, slashed}
use soroban_cron.Anchor.Slashing.Amounts.{left_of-pos}
use soroban_cron.Anchor.Slashing.Outcome.{new_stake, treasury_credited}
use soroban_cron.Anchor.Tasks.{provision_task}
use soroban_cron.Anchor.Execution.{credited, advanced}
use soroban_cron.Anchor.System.{IsModest, Reach}
use soroban_cron.Anchor.System.Changes.{
  Change, configure, enrol, appoint, penalise, complete, Reach-keeps,
}
use soroban_cron.Anchor.System.Soundness.{IsSound, IsKeeper, Change-IsSound}

-- `k'` is `k` at a later time.
pub record Worn (k k' : Keeper) : Type 0 where
  pub stake : k'.stake_amount ≤ℤ k.stake_amount
  pub barred : k.ineligible ≡ true → k'.ineligible ≡ true

left_le : (z : ℤ) → pos 1 ≤ℤ z → IsModest z → sub_i128 z (slash_of z) ≤ℤ z
left_le (pos n) p m = rw (left_of-pos n m) (omega arith)
left_le (negsuc n) p m = absurd (omega arith)

slashed-Worn :
    (k k' : Keeper) (a : Address) → IsKeeper a k' → Worn k k' → Worn k (slashed k' (new_stake k'))
unfolding slashed
slashed-Worn k k' a good w =
    let less = left_le k'.stake_amount good.staked good.modest in
    record { stake = omega (arith, less, w.stake); barred = λ e. ground (arith, w.barred e) }

credited-Worn : (k k' : Keeper) (l : ℕ) → Worn k k' → Worn k (credited k' l)
unfolding credited
credited-Worn k k' l w = record { stake = w.stake; barred = w.barred }

abbrev pub Keeps : Address → Keeper → Storage → Type 0
Keeps a k s = (k' : Keeper) × (s.keeper a ≡ some k') × Worn k k'

-- A write of a worn record at the keeper's own address, or of any record at another one.
write-Keeps :
    (a b : Address) (k k' x x' : Keeper) (s : Storage)
    → IsKeeper b x
    → s.keeper b ≡ some x
    → s.keeper a ≡ some k'
    → Worn k k'
    → (Worn k x → Worn k x')
    → Keeps a k (set_keeper x.address x' s)
write-Keeps a b k k' x x' s good found here w wear = elim (Bool-cases (b == a)) [
  | inl same ↦
      let e : k' ≡ x = ground arith in (x', ground (arith, good.own_key), wear (subst (Worn k) e w))
  | inr other ↦ (k', ground (arith, good.own_key), w)
]

module _ {W : Type 0} (h : Host W) (a : Address) (k : Keeper) where
  Change-Keeps :
      (l : ℕ) (s s' : Storage)
      → Change h l s s'
      → IsSound s × Keeps a k s
      → IsSound s' × Keeps a k s'
  Change-Keeps l s s' c (sound, (k', here, w)) = (Change-IsSound h l s s' c sound, go c)
    where
      go : Change h l s s' → Keeps a k s'
      go (configure admin token minimum unset positive f) = (k', ground arith, w)
      go (enrol b stake fresh enough modest f) = (k', ground arith, w)
      go (appoint task b room hashed recurs rewarded found eligible f) = (k', ground arith, w)
      go (penalise b x found staked f) =
          let good = sound.keepers b x found in
          subst (Keeps a k) (sym f) (
            write-Keeps a b k k' x (slashed x (new_stake x)) (treasury_credited x s) good found here
              w (slashed-Worn k x b good))
      go (complete id task b x stored due found f) = subst (Keeps a k) (sym f) (
          write-Keeps a b k k' x (credited x l) (set_task task.task_id (advanced task l) s)
            (sound.keepers b x found) found here w (credited-Worn k x l))

  -- From a sound state on, a registered keeper stays registered, its stake never grows, and an
  -- ineligible keeper stays ineligible, by any steps of `Step`.
  pub Reach-Keeps :
      {env env' : Env W}
      → IsSound env.storage
      → env.storage.keeper a ≡ some k
      → Reach h env env'
      → Keeps a k env'.storage
  Reach-Keeps sound found r =
      (Reach-keeps h (λ l s. IsSound s × Keeps a k s) Change-Keeps (λ l m s later p. p) r
        (sound, (k, found, record { stake = omega arith; barred = λ e. e }))).1

  -- From a sound state on, by the steps of `Step`: once ineligible, a keeper is never again
  -- accepted as the designated keeper of a new task.
  pub ineligible_forever :
      {env env' : Env W}
      → IsSound env.storage
      → env.storage.keeper a ≡ some k
      → k.ineligible ≡ true
      → Reach h env env'
      → (target : Address) (interval : ℕ) (reward : ℤ)
      → is_ok (provision_task h target interval reward a env') ≡ false
  unfolding provision_task
  ineligible_forever sound found barred r target interval reward =
      let (k', here, w) = Reach-Keeps sound found r in ground (arith, w.barred barred)
