-- ===== src/Anchor/Slashing/Conservation.antt =====
-- Where the slashed stake goes, and what the slash arithmetic does at its edges.
use mathlib.Core.Option.{get_or}
use soroban_cron.Common.{
  ℕ, ◌+◌, ◌-◌, ◌*◌, ◌/◌, ◌^◌, ◌<◌, ◌≤◌, ◌≡◌, ◌≢◌, refl, ltb, ◌||◌, ap, true, none, some, arith,
}
use soroban_cron.Common.Int.{ℤ, pos, ◌≤ℤ◌, i128_half, sub_i128}
use soroban_cron.Anchor.Types.{Address, Keeper}
use soroban_cron.Anchor.Env.{Env, ok}
use soroban_cron.Anchor.Registry.{register_keeper}
use soroban_cron.Anchor.Registry.Outcome.{
  min_stake, new_keeper, registered_env, register_keeper_outcome,
}
use soroban_cron.Anchor.Slashing.{slash_of, secondary_of, slashed, apply_slash}
use soroban_cron.Anchor.Slashing.Amounts.{
  slash_of-pos, secondary_of-pos, left_of-pos, portion-pos, add_i128-pos,
}
use soroban_cron.Anchor.Slashing.Outcome.{new_stake, treasury_portion, slashed_env, apply_slash-ok}

-- The parts of a slash of a stake of `n` stroops.
pub record Split (n slash reward portion : ℕ) : Type 0 where
  pub floor : (slash * 20 ≤ n) × (n < slash * 20 + 20)
  pub whole : slash ≡ reward + portion
  pub halves : (reward ≤ portion) × (portion ≤ reward + 1)

-- The keeper's record afterwards, with `left` stroops.
pub record Penalised (k k' : Keeper) (left : ℕ) : Type 0 where
  pub stake : k'.stake_amount ≡ pos left
  pub barred : k'.ineligible ≡ (ltb left 10_000_000 || k.ineligible)
  pub same_address : k'.address ≡ k.address
  pub same_count : k'.total_executions ≡ k.total_executions
  pub same_ledger : k'.last_execution_ledger ≡ k.last_execution_ledger

slashed-Penalised : (k : Keeper) (left : ℕ) → Penalised k (slashed k (pos left)) left
unfolding slashed
slashed-Penalised k left = record {
  stake = refl;
  barred = ground arith;
  same_address = refl;
  same_count = refl;
  same_ledger = refl;
}

module _ {W : Type 0} (d : Address) (env : Env W) (k : Keeper) where
  -- A slash of a stake of n stroops (with room for n * 5 in an `i128`, and in the treasury) takes
  -- the floor of 5 % from the stake, hands half of it, rounded down, to the secondary keeper, and
  -- adds the rest to the treasury: nothing is lost or made. The keeper is ineligible from then on
  -- if less than 10 000 000 stroops are left.
  pub apply_slash_conserves :
      (n t : ℕ)
      → env.storage.keeper d ≡ some k
      → k.address ≡ d
      → k.stake_amount ≡ pos n
      → get_or env.storage.treasury_balance (pos 0) ≡ pos t
      → 0 < n
      → n * 5 < i128_half
      → t + n < i128_half
      → (slash : ℕ) × (reward : ℕ) × (portion : ℕ) × (env' : Env W) × Split n slash reward portion
        × (apply_slash d env ≡ ok (pos slash, pos reward) env')
        × ((k' : Keeper) × (env'.storage.keeper d ≡ some k') × Penalised k k' (n - slash))
        × (env'.storage.treasury_balance ≡ some (pos (t + portion)))
  apply_slash_conserves n t found own stake treasury positive modest room =
      let s = n * 5 / 100 in
      let taken : slash_of k.stake_amount ≡ pos s = rw stake (slash_of-pos n modest) in
      let left : new_stake k ≡ pos (n - s) = rw stake (left_of-pos n modest) in
      let kept : treasury_portion k ≡ pos (s - s / 2) = rw stake (portion-pos n modest) in
      let ne : k.stake_amount ≢ pos 0 = λ z. ground arith in
      (
        s,
        s / 2,
        s - s / 2,
        slashed_env d k env,
        record {
          floor = (omega arith, omega arith);
          whole = omega arith;
          halves = (omega arith, omega arith);
        },
        cc (apply_slash-ok d env k found ne, taken, secondary_of-pos s),
        (slashed k (pos (n - s)), ground (arith, left), slashed-Penalised k (n - s)),
        rw (treasury, kept) (ap some (add_i128-pos t (s - s / 2) (omega arith))),
      )

overflowing :
    (n : ℕ)
    → i128_half ≤ n * 5
    → n * 5 < 2 ^ 128
    → (slash_of (pos n) ≤ℤ pos 0) × (pos n ≤ℤ sub_i128 (pos n) (slash_of (pos n)))
unfolding slash_of sub_i128
overflowing n low high = ground arith

module _ {W : Type 0} (d : Address) (env : Env W) where
  -- A new keeper that has signed may declare a stake n with 2 ^ 127 ≤ 5 n < 2 ^ 128, if the minimum
  -- is no larger: `register_keeper` returns. When `apply_slash` is called for this keeper next, it
  -- returns too, with a slash that is negative or zero, and leaves the keeper a stake no smaller than
  -- n (in a build without overflow checks).
  pub overflowing_slash_rewards :
      (n : ℕ)
      → i128_half ≤ n * 5
      → n * 5 < 2 ^ 128
      → env.authorized d ≡ true
      → env.storage.keeper d ≡ none
      → min_stake env.storage ≤ℤ pos n
      → (registered : Env W) × (register_keeper d (pos n) env ≡ ok tt registered)
        × (amounts : ℤ × ℤ) × (env' : Env W) × (apply_slash d registered ≡ ok amounts env')
        × (amounts.0 ≤ℤ pos 0)
        × ((k' : Keeper) × (env'.storage.keeper d ≡ some k') × (pos n ≤ℤ k'.stake_amount))
  unfolding slashed
  overflowing_slash_rewards n low high signed unknown enough =
      let k = new_keeper d (pos n) in
      let registered = registered_env d (pos n) env in
      let (lost, kept) = overflowing n low high in
      let found : registered.storage.keeper d ≡ some k = ground arith in
      let staked : k.stake_amount ≢ pos 0 = λ z. ground arith in
      (
        registered,
        ground (arith, register_keeper_outcome d (pos n) env),
        (slash_of (pos n), secondary_of (slash_of (pos n))),
        slashed_env d k registered,
        apply_slash-ok d registered k found staked,
        lost,
        (slashed k (new_stake k), ground arith, kept),
      )
