-- ===== src/Anchor/System/Accounts.antt =====
-- The accounts of the contract: the stakes, the treasury and the bonuses handed out, and how each
-- kind of write moves them.
use mathlib.Core.Option.{get_or}
use soroban_cron.Common.{
  ℕ, ◌+◌, ◌-◌, ◌*◌, ◌/◌, ◌<◌, ◌≤◌, ◌≡◌, ◌≢◌, refl, ap, true, false, none, some, inl, inr, [], ◌∷◌,
  arith, Bool-cases, update,
}
use soroban_cron.Common.Int.{ℤ, pos, pos_part, i128_half}
use soroban_cron.Anchor.Types.{Address, Keeper, ExecutionTask}
use soroban_cron.Anchor.Env.{Storage, set_keeper}
use soroban_cron.Anchor.Registry.Outcome.{new_keeper}
use soroban_cron.Anchor.Slashing.{slashed}
use soroban_cron.Anchor.Slashing.Amounts.{left_of-pos, add_i128-pos, portion-pos}
use soroban_cron.Anchor.Slashing.Outcome.{new_stake, treasury_portion, slashed_storage}
use soroban_cron.Anchor.Execution.{credited}
use soroban_cron.Anchor.System.{empty_storage}
use soroban_cron.Anchor.System.Changes.{executed_storage}
use soroban_cron.Anchor.System.Stakes.{
  Roster, listed, Distinct, stakes, stakes-update_unlisted, stakes-update-listed,
  stake_in-le-stakes,
}

-- The roster names every registered keeper once, and the three accounts add up.
pub record IsBalanced (s : Storage) (registered bonuses : ℕ) : Type 0 where
  pub roster : Roster
  pub distinct : Distinct roster
  pub complete : (a : Address) → s.keeper a ≢ none → listed a roster ≡ true
  pub exact : (a : Address) → listed a roster ≡ true → s.keeper a ≢ none
  pub treasury : ℕ
  pub held : get_or s.treasury_balance (pos 0) ≡ pos treasury
  pub balance : treasury + stakes s.keeper roster + bonuses ≡ registered

pub empty_storage-IsBalanced : IsBalanced empty_storage 0 0
empty_storage-IsBalanced = record {
  roster = [];
  distinct = tt;
  complete = λ a e. absurd (e refl);
  exact = λ a e. ground arith;
  treasury = 0;
  held = refl;
  balance = refl;
}

-- Only the keepers and the treasury matter.
pub same_books :
    {registered bonuses : ℕ} (s s' : Storage)
    → s'.keeper ≡ s.keeper
    → s'.treasury_balance ≡ s.treasury_balance
    → IsBalanced s registered bonuses
    → IsBalanced s' registered bonuses
same_books s s' keepers treasury b = record {
  roster = b.roster;
  distinct = b.distinct;
  complete = λ a e. b.complete a (λ z. e (rw keepers z));
  exact = λ a e. rw keepers (b.exact a e);
  treasury = b.treasury;
  held = rw treasury b.held;
  balance = rw keepers b.balance;
}

-- A written record of a registered keeper moves the sum of the stakes by the change of its stake.
rewritten :
    {registered bonuses : ℕ} (s : Storage) (a : Address) (k k' : Keeper)
    (b : IsBalanced s registered bonuses)
    → s.keeper a ≡ some k
    → stakes (update a (some k') s.keeper) b.roster + pos_part k.stake_amount
      ≡ stakes s.keeper b.roster + pos_part k'.stake_amount
rewritten s a k k' b found =
    let l = b.complete a (λ z. ground arith) in
    ground (arith, stakes-update-listed s.keeper a (some k') b.roster b.distinct l)

pub enrol-IsBalanced :
    {registered bonuses : ℕ} (s : Storage) (a : Address) (stake : ℤ)
    → s.keeper a ≡ none
    → IsBalanced s registered bonuses
    → IsBalanced (set_keeper a (new_keeper a stake) s) (registered + pos_part stake) bonuses
enrol-IsBalanced {registered} {bonuses} s a stake fresh b =
    let unlisted : listed a b.roster ≡ false = elim (Bool-cases (listed a b.roster)) [
      | inl l ↦ absurd (b.exact a l fresh)
      | inr u ↦ u
    ] in
    record {
      roster = a ∷ b.roster;
      distinct = (unlisted, b.distinct);
      complete = λ c e. ground (arith, b.complete c);
      exact = λ c e z. ground (arith, b.exact c);
      treasury = b.treasury;
      held = b.held;
      balance = ground (
        arith,
        b.balance,
        stakes-update_unlisted s.keeper a (some (new_keeper a stake)) b.roster unlisted,
      );
    }

-- A keeper's record is written, and its stake flows to the treasury and to a bonus.
flow-IsBalanced :
    {registered bonuses : ℕ} (s s' : Storage) (a : Address) (k k' : Keeper) (bonus treasury : ℕ)
    → s.keeper a ≡ some k
    → s'.keeper ≡ update a (some k') s.keeper
    → get_or s'.treasury_balance (pos 0) ≡ pos treasury
    → (b : IsBalanced s registered bonuses)
    → b.treasury + pos_part k.stake_amount ≡ treasury + pos_part k'.stake_amount + bonus
    → IsBalanced s' registered (bonuses + bonus)
flow-IsBalanced {registered} {bonuses} s s' a k k' bonus treasury found written held b flow =
    record {
      roster = b.roster;
      distinct = b.distinct;
      complete = λ c e. b.complete c (λ z. e (rw written (ground arith)));
      exact = λ c e. rw written (λ z. ground (arith, b.exact c));
      treasury = treasury;
      held = held;
      balance = rw written (omega (arith, b.balance, rewritten s a k k' b found));
    }

at_own_key :
    (s : Storage) (a : Address) (k k' : Keeper)
    → k.address ≡ a
    → update k.address (some k') s.keeper ≡ update a (some k') s.keeper
at_own_key s a k k' own = ap (λ (b : Address). update b (some k') s.keeper) own

pub executed-IsBalanced :
    {registered bonuses : ℕ} (s : Storage) (task : ExecutionTask) (a : Address) (k : Keeper) (l : ℕ)
    → s.keeper a ≡ some k
    → k.address ≡ a
    → IsBalanced s registered bonuses
    → IsBalanced (executed_storage task k l s) registered (bonuses + 0)
unfolding credited
executed-IsBalanced s task a k l found own b =
    flow-IsBalanced s (executed_storage task k l s) a k (credited k l) 0 b.treasury found
      (at_own_key s a k (credited k l) own) b.held b (omega arith)

-- What a slash of a stake of n stroops moves.
pub slashed-IsBalanced :
    {registered bonuses : ℕ} (s : Storage) (a : Address) (k : Keeper) (n : ℕ)
    → s.keeper a ≡ some k
    → k.address ≡ a
    → k.stake_amount ≡ pos n
    → n * 5 < i128_half
    → registered < i128_half
    → IsBalanced s registered bonuses
    → IsBalanced (slashed_storage k s) registered (bonuses + n * 5 / 100 / 2)
unfolding slashed
slashed-IsBalanced s a k n found own stake modest room b =
    let slash = n * 5 / 100 in
    let portion = slash - slash / 2 in
    let k' = slashed k (new_stake k) in
    let left : k'.stake_amount ≡ pos (n - slash) = rw stake (left_of-pos n modest) in
    let part : treasury_portion k ≡ pos portion = rw stake (portion-pos n modest) in
    let l = stake_in-le-stakes s.keeper a b.roster (b.complete a (λ z. ground arith)) in
    let within : n ≤ stakes s.keeper b.roster = ground (arith, l) in
    flow-IsBalanced s (slashed_storage k s) a k k' (slash / 2) (b.treasury + portion) found
      (at_own_key s a k k' own)
      (rw (b.held, part) (add_i128-pos b.treasury portion (omega (arith, b.balance)))) b
      (omega (arith, ap pos_part stake, ap pos_part left))

pub restated :
    {s s' : Storage} {registered registered' bonuses bonuses' : ℕ}
    → s' ≡ s
    → registered' ≡ registered
    → bonuses' ≡ bonuses
    → IsBalanced s registered bonuses
    → IsBalanced s' registered' bonuses'
restated {s} {registered'} {bonuses} e f g b = rw (e, f, g) b
