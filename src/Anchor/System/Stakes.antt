-- ===== src/Anchor/System/Stakes.antt =====
-- The stakes of a roster of keepers, and how a written record changes their sum.
use soroban_cron.Common.{
  ℕ, ◌+◌, ◌≤◌, ◌≡◌, refl, ap, Bool, true, false, Option, none, some, inl, inr, List, [], ◌∷◌, arith,
  Bool-cases, ◌==◌, if◌then◌else◌, update,
}
use soroban_cron.Common.Int.{pos_part}
use soroban_cron.Anchor.Types.{Address, Keeper}

abbrev pub Roster : Type 0
Roster = List Address

abbrev pub listed : Address → Roster → Bool
listed a [] = false
listed a (b ∷ bs) = if a == b then true else listed a bs

abbrev pub Distinct : Roster → Type 0
Distinct [] = Unit
Distinct (b ∷ bs) = (listed b bs ≡ false) × Distinct bs

abbrev pub stake_in : Option Keeper → ℕ
stake_in none = 0
stake_in (some k) = pos_part k.stake_amount

abbrev pub stakes : (Address → Option Keeper) → Roster → ℕ
stakes f [] = 0
stakes f (a ∷ bs) = stake_in (f a) + stakes f bs

pub stakes-update_unlisted :
    (f : Address → Option Keeper) (a : Address) (k : Option Keeper) (bs : Roster)
    → listed a bs ≡ false
    → stakes (update a k f) bs ≡ stakes f bs
stakes-update_unlisted f a k [] e = refl
stakes-update_unlisted f a k (b ∷ bs) e = ground (arith, stakes-update_unlisted f a k bs)

pub stakes-update-listed :
    (f : Address → Option Keeper) (a : Address) (k : Option Keeper) (bs : Roster)
    → Distinct bs
    → listed a bs ≡ true
    → stakes (update a k f) bs + stake_in (f a) ≡ stakes f bs + stake_in k
stakes-update-listed f a k [] d e = ground arith
stakes-update-listed f a k (b ∷ bs) d e = elim (Bool-cases (a == b)) [
  | inl same ↦
      let here : a ≡ b = ground arith in
      ground (arith, stakes-update_unlisted f a k bs (ground (arith, d.0)), ap f here)
  | inr other ↦ ground (arith, stakes-update-listed f a k bs d.1)
]

-- No keeper's stake is more than the sum.
pub stake_in-le-stakes :
    (f : Address → Option Keeper) (a : Address) (bs : Roster)
    → listed a bs ≡ true
    → stake_in (f a) ≤ stakes f bs
stake_in-le-stakes f a [] e = ground arith
stake_in-le-stakes f a (b ∷ bs) e = elim (Bool-cases (a == b)) [
  | inl same ↦ let here : a ≡ b = ground arith in rw here (omega arith)
  | inr other ↦ ground (arith, stake_in-le-stakes f a bs)
]
