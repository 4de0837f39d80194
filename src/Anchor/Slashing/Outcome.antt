-- ===== src/Anchor/Slashing/Outcome.antt =====
-- What a slash that returns has done to the chain.
use mathlib.Core.Option.{get_or}
use soroban_cron.Common.{
  false, ◌≡◌, ◌≢◌, some, inl, inr, ◌∷◌, ◌++◌, [], ◌⊎◌, arith, Option-cases, Bool-cases,
}
use soroban_cron.Common.Int.{ℤ, pos, eqb_ℤ, add_i128, sub_i128}
use soroban_cron.Anchor.Types.{Address, Keeper}
use soroban_cron.Anchor.Env.{Env, Storage, Val, ok, is_ok, set_keeper}
use soroban_cron.Anchor.Slashing.{slash_of, secondary_of, slashed, apply_slash}

abbrev pub new_stake : Keeper → ℤ
new_stake k = sub_i128 k.stake_amount (slash_of k.stake_amount)

abbrev pub treasury_portion : Keeper → ℤ
treasury_portion k = sub_i128 (slash_of k.stake_amount) (secondary_of (slash_of k.stake_amount))

abbrev pub treasury_credited : Keeper → Storage → Storage
treasury_credited k s = record s {
  treasury_balance = some (add_i128 (get_or s.treasury_balance (pos 0)) (treasury_portion k));
}

abbrev pub slashed_storage : Keeper → Storage → Storage
slashed_storage k s = set_keeper k.address (slashed k (new_stake k)) (treasury_credited k s)

module _ {W : Type 0} where
  abbrev pub slashed_env : Address → Keeper → Env W → Env W
  slashed_env d k env = record env {
    storage = slashed_storage k env.storage;
    events =
        env.events
        ++ record {
          topic = "slashed";
          values =
              Val.address d ∷ Val.amount (slash_of k.stake_amount) ∷ Val.amount (new_stake k) ∷ [];
        }
          ∷ [];
  }

  pub apply_slash-ok :
      (d : Address) (env : Env W) (k : Keeper)
      → env.storage.keeper d ≡ some k
      → k.stake_amount ≢ pos 0
      → apply_slash d env
        ≡ ok (slash_of k.stake_amount, secondary_of (slash_of k.stake_amount)) (slashed_env d k env)
  unfolding apply_slash
  apply_slash-ok d env k e ne = ground arith

  -- A slash returns these amounts in the environment shown, or it does not return.
  pub apply_slash-cases :
      (d : Address) (env : Env W)
      → ((k : Keeper) × (env.storage.keeper d ≡ some k)
          × (k.stake_amount ≢ pos 0)
          × (apply_slash d env
              ≡ ok
                  (slash_of k.stake_amount, secondary_of (slash_of k.stake_amount))
                  (slashed_env d k env)))
        ⊎ (is_ok (apply_slash d env) ≡ false)
  unfolding apply_slash
  apply_slash-cases d env = elim (Option-cases (env.storage.keeper d)) [
    | inl missing ↦ inr (ground arith)
    | inr (k, found) ↦ elim (Bool-cases (eqb_ℤ k.stake_amount (pos 0))) [
      | inl zero_stake ↦ inr (ground arith)
      | inr staked ↦
          let ne : k.stake_amount ≢ pos 0 = λ z. ground arith in
          inl (k, found, ne, apply_slash-ok d env k found ne)
    ]
  ]
