-- ===== src/Anchor/System/Configuration.antt =====
-- The configuration is set once.
use soroban_cron.Common.{ℕ, ◌≡◌, some, arith}
use soroban_cron.Common.Int.{ℤ}
use soroban_cron.Anchor.Types.{Address}
use soroban_cron.Anchor.Errors.{ContractError}
use soroban_cron.Anchor.Host.{Host}
use soroban_cron.Anchor.Env.{Env, Storage, err}
use soroban_cron.Anchor.Contract.{initialize}
use soroban_cron.Anchor.System.{Reach}
use soroban_cron.Anchor.System.Changes.{
  Change, configure, enrol, appoint, penalise, complete, Reach-keeps,
}

-- The three entries that `initialize` writes.
pub record IsConfigured (admin token : Address) (minimum : ℤ) (s : Storage) : Type 0 where
  pub admin_set : s.admin ≡ some admin
  pub token_set : s.native_token ≡ some token
  pub minimum_set : s.min_keeper_stake ≡ some minimum

module _ {W : Type 0} (h : Host W) (admin token : Address) (minimum : ℤ) where
  Change-IsConfigured :
      (l : ℕ) (s s' : Storage)
      → Change h l s s'
      → IsConfigured admin token minimum s
      → IsConfigured admin token minimum s'
  Change-IsConfigured l s s' (configure a t m unset positive f) c = ground (arith, c.admin_set)
  Change-IsConfigured l s s' (enrol b stake fresh enough modest f) c = ground arith
  Change-IsConfigured l s s' (appoint task b room hashed recurs rewarded found eligible f) c =
      ground arith
  Change-IsConfigured l s s' (penalise b x found staked f) c = ground arith
  Change-IsConfigured l s s' (complete id task b x stored due found f) c = ground arith

  -- After the contract is configured, no step of `Step` ever changes its administrator, its token
  -- or its minimum stake, and every further `initialize` is refused with nothing written.
  pub initialize_is_final :
      {env env' : Env W}
      → IsConfigured admin token minimum env.storage
      → Reach h env env'
      → IsConfigured admin token minimum env'.storage
        × ((a t : Address) (m : ℤ)
            → initialize a t m env' ≡ err ContractError.already_initialized env')
  unfolding initialize
  initialize_is_final {env' = env'} c r =
      let c' =
        Reach-keeps h (λ l s. IsConfigured admin token minimum s) Change-IsConfigured
          (λ l m s later p. p) r c in
      (c', λ a t m. ground (arith, c'.admin_set))
