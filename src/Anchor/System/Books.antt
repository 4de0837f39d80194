-- ===== src/Anchor/System/Books.antt =====
-- The contract's books over its life: every stroop of registered stake is in a keeper's stake, in
-- the treasury, or was handed out as a bonus.
use soroban_cron.Common.{ℕ, ◌+◌, ◌*◌, ◌/◌, ◌<◌, ◌≡◌, refl, sym, ap, subst, ◌∙◌, none, some, arith}
use soroban_cron.Common.Int.{ℤ, pos, negsuc, pos_part, ◌≤ℤ◌, i128_half}
use soroban_cron.Anchor.Types.{Address, TaskId}
use soroban_cron.Anchor.Host.{Host}
use soroban_cron.Anchor.Env.{Env, Storage}
use soroban_cron.Anchor.Registry.Outcome.{register_keeper-inv}
use soroban_cron.Anchor.Slashing.{slash_of, secondary_of}
use soroban_cron.Anchor.Slashing.Amounts.{slash_of-pos, secondary_of-pos}
use soroban_cron.Anchor.Slashing.Outcome.{slashed_storage}
use soroban_cron.Anchor.Tasks.Outcome.{provision_task-inv}
use soroban_cron.Anchor.Execution.Payments.{bonus_due}
use soroban_cron.Anchor.Execution.Refinement.{
  Executed, by_designated, by_secondary, after_grace, execute_drip_split-Executed,
}
use soroban_cron.Anchor.Contract.{initialize}
use soroban_cron.Anchor.System.{
  empty_storage, Step, elsewhere, initialises, registers, provisions, executes, Reach, here, next,
}
use soroban_cron.Anchor.System.Soundness.{IsSound, slashed_storage-IsSound, Reach-IsSound}
use soroban_cron.Anchor.System.Accounts.{
  IsBalanced, empty_storage-IsBalanced, same_books, enrol-IsBalanced, executed-IsBalanced,
  slashed-IsBalanced, restated,
}

natural : (z : ℤ) → pos 1 ≤ℤ z → (n : ℕ) × (z ≡ pos n)
natural (pos n) p = (n, refl)
natural (negsuc n) p = absurd (omega arith)

-- The bonus of a call in stroops.
abbrev pub bonus_of : Storage → TaskId → (ledger : ℕ) → ℕ
bonus_of s id ledger = elim (s.task id) [ none ↦ 0 | some t ↦ pos_part (bonus_due t s ledger) ]

module _ {W : Type 0} (h : Host W) where
  -- The stake that a step registers, and the bonus that it hands out.
  abbrev pub stake_of_step : {env env' : Env W} → Step h env env' → ℕ
  stake_of_step (elsewhere same later) = 0
  stake_of_step (initialises admin token minimum u positive e) = 0
  stake_of_step (registers a stake u modest e) = pos_part stake
  stake_of_step (provisions target interval reward designated id room e) = 0
  stake_of_step (executes id caller u e) = 0

  abbrev pub bonus_of_step : {env env' : Env W} → Step h env env' → ℕ
  bonus_of_step (elsewhere same later) = 0
  bonus_of_step (initialises admin token minimum u positive e) = 0
  bonus_of_step (registers a stake u modest e) = 0
  bonus_of_step (provisions target interval reward designated id room e) = 0
  bonus_of_step {env} (executes id caller u e) = bonus_of env.storage id env.ledger_sequence

  abbrev pub registered_total : {start env : Env W} → Reach h start env → ℕ
  registered_total here = 0
  registered_total (next r st) = registered_total r + stake_of_step st

  abbrev pub bonus_total : {start env : Env W} → Reach h start env → ℕ
  bonus_total here = 0
  bonus_total (next r st) = bonus_total r + bonus_of_step st

  Executed-IsBalanced :
      {registered bonuses : ℕ} (id : TaskId) (caller : Address) (env env' : Env W)
      → IsSound env.storage
      → registered < i128_half
      → Executed h id caller env env'
      → IsBalanced env.storage registered bonuses
      → IsBalanced env'.storage registered (bonuses + bonus_of env.storage id env.ledger_sequence)
  Executed-IsBalanced {bonuses} id caller env env' sound room
        (by_designated task k w stored now own d f) b =
      let none_due : bonus_of env.storage id env.ledger_sequence ≡ 0 = ground arith in
      restated (ap (λ x. x.storage) f) refl (ap (λ (n : ℕ). bonuses + n) none_due) (
        executed-IsBalanced env.storage task caller k env.ledger_sequence d.found
          ((sound.keepers caller k d.found).own_key) b)
  Executed-IsBalanced {bonuses} id caller env env' sound room
        (by_secondary task x k w stored late early g f) b =
      let good = sound.keepers task.designated_keeper x g.found in
      let (n, stake) = natural x.stake_amount good.staked in
      let modest : n * 5 < i128_half = ground (arith, good.modest) in
      let middle = slashed_storage x env.storage in
      let sound' = slashed_storage-IsSound env.storage task.designated_keeper x g.found sound in
      let share : pos_part (secondary_of (slash_of x.stake_amount)) ≡ n * 5 / 100 / 2 =
        rw (stake, slash_of-pos n modest, secondary_of-pos (n * 5 / 100)) refl in
      let due : bonus_of env.storage id env.ledger_sequence
          ≡ pos_part (secondary_of (slash_of x.stake_amount)) =
        ground (arith, g.found) in
      restated (ap (λ y. y.storage) f) refl
        (ap (λ (m : ℕ). bonuses + m) (due ∙ share) ∙ omega arith)
        (executed-IsBalanced middle task caller k env.ledger_sequence g.distributed.found
          ((sound'.keepers caller k g.distributed.found).own_key)
          (slashed-IsBalanced env.storage task.designated_keeper x n g.found good.own_key stake
            modest room b))
  Executed-IsBalanced {bonuses} id caller env env' sound room
        (after_grace task k w stored late registered d f) b =
      let none_due : bonus_of env.storage id env.ledger_sequence ≡ 0 = ground arith in
      restated (ap (λ x. x.storage) f) refl (ap (λ (n : ℕ). bonuses + n) none_due) (
        executed-IsBalanced env.storage task caller k env.ledger_sequence d.found
          ((sound.keepers caller k d.found).own_key) b)

  Step-IsBalanced :
      {registered bonuses : ℕ} {env env' : Env W} (st : Step h env env')
      → IsSound env.storage
      → registered < i128_half
      → IsBalanced env.storage registered bonuses
      → IsBalanced env'.storage (registered + stake_of_step st) (bonuses + bonus_of_step st)
  unfolding initialize
  Step-IsBalanced (elsewhere same later) sound room b = restated same (omega arith) (omega arith) b
  Step-IsBalanced {env} {env'} (initialises admin token minimum u positive e) sound room b =
      restated refl (omega arith) (omega arith)
        (same_books env.storage env'.storage (ground arith) (ground arith) b)
  Step-IsBalanced {env} {env'} (registers a stake u modest e) sound room b =
      let (signed, enough, fresh, f) = register_keeper-inv a stake env env' e in
      restated (ap (λ x. x.storage) f) refl (omega arith)
        (enrol-IsBalanced env.storage a stake fresh b)
  Step-IsBalanced {env} {env'} (provisions target interval reward designated id space e) sound room
        b =
      let (a, same, f) = provision_task-inv h target interval reward designated env id env' e in
      restated refl (omega arith) (omega arith) (
        same_books env.storage env'.storage (ap (λ x. x.storage.keeper) f)
          (ap (λ x. x.storage.treasury_balance) f) b)
  Step-IsBalanced {env} {env'} (executes id caller u e) sound room b =
      restated refl (omega arith) refl (
        Executed-IsBalanced id caller env env' sound room
          (execute_drip_split-Executed h id caller env env' e) b)

  -- In every state that a new contract can reach by steps of `Step` with less than 2 ^ 127 stroops
  -- registered in all: the treasury, the stakes of the registered keepers and the bonuses handed out
  -- add up to the stakes that were ever registered.
  pub books_balance :
      {start env : Env W} (r : Reach h start env)
      → start.storage ≡ empty_storage
      → registered_total r < i128_half
      → IsBalanced env.storage (registered_total r) (bonus_total r)
  books_balance here new room = subst (λ s. IsBalanced s 0 0) (sym new) empty_storage-IsBalanced
  books_balance (next r st) new room =
      Step-IsBalanced st (Reach-IsSound h new r) (omega arith) (books_balance r new (omega arith))
