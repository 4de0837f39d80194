-- ===== src/Anchor/Entry/Transactions.antt =====
-- Transactions on the contract, failing ones included, as the host carries them out.
use soroban_cron.Common.{ℕ, ◌+◌, ◌<◌, ◌≡◌, refl, List, [], ◌∷◌, inl, inr, arith, Bool, ◌⊎◌}
use soroban_cron.Common.Int.{pos, ◌≤ℤ◌}
use soroban_cron.Common.Word.{u32_mod}
use soroban_cron.Anchor.Types.{Address}
use soroban_cron.Anchor.Errors.{ContractError}
use soroban_cron.Anchor.Host.{Host}
use soroban_cron.Anchor.Env.{Env, Storage, Exec, Contract, ◌>>=◌, return, ok, err, trap}
use soroban_cron.Anchor.Tasks.Outcome.{counter}
use soroban_cron.Anchor.Registry.{register_keeper, get_keeper}
use soroban_cron.Anchor.Tasks.{provision_task, get_task}
use soroban_cron.Anchor.Execution.{execute_drip_split}
use soroban_cron.Anchor.Contract.{initialize}
use soroban_cron.Anchor.Calls.{Call, Answer}
use soroban_cron.Anchor.Entry.{invoke}
use soroban_cron.Anchor.System.{
  IsModest, Step, elsewhere, initialises, registers, provisions, executes, Reach, here, next,
}

-- A call, who signed it, how many ledgers after the one before, and what the rest of the chain is
-- by then.
pub record Transaction (W : Type 0) : Type 0 where
  pub wait : ℕ
  pub meanwhile : W
  pub authorized : Address → Bool
  pub call : Call

-- The bounds of `Step`.
abbrev pub IsBounded : Call → Storage → Type 0
IsBounded (Call.initialize admin token minimum) s = pos 1 ≤ℤ minimum
IsBounded (Call.register_keeper keeper stake) s = IsModest stake
IsBounded (Call.provision_task target interval reward designated) s = counter s + 1 < u32_mod
IsBounded _ s = Unit {0}

abbrev pub prepared : {W : Type 0} → Transaction W → Env W → Env W
prepared x env = record env {
  ledger_sequence = env.ledger_sequence + x.wait;
  world = x.meanwhile;
  authorized = x.authorized;
  events = [];
}

-- The host keeps what a call that returns has done, and nothing of any other.
abbrev pub kept : {W A : Type 0} → Env W → Exec W A → Env W
kept before (ok a after) = after
kept before (err e after) = before
kept before trap = before

module _ {W : Type 0} (h : Host W) where
  abbrev pub transact : Transaction W → Env W → Env W
  transact x env = kept (prepared x env) (invoke h x.call (prepared x env))

  abbrev pub transact_all : List (Transaction W) → Env W → Env W
  transact_all [] env = env
  transact_all (x ∷ xs) env = transact_all xs (transact x env)

  abbrev pub AreBounded : List (Transaction W) → Env W → Type 0
  AreBounded [] env = Unit {0}
  AreBounded (x ∷ xs) env = IsBounded x.call env.storage × AreBounded xs (transact x env)

  Exec-cases :
      {A : Type 0} (r : Exec W A)
      → ((a : A) × (env : Env W) × (r ≡ ok a env))
        ⊎ (((e : ContractError) × (env : Env W) × (r ≡ err e env)) ⊎ (r ≡ trap))
  Exec-cases (ok a env) = inl (a, env, refl)
  Exec-cases (err e env) = inr (inl (e, env, refl))
  Exec-cases trap = inr (inr refl)

  -- An entry point is a step if what it delegates to is one.
  delegates :
      {A : Type 0} (f : Contract W A) (answer : A → Answer) (env : Env W)
      → ((a : A) (env' : Env W) → f env ≡ ok a env' → Step h env env')
      → Step h env (kept env ((f >>= λ a. return (answer a)) env))
  delegates f answer env steps = elim (Exec-cases (f env)) [
    | inl (a, env', e) ↦ rw (e, ◌>>=◌) (steps a env' e)
    | inr (inl (c, env', e)) ↦ rw (e, ◌>>=◌) (elsewhere refl (omega arith))
    | inr (inr e) ↦ rw (e, ◌>>=◌) (elsewhere refl (omega arith))
  ]

  kept-Step :
      (call : Call) (env : Env W)
      → IsBounded call env.storage
      → Step h env (kept env (invoke h call env))
  unfolding invoke get_keeper get_task
  kept-Step (Call.initialize admin token minimum) env bounded =
      delegates (initialize admin token minimum) (λ u. Answer.nothing) env
        (λ u env' e. initialises admin token minimum u bounded e)
  kept-Step (Call.register_keeper keeper stake) env bounded =
      delegates (register_keeper keeper stake) (λ u. Answer.nothing) env
        (λ u env' e. registers keeper stake u bounded e)
  kept-Step (Call.get_keeper keeper) env bounded =
      delegates (get_keeper keeper) Answer.a_keeper env
        (λ k env' e. elsewhere (ground arith) (ground arith))
  kept-Step (Call.provision_task target interval reward designated) env bounded =
      delegates (provision_task h target interval reward designated) Answer.a_task_id env
        (λ id env' e. provisions target interval reward designated id bounded e)
  kept-Step (Call.get_task id) env bounded =
      delegates (get_task id) Answer.a_task env
        (λ t env' e. elsewhere (ground arith) (ground arith))
  kept-Step (Call.execute_drip_split id caller) env bounded =
      delegates (execute_drip_split h id caller) (λ u. Answer.nothing) env
        (λ u env' e. executes id caller u e)

  extends :
      {start : Env W} (xs : List (Transaction W)) (env : Env W)
      → AreBounded xs env
      → Reach h start env
      → Reach h start (transact_all xs env)
  extends [] env bounded r = r
  extends (x ∷ xs) env (first, rest) r = extends xs (transact x env) rest (
      next (next {t = prepared x env} r (elsewhere refl (omega arith)))
        (kept-Step x.call (prepared x env) first))

  -- Whatever transactions are sent, in any order, by anyone, failing ones included: what the host
  -- makes of them is reached by steps of `Step`, if each call keeps the bounds of `Step`. So what
  -- holds in every state that is reached by them holds after every history of transactions.
  pub transact_all-Reach :
      (xs : List (Transaction W)) (env : Env W)
      → AreBounded xs env
      → Reach h env (transact_all xs env)
  transact_all-Reach xs env bounded = extends xs env bounded here
