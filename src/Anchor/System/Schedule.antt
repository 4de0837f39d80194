-- ===== src/Anchor/System/Schedule.antt =====
-- A task runs at most once in each interval.
use soroban_cron.Common.{ℕ, ◌+◌, ◌<◌, ◌≤◌, ◌≡◌, ap, false, some, inl, inr, arith, ◌==◌, Bool-cases}
use soroban_cron.Common.Word.{u32_mod}
use soroban_cron.Anchor.Types.{Address, TaskId, ExecutionTask}
use soroban_cron.Anchor.Host.{Host}
use soroban_cron.Anchor.Env.{Env, Storage, ok, is_ok}
use soroban_cron.Anchor.Execution.{advanced, execute_drip_split}
use soroban_cron.Anchor.Execution.Refinement.{
  Executed, by_designated, by_secondary, after_grace, execute_drip_split-Executed,
}
use soroban_cron.Anchor.System.{empty_storage, Reach, next, executes}
use soroban_cron.Anchor.System.Changes.{
  Change, configure, enrol, appoint, penalise, complete, Reach-keeps,
}
use soroban_cron.Anchor.System.Soundness.{IsSound, Change-IsSound}
use soroban_cron.Anchor.System.Identifiers.{
  IsCollisionFree, IsTracked, Change-IsTracked, Reach-IsTracked, next_id_is_fresh,
}

-- The task is stored and next allowed at `n` or later.
abbrev IsDeferred : TaskId → ℕ → Storage → Type 0
IsDeferred id n s = (t : ExecutionTask) × (s.task id ≡ some t) × (n ≤ t.next_allowed_execution)

module _ {W : Type 0} (h : Host W) where
  -- The call read the task, which was due, and stored it with its next window.
  pub Executed-advances :
      (id : TaskId) (caller : Address) (env env' : Env W)
      → IsSound env.storage
      → Executed h id caller env env'
      → (t : ExecutionTask) × (env.storage.task id ≡ some t)
        × (t.next_allowed_execution ≤ env.ledger_sequence)
        × (env'.storage.task id ≡ some (advanced t env.ledger_sequence))
        × (env'.ledger_sequence ≡ env.ledger_sequence)
  Executed-advances id caller env env' sound (by_designated t k w stored now designated d f) =
      let own = (sound.tasks id t stored).own_key in
      (t, stored, omega arith, ground (arith, own), ground arith)
  Executed-advances id caller env env' sound (by_secondary t x k w stored late early g f) =
      let own = (sound.tasks id t stored).own_key in
      (t, stored, omega arith, ground (arith, own), ground arith)
  Executed-advances id caller env env' sound (after_grace t k w stored late registered d f) =
      let own = (sound.tasks id t stored).own_key in
      (t, stored, omega arith, ground (arith, own), ground arith)

  module _ (free : IsCollisionFree h.sha256) (id : TaskId) (n : ℕ) where
    abbrev Waits : ℕ → Storage → Type 0
    Waits l s = IsSound s × IsTracked h free s × (l < n → IsDeferred id n s)

    Change-IsDeferred :
        (l : ℕ) (s s' : Storage) → Change h l s s' → Waits l s → l < n → IsDeferred id n s'
    Change-IsDeferred l s s' (configure admin token minimum unset positive f) (sound, known, w) p =
        let (t, stored, due) = w p in (t, ground arith, due)
    Change-IsDeferred l s s' (enrol b stake fresh enough modest f) (sound, known, w) p =
        let (t, stored, due) = w p in (t, ground arith, due)
    Change-IsDeferred l s s' (appoint task b room hashed recurs rewarded found eligible f)
          (sound, known, w) p =
        let (t, stored, due) = w p in
        let fresh = next_id_is_fresh h free s l id t known stored in (t, ground (arith, fresh), due)
    Change-IsDeferred l s s' (penalise b x found staked f) (sound, known, w) p =
        let (t, stored, due) = w p in (t, ground arith, due)
    Change-IsDeferred l s s' (complete i task b x stored' now found f) (sound, known, w) p =
        let (t, stored, due) = w p in
        let own = (sound.tasks i task stored').own_key in
        (
          t,
          elim (Bool-cases (i == id)) [
            | inl same ↦
                let e : t ≡ task = ground arith in
                absurd (omega (arith, ap (λ (x : ExecutionTask). x.next_allowed_execution) e))
            | inr other ↦ ground (arith, own)
          ],
          due,
        )

    Reach-Waits :
        {env env' : Env W}
        → Reach h env env'
        → Waits env.ledger_sequence env.storage
        → Waits env'.ledger_sequence env'.storage
    Reach-Waits r w =
        Reach-keeps h Waits
          (λ l s s' c p. (
            Change-IsSound h l s s' c p.0,
            Change-IsTracked h free l s s' c p.0 p.1,
            Change-IsDeferred l s s' c p,
          ))
          (λ l m s later p. (p.0, p.1, λ q. p.2 (omega arith))) r w

  not_due :
      (id : TaskId) (caller : Address) (env : Env W) (n : ℕ)
      → IsDeferred id n env.storage
      → env.ledger_sequence < n
      → is_ok (execute_drip_split h id caller env) ≡ false
  unfolding execute_drip_split
  not_due id caller env n (t, stored, due) early = ground arith

  -- On a new contract's whole history of steps of `Step`: after a call of `execute_drip_split` that
  -- returns at ledger L, none returns for the same task before ledger L + interval, whoever calls
  -- and whatever else happens. The next window must fit a `u32`, and the hash must not collide on
  -- 8-byte inputs.
  pub once_per_interval :
      {start env env' later : Env W}
      → IsCollisionFree h.sha256
      → start.storage ≡ empty_storage
      → Reach h start env
      → (id : TaskId) (caller other : Address) (u : Unit {0}) (t : ExecutionTask)
      → env.storage.task id ≡ some t
      → execute_drip_split h id caller env ≡ ok u env'
      → env.ledger_sequence + t.execution_interval_ledgers < u32_mod
      → Reach h env' later
      → later.ledger_sequence < env.ledger_sequence + t.execution_interval_ledgers
      → is_ok (execute_drip_split h id other later) ≡ false
  unfolding advanced
  once_per_interval {env} {env'} {later} free new r id caller other u t stored e fits r' early =
      let n = env.ledger_sequence + t.execution_interval_ledgers in
      let (sound, known) = Reach-IsTracked h free new r in
      let (sound', known') = Reach-IsTracked h free new (next r (executes id caller u e)) in
      let (x, found, due, stored', same) =
        Executed-advances id caller env env' sound
          (execute_drip_split-Executed h id caller env env' e) in
      let after =
        Reach-Waits free id n r'
          (sound', known', λ p. (advanced x env.ledger_sequence, stored', ground arith)) in
      not_due id other later n (after.2 early) early
