-- ===== src/Anchor/System/Identifiers.antt =====
-- Task identifiers are unique, if the hash does not collide on the 8-byte seeds.
use soroban_cron.Common.{
  ℕ, ◌+◌, ◌<◌, ◌≡◌, ◌≢◌, sym, subst, some, none, inl, inr, List, arith, Option-cases, Bool-cases,
  All, length, ◌==◌, ◌∙◌,
}
use soroban_cron.Common.Int.{ℤ}
use soroban_cron.Common.Word.{u32_mod}
use soroban_cron.Anchor.Types.{Address, TaskId, ExecutionTask}
use soroban_cron.Anchor.Host.{Host}
use soroban_cron.Anchor.Env.{Env, Storage, ok}
use soroban_cron.Anchor.Tasks.{provision_task, task_seed}
use soroban_cron.Anchor.Tasks.Outcome.{counter, provision_task-inv}
use soroban_cron.Anchor.Execution.{advanced}
use soroban_cron.Anchor.System.{empty_storage, Reach}
use soroban_cron.Anchor.System.Changes.{
  Change, configure, enrol, appoint, penalise, complete, counted, Reach-keeps,
}
use soroban_cron.Anchor.System.Soundness.{IsSound, Change-IsSound, empty_storage-IsSound}

abbrev pub AreBytes : List ℕ → Type 0
AreBytes = All (λ b. b < 256)

-- What is asked of SHA-256: no two different inputs of 8 bytes have one hash.
abbrev pub IsCollisionFree : (List ℕ → TaskId) → Type 0
IsCollisionFree hash =
    (xs ys : List ℕ)
    → (length xs ≡ 8) × AreBytes xs
    → (length ys ≡ 8) × AreBytes ys
    → hash xs ≡ hash ys
    → xs ≡ ys

-- The seed spells the counter.
pub task_seed-counter :
    (c c' l l' : ℕ) → c < u32_mod → c' < u32_mod → task_seed c l ≡ task_seed c' l' → c ≡ c'
unfolding task_seed
task_seed-counter c c' l l' p p' e = ground arith

seed_bytes : (c l : ℕ) → (length (task_seed c l) ≡ 8) × AreBytes (task_seed c l)
unfolding task_seed
seed_bytes c l = omega arith

module _ {W : Type 0} (h : Host W) (free : IsCollisionFree h.sha256) where
  -- Every stored identifier is the hash of a seed with a counter that was used before.
  abbrev pub IsTracked : Storage → Type 0
  IsTracked s =
      (counter s < u32_mod)
      × ((i : TaskId) (t : ExecutionTask)
          → s.task i ≡ some t
          → (c : ℕ) × (l : ℕ) × (c < counter s) × (i ≡ h.sha256 (task_seed c l)))

  pub Change-IsTracked :
      (l : ℕ) (s s' : Storage) → Change h l s s' → IsSound s → IsTracked s → IsTracked s'
  unfolding advanced
  Change-IsTracked l s s' (configure admin token minimum unset positive f) sound t =
      subst IsTracked (sym f) t
  Change-IsTracked l s s' (enrol b stake fresh enough modest f) sound t = subst IsTracked (sym f) t
  Change-IsTracked l s s' (appoint task b room hashed recurs rewarded found eligible f) sound
        (small, ids) =
      let up : counter (counted s) ≡ counter s + 1 = omega arith in
      subst IsTracked (sym f) (
        omega arith,
        λ i t e. elim (Bool-cases (task.task_id == i)) [
          | inl new ↦ (counter s, l, omega arith, ground (arith, hashed))
          | inr old ↦
              let (c, m, used, hash) = ids i t (ground arith) in
              (c, m, omega (arith, up, used), hash)
        ],
      )
  Change-IsTracked l s s' (penalise b x found staked f) sound t = subst IsTracked (sym f) t
  Change-IsTracked l s s' (complete id task b x stored due found f) sound (small, ids) =
      let own = (sound.tasks id task stored).own_key in
      subst IsTracked (sym f) (
        small,
        λ i t e. elim (Bool-cases (task.task_id == i)) [
          | inl same ↦
              let (c, m, used, hash) = ids id task stored in (c, m, used, ground (arith, own))
          | inr other ↦ ids i t (ground arith)
        ],
      )

  pub Reach-IsTracked :
      {env env' : Env W}
      → env.storage ≡ empty_storage
      → Reach h env env'
      → IsSound env'.storage × IsTracked env'.storage
  Reach-IsTracked {env} new r =
      Reach-keeps h (λ l s. IsSound s × IsTracked s)
        (λ l s s' c p. (Change-IsSound h l s s' c p.0, Change-IsTracked l s s' c p.0 p.1))
        (λ l m s later p. p) r
        (subst (λ s. IsSound s × IsTracked s) (sym new)
          (empty_storage-IsSound, (omega arith, λ i t e. cc)))

  -- The next identifier is no stored one.
  pub next_id_is_fresh :
      (s : Storage) (l : ℕ) (i : TaskId) (t : ExecutionTask)
      → IsTracked s
      → s.task i ≡ some t
      → i ≢ h.sha256 (task_seed (counter s) l)
  next_id_is_fresh s l i t (small, ids) taken e =
      let (c, m, used, hash) = ids i t taken in
      let seeds =
        free (task_seed c m) (task_seed (counter s) l) (seed_bytes c m) (seed_bytes (counter s) l)
          (sym hash ∙ e) in
      absurd (omega (arith, task_seed-counter c _ m _ (omega arith) small seeds))

  -- In every state that a new contract can reach by steps of `Step`, a call of `provision_task`
  -- that returns stores its task under an identifier that no task had, so it overwrites none; the
  -- hash must not collide on 8-byte inputs.
  pub provision_task_is_fresh :
      {env env' : Env W}
      → env.storage ≡ empty_storage
      → Reach h env env'
      → (target : Address) (interval : ℕ) (reward : ℤ) (designated : Address) {id : TaskId}
        {later : Env W}
      → provision_task h target interval reward designated env' ≡ ok id later
      → env'.storage.task id ≡ none
  provision_task_is_fresh {env' = env'} new r target interval reward designated {id} {later} e =
      elim (Option-cases (env'.storage.task id)) [
        | inl unused ↦ unused
        | inr (t, taken) ↦
            let (a, same, f) =
              provision_task-inv h target interval reward designated env' id later e in
            absurd (
              next_id_is_fresh env'.storage env'.ledger_sequence id t (Reach-IsTracked new r).1
                taken same)
      ]
