-- ===== src/Anchor/System/Terms.antt =====
-- A task is found under its identifier, on its terms, as long as the contract lives.
use soroban_cron.Common.{
  ℕ, ◌+◌, ◌<◌, ◌≡◌, refl, sym, subst, some, inl, inr, arith, ◌==◌, Bool-cases,
}
use soroban_cron.Common.Int.{ℤ}
use soroban_cron.Common.Word.{u32_mod}
use soroban_cron.Anchor.Types.{Address, TaskId, ExecutionTask}
use soroban_cron.Anchor.Host.{Host}
use soroban_cron.Anchor.Env.{Env, Storage, ok}
use soroban_cron.Anchor.Tasks.{provision_task, get_task}
use soroban_cron.Anchor.Tasks.Outcome.{counter, provision_task-inv, new_task}
use soroban_cron.Anchor.Execution.{advanced}
use soroban_cron.Anchor.System.{empty_storage, Reach, next, provisions}
use soroban_cron.Anchor.System.Changes.{
  Change, configure, enrol, appoint, penalise, complete, Reach-keeps,
}
use soroban_cron.Anchor.System.Soundness.{IsSound, Change-IsSound}
use soroban_cron.Anchor.System.Identifiers.{
  IsCollisionFree, IsTracked, Change-IsTracked, Reach-IsTracked, next_id_is_fresh,
}

-- What was agreed: all but the next window.
pub record HasTerms (target : Address) (interval : ℕ) (reward : ℤ) (designated : Address)
    (id : TaskId) (t : ExecutionTask) : Type 0 where
  pub own_id : t.task_id ≡ id
  pub drip_list : t.target_drip_list ≡ target
  pub recurs : t.execution_interval_ledgers ≡ interval
  pub pays : t.micro_reward_per_run ≡ reward
  pub keeper : t.designated_keeper ≡ designated

module _ {W : Type 0} (h : Host W) (free : IsCollisionFree h.sha256) (target : Address)
    (interval : ℕ) (reward : ℤ) (designated : Address) (id : TaskId) where
  abbrev Agreed : ExecutionTask → Type 0
  Agreed = HasTerms target interval reward designated id

  abbrev IsAgreed : Storage → Type 0
  IsAgreed s = (t : ExecutionTask) × (s.task id ≡ some t) × Agreed t

  advanced-Agreed : (t : ExecutionTask) (l : ℕ) → Agreed t → Agreed (advanced t l)
  unfolding advanced
  advanced-Agreed t l a = record {
    own_id = a.own_id;
    drip_list = a.drip_list;
    recurs = a.recurs;
    pays = a.pays;
    keeper = a.keeper;
  }

  Change-IsAgreed :
      (l : ℕ) (s s' : Storage)
      → Change h l s s'
      → IsSound s
      → IsTracked h free s
      → IsAgreed s
      → IsAgreed s'
  Change-IsAgreed l s s' (configure admin token minimum unset positive f) sound known
        (t, stored, a) =
      (t, ground arith, a)
  Change-IsAgreed l s s' (enrol b stake fresh enough modest f) sound known (t, stored, a) =
      (t, ground arith, a)
  Change-IsAgreed l s s' (appoint task b room hashed recurs rewarded found eligible f) sound known
        (t, stored, a) =
      let fresh = next_id_is_fresh h free s l id t known stored in (t, ground (arith, fresh), a)
  Change-IsAgreed l s s' (penalise b x found staked f) sound known (t, stored, a) =
      (t, ground arith, a)
  Change-IsAgreed l s s' (complete i task b x stored' now found f) sound known (t, stored, a) =
      let own = (sound.tasks i task stored').own_key in
      elim (Bool-cases (i == id)) [
        | inl same ↦
            let e : t ≡ task = ground arith in
            (advanced task l, ground (arith, own), advanced-Agreed task l (subst Agreed e a))
        | inr other ↦ (t, ground (arith, own), a)
      ]

  -- Along any steps of `Step` after its provisioning on a contract that began empty, `get_task`
  -- finds a task under the identifier that `provision_task` returned, and on the terms that were
  -- given: only its next window may differ. The hash must not collide on 8-byte inputs, and fewer
  -- than 2 ^ 32 tasks be provisioned.
  pub get_task-provision_task :
      {start env env' later : Env W}
      → start.storage ≡ empty_storage
      → Reach h start env
      → counter env.storage + 1 < u32_mod
      → provision_task h target interval reward designated env ≡ ok id env'
      → Reach h env' later
      → (t : ExecutionTask) × (get_task id later ≡ ok t later) × Agreed t
  unfolding get_task
  get_task-provision_task {env} {env'} {later} new r room e r' =
      let (accepted, same, f) =
        provision_task-inv h target interval reward designated env id env' e in
      let (sound, known) =
        Reach-IsTracked h free new
          (next r (provisions target interval reward designated id room e)) in
      let (sound', known', (t, stored, a)) =
        Reach-keeps h (λ l s. IsSound s × IsTracked h free s × IsAgreed s)
          (λ l s s' c p. (
            Change-IsSound h l s s' c p.0,
            Change-IsTracked h free l s s' c p.0 p.1,
            Change-IsAgreed l s s' c p.0 p.1 p.2,
          ))
          (λ l m s later p. p) r'
          (
            sound,
            known,
            (
              new_task h target interval reward designated env,
              ground arith,
              record {
                own_id = sym same;
                drip_list = refl;
                recurs = refl;
                pays = refl;
                keeper = refl;
              },
            ),
          ) in
      (t, ground arith, a)
