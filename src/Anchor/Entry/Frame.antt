-- ===== src/Anchor/Entry/Frame.antt =====
-- What an execution leaves alone.
use soroban_cron.Common.{ℕ, ◌≡◌, ◌≢◌, refl, sym, ap, subst, some, arith}
use soroban_cron.Anchor.Types.{Address, TaskId, Keeper, ExecutionTask}
use soroban_cron.Anchor.Host.{Host}
use soroban_cron.Anchor.Env.{Env, Storage, ok}
use soroban_cron.Anchor.Execution.{execute_drip_split, advanced}
use soroban_cron.Anchor.Execution.Refinement.{
  Executed, by_designated, by_secondary, after_grace, execute_drip_split-Executed,
}
use soroban_cron.Anchor.Slashing.Outcome.{slashed_storage}
use soroban_cron.Anchor.System.Changes.{executed_storage}
use soroban_cron.Anchor.System.Soundness.{IsSound, slashed_storage-IsSound}

-- Nothing but the task, its two keepers and the treasury differs.
pub record Untouched (id : TaskId) (t : ExecutionTask) (caller : Address) (s s' : Storage)
    : Type 0 where
  pub tasks : (j : TaskId) → j ≢ id → s'.task j ≡ s.task j
  pub keepers : (a : Address) → a ≢ caller → a ≢ t.designated_keeper → s'.keeper a ≡ s.keeper a
  pub terms : (next : ℕ) × (s'.task id ≡ some (record t { next_allowed_execution = next }))
  pub configuration :
      (s'.admin ≡ s.admin)
      × (s'.native_token ≡ s.native_token)
      × (s'.min_keeper_stake ≡ s.min_keeper_stake)
      × (s'.task_counter ≡ s.task_counter)

executed-Untouched :
    (id : TaskId) (caller : Address) (s m : Storage) (t : ExecutionTask) (k : Keeper) (l : ℕ)
    → t.task_id ≡ id
    → k.address ≡ caller
    → Untouched id t caller s m
    → Untouched id t caller s (executed_storage t k l m)
unfolding advanced
executed-Untouched id caller s m t k l own_task own_key u = record {
  tasks = λ j other. ground (arith, u.tasks j other);
  keepers = λ a away from. ground (arith, u.keepers a away from);
  terms = ((advanced t l).next_allowed_execution, ground arith);
  configuration = u.configuration;
}

slashed-Untouched :
    (id : TaskId) (caller : Address) (s : Storage) (t : ExecutionTask) (x : Keeper)
    → s.task id ≡ some t
    → x.address ≡ t.designated_keeper
    → Untouched id t caller s (slashed_storage x s)
slashed-Untouched id caller s t x stored own_key = record {
  tasks = λ j other. refl;
  keepers = λ a away from. ground arith;
  terms = (t.next_allowed_execution, stored);
  configuration = (refl, refl, refl, refl);
}

same-Untouched :
    (id : TaskId) (caller : Address) (s : Storage) (t : ExecutionTask)
    → s.task id ≡ some t
    → Untouched id t caller s s
same-Untouched id caller s t stored = record {
  tasks = λ j other. refl;
  keepers = λ a away from. refl;
  terms = (t.next_allowed_execution, stored);
  configuration = (refl, refl, refl, refl);
}

module _ {W : Type 0} (h : Host W) where
  -- The last write of an execution of `task`, which is the stored task `t`.
  finished :
      (id : TaskId) (caller : Address) (env env' : Env W) (m : Storage) (t task : ExecutionTask)
      (k : Keeper)
      → IsSound env.storage
      → IsSound m
      → env.storage.task id ≡ some t
      → env.storage.task id ≡ some task
      → m.keeper caller ≡ some k
      → env'.storage ≡ executed_storage task k env.ledger_sequence m
      → Untouched id task caller env.storage m
      → Untouched id t caller env.storage env'.storage
  finished id caller env env' m t task k sound later stored stored' found last u =
      let same : task ≡ t = ground arith in
      subst (λ x. Untouched id x caller env.storage env'.storage) same
        (subst (Untouched id task caller env.storage) (sym last) (
          executed-Untouched id caller env.storage m task k env.ledger_sequence
            (sound.tasks id task stored').own_key (later.keepers caller k found).own_key u))

  Executed-Untouched :
      (id : TaskId) (caller : Address) (env env' : Env W) (t : ExecutionTask)
      → IsSound env.storage
      → env.storage.task id ≡ some t
      → Executed h id caller env env'
      → Untouched id t caller env.storage env'.storage
  Executed-Untouched id caller env env' t sound stored
        (by_designated task k w stored' now own d f) =
      finished id caller env env' env.storage t task k sound sound stored stored' d.found
        (ap (λ x. x.storage) f) (same-Untouched id caller env.storage task stored')
  Executed-Untouched id caller env env' t sound stored
        (by_secondary task x k w stored' late early g f) =
      finished id caller env env' (slashed_storage x env.storage) t task k sound
        (slashed_storage-IsSound env.storage task.designated_keeper x g.found sound) stored stored'
        g.distributed.found (ap (λ y. y.storage) f)
        (slashed-Untouched id caller env.storage task x stored'
          (sound.keepers task.designated_keeper x g.found).own_key)
  Executed-Untouched id caller env env' t sound stored
        (after_grace task k w stored' late registered d f) =
      finished id caller env env' env.storage t task k sound sound stored stored' d.found
        (ap (λ x. x.storage) f) (same-Untouched id caller env.storage task stored')

  -- From a sound state, an execution changes no other task, no keeper but the caller and the task's
  -- designated one, none of the task's terms but its next window, and none of the configuration.
  pub execute_drip_split-Untouched :
      (id : TaskId) (caller : Address) (env env' : Env W) (u : Unit {0}) (t : ExecutionTask)
      → IsSound env.storage
      → env.storage.task id ≡ some t
      → execute_drip_split h id caller env ≡ ok u env'
      → Untouched id t caller env.storage env'.storage
  execute_drip_split-Untouched id caller env env' u t sound stored e =
      Executed-Untouched id caller env env' t sound stored
        (execute_drip_split-Executed h id caller env env' e)
