-- ===== src/Engine/Discovery/Cache.antt =====
-- The cache of the tasks that the queries have named.
use Prim.Native.String.{String}
use text.Mathlib.Text.{◌==◌}
use text.Mathlib.TextEquality.{eq_iff}
use soroban_cron.Common.{
  ℕ, ◌≡◌, refl, ap, sym, ◌∙◌, Option, none, some, inl, inr, List, [], ◌∷◌, ◌++◌, arith,
  if◌then◌else◌, Option-cases,
}
use soroban_cron.Engine.Errors.{EngineError, Result, Result-cases}
use soroban_cron.Engine.Poller.{LedgerEvent}
use soroban_cron.Engine.Discovery.Events.{handled}
use soroban_cron.Engine.Rpc.{RemoteTask}
use soroban_cron.Engine.Pipeline.{Network}
use soroban_cron.Engine.Discovery.{
  TaskDiscovery, TaskCache, Discovery, Query, cache_insert, cache_all, on_ledger_advance, Received,
  run,
}

abbrev pub lookup : String → TaskCache → Option RemoteTask
lookup hex [] = none
lookup hex ((k, task) ∷ cache) = if hex == k then some task else lookup hex cache

-- The last task of the list with this identifier, or the one known before.
abbrev pub latest : String → List RemoteTask → Option RemoteTask → Option RemoteTask
latest hex [] known = known
latest hex (task ∷ tasks) known =
    latest hex tasks (if hex == task.task_id_hex then some task else known)

lookup-cache_insert :
    (hex : String) (task : RemoteTask) (cache : TaskCache)
    → lookup hex (cache_insert task cache)
      ≡ (if hex == task.task_id_hex then some task else lookup hex cache)
unfolding cache_insert
lookup-cache_insert hex task [] = refl
lookup-cache_insert hex task ((k, old) ∷ cache) = ground (
  arith,
  eq_iff hex task.task_id_hex,
  eq_iff hex k,
  eq_iff task.task_id_hex k,
  lookup-cache_insert hex task cache,
)

lookup-cache_all :
    (hex : String) (tasks : List RemoteTask) (cache : TaskCache)
    → lookup hex (cache_all tasks cache) ≡ latest hex tasks (lookup hex cache)
unfolding cache_all
lookup-cache_all hex [] cache = refl
lookup-cache_all hex (task ∷ tasks) cache =
    rw (← lookup-cache_insert hex task cache) (lookup-cache_all hex tasks (cache_insert task cache))

latest-append :
    (hex : String) (xs ys : List RemoteTask) (known : Option RemoteTask)
    → latest hex (xs ++ ys) known ≡ latest hex ys (latest hex xs known)
latest-append hex [] ys known = refl
latest-append hex (x ∷ xs) ys known =
    latest-append hex xs ys (if hex == x.task_id_hex then some x else known)

-- The tasks that the queries at these events named, in order; a query that fails or is late names
-- none.
abbrev pub named_at : Option (Result (List RemoteTask) EngineError) → List RemoteTask
named_at none = []
named_at (some (Result.err e)) = []
named_at (some (Result.ok tasks)) = tasks

abbrev pub named : Query → List LedgerEvent → List RemoteTask
named query [] = []
named query (LedgerEvent.advance seq ∷ events) = named_at (query seq) ++ named query events

module _ {V N : Type 0} (net : Network V N) (self : TaskDiscovery) where
  on_ledger_advance-lookup :
      (query : Query) (ledger : ℕ) (s : Discovery N) (hex : String)
      → lookup hex (on_ledger_advance net self query ledger s).task_cache
        ≡ latest hex (named_at (query ledger)) (lookup hex s.task_cache)
  unfolding on_ledger_advance
  on_ledger_advance-lookup query ledger s hex = elim (Option-cases (query ledger)) [
    | inl late ↦ rw (late, on_ledger_advance) refl
    | inr (outcome, answered) ↦ elim (Result-cases outcome) [
      | inl (tasks, good) ↦
          rw (answered, good, on_ledger_advance) (lookup-cache_all hex tasks s.task_cache)
      | inr (e, bad) ↦ rw (answered, bad, on_ledger_advance) refl
    ]
  ]

  -- After any events, the cache has for each identifier the newest record that a query named, and
  -- else the one that it had: nothing is forgotten, by queries that fail or events that are skipped
  -- either.
  pub run-lookup :
      (query : Query) (received : List Received) (s : Discovery N) (hex : String)
      → lookup hex (run net self query received s).task_cache
        ≡ latest hex (named query (handled received)) (lookup hex s.task_cache)
  unfolding run
  run-lookup query [] s hex = refl
  run-lookup query (Received.event (LedgerEvent.advance seq) ∷ received) s hex =
      let later = on_ledger_advance net self query seq s in
      run-lookup query received later hex
      ∙ ap (latest hex (named query (handled received))) (on_ledger_advance-lookup query seq s hex)
      ∙ sym (
          latest-append hex (named_at (query seq)) (named query (handled received))
            (lookup hex s.task_cache))
  run-lookup query (Received.lagged skipped ∷ received) s hex = run-lookup query received s hex
  run-lookup query (Received.closed ∷ received) s hex = refl
