-- ===== src/Engine/Pipeline/Dispatch.antt =====
-- A dispatch and the set of the tasks in flight.
use Prim.Native.String.{String}
use soroban_cron.Engine.Backoff.{next_backoff}
use soroban_cron.Common.{
  ℕ, ◌≡◌, ap, ◌∙◌, zero, suc, refl, false, [], ◌∷◌, arith, inl, inr, ◌==◌, if◌then◌else◌,
  Bool-cases,
}
use soroban_cron.Engine.Errors.{Result-cases, Answer-cases}
use soroban_cron.Engine.Rpc.{RemoteTask, TxHash}
use soroban_cron.Engine.InFlight.{InFlightSet, contains, remove}
use soroban_cron.Engine.Pipeline.{
  ExecutionRole, Network, Machine, build_signed_transaction, ExecutionPipeline, parse_task_id,
  query, submit, sleep, confirm, retry, execute_with_retry, dispatch,
}
use soroban_cron.Engine.Pipeline.Confirmation.{wait_for_confirmation_asks_once}

remove-absent : (id : ℕ) (set : InFlightSet) → contains id set ≡ false → remove id set ≡ set
unfolding contains remove
remove-absent id [] absent = refl
remove-absent id (x ∷ set) absent = elim (Bool-cases (id == x)) [
  | inl same ↦ ground arith
  | inr other ↦ ground (arith, remove-absent id set (ground arith))
]

pub remove-insert :
    (id : ℕ) (set : InFlightSet) → contains id set ≡ false → remove id (id ∷ set) ≡ set
unfolding remove
remove-insert id set absent = ground (arith, remove-absent id set absent)

module _ {V N : Type 0} (net : Network V N) (pipeline : ExecutionPipeline) (task : RemoteTask)
    (role : ExecutionRole) where
  query-in_flight : (hash : TxHash) (m : Machine N) → (query net hash m).2.in_flight ≡ m.in_flight
  unfolding query
  query-in_flight hash m = refl

  abbrev envelope : String
  envelope = build_signed_transaction net pipeline task role

  submit-in_flight : (m : Machine N) → (submit net envelope m).1.in_flight ≡ m.in_flight
  unfolding submit
  submit-in_flight m = refl

  sleep-in_flight : (seconds : ℕ) (m : Machine N) → (sleep net seconds m).in_flight ≡ m.in_flight
  unfolding sleep
  sleep-in_flight seconds m = refl

  confirm-in_flight :
      (hash : TxHash) (m : Machine N) → (confirm net pipeline hash m).in_flight ≡ m.in_flight
  unfolding confirm
  confirm-in_flight hash m = ground (
    arith,
    ap (λ r. r.1.in_flight) (wait_for_confirmation_asks_once net pipeline hash m),
    query-in_flight hash m,
  )

  retry-in_flight :
      (left backoff : ℕ) (m : Machine N)
      → (retry net pipeline left backoff task role m).in_flight ≡ m.in_flight
  unfolding retry
  retry-in_flight zero backoff m =
      let later = (submit net envelope m).1 in
      elim (Result-cases (submit net envelope m).0) [
        | inl (hash, e) ↦ ground (arith, submit-in_flight m, confirm-in_flight hash later)
        | inr (f, e) ↦ ground (arith, submit-in_flight m)
      ]
  retry-in_flight (suc left) backoff m =
      let later = (submit net envelope m).1 in
      elim (Answer-cases (submit net envelope m).0) [
        | inl (hash, e) ↦ ground (arith, submit-in_flight m, confirm-in_flight hash later)
        | inr (inl (f, e)) ↦ ground (
          arith,
          submit-in_flight m,
          sleep-in_flight backoff later,
          retry-in_flight left (next_backoff pipeline.retry_backoff_max backoff)
              (sleep net backoff later),
        )
        | inr (inr (f, e)) ↦ ground (arith, submit-in_flight m)
      ]

  pub execute_with_retry-in_flight :
      (m : Machine N) → (execute_with_retry net pipeline task role m).in_flight ≡ m.in_flight
  unfolding execute_with_retry
  execute_with_retry-in_flight m =
      retry-in_flight pipeline.max_retries pipeline.retry_backoff_initial m

  abbrev id : ℕ
  id = parse_task_id net task.task_id_hex

  abbrev executed : Machine N → Machine N
  executed m = execute_with_retry net pipeline task role (record m { in_flight = id ∷ m.in_flight })

  released :
      (m : Machine N)
      → contains id m.in_flight ≡ false
      → remove id (executed m).in_flight ≡ m.in_flight
  released m absent =
      ap (remove id) (execute_with_retry-in_flight (record m { in_flight = id ∷ m.in_flight }))
      ∙ remove-insert id m.in_flight absent

  -- A dispatch of a task in flight does nothing at all; any other executes it with its identifier
  -- in the set, and leaves the set as it was, however the execution ends.
  pub dispatch_outcome :
      (m : Machine N)
      → dispatch net pipeline task role m ≡ (
          if contains id m.in_flight
          then m
          else record (execute_with_retry net pipeline task role
              (record m { in_flight = id ∷ m.in_flight })) { in_flight = m.in_flight })
  unfolding dispatch
  dispatch_outcome m = elim (Bool-cases (contains id m.in_flight)) [
    | inl flying ↦ ground arith
    | inr fresh ↦
        rw fresh
          (ap (λ (set : InFlightSet). record (executed m) { in_flight = set }) (released m fresh))
  ]
