-- ===== src/Engine/Pipeline/Deadline.antt =====
-- How long one dispatch may take.
use Prim.Native.String.{String}
use soroban_cron.Common.{ℕ, zero, suc, ◌+◌, ◌*◌, ◌≤◌, ◌≡◌, arith, inl, inr, ap, ◌∷◌, Bool-cases}
use soroban_cron.Engine.Errors.{Result-cases, Answer-cases}
use soroban_cron.Engine.Backoff.{next_backoff, next_backoff-le}
use soroban_cron.Engine.Rpc.{TxHash, RemoteTask}
use soroban_cron.Engine.InFlight.{contains}
use soroban_cron.Engine.Pipeline.{
  ExecutionRole, Network, Machine, ExecutionPipeline, submit, query, sleep, confirm, parse_task_id,
  build_signed_transaction, retry, execute_with_retry, dispatch,
}
use soroban_cron.Engine.Pipeline.Confirmation.{wait_for_confirmation_asks_once}
use soroban_cron.Engine.Pipeline.Dispatch.{dispatch_outcome}

-- What is asked of the clock, in milliseconds: a request advances it by what the request took, which
-- the HTTP client's timeout limits, and a sleep by the time slept.
pub record IsTimed {V N : Type 0} (net : Network V N) (clock : N → ℕ) (limit : ℕ) : Type 0 where
  pub posted :
      (method argument : String) (n : N)
      → let (reply, took, later) = net.post method argument n in clock later ≡ clock n + took
  pub limited :
      (method argument : String) (n : N)
      → let (reply, took, later) = net.post method argument n in took ≤ limit
  pub slept : (seconds : ℕ) (n : N) → clock (net.sleep seconds n) ≡ clock n + seconds * 1000

module _ {V N : Type 0} (net : Network V N) (clock : N → ℕ) (limit : ℕ)
    (timed : IsTimed net clock limit) (pipeline : ExecutionPipeline) (task : RemoteTask)
    (role : ExecutionRole) where
  abbrev at : Machine N → ℕ
  at m = clock m.net

  query-time : (hash : TxHash) (m : Machine N) → at (query net hash m).2 ≤ at m + limit
  unfolding query
  query-time hash m =
      omega
        (arith, timed.posted "getTransaction" hash m.net, timed.limited "getTransaction" hash m.net)

  confirm-time : (hash : TxHash) (m : Machine N) → at (confirm net pipeline hash m) ≤ at m + limit
  unfolding confirm
  confirm-time hash m = ground (
    arith,
    ap (λ r. at r.1) (wait_for_confirmation_asks_once net pipeline hash m),
    query-time hash m,
  )

  submit-time : (envelope : String) (m : Machine N) → at (submit net envelope m).1 ≤ at m + limit
  unfolding submit
  submit-time envelope m = omega (
    arith,
    timed.posted "sendTransaction" envelope m.net,
    timed.limited "sendTransaction" envelope m.net,
  )

  sleep-time : (seconds : ℕ) (m : Machine N) → at (sleep net seconds m) ≡ at m + seconds * 1000
  unfolding sleep
  sleep-time seconds m = timed.slept seconds m.net

  -- What each further attempt may add.
  abbrev round : ℕ
  round = limit + pipeline.retry_backoff_max * 1000

  retry-time :
      (left backoff : ℕ) (m : Machine N)
      → backoff ≤ pipeline.retry_backoff_max
      → at (retry net pipeline left backoff task role m) ≤ at m + left * round + limit * 2
  unfolding retry
  retry-time zero backoff m short =
      let envelope = build_signed_transaction net pipeline task role in
      let later = (submit net envelope m).1 in
      let s = submit-time envelope m in
      elim (Result-cases (submit net envelope m).0) [
        | inl (hash, e) ↦ ground (arith, s, confirm-time hash later)
        | inr (f, e) ↦ ground (arith, s)
      ]
  retry-time (suc left) backoff m short =
      let envelope = build_signed_transaction net pipeline task role in
      let max = pipeline.retry_backoff_max in
      let later = (submit net envelope m).1 in
      let s = submit-time envelope m in
      elim (Answer-cases (submit net envelope m).0) [
        | inl (hash, e) ↦ ground (arith, s, confirm-time hash later)
        | inr (inl (f, e)) ↦ ground (
          arith,
          s,
          sleep-time backoff later,
          retry-time left (next_backoff max backoff) (sleep net backoff later)
              (next_backoff-le max backoff),
        )
        | inr (inr (f, e)) ↦ ground (arith, s)
      ]

  -- If the initial backoff is at most the maximum, a dispatch ends, whatever the node replies: after
  -- at most two request limits, and one limit and one maximal backoff for each configured retry.
  pub dispatch_ends :
      (m : Machine N)
      → pipeline.retry_backoff_initial ≤ pipeline.retry_backoff_max
      → at (dispatch net pipeline task role m) ≤ at m + pipeline.max_retries * round + limit * 2
  unfolding execute_with_retry
  dispatch_ends m ordered =
      let id = parse_task_id net task.task_id_hex in
      let executed =
        retry-time pipeline.max_retries pipeline.retry_backoff_initial
          (record m { in_flight = id ∷ m.in_flight }) ordered in
      elim (Bool-cases (contains id m.in_flight)) [
        | inl flying ↦ ground (arith, dispatch_outcome net pipeline task role m)
        | inr fresh ↦
            ground (arith, ap (λ x. at x) (dispatch_outcome net pipeline task role m), executed)
      ]
