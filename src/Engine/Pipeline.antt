-- ===== src/Engine/Pipeline.antt =====
-- the-engine/src/execution_pipeline.rs: submit, confirm, retry. The node, the clock and the
-- signature are parameters. Log lines are left out; what a caller can observe is recorded as
-- `Action`s.
pub mod Confirmation
pub mod Actions
pub mod Retries
pub mod Deadline
pub mod Timestamp
pub mod Dispatch
pub mod Submission
use Prim.Native.String.{String, ◌++◌ as ◌&◌}
use mathlib.Core.Option.{get_or}
use soroban_cron.Common.{
  ℕ, zero, suc, ◌+◌, ◌-◌, ◌*◌, ◌/◌, Bool, true, false, ◌||◌, Option, none, some, List, [], ◌∷◌,
  ◌++◌, ltb, ◌==◌, if◌then◌else◌,
}
use soroban_cron.Engine.Errors.{NonTransientError, EngineError, Result}
use soroban_cron.Engine.Backoff.{next_backoff}
use soroban_cron.Engine.Rpc.{
  TxHash, TxResult, RemoteTask, Json, Reply, send_transaction, get_transaction,
}
use soroban_cron.Engine.InFlight.{InFlightSet, insert, remove}

pub data ExecutionRole : Type 0 where
  designated secondary post_grace : ExecutionRole

-- `{:?}` of a role.
unfoldable pub debug : ExecutionRole → String
debug ExecutionRole.designated = "Designated"
debug ExecutionRole.secondary = "Secondary"
debug ExecutionRole.post_grace = "PostGrace"

-- `N` is the node and the clock, `V` its JSON values.
pub record Network (V N : Type 0) : Type 0 where
  pub json : Json V
  -- One request, a method and its argument: the reply, and the milliseconds that it took.
  pub post : (method argument : String) → N → Reply V × ℕ × N
  -- `tokio::time::sleep`, in seconds.
  pub sleep : ℕ → N → N
  -- Seconds since 1970, 0 if the clock is before.
  pub unix_time : N → ℕ
  -- The Ed25519 signature of a message by a 32-byte key, in hexadecimal.
  pub sign : List ℕ → String → String
  -- `hex::decode`
  pub hex_decode : String → Option (List ℕ)

pub data Action : Type 0 where
  submitted : (envelope : String) → Action
  queried : TxHash → Action
  slept : (seconds : ℕ) → Action

pub record Machine (N : Type 0) : Type 0 where
  pub net : N
  pub actions : List Action
  pub last_confirmed_ts : ℕ
  pub in_flight : InFlightSet

pub record ExecutionPipeline : Type 0 where
  pub keeper_address : String
  pub signing_key_bytes : List ℕ
  pub anchor_contract_address : String
  pub confirmation_timeout : ℕ
  pub retry_backoff_initial : ℕ
  pub retry_backoff_max : ℕ
  pub max_retries : ℕ

-- The accessor of the pipeline: the time of the last confirmed execution, if there was one.
unfoldable pub last_confirmed_ts : {N : Type 0} → Machine N → Option ℕ
last_confirmed_ts m = if m.last_confirmed_ts == 0 then none else some m.last_confirmed_ts

-- The first 32 bytes, with zeros after the last.
unfoldable pub first_bytes : ℕ → List ℕ → ℕ → ℕ
first_bytes zero bytes acc = acc
first_bytes (suc n) [] acc = first_bytes n [] (acc * 256)
first_bytes (suc n) (b ∷ bytes) acc = first_bytes n bytes (acc * 256 + b)

unfoldable pub is_decided : TxResult → Bool
is_decided tx = tx.success || elim tx.error_detail [ none ↦ false | some detail ↦ true ]

module _ {V N : Type 0} (net : Network V N) where
  unfoldable pub parse_task_id : String → ℕ
  unfolding first_bytes
  parse_task_id hex = first_bytes 32 (get_or (net.hex_decode hex) []) 0

  unfoldable pub sleep : ℕ → Machine N → Machine N
  sleep seconds m = record m {
    net = net.sleep seconds m.net;
    actions = m.actions ++ Action.slept seconds ∷ [];
  }

  unfoldable pub submit : String → Machine N → Result TxHash EngineError × Machine N
  unfolding send_transaction
  submit envelope m =
      let (reply, took, n) = net.post "sendTransaction" envelope m.net in
      (
        send_transaction net.json reply,
        record m { net = n; actions = m.actions ++ Action.submitted envelope ∷ [] },
      )

  unfoldable pub query : TxHash → Machine N → Result TxResult EngineError × ℕ × Machine N
  unfolding get_transaction
  query hash m =
      let (reply, took, n) = net.post "getTransaction" hash m.net in
      (
        get_transaction net.json hash reply,
        took,
        record m { net = n; actions = m.actions ++ Action.queried hash ∷ [] },
      )

  -- The loop under the timeout, with the milliseconds that remain; `none` is the timeout. A turn
  -- that is not the last takes at least the 2 seconds of its sleep.
  unfoldable pub poll_confirmation :
      (fuel : ℕ)
      → TxHash
      → (remaining : ℕ) → Machine N
      → Option (Result TxResult EngineError) × Machine N
  unfolding query is_decided sleep
  poll_confirmation zero hash remaining m = (none, m)
  poll_confirmation (suc fuel) hash remaining m =
      let (answer, took, asked) = query hash m in
      let rest = poll_confirmation fuel hash (remaining - took - 2000) (sleep 2 asked) in
      if ltb remaining took then (none, asked) else elim answer [
        | Result.err e ↦ (some (Result.err e), asked)
        | Result.ok tx ↦
            if is_decided tx
            then (some (Result.ok tx), asked)
            else if ltb (remaining - took) 2000
            then (none, asked)
            else rest
      ]

  module _ (pipeline : ExecutionPipeline) where
    unfoldable pub wait_for_confirmation :
        TxHash → Machine N → Result TxResult EngineError × Machine N
    unfolding poll_confirmation
    wait_for_confirmation hash m =
        let limit = pipeline.confirmation_timeout * 1000 in
        let (outcome, later) = poll_confirmation (suc (limit / 2000)) hash limit m in
        (
          elim outcome [
            | none ↦ Result.err (
                EngineError.non_transient
                  (NonTransientError.confirmation_timeout pipeline.confirmation_timeout))
            | some inner ↦ inner
          ],
          later,
        )

    unfoldable pub build_signed_transaction : RemoteTask → ExecutionRole → String
    unfolding debug
    build_signed_transaction task role =
        let fields =
          "contract="
          & pipeline.anchor_contract_address
          & ":task="
          & task.task_id_hex
          & ":keeper="
          & pipeline.keeper_address
          & ":role="
          & debug role in
        "SIGNED:"
        & fields
        & ":sig="
        & net.sign pipeline.signing_key_bytes ("execute_drip_split:" & fields)

    -- The transaction is accepted: every outcome ends the attempts.
    unfoldable pub confirm : TxHash → Machine N → Machine N
    unfolding wait_for_confirmation
    confirm hash m =
        let (outcome, later) = wait_for_confirmation hash m in
        elim outcome [
          | Result.err e ↦ later
          | Result.ok result ↦
              if result.success
              then record later { last_confirmed_ts = net.unix_time later.net }
              else later
        ]

    -- The loop, with the attempts that are left after this one.
    unfoldable pub retry : (left backoff : ℕ) → RemoteTask → ExecutionRole → Machine N → Machine N
    unfolding submit confirm sleep next_backoff build_signed_transaction
    retry zero backoff task role m =
        let (answer, later) = submit (build_signed_transaction task role) m in
        elim answer [ Result.ok hash ↦ confirm hash later | Result.err e ↦ later ]
    retry (suc left) backoff task role m =
        let (answer, later) = submit (build_signed_transaction task role) m in
        let again =
          retry left (next_backoff pipeline.retry_backoff_max backoff) task role
            (sleep backoff later) in
        elim answer [
          | Result.ok hash ↦ confirm hash later
          | Result.err (EngineError.transient e) ↦ again
          | Result.err (EngineError.non_transient e) ↦ later
        ]

    unfoldable pub execute_with_retry : RemoteTask → ExecutionRole → Machine N → Machine N
    unfolding retry
    execute_with_retry task role m =
        retry pipeline.max_retries pipeline.retry_backoff_initial task role m

    unfoldable pub dispatch : RemoteTask → ExecutionRole → Machine N → Machine N
    unfolding insert execute_with_retry remove parse_task_id
    dispatch task role m =
        let id = parse_task_id task.task_id_hex in
        let (fresh, set) = insert id m.in_flight in
        let done = execute_with_retry task role (record m { in_flight = set }) in
        if fresh then record done { in_flight = remove id done.in_flight } else m
