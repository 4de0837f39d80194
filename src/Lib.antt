-- ===== src/Lib.antt =====
-- The Chronos Keeper Network: a Soroban contract that has recurring tasks executed by staked keepers,
-- and the daemon that a keeper runs.
--
-- The contract (the-anchor/src, records in chronos-types/src/lib.rs) keeps keepers, tasks, a treasury
-- and its configuration in ledger entries. An administrator provisions a task for a designated keeper;
-- at the task's next ledger only that keeper may execute it, in the 50 ledgers after it any other
-- registered keeper may, and the designated one is slashed by 5 %; later any registered keeper may. An
-- execution calls the task's drip list, pays a reward and moves the window on.
--   Anchor/Types      chronos-types/src/lib.rs: Keeper, ExecutionTask
--   Anchor/Errors     errors.rs: ContractError
--   Anchor/Env        storage_keys.rs as the record Storage; the call's context, results and effects
--   Anchor/Host       what is asked of other contracts and of the host: parameters of the model
--   Anchor/Events     events.rs
--   Anchor/Registry   registry.rs: register_keeper, get_keeper, is_registered, is_eligible, update_keeper
--   Anchor/Slashing   slashing.rs: apply_slash
--   Anchor/Tasks      tasks.rs: provision_task, get_task, update_task
--   Anchor/Execution  execution.rs: execute_drip_split, execute_distribution
--   Anchor/Contract   lib.rs: initialize
--   Anchor/Calls      lib.rs: the entry points' arguments and results, as data
--   Anchor/Entry      lib.rs: the contract as one function of the call; who signs, what a call touches,
--                     and histories of transactions, failing ones included
--   Anchor/System     any sequence of calls over the contract's life, as a step relation; its children
--                     are about keepers, identifiers, terms, schedules, stakes and due tasks
-- An operation is a function from the environment of the call to a value, a ContractError or a
-- trap, each of the first two with the environment that it leaves. The host drops the writes and
-- events of a call that does not return a value, so such a call is no step of Anchor/System.
-- Integers wrap as in a build without overflow checks, as in the release profile, which the
-- workspace leaves at its default. Token balances and other contracts stand behind Host; the host
-- forbids re-entry. The time to live of entries is left out.
-- The steps of Anchor/System are bounded so that no sum wraps: a registered stake times 5 fits an i128,
-- the configured minimum is positive, and fewer than 2 ^ 32 tasks are provisioned. What happens beyond
-- these bounds is in Slashing/Conservation and Execution/Overflow.
--
-- The daemon (the-engine/src) watches for ledgers, finds tasks that are due, and submits transactions.
--   Engine/Errors     errors.rs; Display has the texts
--   Engine/Backoff    the doubling wait of ledger_poller.rs and execution_pipeline.rs
--   Engine/Config     config.rs: EngineConfig::from_env; Sources and Faults say where a value comes
--                     from and what is wrong with one that is refused
--   Engine/Rpc        rpc_client.rs: what each request makes of the node's reply
--   Engine/InFlight   in_flight.rs; Workers has concurrent dispatches as a step relation
--   Engine/Poller     ledger_poller.rs: LedgerPoller::run
--   Engine/Pipeline   execution_pipeline.rs: dispatch, execute_with_retry, wait_for_confirmation
--   Engine/Discovery  task_discovery.rs and grace_monitor.rs: the receive loop, the task cache,
--                     classify_and_dispatch, evaluate; OnChain has the daemon beside the contract
--   Engine/Build      build.rs
--   Engine/Main       main.rs: derive_keypair and the parts that main builds and wires together
--   Engine/Health     health_server.rs: the handler, and HealthServer::run up to the framework; Reports
--                     reads the handler in a running daemon
--   Engine/Channel    the broadcast channel, as an interface
--   Engine/Executions dispatch and classify_and_dispatch, cut where another task can run
--   Engine/Loops      main.rs: the spawned loops, which take turns in any order until ctrl_c aborts
--                     them; Observer has what may be seen of them, and when, and Arbitration what they
--                     execute by the window table
-- The node, JSON values, the clock, signatures, the process environment and the parsers are parameters.
-- A request returns its reply and the time that it took, so a timeout is a comparison. The loop of
-- wait_for_confirmation runs on fuel: one turn for every 2 seconds of the timeout and one more, since a
-- turn that is not the last sleeps 2 seconds; its theorem shows that one turn is enough. The poller's
-- endless loop is a function of the list of answers, and the discovery loop one of what its channel
-- answers; its sleeps take no time, and the backoff is a field of its state. A Duration is in seconds.
--
-- What the loops rely on in the broadcast channel is IsOrdered (Engine/Channel): events arrive in
-- the order in which they were sent, and the oldest that wait may be lost. IsReliable adds that the
-- newest is kept and that the channel stays open, as main holds a sender; for a run of one loop
-- alone it is the relation Delivered (Discovery/Events). The loops share the ledger counter, the
-- timestamp of the last confirmation and the in-flight set, which is why Engine/Loops cuts them into
-- turns: one answer to the poller, one request to the health server (which reads all its values at once), and for the discovery loop the
-- steps between which another task sees a difference. An execution is one turn, since the in-flight
-- set and its machine are only read by the others while it runs. The clock of IsTimed
-- (Pipeline/Deadline) is what the HTTP client's timeout and the sleeps promise; no other time is
-- counted.
--
-- Anchor/Scenarios (tests/integration) and Engine/UnitTests (the test modules of in_flight.rs, errors.rs
-- and config.rs) have the repository's own tests as programs over the model; each is run.
--
-- Not modelled: log lines and the HTTP framework behind the health server.
--
-- Common has the Boolean tests, machine words, integers over the native numbers, and lists.
pub mod Common
pub mod Anchor
pub mod Engine
