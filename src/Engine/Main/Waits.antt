-- ===== src/Engine/Main/Waits.antt =====
-- The waits of a daemon that started, from its configuration to its loops.
use native.Mathlib.Nat.{mul-le-mul_left}
use soroban_cron.Common.{ℕ, ◌+◌, ◌*◌, ◌<◌, ◌≤◌, ◌≡◌, arith, length}
use soroban_cron.Common.Word.{u32_mod}
use soroban_cron.Engine.Errors.{Result}
use soroban_cron.Engine.Backoff.{scheduled_bounds}
use soroban_cron.Engine.Config.{Process}
use soroban_cron.Engine.Rpc.{RemoteTask}
use soroban_cron.Engine.Poller.{run}
use soroban_cron.Engine.Poller.Progress.{Answers, trailing_errors, run-backoff}
use soroban_cron.Engine.Pipeline.{ExecutionRole, Network, Machine, dispatch}
use soroban_cron.Engine.Pipeline.Deadline.{IsTimed, dispatch_ends}
use soroban_cron.Engine.Main.{Strkey, Daemon, startup}
use soroban_cron.Engine.Main.Startup.{startup-IsStarted}

module _ (process : Process) (strkey : Strkey) (d : Daemon)
    (started : startup process strkey ≡ Result.ok d) where
  -- After fewer than 2 ^ 32 answers of the node, whatever they are, the next wait of a started
  -- daemon's poller is between 1 and 60 seconds.
  pub started_poller_waits :
      (answers : Answers)
      → length answers < u32_mod
      → (1 ≤ (run answers d.poller).0.backoff) × ((run answers d.poller).0.backoff ≤ 60)
  started_poller_waits answers few =
      let s = startup-IsStarted process strkey d started in
      let (first, ordered, last) = s.valid.punctual.backoff_range in
      let bounds =
        scheduled_bounds s.config.retry_backoff_initial s.config.retry_backoff_max
          (trailing_errors 0 answers) first ordered in
      rw
        (
          s.poller,
          run-backoff s.config.retry_backoff_initial s.config.retry_backoff_max answers ordered few,
        )
        (omega (arith, bounds.0), omega (arith, bounds.1))

  -- A dispatch by a started daemon ends, whatever the node replies: if the clock advances by what
  -- requests and sleeps take, and no request takes longer than the client's timeout, within 20
  -- seconds and another 70 for each configured retry.
  pub started_dispatch_ends :
      {V N : Type 0} (net : Network V N) (clock : N → ℕ) (task : RemoteTask) (role : ExecutionRole)
      (m : Machine N)
      → IsTimed net clock (d.rpc.request_timeout * 1000)
      → clock (dispatch net d.discovery.pipeline task role m).net
        ≤ clock m.net + 20_000 + d.discovery.pipeline.max_retries * 70_000
  started_dispatch_ends net clock task role m timed =
      let s = startup-IsStarted process strkey d started in
      let (first, ordered, last) = s.valid.punctual.backoff_range in
      let limit = d.rpc.request_timeout * 1000 in
      let pipeline = d.discovery.pipeline in
      let ends =
        dispatch_ends net clock limit timed pipeline task role m
          (omega (arith, s.first_backoff, s.last_backoff)) in
      let short : limit + pipeline.retry_backoff_max * 1000 ≤ 70_000 =
        omega (arith, s.last_backoff, s.request_limit, s.valid.punctual.query_limit) in
      omega (
        arith,
        ends,
        mul-le-mul_left pipeline.max_retries short,
        s.request_limit,
        s.valid.punctual.query_limit,
      )
