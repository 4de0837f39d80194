-- ===== src/Engine/Health/Reports.antt =====
-- What the health endpoint says of a running daemon.
use soroban_cron.Common.{ℕ, ◌≡◌, refl, true, ap, ◌∙◌, List, length}
use soroban_cron.Engine.Errors.{Result}
use soroban_cron.Engine.Config.{Process}
use soroban_cron.Engine.InFlight.{len, is_empty}
use soroban_cron.Engine.Poller
use soroban_cron.Engine.Poller.{start}
use soroban_cron.Engine.Poller.Progress.{Answers, highest, run-IsCaughtUp}
use soroban_cron.Engine.Pipeline.{Network, last_confirmed_ts}
use soroban_cron.Engine.Discovery
use soroban_cron.Engine.Discovery.{Received, Query}
use soroban_cron.Engine.Discovery.Events.{run-in_flight}
use soroban_cron.Engine.Main.{Strkey, Daemon, at_start, startup}
use soroban_cron.Engine.Main.Startup.{startup-IsStarted}
use soroban_cron.Engine.Health.{health_handler, health_state}

module _ {V N : Type 0} (net : Network V N) (n : N) (process : Process) (strkey : Strkey) where
  -- A daemon that started, after any answers to its poller and any events in its discovery loop,
  -- reports the highest ledger that the node has named (0 before the first), the time that the
  -- pipeline's own accessor gives, and, between two events, no task in flight: the set is empty.
  pub health_reports :
      (d : Daemon) (answers : Answers) (query : Query) (received : List Received)
      → startup process strkey ≡ Result.ok d
      → let s = Discovery.run net d.discovery query received (at_start n) in
        let response = health_handler (health_state (Poller.run answers d.poller).0 s) in
        (response.current_ledger ≡ highest 0 answers)
        × (response.last_execution_timestamp ≡ last_confirmed_ts s.machine)
        × (response.in_flight_count ≡ 0)
        × (is_empty s.machine.in_flight ≡ true)
  unfolding health_handler health_state at_start start len is_empty last_confirmed_ts
  health_reports d answers query received started =
      let s = startup-IsStarted process strkey d started in
      let idle = run-in_flight net d.discovery query received (at_start n) in
      let first : d.poller.last_known_ledger ≡ 0 = ap (λ p. p.last_known_ledger) s.poller in
      (
        (run-IsCaughtUp answers d.poller).known ∙ ap (λ (l : ℕ). highest l answers) first,
        refl,
        ap length idle,
        ap is_empty idle,
      )
