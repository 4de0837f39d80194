-- ===== src/Engine/Loops/Moves.antt =====
-- The turns of the discovery loop, as the observer sees them.
use soroban_cron.Common.{
  ℕ, ◌≤◌, ◌≡◌, refl, sym, subst, ap, ◌∙◌, false, Option, none, some, List, [], ◌∷◌, ◌++◌, arith,
  inl, inr, Option-cases, length,
}
use soroban_cron.Engine.Errors.{Result-cases}
use soroban_cron.Engine.Rpc.{RemoteTask}
use soroban_cron.Engine.Poller.{LedgerEvent}
use soroban_cron.Engine.Poller.Progress.{Ascending, last_announced}
use soroban_cron.Engine.Poller.Order.{Ascending-append, last_announced-append, le-last_announced}
use soroban_cron.Engine.Pipeline.{Network, parse_task_id}
use soroban_cron.Engine.Discovery.{TaskDiscovery, Discovery, TaskCache, Received, Query, cache_all}
use soroban_cron.Engine.Executions.{Phase, choose, carries_out, releases}
use soroban_cron.Engine.Executions.Pieces.{begins_idle, carries_out-in_flight, releases_idle}
use soroban_cron.Engine.Channel.{Channel, IsOrdered, handed}
use soroban_cron.Engine.Loops.{Running, handles, takes, discovers_turn}
use soroban_cron.Engine.Loops.Observer.{Seen, Allowed}
use soroban_cron.Engine.Loops.Invariant.{flying, Matches, Follows}

module _ {V N C : Type 0} (net : Network V N) (self : TaskDiscovery) (ch : Channel C)
    (ordered : IsOrdered ch) (query : Query) where
  -- The discovery loop moves on.
  moves_on :
      (m : Seen) (busy : ℕ) (s : Running N C) (p : Phase) (d : Discovery N)
      → Matches net ch ordered m s
      → d.machine.in_flight ≡ flying net p
      → busy ≡ length (flying net p)
      → Matches net ch ordered (record m { busy = busy }) (record s { phase = p; discovery = d })
  moves_on m busy s p d k flies counts = record {
    stops_with = k.stops_with;
    knows = k.knows;
    ascends = k.ascends;
    announced_before = k.announced_before;
    flies = flies;
    counts = counts;
  }

  -- Between executions.
  idle :
      (m : Seen) (s : Running N C) (p : Phase)
      → s.phase ≡ p
      → flying net p ≡ []
      → Matches net ch ordered m s
      → (s.discovery.machine.in_flight ≡ []) × (m.busy ≡ 0)
  idle m s p e none_flying k =
      let here = ap (flying net) e ∙ none_flying in (k.flies ∙ here, k.counts ∙ ap length here)

  task_turn-Follows :
      (m : Seen) (l : ℕ) (task : RemoteTask) (tasks : List RemoteTask) (s : Running N C)
      → m.stopped ≡ false
      → s.phase ≡ Phase.scanning l (task ∷ tasks)
      → Matches net ch ordered m s
      → Follows net ch ordered m
          (discovers_turn net self ch query (Phase.scanning l (task ∷ tasks)) s)
  unfolding discovers_turn
  task_turn-Follows m l task tasks s live e k =
      let machine = s.discovery.machine in
      let (empty, resting) = idle m s (Phase.scanning l (task ∷ tasks)) e refl k in
      elim (Option-cases (choose net self task l machine)) [
        | inl skipped ↦
            rw (skipped, discovers_turn)
              (tt, moves_on m m.busy s (Phase.scanning l tasks) s.discovery k empty resting)
        | inr (x, chosen) ↦
            rw (chosen, discovers_turn, begins_idle net x l tasks machine empty)
              (
                (live, resting),
                moves_on m 1 s (Phase.executing l x tasks)
                    (record (s.discovery) {
                      machine = record machine {
                        in_flight = parse_task_id net x.task.task_id_hex ∷ [];
                      };
                    })
                    k refl refl,
              )
      ]

  module _ (m : Seen) (s : Running N C) (live : m.stopped ≡ false) (stopped : s.stopped ≡ m.stopped)
      (knows : s.poller.last_known_ledger ≡ m.known) (waits : s.phase ≡ Phase.waiting)
      (empty : s.discovery.machine.in_flight ≡ []) (resting : m.busy ≡ 0) where
    -- After ledger h, with nothing in flight.
    rests :
        (h : ℕ) (p : Phase) (cache : TaskCache)
        → flying net p ≡ []
        → Ascending h (ordered.pending s.channel)
        → last_announced h (ordered.pending s.channel) ≤ m.known
        → Matches net ch ordered
            (record m { handled = h })
            (record s { phase = p; discovery = record (s.discovery) { task_cache = cache } })
    rests h p cache still ascends before = record {
      stops_with = stopped;
      knows = knows;
      ascends = ascends;
      announced_before = before;
      flies = empty ∙ sym still;
      counts = resting ∙ sym (ap length still);
    }

    here : flying net s.phase ≡ []
    here = ap (flying net) waits

    takes-Follows :
        (answer : Option Received)
        → Ascending m.handled (handed answer ++ ordered.pending s.channel)
        → last_announced m.handled (handed answer ++ ordered.pending s.channel) ≤ m.known
        → Follows net ch ordered m (takes query answer s)
    unfolding takes
    takes-Follows none ascends before =
        (tt, rests m.handled s.phase s.discovery.task_cache here ascends before)
    takes-Follows (some (Received.lagged skipped)) ascends before =
        (tt, rests m.handled s.phase s.discovery.task_cache here ascends before)
    takes-Follows (some Received.closed) ascends before =
        (tt, rests m.handled Phase.exited s.discovery.task_cache refl ascends before)
    takes-Follows (some (Received.event (LedgerEvent.advance seq))) (up, ascends) before =
        let announced_before : seq ≤ m.known =
          omega (arith, le-last_announced seq (ordered.pending s.channel) ascends) in
        let allowed : Allowed m (handles seq) = (live, resting, up, announced_before) in
        let cache = s.discovery.task_cache in
        elim (Option-cases (query seq)) [
          | inl late ↦ rw (late, takes) (allowed, rests seq s.phase cache here ascends before)
          | inr (outcome, answered) ↦ elim (Result-cases outcome) [
            | inl (tasks, good) ↦
                rw (answered, good, takes)
                  (
                    allowed,
                    rests seq (Phase.scanning seq tasks) (cache_all tasks cache) refl ascends
                        before,
                  )
            | inr (f, bad) ↦
                rw (answered, bad, takes) (allowed, rests seq s.phase cache here ascends before)
          ]
        ]

  pub phase_turn-Follows :
      (m : Seen) (p : Phase) (s : Running N C)
      → m.stopped ≡ false
      → s.phase ≡ p
      → Matches net ch ordered m s
      → Follows net ch ordered m (discovers_turn net self ch query p s)
  unfolding discovers_turn
  phase_turn-Follows m Phase.waiting s live e k =
      let (answer, c) = ch.recv s.channel in
      let (lost, split) = ordered.receives s.channel in
      let (empty, resting) = idle m s Phase.waiting e refl k in
      let rest = handed answer ++ ordered.pending c in
      let left : Ascending m.handled (lost ++ rest) = subst (Ascending m.handled) split k.ascends in
      takes-Follows m (record s { channel = c }) live k.stops_with k.knows e empty resting answer
        (Ascending-append m.handled lost rest left)
        (omega (
          arith,
          last_announced-append m.handled lost rest left,
          ap (last_announced m.handled) split,
          k.announced_before,
        ))
  phase_turn-Follows m (Phase.scanning l []) s live e k =
      let (empty, resting) = idle m s (Phase.scanning l []) e refl k in
      (tt, moves_on m m.busy s Phase.waiting s.discovery k empty resting)
  phase_turn-Follows m (Phase.scanning l (task ∷ tasks)) s live e k =
      task_turn-Follows m l task tasks s live e k
  phase_turn-Follows m (Phase.executing l x tasks) s live e k =
      let machine = s.discovery.machine in
      (
        tt,
        moves_on m m.busy s (Phase.executed l x tasks)
            (record (s.discovery) { machine = carries_out net x machine }) k
            (carries_out-in_flight net x machine ∙ k.flies ∙ ap (flying net) e)
            (k.counts ∙ ap (λ (q : Phase). length (flying net q)) e),
      )
  phase_turn-Follows m (Phase.executed l x tasks) s live e k =
      let machine = s.discovery.machine in
      (
        (live, k.counts ∙ ap (λ (q : Phase). length (flying net q)) e),
        moves_on m 0 s (Phase.scanning l tasks)
            (record (s.discovery) { machine = releases net x machine }) k
            (releases_idle net x machine (k.flies ∙ ap (flying net) e)) refl,
      )
  phase_turn-Follows m Phase.exited s live e k = (tt, k)
