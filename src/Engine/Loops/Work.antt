-- ===== src/Engine/Loops/Work.antt =====
-- A turn of the discovery loop within a ledger leaves less to do, and no turn loses the newest ledger.
use soroban_cron.Common.{
  ℕ, ◌+◌, ◌*◌, ◌<◌, ◌≡◌, refl, sym, ap, ◌∙◌, Bool, true, false, List, [], ◌∷◌, arith, inl, inr,
  Option-cases, length, if◌then◌else◌,
}
use soroban_cron.Engine.Rpc.{RemoteTask}
use soroban_cron.Engine.Poller.Progress.{last_announced}
use soroban_cron.Engine.Pipeline.{Network, Machine}
use soroban_cron.Engine.Discovery.{TaskDiscovery, Query}
use soroban_cron.Engine.Executions.{Execution, Phase, choose, begins}
use soroban_cron.Engine.Channel.{Channel, IsOrdered, IsReliable}
use soroban_cron.Engine.Loops.{
  Running, Turn, Outcome, quiet, asks_turn, start_of, discovers_turn, live_turn, take_turn,
  take_turns,
}
use soroban_cron.Engine.Loops.Observer.{Seen, seen_next, seen_after}
use soroban_cron.Engine.Loops.Invariant.{Matches}
use soroban_cron.Engine.Loops.Coherence.{take_turn-Follows}
use soroban_cron.Engine.Loops.Readiness.{is_open, IsReady, Readies, polls-IsReady, receives-IsReady}

-- The turns that the discovery loop takes at most until it receives again.
abbrev pub work : Phase → ℕ
work Phase.waiting = 0
work (Phase.scanning l tasks) = 1 + 3 * length tasks
work (Phase.executing l x tasks) = 3 + 3 * length tasks
work (Phase.executed l x tasks) = 2 + 3 * length tasks
work Phase.exited = 0

module _ {V N C : Type 0} (net : Network V N) (self : TaskDiscovery) (ch : Channel C)
    (ordered : IsOrdered ch) (reliable : IsReliable ch ordered) (query : Query) where
  start_of-seen :
      (m : Seen) (p : Phase)
      → ((seen_next m (start_of p)).handled ≡ m.handled)
        × ((seen_next m (start_of p)).known ≡ m.known)
  start_of-seen m Phase.waiting = (refl, refl)
  start_of-seen m (Phase.scanning l tasks) = (refl, refl)
  start_of-seen m (Phase.executing l x tasks) = (refl, refl)
  start_of-seen m (Phase.executed l x tasks) = (refl, refl)
  start_of-seen m Phase.exited = (refl, refl)

  begins-work :
      (x : Execution) (l : ℕ) (tasks : List RemoteTask) (m : Machine N)
      → let p = (begins net x l tasks m).0 in (is_open p ≡ true) × (work p < 4 + 3 * length tasks)
  unfolding begins
  begins-work x l tasks m = ground arith

  -- A turn within a ledger: one step less is left.
  pub works-IsReady :
      (m : Seen) (p : Phase) (s : Running N C)
      → s.phase ≡ p
      → 0 < work p
      → IsReady net self ch ordered reliable query m s
      → let next = discovers_turn net self ch query p s in
        Readies net self ch ordered reliable query m next
        × (next.0.channel ≡ s.channel)
        × (work next.0.phase < work p)
  unfolding discovers_turn
  works-IsReady m Phase.waiting s e busy r = absurd (omega arith)
  works-IsReady m (Phase.scanning l []) s e busy r =
      (record { goes_on = refl; newest = r.newest }, refl, omega arith)
  works-IsReady m (Phase.scanning l (task ∷ tasks)) s e busy r =
      elim (Option-cases (choose net self task l s.discovery.machine)) [
        | inl skipped ↦
            rw (skipped, discovers_turn)
              (record { goes_on = refl; newest = r.newest }, refl, omega arith)
        | inr (x, chosen) ↦
            let (goes_on, less) = begins-work x l tasks s.discovery.machine in
            let p = (begins net x l tasks s.discovery.machine).0 in
            let (same, known) = start_of-seen m p in
            rw (chosen, discovers_turn)
              (
                record {
                  goes_on = goes_on;
                  newest =
                      ap (λ (h : ℕ). last_announced h (ordered.pending s.channel)) same
                      ∙ r.newest
                      ∙ sym known;
                },
                refl,
                omega (arith, less),
              )
      ]
  works-IsReady m (Phase.executing l x tasks) s e busy r =
      (record { goes_on = refl; newest = r.newest }, refl, omega arith)
  works-IsReady m (Phase.executed l x tasks) s e busy r =
      (record { goes_on = refl; newest = r.newest }, refl, omega arith)
  works-IsReady m Phase.exited s e busy r = absurd (omega arith)

  phase_turn-IsReady :
      (m : Seen) (p : Phase) (s : Running N C)
      → s.phase ≡ p
      → IsReady net self ch ordered reliable query m s
      → Readies net self ch ordered reliable query m (discovers_turn net self ch query p s)
  phase_turn-IsReady m Phase.waiting s e r =
      (receives-IsReady net self ch ordered reliable query m s e r).0
  phase_turn-IsReady m (Phase.scanning l []) s e r = (works-IsReady m _ s e (omega arith) r).0
  phase_turn-IsReady m (Phase.scanning l (task ∷ tasks)) s e r =
      (works-IsReady m _ s e (omega arith) r).0
  phase_turn-IsReady m (Phase.executing l x tasks) s e r = (works-IsReady m _ s e (omega arith) r).0
  phase_turn-IsReady m (Phase.executed l x tasks) s e r = (works-IsReady m _ s e (omega arith) r).0
  phase_turn-IsReady m Phase.exited s e r = absurd (ground (arith, e, r.goes_on))

  either-IsReady :
      (m : Seen) (b : Bool) (x y : Running N C × Outcome)
      → Readies net self ch ordered reliable query m x
      → Readies net self ch ordered reliable query m y
      → Readies net self ch ordered reliable query m (if b then x else y)
  either-IsReady m true x y p q = p
  either-IsReady m false x y p q = q

  live_turn-IsReady :
      (m : Seen) (turn : Turn) (s : Running N C)
      → Matches net ch ordered m s
      → IsReady net self ch ordered reliable query m s
      → Readies net self ch ordered reliable query m (live_turn net self ch query turn s)
  unfolding live_turn asks_turn
  live_turn-IsReady m (Turn.polls answer) s k r =
      polls-IsReady net self ch ordered reliable query m answer s k r
  live_turn-IsReady m Turn.discovers s k r = phase_turn-IsReady m s.phase s refl r
  live_turn-IsReady m Turn.asks s k r = either-IsReady m s.listening _ _ r r
  live_turn-IsReady m Turn.interrupts s k r = record { goes_on = r.goes_on; newest = r.newest }

  take_turn-IsReady :
      (m : Seen) (turn : Turn) (s : Running N C)
      → Matches net ch ordered m s
      → IsReady net self ch ordered reliable query m s
      → Readies net self ch ordered reliable query m (take_turn net self ch query turn s)
  unfolding take_turn
  take_turn-IsReady m turn s k r =
      either-IsReady m s.stopped (s, quiet) _ r (live_turn-IsReady m turn s k r)

  -- However the turns went.
  pub take_turns-IsReady :
      (m : Seen) (turns : List Turn) (s : Running N C)
      → Matches net ch ordered m s
      → IsReady net self ch ordered reliable query m s
      → let (last, outcomes) = take_turns net self ch query turns s in
        Matches net ch ordered (seen_after m outcomes) last
        × IsReady net self ch ordered reliable query (seen_after m outcomes) last
  unfolding take_turns
  take_turns-IsReady m [] s k r = (k, r)
  take_turns-IsReady m (turn ∷ turns) s k r =
      let (t, outcome) = take_turn net self ch query turn s in
      take_turns-IsReady (seen_next m outcome) turns t
        (take_turn-Follows net self ch ordered query m turn s k).1 (take_turn-IsReady m turn s k r)
