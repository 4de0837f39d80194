-- ===== src/Engine/Loops/Coherence.antt =====
-- In any order of their turns, the daemon's loops show a coherent picture.
use Prim.Native.String.{String}
use soroban_cron.Common.{ℕ, ◌≡◌, refl, sym, ap, ◌∙◌, false, List, [], ◌∷◌, arith}
use soroban_cron.Engine.Errors.{Result}
use soroban_cron.Engine.Poller.{LedgerPoller, start}
use soroban_cron.Engine.Pipeline.{Network}
use soroban_cron.Engine.Discovery.{TaskDiscovery, Query}
use soroban_cron.Engine.Channel.{Channel, IsOrdered}
use soroban_cron.Engine.Loops.{Running, Turn, quiet, live_turn, take_turn, take_turns, spawned}
use soroban_cron.Engine.Config.{Process}
use soroban_cron.Engine.Main.{Strkey, Daemon, startup}
use soroban_cron.Engine.Main.Startup.{startup-IsStarted}
use soroban_cron.Engine.Loops.Observer.{Seen, seen_next, AreAllowed, nothing_seen}
use soroban_cron.Engine.Loops.Invariant.{
  Matches, Follows, polls-Follows, asks-Follows, either-Follows,
}
use soroban_cron.Engine.Loops.Moves.{phase_turn-Follows}

module _ {V N C : Type 0} (net : Network V N) (self : TaskDiscovery) (ch : Channel C)
    (ordered : IsOrdered ch) (query : Query) where
  live_turn-Follows :
      (m : Seen) (turn : Turn) (s : Running N C)
      → m.stopped ≡ false
      → Matches net ch ordered m s
      → Follows net ch ordered m (live_turn net self ch query turn s)
  unfolding live_turn
  live_turn-Follows m (Turn.polls answer) s live k = polls-Follows net ch ordered m answer s live k
  live_turn-Follows m Turn.discovers s live k =
      phase_turn-Follows net self ch ordered query m s.phase s live refl k
  live_turn-Follows m Turn.asks s live k = asks-Follows net ch ordered m s live k
  live_turn-Follows m Turn.interrupts s live k = (
    live,
    record {
      stops_with = refl;
      knows = k.knows;
      ascends = k.ascends;
      announced_before = k.announced_before;
      flies = k.flies;
      counts = k.counts;
    },
  )

  pub take_turn-Follows :
      (m : Seen) (turn : Turn) (s : Running N C)
      → Matches net ch ordered m s
      → Follows net ch ordered m (take_turn net self ch query turn s)
  unfolding take_turn
  take_turn-Follows m turn s k =
      either-Follows net ch ordered m s.stopped (s, quiet) (live_turn net self ch query turn s)
        (λ e. (tt, k)) (λ e. live_turn-Follows m turn s (sym k.stops_with ∙ e) k)

  take_turns-AreAllowed :
      (m : Seen) (turns : List Turn) (s : Running N C)
      → Matches net ch ordered m s
      → AreAllowed m (take_turns net self ch query turns s).1
  unfolding take_turns
  take_turns-AreAllowed m [] s k = tt
  take_turns-AreAllowed m (turn ∷ turns) s k =
      let (t, outcome) = take_turn net self ch query turn s in
      let (allowed, after) = take_turn-Follows m turn s k in
      (allowed, take_turns-AreAllowed (seen_next m outcome) turns t after)

module _ {V N C : Type 0} (net : Network V N) (ch : Channel C) (ordered : IsOrdered ch)
    (process : Process) (strkey : Strkey) where
  pub spawned-Matches :
      (d : Daemon) (n : N) (empty : C) (bind : ℕ → Result (Unit {0}) String)
      → startup process strkey ≡ Result.ok d
      → ordered.pending empty ≡ []
      → Matches net ch ordered nothing_seen (spawned bind d n empty)
  unfolding spawned start
  spawned-Matches d n empty bind started unsent =
      let s = startup-IsStarted process strkey d started in
      record {
        stops_with = refl;
        knows = ap (λ (p : LedgerPoller). p.last_known_ledger) s.poller;
        ascends = rw unsent tt;
        announced_before = rw unsent (omega arith);
        flies = refl;
        counts = refl;
      }

  -- A daemon that started, on a channel that is `IsOrdered` and empty: however the poller, the
  -- discovery loop, the health server and a shutdown take turns, and whatever the node and the queries
  -- answer, all that is seen is `Allowed`. Announcements ascend; each ledger is handled at most once,
  -- in ascending order, after its announcement and with no execution running; at most one execution
  -- runs at a time; the health endpoint reports the ledger announced last and the number of running
  -- executions; after the shutdown nothing happens.
  pub spawned-AreAllowed :
      (d : Daemon) (query : Query) (turns : List Turn) (n : N) (empty : C)
      (bind : ℕ → Result (Unit {0}) String)
      → startup process strkey ≡ Result.ok d
      → ordered.pending empty ≡ []
      → AreAllowed nothing_seen
          (take_turns net d.discovery ch query turns (spawned bind d n empty)).1
  spawned-AreAllowed d query turns n empty bind started unsent =
      take_turns-AreAllowed net d.discovery ch ordered query nothing_seen turns
        (spawned bind d n empty) (spawned-Matches d n empty bind started unsent)
