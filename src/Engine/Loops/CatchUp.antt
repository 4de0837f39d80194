-- ===== src/Engine/Loops/CatchUp.antt =====
-- The discovery loop catches up with the poller, given turns.
use Prim.Native.String.{String}
use soroban_cron.Common.{
  ℕ, zero, suc, ◌<◌, ◌≤◌, ◌≡◌, ◌⊎◌, refl, sym, ap, ◌∙◌, true, false, List, [], ◌∷◌, arith, inl, inr,
  Bool-cases, length,
}
use soroban_cron.Engine.Errors.{Result}
use soroban_cron.Engine.Poller.{LedgerEvent}
use soroban_cron.Engine.Poller.Progress.{last_announced}
use soroban_cron.Engine.Pipeline.{Network}
use soroban_cron.Engine.Discovery.{TaskDiscovery, Query}
use soroban_cron.Engine.Executions.{Phase}
use soroban_cron.Engine.Channel.{Channel, IsOrdered, IsReliable, is_pending}
use soroban_cron.Engine.Loops.{Running, Turn, discovers_turn, take_turns, spawned}
use soroban_cron.Engine.Loops.Observer.{Seen, seen_next, seen_after, nothing_seen}
use soroban_cron.Engine.Loops.Invariant.{Matches, flying}
use soroban_cron.Engine.Loops.Moves.{phase_turn-Follows}
use soroban_cron.Engine.Loops.Readiness.{IsReady, is_open, receives-IsReady}
use soroban_cron.Engine.Loops.Work.{work, works-IsReady, take_turns-IsReady}
use soroban_cron.Engine.Loops.Coherence.{spawned-Matches}
use soroban_cron.Engine.Config.{Process}
use soroban_cron.Engine.Main.{Strkey, Daemon, startup}
use soroban_cron.Engine.Loops.Alone.{CatchesUp, one_more, discovers_turn-stopped}

no_events : (es : List LedgerEvent) → is_pending es ≡ false → es ≡ []
no_events [] none_left = refl
no_events (e ∷ es) none_left = ground arith

phase_cases : (p : Phase) → is_open p ≡ true → (p ≡ Phase.waiting) ⊎ (0 < work p)
phase_cases Phase.waiting h = inl refl
phase_cases (Phase.scanning l tasks) h = inr (omega arith)
phase_cases (Phase.executing l x tasks) h = inr (omega arith)
phase_cases (Phase.executed l x tasks) h = inr (omega arith)
phase_cases Phase.exited h = ground arith

module _ {V N C : Type 0} (net : Network V N) (self : TaskDiscovery) (ch : Channel C)
    (ordered : IsOrdered ch) (reliable : IsReliable ch ordered) (query : Query) where
  -- What is known before a turn of the discovery loop.
  record IsLive (m : Seen) (s : Running N C) : Type 0 where
    matches : Matches net ch ordered m s
    ready : IsReady net self ch ordered reliable query m s
    live : s.stopped ≡ false

  IsLive-turn :
      (m : Seen) (p : Phase) (s : Running N C)
      → s.phase ≡ p
      → IsLive m s
      → let (t, outcome) = discovers_turn net self ch query p s in
        IsReady net self ch ordered reliable query (seen_next m outcome) t
        → IsLive (seen_next m outcome) t
  IsLive-turn m p s e k ready = record {
    matches =
        (phase_turn-Follows net self ch ordered query m p s (sym k.matches.stops_with ∙ k.live) e
          k.matches).1;
    ready = ready;
    live = discovers_turn-stopped net self ch query p s ∙ k.live;
  }

  -- At the receive with nothing left.
  caught_up :
      (m : Seen) (s : Running N C)
      → IsLive m s
      → s.phase ≡ Phase.waiting
      → is_pending (ordered.pending s.channel) ≡ false
      → CatchesUp net self ch query m s
  unfolding take_turns
  caught_up m s k waits none_left = (
    0,
    record {
      handled = ap (last_announced m.handled) (sym (no_events _ none_left)) ∙ k.ready.newest;
      rests = k.matches.counts ∙ ap (λ (p : Phase). length (flying net p)) waits;
    },
  )

  module _ (r : ℕ)
      (rest : (m : Seen) (s : Running N C)
        → IsLive m s
        → reliable.receives_left s.channel < r
        → CatchesUp net self ch query m s) where
    -- Through the current ledger, and one receive further.
    ledger-CatchesUp :
        (w : ℕ) (m : Seen) (s : Running N C)
        → IsLive m s
        → reliable.receives_left s.channel ≤ r
        → work s.phase < w
        → CatchesUp net self ch query m s
    ledger-CatchesUp zero m s k few short = absurd (omega arith)
    ledger-CatchesUp (suc w) m s k few short = elim (phase_cases s.phase k.ready.goes_on) [
      | inr busy ↦
          let (t, outcome) = discovers_turn net self ch query s.phase s in
          let (ready, same, less) =
            works-IsReady net self ch ordered reliable query m s.phase s refl busy k.ready in
          one_more net self ch query m s.phase s refl k.live (
            ledger-CatchesUp w (seen_next m outcome) t (IsLive-turn m s.phase s refl k ready)
              (omega (arith, few, ap reliable.receives_left same)) (omega (arith, less, short)))
      | inl waits ↦ elim (Bool-cases (is_pending (ordered.pending s.channel))) [
        | inr none_left ↦ caught_up m s k waits none_left
        | inl some_left ↦
            let (t, outcome) = discovers_turn net self ch query Phase.waiting s in
            let (ready, same) =
              receives-IsReady net self ch ordered reliable query m s waits k.ready in
            one_more net self ch query m Phase.waiting s waits k.live (
              rest (seen_next m outcome) t (IsLive-turn m Phase.waiting s waits k ready) (
                omega (
                  arith,
                  few,
                  ap reliable.receives_left same,
                  (reliable.delivers s.channel some_left).0,
                )))
      ]
    ]

  catches_up :
      (r : ℕ) (m : Seen) (s : Running N C)
      → IsLive m s
      → reliable.receives_left s.channel < r
      → CatchesUp net self ch query m s
  catches_up zero m s k few = absurd (omega arith)
  catches_up (suc r) m s k few =
      ledger-CatchesUp r (catches_up r) (suc (work s.phase)) m s k (omega arith) (omega arith)

module _ {V N C : Type 0} (net : Network V N) (ch : Channel C) (ordered : IsOrdered ch)
    (reliable : IsReliable ch ordered) (process : Process) (strkey : Strkey) where
  -- A daemon that started, on a channel that is `IsOrdered` and `IsReliable` and empty: after any turns
  -- of its loops that did not stop it, some number of turns of the discovery loop alone lead to where
  -- the ledger handled last is the one that the poller announced last, and no execution runs.
  pub spawned-CatchesUp :
      (d : Daemon) (query : Query) (turns : List Turn) (n : N) (empty : C)
      (bind : ℕ → Result (Unit {0}) String)
      → startup process strkey ≡ Result.ok d
      → ordered.pending empty ≡ []
      → (take_turns net d.discovery ch query turns (spawned bind d n empty)).0.stopped ≡ false
      → let (s, outcomes) = take_turns net d.discovery ch query turns (spawned bind d n empty) in
        CatchesUp net d.discovery ch query (seen_after nothing_seen outcomes) s
  unfolding spawned
  spawned-CatchesUp d query turns n empty bind started unsent running =
      let (s, outcomes) = take_turns net d.discovery ch query turns (spawned bind d n empty) in
      let (matches, ready) =
        take_turns-IsReady net d.discovery ch ordered reliable query nothing_seen turns
          (spawned bind d n empty)
          (spawned-Matches net ch ordered process strkey d n empty bind started unsent)
          (record { goes_on = refl; newest = rw unsent refl }) in
      catches_up net d.discovery ch ordered reliable query (suc (reliable.receives_left s.channel))
        (seen_after nothing_seen outcomes) s
        (record { matches = matches; ready = ready; live = running }) (omega arith)
