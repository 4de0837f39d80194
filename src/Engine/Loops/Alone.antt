-- ===== src/Engine/Loops/Alone.antt =====
-- Turns of the discovery loop alone, and where they lead.
use soroban_cron.Common.{
  ℕ, zero, suc, ◌≡◌, if◌then◌else◌, subst, refl, sym, ap, ◌∙◌, Bool, true, false, Option, none,
  some, List, [], ◌∷◌, arith,
}
use soroban_cron.Engine.Poller.{LedgerEvent}
use soroban_cron.Engine.Pipeline.{Network}
use soroban_cron.Engine.Discovery.{TaskDiscovery, Received, Query}
use soroban_cron.Engine.Executions.{Phase}
use soroban_cron.Engine.Channel.{Channel}
use soroban_cron.Engine.Loops.{
  Running, Turn, Outcome, takes, discovers_turn, live_turn, take_turn, take_turns,
}
use soroban_cron.Engine.Loops.Observer.{Seen, seen_next, seen_after}

-- The ledger announced last is handled, and nothing runs.
pub record HasCaughtUp (m : Seen) : Type 0 where
  pub handled : m.handled ≡ m.known
  pub rests : m.busy ≡ 0

-- Turns of the discovery loop alone.
abbrev pub again : ℕ → List Turn
again zero = []
again (suc n) = Turn.discovers ∷ again n

otherwise : {A : Type 0} (b : Bool) (x y : A) → b ≡ false → (if b then x else y) ≡ y
otherwise true x y h = ground arith
otherwise false x y h = refl

module _ {V N C : Type 0} (net : Network V N) (self : TaskDiscovery) (ch : Channel C)
    (query : Query) where
  abbrev pub CatchesUp : Seen → Running N C → Type 0
  CatchesUp m s = (n : ℕ) × HasCaughtUp (seen_after m (take_turns net self ch query (again n) s).1)

  take_turn-live :
      (s : Running N C)
      → s.stopped ≡ false
      → take_turn net self ch query Turn.discovers s ≡ discovers_turn net self ch query s.phase s
  unfolding take_turn live_turn
  take_turn-live s live = otherwise s.stopped _ _ live

  -- One turn more.
  pub one_more :
      (m : Seen) (p : Phase) (s : Running N C)
      → s.phase ≡ p
      → s.stopped ≡ false
      → let (t, outcome) = discovers_turn net self ch query p s in
        CatchesUp (seen_next m outcome) t → CatchesUp m s
  unfolding take_turns
  one_more m p s e live (n, caught_up) = (
    suc n,
    subst
        (λ (q : Running N C × Outcome).
          HasCaughtUp (seen_after (seen_next m q.1) (take_turns net self ch query (again n) q.0).1))
        (sym (take_turn-live s live ∙ ap (λ (q : Phase). discovers_turn net self ch query q s) e))
        caught_up,
  )

  takes-stopped :
      (answer : Option Received) (s : Running N C) → (takes query answer s).0.stopped ≡ s.stopped
  unfolding takes
  takes-stopped none s = refl
  takes-stopped (some (Received.lagged skipped)) s = refl
  takes-stopped (some Received.closed) s = refl
  takes-stopped (some (Received.event (LedgerEvent.advance seq))) s = ground arith

  pub discovers_turn-stopped :
      (p : Phase) (s : Running N C) → (discovers_turn net self ch query p s).0.stopped ≡ s.stopped
  unfolding discovers_turn
  discovers_turn-stopped Phase.waiting s =
      let (answer, c) = ch.recv s.channel in takes-stopped answer (record s { channel = c })
  discovers_turn-stopped (Phase.scanning l []) s = refl
  discovers_turn-stopped (Phase.scanning l (task ∷ tasks)) s = ground arith
  discovers_turn-stopped (Phase.executing l x tasks) s = refl
  discovers_turn-stopped (Phase.executed l x tasks) s = refl
  discovers_turn-stopped Phase.exited s = refl
