-- ===== src/Engine/Loops/Refinement.antt =====
-- Whatever the order of the turns, the discovery loop does what it does alone.
use soroban_cron.Common.{
  ℕ, ◌≡◌, refl, sym, ap, ◌∙◌, Option, none, some, List, [], ◌∷◌, ◌++◌, arith, inl, inr,
  Option-cases,
}
use soroban_cron.Engine.Errors.{Result-cases}
use soroban_cron.Engine.Rpc.{RemoteTask}
use soroban_cron.Engine.Poller.{LedgerEvent, poll}
use soroban_cron.Engine.Pipeline.{Network}
use soroban_cron.Engine.Discovery.{
  TaskDiscovery, Discovery, Received, Query, dispatch_all, on_ledger_advance,
}
use soroban_cron.Engine.Discovery.Events.{each}
use soroban_cron.Engine.Executions.{Phase, choose, begins}
use soroban_cron.Engine.Executions.Pieces.{finish, dispatch-begins, classify_and_dispatch-choose}
use soroban_cron.Engine.Channel.{Channel}
use soroban_cron.Engine.Loops.{
  Running, Turn, Outcome, handles, polls_turn, asks_turn, start_of, announcement, takes,
  discovers_turn, live_turn, take_turn, take_turns,
}

-- The events that the discovery loop took up.
abbrev pub handled_in : List Outcome → List LedgerEvent
handled_in [] = []
handled_in (handles seq ∷ outcomes) = LedgerEvent.advance seq ∷ handled_in outcomes
handled_in (_ ∷ outcomes) = handled_in outcomes

module _ {V N C : Type 0} (net : Network V N) (self : TaskDiscovery) where
  -- The discovery state, once the loop is through with its current ledger.
  abbrev pub settled : Running N C → Discovery N
  settled s = record (s.discovery) { machine = finish net self s.phase s.discovery.machine }

module _ {V N C : Type 0} (net : Network V N) (self : TaskDiscovery) (ch : Channel C)
    (query : Query) where
  abbrev Keeps : Running N C × Outcome → Running N C → Type 0
  Keeps (t, outcome) s =
      settled net self t ≡ each net self query (handled_in (outcome ∷ [])) (settled net self s)

  takes-settled :
      (answer : Option Received) (s : Running N C)
      → s.phase ≡ Phase.waiting
      → Keeps (takes query answer s) s
  unfolding takes on_ledger_advance
  takes-settled none s e = refl
  takes-settled (some (Received.lagged skipped)) s e = refl
  takes-settled (some Received.closed) s e = ground arith
  takes-settled (some (Received.event (LedgerEvent.advance seq))) s e =
      elim (Option-cases (query seq)) [
        | inl late ↦ ground arith
        | inr (outcome, answered) ↦ elim (Result-cases outcome) [
          | inl (tasks, good) ↦ ground arith
          | inr (f, bad) ↦ ground arith
        ]
      ]

  start_of-handled : (p : Phase) → handled_in (start_of p ∷ []) ≡ []
  start_of-handled Phase.waiting = refl
  start_of-handled (Phase.scanning l tasks) = refl
  start_of-handled (Phase.executing l x tasks) = refl
  start_of-handled (Phase.executed l x tasks) = refl
  start_of-handled Phase.exited = refl

  task_turn :
      (l : ℕ) (task : RemoteTask) (tasks : List RemoteTask) (s : Running N C)
      → s.phase ≡ Phase.scanning l (task ∷ tasks)
      → Keeps (discovers_turn net self ch query (Phase.scanning l (task ∷ tasks)) s) s
  unfolding discovers_turn dispatch_all
  task_turn l task tasks s e =
      let m = s.discovery.machine in
      let same = classify_and_dispatch-choose net self task l m in
      elim (Option-cases (choose net self task l m)) [
        | inl skipped ↦ ground (arith, same)
        | inr (x, chosen) ↦
            let (p, later) = begins net x l tasks m in
            ground (arith, same, dispatch-begins net self x l tasks m, start_of-handled p)
      ]

  phase_turn :
      (p : Phase) (s : Running N C) → s.phase ≡ p → Keeps (discovers_turn net self ch query p s) s
  unfolding discovers_turn dispatch_all
  phase_turn Phase.waiting s e =
      let (answer, c) = ch.recv s.channel in takes-settled answer (record s { channel = c }) e
  phase_turn (Phase.scanning l []) s e = ground arith
  phase_turn (Phase.scanning l (task ∷ tasks)) s e = task_turn l task tasks s e
  phase_turn (Phase.executing l x tasks) s e = ground arith
  phase_turn (Phase.executed l x tasks) s e = ground arith
  phase_turn Phase.exited s e = refl

  announcement-handled : (e : Option LedgerEvent) → handled_in (announcement e ∷ []) ≡ []
  announcement-handled none = refl
  announcement-handled (some (LedgerEvent.advance seq)) = refl

  live_turn-settled : (turn : Turn) (s : Running N C) → Keeps (live_turn net self ch query turn s) s
  unfolding live_turn polls_turn asks_turn
  live_turn-settled (Turn.polls answer) s = rw (announcement-handled (poll answer s.poller).1) refl
  live_turn-settled Turn.discovers s = phase_turn s.phase s refl
  live_turn-settled Turn.asks s = ground arith
  live_turn-settled Turn.interrupts s = refl

  take_turn-settled : (turn : Turn) (s : Running N C) → Keeps (take_turn net self ch query turn s) s
  unfolding take_turn
  take_turn-settled turn s = ground (arith, live_turn-settled turn s)

  each-append :
      (xs ys : List LedgerEvent) (d : Discovery N)
      → each net self query (xs ++ ys) d ≡ each net self query ys (each net self query xs d)
  each-append [] ys d = refl
  each-append (LedgerEvent.advance seq ∷ xs) ys d =
      each-append xs ys (on_ledger_advance net self query seq d)

  handled_in-cons :
      (o : Outcome) (os : List Outcome) → handled_in (o ∷ os) ≡ handled_in (o ∷ []) ++ handled_in os
  handled_in-cons o os = ground arith

  -- However the poller, the discovery loop, the health server and a shutdown take turns: once the
  -- discovery loop is through with its current ledger, its state is the one that the loop alone
  -- reaches by handling, one after the other, the ledgers that it took up.
  pub take_turns-settled :
      (turns : List Turn) (s : Running N C)
      → let (last, outcomes) = take_turns net self ch query turns s in
        settled net self last ≡ each net self query (handled_in outcomes) (settled net self s)
  unfolding take_turns
  take_turns-settled [] s = refl
  take_turns-settled (turn ∷ turns) s =
      let (t, outcome) = take_turn net self ch query turn s in
      let (last, outcomes) = take_turns net self ch query turns t in
      take_turns-settled turns t
      ∙ ap (each net self query (handled_in outcomes)) (take_turn-settled turn s)
      ∙ sym (each-append (handled_in (outcome ∷ [])) (handled_in outcomes) (settled net self s))
      ∙ ap (λ (es : List LedgerEvent). each net self query es (settled net self s))
          (sym (handled_in-cons outcome outcomes))
