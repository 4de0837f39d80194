-- ===== src/Engine/Loops/Readiness.antt =====
-- What was announced last is what the discovery loop handled last, or still waits in the channel.
use soroban_cron.Common.{
  ℕ, ◌≡◌, refl, sym, ap, ◌∙◌, Bool, true, false, Option, none, some, List, [], ◌∷◌, ◌++◌, arith,
  inl, inr, Option-cases,
}
use soroban_cron.Engine.Errors.{TransientError, Result, Result-cases}
use soroban_cron.Engine.Poller.{LedgerEvent}
use soroban_cron.Engine.Poller.Progress.{last_announced}
use soroban_cron.Engine.Poller.Order.{Ascending-snoc, last_announced-rest}
use soroban_cron.Engine.Pipeline.{Network}
use soroban_cron.Engine.Discovery.{TaskDiscovery, Received, Query}
use soroban_cron.Engine.Executions.{Phase}
use soroban_cron.Engine.Channel.{Channel, IsOrdered, IsReliable, handed, is_closed, is_pending}
use soroban_cron.Engine.Loops.{Running, Outcome, polls_turn, takes, discovers_turn}
use soroban_cron.Engine.Loops.Observer.{Seen, seen_next}
use soroban_cron.Engine.Loops.Invariant.{Matches, poll-cases}

abbrev pub is_open : Phase → Bool
is_open Phase.exited = false
is_open _ = true

-- The newest event outlives the loss of older ones.
last_announced-pending :
    (h : ℕ) (es lost rest : List LedgerEvent)
    → es ≡ lost ++ rest
    → (is_pending es ≡ true → is_pending rest ≡ true)
    → last_announced h rest ≡ last_announced h es
last_announced-pending h es lost (e ∷ rest) split kept =
    sym (last_announced-rest h lost e rest) ∙ ap (last_announced h) (sym split)
last_announced-pending h [] lost [] split kept = refl
last_announced-pending h (e ∷ es) lost [] split kept = ground (arith, kept refl)

module _ {V N C : Type 0} (net : Network V N) (self : TaskDiscovery) (ch : Channel C)
    (ordered : IsOrdered ch) (reliable : IsReliable ch ordered) (query : Query) where
  -- The discovery loop runs, and has seen or will see the ledger announced last.
  pub record IsReady (m : Seen) (s : Running N C) : Type 0 where
    pub goes_on : is_open s.phase ≡ true
    pub newest : last_announced m.handled (ordered.pending s.channel) ≡ m.known

  abbrev pub Readies : Seen → Running N C × Outcome → Type 0
  Readies m (t, outcome) = IsReady (seen_next m outcome) t

  pub polls-IsReady :
      (m : Seen) (answer : Result ℕ TransientError) (s : Running N C)
      → Matches net ch ordered m s
      → IsReady m s
      → Readies m (polls_turn ch answer s)
  unfolding polls_turn
  polls-IsReady m answer s k r = elim (poll-cases answer s.poller) [
    | inl (silent, same) ↦ rw silent (record { goes_on = r.goes_on; newest = r.newest })
    | inr (seq, said, up, now) ↦
        let e = LedgerEvent.advance seq in
        let (lost, split) = ordered.sends e s.channel in
        let (ascending, last) =
          Ascending-snoc m.handled seq (ordered.pending s.channel) k.ascends
            (omega (arith, k.announced_before, k.knows)) in
        rw said (record {
          goes_on = r.goes_on;
          newest =
              last_announced-pending m.handled _ lost (ordered.pending (ch.send e s.channel)) split
                (λ h. reliable.keeps_newest e s.channel)
              ∙ last;
        })
  ]

  takes-IsReady :
      (m : Seen) (answer : Option Received) (s : Running N C)
      → is_closed answer ≡ false
      → is_open s.phase ≡ true
      → last_announced m.handled (handed answer ++ ordered.pending s.channel) ≡ m.known
      → Readies m (takes query answer s) × ((takes query answer s).0.channel ≡ s.channel)
  unfolding takes
  takes-IsReady m none s closed goes_on newest =
      (record { goes_on = goes_on; newest = newest }, refl)
  takes-IsReady m (some (Received.lagged skipped)) s closed goes_on newest =
      (record { goes_on = goes_on; newest = newest }, refl)
  takes-IsReady m (some Received.closed) s closed goes_on newest = ground arith
  takes-IsReady m (some (Received.event (LedgerEvent.advance seq))) s closed goes_on newest =
      elim (Option-cases (query seq)) [
        | inl late ↦ rw (late, takes) (record { goes_on = goes_on; newest = newest }, refl)
        | inr (outcome, answered) ↦ elim (Result-cases outcome) [
          | inl (tasks, good) ↦
              rw (answered, good, takes) (record { goes_on = refl; newest = newest }, refl)
          | inr (f, bad) ↦
              rw (answered, bad, takes) (record { goes_on = goes_on; newest = newest }, refl)
        ]
      ]

  pub receives-IsReady :
      (m : Seen) (s : Running N C)
      → s.phase ≡ Phase.waiting
      → IsReady m s
      → let next = discovers_turn net self ch query Phase.waiting s in
        Readies m next × (next.0.channel ≡ (ch.recv s.channel).1)
  unfolding discovers_turn
  receives-IsReady m s waits r =
      let (answer, c) = ch.recv s.channel in
      let (lost, split) = ordered.receives s.channel in
      takes-IsReady m answer (record s { channel = c }) (reliable.stays_open s.channel) r.goes_on
        (last_announced-pending m.handled (ordered.pending s.channel) lost
            (handed answer ++ ordered.pending c) split (λ h. (reliable.delivers s.channel h).1)
          ∙ r.newest)
