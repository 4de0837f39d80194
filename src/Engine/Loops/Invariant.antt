-- ===== src/Engine/Loops/Invariant.antt =====
-- What the observer's knowledge says of the state, and the turns of the poller and the health server.
use soroban_cron.Common.{
  ℕ, ◌<◌, ◌≤◌, ◌≡◌, ◌⊎◌, refl, sym, subst, ap, ◌∙◌, Bool, true, false, none, some, [], ◌∷◌, ◌++◌,
  arith, inl, inr, Bool-cases, length, ltb, if◌then◌else◌,
}
use soroban_cron.Engine.Errors.{TransientError, Result}
use soroban_cron.Engine.InFlight.{InFlightSet, len}
use soroban_cron.Engine.Poller.{LedgerEvent, LedgerPoller, restored, backed_off, poll}
use soroban_cron.Engine.Poller.Progress.{Ascending, last_announced}
use soroban_cron.Engine.Poller.Order.{Ascending-append, last_announced-append, Ascending-snoc}
use soroban_cron.Engine.Pipeline.{Network, parse_task_id}
use soroban_cron.Engine.Executions.{Phase}
use soroban_cron.Engine.Channel.{Channel, IsOrdered}
use soroban_cron.Engine.Health.{health_handler, health_state}
use soroban_cron.Engine.Loops.{Running, Outcome, quiet, reported, polls_turn, asks_turn}
use soroban_cron.Engine.Loops.Observer.{Seen, Allowed, seen_next}

-- A poll announces a ledger above the known one, or nothing, and knows then what it announced.
pub poll-cases :
    (answer : Result ℕ TransientError) (p : LedgerPoller)
    → (((poll answer p).1 ≡ none) × ((poll answer p).0.last_known_ledger ≡ p.last_known_ledger))
      ⊎ ((seq : ℕ) × ((poll answer p).1 ≡ some (LedgerEvent.advance seq))
          × (p.last_known_ledger < seq)
          × ((poll answer p).0.last_known_ledger ≡ seq))
unfolding poll restored backed_off
poll-cases (Result.err e) p = inl (refl, refl)
poll-cases (Result.ok seq) p = elim (Bool-cases (ltb p.last_known_ledger seq)) [
  | inl up ↦ inr (seq, ground arith, ground arith, ground arith)
  | inr known ↦ inl (ground arith, ground arith)
]

-- The tasks in flight, by where the discovery loop stands.
abbrev pub flying : {V N : Type 0} → Network V N → Phase → InFlightSet
flying net (Phase.executing l x tasks) = parse_task_id net x.task.task_id_hex ∷ []
flying net (Phase.executed l x tasks) = parse_task_id net x.task.task_id_hex ∷ []
flying net _ = []

module _ {V N C : Type 0} (net : Network V N) (ch : Channel C) (ordered : IsOrdered ch) where
  -- What an observer knows is so.
  pub record Matches (m : Seen) (s : Running N C) : Type 0 where
    pub stops_with : s.stopped ≡ m.stopped
    pub knows : s.poller.last_known_ledger ≡ m.known
    pub ascends : Ascending m.handled (ordered.pending s.channel)
    pub announced_before : last_announced m.handled (ordered.pending s.channel) ≤ m.known
    pub flies : s.discovery.machine.in_flight ≡ flying net s.phase
    pub counts : m.busy ≡ length (flying net s.phase)

  abbrev pub Follows : Seen → Running N C × Outcome → Type 0
  Follows m (t, outcome) = Allowed m outcome × Matches (seen_next m outcome) t

  pub polls-Follows :
      (m : Seen) (answer : Result ℕ TransientError) (s : Running N C)
      → m.stopped ≡ false
      → Matches m s
      → Follows m (polls_turn ch answer s)
  unfolding polls_turn
  polls-Follows m answer s live k = elim (poll-cases answer s.poller) [
    | inl (silent, same) ↦ rw silent (
      tt,
      record {
        stops_with = k.stops_with;
        knows = same ∙ k.knows;
        ascends = k.ascends;
        announced_before = k.announced_before;
        flies = k.flies;
        counts = k.counts;
      },
    )
    | inr (seq, said, up, now) ↦
        let waiting = ordered.pending s.channel in
        let (lost, split) = ordered.sends (LedgerEvent.advance seq) s.channel in
        let rest = ordered.pending (ch.send (LedgerEvent.advance seq) s.channel) in
        let above : m.known < seq = omega (arith, k.knows) in
        let (ascending, last) =
          Ascending-snoc m.handled seq waiting k.ascends (omega (arith, k.announced_before)) in
        let left : Ascending m.handled (lost ++ rest) =
          subst (Ascending m.handled) split ascending in
        rw said (
          (live, above),
          record {
            stops_with = k.stops_with;
            knows = now;
            ascends = Ascending-append m.handled lost rest left;
            announced_before = omega (
              arith,
              last_announced-append m.handled lost rest left,
              ap (last_announced m.handled) split,
              last,
            );
            flies = k.flies;
            counts = k.counts;
          },
        )
  ]

  pub either-Follows :
      (m : Seen) (b : Bool) (x y : Running N C × Outcome)
      → (b ≡ true → Follows m x)
      → (b ≡ false → Follows m y)
      → Follows m (if b then x else y)
  either-Follows m true x y p q = p refl
  either-Follows m false x y p q = q refl

  pub asks-Follows :
      (m : Seen) (s : Running N C) → m.stopped ≡ false → Matches m s → Follows m (asks_turn s)
  unfolding asks_turn len
  asks-Follows m s live k =
      either-Follows m s.listening
        (s, reported (health_handler (health_state s.poller s.discovery))) (s, quiet)
        (λ e. ((live, k.knows, ap length k.flies ∙ sym k.counts), k)) (λ e. (tt, k))
