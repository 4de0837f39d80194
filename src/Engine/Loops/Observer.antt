-- ===== src/Engine/Loops/Observer.antt =====
-- What can be seen of the daemon's loops, and in which order.
use soroban_cron.Common.{ℕ, ◌<◌, ◌≤◌, ◌≡◌, Bool, true, false, List, [], ◌∷◌}
use soroban_cron.Engine.Loops.{Outcome, quiet, began, ended, stops, announced, handles, reported}

-- What an observer knows: the ledger handled last, the one announced last, the executions that have
-- begun and not ended, and whether the daemon was stopped.
pub record Seen : Type 0 where
  pub handled : ℕ
  pub known : ℕ
  pub busy : ℕ
  pub stopped : Bool

-- After a stop nothing is seen. Before it: announcements ascend; a ledger is handled after its
-- announcement, in ascending order, and between executions; one execution at a time; and the health
-- endpoint reports the ledger announced last and the number of executions.
abbrev pub Allowed : Seen → Outcome → Type 0
Allowed m quiet = Unit {0}
Allowed m began = (m.stopped ≡ false) × (m.busy ≡ 0)
Allowed m ended = (m.stopped ≡ false) × (m.busy ≡ 1)
Allowed m stops = m.stopped ≡ false
Allowed m (announced seq) = (m.stopped ≡ false) × (m.known < seq)
Allowed m (handles seq) = (m.stopped ≡ false) × (m.busy ≡ 0) × (m.handled < seq) × (seq ≤ m.known)
Allowed m (reported response) =
    (m.stopped ≡ false) × (response.current_ledger ≡ m.known) × (response.in_flight_count ≡ m.busy)

abbrev pub seen_next : Seen → Outcome → Seen
seen_next m quiet = m
seen_next m began = record m { busy = 1 }
seen_next m ended = record m { busy = 0 }
seen_next m stops = record m { stopped = true }
seen_next m (announced seq) = record m { known = seq }
seen_next m (handles seq) = record m { handled = seq }
seen_next m (reported response) = m

abbrev pub AreAllowed : Seen → List Outcome → Type 0
AreAllowed m [] = Unit {0}
AreAllowed m (o ∷ os) = Allowed m o × AreAllowed (seen_next m o) os

abbrev pub nothing_seen : Seen
nothing_seen = record { handled = 0; known = 0; busy = 0; stopped = false }

-- What an observer knows in the end.
abbrev pub seen_after : Seen → List Outcome → Seen
seen_after m [] = m
seen_after m (o ∷ os) = seen_after (seen_next m o) os
