-- ===== src/Engine/InFlight.antt =====
-- the-engine/src/in_flight.rs: the set of the tasks that are being executed. A `TaskId` is the
-- number that its 32 bytes spell.
pub mod Workers
use soroban_cron.Common.{ℕ, Bool, true, false, List, [], ◌∷◌, length, ◌==◌, if◌then◌else◌}

abbrev pub InFlightSet : Type 0
InFlightSet = List ℕ

unfoldable pub contains : ℕ → InFlightSet → Bool
contains task_id [] = false
contains task_id (x ∷ set) = if task_id == x then true else contains task_id set

-- `true` if the task was not in the set.
unfoldable pub insert : ℕ → InFlightSet → Bool × InFlightSet
unfolding contains
insert task_id set = if contains task_id set then (false, set) else (true, task_id ∷ set)

unfoldable pub remove : ℕ → InFlightSet → InFlightSet
remove task_id [] = []
remove task_id (x ∷ set) = let rest = remove task_id set in if task_id == x then rest else x ∷ rest

unfoldable pub len : InFlightSet → ℕ
len set = length set

unfoldable pub is_empty : InFlightSet → Bool
unfolding len
is_empty set = len set == 0
