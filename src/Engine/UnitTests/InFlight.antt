-- ===== src/Engine/UnitTests/InFlight.antt =====
-- the-engine/src/in_flight.rs: the tests. `make_id(b)` is the number that 32 bytes b spell.
use soroban_cron.Common.{
  ℕ, zero, suc, ◌+◌, ◌*◌, Bool, true, ◌&&◌, not, ◌≡◌, refl, [], ◌==◌, if◌then◌else◌,
}
use soroban_cron.Engine.InFlight.{InFlightSet, contains, insert, remove, len}

abbrev spelled : ℕ → ℕ → ℕ
spelled zero byte = 0
spelled (suc n) byte = 256 * spelled n byte + byte

abbrev make_id : ℕ → ℕ
make_id byte = spelled 32 byte

unfoldable insert_returns_true_for_new_entry : Bool
insert_returns_true_for_new_entry = (insert (make_id 1) []).0

insert_returns_true_for_new_entry_passes : insert_returns_true_for_new_entry ≡ true
unfolding insert_returns_true_for_new_entry contains insert remove len
insert_returns_true_for_new_entry_passes = refl

unfoldable insert_returns_false_for_duplicate : Bool
insert_returns_false_for_duplicate =
    let (fresh, set) = insert (make_id 2) [] in not (insert (make_id 2) set).0

insert_returns_false_for_duplicate_passes : insert_returns_false_for_duplicate ≡ true
unfolding insert_returns_false_for_duplicate contains insert remove len
insert_returns_false_for_duplicate_passes = refl

unfoldable contains_reflects_membership : Bool
contains_reflects_membership =
    let (fresh, set) = insert (make_id 3) [] in
    not (contains (make_id 3) []) && contains (make_id 3) set

contains_reflects_membership_passes : contains_reflects_membership ≡ true
unfolding contains_reflects_membership contains insert remove len
contains_reflects_membership_passes = refl

unfoldable remove_clears_entry : Bool
remove_clears_entry =
    let (fresh, set) = insert (make_id 4) [] in not (contains (make_id 4) (remove (make_id 4) set))

remove_clears_entry_passes : remove_clears_entry ≡ true
unfolding remove_clears_entry contains insert remove len
remove_clears_entry_passes = refl

unfoldable len_tracks_correctly : Bool
len_tracks_correctly =
    let (one, set) = insert (make_id 5) [] in
    let (two, both) = insert (make_id 6) set in
    (len [] == 0) && (len both == 2) && (len (remove (make_id 5) both) == 1)

len_tracks_correctly_passes : len_tracks_correctly ≡ true
unfolding len_tracks_correctly contains insert remove len
len_tracks_correctly_passes = refl

-- The inserts of n tasks one after the other, in the order in which they get the lock.
abbrev inserts : ℕ → ℕ → InFlightSet → ℕ × InFlightSet
inserts zero id set = (0, set)
inserts (suc n) id set =
    let (fresh, next) = insert id set in
    let (count, last) = inserts n id next in (if fresh then count + 1 else count, last)

unfoldable concurrent_inserts_never_duplicate : Bool
concurrent_inserts_never_duplicate =
    let (inserted_count, set) = inserts 20 (make_id 8) [] in (inserted_count == 1) && (len set == 1)

concurrent_inserts_never_duplicate_passes : concurrent_inserts_never_duplicate ≡ true
unfolding concurrent_inserts_never_duplicate contains insert remove len
concurrent_inserts_never_duplicate_passes = refl
