-- ===== src/Engine/Poller/Progress.antt =====
-- What a run of the poller announces, and how long it waits between failures.
use soroban_cron.Common.{
  ℕ, suc, ◌+◌, ◌<◌, ◌≤◌, ◌≡◌, refl, sym, inl, inr, List, [], ◌∷◌, arith, length, ltb, if◌then◌else◌,
  Bool-cases,
}
use soroban_cron.Common.Word.{u32_mod}
use soroban_cron.Engine.Errors.{TransientError, Result}
use soroban_cron.Engine.Backoff.{scheduled, scheduled-zero, next_backoff-scheduled}
use soroban_cron.Engine.Poller.{
  LedgerEvent, LedgerPoller, start, restored, backed_off, poll, sent, run,
}

abbrev pub Answers : Type 0
Answers = List (Result ℕ TransientError)

-- Strictly ascending announcements, all above `last`.
abbrev pub Ascending : ℕ → List LedgerEvent → Type 0
Ascending last [] = Unit
Ascending last (LedgerEvent.advance seq ∷ events) = (last < seq) × Ascending seq events

abbrev pub last_announced : ℕ → List LedgerEvent → ℕ
last_announced last [] = last
last_announced last (LedgerEvent.advance seq ∷ events) = last_announced seq events

-- The highest ledger that the node has named.
abbrev pub highest : ℕ → Answers → ℕ
highest last [] = last
highest last (Result.ok seq ∷ answers) = highest (if ltb last seq then seq else last) answers
highest last (Result.err e ∷ answers) = highest last answers

pub record IsCaughtUp (last : ℕ) (answers : Answers) (r : LedgerPoller × List LedgerEvent)
    : Type 0 where
  pub ascending : Ascending last r.1
  pub announced : last_announced last r.1 ≡ highest last answers
  pub known : r.0.last_known_ledger ≡ highest last answers

-- The failures at the end of the answers, after n earlier ones.
abbrev pub trailing_errors : ℕ → Answers → ℕ
trailing_errors n [] = n
trailing_errors n (Result.ok seq ∷ answers) = trailing_errors 0 answers
trailing_errors n (Result.err e ∷ answers) = trailing_errors (suc n) answers

restored-known : (p : LedgerPoller) → (restored p).last_known_ledger ≡ p.last_known_ledger
unfolding restored
restored-known p = ground arith

-- Along any run, the announcements strictly ascend from the ledger that was known, and the last of
-- them, as the ledger now known, is the highest one that the node has answered.
pub run-IsCaughtUp :
    (answers : Answers) (p : LedgerPoller) → IsCaughtUp p.last_known_ledger answers (run answers p)
unfolding run poll sent backed_off
run-IsCaughtUp [] p = record { ascending = tt; announced = refl; known = refl }
run-IsCaughtUp (Result.ok seq ∷ answers) p = elim (Bool-cases (ltb p.last_known_ledger seq)) [
  | inl up ↦
      let q : LedgerPoller = record (restored p) { last_known_ledger = seq } in
      let i = run-IsCaughtUp answers q in
      rw (restored-known p, up)
        record {
          ascending = (ground arith, i.ascending);
          announced = rw up i.announced;
          known = rw up i.known;
        }
  | inr same ↦
      let i = rw (restored-known p) at (run-IsCaughtUp answers (restored p)) in
      rw (restored-known p, same)
        record { ascending = i.ascending; announced = rw same i.announced; known = rw same i.known }
]
run-IsCaughtUp (Result.err e ∷ answers) p =
    let i = run-IsCaughtUp answers (backed_off p) in
    record { ascending = i.ascending; announced = i.announced; known = i.known }

record IsWaiting (initial max n : ℕ) (p : LedgerPoller) : Type 0 where
  first : p.retry_backoff_initial ≡ initial
  cap : p.retry_backoff_max ≡ max
  count : p.consecutive_errors ≡ n
  wait : p.backoff ≡ scheduled initial max n

module _ {initial max : ℕ} (ordered : initial ≤ max) where
  restored-IsWaiting :
      {n : ℕ} (p : LedgerPoller) → IsWaiting initial max n p → IsWaiting initial max 0 (restored p)
  unfolding restored
  restored-IsWaiting p w = record {
    first = ground (arith, w.first);
    cap = ground (arith, w.cap);
    count = ground (arith, w.count);
    wait = ground (arith, w.first, w.count, w.wait, scheduled-zero initial max ordered);
  }

  poll_ok-IsWaiting :
      {n : ℕ} (seq : ℕ) (p : LedgerPoller)
      → IsWaiting initial max n p
      → IsWaiting initial max 0 (poll (Result.ok seq) p).0
  unfolding poll
  poll_ok-IsWaiting seq p w =
      let v = restored-IsWaiting p w in
      record {
        first = ground (arith, v.first);
        cap = ground (arith, v.cap);
        count = ground (arith, v.count);
        wait = ground (arith, v.wait);
      }

  backed_off-IsWaiting :
      {n : ℕ} (p : LedgerPoller)
      → suc n < u32_mod
      → IsWaiting initial max n p
      → IsWaiting initial max (suc n) (backed_off p)
  unfolding backed_off
  backed_off-IsWaiting {n} p few w = record {
    first = w.first;
    cap = w.cap;
    count = omega (arith, w.count);
    wait = rw (w.cap, w.wait) (next_backoff-scheduled initial max n);
  }

  run-IsWaiting :
      (n : ℕ) (answers : Answers) (p : LedgerPoller)
      → n + length answers < u32_mod
      → IsWaiting initial max n p
      → IsWaiting initial max (trailing_errors n answers) (run answers p).0
  unfolding run poll
  run-IsWaiting n [] p few w = w
  run-IsWaiting n (Result.ok seq ∷ answers) p few w =
      run-IsWaiting 0 answers (poll (Result.ok seq) p).0 (omega arith) (poll_ok-IsWaiting seq p w)
  run-IsWaiting n (Result.err e ∷ answers) p few w =
      run-IsWaiting (suc n) answers (backed_off p) (omega arith)
        (backed_off-IsWaiting p (omega arith) w)

-- Below `max`, the wait is doubled by each further failure: with fewer than 2 ^ 32 answers, after k
-- failures in a row the next wait is `initial` times 2 ^ k, or `max` where that is less.
pub run-backoff :
    (initial max : ℕ) (answers : Answers)
    → initial ≤ max
    → length answers < u32_mod
    → (run answers (start initial max)).0.backoff
      ≡ scheduled initial max (trailing_errors 0 answers)
unfolding start
run-backoff initial max answers ordered few =
    (run-IsWaiting ordered 0 answers (start initial max) (omega arith) (record {
      first = refl;
      cap = refl;
      count = refl;
      wait = sym (scheduled-zero initial max ordered);
    })).wait
