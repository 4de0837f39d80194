-- ===== src/Engine/InFlight/Workers.antt =====
-- Concurrent dispatches. A worker is a call of `dispatch` (the-engine/src/execution_pipeline.rs)
-- that runs beside the others; the mutex makes each insertion and each removal one step.
use soroban_cron.Common.{
  ℕ, ◌≡◌, ◌≢◌, subst, true, false, [], ◌∷◌, inl, inr, arith, ◌==◌, update, Bool-cases,
}
use soroban_cron.Engine.InFlight.{InFlightSet, contains, insert, remove}

pub data Worker : Type 0 where
  idle : Worker
  running : ℕ → Worker

pub record System : Type 0 where
  pub set : InFlightSet
  pub worker : ℕ → Worker

-- `InFlightSet::new`
abbrev pub at_rest : System
at_rest = record { set = []; worker = λ w. Worker.idle }

-- A dispatch whose insertion answers `false` returns at once: no step.
pub data Step (s : System) : System → Type 0 where
  begins :
      (w id : ℕ) (set : InFlightSet)
      → s.worker w ≡ Worker.idle
      → insert id s.set ≡ (true, set)
      → Step s (record { set = set; worker = update w (Worker.running id) s.worker })
  ends :
      (w id : ℕ)
      → s.worker w ≡ Worker.running id
      → Step s (record { set = remove id s.set; worker = update w Worker.idle s.worker })

pub data Reach : System → Type 0 where
  here : Reach at_rest
  next : {s t : System} → Reach s → Step s t → Reach t

contains-remove_other :
    (i j : ℕ) (set : InFlightSet) → i ≢ j → contains i set ≡ true → contains i (remove j set) ≡ true
unfolding contains remove
contains-remove_other i j [] other found = found
contains-remove_other i j (x ∷ set) other found = elim (Bool-cases (i == x)) [
  | inl same ↦ ground arith
  | inr away ↦ ground (arith, contains-remove_other i j set other (ground arith))
]

insert-inv :
    (i : ℕ) (set set' : InFlightSet)
    → insert i set ≡ (true, set')
    → (contains i set ≡ false)
      × (contains i set' ≡ true)
      × ((j : ℕ) → contains j set ≡ true → contains j set' ≡ true)
unfolding insert contains
insert-inv i set set' e = elim (Bool-cases (contains i set)) [
  | inl there ↦ ground arith
  | inr absent ↦
      let same : i ∷ set ≡ set' = ground arith in
      subst
        (λ (s : InFlightSet).
          (contains i set ≡ false)
          × (contains i s ≡ true)
          × ((j : ℕ) → contains j set ≡ true → contains j s ≡ true))
        same (absent, ground arith, λ j found. ground arith)
]

pub record IsExclusive (s : System) : Type 0 where
  pub held : (w id : ℕ) → s.worker w ≡ Worker.running id → contains id s.set ≡ true
  pub alone : (v w id : ℕ) → s.worker v ≡ Worker.running id → s.worker w ≡ Worker.running id → v ≡ w

Step-IsExclusive : {s t : System} → Step s t → IsExclusive s → IsExclusive t
Step-IsExclusive (begins w id set free e) x =
    let (absent, inserted, kept) = insert-inv id _ set e in
    record {
      held = λ v i f. elim (Bool-cases (w == v)) [
        | inl own ↦ ground arith
        | inr other ↦ kept i (x.held v i (ground arith))
      ];
      alone = λ v u i f g. ground (arith, x.held v i, x.held u i, x.alone v u i);
    }
Step-IsExclusive (ends w id busy) x = record {
  held = λ v i f. elim (Bool-cases (w == v)) [
    | inl own ↦ ground arith
    | inr other ↦
        contains-remove_other i id _ (λ same. ground (arith, x.alone v w i))
          (x.held v i (ground arith))
  ];
  alone = λ v u i f g. ground (arith, x.alone v u i);
}

-- However dispatches overlap, every running one has its task in the set, and no two run the same
-- task.
pub Reach-IsExclusive : {s : System} → Reach s → IsExclusive s
Reach-IsExclusive here = record {
  held = λ w id e. ground arith;
  alone = λ v w id e f. ground arith;
}
Reach-IsExclusive (next r st) = Step-IsExclusive st (Reach-IsExclusive r)
