-- ===== src/Nbu/Progress.antt =====
-- Overlapping requests of the NBU client neither wait for each other for good nor go on forever.
use family_assistant_kernel.Prelude.{ℕ, ◌+◌, ◌*◌, ◌<◌, ◌≡◌, ◌⊎◌, Bool, true, List, [], ◌∷◌}
use family_assistant_kernel.Nbu.Overlap.{
  Phase, waiting, in_flight, delayed, sleeping, over, Change, here, Step, Steps,
}

-- the steps that a request has left at most
abbrev pub weight : Phase → ℕ
weight (waiting n) = 3 * n + 2
weight (in_flight n) = 3 * n + 1
weight (delayed n) = 3 * n + 3
weight (sleeping n) = 3 * n + 3
weight over = 0

abbrev pub total : List Phase → ℕ
total [] = 0
total (x ∷ xs) = weight x + total xs

abbrev pub AllFinished : List Phase → Type 0
AllFinished [] = Unit
AllFinished (x ∷ xs) = (x ≡ over) × AllFinished xs

-- some request sleeps after a 429
abbrev HasSleeping : List Phase → Type 0
HasSleeping xs = (n : ℕ) × (ys : List Phase) × Change (sleeping n) (waiting n) xs ys

-- the event is set, or some request will set it
abbrev IsOpen : Bool → List Phase → Type 0
IsOpen b xs = (b ≡ true) ⊎ HasSleeping xs

abbrev NotSleeping : Phase → Type 0
NotSleeping (sleeping n) = ⊥
NotSleeping (waiting n) = Unit
NotSleeping (in_flight n) = Unit
NotSleeping (delayed n) = Unit
NotSleeping over = Unit

first-HasSleeping : (n : ℕ) (rest : List Phase) → HasSleeping (sleeping n ∷ rest)
first-HasSleeping n rest = (n, _, here)

abbrev Unfinished : Phase → Type 0
Unfinished over = ⊥
Unfinished (waiting n) = Unit
Unfinished (in_flight n) = Unit
Unfinished (delayed n) = Unit
Unfinished (sleeping n) = Unit

-- a request that is not over, wherever it stands
abbrev Movable : List Phase → Type 0
Movable xs = (p : Phase) × Unfinished p × ((q : Phase) → (ys : List Phase) × Change p q xs ys)

module _ (places : ℕ) (some_place : 0 < places) where
  abbrev CanStep : Bool → List Phase → Type 0
  CanStep b xs = (c : Bool) × (ys : List Phase) × Step places b xs c ys

  -- some steps end all the requests
  abbrev pub CanFinish : Bool → List Phase → Type 0
  CanFinish b xs = (c : Bool) × (ys : List Phase) × Steps places b xs c ys × AllFinished ys
