-- ===== src/Nbu/Overlap.antt =====
-- Requests of one client that overlap (src/integrations/nbu.py): they share the event and the semaphore. A
-- step is what happens between two awaits. How long a delay takes is left out; a step that ends a delay
-- happens at some time.
use family_assistant_kernel.Prelude.{ℕ, zero, suc, ltb, ◌≡◌, Bool, true, false, List, [], ◌∷◌}

-- Where one `_fetch_single_rate` is: before the request of an attempt, in it, in a delay of its own, in the
-- delay of a 429, or at its end; the number counts the attempts after this one.
pub data Phase : Type 0 where
  waiting in_flight delayed sleeping : ℕ → Phase
  over : Phase

-- one of the requests goes from a phase to another
pub data Change (p q : Phase) : List Phase → List Phase → Type 0 where
  here : {rest : List Phase} → Change p q (p ∷ rest) (q ∷ rest)
  there : {x : Phase} {xs ys : List Phase} → Change p q xs ys → Change p q (x ∷ xs) (x ∷ ys)

-- how many requests hold the semaphore
unfoldable pub busy : List Phase → ℕ
busy [] = 0
busy (in_flight n ∷ xs) = let rest = busy xs in suc rest
busy (waiting n ∷ xs) = busy xs
busy (delayed n ∷ xs) = busy xs
busy (sleeping n ∷ xs) = busy xs
busy (over ∷ xs) = busy xs

-- The steps with a semaphore of so many places, on the event and the requests.
pub data Step (places : ℕ) : Bool → List Phase → Bool → List Phase → Type 0 where
  -- the event is set and the semaphore has a place
  enter :
      {n : ℕ} {xs ys : List Phase}
      → ltb (busy xs) places ≡ true
      → Change (waiting n) (in_flight n) xs ys
      → Step places true xs true ys
  -- a body, another error, or no attempt left
  returned :
      {n : ℕ} {b : Bool} {xs ys : List Phase}
      → Change (in_flight n) over xs ys
      → Step places b xs b ys
  -- a timeout or a 504
  retried :
      {n : ℕ} {b : Bool} {xs ys : List Phase}
      → Change (in_flight (suc n)) (delayed n) xs ys
      → Step places b xs b ys
  elapsed :
      {n : ℕ} {b : Bool} {xs ys : List Phase}
      → Change (delayed n) (waiting n) xs ys
      → Step places b xs b ys
  -- a 429: `clear()` and the start of the sleep
  limited :
      {n : ℕ} {b : Bool} {xs ys : List Phase}
      → Change (in_flight (suc n)) (sleeping n) xs ys
      → Step places b xs false ys
  -- the end of the sleep and `set()`
  awake :
      {n : ℕ} {b : Bool} {xs ys : List Phase}
      → Change (sleeping n) (waiting n) xs ys
      → Step places b xs true ys

pub data Steps (places : ℕ) (b : Bool) (xs : List Phase) : Bool → List Phase → Type 0 where
  stop : Steps places b xs b xs
  step :
      {c d : Bool} {ys zs : List Phase}
      → Steps places b xs c ys
      → Step places c ys d zs
      → Steps places b xs d zs

-- the tasks that `fetch_rates` creates
abbrev pub created : ℕ → ℕ → List Phase
created max_retries zero = []
created max_retries (suc tasks) = waiting max_retries ∷ created max_retries tasks
