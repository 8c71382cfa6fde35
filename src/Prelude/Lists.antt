-- ===== src/Prelude/Lists.antt =====
-- Lists measured and cut by native numbers, under the library's names, with Boolean filters.
use Prim.Native.Nat.{ℕ, zero, suc, ◌+◌, ◌≤◌, min}
use mathlib.Core.Path.{◌≡◌, refl, ap}
use mathlib.Core.Bool.{Bool, true, false, ◌&&◌, ◌||◌}
use mathlib.Core.Option.{Option, none, some}
use mathlib.Core.List.{List, [], ◌∷◌, ◌++◌, map}
use native.Mathlib.Omega.{arith}
use family_assistant_kernel.Prelude.Tests.{if◌then◌else◌}

module _ {ℓ} {A : Type ℓ} where
  abbrev pub length : List A → ℕ
  length [] = 0
  length (x ∷ xs) = suc (length xs)

  abbrev pub get_elem? : List A → ℕ → Option A
  get_elem? [] i = none
  get_elem? (x ∷ xs) zero = some x
  get_elem? (x ∷ xs) (suc i) = get_elem? xs i

  abbrev pub take : ℕ → List A → List A
  take zero xs = []
  take (suc n) [] = []
  take (suc n) (x ∷ xs) = x ∷ take n xs

  abbrev pub drop : ℕ → List A → List A
  drop zero xs = xs
  drop (suc n) [] = []
  drop (suc n) (x ∷ xs) = drop n xs

  -- a list comprehension with a test
  abbrev pub select : (A → Bool) → List A → List A
  select p [] = []
  select p (x ∷ xs) = let rest = select p xs in if p x then x ∷ rest else rest

  abbrev pub any : (A → Bool) → List A → Bool
  any p [] = false
  any p (x ∷ xs) = p x || any p xs

  abbrev pub all : (A → Bool) → List A → Bool
  all p [] = true
  all p (x ∷ xs) = p x && all p xs

  -- Every element has the property.
  abbrev pub All {κ} : (A → Type κ) → List A → Type κ
  All P [] = Unit
  All P (x ∷ xs) = P x × All P xs

module _ {ℓ} {A : Type ℓ} where
  pub length-append : (xs ys : List A) → length (xs ++ ys) ≡ length xs + length ys
  length-append [] ys = omega arith
  length-append (x ∷ xs) ys = omega (arith, length-append xs ys)

  pub length-take : (n : ℕ) (xs : List A) → length (take n xs) ≡ min n (length xs)
  length-take zero xs = omega arith
  length-take (suc n) [] = omega arith
  length-take (suc n) (x ∷ xs) = omega (arith, length-take n xs)

  pub length-select : (p : A → Bool) (xs : List A) → length (select p xs) ≤ length xs
  length-select p [] = omega arith
  length-select p (x ∷ xs) = ground (arith, length-select p xs)

  pub length-map {κ} : {B : Type κ} (xs : List A) (f : A → B) → length (map f xs) ≡ length xs
  length-map [] f = refl
  length-map (x ∷ xs) f = ap suc (length-map xs f)

module _ {ℓ} {A : Type ℓ} where
  pub append_assoc : (xs ys zs : List A) → (xs ++ ys) ++ zs ≡ xs ++ (ys ++ zs)
  append_assoc [] ys zs = refl
  append_assoc (x ∷ xs) ys zs = ap (λ l. x ∷ l) (append_assoc xs ys zs)

  pub append_nil : (xs : List A) → xs ++ [] ≡ xs
  append_nil [] = refl
  append_nil (x ∷ xs) = ap (λ l. x ∷ l) (append_nil xs)

  pub map-append {κ} :
      {B : Type κ} (f : A → B) (xs ys : List A) → map f (xs ++ ys) ≡ map f xs ++ map f ys
  map-append f [] ys = refl
  map-append f (x ∷ xs) ys = ap (λ l. f x ∷ l) (map-append f xs ys)

module _ {ℓ κ κ'} {A : Type ℓ} {P : A → Type κ} {Q : A → Type κ'} where
  pub All-map : (xs : List A) → ((x : A) → P x → Q x) → All P xs → All Q xs
  All-map [] f h = tt
  All-map (x ∷ xs) f h = (f x h.0, All-map xs f h.1)

module _ {ℓ κ κ' κ''} {A : Type ℓ} {P : A → Type κ} {Q : A → Type κ'} {T : A → Type κ''} where
  pub All-zip : (xs : List A) → ((x : A) → P x → Q x → T x) → All P xs → All Q xs → All T xs
  All-zip [] f h g = tt
  All-zip (x ∷ xs) f h g = (f x h.0 g.0, All-zip xs f h.1 g.1)

module _ {ℓ κ} {A : Type ℓ} (P : A → Type κ) (p : A → Bool) where
  split_selected :
      (b : Bool) (x : A) (zs : List A)
      → p x ≡ b
      → All P (if b then x ∷ zs else zs)
      → (p x ≡ true → P x) × All P zs
  split_selected true x zs e h = ((λ _. h.0), h.1)
  split_selected false x zs e h = ((λ e'. let bad : ⊥ = ground (arith, e, e') in elim bad [ ]), h)

  join_selected :
      (b : Bool) (x : A) (zs : List A)
      → p x ≡ b
      → (p x ≡ true → P x)
      → All P zs
      → All P (if b then x ∷ zs else zs)
  join_selected true x zs e f h = (f e, h)
  join_selected false x zs e f h = h

  -- what holds of a selection, read on the whole list
  pub All-select : (xs : List A) → All P (select p xs) → All (λ x. p x ≡ true → P x) xs
  All-select [] h = tt
  All-select (x ∷ xs) h =
      let (here, rest) = split_selected (p x) x (select p xs) refl h in (here, All-select xs rest)

  -- every element of a selection passed the test
  pub select-All : (xs : List A) → ((x : A) → p x ≡ true → P x) → All P (select p xs)
  select-All [] f = tt
  select-All (x ∷ xs) f = join_selected (p x) x (select p xs) refl (f x) (select-All xs f)
