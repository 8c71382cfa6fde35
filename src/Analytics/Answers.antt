-- ===== src/Analytics/Answers.antt =====
-- That `transactions_basic_analytics` answers: neither a KeyError nor a division by zero.
use family_assistant_kernel.Prelude.{
  ◌⊎◌, ℕ, ◌≡◌, refl, ◌∙◌, ap, Bool, true, false, ◌||◌, ◌==◌, List, [], ◌∷◌, All, any, Bool-cases,
  inl, inr, arith,
}
use family_assistant_kernel.Prelude.Int.{ℤ, pos, ◌+ℤ◌, ltb_ℤ, eqb_ℤ, +ℤ_parts}
use family_assistant_kernel.Exec.{Result, ok, err, Exec, continue}
use family_assistant_kernel.Storage.{exists, update_rows}
use family_assistant_kernel.Storage.Order.{sort_by, any-sort_by}
use family_assistant_kernel.Analytics.Grouping.{add_total, group_totals, assigned}
use family_assistant_kernel.Analytics.Totals.{TransactionsBasicAnalytics, Results, assign, for_each}

abbrev pub IsPositive : ℤ → Type 0
IsPositive v = ltb_ℤ (pos 0) v ≡ true

-- the run returned, in results that have the property
abbrev pub Succeeds : (Results → Type 0) → Result {0} Unit × Results → Type 0
Succeeds P (ok tt, rs) = P rs
Succeeds P (err e, rs) = ⊥

module _ (P Q : Results → Type 0) where
  pub bind-Succeeds :
      (p : Result {0} Unit × Results) (rest : Exec Results Unit)
      → Succeeds P p
      → ((rs : Results) → P rs → Succeeds Q (rest rs))
      → Succeeds Q (continue p.0 (λ _. rest) p.1)
  bind-Succeeds (ok tt, rs) rest h f = f rs h
  bind-Succeeds (err e, rs) rest h f = elim h [ ]

module _ (P : Results → Type 0) where
  pub assign-Succeeds :
      (c : ℕ) (f : TransactionsBasicAnalytics → TransactionsBasicAnalytics) (rs : Results)
      → exists c rs ≡ true
      → P (update_rows c f rs)
      → Succeeds P (assign c f rs)
  unfolding assign
  assign-Succeeds c f rs e h = rw e h

module _ {X : Type 0} (body : X → Exec Results Unit) (Q : X → Type 0)
    (P : List X → Results → Type 0) where
  pub for_each-Succeeds :
      ((x : X) (xs : List X) (rs : Results) → Q x → P (x ∷ xs) rs → Succeeds (P xs) (body x rs))
      → (xs : List X) (rs : Results) → All Q xs
      → P xs rs
      → Succeeds (P []) (for_each xs body rs)
  unfolding for_each
  for_each-Succeeds step [] rs q h = h
  for_each-Succeeds step (x ∷ xs) rs q h =
      bind-Succeeds (P xs) (P []) (body x rs) (for_each xs body) (step x xs rs q.0 h)
        (λ rs'. for_each-Succeeds step xs rs' q.1)

-- some group has the key
abbrev pub has_key : ℕ → List (ℕ × ℤ) → Bool
has_key d groups = any (λ g. g.0 == d) groups

sum-IsPositive : (v w : ℤ) → IsPositive v → IsPositive w → IsPositive (v +ℤ w)
sum-IsPositive v w h g = ground (arith, h, g, +ℤ_parts v w)

pub IsPositive-nonzero : (v : ℤ) → IsPositive v → eqb_ℤ v (pos 0) ≡ false
IsPositive-nonzero v h = ground (arith, h)

add_total-IsPositive :
    (k : ℕ) (v : ℤ) (groups : List (ℕ × ℤ))
    → IsPositive v
    → All (λ g. IsPositive g.1) groups
    → All (λ g. IsPositive g.1) (add_total (λ a b. a == b) k v groups)
add_total-IsPositive k v [] p h = (p, tt)
add_total-IsPositive k v ((j, total) ∷ groups) p h = elim (Bool-cases (k == j)) [
  | inl e ↦ rw e (sum-IsPositive total v h.0 p, h.1)
  | inr e ↦ rw e (h.0, add_total-IsPositive k v groups p h.1)
]

pub group_totals-IsPositive :
    (rows : List (ℕ × ℤ))
    → All (λ g. IsPositive g.1) rows
    → All (λ g. IsPositive g.1) (group_totals (λ a b. a == b) rows)
unfolding group_totals
group_totals-IsPositive [] h = tt
group_totals-IsPositive ((k, v) ∷ rows) h =
    add_total-IsPositive k v _ h.0 (group_totals-IsPositive rows h.1)

has_key-add_total :
    (d k : ℕ) (v : ℤ) (groups : List (ℕ × ℤ))
    → has_key d (add_total (λ a b. a == b) k v groups) ≡ (k == d) || has_key d groups
has_key-add_total d k v [] = refl
has_key-add_total d k v ((j, total) ∷ groups) = ground (arith, has_key-add_total d k v groups)

pub has_key-group_totals :
    (d : ℕ) (rows : List (ℕ × ℤ)) → has_key d (group_totals (λ a b. a == b) rows) ≡ has_key d rows
unfolding group_totals
has_key-group_totals d [] = refl
has_key-group_totals d ((k, v) ∷ rows) =
    has_key-add_total d k v (group_totals (λ a b. a == b) rows)
    ∙ ap (λ b. (k == d) || b) (has_key-group_totals d rows)

pub has_key-sort_by :
    (before : ℕ × ℤ → ℕ × ℤ → Bool) (d : ℕ) (xs : List (ℕ × ℤ))
    → has_key d (sort_by before xs) ≡ has_key d xs
has_key-sort_by before d xs = any-sort_by before (λ g. g.0 == d) xs

module _ {P : Type 0} (d k : ℕ) (v : ℤ) (groups : List (ℕ × ℤ)) where
  other_key :
      (k == d) ≡ false → P ⊎ (has_key d ((k, v) ∷ groups) ≡ true) → P ⊎ (has_key d groups ≡ true)
  other_key e (inl p) = inl p
  other_key e (inr h) = inr (ground (arith, e, h))

pub assigned-IsPositive :
    (d : ℕ) (groups : List (ℕ × ℤ)) (v : ℤ)
    → All (λ g. IsPositive g.1) groups
    → (IsPositive v) ⊎ (has_key d groups ≡ true)
    → IsPositive (assigned d groups v)
unfolding assigned
assigned-IsPositive d [] v h (inl p) = p
assigned-IsPositive d [] v h (inr k) = let bad : ⊥ = ground (arith, k) in elim bad [ ]
assigned-IsPositive d ((k, total) ∷ groups) v h o = elim (Bool-cases (k == d)) [
  | inl e ↦ rw e (assigned-IsPositive d groups total h.1 (inl h.0))
  | inr e ↦ rw e (assigned-IsPositive d groups v h.1 (other_key d k total groups e o))
]

module _ {K : Type 0} (same : K → K → Bool) (R : K → Type 0) where
  All-add_total :
      (k : K) (v : ℤ) (groups : List (K × ℤ))
      → R k
      → All (λ g. R g.0) groups
      → All (λ g. R g.0) (add_total same k v groups)
  All-add_total k v [] r h = (r, tt)
  All-add_total k v ((j, total) ∷ groups) r h = elim (Bool-cases (same k j)) [
    | inl e ↦ rw e h
    | inr e ↦ rw e (h.0, All-add_total k v groups r h.1)
  ]

  -- what holds of the keys of the rows holds of the keys of the groups
  pub All-group_totals :
      (rows : List (K × ℤ)) → All (λ g. R g.0) rows → All (λ g. R g.0) (group_totals same rows)
  unfolding group_totals
  All-group_totals [] h = tt
  All-group_totals ((k, v) ∷ rows) h = All-add_total k v _ h.0 (All-group_totals rows h.1)
