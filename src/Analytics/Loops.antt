-- ===== src/Analytics/Loops.antt =====
-- The loops of `transactions_basic_analytics` over the dictionary of the results.
use family_assistant_kernel.Prelude.{
  ℕ, ◌==◌, List, [], ◌∷◌, if◌then◌else◌, All, Bool-cases, inl, inr,
}
use family_assistant_kernel.Exec.{Result, ok, err, Exec, continue}
use family_assistant_kernel.Storage.{exists, update_rows}
use family_assistant_kernel.Analytics.Totals.{TransactionsBasicAnalytics, Results, assign, for_each}

-- what a run of the loops leaves true of every currency, when it returned
abbrev pub Returned : (ℕ → TransactionsBasicAnalytics → Type 0) → Result {0} Unit × Results → Type 0
Returned R (ok tt, rs) = All (λ r. R r.0 r.1) rs
Returned R (err e, rs) = Unit

module _ (R Q : ℕ → TransactionsBasicAnalytics → Type 0) where
  pub bind-Returned :
      (p : Result {0} Unit × Results) (rest : Exec Results Unit)
      → Returned R p
      → ((rs : Results) → All (λ r. R r.0 r.1) rs → Returned Q (rest rs))
      → Returned Q (continue p.0 (λ _. rest) p.1)
  bind-Returned (ok tt, rs) rest h f = f rs h
  bind-Returned (err e, rs) rest h f = tt

  update_rows-All :
      (c : ℕ) (f : TransactionsBasicAnalytics → TransactionsBasicAnalytics) (rs : Results)
      → ((j : ℕ) (a : TransactionsBasicAnalytics) → R j a → Q j (if c == j then f a else a))
      → All (λ r. R r.0 r.1) rs
      → All (λ r. Q r.0 r.1) (update_rows c f rs)
  unfolding update_rows
  update_rows-All c f [] step h = tt
  update_rows-All c f ((j, a) ∷ rs) step h = (step j a h.0, update_rows-All c f rs step h.1)

  pub assign-Returned :
      (c : ℕ) (f : TransactionsBasicAnalytics → TransactionsBasicAnalytics) (rs : Results)
      → ((j : ℕ) (a : TransactionsBasicAnalytics) → R j a → Q j (if c == j then f a else a))
      → All (λ r. R r.0 r.1) rs
      → Returned Q (assign c f rs)
  unfolding assign
  assign-Returned c f rs step h = elim (Bool-cases (exists c rs)) [
    | inl e ↦ rw e (update_rows-All c f rs step h)
    | inr e ↦ rw e tt
  ]

module _ {X : Type 0} (body : X → Exec Results Unit)
    (P : List X → ℕ → TransactionsBasicAnalytics → Type 0) where
  pub for_each-Returned :
      ((x : X) (xs : List X) (rs : Results)
        → All (λ r. P (x ∷ xs) r.0 r.1) rs
        → Returned (P xs) (body x rs))
      → (xs : List X) (rs : Results) → All (λ r. P xs r.0 r.1) rs
      → Returned (P []) (for_each xs body rs)
  unfolding for_each
  for_each-Returned step [] rs h = h
  for_each-Returned step (x ∷ xs) rs h =
      bind-Returned (P xs) (P []) (body x rs) (for_each xs body) (step x xs rs h)
        (for_each-Returned step xs)
