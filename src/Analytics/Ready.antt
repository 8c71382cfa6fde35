-- ===== src/Analytics/Ready.antt =====
-- The loops of `transactions_basic_analytics` raise nothing when every currency that they write has
-- its entry and every currency with a category has a total.
use mathlib.Core.Option
use mathlib.Core.Path.{subst}
use family_assistant_kernel.Prelude.{
  ℕ, suc, ◌≡◌, refl, ◌∙◌, ap, Bool, true, false, ◌==◌, Option, none, some, List, [], ◌∷◌,
  if◌then◌else◌, All, length, arith,
}
use family_assistant_kernel.Prelude.Int.{ℤ}
use family_assistant_kernel.Storage.{find, exists, update_rows}
use family_assistant_kernel.Storage.Laws.{find-update_rows}
use family_assistant_kernel.Storage.Exists.{exists-update_rows, find_of_exists}
use family_assistant_kernel.Ledger.Tables.{Exchange}
use family_assistant_kernel.Analytics.Grouping.{assigned}
use family_assistant_kernel.Analytics.Totals.{
  TransactionsBasicAnalytics, Results, CategoryKey, SourceKey, assign, for_each, set_costs,
  set_incomes, add_category, add_source, add_exchanged, take_exchanged, divides, write_cost_total,
  write_income_total, write_category, write_source, write_exchange,
}
use family_assistant_kernel.Analytics.Answers.{
  IsPositive, Succeeds, bind-Succeeds, assign-Succeeds, for_each-Succeeds, has_key,
  IsPositive-nonzero,
}

length-update_rows :
    {A : Type 0} (k : ℕ) (f : A → A) (rows : List (ℕ × A))
    → length (update_rows k f rows) ≡ length rows
unfolding update_rows
length-update_rows k f [] = refl
length-update_rows k f ((j, a) ∷ rows) = ap suc (length-update_rows k f rows)

abbrev pub TotalWillBe : List (ℕ × ℤ) → ℕ → Option TransactionsBasicAnalytics → Type 0
TotalWillBe groups d none = Unit
TotalWillBe groups d (some a) = IsPositive (assigned d groups a.costs.total)

module _ (known : ℕ → Bool) (n : ℕ) (keys groups : List (ℕ × ℤ)) where
  -- Every known currency has an entry, and the totals of the keys will be positive.
  pub record IsReady (rs : Results) : Type 0 where
    pub entries : (j : ℕ) → known j ≡ true → exists j rs ≡ true
    pub size : length rs ≡ n
    pub totals : (d : ℕ) → has_key d keys ≡ true → TotalWillBe groups d (find d rs)

  keep_total :
      (b : Bool) (d : ℕ) (f : TransactionsBasicAnalytics → TransactionsBasicAnalytics)
      (o : Option TransactionsBasicAnalytics)
      → ((a : TransactionsBasicAnalytics) → (f a).costs.total ≡ a.costs.total)
      → TotalWillBe groups d o
      → TotalWillBe groups d (if b then Option.map f o else o)
  keep_total true d f none keeps h = tt
  keep_total true d f (some a) keeps h = rw (keeps a) h
  keep_total false d f o keeps h = h

  update_rows-IsReady :
      (c : ℕ) (f : TransactionsBasicAnalytics → TransactionsBasicAnalytics) (rs : Results)
      → ((a : TransactionsBasicAnalytics) → (f a).costs.total ≡ a.costs.total)
      → IsReady rs
      → IsReady (update_rows c f rs)
  update_rows-IsReady c f rs keeps h = record {
    entries = λ j k. exists-update_rows j c f rs ∙ h.entries j k;
    size = length-update_rows c f rs ∙ h.size;
    totals = λ d k.
        rw (find-update_rows d c f rs) (keep_total (c == d) d f (find d rs) keeps (h.totals d k));
  }

  assign-IsReady :
      (c : ℕ) (f : TransactionsBasicAnalytics → TransactionsBasicAnalytics) (rs : Results)
      → ((a : TransactionsBasicAnalytics) → (f a).costs.total ≡ a.costs.total)
      → known c ≡ true
      → IsReady rs
      → Succeeds IsReady (assign c f rs)
  assign-IsReady c f rs keeps k h =
      assign-Succeeds IsReady c f rs (h.entries c k) (update_rows-IsReady c f rs keeps h)

set_total :
    (b : Bool) (d : ℕ) (groups : List (ℕ × ℤ)) (k : ℕ) (t : ℤ)
    (o : Option TransactionsBasicAnalytics)
    → (k == d) ≡ b
    → TotalWillBe ((k, t) ∷ groups) d o
    → TotalWillBe groups d (if b then Option.map (set_costs t) o else o)
unfolding assigned
set_total true d groups k t none e h = tt
set_total false d groups k t none e h = tt
set_total true d groups k t (some a) e h =
    subst (λ (b : Bool). IsPositive (assigned d groups (if b then t else a.costs.total))) e h
set_total false d groups k t (some a) e h =
    subst (λ (b : Bool). IsPositive (assigned d groups (if b then t else a.costs.total))) e h

module _ (known : ℕ → Bool) (n : ℕ) (keys : List (ℕ × ℤ)) where
  abbrev pub Ready : Results → Type 0
  Ready = IsReady known n keys []

  pub cost_loop :
      (groups : List (ℕ × ℤ)) (rs : Results)
      → All (λ g. known g.0 ≡ true) groups
      → IsReady known n keys groups rs
      → Succeeds Ready (for_each groups write_cost_total rs)
  cost_loop =
      for_each-Succeeds write_cost_total (λ g. known g.0 ≡ true) (IsReady known n keys)
        (λ g gs rs q h.
          assign-Succeeds (IsReady known n keys gs) g.0 (set_costs g.1) rs (h.entries g.0 q)
            (record {
              entries = λ j k. exists-update_rows j g.0 (set_costs g.1) rs ∙ h.entries j k;
              size = length-update_rows g.0 (set_costs g.1) rs ∙ h.size;
              totals = λ d k.
                  rw (find-update_rows d g.0 (set_costs g.1) rs)
                    (set_total (g.0 == d) d gs g.0 g.1 (find d rs) refl (h.totals d k));
            }))

  pub income_loop :
      (groups : List (ℕ × ℤ)) (rs : Results)
      → All (λ g. known g.0 ≡ true) groups
      → Ready rs
      → Succeeds Ready (for_each groups write_income_total rs)
  income_loop =
      for_each-Succeeds write_income_total (λ g. known g.0 ≡ true) (λ gs. Ready)
        (λ g gs rs q h. assign-IsReady known n keys [] g.0 (set_incomes g.1) rs (λ a. refl) q h)

  pub source_loop :
      (groups : List (SourceKey × ℤ)) (rs : Results)
      → All (λ g. known g.0.0 ≡ true) groups
      → Ready rs
      → Succeeds Ready (for_each groups write_source rs)
  source_loop =
      for_each-Succeeds write_source (λ g. known g.0.0 ≡ true) (λ gs. Ready)
        (λ g gs rs q h.
          assign-IsReady known n keys [] g.0.0 (add_source g.0.1 g.1) rs (λ a. refl) q h)

  pub exchange_loop :
      (ys : List Exchange) (rs : Results)
      → All (λ y. (known y.from_currency_id ≡ true) × (known y.to_currency_id ≡ true)) ys
      → Ready rs
      → Succeeds Ready (for_each ys write_exchange rs)
  exchange_loop =
      for_each-Succeeds write_exchange
        (λ y. (known y.from_currency_id ≡ true) × (known y.to_currency_id ≡ true)) (λ ys. Ready)
        (λ y ys rs q h.
          bind-Succeeds Ready Ready (assign y.from_currency_id (take_exchanged y.from_value) rs) _
            (assign-IsReady known n keys [] y.from_currency_id (take_exchanged y.from_value) rs
              (λ a. refl) q.0 h)
            (λ rs' h'.
              assign-IsReady known n keys [] y.to_currency_id (add_exchanged y.to_value) rs'
                (λ a. refl) q.1 h'))

  divides-Ready :
      (o : Option TransactionsBasicAnalytics) (a : TransactionsBasicAnalytics) (d : ℕ)
      (rs : Results)
      → o ≡ some a
      → TotalWillBe [] d o
      → Ready rs
      → Succeeds Ready (divides o rs)
  unfolding assigned
  divides-Ready none a d rs e t h = let bad : ⊥ = ground (arith, e) in elim bad [ ]
  divides-Ready (some b) a d rs e t h = rw (IsPositive-nonzero b.costs.total t) h

  pub category_loop :
      (groups : List (CategoryKey × ℤ)) (rs : Results)
      → All (λ g. (known g.0.0 ≡ true) × (has_key g.0.0 keys ≡ true)) groups
      → Ready rs
      → Succeeds Ready (for_each groups write_category rs)
  category_loop =
      for_each-Succeeds write_category (λ g. (known g.0.0 ≡ true) × (has_key g.0.0 keys ≡ true))
        (λ gs. Ready)
        (λ g gs rs q h.
          let (a, e) = find_of_exists g.0.0 rs (h.entries g.0.0 q.0) in
          bind-Succeeds Ready Ready (divides (find g.0.0 rs) rs) _
            (divides-Ready (find g.0.0 rs) a g.0.0 rs e (h.totals g.0.0 q.1) h)
            (λ rs' h'.
              assign-IsReady known n keys [] g.0.0 (add_category g.0.1 g.0.2 g.1) rs' (λ a. refl)
                q.0 h'))
