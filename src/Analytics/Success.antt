-- ===== src/Analytics/Success.antt =====
-- `transactions_basic_analytics` on a database whose references are sound.
use family_assistant_kernel.Prelude.{
  ℕ, ◌≡◌, refl, ◌∙◌, Bool, true, ltb, ◌==◌, String, Option, none, some, List, [], ◌∷◌, All, All-zip,
  length, length-map, map, Bool-cases, inl, inr, arith,
}
use family_assistant_kernel.Prelude.Int.{ℤ, pos}
use family_assistant_kernel.Exec.{Result, ok, err, database}
use family_assistant_kernel.Storage.{find, exists}
use family_assistant_kernel.Storage.Order.{sort_by, All-sort_by, length-sort_by}
use family_assistant_kernel.Ledger.Tables.{Currency, Db}
use family_assistant_kernel.Analytics.{Range}
use family_assistant_kernel.Analytics.Grouping.{assigned}
use family_assistant_kernel.Analytics.Totals.{
  Results, no_analytics, given_pattern, both_dates, by_currency, by_category, by_source,
  by_timestamp, cost_values, for_each, write_cost_total, write_income_total, write_category,
  write_source, cost_totals, income_totals, category_totals, source_totals, fill, no_results,
  answer, unless_unfiltered, transactions_basic_analytics,
}
use family_assistant_kernel.Analytics.Answers.{
  IsPositive, Succeeds, bind-Succeeds, has_key, group_totals-IsPositive, has_key-group_totals,
  has_key-sort_by, assigned-IsPositive, All-group_totals,
}
use family_assistant_kernel.Analytics.Entries.{exists-sort_by, exists-no_results}
use family_assistant_kernel.Analytics.Ready.{
  TotalWillBe, IsReady, Ready, cost_loop, income_loop, source_loop, exchange_loop, category_loop,
}
use family_assistant_kernel.Analytics.Picked.{
  All-cost_values, All-income_values, All-source_values, All-exchanges_of, All-category_values,
}

-- The foreign keys of the transactions to the currencies hold, and the costs are positive, as the
-- validation of requests has them.
pub record IsReferred (db : Db) : Type 0 where
  pub costs : All (λ r. exists r.1.currency_id db.currencies.rows ≡ true) db.costs.rows
  pub values : All (λ r. IsPositive r.1.value) db.costs.rows
  pub incomes : All (λ r. exists r.1.currency_id db.currencies.rows ≡ true) db.incomes.rows
  pub gives : All (λ r. exists r.1.from_currency_id db.currencies.rows ≡ true) db.exchanges.rows
  pub gets : All (λ r. exists r.1.to_currency_id db.currencies.rows ≡ true) db.exchanges.rows

has_key_head : (k : ℕ) (v : ℤ) (vs : List (ℕ × ℤ)) → has_key k ((k, v) ∷ vs) ≡ true
has_key_head k v vs = ground arith

has_key_tail :
    (d k : ℕ) (v : ℤ) (vs : List (ℕ × ℤ)) → has_key d vs ≡ true → has_key d ((k, v) ∷ vs) ≡ true
has_key_tail d k v vs h = ground (arith, h)

All-has_key :
    (P : ℕ → Type 0) (vs : List (ℕ × ℤ))
    → ((d : ℕ) → has_key d vs ≡ true → P d)
    → All (λ v. P v.0) vs
All-has_key P [] f = tt
All-has_key P ((k, v) ∷ vs) f =
    (f k (has_key_head k v vs), All-has_key P vs (λ d h. f d (has_key_tail d k v vs h)))

module _ (matches : String → String → Bool) (pattern : Option String) (range : Range) (db : Db)
    (referred : IsReferred db) where
  abbrev known : ℕ → Bool
  known j = exists j db.currencies.rows

  abbrev keys : List (ℕ × ℤ)
  keys = cost_totals matches pattern range db

  no_results-total :
      (rows : List (ℕ × Currency)) (d : ℕ)
      → IsPositive (assigned d keys (pos 0))
      → TotalWillBe keys d (find d (map (λ r. (r.0, no_analytics r.1)) rows))
  unfolding find
  no_results-total [] d h = tt
  no_results-total ((j, c) ∷ rows) d h = elim (Bool-cases (d == j)) [
    | inl e ↦ rw e h
    | inr e ↦ rw e (no_results-total rows d h)
  ]

  keys-IsPositive : All (λ g. IsPositive g.1) keys
  keys-IsPositive =
      All-sort_by by_currency (λ g. IsPositive g.1) _
        (group_totals-IsPositive _ (
          All-cost_values matches pattern range (λ j. Unit) (λ g. IsPositive g.1) db.costs.rows
            referred.values))

  keys-known : All (λ g. known g.0 ≡ true) keys
  keys-known =
      All-sort_by by_currency (λ g. known g.0 ≡ true) _
        (All-group_totals _ (λ k. known k ≡ true) _
          (All-cost_values matches pattern range (λ j. Unit) (λ g. known g.0 ≡ true) db.costs.rows
            referred.costs))

  has_key-keys :
      (d : ℕ) → has_key d keys ≡ has_key d (cost_values matches pattern range db.costs.rows)
  has_key-keys d = has_key-sort_by by_currency d _ ∙ has_key-group_totals d _

  values-known :
      All
        (λ v. (known v.0 ≡ true) × (has_key v.0 keys ≡ true))
        (cost_values matches pattern range db.costs.rows)
  values-known =
      All-zip _ (λ v k h. (k, h))
        (All-cost_values matches pattern range (λ j. Unit) (λ v. known v.0 ≡ true) db.costs.rows
          referred.costs)
        (All-has_key (λ d. has_key d keys ≡ true) _ (λ d h. has_key-keys d ∙ h))

  no_results-IsReady :
      IsReady known (length db.currencies.rows) keys keys (no_results matches pattern range db)
  no_results-IsReady =
      let sorted = sort_by (λ r s. ltb s.0 r.0) db.currencies.rows in
      record {
        entries = λ j k. exists-no_results j sorted ∙ exists-sort_by _ j db.currencies.rows ∙ k;
        size = length-map sorted _ ∙ length-sort_by _ db.currencies.rows;
        totals = λ d k.
            no_results-total sorted d (assigned-IsPositive d keys (pos 0) keys-IsPositive (inr k));
      }

  fill-Succeeds :
      Succeeds
        (Ready known (length db.currencies.rows) keys)
        (fill matches pattern range db (no_results matches pattern range db))
  unfolding fill
  fill-Succeeds =
      let n = length db.currencies.rows in
      bind-Succeeds _ _ (for_each keys write_cost_total _) _
        (cost_loop known n keys keys _ keys-known no_results-IsReady)
        (λ rs1 h1.
          bind-Succeeds _ _
            (for_each (income_totals matches pattern range db) write_income_total rs1) _
            (income_loop known n keys _ rs1
              (All-sort_by by_currency (λ g. known g.0 ≡ true) _
                (All-group_totals _ (λ k. known k ≡ true) _
                  (All-income_values matches pattern range (λ k. known k ≡ true) db.incomes.rows
                    referred.incomes)))
              h1)
            (λ rs2 h2.
              bind-Succeeds _ _
                (for_each (category_totals matches pattern range db) write_category rs2) _
                (category_loop known n keys _ rs2
                  (All-sort_by by_category (λ g. (known g.0.0 ≡ true) × (has_key g.0.0 keys ≡ true))
                    _
                    (All-group_totals _ (λ k. (known k.0 ≡ true) × (has_key k.0 keys ≡ true)) _
                      (All-category_values matches pattern range
                        (λ k. (known k ≡ true) × (has_key k keys ≡ true)) db.categories.rows
                        db.costs.rows values-known)))
                  h2)
                (λ rs3 h3.
                  bind-Succeeds _ _
                    (for_each (source_totals matches pattern range db) write_source rs3) _
                    (source_loop known n keys _ rs3
                      (All-sort_by by_source (λ g. known g.0.0 ≡ true) _
                        (All-group_totals _ (λ k. known k.0 ≡ true) _
                          (All-source_values matches pattern range (λ k. known k ≡ true)
                            db.incomes.rows referred.incomes)))
                      h3)
                    (λ rs4 h4.
                      exchange_loop known n keys _ rs4
                        (All-sort_by by_timestamp
                          (λ y. (known y.from_currency_id ≡ true) × (known y.to_currency_id ≡ true))
                          _
                          (All-exchanges_of matches pattern range (λ k. known k ≡ true)
                            db.exchanges.rows referred.gives referred.gets))
                        h4))))

-- the entries of the answer: one for each currency, and no others
abbrev pub HasEntries : List (ℕ × Currency) → Results → Type 0
HasEntries currencies rs =
    (length rs ≡ length currencies) × ((k : ℕ) → exists k currencies ≡ true → exists k rs ≡ true)

abbrev pub IsAnswer : List (ℕ × Currency) → Result Results → Type 0
IsAnswer currencies (ok rs) = HasEntries currencies rs
IsAnswer currencies (err e) = ⊥

-- an answer when there is a pattern or a range, and otherwise the error of the validation
abbrev pub Outcome : Option String → Range → List (ℕ × Currency) → Result Results → Type 0
Outcome none none n r = r ≡ err database
Outcome none (some range) n r = IsAnswer n r
Outcome (some pattern) range n r = IsAnswer n r

unless_unfiltered-Outcome :
    (p : Option String) (range : Range) (n : List (ℕ × Currency)) (r : Result Results)
    → IsAnswer n r
    → Outcome p range n (unless_unfiltered p range r)
unless_unfiltered-Outcome none none n r h = refl
unless_unfiltered-Outcome none (some range) n r h = h
unless_unfiltered-Outcome (some p) none n r h = h
unless_unfiltered-Outcome (some p) (some range) n r h = h

answer-IsAnswer :
    (currencies : List (ℕ × Currency)) (groups : List (ℕ × ℤ)) (p : Result {0} Unit × Results)
    → Succeeds (Ready (λ j. exists j currencies) (length currencies) groups) p
    → IsAnswer currencies (answer p)
answer-IsAnswer currencies groups (ok tt, rs) h = (h.size, h.entries)
answer-IsAnswer currencies groups (err e, rs) h = elim h [ ]

module _ (matches : String → String → Bool) (pattern : Option String)
    (start_date end_date : Option ℕ) (db : Db) where
  -- When the transactions refer to currencies that exist and the costs are positive, the analytics
  -- answer with an entry for every currency and no others as soon as there is a pattern that is not empty or both
  -- dates, and raise the database error of their validation when there is neither.
  pub basic_analytics-Outcome :
      IsReferred db
      → Outcome
          (given_pattern pattern)
          (both_dates start_date end_date)
          db.currencies.rows
          (transactions_basic_analytics matches pattern start_date end_date db)
  unfolding transactions_basic_analytics
  basic_analytics-Outcome referred =
      let p = given_pattern pattern in
      let range = both_dates start_date end_date in
      unless_unfiltered-Outcome p range _ _
        (answer-IsAnswer db.currencies.rows _ _ (fill-Succeeds matches p range db referred))
