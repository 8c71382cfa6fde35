-- ===== src/Analytics/Equity.antt =====
-- The analytics over a period that has all the transactions, against the equity that the commands on
-- the ledger wrote (src/application/transactions.py).
use mathlib.Core.Option
use family_assistant_kernel.Prelude.{
  ℕ, ◌≡◌, refl, ◌∙◌, ap, Bool, true, ◌&&◌, String, none, some, List, [], ◌∷◌, All, All-map,
}
use family_assistant_kernel.Prelude.Int.{ℤ, ◌+ℤ◌, ◌-ℤ◌, int_laws}
use family_assistant_kernel.Exec.{Result, ok, err}
use family_assistant_kernel.Storage.{find, sum_by}
use family_assistant_kernel.Ledger.Tables.{Currency, Cost, Income, Exchange, Db, HasKeys}
use family_assistant_kernel.Ledger.Opening.{
  spent_in, earned_in, given_in, received_in, outgoing, opening,
}
use family_assistant_kernel.Ledger.Commands.{Command, run}
use family_assistant_kernel.Ledger.Conservation.{run-opening}
use family_assistant_kernel.Analytics.{Range, in_range}
use family_assistant_kernel.Analytics.Totals.{
  TransactionsBasicAnalytics, Results, transactions_basic_analytics,
}
use family_assistant_kernel.Analytics.Plain.{spent, earned, swapped}
use family_assistant_kernel.Analytics.Agreement.{Answered, Agrees, basic_analytics-Agrees}

and_true : (b : Bool) → b ≡ true → (b && true) ≡ true
and_true b h = rw h refl

-- every cost, income and exchange is of the period
pub record IsWithin (range : Range) (db : Db) : Type 0 where
  pub costs : All (λ r. in_range range r.1.timestamp ≡ true) db.costs.rows
  pub incomes : All (λ r. in_range range r.1.timestamp ≡ true) db.incomes.rows
  pub exchanges : All (λ r. in_range range r.1.timestamp ≡ true) db.exchanges.rows

join_sums : (r g a b : ℤ) → r -ℤ g +ℤ (a -ℤ b) ≡ r +ℤ a -ℤ (g +ℤ b)
join_sums r g a b = omega int_laws

module _ (matches : String → String → Bool) (range : Range) (j : ℕ) where
  spent-all :
      (rows : List (ℕ × Cost))
      → All (λ r. in_range range r.1.timestamp ≡ true) rows
      → spent matches none range j rows ≡ sum_by (spent_in j) rows
  unfolding sum_by
  spent-all [] h = refl
  spent-all ((id, c) ∷ rows) h =
      rw (and_true _ h.0) (ap (λ (z : ℤ). spent_in j c +ℤ z) (spent-all rows h.1))

  earned-all :
      (rows : List (ℕ × Income))
      → All (λ r. in_range range r.1.timestamp ≡ true) rows
      → earned matches none range j rows ≡ sum_by (earned_in j) rows
  unfolding sum_by
  earned-all [] h = refl
  earned-all ((id, i) ∷ rows) h =
      rw (and_true _ h.0) (ap (λ (z : ℤ). earned_in j i +ℤ z) (earned-all rows h.1))

  swapped-all :
      (rows : List (ℕ × Exchange))
      → All (λ r. in_range range r.1.timestamp ≡ true) rows
      → swapped matches none range j rows ≡ sum_by (received_in j) rows -ℤ sum_by (given_in j) rows
  unfolding swapped sum_by
  swapped-all [] h = omega int_laws
  swapped-all ((id, x) ∷ rows) h = rw (and_true _ h.0, swapped-all rows h.1) (join_sums _ _ _ _)

-- the equity with the costs given back, less the incomes and what the exchanges brought
abbrev pub before_transactions : TransactionsBasicAnalytics → Currency → ℤ
before_transactions a cur = cur.equity +ℤ (a.costs.total -ℤ a.incomes.total -ℤ a.from_exchanges)

rearrange : (c i r g : ℤ) → c -ℤ i -ℤ (r -ℤ g) ≡ c -ℤ i +ℤ g -ℤ r
rearrange c i r g = omega int_laws

module _ (matches : String → String → Bool) (range : Range) (db : Db)
    (within : IsWithin range db) where
  Agrees-opening :
      (j : ℕ) (a : TransactionsBasicAnalytics)
      → Agrees matches none range db j a
      → Option.map (before_transactions a) (find j db.currencies.rows) ≡ opening j db
  unfolding opening outgoing
  Agrees-opening j a h =
      ap (λ (z : ℤ). Option.map {A = Currency} (λ cur. cur.equity +ℤ z) (find j db.currencies.rows))
        (rw
          (
            h.costs,
            h.incomes,
            h.exchanges,
            spent-all matches range j db.costs.rows within.costs,
            earned-all matches range j db.incomes.rows within.incomes,
            swapped-all matches range j db.exchanges.rows within.exchanges,
          )
          (rearrange _ _ _ _))

Answered-map :
    (P Q : ℕ → TransactionsBasicAnalytics → Type 0) (r : Result Results)
    → ((j : ℕ) (a : TransactionsBasicAnalytics) → P j a → Q j a)
    → Answered P r
    → Answered Q r
Answered-map P Q (ok rs) f h = All-map rs (λ r. f r.0 r.1) h
Answered-map P Q (err e) f h = tt

module _ (matches : String → String → Bool) (start_date end_date : ℕ) where
  -- Take any commands on a ledger whose keys are sound. When the analytics over a period that has all
  -- the transactions answer after them, then the equity of each currency with the costs of the answer
  -- given back, less its incomes and its balance of exchanges, is the opening balance that the ledger
  -- had before the commands.
  pub basic_analytics-opening :
      (ks : List Command) (db : Db)
      → HasKeys db
      → IsWithin (some (start_date, end_date)) (run ks db)
      → Answered
          (λ j a.
            Option.map (before_transactions a) (find j (run ks db).currencies.rows) ≡ opening j db)
          (transactions_basic_analytics matches none (some start_date) (some end_date) (run ks db))
  basic_analytics-opening ks db keys within =
      Answered-map _ _ _
        (λ j a h.
          Agrees-opening matches (some (start_date, end_date)) (run ks db) within j a h
          ∙ run-opening j ks db keys)
        (basic_analytics-Agrees matches none (some start_date) (some end_date) (run ks db))
