-- ===== src/Analytics/Listing.antt =====
-- What every transaction of the list has in common with the filter.
use family_assistant_kernel.Prelude.{ℕ, ◌≤◌, ◌≡◌, Bool, true, String, Option, none, some, List, All}
use family_assistant_kernel.Exec.{Result, ok, err}
use family_assistant_kernel.Ledger.Tables.{Db}
use family_assistant_kernel.Analytics.{
  Operation, TransactionsFilter, Transaction, current_month, previous_month, Months, Range,
  dates_of, in_range, is_id,
}

module _ (P : Transaction → Type 0) where
  abbrev Holds : Option Transaction → Type 0
  Holds none = Unit
  Holds (some t) = P t

abbrev pub IsOperation : Option Operation → Operation → Type 0
IsOperation none o = Unit
IsOperation (some p) o = o ≡ p

-- The dates that a filter asks for: a period's, else those of both dates; one date alone asks for none.
abbrev pub InDates : Months → TransactionsFilter → ℕ → Type 0
InDates m f d = elim f.period [
  | some current_month ↦ (m.first_of_current ≤ d) × (d ≤ m.today)
  | some previous_month ↦ (m.first_of_previous ≤ d) × (d ≤ m.last_of_previous)
  | none ↦ elim f.start_date [
    | none ↦ Unit
    | some s ↦ elim f.end_date [ none ↦ Unit | some e ↦ (s ≤ d) × (d ≤ e) ]
  ]
]

abbrev pub InCurrency : Option ℕ → ℕ → Type 0
InCurrency none k = Unit
InCurrency (some j) k = k ≡ j

-- the transaction is of the dates, in the currency and of the operation that the filter names
abbrev pub Fits : Months → TransactionsFilter → Transaction → Type 0
Fits m f t =
    InDates m f t.timestamp
    × InCurrency f.currency_id t.currency_id
    × IsOperation f.operation t.operation

-- the same, for the rows of one table
abbrev FitsTable : TransactionsFilter → Range → Operation → Transaction → Type 0
FitsTable f range o t =
    (in_range range t.timestamp ≡ true)
    × (is_id f.currency_id t.currency_id ≡ true)
    × (t.operation ≡ o)

module _ (matches : String → String → Bool) (months : Months) (f : TransactionsFilter) (user_id : ℕ)
    (db : Db) where
  chosen : Range
  chosen = dates_of months f.period f.start_date f.end_date

abbrev pub Listed : (Transaction → Type 0) → Result (List Transaction × ℕ) → Type 0
Listed P (ok (items, total)) = All P items
Listed P (err e) = Unit
