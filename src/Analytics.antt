-- ===== src/Analytics.antt =====
-- The list of transactions: `TransactionsAnalyticsService.transactions` of
-- src/infrastructure/query_services/analytics.py and the pagination of src/infrastructure/database/dal.py.
-- The match of PostgreSQL's `ilike` and the months of src/infrastructure/dates.py are parameters; the
-- smallest value of the filter is in cents.
pub mod Listing
pub mod Grouping
pub mod Totals
pub mod Loops
pub mod Sums
pub mod Balance
pub mod Plain
pub mod Agreement
pub mod Equity
pub mod Answers
pub mod Ready
pub mod Picked
pub mod Entries
pub mod Success
pub mod Request
mod Family
mod Tests
use family_assistant_kernel.Prelude.{
  ℕ, zero, suc, Bool, true, false, not, ◌&&◌, ◌||◌, ltb, leb, ◌==◌, String, Option, none, some,
  List, [], ◌∷◌, ◌++◌, if◌then◌else◌, take, drop, length,
}
use family_assistant_kernel.Prelude.Int.{ℤ, pos, negsuc, leb_ℤ}
use family_assistant_kernel.Exec.{Result, ok, err, value_error}
use family_assistant_kernel.Storage.{Table, find}
use family_assistant_kernel.Storage.Order.{sort_by}
use family_assistant_kernel.Ledger.Tables.{Currency, Cost, Income, Exchange, Db}

pub data Operation : Type 0 where
  cost income exchange : Operation

pub data Period : Type 0 where
  current_month previous_month : Period

pub record TransactionsFilter : Type 0 where
  pub only_mine : Bool
  pub operation : Option Operation
  pub currency_id : Option ℕ
  pub cost_category_id : Option ℕ
  pub start_date : Option ℕ
  pub end_date : Option ℕ
  pub period : Option Period
  pub pattern : Option String
  pub min_cents : Option ℤ

pub record Transaction : Type 0 where
  pub id : ℕ
  pub name : String
  pub icon : String
  pub value : ℤ
  pub timestamp : ℕ
  pub operation : Operation
  pub currency_id : ℕ
  pub currency : Currency
  pub user : String

-- what the functions of dates.py answer on the day of the request
pub record Months : Type 0 where
  pub today : ℕ
  pub first_of_current : ℕ
  pub first_of_previous : ℕ
  pub last_of_previous : ℕ

abbrev pub Range : Type 0
Range = Option (ℕ × ℕ)

-- the `_start_date` and `_end_date` of the query, when it has them
unfoldable pub dates_of : Months → Option Period → Option ℕ → Option ℕ → Range
dates_of m (some current_month) s e = some (m.first_of_current, m.today)
dates_of m (some previous_month) s e = some (m.first_of_previous, m.last_of_previous)
dates_of m none none e = none
dates_of m none (some s) none = none
dates_of m none (some s) (some e) = some (s, e)

abbrev pub in_range : Range → ℕ → Bool
in_range none d = true
in_range (some (s, e)) d = leb s d && leb d e

abbrev pub is_id : Option ℕ → ℕ → Bool
is_id none k = true
is_id (some j) k = k == j

abbrev pub at_least : Option ℤ → ℤ → Bool
at_least none v = true
at_least (some m) v = leb_ℤ m v

abbrev pub is_mine : Bool → ℕ → ℕ → Bool
is_mine only_mine user_id k = not only_mine || (k == user_id)

-- an inner join: a row without its partner is not in the result
module _ {A : Type 0} where
  abbrev pub joined : Option A → (A → Option Transaction) → Option Transaction
  joined none f = none
  joined (some a) f = f a

abbrev pub prepend : Option Transaction → List Transaction → List Transaction
prepend none ts = ts
prepend (some t) ts = t ∷ ts

module _ (matches : String → String → Bool) (f : TransactionsFilter) (user_id : ℕ) (range : Range)
    (db : Db) where
  abbrev pub like : Option String → String → Bool
  like none name = true
  like (some pattern) name = matches pattern name

  unfoldable pub cost_transaction : ℕ → Cost → Option Transaction
  unfolding find
  cost_transaction id c = joined (find c.currency_id db.currencies.rows) (λ cur.
      joined (find c.category_id db.categories.rows) (λ category.
        joined (find c.user_id db.users.rows) (λ user. some (record {
          id = id;
          name = c.name;
          icon = category;
          value = c.value;
          timestamp = c.timestamp;
          operation = cost;
          currency_id = c.currency_id;
          currency = cur;
          user = user;
        }))))

  unfoldable pub income_transaction : ℕ → Income → Option Transaction
  unfolding find
  income_transaction id i = joined (find i.currency_id db.currencies.rows) (λ cur.
      joined (find i.user_id db.users.rows) (λ user. some (record {
        id = id;
        name = i.name;
        icon = "🤑";
        value = i.value;
        timestamp = i.timestamp;
        operation = income;
        currency_id = i.currency_id;
        currency = cur;
        user = user;
      })))

  unfoldable pub exchange_transaction_row : ℕ → Exchange → Option Transaction
  unfolding find
  exchange_transaction_row id x = joined (find x.to_currency_id db.currencies.rows) (λ cur.
      joined (find x.user_id db.users.rows) (λ user. some (record {
        id = id;
        name = "exchange";
        icon = "💱";
        value = x.to_value;
        timestamp = x.timestamp;
        operation = exchange;
        currency_id = x.to_currency_id;
        currency = cur;
        user = user;
      })))

  abbrev pub wanted_cost : Cost → Bool
  wanted_cost c =
      in_range range c.timestamp
      && (is_mine f.only_mine user_id c.user_id
          && (is_id f.currency_id c.currency_id
              && (is_id f.cost_category_id c.category_id
                  && (like f.pattern c.name && at_least f.min_cents c.value))))

  abbrev pub wanted_income : Income → Bool
  wanted_income i =
      in_range range i.timestamp
      && (is_mine f.only_mine user_id i.user_id
          && (is_id f.currency_id i.currency_id
              && (like f.pattern i.name && at_least f.min_cents i.value)))

  abbrev pub wanted_exchange : Exchange → Bool
  wanted_exchange x =
      in_range range x.timestamp
      && (is_mine f.only_mine user_id x.user_id
          && (is_id f.currency_id x.to_currency_id && at_least f.min_cents x.from_value))

  unfoldable pub cost_query : List (ℕ × Cost) → List Transaction
  unfolding cost_transaction
  cost_query [] = []
  cost_query ((id, c) ∷ rows) =
      let rest = cost_query rows in
      if wanted_cost c then prepend (cost_transaction id c) rest else rest

  unfoldable pub income_query : List (ℕ × Income) → List Transaction
  unfolding income_transaction
  income_query [] = []
  income_query ((id, i) ∷ rows) =
      let rest = income_query rows in
      if wanted_income i then prepend (income_transaction id i) rest else rest

  unfoldable pub exchange_query : List (ℕ × Exchange) → List Transaction
  unfolding exchange_transaction_row
  exchange_query [] = []
  exchange_query ((id, x) ∷ rows) =
      let rest = exchange_query rows in
      if wanted_exchange x then prepend (exchange_transaction_row id x) rest else rest

  -- the `union_all` of the queries that the operation asks for
  abbrev pub union_all : Option Operation → List Transaction
  union_all none =
      cost_query db.costs.rows ++ (income_query db.incomes.rows ++ exchange_query db.exchanges.rows)
  union_all (some cost) = cost_query db.costs.rows
  union_all (some income) = income_query db.incomes.rows
  union_all (some exchange) = exchange_query db.exchanges.rows

-- `order by timestamp desc, id desc`
abbrev pub newer : Transaction → Transaction → Bool
newer a b = ltb b.timestamp a.timestamp || ((a.timestamp == b.timestamp) && ltb b.id a.id)

module _ {A : Type 0} where
  -- a limit of 0 is no limit
  abbrev pub cut : ℕ → List A → List A
  cut zero xs = xs
  cut (suc n) xs = take (suc n) xs

  unfoldable pub add_pagination_filters : ℤ → ℤ → List A → Result (List A)
  add_pagination_filters (negsuc o) limit xs = err value_error
  add_pagination_filters (pos offset) (negsuc l) xs = err value_error
  add_pagination_filters (pos offset) (pos limit) xs = ok (cut limit (drop offset xs))

abbrev pub with_total : ℕ → Result (List Transaction) → Result (List Transaction × ℕ)
with_total total (err e) = err e
with_total total (ok items) = ok (items, total)

unfoldable pub final_query :
    (String → String → Bool) → Months → TransactionsFilter → ℕ → Db → List Transaction
unfolding dates_of
final_query matches months f user_id db =
    sort_by newer (
      union_all matches f user_id (dates_of months f.period f.start_date f.end_date) db f.operation)

unfoldable pub transactions :
    (String → String → Bool)
    → Months
    → TransactionsFilter
    → ℕ
    → ℤ
    → ℤ
    → Db
    → Result (List Transaction × ℕ)
unfolding final_query add_pagination_filters
transactions matches months f user_id offset limit db =
    let rows = final_query matches months f user_id db in
    with_total (length rows) (add_pagination_filters offset limit rows)
