-- ===== src/Ledger/Opening.antt =====
-- The opening balance of a currency: its equity with every recorded cost, income and exchange taken
-- back. What the statements of a transaction do to it.
use mathlib.Core.Option
use family_assistant_kernel.Prelude.{
  ℕ, ◌≡◌, refl, ap, Bool, true, false, Bool-cases, inl, inr, sym, Option, none, some, arith, ◌==◌,
  if◌then◌else◌,
}
use family_assistant_kernel.Prelude.Int.{ℤ, pos, ◌+ℤ◌, ◌-ℤ◌, int_laws}
use family_assistant_kernel.Exec.{Exec, Result, ok, err}
use family_assistant_kernel.Storage.{find, sum_by}
use family_assistant_kernel.Storage.Laws.{find-update_rows}
use family_assistant_kernel.Ledger.Tables.{Currency, Cost, Income, Exchange, Db, fits_int4}
use family_assistant_kernel.Ledger.Currencies.{set_equity, write_found, write_equity}

-- an amount `v` in the currency `k`, as the currency `c` sees it
abbrev pub charge : ℕ → ℕ → ℤ → ℤ
charge c k v = if k == c then v else pos 0

abbrev pub spent_in : ℕ → Cost → ℤ
spent_in c x = charge c x.currency_id x.value

abbrev pub earned_in : ℕ → Income → ℤ
earned_in c x = charge c x.currency_id x.value

abbrev pub given_in : ℕ → Exchange → ℤ
given_in c x = charge c x.from_currency_id x.from_value

abbrev pub received_in : ℕ → Exchange → ℤ
received_in c x = charge c x.to_currency_id x.to_value

-- costs and what exchanges gave, less incomes and what exchanges brought
unfoldable pub outgoing : ℕ → Db → ℤ
outgoing c db =
    sum_by (spent_in c) db.costs.rows
    -ℤ sum_by (earned_in c) db.incomes.rows
    +ℤ sum_by (given_in c) db.exchanges.rows
    -ℤ sum_by (received_in c) db.exchanges.rows

unfoldable pub opening : ℕ → Db → Option ℤ
unfolding outgoing
opening c db = Option.map (λ cur. cur.equity +ℤ outgoing c db) (find c db.currencies.rows)

abbrev pub shift : ℤ → Option ℤ → Option ℤ
shift z none = none
shift z (some e) = some (e +ℤ z)

pub shift-shift : (a b : ℤ) (o : Option ℤ) → shift a (shift b o) ≡ shift (b +ℤ a) o
shift-shift a b none = refl
shift-shift a b (some e) = ap (λ (x : ℤ). some x) (omega int_laws)

pub shift-zero : (z : ℤ) (o : Option ℤ) → z ≡ pos 0 → shift z o ≡ o
shift-zero z none h = refl
shift-zero z (some e) h = rw h (ap (λ (x : ℤ). some x) (omega int_laws))

-- what a run that began at `s` has done to the opening balance of `c`, if it returned
abbrev pub Moved : {A : Type 0} → ℕ → ℤ → Db → Result A × Db → Type 0
Moved c z s (ok a, s') = opening c s' ≡ shift z (opening c s)
Moved c z s (err e, s') = Unit

-- a successful run of `m` moves the opening balance of `c` by `z`
pub record Shifts {A : Type 0} (c : ℕ) (z : ℤ) (m : Exec Db A) : Type 0 where
  pub at : (s : Db) → Moved c z s (m s)

set_equity_shift :
    (b : Bool) (e out : ℤ) (cur : Currency) (o : Option Currency)
    → (b ≡ true → o ≡ some cur)
    → Option.map {A = Currency}
        (λ x. x.equity +ℤ out)
        (if b then Option.map {A = Currency} (λ x. record x { equity = e }) o else o)
      ≡ shift
          (if b then e -ℤ cur.equity else pos 0)
          (Option.map {A = Currency} (λ x. x.equity +ℤ out) o)
set_equity_shift true e out cur none h = cc (h refl)
set_equity_shift true e out cur (some x) h =
    let same : x ≡ cur = cc (h refl) in
    let equal : x.equity ≡ cur.equity = ap (λ (y : Currency). y.equity) same in
    rw equal (ap (λ (z : ℤ). some z) (omega int_laws))
set_equity_shift false e out cur none h = refl
set_equity_shift false e out cur (some x) h = ap (λ (z : ℤ). some z) (omega int_laws)

opening-set_equity :
    (c k : ℕ) (e : ℤ) (cur : Currency) (db : Db)
    → find k db.currencies.rows ≡ some cur
    → opening c (set_equity k e db) ≡ shift (charge c k (e -ℤ cur.equity)) (opening c db)
unfolding opening outgoing set_equity
opening-set_equity c k e cur db h =
    rw (find-update_rows c k (λ x. record x { equity = e }) db.currencies.rows) (
      set_equity_shift (k == c) e (outgoing c db) cur (find c db.currencies.rows)
        (λ same. ground (arith, h)))

opening_of_missing :
    (c k : ℕ) (z : ℤ) (db : Db)
    → find k db.currencies.rows ≡ none
    → opening c db ≡ shift (charge c k z) (opening c db)
unfolding opening
opening_of_missing c k z db h = elim (Bool-cases (k == c)) [
  | inl same ↦ ground (arith, h)
  | inr differ ↦ rw differ (sym (shift-zero (pos 0) (opening c db) refl))
]

write_found-Moved :
    (c k : ℕ) (f : ℤ → ℤ) (z : ℤ) (s : Db) (o : Option Currency)
    → ((e : ℤ) → f e -ℤ e ≡ z)
    → find k s.currencies.rows ≡ o
    → Moved c (charge c k z) s (write_found k f s o)
unfolding write_found
write_found-Moved c k f z s none h found = opening_of_missing c k z s found
write_found-Moved c k f z s (some cur) h found = elim (Bool-cases (fits_int4 (f cur.equity))) [
  | inl fits ↦ rw (fits, ← h cur.equity) (opening-set_equity c k (f cur.equity) cur s found)
  | inr large ↦ rw large tt
]

pub write_equity-Shifts :
    (c k : ℕ) (f : ℤ → ℤ) (z : ℤ)
    → ((e : ℤ) → f e -ℤ e ≡ z)
    → Shifts c (charge c k z) (write_equity k f)
unfolding write_equity
write_equity-Shifts c k f z h = record {
  at = λ s. write_found-Moved c k f z s (find k s.currencies.rows) h refl;
}
