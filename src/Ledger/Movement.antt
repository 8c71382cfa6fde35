-- ===== src/Ledger/Movement.antt =====
-- How the opening balance moves along a transaction: the rule for a sequence, the two statements on the
-- equity, and the statements on a row of costs, incomes and exchanges.
use mathlib.Core.Option
use family_assistant_kernel.Prelude.{
  ◌&&◌, ℕ, ◌≡◌, refl, sym, ◌∙◌, ap, Bool, true, false, not, ◌||◌, Bool-cases, inl, inr, Option,
  none, some, ◌==◌, if◌then◌else◌,
}
use family_assistant_kernel.Prelude.Int.{ℤ, pos, ◌+ℤ◌, ◌-ℤ◌, int_laws}
use family_assistant_kernel.Exec.{
  Error, Exec, Result, ok, err, pure, raise_if, lift, continue, ◌>>=◌, transaction, end_transaction,
}
use family_assistant_kernel.Storage.{find, insert, IsTable}
use family_assistant_kernel.Storage.Laws.{sum_by-append, sum_by-update_rows, sum_by-delete_rows}
use family_assistant_kernel.Ledger.Tables.{
  Currency, Cost, Income, Exchange, Db, fits_int4, fits_name,
}
use family_assistant_kernel.Ledger.Currencies.{decrease_equity, increase_equity}
use family_assistant_kernel.Ledger.Costs.{cost_references, add_cost_row, put_cost, delete_cost_row}
use family_assistant_kernel.Ledger.Incomes.{
  income_references, add_income_row, put_income, delete_income_row,
}
use family_assistant_kernel.Ledger.Exchanges.{
  exchange_references, add_exchange_row, delete_exchange_row,
}
use family_assistant_kernel.Ledger.Opening.{
  charge, spent_in, earned_in, given_in, received_in, outgoing, opening, shift, shift-shift,
  shift-zero, Moved, Shifts, write_equity-Shifts,
}

module _ {A B : Type 0} where
  Moved-continue :
      (c : ℕ) (a b : ℤ) (f : A → Exec Db B) (s : Db) (p : Result A × Db)
      → Moved c a s p
      → ((x : A) → Shifts c b (f x))
      → Moved c (a +ℤ b) s (continue p.0 f p.1)
  Moved-continue c a b f s (ok x, s1) h k = Moved-after c a b s s1 (f x s1) h ((k x).at s1)
    where
      Moved-after :
          (c : ℕ) (a b : ℤ) (s s1 : Db) (p : Result B × Db)
          → opening c s1 ≡ shift a (opening c s)
          → Moved c b s1 p
          → Moved c (a +ℤ b) s p
      Moved-after c a b s s1 (ok y, s2) h m = m ∙ ap (shift b) h ∙ shift-shift b a (opening c s)
      Moved-after c a b s s1 (err e, s2) h m = tt
  Moved-continue c a b f s (err e, s1) h k = tt

  -- from a known start, then whatever follows
  pub Moved-bind :
      (c : ℕ) (a b : ℤ) (m : Exec Db A) (f : A → Exec Db B) (s : Db)
      → Moved c a s (m s)
      → ((x : A) → Shifts c b (f x))
      → Moved c (a +ℤ b) s ((m >>= f) s)
  Moved-bind c a b m f s h k = Moved-continue c a b f s (m s) h k

  pub Shifts-bind :
      (c : ℕ) (a b : ℤ) (m : Exec Db A) (f : A → Exec Db B)
      → Shifts c a m
      → ((x : A) → Shifts c b (f x))
      → Shifts c (a +ℤ b) (m >>= f)
  Shifts-bind c a b m f h k = record { at = λ s. Moved-bind c a b m f s (h.at s) k }

module _ {A : Type 0} where
  pub Shifts-pure : (c : ℕ) (a : A) → Shifts c (pos 0) (pure a)
  Shifts-pure c a = record { at = λ s. sym (shift-zero (pos 0) (opening c s) refl) }

  pub Shifts-lift : (c : ℕ) (r : Result A) → Shifts c (pos 0) (lift r)
  Shifts-lift c (ok a) = record { at = λ s. sym (shift-zero (pos 0) (opening c s) refl) }
  Shifts-lift c (err e) = record { at = λ s. tt }

pub Shifts-raise_if : (c : ℕ) (b : Bool) (e : Error) → Shifts c (pos 0) (raise_if b e)
Shifts-raise_if c true e = record { at = λ s. tt }
Shifts-raise_if c false e = record { at = λ s. sym (shift-zero (pos 0) (opening c s) refl) }

pub Moved-cast :
    {A : Type 0} (c : ℕ) (a b : ℤ) (s : Db) (p : Result A × Db)
    → a ≡ b
    → Moved c a s p
    → Moved c b s p
Moved-cast c a b s p e h = rw (← e) h

pub decrease_equity-Shifts :
    (c k : ℕ) (v : ℤ) → Shifts c (pos 0 -ℤ charge c k v) (decrease_equity k v)
unfolding decrease_equity
decrease_equity-Shifts c k v = record {
  at = λ s. Moved-cast c _ _ s _ (sign (k == c)) (
      (Shifts-bind c (pos 0) (charge c k (pos 0 -ℤ v)) _ _ (Shifts-raise_if c _ _)
          (λ _. write_equity-Shifts c k (λ e. e -ℤ v) (pos 0 -ℤ v) (λ e. omega int_laws))).at
        s);
}
  where
    sign :
        (b : Bool) → pos 0 +ℤ (if b then pos 0 -ℤ v else pos 0) ≡ pos 0 -ℤ (if b then v else pos 0)
    sign true = omega int_laws
    sign false = omega int_laws

pub increase_equity-Shifts : (c k : ℕ) (v : ℤ) → Shifts c (charge c k v) (increase_equity k v)
unfolding increase_equity
increase_equity-Shifts c k v = record {
  at = λ s. Moved-cast c _ _ s _ (omega int_laws) (
      (Shifts-bind c (pos 0) (charge c k v) _ _ (Shifts-raise_if c _ _)
          (λ _. write_equity-Shifts c k (λ e. e +ℤ v) v (λ e. omega int_laws))).at
        s);
}

-- a statement that leaves the currencies alone moves the opening balance as it moves the rows
pub opening-outgoing :
    (c : ℕ) (z : ℤ) (s s' : Db)
    → s'.currencies ≡ s.currencies
    → outgoing c s' ≡ outgoing c s +ℤ z
    → opening c s' ≡ shift z (opening c s)
unfolding opening
opening-outgoing c z s s' same moved = rw (same, moved) (split (find c s.currencies.rows))
  where
    split :
        (o : Option Currency)
        → Option.map {A = Currency} (λ x. x.equity +ℤ (outgoing c s +ℤ z)) o
          ≡ shift z (Option.map {A = Currency} (λ x. x.equity +ℤ outgoing c s) o)
    split none = refl
    split (some x) = ap (λ (y : ℤ). some y) (omega int_laws)

pub add_cost_row-Moved : (c : ℕ) (x : Cost) (s : Db) → Moved c (spent_in c x) s (add_cost_row x s)
unfolding add_cost_row outgoing insert
add_cost_row-Moved c x s = elim (Bool-cases (not (fits_int4 x.value && fits_name x.name))) [
  | inl large ↦ rw large tt
  | inr fits ↦ elim (Bool-cases (cost_references x s)) [
    | inl known ↦
        rw (fits, known)
          (opening-outgoing c _ s _ refl
            (rw (sum_by-append (spent_in c) s.costs.next x s.costs.rows) (omega int_laws)))
    | inr dangling ↦ rw (fits, dangling) tt
  ]
]

pub add_income_row-Moved :
    (c : ℕ) (x : Income) (s : Db) → Moved c (pos 0 -ℤ earned_in c x) s (add_income_row x s)
unfolding add_income_row outgoing insert
add_income_row-Moved c x s = elim (Bool-cases (not (fits_int4 x.value && fits_name x.name))) [
  | inl large ↦ rw large tt
  | inr fits ↦ elim (Bool-cases (income_references x s)) [
    | inl known ↦
        rw (fits, known)
          (opening-outgoing c _ s _ refl
            (rw (sum_by-append (earned_in c) s.incomes.next x s.incomes.rows) (omega int_laws)))
    | inr dangling ↦ rw (fits, dangling) tt
  ]
]

pub add_exchange_row-Moved :
    (c : ℕ) (x : Exchange) (s : Db)
    → Moved c (given_in c x -ℤ received_in c x) s (add_exchange_row x s)
unfolding add_exchange_row outgoing insert
add_exchange_row-Moved c x s =
    elim (Bool-cases (not (fits_int4 x.from_value) || not (fits_int4 x.to_value))) [
      | inl large ↦ rw large tt
      | inr fits ↦ elim (Bool-cases (exchange_references x s)) [
        | inl known ↦
            rw (fits, known)
              (opening-outgoing c _ s _ refl (
                rw
                  (
                    sum_by-append (given_in c) s.exchanges.next x s.exchanges.rows,
                    sum_by-append (received_in c) s.exchanges.next x s.exchanges.rows,
                  )
                  (omega int_laws)))
        | inr dangling ↦ rw (fits, dangling) tt
      ]
    ]

module _ (c k : ℕ) (s : Db) where
  pub put_cost-Moved :
      (old new : Cost)
      → IsTable s.costs
      → find k s.costs.rows ≡ some old
      → Moved c (spent_in c new -ℤ spent_in c old) s (put_cost k new s)
  unfolding put_cost outgoing
  put_cost-Moved old new t found = elim (Bool-cases (cost_references new s)) [
    | inl known ↦ rw known (
        opening-outgoing c _ s _ refl (
          rw (sum_by-update_rows (spent_in c) k (λ _. new) old s.costs.rows t.unique found)
            (omega int_laws)))
    | inr dangling ↦ rw dangling tt
  ]

  pub put_income-Moved :
      (old new : Income)
      → IsTable s.incomes
      → find k s.incomes.rows ≡ some old
      → Moved c (earned_in c old -ℤ earned_in c new) s (put_income k new s)
  unfolding put_income outgoing
  put_income-Moved old new t found = elim (Bool-cases (income_references new s)) [
    | inl known ↦ rw known (
        opening-outgoing c _ s _ refl (
          rw (sum_by-update_rows (earned_in c) k (λ _. new) old s.incomes.rows t.unique found)
            (omega int_laws)))
    | inr dangling ↦ rw dangling tt
  ]

  pub delete_cost_row-Moved :
      (old : Cost)
      → IsTable s.costs
      → find k s.costs.rows ≡ some old
      → Moved c (pos 0 -ℤ spent_in c old) s (delete_cost_row k s)
  unfolding delete_cost_row outgoing
  delete_cost_row-Moved old t found =
      opening-outgoing c _ s _ refl
        (rw (sum_by-delete_rows (spent_in c) k old s.costs.rows t.unique found) (omega int_laws))

  pub delete_income_row-Moved :
      (old : Income)
      → IsTable s.incomes
      → find k s.incomes.rows ≡ some old
      → Moved c (earned_in c old) s (delete_income_row k s)
  unfolding delete_income_row outgoing
  delete_income_row-Moved old t found =
      opening-outgoing c _ s _ refl
        (rw (sum_by-delete_rows (earned_in c) k old s.incomes.rows t.unique found) (omega int_laws))

  pub delete_exchange_row-Moved :
      (old : Exchange)
      → IsTable s.exchanges
      → find k s.exchanges.rows ≡ some old
      → Moved c (received_in c old -ℤ given_in c old) s (delete_exchange_row k s)
  unfolding delete_exchange_row outgoing
  delete_exchange_row-Moved old t found = opening-outgoing c _ s _ refl (
      rw
        (
          sum_by-delete_rows (given_in c) k old s.exchanges.rows t.unique found,
          sum_by-delete_rows (received_in c) k old s.exchanges.rows t.unique found,
        )
        (omega int_laws))

-- a run that moved nothing, also when it raised after a rollback
pub Still-transaction :
    {A : Type 0} (c : ℕ) (m : Exec Db A) (s : Db)
    → Moved c (pos 0) s (m s)
    → opening c (transaction m s).1 ≡ opening c s
unfolding transaction end_transaction
Still-transaction {A} c m s h = ended (m s) h
  where
    ended :
        (p : Result A × Db)
        → Moved c (pos 0) s p
        → opening c (end_transaction s p.0 p.1).1 ≡ opening c s
    ended (ok a, s') h = h ∙ shift-zero (pos 0) (opening c s) refl
    ended (err e, s') h = refl

-- a check before an action
pub guarded-opening :
    {A : Type 0} (c : ℕ) (s : Db) (b : Bool) (e : Error) (m : Exec Db A)
    → opening c (m s).1 ≡ opening c s
    → opening c ((raise_if b e >>= λ _. m) s).1 ≡ opening c s
guarded-opening c s true e m h = refl
guarded-opening c s false e m h = h

pub Moved-transaction :
    {A : Type 0} (c : ℕ) (z : ℤ) (m : Exec Db A) (s : Db)
    → Moved c z s (m s)
    → Moved c z s (transaction m s)
unfolding transaction end_transaction
Moved-transaction {A} c z m s h = ended (m s) h
  where
    ended : (p : Result A × Db) → Moved c z s p → Moved c z s (end_transaction s p.0 p.1)
    ended (ok a, s') h = h
    ended (err e, s') h = tt
