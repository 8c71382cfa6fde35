-- ===== src/Ledger/Atomicity.antt =====
-- The operations that raise against the state they leave behind.
use family_assistant_kernel.Prelude.{
  ◌&&◌, ℕ, ◌≡◌, refl, ◌∙◌, true, not, Option, none, some, Bool-cases, Option-cases, inl, inr,
}
use family_assistant_kernel.Prelude.Int.{ℤ}
use family_assistant_kernel.Exec.{
  Result, ok, err, Exec, pure, lift, raise_if, continue, ◌>>=◌, database, bad_request,
}
use family_assistant_kernel.Exec.Keeps.{Keeps, keeps_rules}
use family_assistant_kernel.Exec.Atomic.{
  Atomic, Returned, Succeeds, transaction-Atomic, transaction-Returned, continue-Atomic,
  continue-Returned, raise_if-Atomic,
}
use family_assistant_kernel.Storage.{Table, find, exists}
use family_assistant_kernel.Storage.Exists.{
  find_of_exists, exists_of_find, exists-update_rows, exists-insert,
}
use family_assistant_kernel.Ledger.Tables.{
  Currency, Cost, Db, fits_int4, fits_name, validate_positive_value,
}
use family_assistant_kernel.Ledger.Columns.{Field, absent, null, given}
use family_assistant_kernel.Ledger.Currencies.{
  set_equity, write_found, write_equity, decrease_equity, increase_equity,
}
use family_assistant_kernel.Ledger.Costs.{
  CostValues, cost, cost_references, add_cost_row, put_cost, update_cost_row, adjust_for_cost,
  add_cost_transaction, add_cost, update_cost_transaction, update_cost, delete_cost_transaction,
  delete_cost, cost_changes, no_cost_changes,
}

-- a property that does not look at the currencies is kept by every movement of an equity
module _ (P : Db → Type 0)
    (blind : (s : Db) (t : Table Currency) → P s → P (record s { currencies = t })) where
  write_found_kept :
      (k : ℕ) (f : ℤ → ℤ) (s : Db) (o : Option Currency) → P s → P (write_found k f s o).1
  unfolding write_found set_equity
  write_found_kept k f s none h = h
  write_found_kept k f s (some c) h = elim (Bool-cases (fits_int4 (f c.equity))) [
    | inl fits ↦ rw fits (blind s _ h)
    | inr large ↦ rw large h
  ]

  write_equity-Keeps : (k : ℕ) (f : ℤ → ℤ) → Keeps P (write_equity k f)
  unfolding write_equity
  write_equity-Keeps k f = record {
    at = λ s h. write_found_kept k f s (find k s.currencies.rows) h;
  }

  pub decrease_equity-Keeps : (k : ℕ) (v : ℤ) → Keeps P (decrease_equity k v)
  unfolding decrease_equity
  decrease_equity-Keeps k v = search (keeps_rules, write_equity-Keeps)

  pub increase_equity-Keeps : (k : ℕ) (v : ℤ) → Keeps P (increase_equity k v)
  unfolding increase_equity
  increase_equity-Keeps k v = search (keeps_rules, write_equity-Keeps)

  ruleset equity_rules = (keeps_rules, decrease_equity-Keeps, increase_equity-Keeps)

  pub adjust_for_cost-Keeps :
      (x : Cost) (fk : Field ℕ) (fv : Field ℤ) → Keeps P (adjust_for_cost x fk fv)
  unfolding adjust_for_cost
  adjust_for_cost-Keeps x (given k) (given v) = search equity_rules
  adjust_for_cost-Keeps x (given k) absent = search equity_rules
  adjust_for_cost-Keeps x (given k) null = search equity_rules
  adjust_for_cost-Keeps x absent (given v) = search equity_rules
  adjust_for_cost-Keeps x absent absent = search equity_rules
  adjust_for_cost-Keeps x absent null = search equity_rules
  adjust_for_cost-Keeps x null (given v) = search equity_rules
  adjust_for_cost-Keeps x null absent = search equity_rules
  adjust_for_cost-Keeps x null null = search equity_rules

-- the row with the key is there
abbrev HasCost : ℕ → Db → Type 0
HasCost id s = exists id s.costs.rows ≡ true

cost-Succeeds : (id : ℕ) (s : Db) → HasCost id s → Succeeds (cost id s)
unfolding cost
cost-Succeeds id s h = let (x, here) = find_of_exists id s.costs.rows h in rw here tt

decrease_equity-HasCost : (id k : ℕ) (v : ℤ) → Keeps (HasCost id) (decrease_equity k v)
decrease_equity-HasCost id = decrease_equity-Keeps (HasCost id) (λ s t h. h)

adjust_for_cost-HasCost :
    (id : ℕ) (x : Cost) (fk : Field ℕ) (fv : Field ℤ) → Keeps (HasCost id) (adjust_for_cost x fk fv)
adjust_for_cost-HasCost id = adjust_for_cost-Keeps (HasCost id) (λ s t h. h)

put_cost-HasCost : (id : ℕ) (x : Cost) → Keeps (HasCost id) (put_cost id x)
unfolding put_cost
put_cost-HasCost id x = record {
  at = λ s h. elim (Bool-cases (cost_references x s)) [
    | inl known ↦ rw known (exists-update_rows id id (λ _. x) s.costs.rows ∙ h)
    | inr unknown ↦ rw unknown h
  ];
}

lift-HasCost : {A : Type 0} (id : ℕ) (r : Result A) → Keeps (HasCost id) (lift r)
lift-HasCost id r = record { at = λ s h. h }

update_cost_transaction-HasCost :
    (id : ℕ) (x : Cost) (v : CostValues) → Keeps (HasCost id) (update_cost_transaction id x v)
unfolding update_cost_transaction update_cost_row
update_cost_transaction-HasCost id x v =
    search (keeps_rules, lift-HasCost, put_cost-HasCost, adjust_for_cost-HasCost) depth 18

Returned-of_kept :
    {A : Type 0} (id : ℕ) (p : Result A × Db) → HasCost id p.1 → Returned (λ _. HasCost id) p
Returned-of_kept id (ok a, s) h = h
Returned-of_kept id (err e, s) h = tt

paid-Returned :
    (x : Cost) (p : Result ℕ × Db)
    → Returned HasCost p
    → Returned HasCost
        (continue p.0 (λ new. decrease_equity x.currency_id x.value >>= λ _. pure new) p.1)
paid-Returned x (ok new, s) h =
    continue-Returned HasCost (λ _. pure new) (decrease_equity x.currency_id x.value s)
      (Returned-of_kept new _ ((decrease_equity-HasCost new x.currency_id x.value).at s h))
paid-Returned x (err e, s) h = tt

add_cost_row-Returned : (x : Cost) (s : Db) → Returned HasCost (add_cost_row x s)
unfolding add_cost_row
add_cost_row-Returned x s = elim (Bool-cases (not (fits_int4 x.value && fits_name x.name))) [
  | inl large ↦ rw large tt
  | inr fits ↦ rw fits (elim (Bool-cases (cost_references x s)) [
    | inl known ↦ rw known (exists-insert x s.costs)
    | inr unknown ↦ rw unknown tt
  ])
]

Succeeds-of_Returned :
    {A : Type 0} (f : A → ℕ) (p : Result A × Db)
    → Returned (λ a. HasCost (f a)) p
    → Returned (λ a s'. Succeeds (cost (f a) s')) p
Succeeds-of_Returned f (ok a, s) h = cost-Succeeds (f a) s h
Succeeds-of_Returned f (err e, s) h = tt

inserted-Returned :
    (x : Cost) (p : Result ℤ × Db)
    → Returned HasCost (
        continue p.0
          (λ _. add_cost_row x >>= λ new. decrease_equity x.currency_id x.value >>= λ _. pure new)
          p.1)
inserted-Returned x (ok v, s) = paid-Returned x (add_cost_row x s) (add_cost_row-Returned x s)
inserted-Returned x (err e, s) = tt

add_cost_transaction-Returned : (x : Cost) (s : Db) → Returned HasCost (add_cost_transaction x s)
unfolding add_cost_transaction
add_cost_transaction-Returned x s =
    transaction-Returned HasCost _ s
      (inserted-Returned x (lift (validate_positive_value x.value) s))

add_cost_transaction-Atomic : (x : Cost) (s : Db) → Atomic s (add_cost_transaction x s)
unfolding add_cost_transaction
add_cost_transaction-Atomic x s = transaction-Atomic _ s

update_cost_transaction-Atomic :
    (id : ℕ) (x : Cost) (v : CostValues) (s : Db) → Atomic s (update_cost_transaction id x v s)
unfolding update_cost_transaction
update_cost_transaction-Atomic id x v s = transaction-Atomic _ s

delete_cost_transaction-Atomic :
    (id : ℕ) (x : Cost) (s : Db) → Atomic s (delete_cost_transaction id x s)
unfolding delete_cost_transaction
delete_cost_transaction-Atomic id x s = transaction-Atomic _ s

-- When `add_cost` raises, the database is as it was: neither the row nor the equity is written.
pub add_cost-Atomic : (x : Cost) (s : Db) → Atomic s (add_cost x s)
unfolding add_cost
add_cost-Atomic x s =
    continue-Atomic s cost (add_cost_transaction x s) (add_cost_transaction-Atomic x s)
      (Succeeds-of_Returned (λ id. id) _ (add_cost_transaction-Returned x s))

-- a read of the row and then a part that writes all or nothing
read-Atomic :
    {A : Type 0} (id : ℕ) (s : Db) (f : Cost → Exec Db A)
    → ((x : Cost) → HasCost id s → Atomic s (f x s))
    → Atomic s ((cost id >>= f) s)
unfolding cost
read-Atomic id s f h = elim (Option-cases (find id s.costs.rows)) [
  | inl gone ↦ rw gone refl
  | inr (x, here) ↦ rw here (h x (exists_of_find id x s.costs.rows here))
]

updated-Atomic :
    (id : ℕ) (x : Cost) (v : CostValues) (s : Db)
    → HasCost id s
    → Atomic s ((update_cost_transaction id x v >>= λ _. cost id) s)
updated-Atomic id x v s h =
    continue-Atomic s (λ _. cost id) (update_cost_transaction id x v s)
      (update_cost_transaction-Atomic id x v s)
      (Succeeds-of_Returned (λ _. id) _
        (Returned-of_kept id _ ((update_cost_transaction-HasCost id x v).at s h)))

guarded-Atomic :
    (id : ℕ) (x : Cost) (v : CostValues) (s : Db)
    → HasCost id s
    → Atomic s (
        (raise_if v.unknown database >>= λ _.
        raise_if (no_cost_changes (cost_changes x v)) bad_request >>= λ _.
        update_cost_transaction id x (cost_changes x v) >>= λ _. cost id)
          s)
guarded-Atomic id x v s h = raise_if-Atomic v.unknown database _ s (
    raise_if-Atomic (no_cost_changes (cost_changes x v)) bad_request _ s
      (updated-Atomic id x (cost_changes x v) s h))

-- When `update_cost` raises, the database is as it was: neither the row nor an equity is written.
pub update_cost-Atomic : (id : ℕ) (v : CostValues) (s : Db) → Atomic s (update_cost id v s)
unfolding update_cost
update_cost-Atomic id v s = read-Atomic id s (λ x. _) (λ x h. guarded-Atomic id x v s h)

-- When `delete_cost` raises, the database is as it was.
pub delete_cost-Atomic : (id : ℕ) (s : Db) → Atomic s (delete_cost id s)
unfolding delete_cost
delete_cost-Atomic id s = read-Atomic id s _ (λ x h. delete_cost_transaction-Atomic id x s)
