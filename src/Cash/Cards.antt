-- ===== src/Cash/Cards.antt =====
-- What holds of the cards however they are used (src/application/cash.py).
use family_assistant_kernel.Prelude.{
  ℕ, ◌≡◌, refl, ◌∙◌, Bool, true, false, ◌||◌, ◌&&◌, ◌==◌, Option, none, some, List, [], ◌∷◌, ◌++◌,
  All, Bool-cases, inl, inr, arith,
}
use family_assistant_kernel.Prelude.Int.{ℤ}
use family_assistant_kernel.Storage.{exists, update_rows, delete_rows, insert}
use family_assistant_kernel.Ledger.Tables.{fits_int4}
use family_assistant_kernel.Cash.{
  CashBalance, Cards, is_valid_balance, is_valid_step, fits_column, has_card, insert_card,
  add_cash_balance, or_old, update_cash_balance, delete_cash_balance, Command, add, update, remove,
  execute, run,
}

-- no currency has two cards, and the balance and the step of each card are valid
abbrev pub AreCards : List (ℕ × CashBalance) → Type 0
AreCards [] = Unit
AreCards ((id, c) ∷ rows) =
    (has_card c.currency_id rows ≡ false)
    × (is_valid_balance c.balance ≡ true)
    × (is_valid_step c.step ≡ true)
    × AreCards rows

abbrev pub ValidBalance : Option ℤ → Type 0
ValidBalance none = Unit
ValidBalance (some v) = is_valid_balance v ≡ true

abbrev pub ValidStep : Option ℤ → Type 0
ValidStep none = Unit
ValidStep (some v) = is_valid_step v ≡ true

-- the values of an update are valid, as the bodies of the requests are to make sure
abbrev pub IsValid : Command → Type 0
IsValid (add currency_id step) = Unit
IsValid (update id balance step) = ValidBalance balance × ValidStep step
IsValid (remove id) = Unit

has_card-append :
    (k : ℕ) (rows : List (ℕ × CashBalance)) (id : ℕ) (c : CashBalance)
    → has_card k (rows ++ (id, c) ∷ []) ≡ has_card k rows || (c.currency_id == k)
has_card-append k [] id c = ground arith
has_card-append k ((j, d) ∷ rows) id c = ground (arith, has_card-append k rows id c)

has_card-update :
    (k id : ℕ) (f : CashBalance → CashBalance) (rows : List (ℕ × CashBalance))
    → ((c : CashBalance) → (f c).currency_id ≡ c.currency_id)
    → has_card k (update_rows id f rows) ≡ has_card k rows
unfolding update_rows
has_card-update k id f [] same = refl
has_card-update k id f ((j, c) ∷ rows) same = elim (Bool-cases (id == j)) [
  | inl e ↦ rw (e, same c, has_card-update k id f rows same) refl
  | inr e ↦ rw (e, has_card-update k id f rows same) refl
]

has_card-delete :
    (k id : ℕ) (rows : List (ℕ × CashBalance))
    → has_card k rows ≡ false
    → has_card k (delete_rows id rows) ≡ false
unfolding delete_rows
has_card-delete k id [] h = h
has_card-delete k id ((j, c) ∷ rows) h = ground (arith, h, has_card-delete k id rows)

keep_balance :
    (o : Option ℤ) (old : ℤ)
    → ValidBalance o
    → is_valid_balance old ≡ true
    → is_valid_balance (or_old o old) ≡ true
keep_balance none old v h = h
keep_balance (some new) old v h = v

keep_step :
    (o : Option ℤ) (old : ℤ)
    → ValidStep o
    → is_valid_step old ≡ true
    → is_valid_step (or_old o old) ≡ true
keep_step none old v h = h
keep_step (some new) old v h = v

append-AreCards :
    (rows : List (ℕ × CashBalance)) (id : ℕ) (c : CashBalance)
    → has_card c.currency_id rows ≡ false
    → is_valid_balance c.balance ≡ true
    → is_valid_step c.step ≡ true
    → AreCards rows
    → AreCards (rows ++ (id, c) ∷ [])
append-AreCards [] id c u b s h = (refl, b, s, tt)
append-AreCards ((j, d) ∷ rows) id c u b s h = (
  has_card-append d.currency_id rows id c ∙ ground (arith, u, h.0),
  h.1,
  h.2,
  append-AreCards rows id c (ground (arith, u)) b s h.3,
)

update-AreCards :
    (id : ℕ) (balance step : Option ℤ) (rows : List (ℕ × CashBalance))
    → ValidBalance balance
    → ValidStep step
    → AreCards rows
    → AreCards (
        update_rows id
          (λ c. record c { balance = or_old balance c.balance; step = or_old step c.step })
          rows)
unfolding update_rows
update-AreCards id balance step [] vb vs h = tt
update-AreCards id balance step ((j, c) ∷ rows) vb vs h = elim (Bool-cases (id == j)) [
  | inl e ↦ rw e (
    has_card-update c.currency_id id _ rows (λ d. refl) ∙ h.0,
    keep_balance balance c.balance vb h.1,
    keep_step step c.step vs h.2,
    update-AreCards id balance step rows vb vs h.3,
  )
  | inr e ↦ rw e (
    has_card-update c.currency_id id _ rows (λ d. refl) ∙ h.0,
    h.1,
    h.2,
    update-AreCards id balance step rows vb vs h.3,
  )
]

delete-AreCards :
    (id : ℕ) (rows : List (ℕ × CashBalance)) → AreCards rows → AreCards (delete_rows id rows)
unfolding delete_rows
delete-AreCards id [] h = tt
delete-AreCards id ((j, c) ∷ rows) h = elim (Bool-cases (id == j)) [
  | inl e ↦ rw e (delete-AreCards id rows h.3)
  | inr e ↦ rw e (has_card-delete c.currency_id id rows h.0, h.1, h.2, delete-AreCards id rows h.3)
]

module _ (is_currency : ℕ → Bool) where
  insert_card-AreCards :
      (b known : Bool) (c : CashBalance) (t : Cards)
      → has_card c.currency_id t.rows ≡ b
      → is_valid_balance c.balance ≡ true
      → is_valid_step c.step ≡ true
      → AreCards t.rows
      → AreCards (insert_card is_currency b known c t).1.rows
  unfolding insert
  insert_card-AreCards true known c t u b s h = h
  insert_card-AreCards false false c t u b s h = h
  insert_card-AreCards false true c t u b s h = append-AreCards t.rows t.next c u b s h

  execute-AreCards :
      (k : Command) (t : Cards)
      → IsValid k
      → AreCards t.rows
      → AreCards (execute is_currency k t).1.rows
  unfolding execute add_cash_balance update_cash_balance delete_cash_balance is_valid_balance
  execute-AreCards (add currency_id step) t v h = elim (Bool-cases (is_valid_step step)) [
    | inl e ↦ elim (Bool-cases (fits_int4 step)) [
      | inl f ↦
          rw (e, f)
            (insert_card-AreCards (has_card currency_id t.rows) (is_currency currency_id) _ t refl
              refl e h)
      | inr f ↦ rw (e, f) h
    ]
    | inr e ↦ rw e h
  ]
  execute-AreCards (update id balance step) t v h = elim (Bool-cases (exists id t.rows)) [
    | inl e ↦ elim (Bool-cases (fits_column balance && fits_column step)) [
      | inl f ↦ rw (e, f) (update-AreCards id balance step t.rows v.0 v.1 h)
      | inr f ↦ rw (e, f) h
    ]
    | inr e ↦ rw e h
  ]
  execute-AreCards (remove id) t v h = elim (Bool-cases (exists id t.rows)) [
    | inl e ↦ rw e (delete-AreCards id t.rows h)
    | inr e ↦ rw e h
  ]

  -- Any sequence of operations whose updates have valid values, whether they return or raise, leaves
  -- at most one card for a currency, each with a valid balance and a valid step, when it was so before.
  pub run-AreCards :
      (ks : List Command) (t : Cards)
      → All IsValid ks
      → AreCards t.rows
      → AreCards (run is_currency ks t).rows
  unfolding run
  run-AreCards [] t v h = h
  run-AreCards (k ∷ ks) t v h =
      run-AreCards ks (execute is_currency k t).1 v.1 (execute-AreCards k t v.0 h)
