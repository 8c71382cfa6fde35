-- ===== src/Rates/Coverage.antt =====
-- The dates that have a rate after `ensure_exchange_rates`.
use family_assistant_kernel.Prelude.{
  ℕ, ◌≡◌, Bool, true, false, ◌==◌, String, Option, some, List, [], ◌∷◌, select, any, All, arith,
  Bool-cases, inl, inr,
}
use family_assistant_kernel.Exec.{Result, ok, err}
use family_assistant_kernel.Rates.{ExchangeRate, NbuRate, has_rate}

abbrev has : ℕ → List ℕ → Bool
has d ds = any (λ k. k == d) ds

abbrev IsDistinct : List ℕ → Type 0
IsDistinct [] = Unit
IsDistinct (d ∷ ds) = (has d ds ≡ false) × IsDistinct ds

select-has : (p : ℕ → Bool) (d : ℕ) (ds : List ℕ) → has d ds ≡ false → has d (select p ds) ≡ false
select-has p d [] h = h
select-has p d (k ∷ ds) h = ground (arith, h, select-has p d ds)

module _ {R : Type 0} (code : String) where
  -- no date has a rate yet, and none comes twice
  abbrev Fresh : List ℕ → List (ExchangeRate R) → Type 0
  Fresh [] rates = Unit
  Fresh (d ∷ ds) rates = (has_rate code d rates ≡ false) × (has d ds ≡ false) × Fresh ds rates

  Fresh-select :
      (p : ℕ → Bool) (ds : List ℕ) (rates : List (ExchangeRate R))
      → Fresh ds rates
      → Fresh (select p ds) rates
  Fresh-select p [] rates h = tt
  Fresh-select p (d ∷ ds) rates h = elim (Bool-cases (p d)) [
    | inl e ↦ rw e (h.0, select-has p d ds h.1, Fresh-select p ds rates h.2)
    | inr e ↦ rw e (Fresh-select p ds rates h.2)
  ]

  -- the table has a rate for the dates
  abbrev pub Covered : List ℕ → List (ExchangeRate R) → Type 0
  Covered ds rates = All (λ d. has_rate code d rates ≡ true) ds

  -- nothing that was there is lost
  abbrev Grows : List (ExchangeRate R) → List (ExchangeRate R) → Type 0
  Grows before after = (p : ExchangeRate R → Bool) → any p before ≡ true → any p after ≡ true

  -- `fill_dates` on fresh dates returns, and every date has a rate
  abbrev Filled : List ℕ → List (ExchangeRate R) → Result {0} Unit × List (ExchangeRate R) → Type 0
  Filled ds rates (ok tt, rates') = Covered ds rates' × Grows rates rates'
  Filled ds rates (err e, rates') = ⊥

  -- the dates that `save_fetched` answers have a rate afterwards, and no other has a new one
  abbrev Saved : List (ExchangeRate R) → Result (List ℕ) × List (ExchangeRate R) → Type 0
  Saved rates (ok dates, rates') =
      ((k : ℕ) → has k dates ≡ true → has_rate code k rates' ≡ true)
      × ((k : ℕ)
          → has_rate code k rates ≡ false
          → has k dates ≡ false
          → has_rate code k rates' ≡ false)
      × Grows rates rates'
  Saved rates (err e, rates') = ⊥

-- The API of NBU answers a request for a currency on a date with the rate of that currency and date.
abbrev pub IsDocumented : {R : Type 0} → (String → ℕ → Option (NbuRate R)) → String → Type 0
IsDocumented {R} fetch code =
    (d : ℕ) (a : NbuRate R) → fetch code d ≡ some a → (a.cc ≡ code) × (a.exchangedate ≡ d)

module _ {R : Type 0} (code : String) where
  -- the call returned, and every one of the dates has a rate
  abbrev pub Ensured : List ℕ → Result {0} Unit × List (ExchangeRate R) → Type 0
  Ensured all_dates (ok tt, rates) = Covered code all_dates rates
  Ensured all_dates (err e, rates) = ⊥
