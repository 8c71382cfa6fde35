-- ===== src/Rates/Closest.antt =====
-- The closest rate against every other rate of the currency.
use family_assistant_kernel.Prelude.{
  ℕ, ◌≤◌, ◌≡◌, ◌⊎◌, Bool, true, false, ◌&&◌, ltb, leb, str_eq, String, Option, none, some, List, [],
  ◌∷◌, if◌then◌else◌, select, All, All-map, All-zip, All-select, select-All, arith, Bool-cases, inl,
  inr,
}
use family_assistant_kernel.Rates.{
  ExchangeRate, days_between, later, sooner, nearer, last_rate, first_rate, get_closest_rate,
}

le-cases : (a b : ℕ) → (a ≤ b) ⊎ (b ≤ a)
le-cases a b = elim (Bool-cases (leb a b)) [
  | inl h ↦ inl (ground (arith, h))
  | inr h ↦ inr (ground (arith, h))
]

module _ {R : Type 0} where
  -- `o` is at most as far from the target as the row, and it is there
  abbrev pub IsClosest : ℕ → Option (ExchangeRate R) → ExchangeRate R → Type 0
  IsClosest target none r = ⊥
  IsClosest target (some best) r = days_between target best.date ≤ days_between target r.date

  abbrev AtLeast : Option (ExchangeRate R) → ExchangeRate R → Type 0
  AtLeast none r = ⊥
  AtLeast (some best) r = r.date ≤ best.date

  abbrev AtMost : Option (ExchangeRate R) → ExchangeRate R → Type 0
  AtMost none r = ⊥
  AtMost (some best) r = best.date ≤ r.date

  -- the row, when there is one, has the property
  abbrev pub Holds : (ExchangeRate R → Type 0) → Option (ExchangeRate R) → Type 0
  Holds P none = Unit
  Holds P (some r) = P r

  later-AtLeast :
      (r x : ExchangeRate R) (o : Option (ExchangeRate R))
      → AtLeast o x
      → AtLeast (some (later r o)) x
  later-AtLeast r x (some s) h = ground (arith, h)
  later-AtLeast r x none h = elim h [ ]

  later-first : (r : ExchangeRate R) (o : Option (ExchangeRate R)) → AtLeast (some (later r o)) r
  later-first r none = omega arith
  later-first r (some s) = ground arith

  last_rate-AtLeast : (rs : List (ExchangeRate R)) → All (AtLeast (last_rate rs)) rs
  unfolding last_rate
  last_rate-AtLeast [] = tt
  last_rate-AtLeast (r ∷ rs) = (
    later-first r (last_rate rs),
    All-map rs (λ x. later-AtLeast r x (last_rate rs)) (last_rate-AtLeast rs),
  )

  sooner-AtMost :
      (r x : ExchangeRate R) (o : Option (ExchangeRate R))
      → AtMost o x
      → AtMost (some (sooner r o)) x
  sooner-AtMost r x (some s) h = ground (arith, h)
  sooner-AtMost r x none h = elim h [ ]

  sooner-first : (r : ExchangeRate R) (o : Option (ExchangeRate R)) → AtMost (some (sooner r o)) r
  sooner-first r none = omega arith
  sooner-first r (some s) = ground arith

  first_rate-AtMost : (rs : List (ExchangeRate R)) → All (AtMost (first_rate rs)) rs
  unfolding first_rate
  first_rate-AtMost [] = tt
  first_rate-AtMost (r ∷ rs) = (
    sooner-first r (first_rate rs),
    All-map rs (λ x. sooner-AtMost r x (first_rate rs)) (first_rate-AtMost rs),
  )

  module _ (P : ExchangeRate R → Type 0) where
    choice : (b : Bool) (r s : ExchangeRate R) → P r → P s → P (if b then s else r)
    choice true r s pr ps = ps
    choice false r s pr ps = pr

    later-Holds :
        (r : ExchangeRate R) (o : Option (ExchangeRate R)) → P r → Holds P o → P (later r o)
    later-Holds r none pr h = pr
    later-Holds r (some s) pr h = choice (ltb r.date s.date) r s pr h

    last_rate-Holds : (rs : List (ExchangeRate R)) → All P rs → Holds P (last_rate rs)
    unfolding last_rate
    last_rate-Holds [] h = tt
    last_rate-Holds (r ∷ rs) h = later-Holds r (last_rate rs) h.0 (last_rate-Holds rs h.1)

    sooner-Holds :
        (r : ExchangeRate R) (o : Option (ExchangeRate R)) → P r → Holds P o → P (sooner r o)
    sooner-Holds r none pr h = pr
    sooner-Holds r (some s) pr h = choice (ltb s.date r.date) r s pr h

    first_rate-Holds : (rs : List (ExchangeRate R)) → All P rs → Holds P (first_rate rs)
    unfolding first_rate
    first_rate-Holds [] h = tt
    first_rate-Holds (r ∷ rs) h = sooner-Holds r (first_rate rs) h.0 (first_rate-Holds rs h.1)

  nearer_side :
      (target : ℕ) (o q : Option (ExchangeRate R)) (x : ExchangeRate R)
      → (x.date ≤ target) ⊎ (target ≤ x.date)
      → Holds (λ r. r.date ≤ target) o
      → Holds (λ r. target ≤ r.date) q
      → (x.date ≤ target → AtLeast o x)
      → (target ≤ x.date → AtMost q x)
      → IsClosest target (nearer target o q) x
  nearer_side target none none x (inl h) ho hq before following = before h
  nearer_side target none none x (inr h) ho hq before following = following h
  nearer_side target none (some f) x (inl h) ho hq before following = elim (before h) [ ]
  nearer_side target none (some f) x (inr h) ho hq before following =
      let near : f.date ≤ x.date = following h in omega (arith, near, hq, h)
  nearer_side target (some l) none x (inl h) ho hq before following =
      let near : x.date ≤ l.date = before h in omega (arith, near, ho, h)
  nearer_side target (some l) none x (inr h) ho hq before following = elim (following h) [ ]
  nearer_side target (some l) (some f) x (inl h) ho hq before following =
      let near : x.date ≤ l.date = before h in ground (arith, near, ho, hq, h)
  nearer_side target (some l) (some f) x (inr h) ho hq before following =
      let near : f.date ≤ x.date = following h in ground (arith, near, ho, hq, h)

  nearer-Holds :
      (P : ExchangeRate R → Type 0) (target : ℕ) (o q : Option (ExchangeRate R))
      → Holds P o
      → Holds P q
      → Holds P (nearer target o q)
  nearer-Holds P target none none ho hq = tt
  nearer-Holds P target none (some f) ho hq = hq
  nearer-Holds P target (some l) none ho hq = ho
  nearer-Holds P target (some l) (some f) ho hq =
      elim (Bool-cases (leb (days_between target l.date) (days_between f.date target))) [
        | inl closer ↦ rw closer ho
        | inr farther ↦ rw farther hq
      ]

  earlier_rates : String → ℕ → List (ExchangeRate R) → List (ExchangeRate R)
  earlier_rates code target rates = select (λ r. str_eq r.cc_to code && leb r.date target) rates

  later_rates : String → ℕ → List (ExchangeRate R) → List (ExchangeRate R)
  later_rates code target rates = select (λ r. str_eq r.cc_to code && leb target r.date) rates

  IsClosest-to :
      (code : String) (target : ℕ) (rates : List (ExchangeRate R)) (x : ExchangeRate R)
      → ((str_eq x.cc_to code && leb x.date target) ≡ true
          → AtLeast (last_rate (earlier_rates code target rates)) x)
      → ((str_eq x.cc_to code && leb target x.date) ≡ true
          → AtMost (first_rate (later_rates code target rates)) x)
      → str_eq x.cc_to code ≡ true
      → IsClosest target
          (nearer target
            (last_rate (earlier_rates code target rates))
            (first_rate (later_rates code target rates)))
          x
  unfolding earlier_rates later_rates
  IsClosest-to code target rates x before following same =
      nearer_side target _ _ x (le-cases x.date target)
        (last_rate-Holds (λ r. r.date ≤ target) _ (select-All _ _ rates (λ r e. ground (arith, e))))
        (first_rate-Holds (λ r. target ≤ r.date) _
          (select-All _ _ rates (λ r e. ground (arith, e))))
        (λ h. before (ground (arith, same, h))) (λ h. following (ground (arith, same, h)))

  -- The closest rate is of the currency, and no rate of the currency is nearer to the date; when there
  -- is none, the table has no rate of the currency.
  pub get_closest_rate-IsClosest :
      (code : String) (target : ℕ) (rates : List (ExchangeRate R))
      → Holds (λ r. str_eq r.cc_to code ≡ true) (get_closest_rate code target rates)
        × All
            (λ x.
              str_eq x.cc_to code ≡ true → IsClosest target (get_closest_rate code target rates) x)
            rates
  unfolding get_closest_rate earlier_rates later_rates
  get_closest_rate-IsClosest code target rates = (
    nearer-Holds (λ r. str_eq r.cc_to code ≡ true) target _ _
        (last_rate-Holds _ _ (select-All _ _ rates (λ r e. ground (arith, e))))
        (first_rate-Holds _ _ (select-All _ _ rates (λ r e. ground (arith, e)))),
    All-zip rates (IsClosest-to code target rates)
        (All-select _ _ rates (last_rate-AtLeast (earlier_rates code target rates)))
        (All-select _ _ rates (first_rate-AtMost (later_rates code target rates))),
  )
