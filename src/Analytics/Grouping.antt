-- ===== src/Analytics/Grouping.antt =====
-- `sum` with `group by` and `order by`, as the queries of
-- src/infrastructure/query_services/analytics.py use them.
use family_assistant_kernel.Prelude.{
  ℕ, ◌≡◌, refl, ◌∙◌, ap, Bool, true, false, ◌==◌, List, [], ◌∷◌, if◌then◌else◌, All, Bool-cases,
  inl, inr, arith,
}
use family_assistant_kernel.Prelude.Int.{ℤ, pos, ◌+ℤ◌, int_laws}
use family_assistant_kernel.Storage.Order.{insert_by, sort_by, All-insert_by, All-sort_by}

module _ {K : Type 0} (same : K → K → Bool) where
  -- the group of a key grows by a value
  abbrev pub add_total : K → ℤ → List (K × ℤ) → List (K × ℤ)
  add_total k v [] = (k, v) ∷ []
  add_total k v ((j, total) ∷ groups) =
      let rest = add_total k v groups in
      if same k j then (j, total +ℤ v) ∷ groups else (j, total) ∷ rest

  -- `sum(value) … group by key`
  unfoldable pub group_totals : List (K × ℤ) → List (K × ℤ)
  group_totals [] = []
  group_totals ((k, v) ∷ rows) = add_total k v (group_totals rows)

abbrev pub plus_if : Bool → ℤ → ℤ → ℤ
plus_if true v rest = v +ℤ rest
plus_if false v rest = rest

-- the values whose key passes the test
unfoldable pub sum_where : {K : Type 0} → (K → Bool) → List (K × ℤ) → ℤ
sum_where p [] = pos 0
sum_where p ((k, v) ∷ rows) = plus_if (p k) v (sum_where p rows)

plus_if_swap :
    (a b : Bool) (v w rest : ℤ) → plus_if a v (plus_if b w rest) ≡ plus_if b w (plus_if a v rest)
plus_if_swap true true v w rest = omega int_laws
plus_if_swap true false v w rest = refl
plus_if_swap false true v w rest = refl
plus_if_swap false false v w rest = refl

plus_if_join : (a : Bool) (v w rest : ℤ) → plus_if a (w +ℤ v) rest ≡ plus_if a v (plus_if a w rest)
plus_if_join true v w rest = omega int_laws
plus_if_join false v w rest = refl

module _ {K : Type 0} (p : K → Bool) where
  sum_where-insert_by :
      (before : K × ℤ → K × ℤ → Bool) (x : K × ℤ) (ys : List (K × ℤ))
      → sum_where p (insert_by before x ys) ≡ sum_where p (x ∷ ys)
  unfolding insert_by sum_where
  sum_where-insert_by before x [] = refl
  sum_where-insert_by before x (y ∷ ys) = elim (Bool-cases (before y x)) [
    | inl e ↦
        rw (e, sum_where-insert_by before x ys)
          (plus_if_swap (p y.0) (p x.0) y.1 x.1 (sum_where p ys))
    | inr e ↦ rw e refl
  ]

  pub sum_where-sort_by :
      (before : K × ℤ → K × ℤ → Bool) (xs : List (K × ℤ))
      → sum_where p (sort_by before xs) ≡ sum_where p xs
  unfolding sort_by sum_where
  sum_where-sort_by before [] = refl
  sum_where-sort_by before (x ∷ xs) =
      sum_where-insert_by before x (sort_by before xs)
      ∙ ap (λ z. plus_if (p x.0) x.1 z) (sum_where-sort_by before xs)

  module _ (same : K → K → Bool) (respects : (k j : K) → same k j ≡ true → p k ≡ p j) where
    sum_where-add_total :
        (k : K) (v : ℤ) (groups : List (K × ℤ))
        → sum_where p (add_total same k v groups) ≡ sum_where p ((k, v) ∷ groups)
    unfolding sum_where
    sum_where-add_total k v [] = refl
    sum_where-add_total k v ((j, total) ∷ groups) = elim (Bool-cases (same k j)) [
      | inl e ↦ rw (e, respects k j e) (plus_if_join (p j) v total (sum_where p groups))
      | inr e ↦
          rw (e, sum_where-add_total k v groups)
            (plus_if_swap (p j) (p k) total v (sum_where p groups))
    ]

    pub sum_where-group_totals :
        (rows : List (K × ℤ)) → sum_where p (group_totals same rows) ≡ sum_where p rows
    unfolding group_totals sum_where
    sum_where-group_totals [] = refl
    sum_where-group_totals ((k, v) ∷ rows) =
        sum_where-add_total k v (group_totals same rows)
        ∙ ap (λ z. plus_if (p k) v z) (sum_where-group_totals rows)

abbrev pub IsDistinct : List (ℕ × ℤ) → Type 0
IsDistinct [] = Unit
IsDistinct ((k, v) ∷ groups) = All (λ g. (k == g.0) ≡ false) groups × IsDistinct groups

All-add_total :
    (j k : ℕ) (v : ℤ) (groups : List (ℕ × ℤ))
    → (j == k) ≡ false
    → All (λ g. (j == g.0) ≡ false) groups
    → All (λ g. (j == g.0) ≡ false) (add_total (λ a b. a == b) k v groups)
All-add_total j k v [] e h = (e, tt)
All-add_total j k v ((i, total) ∷ groups) e h = elim (Bool-cases (k == i)) [
  | inl same ↦ rw same h
  | inr other ↦ rw other (h.0, All-add_total j k v groups e h.1)
]

==_flip : (j k : ℕ) → (k == j) ≡ false → (j == k) ≡ false
==_flip j k e = ground (arith, e)

add_total-IsDistinct :
    (k : ℕ) (v : ℤ) (groups : List (ℕ × ℤ))
    → IsDistinct groups
    → IsDistinct (add_total (λ a b. a == b) k v groups)
add_total-IsDistinct k v [] h = (tt, tt)
add_total-IsDistinct k v ((j, total) ∷ groups) h = elim (Bool-cases (k == j)) [
  | inl same ↦ rw same h
  | inr other ↦
      rw other
        (All-add_total j k v groups (==_flip j k other) h.0, add_total-IsDistinct k v groups h.1)
]

pub group_totals-IsDistinct : (rows : List (ℕ × ℤ)) → IsDistinct (group_totals (λ a b. a == b) rows)
unfolding group_totals
group_totals-IsDistinct [] = tt
group_totals-IsDistinct ((k, v) ∷ rows) = add_total-IsDistinct k v _ (group_totals-IsDistinct rows)

module _ (before : ℕ × ℤ → ℕ × ℤ → Bool) where
  insert_by-IsDistinct :
      (x : ℕ × ℤ) (ys : List (ℕ × ℤ))
      → All (λ g. (x.0 == g.0) ≡ false) ys
      → IsDistinct ys
      → IsDistinct (insert_by before x ys)
  unfolding insert_by
  insert_by-IsDistinct x [] a h = (tt, tt)
  insert_by-IsDistinct x (y ∷ ys) a h = elim (Bool-cases (before y x)) [
    | inl first ↦
        rw first
          (All-insert_by before _ x ys (==_flip y.0 x.0 a.0) h.0, insert_by-IsDistinct x ys a.1 h.1)
    | inr later ↦ rw later (a, h)
  ]

  pub sort_by-IsDistinct : (xs : List (ℕ × ℤ)) → IsDistinct xs → IsDistinct (sort_by before xs)
  unfolding sort_by
  sort_by-IsDistinct [] h = tt
  sort_by-IsDistinct (x ∷ xs) h =
      insert_by-IsDistinct x (sort_by before xs) (All-sort_by before _ xs h.0)
        (sort_by-IsDistinct xs h.1)

-- what the key `j` is set to when the groups are written one after the other
unfoldable pub assigned : ℕ → List (ℕ × ℤ) → ℤ → ℤ
assigned j [] d = d
assigned j ((k, total) ∷ groups) d = assigned j groups (if k == j then total else d)

assigned_absent :
    (j k : ℕ) (groups : List (ℕ × ℤ)) (d : ℤ)
    → (k == j) ≡ true
    → All (λ g. (k == g.0) ≡ false) groups
    → (assigned j groups d ≡ d) × (sum_where (λ i. i == j) groups ≡ pos 0)
unfolding assigned sum_where
assigned_absent j k [] d e h = (refl, refl)
assigned_absent j k ((i, total) ∷ groups) d e h =
    let other : (i == j) ≡ false = ground (arith, e, h.0) in
    rw other (assigned_absent j k groups d e h.1)

pub assigned-sum_where :
    (j : ℕ) (groups : List (ℕ × ℤ))
    → IsDistinct groups
    → assigned j groups (pos 0) ≡ sum_where (λ k. k == j) groups
unfolding assigned sum_where
assigned-sum_where j [] h = refl
assigned-sum_where j ((k, total) ∷ groups) h = elim (Bool-cases (k == j)) [
  | inl e ↦
      let absent = assigned_absent j k groups total e h.0 in
      rw e (absent.0 ∙ rw (absent.1) (omega int_laws))
  | inr e ↦ rw e (assigned-sum_where j groups h.1)
]
