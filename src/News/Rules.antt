-- ===== src/News/Rules.antt =====
-- The rules that `_merge_rules` and `_build_recently_deleted` make
-- (src/application/scheduler/jobs/kernel/preferences.py).
use mathlib.Core.Path.{subst}
use family_assistant_kernel.Prelude.{
  ◌≡◌, refl, sym, ◌∙◌, ap, ◌⊎◌, if◌then◌else◌, Bool, true, false, ◌||◌, str_eq, eq_iff, String,
  List, [], ◌∷◌, ◌++◌, All, Bool-cases, inl, inr, arith,
}
use family_assistant_kernel.News.Preferences.{
  Deleted, PreferenceRules, mem, from_keys, merge_rules, append_new, titles,
}

-- the rule is in the list
abbrev pub Contains : String → List String → Type 0
Contains x [] = ⊥
Contains x (y ∷ ys) = (x ≡ y) ⊎ Contains x ys

-- no rule comes twice
abbrev pub IsDistinct : List String → Type 0
IsDistinct [] = Unit
IsDistinct (x ∷ xs) = (Contains x xs → ⊥) × IsDistinct xs

Contains-mem : (x : String) (xs : List String) → Contains x xs → mem x xs ≡ true
Contains-mem x [] h = elim h [ ]
Contains-mem x (y ∷ ys) (inl e) =
    let same : str_eq x y ≡ true = (eq_iff x y).1 e in ground (arith, same)
Contains-mem x (y ∷ ys) (inr h) = ground (arith, Contains-mem x ys h)

mem-Contains : (x : String) (xs : List String) → mem x xs ≡ true → Contains x xs
mem-Contains x [] h = let bad : ⊥ = ground (arith, h) in bad
mem-Contains x (y ∷ ys) h = elim (Bool-cases (str_eq x y)) [
  | inl e ↦ inl ((eq_iff x y).0 e)
  | inr e ↦ inr (mem-Contains x ys (ground (arith, h, e)))
]

-- what is not seen yet stays
from_keys-Contains :
    (x : String) (seen xs : List String)
    → Contains x xs
    → Contains x seen ⊎ Contains x (from_keys seen xs)
unfolding from_keys
from_keys-Contains x seen [] h = elim h [ ]
from_keys-Contains x seen (y ∷ ys) (inl e) = elim (Bool-cases (mem y seen)) [
  | inl old ↦ inl (subst (λ z. Contains z seen) (sym e) (mem-Contains y seen old))
  | inr new ↦ rw new (inr (inl e))
]
from_keys-Contains x seen (y ∷ ys) (inr h) = elim (Bool-cases (mem y seen)) [
  | inl old ↦ rw old (from_keys-Contains x seen ys h)
  | inr new ↦ rw new (elim (from_keys-Contains x (y ∷ seen) ys h) [
    | inl (inl e) ↦ inr (inl e)
    | inl (inr s) ↦ inl s
    | inr k ↦ inr (inr k)
  ])
]

-- what comes out was not seen
from_keys-unseen :
    (x : String) (seen xs : List String) → Contains x (from_keys seen xs) → Contains x seen → ⊥
unfolding from_keys
from_keys-unseen x seen [] h s = h
from_keys-unseen x seen (y ∷ ys) h s = elim (Bool-cases (mem y seen)) [
  | inl old ↦
      from_keys-unseen x seen ys
        (subst
          (λ (b : Bool). Contains x (if b then from_keys seen ys else y ∷ from_keys (y ∷ seen) ys))
          old h)
        s
  | inr new ↦
      elim (subst
        (λ (b : Bool). Contains x (if b then from_keys seen ys else y ∷ from_keys (y ∷ seen) ys))
        new h) [
          | inl e ↦
              let there : mem y seen ≡ true =
                Contains-mem y seen (subst (λ z. Contains z seen) e s) in
              ground (arith, there, new)
          | inr k ↦ from_keys-unseen x (y ∷ seen) ys k (inr s)
        ]
]

from_keys-IsDistinct : (seen xs : List String) → IsDistinct (from_keys seen xs)
unfolding from_keys
from_keys-IsDistinct seen [] = tt
from_keys-IsDistinct seen (y ∷ ys) = elim (Bool-cases (mem y seen)) [
  | inl old ↦ rw old (from_keys-IsDistinct seen ys)
  | inr new ↦
      rw new
        ((λ k. from_keys-unseen y (y ∷ seen) ys k (inl refl)), from_keys-IsDistinct (y ∷ seen) ys)
]

-- rules without repetitions that were not seen come first, as they are
from_keys-prefix :
    (seen xs ys : List String)
    → IsDistinct xs
    → ((x : String) → Contains x xs → Contains x seen → ⊥)
    → (more : List String) × (from_keys seen (xs ++ ys) ≡ xs ++ more)
unfolding from_keys
from_keys-prefix seen [] ys d f = (from_keys seen ys, refl)
from_keys-prefix seen (x ∷ xs) ys d f = elim (Bool-cases (mem x seen)) [
  | inl e ↦ let bad : ⊥ = f x (inl refl) (mem-Contains x seen e) in elim bad [ ]
  | inr e ↦
      let (more, h) = from_keys-prefix (x ∷ seen) xs ys d.1 (apart d.0) in
      rw e (more, ap (λ l. x ∷ l) h)
]
  where
    apart : (Contains x xs → ⊥) → (y : String) → Contains y xs → Contains y (x ∷ seen) → ⊥
    apart fresh y k (inl e) = fresh (subst (λ z. Contains z xs) e k)
    apart fresh y k (inr s) = f y (inr k) s

Contains-append_left : (x : String) (xs ys : List String) → Contains x xs → Contains x (xs ++ ys)
Contains-append_left x [] ys h = elim h [ ]
Contains-append_left x (z ∷ xs) ys (inl e) = inl e
Contains-append_left x (z ∷ xs) ys (inr h) = inr (Contains-append_left x xs ys h)

Contains-append_right : (x : String) (xs ys : List String) → Contains x ys → Contains x (xs ++ ys)
Contains-append_right x [] ys h = h
Contains-append_right x (z ∷ xs) ys h = inr (Contains-append_right x xs ys h)

-- the merged list has every rule of both, none twice, and begins with the first when that has none twice
abbrev pub IsMerged : List String → List String → List String → Type 0
IsMerged rules new merged =
    ((x : String) → Contains x rules ⊎ Contains x new → Contains x merged)
    × IsDistinct merged
    × (IsDistinct rules → (more : List String) × (merged ≡ rules ++ more))

from_keys-IsMerged : (rules new : List String) → IsMerged rules new (from_keys [] (rules ++ new))
from_keys-IsMerged rules new = (
  (λ x h. elim (from_keys-Contains x [] (rules ++ new) (either x h)) [
    | inl s ↦ elim s [ ]
    | inr k ↦ k
  ]),
  from_keys-IsDistinct [] (rules ++ new),
  (λ d. from_keys-prefix [] rules new d (λ x k s. s)),
)
  where
    either : (x : String) → Contains x rules ⊎ Contains x new → Contains x (rules ++ new)
    either x (inl h) = Contains-append_left x rules new h
    either x (inr h) = Contains-append_right x rules new h

-- Whatever rules the agent answers, the merged rules have every existing rule and every rule of the
-- agent, none of them twice; when the existing rules have no repetition, the merged ones begin with
-- them in their order.
pub merge_rules-IsMerged :
    (existing output : PreferenceRules)
    → IsMerged existing.skip output.skip (merge_rules existing output).skip
      × IsMerged existing.high_priority output.high_priority
          (merge_rules existing output).high_priority
unfolding merge_rules
merge_rules-IsMerged existing output = (
  from_keys-IsMerged existing.skip output.skip,
  from_keys-IsMerged existing.high_priority output.high_priority,
)

mem_self : (x : String) (xs : List String) → mem x (x ∷ xs) ≡ true
mem_self x xs = let same : str_eq x x ≡ true = (eq_iff x x).1 refl in rw same refl

mem_later : (t x : String) (xs : List String) → mem t xs ≡ true → mem t (x ∷ xs) ≡ true
mem_later t x xs h = ground (arith, h)

titles-append :
    (t : String) (xs ys : List Deleted)
    → mem t (titles (xs ++ ys)) ≡ mem t (titles xs) || mem t (titles ys)
titles-append t [] ys = refl
titles-append t (x ∷ xs) ys = ground (arith, titles-append t xs ys)

-- a title that was there stays
append_new-keeps :
    (t : String) (seen : List String) (retained es : List Deleted)
    → mem t (titles retained) ≡ true
    → mem t (titles (append_new seen retained es)) ≡ true
unfolding append_new
append_new-keeps t seen retained [] h = h
append_new-keeps t seen retained (e ∷ es) h = elim (Bool-cases (mem e.title seen)) [
  | inl known ↦ rw known (append_new-keeps t seen retained es h)
  | inr new ↦ rw new (
      append_new-keeps t (e.title ∷ seen) (retained ++ e ∷ []) es
        (titles-append t retained (e ∷ []) ∙ rw h refl))
]

or_true : (b : Bool) → (b || true) ≡ true
or_true true = refl
or_true false = refl

-- the seen titles are among the retained ones
abbrev pub Seen : List String → List Deleted → Type 0
Seen seen retained = (t : String) → mem t seen ≡ true → mem t (titles retained) ≡ true

append-Seen :
    (seen : List String) (retained : List Deleted) (e : Deleted)
    → Seen seen retained
    → Seen (e.title ∷ seen) (retained ++ e ∷ [])
append-Seen seen retained e f t h =
    titles-append t retained (e ∷ []) ∙ elim (Bool-cases (str_eq t e.title)) [
      | inl same ↦ rw same (or_true (mem t (titles retained)))
      | inr other ↦ rw (f t (ground (arith, h, other))) refl
    ]

module _ (seen : List String) (retained : List Deleted) (e : Deleted) (es : List Deleted) where
  append_new-known :
      mem e.title seen ≡ true → append_new seen retained es ≡ append_new seen retained (e ∷ es)
  unfolding append_new
  append_new-known known = rw known refl

  append_new-new :
      mem e.title seen ≡ false
      → append_new (e.title ∷ seen) (retained ++ e ∷ []) es ≡ append_new seen retained (e ∷ es)
  unfolding append_new
  append_new-new new = rw new refl

-- the titles of the entries are in the result
abbrev pub Covers : List Deleted → List Deleted → Type 0
Covers es out = All (λ e. mem e.title (titles out) ≡ true) es

pub append_new-Covers :
    (seen : List String) (retained es : List Deleted)
    → Seen seen retained
    → Covers es (append_new seen retained es)
append_new-Covers seen retained [] f = tt
append_new-Covers seen retained (e ∷ es) f = elim (Bool-cases (mem e.title seen)) [
  | inl known ↦ subst (Covers (e ∷ es)) (append_new-known seen retained e es known) (
    append_new-keeps e.title seen retained es (f e.title known),
    append_new-Covers seen retained es f,
  )
  | inr new ↦
      let g : Seen (e.title ∷ seen) (retained ++ e ∷ []) = append-Seen seen retained e f in
      subst (Covers (e ∷ es)) (append_new-new seen retained e es new) (
        append_new-keeps e.title (e.title ∷ seen) (retained ++ e ∷ []) es
            (g e.title (mem_self e.title seen)),
        append_new-Covers (e.title ∷ seen) (retained ++ e ∷ []) es g,
      )
]
