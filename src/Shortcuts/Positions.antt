-- ===== src/Shortcuts/Positions.antt =====
-- The positions of a user's shortcuts.
use mathlib.Core.Path.{subst}
use family_assistant_kernel.Prelude.{
  ℕ, ◌+◌, ◌<◌, ◌≤◌, ◌≡◌, refl, ◌∙◌, ap, Bool, true, false, ◌==◌, Option, none, some, [], ◌∷◌,
  if◌then◌else◌, All, arith, Bool-cases, inl, inr,
}
use family_assistant_kernel.Storage.{find, IsUnique}
use family_assistant_kernel.Shortcuts.{
  CostShortcut, Rows, owned, last_position, larger, after, next_position, set_position, number_from,
}

-- every row has a position below `n`
Below : ℕ → Rows → Type 0
Below n rows = All (λ r. r.1.ui_position_index < n) rows

Below-mono : (m n : ℕ) (rows : Rows) → m ≤ n → Below m rows → Below n rows
unfolding Below
Below-mono m n [] h b = tt
Below-mono m n (r ∷ rows) h b = (omega (arith, b.0), Below-mono m n rows h b.1)

larger-bounds : (p : ℕ) (o : Option ℕ) → (p < larger p o + 1) × (after o ≤ larger p o + 1)
larger-bounds p none = (omega arith, omega arith)
larger-bounds p (some n) = (ground arith, ground arith)

last_position-Below : (rows : Rows) → Below (after (last_position rows)) rows
unfolding last_position Below
last_position-Below [] = tt
last_position-Below ((id, x) ∷ rows) =
    let (here, rest) = larger-bounds x.ui_position_index (last_position rows) in
    (here, Below-mono _ _ rows rest (last_position-Below rows))

-- A new shortcut comes after every shortcut that its user has.
pub next_position-after :
    (user_id : ℕ) (rows : Rows)
    → All (λ r. r.1.ui_position_index < next_position user_id rows) (owned user_id rows)
unfolding next_position Below
next_position-after user_id rows = last_position-Below (owned user_id rows)

-- the rows that the loop goes through: each is there for the user, and no key comes twice
abbrev pub Present : ℕ → Rows → Rows → Type 0
Present user_id [] rows = Unit
Present user_id ((id, x) ∷ ordered) rows =
    (find id rows ≡ some x) × (x.user_id ≡ user_id) × Present user_id ordered rows

-- the rows have the positions n, n + 1, …
abbrev pub Numbered : ℕ → Rows → Rows → Type 0
Numbered n [] rows = Unit
Numbered n ((id, x) ∷ ordered) rows =
    (find id rows ≡ some (record x { ui_position_index = n })) × Numbered (n + 1) ordered rows

find-set_position_other :
    (k id user_id n : ℕ) (rows : Rows)
    → (id == k) ≡ false
    → find k (set_position id user_id n rows) ≡ find k rows
unfolding set_position find
find-set_position_other k id user_id n [] h = refl
find-set_position_other k id user_id n ((j, x) ∷ rows) h =
    ground (arith, h, find-set_position_other k id user_id n rows h)

find-set_position :
    (id user_id n : ℕ) (x : CostShortcut) (rows : Rows)
    → find id rows ≡ some x
    → x.user_id ≡ user_id
    → find id (set_position id user_id n rows) ≡ some (record x { ui_position_index = n })
unfolding set_position find
find-set_position id user_id n x [] h own = cc h
find-set_position id user_id n x ((j, y) ∷ rows) h own = elim (Bool-cases (id == j)) [
  | inl same ↦
      rw same
        (changed y (subst (λ (b : Bool). (if b then some y else find id rows) ≡ some x) same h))
  | inr differ ↦ rw differ (
      find-set_position id user_id n x rows
        (subst (λ (b : Bool). (if b then some y else find id rows) ≡ some x) differ h) own)
]
  where
    changed :
        (z : CostShortcut)
        → some z ≡ some x
        → some (if z.user_id == user_id then record z { ui_position_index = n } else z)
          ≡ some (record x { ui_position_index = n })
    changed z e =
        let equal : z ≡ x = cc e in
        let mine : (x.user_id == user_id) ≡ true = ground (arith, own) in rw (equal, mine) refl

find-number_from_other :
    (k user_id n : ℕ) (ordered rows : Rows)
    → find k ordered ≡ none
    → find k (number_from user_id n ordered rows) ≡ find k rows
unfolding number_from find
find-number_from_other k user_id n [] rows h = refl
find-number_from_other k user_id n ((id, x) ∷ ordered) rows h = elim (Bool-cases (k == id)) [
  | inl same ↦
      let bad : some x ≡ none =
        subst (λ (b : Bool). (if b then some x else find k ordered) ≡ none) same h in
      cc bad
  | inr differ ↦
      let gone : find k ordered ≡ none =
        subst (λ (b : Bool). (if b then some x else find k ordered) ≡ none) differ h in
      let apart : (id == k) ≡ false = ground (arith, differ) in
      find-number_from_other k user_id (n + 1) ordered _ gone
      ∙ step (x.ui_position_index == n) apart
]
  where
    step :
        (b : Bool)
        → (id == k) ≡ false
        → find k (if b then rows else set_position id user_id n rows) ≡ find k rows
    step true apart = refl
    step false apart = find-set_position_other k id user_id n rows apart

Present-kept :
    (id user_id : ℕ) (ordered rows next : Rows)
    → find id ordered ≡ none
    → ((k : ℕ) → (id == k) ≡ false → find k next ≡ find k rows)
    → Present user_id ordered rows
    → Present user_id ordered next
unfolding find
Present-kept id user_id [] rows next gone same h = tt
Present-kept id user_id ((k, x) ∷ ordered) rows next gone same h = elim (Bool-cases (id == k)) [
  | inl equal ↦
      let bad : some x ≡ none =
        subst (λ (b : Bool). (if b then some x else find id ordered) ≡ none) equal gone in
      cc bad
  | inr differ ↦
      let rest : find id ordered ≡ none =
        subst (λ (b : Bool). (if b then some x else find id ordered) ≡ none) differ gone in
      (same k differ ∙ h.0, h.1, Present-kept id user_id ordered rows next rest same h.2)
]

-- The loop of the rebuild gives the shortcuts of the user the positions n, n + 1, … in the order in which
-- it goes through them, when they are rows of the user and no key comes twice.
pub number_from-Numbered :
    (user_id n : ℕ) (ordered rows : Rows)
    → IsUnique ordered
    → Present user_id ordered rows
    → Numbered n ordered (number_from user_id n ordered rows)
unfolding number_from
number_from-Numbered user_id n [] rows u h = tt
number_from-Numbered user_id n ((id, x) ∷ ordered) rows u h = (
  find-number_from_other id user_id (n + 1) ordered _ u.0 ∙ moved,
  number_from-Numbered user_id (n + 1) ordered _ u.1
      (Present-kept id user_id ordered rows _ u.0 untouched h.2),
)
  where
    moved :
        find id (if x.ui_position_index == n then rows else set_position id user_id n rows)
        ≡ some (record x { ui_position_index = n })
    moved = elim (Bool-cases (x.ui_position_index == n)) [
      | inl there ↦
          rw there
            (h.0 ∙ ap (λ (p : ℕ). some (record x { ui_position_index = p })) (grind (arith, there)))
      | inr elsewhere ↦ rw elsewhere (find-set_position id user_id n x rows h.0 h.1)
    ]

    untouched :
        (k : ℕ)
        → (id == k) ≡ false
        → find k (if x.ui_position_index == n then rows else set_position id user_id n rows)
          ≡ find k rows
    untouched k apart = elim (Bool-cases (x.ui_position_index == n)) [
      | inl there ↦ rw there refl
      | inr elsewhere ↦ rw elsewhere (find-set_position_other k id user_id n rows apart)
    ]
