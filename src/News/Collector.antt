-- ===== src/News/Collector.antt =====
-- `garbage_collect`: src/application/scheduler/jobs/kernel/gc.py.
use family_assistant_kernel.Prelude.{
  ℕ, suc, ◌+◌, ◌-◌, ◌/◌, ◌≤◌, ◌<◌, ◌≡◌, ◌≢◌, ◌⊎◌, true, false, ◌&&◌, refl, ◌∙◌, ap, Bool, not,
  Option, none, some, List, [], ◌∷◌, map, arith, if◌then◌else◌, select, length, take, ltb, ==_refl,
  length-append, length-map, length-take, min, ◌==◌, Bool-cases, inl, inr,
}
use family_assistant_kernel.Storage
use family_assistant_kernel.Storage.{Table, find, IsUnique}
use family_assistant_kernel.Storage.Order.{sort_by, length-sort_by}
use family_assistant_kernel.News.Items.{
  NewsItem, DeletedSignal, News, is_stale_item, stale_items, delete_stale_items, day_of, is_none,
  owned_by, add_deleted_signals,
}

-- the signal that the collector stores for an item
unfoldable pub kernel_signal : ℕ → NewsItem → DeletedSignal
kernel_signal user_id item = record {
  user_id = user_id;
  title = item.title;
  description = item.description;
  human_feedback = item.human_feedback;
  sources = item.sources;
  source_type = "kernel";
}

-- what the collector does for one user: `today - retention` is the cutoff
unfoldable pub collect_for : ℕ → ℕ → News → ℕ × News
unfolding kernel_signal stale_items delete_stale_items
collect_for user_id cutoff s = delete_stale_items user_id cutoff (record s {
  signals =
      add_deleted_signals (map (λ r. kernel_signal user_id r.1) (stale_items user_id cutoff 50 s))
        s.signals;
})

pub record Owner : Type 0 where
  pub id : ℕ
  pub gc_retention_days : ℕ

-- dates are day numbers, and no user keeps items from before day 0
unfoldable pub garbage_collect : ℕ → List Owner → News → News
unfolding collect_for
garbage_collect today [] s = s
garbage_collect today (user ∷ users) s =
    garbage_collect today users (collect_for user.id (today - user.gc_retention_days) s).1

all_five :
    (a b c d e : Bool)
    → a && (b && (c && (d && e))) ≡ true
    → (a ≡ true) × (b ≡ true) × (c ≡ true) × (d ≡ true) × (e ≡ true)
all_five true true true true e h = (refl, refl, refl, refl, h)
all_five true true true false e h = let bad : ⊥ = ground (arith, h) in elim bad [ ]
all_five true true false d e h = let bad : ⊥ = ground (arith, h) in elim bad [ ]
all_five true false c d e h = let bad : ⊥ = ground (arith, h) in elim bad [ ]
all_five false b c d e h = let bad : ⊥ = ground (arith, h) in elim bad [ ]

module _ {A : Type 0} (keep : A → Bool) where
  abbrev pub kept_row : Option A → Option A
  kept_row none = none
  kept_row (some a) = if keep a then some a else none

  find-select :
      (k : ℕ) (rows : List (ℕ × A))
      → IsUnique rows
      → find k (select (λ r. keep r.1) rows) ≡ kept_row (find k rows)
  unfolding find
  find-select k [] u = refl
  find-select k ((j, a) ∷ rows) u = elim (Bool-cases (k == j)) [
    | inl same ↦
        let equal : k ≡ j = grind (arith, same) in
        let rest : find j (select (λ r. keep r.1) rows) ≡ none =
          find-select j rows u.1 ∙ ap kept_row u.0 in
        rw equal (ground (arith, rest, ==_refl j))
    | inr differ ↦ ground (arith, differ, find-select k rows u.1)
  ]

-- The item is another user's or nobody's, of the cutoff day or later, or the user did something with it.
abbrev pub IsKept : ℕ → ℕ → NewsItem → Type 0
IsKept user_id cutoff i =
    (i.user_id ≢ some user_id)
    ⊎ ((cutoff ≤ i.created_at / 1440)
        ⊎ ((i.bookmarked ≡ true) ⊎ ((i.reaction ≢ none) ⊎ (i.human_feedback ≢ none))))

-- The item is the user's, older than the cutoff day, and the user did nothing with it.
abbrev pub IsLeft : ℕ → ℕ → NewsItem → Type 0
IsLeft user_id cutoff i =
    (i.user_id ≡ some user_id)
    × (i.created_at / 1440 < cutoff)
    × (i.bookmarked ≡ false)
    × (i.reaction ≡ none)
    × (i.human_feedback ≡ none)

none_of : {A : Type 0} (o : Option A) → is_none o ≡ true → o ≡ none
unfolding is_none
none_of none h = refl
none_of (some a) h = let bad : ⊥ = ground (arith, h) in elim bad [ ]

owner_of :
    (user_id : ℕ) (o : Option ℕ)
    → (elim o [ none ↦ false | some u ↦ u == user_id ]) ≡ true
    → o ≡ some user_id
owner_of user_id none h = let bad : ⊥ = ground (arith, h) in elim bad [ ]
owner_of user_id (some u) h = ap (λ (k : ℕ). some k) (grind (arith, h))

-- what the selection of the collector means
is_stale_item-IsLeft :
    (user_id cutoff : ℕ) (i : NewsItem)
    → is_stale_item user_id cutoff i ≡ true
    → IsLeft user_id cutoff i
unfolding is_stale_item owned_by day_of
is_stale_item-IsLeft user_id cutoff i h =
    let all =
      all_five (owned_by user_id i) (ltb (i.created_at / 1440) cutoff) (is_none i.reaction)
        (not i.bookmarked) (is_none i.human_feedback) h in
    let late : ltb (i.created_at / 1440) cutoff ≡ true = all.1 in
    let unmarked : not i.bookmarked ≡ true = all.3 in
    (
      owner_of user_id i.user_id all.0,
      ground (arith, late),
      ground (arith, unmarked),
      none_of i.reaction all.2,
      none_of i.human_feedback all.4,
    )

kept-fresh :
    (user_id cutoff : ℕ) (i : NewsItem)
    → IsKept user_id cutoff i
    → is_stale_item user_id cutoff i ≡ false
kept-fresh user_id cutoff i k = elim (Bool-cases (is_stale_item user_id cutoff i)) [
  | inr e ↦ e
  | inl e ↦ let bad : ⊥ = not_both k (is_stale_item-IsLeft user_id cutoff i e) in elim bad [ ]
]
  where
    not_both : IsKept user_id cutoff i → IsLeft user_id cutoff i → ⊥
    not_both (inl other) l = other l.0
    not_both (inr (inl late)) l = omega (arith, late, l.1)
    not_both (inr (inr (inl marked))) l = ground (arith, marked, l.2)
    not_both (inr (inr (inr (inl given)))) l = given l.3
    not_both (inr (inr (inr (inr given)))) l = given l.4

left-stale :
    (user_id cutoff : ℕ) (i : NewsItem)
    → IsLeft user_id cutoff i
    → is_stale_item user_id cutoff i ≡ true
unfolding is_stale_item owned_by day_of is_none
left-stale user_id cutoff i l = rw (l.0, l.2, l.3, l.4, ==_refl user_id) (ground (arith, l.1))

-- The collection keeps every row of another user or of nobody, of the cutoff day or later, or with a
-- bookmark, a reaction or a feedback, as it was, and deletes every other row.
pub collect_for-find :
    (user_id cutoff k : ℕ) (item : NewsItem) (s : News)
    → IsUnique s.items.rows
    → find k s.items.rows ≡ some item
    → (IsKept user_id cutoff item → find k (collect_for user_id cutoff s).1.items.rows ≡ some item)
      × (IsLeft user_id cutoff item → find k (collect_for user_id cutoff s).1.items.rows ≡ none)
unfolding collect_for delete_stale_items
collect_for-find user_id cutoff k item s u e =
    let found =
      find-select (λ i. not (is_stale_item user_id cutoff i)) k s.items.rows u
      ∙ ap (kept_row (λ i. not (is_stale_item user_id cutoff i))) e in
    (
      (λ kept.
          found
          ∙ ap (λ (b : Bool). if not b then some item else none)
              (kept-fresh user_id cutoff item kept)),
      (λ l.
          found
          ∙ ap (λ (b : Bool). if not b then some item else none)
              (left-stale user_id cutoff item l)),
    )

length-insert :
    (x : DeletedSignal) (t : Table DeletedSignal)
    → length (Storage.insert x t).rows ≡ suc (length t.rows)
unfolding Storage.insert
length-insert x t = omega (arith, length-append t.rows ((t.next, x) ∷ []))

length-add_deleted_signals :
    (xs : List DeletedSignal) (t : Table DeletedSignal)
    → length (add_deleted_signals xs t).rows ≡ length t.rows + length xs
unfolding add_deleted_signals
length-add_deleted_signals [] t = omega arith
length-add_deleted_signals (x ∷ xs) t =
    omega (arith, length-add_deleted_signals xs (Storage.insert x t), length-insert x t)

-- The collector stores one signal for each item that it deletes, but never more than 50 for a user:
-- of more stale items only 50 leave a signal, and all of them are deleted.
pub collect_for-signals :
    (user_id cutoff : ℕ) (s : News)
    → length (collect_for user_id cutoff s).1.signals.rows
      ≡ length s.signals.rows + min 50 (collect_for user_id cutoff s).0
unfolding collect_for delete_stale_items stale_items
collect_for-signals user_id cutoff s =
    let old : List (ℕ × NewsItem) = select (λ r. is_stale_item user_id cutoff r.1) s.items.rows in
    let before : ℕ × NewsItem → ℕ × NewsItem → Bool = λ a b. ltb b.1.created_at a.1.created_at in
    length-add_deleted_signals _ s.signals
    ∙ ap (λ (n : ℕ). length s.signals.rows + n)
        (length-map (take 50 (sort_by before old)) (λ r. kernel_signal user_id r.1)
          ∙ length-take 50 (sort_by before old)
          ∙ ap (min 50) (length-sort_by before old))
