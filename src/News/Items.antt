-- ===== src/News/Items.antt =====
-- News items: src/infrastructure/repositories/news.py over the tables `news_items` and
-- `deleted_signals`. Times are minutes; the date of a time is the day it falls on.
use family_assistant_kernel.Prelude.{
  ℕ, ◌/◌, Bool, true, false, not, ◌&&◌, ltb, ◌==◌, str_eq, String, Option, none, some, List, [],
  ◌∷◌, ◌++◌, select, any, take, length,
}
use family_assistant_kernel.Exec.{Exec, pure, or_raise, modify, ◌>>=◌, ◌>>◌, not_found}
use family_assistant_kernel.Storage
use family_assistant_kernel.Storage.{Table, find, update_rows, delete_rows}
use family_assistant_kernel.Storage.Order.{sort_by}

pub record NewsItem : Type 0 where
  pub user_id : Option ℕ
  pub title : String
  pub description : String
  pub sources : Option (List String)
  pub article_urls : Option (List String)
  pub bookmarked : Bool
  pub reaction : Option String
  pub human_feedback : Option String
  pub needs_ai_analysis : Bool
  pub created_at : ℕ

pub record DeletedSignal : Type 0 where
  pub user_id : ℕ
  pub title : String
  pub description : String
  pub human_feedback : Option String
  pub sources : Option (List String)
  pub source_type : String

pub record News : Type 0 where
  pub items : Table NewsItem
  pub signals : Table DeletedSignal

-- `cast(created_at, Date)`
unfoldable pub day_of : ℕ → ℕ
day_of time = time / 1440

unfoldable pub is_none : {A : Type 0} → Option A → Bool
is_none none = true
is_none (some a) = false

-- an `update … where id = id_` that is answered with the row it changed
unfoldable pub write_item : ℕ → (NewsItem → NewsItem) → Exec News NewsItem
write_item id f = do
  item ← λ s. or_raise not_found (find id s.items.rows) s
  modify (λ s. record s { items = record s.items { rows = update_rows id f s.items.rows } })
  pure (f item)

-- `user_id = …` is not true of a NULL
unfoldable pub owned_by : ℕ → NewsItem → Bool
owned_by user_id i = elim i.user_id [ none ↦ false | some u ↦ u == user_id ]

-- an array column without a value has no elements
unfoldable pub elements : Option (List String) → List String
elements none = []
elements (some xs) = xs

unfoldable pub set_human_feedback : ℕ → Option String → Exec News NewsItem
unfolding write_item
set_human_feedback id feedback =
    write_item id (λ i. record i { human_feedback = feedback; needs_ai_analysis = true })

unfoldable pub set_reaction : ℕ → Option String → Exec News NewsItem
unfolding write_item
set_reaction id reaction =
    write_item id (λ i. record i { reaction = reaction; needs_ai_analysis = true })

unfoldable pub toggle_bookmark : ℕ → Exec News NewsItem
unfolding write_item
toggle_bookmark id =
    write_item id (λ i. record i { bookmarked = not i.bookmarked; needs_ai_analysis = true })

unfoldable pub get_news_item : ℕ → Exec News NewsItem
get_news_item id s = or_raise not_found (find id s.items.rows) s

unfoldable pub delete_news_item : ℕ → Exec News Unit
unfolding get_news_item
delete_news_item id = do
  item ← get_news_item id
  modify (λ s. record s { items = record s.items { rows = delete_rows id s.items.rows } })

unfoldable pub merge_articles : ℕ → String → List String → News → News
unfolding elements
merge_articles id description urls s = record s {
  items = record s.items {
    rows =
        update_rows id
          (λ i. record i {
            description = description;
            article_urls = some (elements i.article_urls ++ urls);
          })
          s.items.rows;
  };
}

unfoldable pub add_news_item : NewsItem → News → News
add_news_item item s = record s { items = Storage.insert item s.items }

unfoldable pub url_exists : ℕ → String → News → Bool
unfolding owned_by elements
url_exists user_id url s =
    any (λ r. owned_by user_id r.1 && any (str_eq url) (elements r.1.article_urls)) s.items.rows

-- what `stale_items` and `delete_stale_items` select
unfoldable pub is_stale_item : ℕ → ℕ → NewsItem → Bool
unfolding day_of is_none owned_by
is_stale_item user_id before_date i =
    owned_by user_id i
    && (ltb (day_of i.created_at) before_date
        && (is_none i.reaction && (not i.bookmarked && is_none i.human_feedback)))

unfoldable pub stale_items : ℕ → ℕ → ℕ → News → List (ℕ × NewsItem)
unfolding is_stale_item
stale_items user_id before_date limit s = take limit (
    sort_by (λ a b. ltb b.1.created_at a.1.created_at)
      (select (λ r. is_stale_item user_id before_date r.1) s.items.rows))

-- with the number of deleted items
unfoldable pub delete_stale_items : ℕ → ℕ → News → ℕ × News
unfolding is_stale_item
delete_stale_items user_id before_date s = (
  length (select (λ r. is_stale_item user_id before_date r.1) s.items.rows),
  record s {
    items = record s.items {
      rows = select (λ r. not (is_stale_item user_id before_date r.1)) s.items.rows;
    };
  },
)

unfoldable pub add_deleted_signals : List DeletedSignal → Table DeletedSignal → Table DeletedSignal
add_deleted_signals [] t = t
add_deleted_signals (x ∷ xs) t = add_deleted_signals xs (Storage.insert x t)

unfoldable pub clear_ai_analysis_flag : List ℕ → News → News
clear_ai_analysis_flag [] s = s
clear_ai_analysis_flag (id ∷ ids) s = clear_ai_analysis_flag ids (record s {
  items = record s.items {
    rows = update_rows id (λ i. record i { needs_ai_analysis = false }) s.items.rows;
  };
})
