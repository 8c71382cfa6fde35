-- ===== src/News/Pipeline.antt =====
-- The pipeline of src/application/news.py after the cache filter: `_filter_articles`, `_group_articles`,
-- `_save_groups` and `ingest_articles`. What the two agents answer is a parameter, none when they raise.
use Prim.Native.String.{count, ◌++◌ as str_append, [] as str_nil, ◌∷◌ as str_cons}
use family_assistant_kernel.Prelude.{
  ℕ, zero, suc, leb, Bool, false, ◌&&◌, ltb, ◌==◌, String, Option, none, some, List, [], ◌∷◌,
  if◌then◌else◌, any, all, get_elem?, length, map,
}
use family_assistant_kernel.Prelude.Int.{ℤ, pos, negsuc}
use family_assistant_kernel.Exec.{Error, not_found, database, Result, ok, err, Exec}
use family_assistant_kernel.News.Items.{NewsItem, News, elements, add_news_item}
use family_assistant_kernel.News.Seen.{ArticleCandidate, Key, Entries, filter_cached}

pub record CandidateGroup : Type 0 where
  pub title : String
  pub inference : String
  pub article_urls : List String

-- the cache, the tables of the news, and the ids of the users
pub record Backend : Type 0 where
  pub seen : Entries
  pub news : News
  pub users : List ℕ

-- What one run depends on: which `get` and `set` of the cache fail, the agents and the time, in minutes.
pub record Run : Type 0 where
  pub get_fails : Key → Bool
  pub set_fails : Key → Bool
  pub news_filter_agent : List ArticleCandidate → Option (List ℤ)
  pub grouping_agent : List ArticleCandidate → Option (List CandidateGroup)
  pub now : ℕ

abbrev pub all_urls : ArticleCandidate → List String
all_urls c = c.url ∷ c.extra_urls

abbrev pub add_at : Option ArticleCandidate → List ArticleCandidate → List ArticleCandidate
add_at none kept = kept
add_at (some c) kept = c ∷ kept

-- `candidates[i] for i in keep_indices if 0 <= i < len(candidates)`
unfoldable pub keep : List ArticleCandidate → List ℤ → List ArticleCandidate
keep candidates [] = []
keep candidates (negsuc n ∷ keep_indices) = keep candidates keep_indices
keep candidates (pos i ∷ keep_indices) =
    let rest = keep candidates keep_indices in
    if ltb i (length candidates) then add_at (get_elem? candidates i) rest else rest

abbrev pub keep_answered : List ArticleCandidate → Option (List ℤ) → List ArticleCandidate
keep_answered candidates none = candidates
keep_answered candidates (some keep_indices) = keep candidates keep_indices

-- `_filter_articles`, with its `except` clause in `ingest_articles`, which passes all candidates on
unfoldable pub filter_articles : Run → List ArticleCandidate → List ArticleCandidate
unfolding keep
filter_articles run candidates = keep_answered candidates (run.news_filter_agent candidates)

-- `text[:n]`
abbrev pub prefix : ℕ → String → String
prefix zero text = ""
prefix (suc n) str_nil = ""
prefix (suc n) (str_cons c text) = str_cons c (prefix n text)

unfoldable pub short_description : ArticleCandidate → String
short_description c =
    if leb (count c.content) 500 then c.content else str_append (prefix 500 c.content) "..."

abbrev pub single_group : ArticleCandidate → CandidateGroup
single_group a = record {
  title = a.title;
  inference = short_description a;
  article_urls = all_urls a;
}

abbrev pub or_single_groups :
    List ArticleCandidate → Option (List CandidateGroup) → List CandidateGroup
or_single_groups candidates none = map single_group candidates
or_single_groups candidates (some groups) = groups

-- `_group_articles`, with the individual articles that `ingest_articles` falls back to
unfoldable pub group_articles : Run → List ArticleCandidate → List CandidateGroup
group_articles run candidates = elim (run.grouping_agent candidates) [
  | none ↦ map (single_group) candidates
  | some groups ↦ groups
]

abbrev pub item_of_group : String → ℕ → ℕ → CandidateGroup → NewsItem
item_of_group source_name user_id now group = record {
  user_id = some user_id;
  title = group.title;
  description = group.inference;
  sources = some (source_name ∷ []);
  article_urls = some group.article_urls;
  bookmarked = false;
  reaction = none;
  human_feedback = none;
  needs_ai_analysis = false;
  created_at = now;
}

unfoldable pub add_items : List NewsItem → News → News
unfolding add_news_item
add_items [] s = s
add_items (i ∷ items) s = add_items items (add_news_item i s)

-- the lengths of the columns `title`, `description` and `article_urls`, which PostgreSQL does not cut
unfoldable pub fits_columns : NewsItem → Bool
unfolding elements
fits_columns i =
    leb (count i.title) 500
    && (leb (count i.description) 5000
        && all (λ url. leb (count url) 2048) (elements i.article_urls))

-- `_save_groups`: the groups are added to one session, which commits all of them or none
unfoldable pub save_groups : Run → String → ℕ → List CandidateGroup → Exec News Unit
unfolding add_items fits_columns
save_groups run source_name user_id groups s =
    let items = map (item_of_group source_name user_id run.now) groups in
    if all fits_columns items then (ok tt, add_items items s) else (err database, s)

-- `except Exception` around the saving: the text of the error is the answer
abbrev pub report : Backend → Result {0} Unit × News → Result (Option Error) × Backend
report b (ok tt, news) = (ok none, record b { news = news })
report b (err e, news) = (ok (some e), record b { news = news })

abbrev pub save_level : Run → String → ℕ → List CandidateGroup → Exec Backend (Option Error)
save_level run source_name user_id [] b = (ok none, b)
save_level run source_name user_id (g ∷ groups) b =
    report b (save_groups run source_name user_id (g ∷ groups) b.news)

abbrev pub group_level : Run → String → ℕ → List ArticleCandidate → Exec Backend (Option Error)
group_level run source_name user_id [] b = (ok none, b)
group_level run source_name user_id (c ∷ cs) b =
    save_level run source_name user_id (group_articles run (c ∷ cs)) b

-- `user_by_id` raises when there is no such user, outside every `try`
abbrev pub filter_level : Run → String → ℕ → List ArticleCandidate → Exec Backend (Option Error)
filter_level run source_name user_id [] b = (ok none, b)
filter_level run source_name user_id (c ∷ cs) b =
    if any (λ u. u == user_id) b.users
    then group_level run source_name user_id (filter_articles run (c ∷ cs)) b
    else (err not_found, b)

-- None is success, and an error is the text of the exception that the saving raised.
unfoldable pub ingest_articles :
    Run → List ArticleCandidate → String → ℕ → Exec Backend (Option Error)
unfolding filter_cached filter_articles group_articles save_groups
ingest_articles run candidates source_name user_id b =
    let (survivors, seen) =
      filter_cached run.get_fails run.set_fails run.now user_id candidates b.seen in
    filter_level run source_name user_id survivors (record b { seen = seen })
