-- ===== src/News/Ingestion.antt =====
-- What a run of `ingest_articles` (src/application/news.py) leaves behind, and a later run over
-- candidates that it let through.
use family_assistant_kernel.Prelude.{
  ℕ, suc, ◌+◌, ◌<◌, arith, ◌≡◌, refl, ◌∙◌, ap, Bool, true, false, ltb, ◌==◌, String, Option, none,
  some, List, [], ◌∷◌, ◌++◌, zero, if◌then◌else◌, any, all, All, get_elem?, length, map, Bool-cases,
  inl, inr,
}
use mathlib.Core.Path.{subst}
use family_assistant_kernel.Prelude.Int.{ℤ, pos, negsuc}
use family_assistant_kernel.Exec.{Error, database, Result, ok, err}
use family_assistant_kernel.News.Items.{NewsItem, News}
use family_assistant_kernel.News.Seen.{
  ArticleCandidate, Key, Entries, cache_ttl, is_hit, has_url, NoneOf, survivors, cache_all,
  filter_cached, filter_cached-again,
}
use family_assistant_kernel.News.Pipeline.{
  CandidateGroup, Backend, Run, single_group, item_of_group, add_at, keep, keep_answered,
  filter_articles, group_articles, fits_columns, report, save_level, group_level, filter_level,
  ingest_articles,
}

module _ (P : ArticleCandidate → Type 0) where
  All-get_elem? :
      (cs : List ArticleCandidate) (i : ℕ) (kept : List ArticleCandidate)
      → All P cs
      → All P kept
      → All P (add_at (get_elem? cs i) kept)
  All-get_elem? [] i kept h g = g
  All-get_elem? (c ∷ cs) zero kept h g = (h.0, g)
  All-get_elem? (c ∷ cs) (suc i) kept h g = All-get_elem? cs i kept h.1 g

  All-keep :
      (cs : List ArticleCandidate) (keep_indices : List ℤ) → All P cs → All P (keep cs keep_indices)
  unfolding keep
  All-keep cs [] h = tt
  All-keep cs (negsuc n ∷ keep_indices) h = All-keep cs keep_indices h
  All-keep cs (pos i ∷ keep_indices) h = elim (Bool-cases (ltb i (length cs))) [
    | inl e ↦ rw e (All-get_elem? cs i _ h (All-keep cs keep_indices h))
    | inr e ↦ rw e (All-keep cs keep_indices h)
  ]

  All-keep_answered :
      (cs : List ArticleCandidate) (o : Option (List ℤ)) → All P cs → All P (keep_answered cs o)
  All-keep_answered cs none h = h
  All-keep_answered cs (some keep_indices) h = All-keep cs keep_indices h

  -- Whatever indices the filter agent answers, negative, too large or repeated, and also when it
  -- raises, what holds of all the candidates holds of all that go on.
  pub All-filter_articles :
      (run : Run) (cs : List ArticleCandidate) → All P cs → All P (filter_articles run cs)
  unfolding filter_articles
  All-filter_articles run cs h = All-keep_answered cs (run.news_filter_agent cs) h

-- the rows without their keys
abbrev pub saved : News → List NewsItem
saved s = map (λ r. r.1) s.items.rows

module _ (run : Run) (source_name : String) (user_id : ℕ) where
  report-seen : (b : Backend) (p : Result {0} Unit × News) → (report b p).1.seen ≡ b.seen
  report-seen b (ok tt, news) = refl
  report-seen b (err e, news) = refl

  save_level-seen :
      (groups : List CandidateGroup) (b : Backend)
      → (save_level run source_name user_id groups b).1.seen ≡ b.seen
  save_level-seen [] b = refl
  save_level-seen (g ∷ groups) b = report-seen b _

  group_level-seen :
      (cs : List ArticleCandidate) (b : Backend)
      → (group_level run source_name user_id cs b).1.seen ≡ b.seen
  group_level-seen [] b = refl
  group_level-seen (c ∷ cs) b = save_level-seen (group_articles run (c ∷ cs)) b

  filter_level-seen :
      (cs : List ArticleCandidate) (b : Backend)
      → (filter_level run source_name user_id cs b).1.seen ≡ b.seen
  filter_level-seen [] b = refl
  filter_level-seen (c ∷ cs) b = elim (Bool-cases (any (λ u. u == user_id) b.users)) [
    | inl e ↦ rw e (group_level-seen (filter_articles run (c ∷ cs)) b)
    | inr e ↦ rw e refl
  ]

no_candidates :
    (run : Run) (source_name : String) (user_id : ℕ) (cs : List ArticleCandidate) (b : Backend)
    → cs ≡ []
    → filter_level run source_name user_id cs b ≡ (ok none, b)
no_candidates run source_name user_id cs b e = rw e refl

no_new_keys :
    (get_fails set_fails : Key → Bool) (now user_id : ℕ) (cs : List ArticleCandidate)
    (seen : Entries)
    → (filter_cached get_fails set_fails now user_id cs seen).0 ≡ []
    → (filter_cached get_fails set_fails now user_id cs seen).1 ≡ seen
unfolding filter_cached cache_all
no_new_keys get_fails set_fails now user_id cs seen e =
    ap (λ new. cache_all set_fails now user_id new seen) e

-- when all the candidates are known, none is left
none_left :
    (get_fails : Key → Bool) (now user_id : ℕ) (first cs : List ArticleCandidate) (seen : Entries)
    → All (λ c. has_url c.url first ≡ true) cs
    → NoneOf first (survivors get_fails now user_id cs seen)
    → survivors get_fails now user_id cs seen ≡ []
unfolding survivors
none_left get_fails now user_id first [] seen h g = refl
none_left get_fails now user_id first (c ∷ cs) seen h g =
    elim (Bool-cases (is_hit get_fails now (user_id, c.url) seen)) [
      | inl hit ↦ rw hit (none_left get_fails now user_id first cs seen h.1 (tail true hit))
      | inr miss ↦ let bad : ⊥ = head (tail false miss) in elim bad [ ]
    ]
  where
    tail :
        (b : Bool)
        → is_hit get_fails now (user_id, c.url) seen ≡ b
        → NoneOf first (
            if b
            then survivors get_fails now user_id cs seen
            else c ∷ survivors get_fails now user_id cs seen)
    tail b e =
        subst
          (λ (b : Bool). NoneOf first (
            if b
            then survivors get_fails now user_id cs seen
            else c ∷ survivors get_fails now user_id cs seen))
          e g

    head : NoneOf first (c ∷ survivors get_fails now user_id cs seen) → ⊥
    head k = ground (arith, h.0, k.0)

module _ (run again : Run) (source_name : String) (user_id : ℕ) where
  -- When every `set` of the cache works in a run, then however that run ended, with an answer of any
  -- kind or with an exception, a run that starts less than a week later, whose `get`s work, over candidates
  -- whose URLs the first run let through the cache, reports success and changes nothing, whatever its
  -- agents would say.
  pub ingest_articles-again :
      (cs cs' : List ArticleCandidate) (b : Backend)
      → ((k : Key) → run.set_fails k ≡ false)
      → ((k : Key) → again.get_fails k ≡ false)
      → again.now < run.now + cache_ttl
      → All (λ c. has_url c.url (survivors run.get_fails run.now user_id cs b.seen) ≡ true) cs'
      → ingest_articles again cs' source_name user_id
          (ingest_articles run cs source_name user_id b).1
        ≡ (ok none, (ingest_articles run cs source_name user_id b).1)
  unfolding ingest_articles filter_cached
  ingest_articles-again cs cs' b sets gets soon known =
      let b1 = (ingest_articles run cs source_name user_id b).1 in
      let s1 = (filter_cached run.get_fails run.set_fails run.now user_id cs b.seen).1 in
      let e : b1.seen ≡ s1 = filter_level-seen run source_name user_id _ _ in
      let empty : survivors again.get_fails again.now user_id cs' b1.seen ≡ [] =
        ap (λ seen. survivors again.get_fails again.now user_id cs' seen) e
        ∙ none_left again.get_fails again.now user_id _ cs' s1 known (
            filter_cached-again run.get_fails run.set_fails again.get_fails again.set_fails run.now
              again.now user_id cs cs' b.seen sets gets soon) in
      no_candidates again source_name user_id _ _ empty
      ∙ ap (λ seen. (ok none, record b1 { seen = seen }))
          (no_new_keys again.get_fails again.set_fails again.now user_id cs' b1.seen empty)

-- the rows that the individual articles become when both agents raise
abbrev pub own_items : Run → String → ℕ → List ArticleCandidate → List NewsItem
own_items run source_name user_id cs =
    map (item_of_group source_name user_id run.now) (map single_group cs)

-- all the rows are saved and the answer is success, or none is and it is an error
abbrev pub AllOrNothing : List NewsItem → News → Result (Option Error) × Backend → Type 0
AllOrNothing items before (answer, b) =
    (answer ≡ (if all fits_columns items then ok none else ok (some database)))
    × (saved b.news ≡ (if all fits_columns items then saved before ++ items else saved before))
