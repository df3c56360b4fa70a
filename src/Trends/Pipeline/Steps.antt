-- ===== src/Trends/Pipeline/Steps.antt =====
-- The steps of one batch: contents, evaluation, summaries, embeddings, saving.
use tech_trends.Base.{
  ℕ, ◌+◌, ◌++◌, List, [], ◌∷◌, Bool, Option, none, some, leb, ◌==◌, if◌then◌else◌, is_some, map,
  keep, length, decimal, Text, units, contains, lookup, insert, Result, ok, err, Action, pure,
  throw, ◌>>=◌,
}
use tech_trends.Common.Text.{sanitize_and_filter}
use tech_trends.Trends.Data.{
  Article, ArticleDetails, SavedArticleInfo, BatchEvaluationItem, FinalSummaryResult, TrendColumns,
  TechTrend, Vector, new_date,
}
use tech_trends.Trends.World.{World, Failure}
use tech_trends.Trends.Repository.{save_trend}

-- The settings that the constructor reads.
pub record Config : Type 0 where
  pub target_save_count : ℕ
  pub batch_size : ℕ
  pub ai_delay_seconds : ℕ
  pub text_snippet_length : ℕ
  pub text_content_length : ℕ

pub record SummarizedArticle : Type 0 where
  pub article : Article
  pub article_details : ArticleDetails
  pub summary : FinalSummaryResult

pub record EmbeddedArticle : Type 0 where
  pub summarized : SummarizedArticle
  pub open summarized use *
  pub embedding_vector : Vector

pub record BatchResult : Type 0 where
  pub saved_count : ℕ
  pub saved_articles : List SavedArticleInfo

abbrev pub nothing : BatchResult
nothing = record { saved_count = 0; saved_articles = [] }

abbrev pub DetailsMap : Type 0
DetailsMap = List (Text × ArticleDetails)

-- `if (details?.content) articleDetailsMap.set(id, details)`, and a rejection is only logged.
abbrev pub store_details : Text → Result Failure (Option ArticleDetails) → DetailsMap → DetailsMap
store_details id (err e) m = m
store_details id (ok none) m = m
store_details id (ok (some d)) m = elim d.content [ [] ↦ m | _ ∷ _ ↦ insert id d m ]

abbrev pub has_details : DetailsMap → Article → Bool
has_details m a = is_some (lookup a.id m)

-- `articleDetailsMap.get(id)?.content ?? ''`
abbrev pub content_of : Option ArticleDetails → Text
content_of none = []
content_of (some d) = d.content

-- `values.join(separator)`
abbrev pub join : Text → List Text → Text
join separator [] = []
join separator (x ∷ []) = x
join separator (x ∷ y ∷ ys) = x ++ (separator ++ join separator (y ∷ ys))

abbrev pub or_empty : Option Text → Text
or_empty none = []
or_empty (some t) = t

-- `buildEmbeddingText`; the tags are a text or `null`, the short summary an array.
unfoldable pub build_embedding_text : FinalSummaryResult → Text
build_embedding_text summary = join (units "\n") (
    (units "[제목]: " ++ summary.title)
    ∷ (units "[태그]: " ++ or_empty summary.tags)
    ∷ (units "[요약]: " ++ join (units " ") summary.short_summary)
    ∷ (units "[상세]: " ++ summary.long_summary)
    ∷ [])

-- The argument of `saveTrend`.
unfoldable pub to_columns : EmbeddedArticle → TrendColumns
to_columns item = record {
  source = item.article.source;
  source_id = item.article.id;
  title = item.summary.title;
  short_summary = item.summary.short_summary;
  long_summary = some item.summary.long_summary;
  link_url = item.article.url;
  technical_tags = item.summary.tags;
  view_count = item.article_details.view_count;
  like_count = item.article_details.like_count;
  comment_count = item.article_details.comment_count;
  embedding = some item.embedding_vector;
  created_at = new_date item.article.created_at;
}

-- What is reported of a saved row.
unfoldable pub to_info : TechTrend → SavedArticleInfo
to_info row = record {
  id = row.id;
  source_id = row.source_id;
  title = row.title;
  url = row.link_url;
}

-- Article and vector at the same index.
abbrev pub with_vectors : List SummarizedArticle → List Vector → List EmbeddedArticle
with_vectors [] vs = []
with_vectors (a ∷ rest) [] = []
with_vectors (a ∷ rest) (v ∷ vs) =
    record { summarized = a; embedding_vector = v } ∷ with_vectors rest vs

module _ (w : World) (config : Config) where
  -- The loop of `fetchBatchDetailsMap`.
  unfoldable pub fetch_from : List Text → DetailsMap → w.State → DetailsMap × w.State
  fetch_from [] m s = (m, s)
  fetch_from (id ∷ ids) m s =
      let (details, t) = w.get_article_details id s in fetch_from ids (store_details id details m) t

  unfoldable pub fetch_batch_details_map : List Text → w.State → DetailsMap × w.State
  unfolding fetch_from
  fetch_batch_details_map ids s = fetch_from ids [] s

  unfoldable pub to_item : DetailsMap → Article → BatchEvaluationItem
  to_item m a = record {
    id = a.id;
    title = a.title;
    snippet = sanitize_and_filter (content_of (lookup a.id m)) config.text_snippet_length;
  }

  unfoldable pub select_valuable_articles :
      List Article → DetailsMap → Action w.State Failure (List Article)
  unfolding to_item
  select_valuable_articles articles m = do
    valuable_ids ← w.filter_batch_with_ai (map (to_item m) articles)
    pure (keep (λ a. contains a.id valuable_ids) articles)

  -- What one round adds to the list; the pause follows a summary only.
  unfoldable pub after_summary :
      Article
      → ArticleDetails
      → List SummarizedArticle
      → Result Failure (Option FinalSummaryResult) × w.State
      → List SummarizedArticle × w.State
  after_summary a d done (err e, s) = (done, s)
  after_summary a d done (ok none, s) = (done, s)
  after_summary a d done (ok (some summary), s) = (
    done ++ record { article = a; article_details = d; summary = summary } ∷ [],
    w.delay_seconds config.ai_delay_seconds s,
  )

  -- `if (!details?.content) continue`
  unfoldable pub summarize_content :
      Article
      → ArticleDetails
      → Text
      → List SummarizedArticle
      → w.State
      → List SummarizedArticle × w.State
  unfolding after_summary
  summarize_content a d [] done s = (done, s)
  summarize_content a d (c ∷ cs) done s = after_summary a d done (
      w.summarize_content_with_ai a.title (sanitize_and_filter (c ∷ cs) config.text_content_length)
        s)

  -- The body of the loop of `summarizeArticles`, behind its check of the limit.
  unfoldable pub summarize_one :
      DetailsMap → Article → List SummarizedArticle → w.State → List SummarizedArticle × w.State
  unfolding summarize_content
  summarize_one m a done s = elim (lookup a.id m) [
    | none ↦ (done, s)
    | some d ↦ summarize_content a d d.content done s
  ]

  unfoldable pub summarize_from :
      DetailsMap
      → ℕ
      → List Article
      → List SummarizedArticle
      → w.State
      → List SummarizedArticle × w.State
  unfolding summarize_one
  summarize_from m limit [] done s = (done, s)
  summarize_from m limit (a ∷ more) done s =
      let next = summarize_one m a done s in
      let rest = summarize_from m limit more next.0 next.1 in
      if leb limit (length done) then (done, s) else rest

  unfoldable pub summarize_articles :
      List Article → DetailsMap → ℕ → w.State → List SummarizedArticle × w.State
  unfolding summarize_from
  summarize_articles articles m limit s = summarize_from m limit articles [] s

  -- As many vectors as articles, or the batch is rejected.
  unfoldable pub matched :
      List SummarizedArticle → List Vector → Action w.State Failure (List EmbeddedArticle)
  matched articles vectors =
      if length articles == length vectors
      then pure (with_vectors articles vectors)
      else throw (
          units "[Pipeline] 임베딩 개수 불일치! (요청: "
          ++ decimal (length articles)
          ++ units "개, 응답: "
          ++ decimal (length vectors)
          ++ units "개)")

  unfoldable pub generate_embeddings_for_articles :
      List SummarizedArticle → Action w.State Failure (List EmbeddedArticle)
  unfolding matched
  generate_embeddings_for_articles [] = pure []
  generate_embeddings_for_articles (a ∷ rest) = do
    vectors ← w.vector_embedding_with_ai (map (λ x. build_embedding_text x.summary) (a ∷ rest))
    matched (a ∷ rest) vectors

  -- A rejected save is logged and skipped.
  unfoldable pub add_saved : Result Failure TechTrend → BatchResult → BatchResult
  add_saved (err e) b = b
  add_saved (ok row) b = record {
    saved_count = b.saved_count + 1;
    saved_articles = b.saved_articles ++ to_info row ∷ [];
  }

  unfoldable pub save_from : List EmbeddedArticle → BatchResult → w.State → BatchResult × w.State
  unfolding add_saved
  save_from [] b s = (b, s)
  save_from (item ∷ items) b s =
      let (saved, t) = save_trend w (to_columns item) s in save_from items (add_saved saved b) t

  unfoldable pub save_trends : List EmbeddedArticle → w.State → BatchResult × w.State
  unfolding save_from
  save_trends items s = save_from items nothing s
