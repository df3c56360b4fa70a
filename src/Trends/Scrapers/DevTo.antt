-- ===== src/Trends/Scrapers/DevTo.antt =====
-- devto.scraper.ts
use tech_trends.Base.{
  ℕ, Bool, leb, ◌&&◌, List, [], ◌∷◌, Option, none, some, map, Text, units, decimal, Action, pure,
  ◌>>=◌,
}
use tech_trends.Common.Text.Matchers.{trim}
use tech_trends.Trends.Data.{Article, ArticleDetails}
use tech_trends.Trends.World.{Failure}
use tech_trends.Trends.Scrapers.{or_zero, or_blank, before_t, most_first, never_rejects}

-- An element of the list that the site answers with, and the answer for one article.
pub record DevToItem : Type 0 where
  pub id : ℕ
  pub title : Text
  pub url : Text
  pub published_at : Option Text
  pub positive_reactions_count : Option ℕ
  pub comments_count : Option ℕ

pub record DevToBody : Type 0 where
  pub body_markdown : Option Text
  pub positive_reactions_count : Option ℕ
  pub comments_count : Option ℕ

abbrev pub source_name : Text
source_name = units "dev.to"

abbrev pub min_reactions : ℕ
min_reactions = 10

abbrev pub min_comments : ℕ
min_comments = 1

abbrev pub reactions : DevToItem → ℕ
reactions item = or_zero item.positive_reactions_count

abbrev pub is_popular : DevToItem → Bool
is_popular item =
    leb min_reactions (reactions item) && leb min_comments (or_zero item.comments_count)

abbrev pub to_article : DevToItem → Article
to_article item = record {
  id = decimal item.id;
  title = item.title;
  url = item.url;
  created_at = before_t (or_blank item.published_at);
  source = source_name;
}

-- A body that is no array is none.
unfoldable pub articles_of : Option (List DevToItem) → List Article
unfolding most_first
articles_of none = []
articles_of (some items) = map to_article (most_first reactions is_popular items)

abbrev pub details_with : DevToBody → Text → Option ArticleDetails
details_with body [] = none
details_with body (c ∷ s) = some (record {
  content = c ∷ s;
  view_count = none;
  like_count = body.positive_reactions_count;
  comment_count = body.comments_count;
})

abbrev pub details_of : Option DevToBody → Option ArticleDetails
details_of none = none
details_of (some body) = details_with body (trim (or_blank body.body_markdown))

module _ {S : Type 0} (list_articles : Action S Failure (Option (List DevToItem)))
    (read_article : Text → Action S Failure (Option DevToBody)) where
  unfoldable pub get_articles : Action S Failure (List Article)
  unfolding articles_of
  get_articles = do body ← list_articles; pure (articles_of body)

  unfoldable pub get_article_details : Text → Action S Failure (Option ArticleDetails)
  get_article_details article_id =
      never_rejects (do body ← read_article article_id; pure (details_of body))
