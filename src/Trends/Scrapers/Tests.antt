-- ===== src/Trends/Scrapers/Tests.antt =====
-- The three scrapers on small answers.
use tech_trends.Base.{
  ◌&&◌, ℕ, ◌≡◌, refl, sort_by, List, [], ◌∷◌, Option, some, map, Text, units, Action, ok, err,
}
use tech_trends.Trends.Data.{Article, ArticleDetails}
use tech_trends.Trends.World.{Failure}
use tech_trends.Trends.Scrapers.DevTo.{DevToItem, DevToBody}
use tech_trends.Trends.Scrapers.DevTo
use tech_trends.Trends.Scrapers.GeekNews.{extract_topic_id, extract_points, extract_comment_count}
use tech_trends.Trends.Scrapers.StackOverflow.{strip_html}
use tech_trends.Trends.Scrapers.Site.{dev_to, get_article_details}
use tech_trends.Trends.Scrapers.Details.{HasContent, get_article_details-HasContent}
use tech_trends.Trends.Scrapers.Listing.{IsMostFirst, counted, has_at_least, dev_to_articles}

topic_of_link : extract_topic_id (units "https://news.hada.io/topic?id=123&x=id=4") ≡ units "123"
unfolding extract_topic_id
topic_of_link = refl

topic_of_text : extract_topic_id (units "topic?id=x") ≡ units "topic?id=x"
unfolding extract_topic_id
topic_of_text = refl

points : extract_points (units "a 7 b 12P by gn+ 3 P by GN") ≡ 12
unfolding extract_points
points = refl

comments : extract_comment_count (units "1개 댓글 34 개") ≡ 34
unfolding extract_comment_count
comments = refl

stripped :
    strip_html (units "<p>a &lt; b</p> <CODE class=\"x\">f&amp;g</code> &#39;")
    ≡ units "a < b `f&g` '"
unfolding strip_html
stripped = refl

abbrev item : ℕ → ℕ → ℕ → DevToItem
item id likes comments = record {
  id = id;
  title = units "t";
  url = units "u";
  published_at = some (units "2026-01-02T03:04:05Z");
  positive_reactions_count = some likes;
  comments_count = some comments;
}

abbrev list_items : Action Unit Failure (Option (List DevToItem))
list_items s = (ok (some (item 1 20 1 ∷ item 2 30 0 ∷ item 3 40 2 ∷ [])), s)

abbrev no_body : Text → Action Unit Failure (Option DevToBody)
no_body id s = (err (units "timeout"), s)

abbrev two_articles : List Article
two_articles = DevTo.to_article (item 3 40 2) ∷ DevTo.to_article (item 1 20 1) ∷ []

items_listed : (DevTo.get_articles list_items no_body tt).0 ≡ ok two_articles
unfolding DevTo.get_articles sort_by
items_listed = refl

dev_to_articles_example :
    (chosen : List DevToItem) × IsMostFirst
      (λ item. counted item.positive_reactions_count)
      (λ item. has_at_least 10 item.positive_reactions_count && has_at_least 1 item.comments_count)
      (item 1 20 1 ∷ item 2 30 0 ∷ item 3 40 2 ∷ [])
      chosen
    × (two_articles ≡ map DevTo.to_article chosen)
dev_to_articles_example =
    dev_to_articles list_items no_body (item 1 20 1 ∷ item 2 30 0 ∷ item 3 40 2 ∷ []) tt
      two_articles refl items_listed

get_article_details-HasContent_example :
    (details : Option ArticleDetails) × ((get_article_details
        (dev_to list_items no_body)
        (units "3")
        tt).0
      ≡ ok details)
    × HasContent details
get_article_details-HasContent_example =
    get_article_details-HasContent (dev_to list_items no_body) (units "3") tt
