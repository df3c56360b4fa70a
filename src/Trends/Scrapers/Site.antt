-- ===== src/Trends/Scrapers/Site.antt =====
-- scraper.interface.ts: the three scrapers behind `IArticleScraper`.
use tech_trends.Base.{ℕ, List, Option, Text, Result, Action}
use tech_trends.Trends.Data.{Article, ArticleDetails}
use tech_trends.Trends.World.{Failure}
use tech_trends.Trends.Scrapers.DevTo.{DevToItem, DevToBody}
use tech_trends.Trends.Scrapers.DevTo
use tech_trends.Trends.Scrapers.GeekNews.{FeedItem}
use tech_trends.Trends.Scrapers.GeekNews
use tech_trends.Trends.Scrapers.StackOverflow.{Question, QuestionAnswer}
use tech_trends.Trends.Scrapers.StackOverflow

-- `IArticleScraper`: a scraper, with the calls that it makes.
pub data Site (S : Type 0) : Type 0 where
  dev_to :
      Action S Failure (Option (List DevToItem))
      → (Text → Action S Failure (Option DevToBody))
      → Site S
  geek_news :
      Action S Failure (List FeedItem)
      → (Text → Result Failure Text)
      → (Text → Action S Failure Text)
      → (Text → Text)
      → (Text → Text)
      → (S → S)
      → Site S
  stack_overflow :
      Action S Failure (Option (List Question))
      → (ℕ → Result Failure Text)
      → (Text → Action S Failure (Option Question))
      → (Text → Action S Failure (Option (List QuestionAnswer)))
      → Site S

module _ {S : Type 0} where
  abbrev pub source_name : Site S → Text
  source_name (dev_to list read) = DevTo.source_name
  source_name (geek_news parse iso read topic body delay) = GeekNews.source_name
  source_name (stack_overflow list iso read answers) = StackOverflow.source_name

  abbrev pub get_articles : Site S → Action S Failure (List Article)
  get_articles (dev_to list read) = DevTo.get_articles list read
  get_articles (geek_news parse iso read topic body delay) =
      GeekNews.get_articles parse iso read topic body delay
  get_articles (stack_overflow list iso read answers) =
      StackOverflow.get_articles list iso read answers

  abbrev pub get_article_details : Site S → Text → Action S Failure (Option ArticleDetails)
  get_article_details (dev_to list read) = DevTo.get_article_details list read
  get_article_details (geek_news parse iso read topic body delay) =
      GeekNews.get_article_details parse iso read topic body delay
  get_article_details (stack_overflow list iso read answers) =
      StackOverflow.get_article_details list iso read answers
