-- ===== src/Trends/Scrapers/Details.antt =====
-- The details of an article, also where a call fails.
use tech_trends.Base.{
  ◌<◌, ◌≡◌, sym, ap, subst, List, [], ◌∷◌, Option, none, some, length, arith, Text, ok, Action,
  >>=-pure-eq-ok, >>=-eq-ok, Result-cases, ok_injective, pure, ◌>>=◌, inl, inr,
}
use tech_trends.Trends.Data.{ArticleDetails}
use tech_trends.Trends.World.{Failure}
use tech_trends.Common.Text.Matchers.{trim}
use tech_trends.Trends.Scrapers.{or_blank, never_rejects, or_no_details}
use tech_trends.Trends.Scrapers.DevTo.{DevToItem, DevToBody}
use tech_trends.Trends.Scrapers.DevTo
use tech_trends.Trends.Scrapers.GeekNews.{FeedItem}
use tech_trends.Trends.Scrapers.GeekNews
use tech_trends.Trends.Scrapers.StackOverflow.{Question, QuestionAnswer}
use tech_trends.Trends.Scrapers.StackOverflow
use tech_trends.Trends.Scrapers.Site.{Site, dev_to, geek_news, stack_overflow, get_article_details}

-- Details that are there have a text.
abbrev pub HasContent : Option ArticleDetails → Type 0
HasContent none = Unit
HasContent (some details) = 0 < length details.content

module _ {S : Type 0} (act : Action S Failure (Option ArticleDetails)) (s : S) where
  never_rejects-HasContent :
      ((details : Option ArticleDetails) → (act s).0 ≡ ok details → HasContent details)
      → (details : Option ArticleDetails) × ((never_rejects act s).0 ≡ ok details)
        × HasContent details
  never_rejects-HasContent h = elim (Result-cases (act s).0) [
    | inl (details, e) ↦ (details, ap (λ r. ok (or_no_details r)) e, h details e)
    | inr (x, e) ↦ (none, ap (λ r. ok (or_no_details r)) e, tt)
  ]

dev_to-HasContent : (body : Option DevToBody) → HasContent (DevTo.details_of body)
dev_to-HasContent none = tt
dev_to-HasContent (some body) = go (trim (or_blank body.body_markdown))
  where
    go : (t : Text) → HasContent (DevTo.details_with body t)
    go [] = tt
    go (c ∷ t) = omega arith

geek_news-HasContent :
    (topic_text body_text : Text → Text) (page : Text)
    → HasContent (GeekNews.details_of topic_text body_text page)
geek_news-HasContent topic_text body_text [] = tt
geek_news-HasContent topic_text body_text (c ∷ page) = go (trim (topic_text (c ∷ page)))
  where
    go : (t : Text) → HasContent (GeekNews.details_with topic_text body_text (c ∷ page) t)
    go [] = tt
    go (d ∷ t) = omega arith

length-format_content :
    (body answer_text : Text) → 0 < length (StackOverflow.format_content body answer_text)
unfolding StackOverflow.format_content
length-format_content body answer_text = omega arith

module _ {S : Type 0} (list_answers : Text → Action S Failure (Option (List QuestionAnswer)))
    (id : Text) where
  stack_overflow-HasContent :
      (body : Option Question) (s : S) (details : Option ArticleDetails)
      → (StackOverflow.details_of list_answers id body s).0 ≡ ok details
      → HasContent details
  stack_overflow-HasContent none s details h = subst HasContent (ok_injective h) tt
  stack_overflow-HasContent (some question) s details h = go (trim (or_blank question.body)) h
    where
      go :
          (t : Text)
          → (StackOverflow.with_answers list_answers id question t s).0 ≡ ok details
          → HasContent details
      go [] e = subst HasContent (ok_injective e) tt
      go (c ∷ t) e = subst HasContent (ok_injective e) (length-format_content _ _)

module _ {S : Type 0} where
  -- However a site and its answer are, the details of an article are asked for without a rejection, and
  -- where there are some they have a text that is not empty.
  pub get_article_details-HasContent :
      (site : Site S) (id : Text) (s : S)
      → (details : Option ArticleDetails) × ((get_article_details site id s).0 ≡ ok details)
        × HasContent details
  unfolding DevTo.get_article_details GeekNews.get_article_details StackOverflow.get_article_details
  get_article_details-HasContent (dev_to list read) id s =
      never_rejects-HasContent (read id >>= λ body. pure (DevTo.details_of body)) s (λ details e.
        let (body, f, same, _) = >>=-pure-eq-ok (read id) DevTo.details_of s details e in
        subst HasContent (sym same) (dev_to-HasContent body))
  get_article_details-HasContent (geek_news parse iso read topic body delay) id s =
      never_rejects-HasContent (read id >>= λ page. pure (GeekNews.details_of topic body page))
        (delay s)
        (λ details e.
          let (page, f, same, _) =
            >>=-pure-eq-ok (read id) (GeekNews.details_of topic body) (delay s) details e in
          subst HasContent (sym same) (geek_news-HasContent topic body page))
  get_article_details-HasContent (stack_overflow list iso read answers) id s =
      never_rejects-HasContent
        (read id >>= λ question. StackOverflow.details_of answers id question) s
        (λ details e.
          let (question, f, g) =
            >>=-eq-ok (read id) (λ question. StackOverflow.details_of answers id question) s details
              e in
          stack_overflow-HasContent answers id question (read id s).1 details g)
