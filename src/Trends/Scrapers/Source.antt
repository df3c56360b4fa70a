-- ===== src/Trends/Scrapers/Source.antt =====
-- Which source the articles of a scraper name.
use tech_trends.Base.{
  ℕ, ◌≡◌, refl, sym, ap, subst, List, [], ◌∷◌, Option, none, some, All, All-of_map, All-of_Mem,
  Text, Result, ok, err, >>=-pure-eq-ok, >>=-eq-ok, ok_injective,
}
use tech_trends.Trends.Data.{Article}
use tech_trends.Trends.World.{Failure}
use tech_trends.Trends.Scrapers.{or_zero, most_first, map_results, one_more, from_result}
use tech_trends.Trends.Scrapers.DevTo.{DevToItem, DevToBody}
use tech_trends.Trends.Scrapers.DevTo
use tech_trends.Trends.Scrapers.GeekNews.{FeedItem}
use tech_trends.Trends.Scrapers.GeekNews
use tech_trends.Trends.Scrapers.StackOverflow.{Question, QuestionAnswer}
use tech_trends.Trends.Scrapers.StackOverflow
use tech_trends.Trends.Scrapers.Site.{
  Site, dev_to, geek_news, stack_overflow, source_name, get_articles,
}

module _ {A B : Type 0} (P : B → Type 0) (f : A → Result Failure B)
    (each : (a : A) (b : B) → f a ≡ ok b → P b) where
  map_results-All : (xs : List A) (bs : List B) → map_results f xs ≡ ok bs → All P bs
  map_results-All [] bs h = subst (All P) (ok_injective h) tt
  map_results-All (x ∷ xs) bs h = go (f x) (map_results f xs) (each x) (map_results-All xs) h
    where
      go :
          (r : Result Failure B) (rest : Result Failure (List B))
          → ((b : B) → r ≡ ok b → P b)
          → ((cs : List B) → rest ≡ ok cs → All P cs)
          → one_more r rest ≡ ok bs
          → All P bs
      go (ok b) (ok cs) p q e = subst (All P) (ok_injective e) (p b refl, q cs refl)
      go (ok b) (err x) p q e = absurd (cc)
      go (err x) rest p q e = absurd (cc)

from_feed :
    (to_iso_string : Text → Result Failure Text) (item : FeedItem) (a : Article)
    → GeekNews.to_article to_iso_string item ≡ ok a
    → a.source ≡ GeekNews.source_name
from_feed to_iso_string item a h =
    go (GeekNews.created_at_of to_iso_string (GeekNews.first_text item.pub_date item.iso_date)) h
  where
    go :
        (r : Result Failure Text)
        → GeekNews.dated to_iso_string item r ≡ ok a
        → a.source ≡ GeekNews.source_name
    go (ok d) e = ap (λ b. b.source) (sym (ok_injective e))
    go (err x) e = absurd (cc)

from_question :
    (to_iso_string : ℕ → Result Failure Text) (question : Question) (a : Article)
    → StackOverflow.to_article to_iso_string question ≡ ok a
    → a.source ≡ StackOverflow.source_name
from_question to_iso_string question a h =
    go (StackOverflow.created_at_of to_iso_string (or_zero question.creation_date)) h
  where
    go :
        (r : Result Failure Text)
        → StackOverflow.dated to_iso_string question r ≡ ok a
        → a.source ≡ StackOverflow.source_name
    go (ok d) e = ap (λ b. b.source) (sym (ok_injective e))
    go (err x) e = absurd (cc)

dev_to-source :
    (body : Option (List DevToItem))
    → All (λ a. a.source ≡ DevTo.source_name) (DevTo.articles_of body)
unfolding DevTo.articles_of
dev_to-source none = tt
dev_to-source (some items) = All-of_map _ DevTo.to_article _ (All-of_Mem _ (λ x m. refl))

stack_overflow-source :
    (to_iso_string : ℕ → Result Failure Text) (body : Option (List Question))
    (articles : List Article)
    → StackOverflow.articles_of to_iso_string body ≡ ok articles
    → All (λ a. a.source ≡ StackOverflow.source_name) articles
unfolding StackOverflow.articles_of
stack_overflow-source iso none articles h = subst (All _) (ok_injective h) tt
stack_overflow-source iso (some questions) articles h =
    map_results-All _ (StackOverflow.to_article iso) (from_question iso)
      (most_first StackOverflow.score_of StackOverflow.is_scored questions) articles h

module _ {S : Type 0} where
  -- Whatever a site answers, every article of a list that arrives names the source of the scraper that
  -- fetched it.
  pub get_articles-source_name :
      (site : Site S) (s : S) (articles : List Article)
      → (get_articles site s).0 ≡ ok articles
      → All (λ a. a.source ≡ source_name site) articles
  unfolding DevTo.get_articles GeekNews.get_articles StackOverflow.get_articles
  get_articles-source_name (dev_to list read) s articles h =
      let (body, e, same, _) = >>=-pure-eq-ok list DevTo.articles_of s articles h in
      subst (All (λ a. a.source ≡ DevTo.source_name)) (sym same) (dev_to-source body)
  get_articles-source_name (geek_news parse iso read topic body delay) s articles h =
      let (items, e, mapped) =
        >>=-eq-ok parse (λ items. from_result (map_results (GeekNews.to_article iso) items)) s
          articles h in
      map_results-All _ (GeekNews.to_article iso) (from_feed iso) items articles mapped
  get_articles-source_name (stack_overflow list iso read answers) s articles h =
      let (body, e, mapped) =
        >>=-eq-ok list (λ body. from_result (StackOverflow.articles_of iso body)) s articles h in
      stack_overflow-source iso body articles mapped
