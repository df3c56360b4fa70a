-- ===== src/Trends/Scrapers/Listing.antt =====
-- Which articles a list has, and in which order.
use mathlib.Core.List.{Perm}
use tech_trends.Base.{
  ℕ, ◌&&◌, none, refl, fun_ext, ◌≡◌, sym, ap, ◌∙◌, subst, Bool, leb, List, Option, some, map, keep,
  arith, Text, Result, ok, Action, IsOrder, IsSorted, IsStable, IsSorted-sort_by, sort_by-IsStable,
  sort_by-perm, >>=-pure-eq-ok, >>=-eq-ok, ok_injective,
}
use tech_trends.Trends.Data.{Article}
use tech_trends.Trends.World.{Failure}
use tech_trends.Trends.Scrapers.{or_zero, most_first, map_results, from_result}
use tech_trends.Trends.Scrapers.DevTo.{DevToItem, DevToBody}
use tech_trends.Trends.Scrapers.DevTo
use tech_trends.Trends.Scrapers.StackOverflow.{Question, QuestionAnswer}
use tech_trends.Trends.Scrapers.StackOverflow

-- `chosen` is what a list of items comes to: those that pass, the largest counts first, and where
-- counts tie in the site's order.
pub record IsMostFirst {A : Type 0} (count : A → ℕ) (p : A → Bool) (items chosen : List A)
    : Type 0 where
  pub same_items : Perm chosen (keep p items)
  pub sorted : IsSorted (λ a b. leb (count b) (count a)) chosen
  pub stable : IsStable (λ a b. leb (count b) (count a)) (keep p items) chosen

module _ {A : Type 0} (count : A → ℕ) where
  count-IsOrder : IsOrder {A = A} (λ a b. leb (count b) (count a))
  count-IsOrder = record { total = λ a b h. ground arith; trans = λ a b c h k. ground arith }

  most_first-IsMostFirst :
      (p : A → Bool) (items : List A) → IsMostFirst count p items (most_first count p items)
  unfolding most_first
  most_first-IsMostFirst p items = record {
    same_items = sort_by-perm (λ a b. leb (count b) (count a)) (keep p items);
    sorted = IsSorted-sort_by (λ a b. leb (count b) (count a)) count-IsOrder (keep p items);
    stable = sort_by-IsStable (λ a b. leb (count b) (count a)) count-IsOrder (keep p items);
  }

-- What dev.to counts: an article without the number has none.
abbrev pub counted : Option ℕ → ℕ
counted none = 0
counted (some n) = n

abbrev pub has_at_least : ℕ → Option ℕ → Bool
has_at_least least count = leb least (counted count)

counted-or_zero : (count : Option ℕ) → counted count ≡ or_zero count
counted-or_zero none = refl
counted-or_zero (some n) = refl

counted-reactions : (λ (item : DevToItem). counted item.positive_reactions_count) ≡ DevTo.reactions
counted-reactions = fun_ext (λ item. counted-or_zero item.positive_reactions_count)

has_at_least-is_popular :
    (λ (item : DevToItem).
      has_at_least 10 item.positive_reactions_count && has_at_least 1 item.comments_count)
    ≡ DevTo.is_popular
has_at_least-is_popular = fun_ext (λ item.
    rw (counted-or_zero item.positive_reactions_count, counted-or_zero item.comments_count) refl)

module _ {S : Type 0} where
  -- The list of dev.to, where its answer is an array: the articles with at least 10 reactions and a
  -- comment, all of them, the most reactions first, and where reactions tie in the order of the answer.
  pub dev_to_articles :
      (list_articles : Action S Failure (Option (List DevToItem)))
      (read_article : Text → Action S Failure (Option DevToBody)) (items : List DevToItem) (s : S)
      (articles : List Article)
      → (list_articles s).0 ≡ ok (some items)
      → (DevTo.get_articles list_articles read_article s).0 ≡ ok articles
      → (chosen : List DevToItem) × IsMostFirst
          (λ item. counted item.positive_reactions_count)
          (λ item.
            has_at_least 10 item.positive_reactions_count && has_at_least 1 item.comments_count)
          items
          chosen
        × (articles ≡ map DevTo.to_article chosen)
  unfolding DevTo.get_articles DevTo.articles_of
  dev_to_articles list_articles read_article items s articles e h =
      let (body, f, same, _) = >>=-pure-eq-ok list_articles DevTo.articles_of s articles h in
      (
        most_first DevTo.reactions DevTo.is_popular items,
        rw (counted-reactions, has_at_least-is_popular)
            (most_first-IsMostFirst DevTo.reactions DevTo.is_popular items),
        same ∙ ap DevTo.articles_of (ok_injective (sym f ∙ e)),
      )

  -- The list of Stack Overflow, where its answer is an array: the questions with a score of at least 3,
  -- all of them, the highest score first, and where scores tie in the order of the answer.
  pub stack_overflow_articles :
      (list_questions : Action S Failure (Option (List Question)))
      (to_iso_string : ℕ → Result Failure Text)
      (read_question : Text → Action S Failure (Option Question))
      (list_answers : Text → Action S Failure (Option (List QuestionAnswer)))
      (questions : List Question) (s : S) (articles : List Article)
      → (list_questions s).0 ≡ ok (some questions)
      → (StackOverflow.get_articles list_questions to_iso_string read_question list_answers s).0
        ≡ ok articles
      → (chosen : List Question) × IsMostFirst StackOverflow.score_of StackOverflow.is_scored
          questions chosen
        × (map_results (StackOverflow.to_article to_iso_string) chosen ≡ ok articles)
  unfolding StackOverflow.get_articles StackOverflow.articles_of
  stack_overflow_articles list_questions iso read answers questions s articles e h =
      let (body, f, mapped) =
        >>=-eq-ok list_questions (λ body. from_result (StackOverflow.articles_of iso body)) s
          articles h in
      (
        most_first StackOverflow.score_of StackOverflow.is_scored questions,
        most_first-IsMostFirst StackOverflow.score_of StackOverflow.is_scored questions,
        subst (λ b. StackOverflow.articles_of iso b ≡ ok articles) (ok_injective (sym f ∙ e))
            mapped,
      )
