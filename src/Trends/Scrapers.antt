-- ===== src/Trends/Scrapers.antt =====
-- trends/scrapers: what the three sites' answers become. The sites' numbers are natural numbers: a
-- score below zero is none here.
pub mod DevTo
pub mod GeekNews
pub mod StackOverflow
pub mod Site
pub mod Source
pub mod Details
pub mod Listing
mod Tests
use tech_trends.Base.{
  ℕ, Bool, leb, List, [], ◌∷◌, Option, none, some, ◌==◌, if◌then◌else◌, keep, sort_by, Text, Result,
  ok, err, Action,
}
use tech_trends.Trends.Data.{ArticleDetails}
use tech_trends.Trends.World.{Failure}

-- `count || 0` and `count ?? 0`.
abbrev pub or_zero : Option ℕ → ℕ
or_zero none = 0
or_zero (some n) = n

-- `text || ''`.
abbrev pub or_blank : Option Text → Text
or_blank none = []
or_blank (some s) = s

-- `text || otherwise`: an empty text is none.
abbrev pub or_text : Text → Text → Text
or_text otherwise [] = otherwise
or_text otherwise (c ∷ s) = c ∷ s

-- `text.split('T')[0]`.
abbrev pub before_t : Text → Text
before_t [] = []
before_t (c ∷ s) = if c == b'T' then [] else c ∷ before_t s

-- `filter(passes).sort((a, b) => count(b) - count(a))`.
unfoldable pub most_first : {A : Type 0} → (A → ℕ) → (A → Bool) → List A → List A
most_first count p items = sort_by (λ a b. leb (count b) (count a)) (keep p items)

-- A handler that catches everything: the details are null then.
abbrev pub or_no_details : Result Failure (Option ArticleDetails) → Option ArticleDetails
or_no_details (ok details) = details
or_no_details (err e) = none

abbrev pub never_rejects :
    {S : Type 0}
    → Action S Failure (Option ArticleDetails)
    → Action S Failure (Option ArticleDetails)
never_rejects act s = let (r, t) = act s in (ok (or_no_details r), t)

-- The first element that throws ends `map`.
abbrev pub one_more :
    {B : Type 0} → Result Failure B → Result Failure (List B) → Result Failure (List B)
one_more (ok b) (ok bs) = ok (b ∷ bs)
one_more (ok b) (err e) = err e
one_more (err e) rest = err e

abbrev pub map_results : {A B : Type 0} → (A → Result Failure B) → List A → Result Failure (List B)
map_results f [] = ok []
map_results f (x ∷ xs) = one_more (f x) (map_results f xs)

abbrev pub from_result : {S A : Type 0} → Result Failure A → Action S Failure A
from_result r s = (r, s)
