-- ===== src/Trends/Scrapers/GeekNews.antt =====
-- geek-news.scraper.ts
use tech_trends.Base.{
  ℕ, ◌+◌, ◌-◌, ◌==◌, Bool, leb, ◌&&◌, ◌||◌, if◌then◌else◌, List, [], ◌∷◌, Option, none, some, Text,
  units, length, starts_with, drop, value_from, Result, ok, err, Action, pure, ◌>>=◌,
}
use tech_trends.Common.Text.{replace_all}
use tech_trends.Common.Text.Matchers.{Matcher, is_space, drop_spaces, trim}
use tech_trends.Trends.Data.{Article, ArticleDetails}
use tech_trends.Trends.World.{Failure}
use tech_trends.Trends.Scrapers.{
  or_zero, or_blank, or_text, before_t, never_rejects, from_result, map_results,
}

-- An item of the feed, as the parser gives it.
pub record FeedItem : Type 0 where
  pub title : Option Text
  pub link : Option Text
  pub id : Option Text
  pub pub_date : Option Text
  pub iso_date : Option Text

abbrev pub source_name : Text
source_name = units "geeknews"

abbrev pub is_digit : ℕ → Bool
is_digit c = leb b'0' c && leb c b'9'

-- The digits at the head of a text, and what follows them.
abbrev pub span_digits : Text → Text × Text
span_digits [] = ([], [])
span_digits (c ∷ s) =
    let (digits, rest) = span_digits s in if is_digit c then (c ∷ digits, rest) else ([], c ∷ s)

-- `\d+` there: the digits where there are some.
abbrev pub some_digits : Text × Text → Option (Text × Text)
some_digits ([], rest) = none
some_digits (c ∷ digits, rest) = some (c ∷ digits, rest)

abbrev pub digits_at : Text → Option (Text × Text)
digits_at s = some_digits (span_digits s)

-- /id=(\d+)/ at the head, and its group at the first place where it matches.
abbrev pub id_at : Text → Option Text
id_at s =
    if starts_with (units "id=") s
    then elim (digits_at (drop 3 s)) [ none ↦ none | some (digits, rest) ↦ some digits ]
    else none

abbrev pub first_match : {A : Type 0} → (Text → Option A) → Text → Option A
first_match at [] = at []
first_match at (c ∷ s) = elim (at (c ∷ s)) [ none ↦ first_match at s | some a ↦ some a ]

unfoldable pub extract_topic_id : Text → Text
extract_topic_id url_or_id = elim (first_match id_at url_or_id) [ none ↦ url_or_id | some id ↦ id ]

-- A letter of the pattern, in either case.
abbrev pub either_case : ℕ → ℕ → Bool
either_case upper c = c == upper || c == upper + 32

abbrev pub word_at : Text → Text → Option Text
word_at [] s = some s
word_at (u ∷ word) [] = none
word_at (u ∷ word) (c ∷ s) = if either_case u c then word_at word s else none

-- `\s+`
abbrev pub spaces_at : Text → Option Text
spaces_at [] = none
spaces_at (c ∷ s) = if is_space c then some (drop_spaces s) else none

abbrev pub and_then : {A B : Type 0} → Option A → (A → Option B) → Option B
and_then none f = none
and_then (some a) f = f a

-- /(\d+)\s*P\s+by\s+GN\+?/i at the head: the number of its group.
abbrev pub points_at : Text → Option ℕ
points_at s = and_then (digits_at s) λ (digits, rest).
    and_then (word_at (units "P") (drop_spaces rest)) λ after_p. and_then (spaces_at after_p) λ by.
      and_then (word_at (units "BY") by) λ after_by.
        and_then (spaces_at after_by)
          λ gn. and_then (word_at (units "GN") gn) λ after_gn. some (value_from 0 digits)

abbrev pub literal_at : Text → Text → Option Text
literal_at part s = if starts_with part s then some (drop (length part) s) else none

-- /댓글\s*(\d+)\s*개/ at the head.
abbrev pub comments_at : Text → Option ℕ
comments_at s = and_then (literal_at (units "댓글") s) λ after_word.
    and_then (digits_at (drop_spaces after_word)) λ (digits, rest).
      and_then (literal_at (units "개") (drop_spaces rest)) λ end. some (value_from 0 digits)

unfoldable pub extract_points : Text → ℕ
unfolding drop_spaces is_space
extract_points page_text = or_zero (first_match points_at page_text)

unfoldable pub extract_comment_count : Text → ℕ
unfolding drop_spaces is_space
extract_comment_count page_text = or_zero (first_match comments_at page_text)

-- /\s+/, replaced by one space.
abbrev pub match_spaces : Matcher
match_spaces prev c s =
    if is_space c then some (32 ∷ [], length s - length (drop_spaces s)) else none

unfoldable pub page_text_of : Text → Text
unfolding replace_all trim is_space drop_spaces
page_text_of body_text = trim (replace_all match_spaces body_text)

-- `a || b || ''`.
abbrev pub first_text : Option Text → Option Text → Text
first_text a b = or_text (or_blank b) (or_blank a)

abbrev pub titled : Option Text → Text
titled title = or_text (units "제목 없음") (trim (or_blank title))

module _ (to_iso_string : Text → Result Failure Text) where
  -- `new Date(pubDate).toISOString()` throws where the text is no date.
  abbrev pub created_at_of : Text → Result Failure Text
  created_at_of [] = ok []
  created_at_of (c ∷ s) = elim (to_iso_string (c ∷ s)) [
    | ok iso ↦ ok (before_t iso)
    | err e ↦ err e
  ]

  abbrev pub dated : FeedItem → Result Failure Text → Result Failure Article
  dated item (err e) = err e
  dated item (ok created_at) =
      let raw_link = first_text item.link item.id in
      ok (record {
        id = extract_topic_id raw_link;
        title = titled item.title;
        url = raw_link;
        created_at = created_at;
        source = source_name;
      })

  abbrev pub to_article : FeedItem → Result Failure Article
  to_article item = dated item (created_at_of (first_text item.pub_date item.iso_date))

module _ (topic_text body_text : Text → Text) where
  -- The page, where there is one, with the texts that its selectors find.
  abbrev pub details_with : Text → Text → Option ArticleDetails
  details_with page [] = none
  details_with page (c ∷ s) =
      let page_text = page_text_of (body_text page) in
      some (record {
        content = c ∷ s;
        view_count = none;
        like_count = some (extract_points page_text);
        comment_count = some (extract_comment_count page_text);
      })

  abbrev pub details_of : Text → Option ArticleDetails
  details_of [] = none
  details_of (c ∷ s) = details_with (c ∷ s) (trim (topic_text (c ∷ s)))

module _ {S : Type 0} (parse_feed : Action S Failure (List FeedItem))
    (to_iso_string : Text → Result Failure Text) (read_topic : Text → Action S Failure Text)
    (topic_text body_text : Text → Text) (random_delay : S → S) where
  unfoldable pub get_articles : Action S Failure (List Article)
  get_articles = do items ← parse_feed; from_result (map_results (to_article to_iso_string) items)

  unfoldable pub get_article_details : Text → Action S Failure (Option ArticleDetails)
  get_article_details article_id s =
      never_rejects (do page ← read_topic article_id; pure (details_of topic_text body_text page))
        (random_delay s)
