-- ===== src/Trends/Scrapers/StackOverflow.antt =====
-- stackoverflow.scraper.ts
use tech_trends.Base.{
  ℕ, not, ◌||◌, ◌-◌, ◌*◌, ◌+◌, ◌==◌, Bool, true, false, leb, ◌&&◌, if◌then◌else◌, List, [], ◌∷◌,
  ◌++◌, Option, none, some, Text, units, decimal, length, drop, starts_with, Result, ok, err,
  Action, pure, ◌>>=◌,
}
use tech_trends.Common.Text.{replace_all}
use tech_trends.Common.Text.Matchers.{Matcher, trim}
use tech_trends.Trends.Data.{Article, ArticleDetails}
use tech_trends.Trends.World.{Failure}
use tech_trends.Trends.Scrapers.{
  or_zero, or_blank, or_text, before_t, most_first, never_rejects, from_result, map_results,
}

pub record Question : Type 0 where
  pub question_id : ℕ
  pub title : Option Text
  pub link : Option Text
  pub creation_date : Option ℕ
  pub score : Option ℕ
  pub view_count : Option ℕ
  pub answer_count : Option ℕ
  pub body : Option Text

pub record QuestionAnswer : Type 0 where
  pub is_accepted : Bool
  pub body : Option Text

abbrev pub source_name : Text
source_name = units "stackoverflow"

abbrev pub min_score : ℕ
min_score = 3

abbrev pub score_of : Question → ℕ
score_of question = or_zero question.score

abbrev pub is_scored : Question → Bool
is_scored question = leb min_score (score_of question)

module _ (to_iso_string : ℕ → Result Failure Text) where
  -- `new Date(seconds * 1000).toISOString()`, where there is a date that is not 0.
  abbrev pub created_at_of : ℕ → Result Failure Text
  created_at_of seconds =
      if seconds == 0
      then ok []
      else elim (to_iso_string (seconds * 1000)) [ ok iso ↦ ok (before_t iso) | err e ↦ err e ]

  abbrev pub dated : Question → Result Failure Text → Result Failure Article
  dated question (err e) = err e
  dated question (ok created_at) = ok (record {
    id = decimal question.question_id;
    title = or_text (units "제목 없음") (trim (or_blank question.title));
    url = or_blank question.link;
    created_at = created_at;
    source = source_name;
  })

  abbrev pub to_article : Question → Result Failure Article
  to_article question = dated question (created_at_of (or_zero question.creation_date))

  unfoldable pub articles_of : Option (List Question) → Result Failure (List Article)
  unfolding most_first
  articles_of none = ok []
  articles_of (some questions) = map_results to_article (most_first score_of is_scored questions)

-- A letter of the pattern, which is in lower case, in either case.
abbrev pub same_letter : ℕ → ℕ → Bool
same_letter l c = c == l || (leb b'a' l && leb l b'z' && c + 32 == l)

abbrev pub starts_with_letters : Text → Text → Bool
starts_with_letters [] s = true
starts_with_letters (l ∷ word) [] = false
starts_with_letters (l ∷ word) (c ∷ s) = same_letter l c && starts_with_letters word s

-- What follows the first `>`.
abbrev pub after_tag : Text → Option Text
after_tag [] = none
after_tag (c ∷ s) = if c == b'>' then some s else after_tag s

abbrev pub with_unit : ℕ → Option (Text × Text) → Option (Text × Text)
with_unit c none = none
with_unit c (some (inner, rest)) = some (c ∷ inner, rest)

-- The text before the first end of the element, and what follows that.
abbrev pub until_end : Text → Text → Option (Text × Text)
until_end close [] = none
until_end close (c ∷ s) =
    let later = with_unit c (until_end close s) in
    if starts_with_letters close (c ∷ s) then some ([], drop (length close) (c ∷ s)) else later

abbrev pub element_inner : Text → Option Text → Option (Text × Text)
element_inner close none = none
element_inner close (some body) = until_end close body

abbrev pub replaced_element : Text → Text → Text → Option (Text × Text) → Option (Text × ℕ)
replaced_element s before_it after_it none = none
replaced_element s before_it after_it (some (inner, rest)) =
    some (before_it ++ (inner ++ after_it), length s - length rest)

-- An element from `open_tag`, with anything up to `>`, to the first `close`: what is inside stands
-- between two new texts.
abbrev pub match_element : Text → Text → Text → Text → Matcher
match_element open_tag close before_it after_it prev c s =
    if starts_with_letters open_tag (c ∷ s)
    then replaced_element s before_it after_it
        (element_inner close (after_tag (drop (length open_tag) (c ∷ s))))
    else none

abbrev pub fence : Text
fence = 10 ∷ (units "```" ++ 10 ∷ [])

-- /<pre><code[^>]*>([\s\S]*?)<\/code><\/pre>/i and /<code[^>]*>([\s\S]*?)<\/code>/i
abbrev pub match_code_block : Matcher
match_code_block = match_element (units "<pre><code") (units "</code></pre>") fence fence

abbrev pub match_code : Matcher
match_code = match_element (units "<code") (units "</code>") (units "`") (units "`")

-- /<[^>]+>/
abbrev pub skip_to : Text → Option Text → Option (Text × ℕ)
skip_to s none = none
skip_to s (some rest) = some ([], length s - length rest)

abbrev pub match_whole_tag : Matcher
match_whole_tag prev c [] = none
match_whole_tag prev c (d ∷ s) =
    if c == b'<' && not (d == b'>') then skip_to (d ∷ s) (after_tag s) else none

-- A fixed text, and what stands for it.
abbrev pub match_literal : Text → Text → Matcher
match_literal part out prev c s =
    if starts_with part (c ∷ s) then some (out, length part - 1) else none

unfoldable pub strip_html : Text → Text
unfolding replace_all trim
strip_html html =
    let tagless =
      replace_all match_whole_tag (replace_all match_code (replace_all match_code_block html)) in
    let angles =
      replace_all (match_literal (units "&gt;") (units ">"))
        (replace_all (match_literal (units "&lt;") (units "<")) tagless) in
    let quotes =
      replace_all (match_literal (units "&quot;") (b'"' ∷ []))
        (replace_all (match_literal (units "&amp;") (units "&")) angles) in
    trim (replace_all (match_literal (units "&#39;") (b'\'' ∷ [])) quotes)

unfoldable pub format_content : Text → Text → Text
format_content question_body answer_text =
    units "[질문 또는 본문(Problem)]"
    ++ (10 ∷ question_body)
    ++ (10 ∷ 10 ∷ units "[해결 답변 (Solution)]")
    ++ (10 ∷ answer_text)

abbrev pub accepted_or : QuestionAnswer → List QuestionAnswer → QuestionAnswer
accepted_or first [] = first
accepted_or first (a ∷ answers) = if a.is_accepted then a else accepted_or first answers

abbrev pub no_answer : Text
no_answer = units "등록된 답변이 없거나 유효한 답변이 없습니다."

abbrev pub answer_text_of : Text → Text
answer_text_of [] = no_answer
answer_text_of (c ∷ s) = strip_html (c ∷ s)

-- The accepted answer, or else the first; a call that fails, and one without answers, leave a notice.
unfoldable pub best_answer_text : Result Failure (Option (List QuestionAnswer)) → Text
unfolding strip_html
best_answer_text (err e) = no_answer
best_answer_text (ok none) = no_answer
best_answer_text (ok (some [])) = no_answer
best_answer_text (ok (some (a ∷ answers))) =
    answer_text_of (or_blank (accepted_or a (a ∷ answers)).body)

abbrev pub details_with : Question → Text → Text → Option ArticleDetails
details_with question body answer_text = some (record {
  content = format_content (strip_html body) answer_text;
  view_count = question.view_count;
  like_count = question.score;
  comment_count = question.answer_count;
})

module _ {S : Type 0} (list_answers : Text → Action S Failure (Option (List QuestionAnswer))) where
  -- Where the question has a text, its answers are asked for.
  abbrev pub with_answers : Text → Question → Text → Action S Failure (Option ArticleDetails)
  with_answers article_id question [] s = (ok none, s)
  with_answers article_id question (c ∷ body) s =
      let (r, t) = list_answers article_id s in
      (ok (details_with question (c ∷ body) (best_answer_text r)), t)

  abbrev pub details_of : Text → Option Question → Action S Failure (Option ArticleDetails)
  details_of article_id none = pure none
  details_of article_id (some question) =
      with_answers article_id question (trim (or_blank question.body))

module _ {S : Type 0} (list_questions : Action S Failure (Option (List Question)))
    (to_iso_string : ℕ → Result Failure Text)
    (read_question : Text → Action S Failure (Option Question))
    (list_answers : Text → Action S Failure (Option (List QuestionAnswer))) where
  unfoldable pub get_articles : Action S Failure (List Article)
  unfolding articles_of
  get_articles = do body ← list_questions; from_result (articles_of to_iso_string body)

  unfoldable pub get_article_details : Text → Action S Failure (Option ArticleDetails)
  unfolding format_content strip_html best_answer_text
  get_article_details article_id =
      never_rejects
        (do question ← read_question article_id; details_of list_answers article_id question)
