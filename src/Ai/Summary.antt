-- ===== src/Ai/Summary.antt =====
-- `summarizeContentWithAi`: the summary that is read of a model's answer, with what stands in for
-- fields that are missing.
use tech_trends.Base.{
  ℕ, List, [], ◌∷◌, ◌++◌, Option, none, some, map, Text, units, Result, ok, err, Action,
}
use tech_trends.Ai.Prompts.{build_summarize_content_prompt}
use tech_trends.Ai.Retry.{ApiError, Floats, RetryFailure, execute_with_retry}
use tech_trends.Ai.Models.{plain_error, max_retries}

-- A field that may be an array, of which the members are texts, or one value, or missing.
pub data TextOrList : Type 0 where
  texts : List Text → TextOrList
  text : Option Text → TextOrList

-- What `JSON.parse` gives for an object.
pub record ParsedSummary : Type 0 where
  pub title : Option Text
  pub short_summary : TextOrList
  pub long_summary : Option Text
  pub tags : TextOrList

-- A missing short summary is an array with one missing member.
pub record SummaryResult : Type 0 where
  pub title : Text
  pub short_summary : List (Option Text)
  pub long_summary : Text
  pub tags : Option Text

-- `a || b`
abbrev pub or_given : Text → Option Text → Text
or_given b none = b
or_given b (some []) = b
or_given b (some (c ∷ s)) = c ∷ s

-- `a || null`
abbrev pub or_no_tags : Option Text → Option Text
or_no_tags none = none
or_no_tags (some []) = none
or_no_tags (some (c ∷ s)) = some (c ∷ s)

-- `tags.join(', ')`
abbrev pub join_tags : List Text → Text
join_tags [] = []
join_tags (tag ∷ []) = tag
join_tags (tag ∷ next ∷ tags) = tag ++ (units ", " ++ join_tags (next ∷ tags))

abbrev pub sentences_of : TextOrList → List (Option Text)
sentences_of (texts list) = map some list
sentences_of (text one) = one ∷ []

abbrev pub tags_of : TextOrList → Option Text
tags_of (texts list) = some (join_tags list)
tags_of (text one) = or_no_tags one

unfoldable pub summary_of : Text → ParsedSummary → SummaryResult
summary_of title parsed = record {
  title = or_given title parsed.title;
  short_summary = sentences_of parsed.short_summary;
  long_summary = or_given [] parsed.long_summary;
  tags = tags_of parsed.tags;
}

-- The model and `JSON.parse`, which gives a message where it throws.
module _ (floats : Floats) {S : Type 0} (complete : Text → Action S ApiError (Option Text))
    (sleep : ℕ → S → S) (parse_summary : Text → Result Text ParsedSummary) where
  abbrev pub parsed_or_error : Result Text ParsedSummary → Result ApiError ParsedSummary
  parsed_or_error (ok parsed) = ok parsed
  parsed_or_error (err message) = err (plain_error message)

  abbrev pub read_summary : Option Text → Result ApiError ParsedSummary
  read_summary none = err (plain_error (units "AI 응답이 비어 있습니다."))
  read_summary (some []) = err (plain_error (units "AI 응답이 비어 있습니다."))
  read_summary (some (c ∷ raw)) = parsed_or_error (parse_summary (c ∷ raw))

  -- The `operation` of the summary.
  unfoldable pub summarize : Text → Action S ApiError ParsedSummary
  summarize prompt s =
      let (response, t) = complete prompt s in
      elim response [ ok content ↦ (read_summary content, t) | err error ↦ (err error, t) ]

  unfoldable pub summarize_content_with_ai : Text → Text → Action S RetryFailure SummaryResult
  unfolding summarize execute_with_retry summary_of build_summarize_content_prompt
  summarize_content_with_ai title content s =
      let (parsed, t) =
        execute_with_retry floats (summarize (build_summarize_content_prompt title content)) sleep
          max_retries 2000 s in
      elim parsed [ ok p ↦ (ok (summary_of title p), t) | err failure ↦ (err failure, t) ]
