-- ===== src/Trends/Data.antt =====
-- scraper.interface.ts, ai.interface.ts and tech-trend.entity.ts. A float is kept as its literal,
-- since embeddings are only stored, counted and printed; a `Date` as the text that it is made from.
use tech_trends.Base.{ℕ, Text, List, Option}

abbrev pub Float : Type 0
Float = Text

abbrev pub Vector : Type 0
Vector = List Float

pub data JsDate : Type 0 where
  new_date : Text → JsDate

pub record Article : Type 0 where
  pub id : Text
  pub title : Text
  pub url : Text
  pub created_at : Text
  pub source : Text

-- `undefined` and `null` counts are both `none`.
pub record ArticleDetails : Type 0 where
  pub content : Text
  pub view_count : Option ℕ
  pub like_count : Option ℕ
  pub comment_count : Option ℕ

pub record SavedArticleInfo : Type 0 where
  pub id : ℕ
  pub source_id : Text
  pub title : Text
  pub url : Text

pub record ScrapeJobResult : Type 0 where
  pub source_name : Text
  pub saved_count : ℕ
  pub saved_articles : List SavedArticleInfo

pub record BatchEvaluationItem : Type 0 where
  pub id : Text
  pub title : Text
  pub snippet : Text

pub record FinalSummaryResult : Type 0 where
  pub title : Text
  pub short_summary : List Text
  pub long_summary : Text
  pub tags : Option Text

-- The columns that a caller of `saveTrend` gives.
pub record TrendColumns : Type 0 where
  pub source : Text
  pub source_id : Text
  pub title : Text
  pub short_summary : List Text
  pub long_summary : Option Text
  pub link_url : Text
  pub technical_tags : Option Text
  pub view_count : Option ℕ
  pub like_count : Option ℕ
  pub comment_count : Option ℕ
  pub embedding : Option Vector
  pub created_at : JsDate

-- A row of `tbl_tech_trends`: the columns given, and the two that the database fills in.
pub record TechTrend : Type 0 where
  pub columns : TrendColumns
  pub open columns use *
  pub id : ℕ
  pub mined_at : ℕ
