-- ===== src/Trends/Query.antt =====
-- trends-query.service.ts: the loads that concurrent requests share, and the pages of a list.
pub mod Waiting
pub mod Settled
pub mod Sharing
pub mod Pages
pub mod Keys
mod Tests
use tech_trends.Base.{
  ℕ, zero, suc, ◌+◌, ◌-◌, ◌*◌, ◌/◌, ◌==◌, Bool, true, false, List, [], ◌∷◌, ◌++◌, Option, none,
  some, if◌then◌else◌, map, Text, units, decimal, text_eq, Result, ok, err,
}
use tech_trends.Trends.Data.{TechTrend, Vector}
use tech_trends.Trends.Cache.{bool_text}
use tech_trends.Trends.World.{Failure}

-- One of the maps of loads: for each key the requests that await its promise, the first of which
-- began the load; the loads that run; the answers given; and the cache writes begun.
pub record Loads (K A : Type 0) : Type 0 where
  pub pending : List (K × List ℕ)
  pub running : List K
  pub answers : List (ℕ × A)
  pub written : List (K × A)

abbrev pub no_loads : {K A : Type 0} → Loads K A
no_loads = record { pending = []; running = []; answers = []; written = [] }

-- A read of the cache that fails is a miss.
abbrev pub or_null {ℓ} : {A : Type ℓ} → Result Failure (Option A) → Option A
or_null (ok found) = found
or_null (err e) = none

module _ {K A : Type 0} (same : K → K → Bool) (stored : A → Bool) where
  abbrev pub has : K → List K → Bool
  has key [] = false
  has key (k ∷ ks) = if same key k then true else has key ks

  abbrev pub join : ℕ → K → List (K × List ℕ) → List (K × List ℕ)
  join request key [] = []
  join request key ((k, waiting) ∷ m) =
      let rest = join request key m in
      if same key k then (k, waiting ++ request ∷ []) ∷ m else (k, waiting) ∷ rest

  abbrev pub waiters : K → List (K × List ℕ) → List ℕ
  waiters key [] = []
  waiters key ((k, waiting) ∷ m) = if same key k then waiting else waiters key m

  abbrev pub drop_load : K → List (K × List ℕ) → List (K × List ℕ)
  drop_load key [] = []
  drop_load key ((k, waiting) ∷ m) =
      let rest = drop_load key m in if same key k then m else (k, waiting) ∷ rest

  abbrev pub drop_key : K → List K → List K
  drop_key key [] = []
  drop_key key (k ∷ ks) = let rest = drop_key key ks in if same key k then ks else k ∷ rest

  -- What runs without a pause after the read of the cache: answer, await the load that is there, or
  -- begin one.
  unfoldable pub cache_read : ℕ → K → Result Failure (Option A) → Loads K A → Loads K A
  cache_read request key read st = elim (or_null read) [
    | some a ↦ record st { answers = st.answers ++ (request, a) ∷ [] }
    | none ↦
        if has key (map (λ e. e.0) st.pending)
        then record st { pending = join request key st.pending }
        else record st {
          pending = st.pending ++ (key, request ∷ []) ∷ [];
          running = st.running ++ key ∷ [];
        }
  ]

  -- A load settles: the cache is written where there is something to store, the map forgets the key,
  -- and all who await the promise have its outcome.
  unfoldable pub load_settled : K → A → Loads K A → Loads K A
  load_settled key outcome st = record {
    pending = drop_load key st.pending;
    running = drop_key key st.running;
    answers = st.answers ++ map (λ request. (request, outcome)) (waiters key st.pending);
    written = if stored outcome then st.written ++ (key, outcome) ∷ [] else st.written;
  }

-- What `getTrendById` comes to: the article, 404, or 500.
pub data DetailAnswer : Type 0 where
  found : TechTrend → DetailAnswer
  not_found : DetailAnswer
  internal_error : DetailAnswer

abbrev pub detail_outcome : Result Failure (Option TechTrend) → DetailAnswer
detail_outcome (ok (some article)) = found article
detail_outcome (ok none) = not_found
detail_outcome (err e) = internal_error

abbrev pub is_found : DetailAnswer → Bool
is_found (found article) = true
is_found not_found = false
is_found internal_error = false

abbrev pub as_found : Result Failure (Option TechTrend) → Result Failure (Option DetailAnswer)
as_found (ok (some article)) = ok (some (found article))
as_found (ok none) = ok none
as_found (err e) = err e

-- `getTrendById`, up to and after its load.
unfoldable pub get_trend_by_id :
    ℕ → ℕ → Result Failure (Option TechTrend) → Loads ℕ DetailAnswer → Loads ℕ DetailAnswer
unfolding cache_read
get_trend_by_id request id cached = cache_read ◌==◌ is_found request id (as_found cached)

unfoldable pub load_detail :
    ℕ → Result Failure (Option TechTrend) → Loads ℕ DetailAnswer → Loads ℕ DetailAnswer
unfolding load_settled
load_detail id article = load_settled ◌==◌ is_found id (detail_outcome article)

-- `Math.ceil(totalCount / limit)` for a positive limit, and the offset of a page of the repository.
unfoldable pub total_pages : ℕ → ℕ → ℕ
total_pages total_count limit = (total_count + (limit - 1)) / limit

unfoldable pub page_offset : ℕ → ℕ → ℕ
page_offset page limit = (page - 1) * limit

-- The keys of the other two maps: `${id}:${limit}` and `${source}:${isNew}`.
unfoldable pub related_load_key : ℕ → ℕ → Text
related_load_key id limit = decimal id ++ (units ":" ++ decimal limit)

unfoldable pub list_count_load_key : Text → Bool → Text
list_count_load_key source is_new = source ++ (units ":" ++ bool_text is_new)

-- What `getRelatedTrends` comes to, with the rows of the database.
pub data RelatedAnswer (Row : Type 0) : Type 0 where
  rows : List Row → RelatedAnswer Row
  no_article : RelatedAnswer Row
  failed : RelatedAnswer Row

abbrev pub related_rows : {Row : Type 0} → Result Failure (List Row) → RelatedAnswer Row
related_rows (ok list) = rows list
related_rows (err e) = failed

-- An article without an embedding has no related ones, and the database is not asked.
abbrev pub related_of :
    {Row : Type 0} → Option Vector → (Vector → Result Failure (List Row)) → RelatedAnswer Row
related_of none find_related_by_embedding = rows []
related_of (some []) find_related_by_embedding = rows []
related_of (some (x ∷ v)) find_related_by_embedding =
    related_rows (find_related_by_embedding (x ∷ v))

-- `loadRelated`, with the answer of `getTrendById`.
unfoldable pub load_related :
    {Row : Type 0} → DetailAnswer → (Vector → Result Failure (List Row)) → RelatedAnswer Row
load_related (found article) find_related_by_embedding =
    related_of article.embedding find_related_by_embedding
load_related not_found find_related_by_embedding = no_article
load_related internal_error find_related_by_embedding = failed

abbrev pub has_rows : {Row : Type 0} → RelatedAnswer Row → Bool
has_rows (rows list) = true
has_rows no_article = false
has_rows failed = false

unfoldable pub get_related_trends :
    {Row : Type 0}
    → ℕ
    → ℕ
    → ℕ
    → Result Failure (Option (RelatedAnswer Row))
    → Loads Text (RelatedAnswer Row)
    → Loads Text (RelatedAnswer Row)
unfolding cache_read related_load_key
get_related_trends request id limit cached =
    cache_read text_eq has_rows request (related_load_key id limit) cached

unfoldable pub related_settled :
    {Row : Type 0}
    → ℕ
    → ℕ
    → RelatedAnswer Row
    → Loads Text (RelatedAnswer Row)
    → Loads Text (RelatedAnswer Row)
unfolding load_settled related_load_key
related_settled id limit outcome = load_settled text_eq has_rows (related_load_key id limit) outcome

abbrev pub is_counted : Result Failure ℕ → Bool
is_counted (ok n) = true
is_counted (err e) = false

abbrev pub as_counted : Result Failure (Option ℕ) → Result Failure (Option (Result Failure ℕ))
as_counted (ok (some n)) = ok (some (ok n))
as_counted (ok none) = ok none
as_counted (err e) = err e

-- `getListCount`; what its load rejects with reaches all who await it.
unfoldable pub get_list_count :
    ℕ
    → Text
    → Bool
    → Result Failure (Option ℕ)
    → Loads Text (Result Failure ℕ)
    → Loads Text (Result Failure ℕ)
unfolding cache_read list_count_load_key
get_list_count request source is_new cached =
    cache_read text_eq is_counted request (list_count_load_key source is_new) (as_counted cached)

unfoldable pub list_count_settled :
    Text → Bool → Result Failure ℕ → Loads Text (Result Failure ℕ) → Loads Text (Result Failure ℕ)
unfolding load_settled list_count_load_key
list_count_settled source is_new outcome =
    load_settled text_eq is_counted (list_count_load_key source is_new) outcome
