-- ===== src/Trends/Query/Tests.antt =====
-- Three requests: two for one article, the second of which joins the load of the first, and one for
-- another article, whose load goes on.
use mathlib.Core.List.{Perm}
use tech_trends.Base.{ℕ, ◌≡◌, ◌==◌, ==_iff, refl, List, [], ◌∷◌, none, ok, err, units, map}
use tech_trends.Trends.Query.{
  Loads, no_loads, DetailAnswer, is_found, internal_error, cache_read, load_settled,
}
use tech_trends.Trends.Query.Waiting.{Asked, awaits, has_outcome, Distinct, awaiting}
use tech_trends.Trends.Query.Sharing.{Reached, start, request, settle, Reached_lem}

abbrev joined : Loads ℕ DetailAnswer
joined = cache_read ◌==◌ is_found 3 8 (ok none) (
    cache_read ◌==◌ is_found 2 7 (ok none)
      (cache_read ◌==◌ is_found 1 7 (err (units "no connection")) no_loads))

abbrev ended : Loads ℕ DetailAnswer
ended = load_settled ◌==◌ is_found 7 internal_error joined

abbrev asked : Asked ℕ DetailAnswer
asked = (1, has_outcome internal_error) ∷ (2, has_outcome internal_error) ∷ (3, awaits 8) ∷ []

ended_reached : Reached ◌==◌ ==_iff is_found asked ended
unfolding cache_read
ended_reached = settle 7 internal_error refl (
    request 3 8 (ok none) (request 2 7 (ok none) (request 1 7 (err (units "no connection")) start)))

Reached_lem_example :
    Distinct ◌==◌ ==_iff is_found ended.running
    × (map (λ e. e.0) ended.pending ≡ ended.running)
    × Perm ended.answers ((1, internal_error) ∷ (2, internal_error) ∷ [])
    × Perm (awaiting ended.pending) ((3, 8) ∷ [])
    × (ended.running ≡ [] → ◌≡◌ {A = List (ℕ × ℕ)} ((3, 8) ∷ []) [])
Reached_lem_example = Reached_lem ◌==◌ ==_iff is_found ended_reached
