-- ===== src/Trends/Query/Keys.antt =====
-- The keys of the loads, and the requests that they stand for.
use tech_trends.Base.{ℕ, ◌≡◌, Bool, Text, decimal, decimal_injective, decimal-All}
use tech_trends.Trends.Query.{related_load_key, list_count_load_key}
use tech_trends.Trends.Cache.Keys.{digits_split, list_count_injective}

-- Two loads of related articles have one key only for one article and one limit, and two loads of a
-- count only for one source and one filter, whatever signs the name of a source has.
pub load_keys_injective :
    ((i l j m : ℕ) → related_load_key i l ≡ related_load_key j m → (i ≡ j) × (l ≡ m))
    × ((s t : Text) (a b : Bool)
        → list_count_load_key s a ≡ list_count_load_key t b
        → (s ≡ t) × (a ≡ b))
unfolding related_load_key list_count_load_key
load_keys_injective = (
  λ i l j m e.
      let (same, rest) =
        digits_split (decimal i) (decimal j) (decimal l) (decimal m) (decimal-All i) (decimal-All j)
          e in
      (decimal_injective i j same, decimal_injective l m rest),
  λ s t a b e. list_count_injective s t a b e,
)
