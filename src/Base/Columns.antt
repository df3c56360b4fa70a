-- ===== src/Base/Columns.antt =====
-- `ORDER BY` a list of columns, each of which decides where those before it tie.
use Prim.Native.Nat.{ℕ}
use mathlib.Core.Path.{◌≡◌, refl}
use mathlib.Core.Bool.{Bool, true, false}
use mathlib.Core.Option.{Option, none, some}
use mathlib.Core.List.{List, [], ◌∷◌}
use native.Mathlib.Omega.{arith}
use tech_trends.Base.Tests.{ltb, if◌then◌else◌}
use tech_trends.Base.Sorting.{IsOrder}

pub data Column (Row : Type 0) : Type 0 where
  ascending : (Row → ℕ) → Column Row
  descending : (Row → ℕ) → Column Row
  descending_nulls_last : (Row → Option ℕ) → Column Row

abbrev pub nulls_last_before : Option ℕ → Option ℕ → Bool
nulls_last_before (some m) (some n) = ltb n m
nulls_last_before (some m) none = true
nulls_last_before none (some n) = false
nulls_last_before none none = false

nulls_last_asymmetric :
    (m n : Option ℕ) → nulls_last_before m n ≡ true → nulls_last_before n m ≡ false
nulls_last_asymmetric (some m) (some n) h = ground arith
nulls_last_asymmetric (some m) none h = refl
nulls_last_asymmetric none (some n) h = cc
nulls_last_asymmetric none none h = refl

nulls_last_between :
    (l m n : Option ℕ)
    → nulls_last_before l m ≡ false
    → nulls_last_before m n ≡ false
    → nulls_last_before l n ≡ false
nulls_last_between (some l) (some m) (some n) h k = ground arith
nulls_last_between (some l) none n h k = absurd (ground arith)
nulls_last_between (some l) (some m) none h k = absurd (ground arith)
nulls_last_between none m (some n) h k = refl
nulls_last_between none m none h k = refl

module _ {Row : Type 0} where
  -- The column puts the first row before the second.
  abbrev pub before : Column Row → Row → Row → Bool
  before (ascending f) a b = ltb (f a) (f b)
  before (descending f) a b = ltb (f b) (f a)
  before (descending_nulls_last f) a b = nulls_last_before (f a) (f b)

  unfoldable pub ordered : List (Column Row) → Row → Row → Bool
  ordered [] a b = true
  ordered (c ∷ cs) a b =
      let rest = ordered cs a b in
      if before c a b then true else if before c b a then false else rest

  asymmetric : (c : Column Row) (a b : Row) → before c a b ≡ true → before c b a ≡ false
  asymmetric (ascending f) a b h = ground arith
  asymmetric (descending f) a b h = ground arith
  asymmetric (descending_nulls_last f) a b h = nulls_last_asymmetric (f a) (f b) h

  -- A row between two that are not before it comes apart from neither.
  between :
      (c : Column Row) (a b d : Row)
      → before c a b ≡ false
      → before c b d ≡ false
      → before c a d ≡ false
  between (ascending f) a b d h k = ground arith
  between (descending f) a b d h k = ground arith
  between (descending_nulls_last f) a b d h k = nulls_last_between (f a) (f b) (f d) h k

  ordered_total :
      (cs : List (Column Row)) (a b : Row) → ordered cs a b ≡ false → ordered cs b a ≡ true
  unfolding ordered
  ordered_total [] a b h = cc
  ordered_total (c ∷ cs) a b h = ground (arith, asymmetric c a b, ordered_total cs a b)

  ordered_trans :
      (cs : List (Column Row)) (a b d : Row)
      → ordered cs a b ≡ true
      → ordered cs b d ≡ true
      → ordered cs a d ≡ true
  unfolding ordered
  ordered_trans [] a b d h k = refl
  ordered_trans (c ∷ cs) a b d h k = ground (
    arith,
    asymmetric c a b,
    asymmetric c b d,
    between c a b d,
    between c d b a,
    between c a d b,
    between c b a d,
    between c b d a,
    between c d a b,
    ordered_trans cs a b d,
  )

  pub ordered-IsOrder : (cs : List (Column Row)) → IsOrder (ordered cs)
  ordered-IsOrder cs = record { total = ordered_total cs; trans = ordered_trans cs }
