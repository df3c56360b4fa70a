-- ===== src/Trends/Store/Selected.antt =====
-- What a query means: the rows that pass, in an order that its columns allow, and a window of them.
use mathlib.Core.List.{Perm}
use tech_trends.Base.{
  ℕ, ◌≡◌, refl, sym, length-sort_by, ap, ◌∙◌, Bool, true, false, ◌&&◌, List, [], ◌∷◌, Option, none,
  some, length, take, drop, keep, Keyed, Keyed-eq, Mem-keep, All, ok, arith, Column, before,
  ordered, ordered-IsOrder, sort_by, IsSorted, IsStrict, IsSorted-eq-sort_by,
}
use tech_trends.Trends.Data.{TechTrend}
use tech_trends.Trends.Store.{SelectQuery, Database}

abbrev pub passes : List (TechTrend → Bool) → TechTrend → Bool
passes [] row = true
passes (p ∷ ps) row = p row && passes ps row

abbrev pub window : ℕ → Option ℕ → List TechTrend → List TechTrend
window skipped none rows = drop skipped rows
window skipped (some n) rows = take n (drop skipped rows)

-- Where rows tie on all columns the database may return them in any order.
pub record IsSelected (q : SelectQuery) (rows answer : List TechTrend) : Type 0 where
  pub full : List TechTrend
  pub full_perm : Perm full (keep (passes q.conditions) rows)
  pub full_sorted : IsSorted (ordered q.order) full
  pub answer_eq : answer ≡ window q.skipped q.taken full

pub record Laws (db : Database) : Type 0 where
  pub get_many_ok :
      (q : SelectQuery) (s : db.State) (answer : List TechTrend)
      → (db.get_many q s).0 ≡ ok answer
      → IsSelected q (db.rows s) answer
  pub get_count_ok :
      (q : SelectQuery) (s : db.State) (n : ℕ)
      → (db.get_count q s).0 ≡ ok n
      → n ≡ length (keep (passes q.conditions) (db.rows s))
  -- While a request is answered nothing writes to the table.
  pub get_many_quiet : (q : SelectQuery) (s : db.State) → db.rows (db.get_many q s).1 ≡ db.rows s
  -- `id` is the primary key.
  pub id_key : (s : db.State) → Keyed (λ row. row.id) (db.rows s)

abbrev pub IsTied : TechTrend → TechTrend → Column TechTrend → Type 0
IsTied a b c = (before c a b ≡ false) × (before c b a ≡ false)

-- The identifier is among the columns.
abbrev pub HasId : List (Column TechTrend) → Type 0
HasId cs = (a b : TechTrend) → All (IsTied a b) cs → a.id ≡ b.id

ordered-IsTied :
    (cs : List (Column TechTrend)) (a b : TechTrend)
    → ordered cs a b ≡ true
    → ordered cs b a ≡ true
    → All (IsTied a b) cs
unfolding ordered
ordered-IsTied [] a b h k = tt
ordered-IsTied (c ∷ cs) a b h k = ground (arith, ordered-IsTied cs a b)

pub TechTrend-IsSet : IsSet TechTrend
TechTrend-IsSet = hlevel

-- The rows of a query, all of them, in their order.
unfoldable pub select :
    List (Column TechTrend) → (TechTrend → Bool) → List TechTrend → List TechTrend
select order p rows = sort_by (ordered order) (keep p rows)

IsStrict-keep :
    (cs : List (Column TechTrend)) (p : TechTrend → Bool) (rows : List TechTrend)
    → HasId cs
    → Keyed (λ row. row.id) rows
    → IsStrict (ordered cs) (keep p rows)
IsStrict-keep cs p rows has keyed x y m n h k =
    Keyed-eq (λ row. row.id) TechTrend-IsSet rows keyed x y (Mem-keep p rows x m)
      (Mem-keep p rows y n) (has x y (ordered-IsTied cs x y h k))

keep_ext :
    (p q : TechTrend → Bool) (rows : List TechTrend)
    → ((row : TechTrend) → p row ≡ q row)
    → keep p rows ≡ keep q rows
keep_ext p q [] e = refl
keep_ext p q (x ∷ xs) e = ground (arith, e x, keep_ext p q xs e)

pub IsSelected-select :
    (q : SelectQuery) (p : TechTrend → Bool) (rows answer : List TechTrend)
    → IsSelected q rows answer
    → HasId q.order
    → Keyed (λ row. row.id) rows
    → ((row : TechTrend) → passes q.conditions row ≡ p row)
    → answer ≡ window q.skipped q.taken (select q.order p rows)
unfolding select
IsSelected-select q p rows answer h has keyed same =
    h.answer_eq
    ∙ ap (window q.skipped q.taken) (
        IsSorted-eq-sort_by (ordered q.order) (ordered-IsOrder q.order) h.full
          (keep (passes q.conditions) rows) h.full_sorted h.full_perm
          (IsStrict-keep q.order (passes q.conditions) rows has keyed))
    ∙ ap (λ r. window q.skipped q.taken (sort_by (ordered q.order) r))
        (keep_ext (passes q.conditions) p rows same)

pub length-select :
    (order : List (Column TechTrend)) (p q : TechTrend → Bool) (rows : List TechTrend)
    → ((row : TechTrend) → p row ≡ q row)
    → length (keep p rows) ≡ length (select order q rows)
unfolding select
length-select order p q rows same =
    ap length (keep_ext p q rows same) ∙ sym (length-sort_by (ordered order) (keep q rows))
