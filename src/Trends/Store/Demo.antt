-- ===== src/Trends/Store/Demo.antt =====
-- A database that keeps a fixed table of two rows and answers as the queries mean.
use mathlib.Core.List.{Nodup-cons, Nodup-nil, not-mem-nil, eq-or-mem_of_mem-cons, Perm}
use mathlib.Core.List.Perm
use Prim.Native.String.{String}
use mathlib.Core.Logic.Or
use tech_trends.Base.{
  ℕ, suc, ◌-◌, ◌≡◌, refl, sym, ap, ◌∙◌, subst, List, [], ◌∷◌, none, some, map, length, take, drop,
  keep, min, arith, units, includes, ok, ok_injective, Action, Keyed, ordered, ordered-IsOrder,
  sort_by, sort_by-perm, IsSorted-sort_by, length-take, take-append-drop,
}
use tech_trends.Trends.Data.{TechTrend, new_date}
use tech_trends.Trends.World.{Failure}
use tech_trends.Trends.Store.{SelectQuery, Database}
use tech_trends.Trends.Store.Selected.{passes, window, Laws}
use tech_trends.Trends.Store.Hybrid.{
  Candidate, row_numbers, IsCandidates, full_outer_join, rrf, Scored, join_rows, hybrid_order,
  HybridQuery, HybridLaws,
}

abbrev pub row_of : ℕ → String → ℕ → TechTrend
row_of id title likes = record {
  columns = record {
    source = units "dev.to";
    source_id = units title;
    title = units title;
    short_summary = [];
    long_summary = none;
    link_url = units title;
    technical_tags = none;
    view_count = none;
    like_count = some likes;
    comment_count = none;
    embedding = some (units "1" ∷ []);
    created_at = new_date (units "2026-01-01");
  };
  id = id;
  mined_at = 5;
}

abbrev pub table : List TechTrend
table = row_of 1 "ant" 10 ∷ row_of 2 "antelope" 30 ∷ []

table-Keyed : Keyed (λ row. row.id) table
table-Keyed = Nodup-cons.1 (
  λ m. Or.elim (hlevel) (eq-or-mem_of_mem-cons m) (λ e. omega (arith, e)) not-mem-nil,
  Nodup-cons.1 (not-mem-nil, Nodup-nil),
)

abbrev pub demo : Database
demo = record {
  State = Unit;
  rows = λ s. table;
  get_many = λ q s. (
    ok (window q.skipped q.taken (sort_by (ordered q.order) (keep (passes q.conditions) table))),
    s,
  );
  get_count = λ q s. (ok (length (keep (passes q.conditions) table)), s);
  get_distinct_sources = λ s. (ok (units "dev.to" ∷ []), s);
  current_date = 0;
  time = λ d. 0;
  is_match = λ search row. includes row.title search;
  ts_rank = λ search row. length row.title;
  distance = λ v w. 1;
  related_distance_threshold = 4;
  vector_distance_threshold = 3;
}

pub demo_laws : Laws demo
demo_laws = record {
  get_many_ok = λ q s answer e. record {
    full = sort_by (ordered q.order) (keep (passes q.conditions) table);
    full_perm = sort_by-perm (ordered q.order) (keep (passes q.conditions) table);
    full_sorted =
        IsSorted-sort_by (ordered q.order) (ordered-IsOrder q.order)
          (keep (passes q.conditions) table);
    answer_eq = sym (ok_injective e);
  };
  get_count_ok = λ q s n e. sym (ok_injective e);
  get_many_quiet = λ q s. refl;
  id_key = λ s. table-Keyed;
}

-- The first candidates of a list.
abbrev first_candidates : SelectQuery → ℕ → List Candidate
first_candidates q limit =
    take limit (row_numbers 1 (sort_by (ordered q.order) (keep (passes q.conditions) table)))

length-row_numbers : (k : ℕ) (rows : List TechTrend) → length (row_numbers k rows) ≡ length rows
length-row_numbers k [] = refl
length-row_numbers k (row ∷ rows) = ap suc (length-row_numbers (suc k) rows)

first_candidates-IsCandidates :
    (q : SelectQuery) (limit : ℕ) → IsCandidates q limit table (first_candidates q limit)
first_candidates-IsCandidates q limit =
    let full = sort_by (ordered q.order) (keep (passes q.conditions) table) in
    record {
      full = full;
      full_perm = sort_by-perm (ordered q.order) (keep (passes q.conditions) table);
      full_sorted =
          IsSorted-sort_by (ordered q.order) (ordered-IsOrder q.order)
            (keep (passes q.conditions) table);
      left_out = drop limit (row_numbers 1 full);
      chosen =
          subst (λ r. Perm r (row_numbers 1 full))
            (sym (take-append-drop limit (row_numbers 1 full))) Perm.rfl;
      enough = length-take limit (row_numbers 1 full) ∙ ap (min limit) (length-row_numbers 1 full);
    }

abbrev pub demo_inverse : ℕ → ℕ
demo_inverse n = 1000 - n

abbrev scored : HybridQuery → List Scored
scored q = sort_by (ordered (hybrid_order demo)) (
    join_rows table (
      rrf demo_inverse q.rrf_k (first_candidates q.keyword q.candidate_limit)
        (first_candidates q.vector q.candidate_limit)))

abbrev pub demo_hybrid : HybridQuery → Action Unit Failure (List TechTrend)
demo_hybrid q s = (ok (map (λ r. r.0) (take q.taken (drop q.skipped (scored q)))), s)

abbrev pub demo_hybrid_count : HybridQuery → Action Unit Failure ℕ
demo_hybrid_count q s = (
  ok (
      length (
        full_outer_join (first_candidates q.keyword q.candidate_limit)
          (first_candidates q.vector q.candidate_limit))),
  s,
)

pub demo_hybrid_laws : HybridLaws demo demo_hybrid demo_hybrid_count 50 demo_inverse
demo_hybrid_laws = record {
  get_hybrid_ok = λ q s answer e. record {
    ks = first_candidates q.keyword q.candidate_limit;
    vs = first_candidates q.vector q.candidate_limit;
    ks_chosen = first_candidates-IsCandidates q.keyword q.candidate_limit;
    vs_chosen = first_candidates-IsCandidates q.vector q.candidate_limit;
    full = scored q;
    full_perm = sort_by-perm (ordered (hybrid_order demo)) _;
    full_sorted =
        IsSorted-sort_by (ordered (hybrid_order demo)) (ordered-IsOrder (hybrid_order demo)) _;
    answer_eq = sym (ok_injective e);
  };
  count_hybrid_ok = λ q s n e. record {
    ks = first_candidates q.keyword q.candidate_limit;
    vs = first_candidates q.vector q.candidate_limit;
    ks_chosen = first_candidates-IsCandidates q.keyword q.candidate_limit;
    vs_chosen = first_candidates-IsCandidates q.vector q.candidate_limit;
    count_eq = sym (ok_injective e);
  };
}
