-- ===== src/Trends/Store/Related.antt =====
-- `findRelatedByEmbedding`: the rows that are nearest to an article.
use mathlib.Core.List.{Perm}
use tech_trends.Base.{
  ℕ, ◌≡◌, ◌≢◌, ◌==◌, sym, subst, ap, ◌∙◌, Bool, true, not, ◌&&◌, List, [], ◌∷◌, none, some, is_some,
  leb, length, drop, min, keep, ◌++◌, All, All-take, All-of_keep, All-sort_by, length-take,
  length-sort_by, take-append-drop, sort_by, sort_by-perm, IsSorted-sort_by, ordered-IsOrder, ok,
  arith, Action, ascending, descending, ordered, IsSorted,
}
use tech_trends.Trends.Data.{TechTrend, Vector}
use tech_trends.Trends.World.{Failure}
use tech_trends.Trends.Store.{SelectQuery, Database, created_at}
use tech_trends.Trends.Store.Selected.{passes, Laws, HasId, select, IsSelected-select}

-- `trend.embedding <=> $1`, for a row that has one.
abbrev pub distance_to : Database → Vector → TechTrend → ℕ
distance_to db vector row = elim row.embedding [ none ↦ 0 | some v ↦ db.distance v vector ]

module _ (db : Database) (exclude_id : ℕ) (embedding : Vector) where
  -- The `WHERE` of related rows.
  abbrev pub is_related : TechTrend → Bool
  is_related row =
      not (row.id == exclude_id)
      && (is_some row.embedding && leb (distance_to db embedding row) db.related_distance_threshold)

  unfoldable pub related_query : ℕ → SelectQuery
  related_query limit = record {
    conditions =
        (λ row. not (row.id == exclude_id))
        ∷ (λ row. is_some row.embedding)
        ∷ (λ row. leb (distance_to db embedding row) db.related_distance_threshold)
        ∷ [];
    order =
        ascending (distance_to db embedding)
        ∷ descending (created_at db)
        ∷ descending (λ row. row.id)
        ∷ [];
    skipped = 0;
    taken = some limit;
  }

  unfoldable pub find_related_by_embedding : ℕ → Action db.State Failure (List TechTrend)
  unfolding related_query
  find_related_by_embedding limit = db.get_many (related_query limit)

  related-HasId : (limit : ℕ) → HasId (related_query limit).order
  unfolding related_query
  related-HasId limit a b (_, (_, ((p, q), _))) = ground arith

  -- The columns put the nearest first.
  abbrev pub nearest_first : TechTrend → TechTrend → Bool
  nearest_first = ordered (
      ascending (distance_to db embedding)
      ∷ descending (created_at db)
      ∷ descending (λ row. row.id)
      ∷ [])

  passes-related_query :
      (limit : ℕ) (row : TechTrend) → passes (related_query limit).conditions row ≡ is_related row
  unfolding related_query
  passes-related_query limit row = ground arith

  is_related-ne : (row : TechTrend) → is_related row ≡ true → row.id ≢ exclude_id
  is_related-ne row h = ground arith

  -- Related rows that are answered are as many as there are, up to the limit; none is the article
  -- itself; all have an embedding within the threshold; and with the related rows left out behind
  -- them they stand in the order of distance, then of date, then of identifier.
  pub find_related_by_embedding_lem :
      Laws db
      → (limit : ℕ) (s : db.State) (found : List TechTrend)
      → (find_related_by_embedding limit s).0 ≡ ok found
      → (length found ≡ min limit (length (keep is_related (db.rows s))))
        × All (λ row. (row.id ≢ exclude_id) × (is_related row ≡ true)) found
        × ((rest : List TechTrend) × Perm (found ++ rest) (keep is_related (db.rows s))
            × IsSorted nearest_first (found ++ rest))
  unfolding find_related_by_embedding related_query select
  find_related_by_embedding_lem laws limit s found e =
      let h = laws.get_many_ok (related_query limit) s found e in
      let related = keep is_related (db.rows s) in
      let sorted = sort_by nearest_first related in
      let eq =
        IsSelected-select (related_query limit) is_related (db.rows s) found h (related-HasId limit)
          (laws.id_key s) (passes-related_query limit) in
      let joined = ap (◌++ drop limit sorted) eq ∙ take-append-drop limit sorted in
      (
        ap length eq
            ∙ length-take limit sorted
            ∙ ap (min limit) (length-sort_by nearest_first related),
        subst (All (λ row. (row.id ≢ exclude_id) × (is_related row ≡ true))) (sym eq) (
            All-take _ limit sorted (
              All-sort_by nearest_first _ related
                (All-of_keep _ is_related (λ row r. (is_related-ne row r, r)) (db.rows s)))),
        (
          drop limit sorted,
          subst (λ r. Perm r related) (sym joined) (sort_by-perm nearest_first related),
          subst (IsSorted nearest_first) (sym joined)
              (IsSorted-sort_by nearest_first (ordered-IsOrder _) related),
        ),
      )
