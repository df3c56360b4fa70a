-- ===== src/Trends/Schema/Rows.antt =====
-- The rows of the table, and an insert into it.
use tech_trends.Base.{
  ℕ, ltb, Option, some, Option-cases, ◌<◌, ◌≡◌, ◌≢◌, refl, inl, inr, List, [], ◌∷◌, ◌++◌,
  Bool-cases, Result, err-ne-ok, ok_injective, subst, ok, err, All,
}
use tech_trends.Trends.Data.{TrendColumns, TechTrend}
use tech_trends.Trends.World.{Failure, any}
use tech_trends.Trends.Schema.{max_id, Refusals, clashes, Table, insert}

-- Two rows agree in no key.
pub record IsApart (row other : TechTrend) : Type 0 where
  pub ids : row.id ≢ other.id
  pub links : row.link_url ≢ other.link_url
  pub articles : ¬ ((row.source ≡ other.source) × (row.source_id ≡ other.source_id))

abbrev pub IsUnique : List TechTrend → Type 0
IsUnique [] = Unit
IsUnique (row ∷ rows) = All (IsApart row) rows × IsUnique rows

pub record IsTable (t : Table) : Type 0 where
  pub unique : IsUnique t.rows
  pub below : All (λ row. row.id < t.next_id) t.rows

module _ (accept : TrendColumns → Option TrendColumns) (why : Refusals) (now : ℕ) (c : TrendColumns)
    (t : Table) where
  abbrev inserted : Result Failure TechTrend × Table
  inserted = insert accept why now c t

  -- What the pipeline relies on of a save.
  pub insert-eq-ok :
      (row : TechTrend)
      → inserted.0 ≡ ok row
      → (inserted.1.rows ≡ t.rows ++ row ∷ [])
        × (accept c ≡ some row.columns)
        × (row.mined_at ≡ now)
  unfolding insert
  insert-eq-ok row h = elim (Bool-cases (ltb max_id t.next_id)) [
    | inl ended ↦ absurd (err-ne-ok (rw ended at h))
    | inr left ↦ elim (Option-cases (accept c)) [
      | inl misfits ↦ absurd (err-ne-ok (rw (left, misfits) at h))
      | inr (stored, good) ↦ elim (Bool-cases (any (clashes stored) t.rows)) [
        | inl taken ↦ absurd (err-ne-ok (rw (left, good, taken) at h))
        | inr free ↦
            subst
              (λ x.
                (inserted.1.rows ≡ t.rows ++ x ∷ [])
                × (accept c ≡ some x.columns)
                × (x.mined_at ≡ now))
              (ok_injective (rw (left, good, free) at h)) (rw (left, good, free), good, refl)
      ]
    ]
  ]

  pub insert-eq-err : (e : Failure) → inserted.0 ≡ err e → inserted.1.rows ≡ t.rows
  unfolding insert
  insert-eq-err e h = elim (Bool-cases (ltb max_id t.next_id)) [
    | inl ended ↦ rw ended
    | inr left ↦ elim (Option-cases (accept c)) [
      | inl misfits ↦ rw (left, misfits)
      | inr (stored, good) ↦ elim (Bool-cases (any (clashes stored) t.rows)) [
        | inl taken ↦ rw (left, good, taken)
        | inr free ↦ absurd (ok-ne-err (rw (left, good, free) at h))
      ]
    ]
  ]
    where
      ok-ne-err : {row : TechTrend} → ¬ (◌≡◌ {A = Result Failure TechTrend} (ok row) (err e))
      ok-ne-err q = cc
