-- ===== src/Trends/Pipeline/Fresh.antt =====
-- `excludeExistingArticles`, and the rows of the table.
use tech_trends.Base.{
  ◌≡◌, refl, sym, ◌∙◌, Bool, true, false, not, ◌&&◌, List, [], ◌∷◌, map, keep, arith, All, All-map,
  Post, Post-ok, Post->>=, pure, contains, Text, text_eq, text_eq_iff, text_eq_refl, Bool-cases,
  inl, inr, subst,
}
use tech_trends.Trends.Data.{Article, TechTrend}
use tech_trends.Trends.World.{World, Laws, IsQuiet, any}
use tech_trends.Trends.Repository.{is_existing, find_existing_source_ids}
use tech_trends.Trends.Pipeline.{exclude_existing_articles}
use tech_trends.Trends.Pipeline.Steps.{Config}

-- A row of this source and this identifier.
abbrev pub is_row_of : Text → Text → TechTrend → Bool
is_row_of source id row = text_eq row.source source && text_eq id row.source_id

-- The article names the job's source, and the table had no row for it.
abbrev pub IsNew : Text → List TechTrend → Article → Type 0
IsNew source rows a = (a.source ≡ source) × (any (is_row_of source a.id) rows ≡ false)

contains-source_ids :
    (id : Text) (found : List TechTrend)
    → contains id (map (λ row. row.source_id) found) ≡ any (λ row. text_eq id row.source_id) found
contains-source_ids id [] = refl
contains-source_ids id (row ∷ rows) = ground (arith, contains-source_ids id rows)

-- If none of the rows found has the identifier, no row of the source has it.
any-keep-is_existing :
    (source id : Text) (ids : List Text) (rows : List TechTrend)
    → contains id ids ≡ true
    → any (λ row. text_eq id row.source_id) (keep (is_existing source ids) rows) ≡ false
    → any (is_row_of source id) rows ≡ false
any-keep-is_existing source id ids [] c h = refl
any-keep-is_existing source id ids (row ∷ rows) c h = elim (Bool-cases (text_eq id row.source_id)) [
  | inr other ↦ ground (arith, any-keep-is_existing source id ids rows c)
  | inl same ↦
      let c' = subst (λ i. contains i ids ≡ true) ((text_eq_iff id row.source_id).0 same) c in
      ground (arith, any-keep-is_existing source id ids rows c)
]

abbrev Listed : Text → List Text → Article → Type 0
Listed source ids a = (a.source ≡ source) × (contains a.id ids ≡ true)

All-Listed-cons :
    (source id : Text) (ids : List Text) (articles : List Article)
    → All (Listed source ids) articles
    → All (Listed source (id ∷ ids)) articles
All-Listed-cons source id ids articles =
    All-map (λ (a : Article) (h : Listed source ids a). (h.0, ground arith)) articles

All-Listed :
    (source : Text) (articles : List Article)
    → All (λ a. a.source ≡ source) articles
    → All (Listed source (map (λ a. a.id) articles)) articles
All-Listed source [] h = tt
All-Listed source (a ∷ rest) (p, h) =
    ((p, rw (text_eq_refl a.id)), All-Listed-cons source a.id _ rest (All-Listed source rest h))

-- What the answer of the query says of each article that is kept.
All-keep-IsNew :
    (source : Text) (ids : List Text) (rows found : List TechTrend)
    → ((q : TechTrend → Bool) → any q found ≡ any q (keep (is_existing source ids) rows))
    → (articles : List Article) → All (Listed source ids) articles
    → All
        (IsNew source rows)
        (keep (λ a. not (contains a.id (map (λ row. row.source_id) found))) articles)
All-keep-IsNew source ids rows found same [] h = tt
All-keep-IsNew source ids rows found same (a ∷ rest) ((s, c), h) =
    elim (Bool-cases (contains a.id (map (λ row. row.source_id) found))) [
      | inl old ↦ rw old (All-keep-IsNew source ids rows found same rest h)
      | inr new ↦ rw new (
        (
          s,
          any-keep-is_existing source a.id ids rows c (
              sym (same (λ row. text_eq a.id row.source_id))
              ∙ sym (contains-source_ids a.id found)
              ∙ new),
        ),
        All-keep-IsNew source ids rows found same rest h,
      )
    ]

module _ (w : World) (laws : Laws w) (config : Config) where
  -- The articles kept are new, and the table is as it was.
  abbrev pub Excluded : w.State → List Article → w.State → Type 0
  Excluded s kept t = IsQuiet w s t × All (IsNew w.source_name (w.rows s)) kept

  -- The answer of `findExistingSourceIds` for a list that is not empty.
  abbrev Answers : w.State → List Text → List Text → w.State → Type 0
  Answers s ids existing t =
      (found : List TechTrend) × (existing ≡ map (λ row. row.source_id) found)
      × IsQuiet w s t
      × ((q : TechTrend → Bool)
          → any q found ≡ any q (keep (is_existing w.source_name ids) (w.rows s)))

  find_existing-Post :
      (id : Text) (ids : List Text) (s : w.State)
      → Post
          (Answers s (id ∷ ids))
          (λ _ t. IsQuiet w s t)
          (find_existing_source_ids w w.source_name (id ∷ ids) s)
  unfolding find_existing_source_ids
  find_existing-Post id ids s =
      let p = is_existing w.source_name (id ∷ ids) in
      Post->>=
        {P = λ found t.
          IsQuiet w s t × ((q : TechTrend → Bool) → any q found ≡ any q (keep p (w.rows s)))}
        (w.find p) (λ found. pure (map (λ row. row.source_id) found)) s
        (record {
          on_ok = λ found e. (laws.find_quiet p s, laws.find_ok p s found e);
          on_err = λ e h. laws.find_quiet p s;
        })
        (λ found t q. Post-ok {Q = Answers s (id ∷ ids)} (found, refl, q.0, q.1))

  -- From a list of articles that name the job's source, those are left for which the table has no row
  -- of that source; where the query fails the call does; the table is left alone in both cases.
  pub exclude_existing_articles-Post :
      (a : Article) (rest : List Article) (s : w.State)
      → All (λ x. x.source ≡ w.source_name) (a ∷ rest)
      → Post
          (Excluded s)
          (λ _ t. IsQuiet w s t)
          (exclude_existing_articles w config (a ∷ rest) w.source_name s)
  unfolding exclude_existing_articles
  exclude_existing_articles-Post a rest s h =
      let ids = map (λ (x : Article). x.id) (a ∷ rest) in
      Post->>= (find_existing_source_ids w w.source_name ids)
        (λ existing. pure (keep (λ x. not (contains x.id existing)) (a ∷ rest))) s
        (find_existing-Post a.id (map (λ x. x.id) rest) s)
        (λ existing t (found, same_ids, q, same). Post-ok {Q = Excluded s} (
          q,
          subst
              (λ old.
                All (IsNew w.source_name (w.rows s))
                  (keep (λ x. not (contains x.id old)) (a ∷ rest)))
              (sym same_ids)
              (All-keep-IsNew w.source_name ids (w.rows s) found same (a ∷ rest)
                (All-Listed w.source_name (a ∷ rest) h)),
        ))
