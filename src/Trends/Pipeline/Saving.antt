-- ===== src/Trends/Pipeline/Saving.antt =====
-- What the saving steps add to the table.
use tech_trends.Base.{
  ℕ, suc, ◌+◌, ◌≤◌, ◌≡◌, refl, sym, ap, ◌∙◌, inl, inr, List, [], ◌∷◌, ◌++◌, append_assoc,
  append-nil, map-append, map, arith, length, length-append, All, All-append, All-map, Result-cases,
}
use native.Mathlib.Nat.{le_trans, le_refl}
use tech_trends.Trends.Data.{Article, TechTrend}
use tech_trends.Trends.World.{World, Laws, IsQuiet}
use tech_trends.Trends.Repository.{save_trend}
use tech_trends.Trends.Pipeline.Steps.{
  Config, EmbeddedArticle, BatchResult, nothing, to_columns, to_info, add_saved, save_from,
  save_trends,
}

module _ (w : World) (P : Article → Type 0) where
  -- A row with the columns of an article that satisfies `P`.
  abbrev pub Stems : TechTrend → Type 0
  Stems row = (item : EmbeddedArticle) × P item.article × (row.columns ≡ to_columns item)

  -- Exactly the rows `new` were appended; they stem from such articles and are stamped no earlier.
  pub record Grows (s t : w.State) (new : List TechTrend) : Type 0 where
    pub appended : w.rows t ≡ w.rows s ++ new
    pub later : w.clock s ≤ w.clock t
    pub stem : All Stems new
    pub stamped : All (λ row. w.clock s ≤ row.mined_at) new

  pub IsQuiet-Grows : {s t : w.State} → IsQuiet w s t → Grows s t []
  IsQuiet-Grows {s} q = record {
    appended = q.same_rows ∙ sym (append-nil (w.rows s));
    later = q.later;
    stem = tt;
    stamped = tt;
  }

  pub Grows-trans :
      {s t u : w.State} (new more : List TechTrend)
      → Grows s t new
      → Grows t u more
      → Grows s u (new ++ more)
  Grows-trans {s} {t} new more g h = record {
    appended = h.appended ∙ ap (λ l. l ++ more) g.appended ∙ append_assoc (w.rows s) new more;
    later = le_trans g.later h.later;
    stem = All-append Stems new more g.stem h.stem;
    stamped =
        All-append _ new more g.stamped (All-map (λ row p. le_trans g.later p) more h.stamped);
  }

  -- A step appends rows, at most `most`, and adds exactly these to what is reported.
  pub record Adds (s t : w.State) (b b' : BatchResult) (most : ℕ) : Type 0 where
    pub new : List TechTrend
    pub grows : Grows s t new
    pub saved_articles : b'.saved_articles ≡ b.saved_articles ++ map to_info new
    pub saved_count : b'.saved_count ≡ b.saved_count + length new
    pub bounded : length new ≤ most

  pub Adds-nothing :
      {s t : w.State} (b : BatchResult) (most : ℕ) → IsQuiet w s t → Adds s t b b most
  Adds-nothing b most q = record {
    new = [];
    grows = IsQuiet-Grows q;
    saved_articles = sym (append-nil b.saved_articles);
    saved_count = omega arith;
    bounded = omega arith;
  }

  pub Adds-trans :
      {s t u : w.State} {b b' b'' : BatchResult} (m n k : ℕ)
      → Adds s t b b' m
      → Adds t u b' b'' n
      → m + n ≤ k
      → Adds s u b b'' k
  Adds-trans {b} {b''} m n k x y h = record {
    new = x.new ++ y.new;
    grows = Grows-trans x.new y.new x.grows y.grows;
    saved_articles =
        y.saved_articles
        ∙ ap (λ l. l ++ map to_info y.new) x.saved_articles
        ∙ append_assoc b.saved_articles (map to_info x.new) (map to_info y.new)
        ∙ ap (◌++◌ b.saved_articles) (sym (map-append to_info x.new y.new));
    saved_count = omega (arith, x.saved_count, y.saved_count, length-append x.new y.new);
    bounded = omega (arith, length-append x.new y.new);
  }

  pub Adds-weaken :
      {s t : w.State} {b b' : BatchResult} {m n : ℕ} → m ≤ n → Adds s t b b' m → Adds s t b b' n
  Adds-weaken h x = record {
    new = x.new;
    grows = x.grows;
    saved_articles = x.saved_articles;
    saved_count = x.saved_count;
    bounded = le_trans x.bounded h;
  }

  pub Adds-later :
      {s t u : w.State} {b b' : BatchResult} (m : ℕ)
      → IsQuiet w s t
      → Adds t u b b' m
      → Adds s u b b' m
  Adds-later {b} m q x = Adds-trans 0 m m (Adds-nothing b 0 q) x (omega arith)

module _ (w : World) (laws : Laws w) (config : Config) (P : Article → Type 0) where
  -- One save appends the row that it reports, or nothing.
  save_one-Adds :
      (item : EmbeddedArticle) (b : BatchResult) (s : w.State)
      → P item.article
      → Adds w P s
          (w.save (to_columns item) s).1
          b
          (add_saved w config (w.save (to_columns item) s).0 b)
          1
  unfolding add_saved
  save_one-Adds item b s p = elim (Result-cases (w.save (to_columns item) s).0) [
    | inl (row, e) ↦
        let i = laws.save_ok (to_columns item) s row e in
        record {
          new = row ∷ [];
          grows = record {
            appended = i.appended;
            later = i.later;
            stem = ((item, p, i.given), tt);
            stamped = (i.stamped, tt);
          };
          saved_articles = rw e;
          saved_count = rw e;
          bounded = omega arith;
        }
    | inr (failure, e) ↦
        rw (e, add_saved) (Adds-nothing w P b 1 (laws.save_err (to_columns item) s failure e))
  ]

  save_from-Adds :
      (items : List EmbeddedArticle) (b : BatchResult) (s : w.State)
      → All (λ item. P item.article) items
      → Adds w P s
          (save_from w config items b s).1
          b
          (save_from w config items b s).0
          (length items)
  unfolding save_from save_trend
  save_from-Adds [] b s h = Adds-nothing w P b 0 (record { same_rows = refl; later = le_refl _ })
  save_from-Adds (item ∷ items) b s (p, h) =
      Adds-trans w P 1 (length items) (suc (length items)) (save_one-Adds item b s p)
        (save_from-Adds items _ _ h) (omega arith)

  -- `saveTrends` reports exactly the rows that it appended, one at most for each article.
  pub save_trends-Adds :
      (items : List EmbeddedArticle) (s : w.State)
      → All (λ item. P item.article) items
      → Adds w P s
          (save_trends w config items s).1
          nothing
          (save_trends w config items s).0
          (length items)
  unfolding save_trends
  save_trends-Adds items s h = save_from-Adds items nothing s h
