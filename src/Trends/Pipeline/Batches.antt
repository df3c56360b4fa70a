-- ===== src/Trends/Pipeline/Batches.antt =====
-- One batch: the rows that it appends, and the batch that is rejected.
use native.Mathlib.Nat.{le_trans, le_refl}
use tech_trends.Base.{
  ℕ, suc, ◌≤◌, refl, ◌∙◌, inl, inr, List, [], ◌∷◌, map, keep, arith, Option, none, some, length,
  length-append, All, All-append, All-keep, Result, ok, err, pure, Post, Post-ok, Post-err,
  Post_always, Post-map, Post->>=, Option-cases, Bool-cases, lookup, leb, ◌==◌, Text, contains,
}
use tech_trends.Trends.Data.{Article, ArticleDetails, FinalSummaryResult, Vector}
use tech_trends.Trends.World.{World, Laws, IsQuiet, Failure}
use tech_trends.Trends.Pipeline.Steps.{
  Config, DetailsMap, SummarizedArticle, EmbeddedArticle, BatchResult, nothing, with_vectors,
  build_embedding_text, to_item, fetch_from, fetch_batch_details_map, select_valuable_articles,
  after_summary, summarize_content, summarize_one, summarize_from, summarize_articles, matched,
  generate_embeddings_for_articles,
}
use tech_trends.Trends.Pipeline.{
  save_embedded, embed_summarized, summarize_valuable, evaluate_valid, process_batch,
}
use tech_trends.Trends.Pipeline.Saving.{
  Adds, Adds-nothing, Adds-later, Adds-weaken, save_trends-Adds,
}

module _ (w : World) where
  pub IsQuiet-refl : (s : w.State) → IsQuiet w s s
  IsQuiet-refl s = record { same_rows = refl; later = le_refl _ }

  pub IsQuiet-trans : {s t u : w.State} → IsQuiet w s t → IsQuiet w t u → IsQuiet w s u
  IsQuiet-trans p q = record {
    same_rows = q.same_rows ∙ p.same_rows;
    later = le_trans p.later q.later;
  }

module _ (w : World) (laws : Laws w) (config : Config) (P : Article → Type 0) where
  fetch_from-IsQuiet :
      (ids : List Text) (m : DetailsMap) (s : w.State) → IsQuiet w s (fetch_from w config ids m s).1
  unfolding fetch_from
  fetch_from-IsQuiet [] m s = IsQuiet-refl w s
  fetch_from-IsQuiet (id ∷ ids) m s =
      IsQuiet-trans w (laws.get_article_details_quiet id s) (fetch_from-IsQuiet ids _ _)

  abbrev AllP : List SummarizedArticle → Type 0
  AllP = All (λ x. P x.article)

  -- One round: the table is left alone, and at most one summary is added, of this article.
  abbrev Round : w.State → List SummarizedArticle → List SummarizedArticle × w.State → Type 0
  Round s done o = IsQuiet w s o.1 × (length o.0 ≤ suc (length done)) × AllP o.0

  after_summary-Round :
      (a : Article) (d : ArticleDetails) (done : List SummarizedArticle) (s t : w.State)
      (r : Result Failure (Option FinalSummaryResult))
      → P a
      → AllP done
      → IsQuiet w s t
      → Round s done (after_summary w config a d done (r, t))
  unfolding after_summary
  after_summary-Round a d done s t (err e) p h q = (q, omega arith, h)
  after_summary-Round a d done s t (ok none) p h q = (q, omega arith, h)
  after_summary-Round a d done s t (ok (some x)) p h q = (
    IsQuiet-trans w q (laws.delay_quiet config.ai_delay_seconds t),
    omega
        (arith, length-append done (record { article = a; article_details = d; summary = x } ∷ [])),
    All-append _ done _ h (p, tt),
  )

  summarize_content-Round :
      (a : Article) (d : ArticleDetails) (content : Text) (done : List SummarizedArticle)
      (s : w.State)
      → P a
      → AllP done
      → Round s done (summarize_content w config a d content done s)
  unfolding summarize_content
  summarize_content-Round a d [] done s p h = (IsQuiet-refl w s, omega arith, h)
  summarize_content-Round a d (c ∷ cs) done s p h =
      after_summary-Round a d done s _ _ p h (laws.summarize_quiet a.title _ s)

  summarize_one-Round :
      (m : DetailsMap) (a : Article) (done : List SummarizedArticle) (s : w.State)
      → P a
      → AllP done
      → Round s done (summarize_one w config m a done s)
  unfolding summarize_one
  summarize_one-Round m a done s p h = elim (Option-cases (lookup a.id m)) [
    | inl e ↦ rw (e, summarize_one) (IsQuiet-refl w s, omega arith, h)
    | inr (d, e) ↦ rw (e, summarize_one) (summarize_content-Round a d d.content done s p h)
  ]

  -- The loop stops at the limit.
  summarize_from-Round :
      (m : DetailsMap) (limit : ℕ) (articles : List Article) (done : List SummarizedArticle)
      (s : w.State)
      → All P articles
      → AllP done
      → length done ≤ limit
      → IsQuiet w s (summarize_from w config m limit articles done s).1
        × (length (summarize_from w config m limit articles done s).0 ≤ limit)
        × AllP (summarize_from w config m limit articles done s).0
  unfolding summarize_from
  summarize_from-Round m limit [] done s ps h le = (IsQuiet-refl w s, le, h)
  summarize_from-Round m limit (a ∷ more) done s (p, ps) h le =
      elim (Bool-cases (leb limit (length done))) [
        | inl full ↦ rw full (IsQuiet-refl w s, le, h)
        | inr free ↦
            let (q, one_more, h') = summarize_one-Round m a done s p h in
            let (q', le', h'') = summarize_from-Round m limit more _ _ ps h' (ground arith) in
            rw free (IsQuiet-trans w q q', le', h'')
      ]

  All-with_vectors :
      (articles : List SummarizedArticle) (vectors : List Vector)
      → AllP articles
      → All (λ x. P x.article) (with_vectors articles vectors)
        × (length (with_vectors articles vectors) ≤ length articles)
  All-with_vectors [] vs h = (tt, omega arith)
  All-with_vectors (a ∷ rest) [] h = (tt, omega arith)
  All-with_vectors (a ∷ rest) (v ∷ vs) (p, h) =
      let (h', le) = All-with_vectors rest vs h in ((p, h'), omega arith)

  -- What a part of `processBatch` from state `s` on may do.
  abbrev Outcome : ℕ → w.State → Result Failure BatchResult × w.State → Type 0
  Outcome limit s o = Post (λ b t. Adds w P s t nothing b limit) (λ e t. IsQuiet w s t) o

  save_embedded-Outcome :
      (limit : ℕ) (items : List EmbeddedArticle) (s : w.State)
      → All (λ x. P x.article) items
      → length items ≤ limit
      → Outcome limit s (save_embedded w config items s)
  unfolding save_embedded
  save_embedded-Outcome limit [] s h le =
      Post-ok (Adds-nothing w P nothing limit (IsQuiet-refl w s))
  save_embedded-Outcome limit (x ∷ rest) s h le =
      Post-ok (Adds-weaken w P le (save_trends-Adds w laws config P (x ∷ rest) s h))

  Outcome-later :
      (limit : ℕ) (s t : w.State) (o : Result Failure BatchResult × w.State)
      → IsQuiet w s t
      → Outcome limit t o
      → Outcome limit s o
  Outcome-later limit s t o q x =
      Post-map x (λ b u y. Adds-later w P limit q y) (λ e u y. IsQuiet-trans w q y)

  -- After the embeddings: as many articles at most, and the table as it was.
  abbrev Embedded : ℕ → w.State → Result Failure (List EmbeddedArticle) × w.State → Type 0
  Embedded n s o =
      Post (λ items t. IsQuiet w s t × All (λ x. P x.article) items × (length items ≤ n))
        (λ e t. IsQuiet w s t) o

  matched-Embedded :
      (articles : List SummarizedArticle) (vectors : List Vector) (s t : w.State)
      → AllP articles
      → IsQuiet w s t
      → Embedded (length articles) s (matched w config articles vectors t)
  unfolding matched
  matched-Embedded articles vectors s t h q =
      let (h', le) = All-with_vectors articles vectors h in
      elim (Bool-cases (length articles == length vectors)) [
        | inl same ↦ rw same (Post-ok (q, h', le))
        | inr differ ↦ rw differ (Post-err q)
      ]

  generate-Embedded :
      (articles : List SummarizedArticle) (s : w.State)
      → AllP articles
      → Embedded (length articles) s (generate_embeddings_for_articles w config articles s)
  unfolding generate_embeddings_for_articles
  generate-Embedded [] s h = Post-ok (IsQuiet-refl w s, tt, omega arith)
  generate-Embedded (a ∷ rest) s h =
      let texts = map (λ (x : SummarizedArticle). build_embedding_text x.summary) (a ∷ rest) in
      Post->>= (w.vector_embedding_with_ai texts) (matched w config (a ∷ rest)) s
        (Post_always {Q = IsQuiet w s} (laws.embedding_quiet texts s))
        (λ vs t q. matched-Embedded (a ∷ rest) vs s t h q)

  embed_summarized-Outcome :
      (limit : ℕ) (articles : List SummarizedArticle) (s : w.State)
      → AllP articles
      → length articles ≤ limit
      → Outcome limit s (embed_summarized w config articles s)
  unfolding embed_summarized
  embed_summarized-Outcome limit [] s h le =
      Post-ok (Adds-nothing w P nothing limit (IsQuiet-refl w s))
  embed_summarized-Outcome limit (a ∷ rest) s h le =
      Post->>= (generate_embeddings_for_articles w config (a ∷ rest)) (save_embedded w config) s
        (generate-Embedded (a ∷ rest) s h)
        (λ items t k.
          Outcome-later limit s t _ k.0 (save_embedded-Outcome limit items t k.1 (le_trans k.2 le)))

  summarize_valuable-Outcome :
      (limit : ℕ) (m : DetailsMap) (articles : List Article) (s : w.State)
      → All P articles
      → Outcome limit s (summarize_valuable w config m limit articles s)
  unfolding summarize_valuable summarize_articles
  summarize_valuable-Outcome limit m [] s h =
      Post-ok (Adds-nothing w P nothing limit (IsQuiet-refl w s))
  summarize_valuable-Outcome limit m (a ∷ rest) s h =
      let (q, le, h') = summarize_from-Round m limit (a ∷ rest) [] s h tt (omega arith) in
      Outcome-later limit s _ _ q (embed_summarized-Outcome limit _ _ h' le)

  evaluate_valid-Outcome :
      (limit : ℕ) (m : DetailsMap) (articles : List Article) (s : w.State)
      → All P articles
      → Outcome limit s (evaluate_valid w config m limit articles s)
  unfolding evaluate_valid select_valuable_articles
  evaluate_valid-Outcome limit m [] s h =
      Post-ok (Adds-nothing w P nothing limit (IsQuiet-refl w s))
  evaluate_valid-Outcome limit m (a ∷ rest) s h =
      let items = map (to_item w config m) (a ∷ rest) in
      Post->>= (select_valuable_articles w config (a ∷ rest) m)
        (summarize_valuable w config m limit) s
        (Post->>= (w.filter_batch_with_ai items)
          (λ ids. pure (keep (λ x. contains x.id ids) (a ∷ rest))) s
          (Post_always {Q = IsQuiet w s} (laws.filter_quiet items s))
          (λ ids t q.
            Post-ok {Q = λ kept u. IsQuiet w s u × All P kept}
              (q, All-keep P (λ x. contains x.id ids) (a ∷ rest) h)))
        (λ kept t k. Outcome-later limit s t _ k.0 (summarize_valuable-Outcome limit m kept t k.1))

  -- Whatever the batch: a result reports exactly the rows appended, at most `limit`, each from one of
  -- its articles; a rejection leaves the table as it was.
  pub process_batch-Outcome :
      (batch : List Article) (limit : ℕ) (s : w.State)
      → All P batch
      → Outcome limit s (process_batch w config batch limit s)
  unfolding process_batch fetch_batch_details_map
  process_batch-Outcome batch limit s h =
      Outcome-later limit s _ _ (fetch_from-IsQuiet (map (λ a. a.id) batch) [] s)
        (evaluate_valid-Outcome limit _ _ _ (All-keep P _ batch h))
