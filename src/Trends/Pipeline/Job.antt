-- ===== src/Trends/Pipeline/Job.antt =====
-- One job, however it ends, and what is left to the target.
use native.Mathlib.Nat.{le_refl}
use tech_trends.Base.{
  ℕ, ◌+◌, ◌-◌, ◌≡◌, refl, ap, inl, inr, List, [], ◌∷◌, ◌++◌, arith, length, All, Result, ok, err,
  Action, Post, Post-ok, Post-err, Post-map, Post->>=, Option-cases, Bool-cases, leb, subst,
}
use tech_trends.Common.Chunk.{chunk_array, chunk_array-All}
use tech_trends.Trends.Data.{Article}
use tech_trends.Trends.World.{World, Laws, IsQuiet, Failure}
use tech_trends.Trends.Pipeline.Steps.{Config, BatchResult, nothing}
use tech_trends.Trends.Pipeline.{
  Stop, rejected, lift, add_batch, process_batch, process_batches, in_batches, process_new,
}
use tech_trends.Trends.Pipeline.Saving.{Adds, Adds-nothing, Adds-later, Adds-trans}
use tech_trends.Trends.Pipeline.Batches.{IsQuiet-refl, process_batch-Outcome}

pub lift-Post :
    {S A : Type 0} {Q : A → S → Type 0} {R : S → Type 0} (m : Action S Failure A) (s : S)
    → Post Q (λ _ t. R t) (m s)
    → Post Q (λ _ t. R t) (lift m s)
lift-Post {S} {A} {Q} {R} m s h = go (m s).0 (m s).1 h
  where
    go :
        (r : Result Failure A) (t : S)
        → Post Q (λ _ u. R u) (r, t)
        → Post Q (λ (_ : Stop) u. R u) (elim r [ ok a ↦ (ok a, t) | err e ↦ (err (rejected e), t) ])
    go (ok a) t p = Post-ok (p.on_ok a refl)
    go (err e) t p = Post-err (p.on_err e refl)

module _ (w : World) (laws : Laws w) (config : Config) (P : Article → Type 0) where
  -- The same rows, reported on top of an earlier total.
  add_batch-Adds :
      {s t : w.State} (total b : BatchResult) {most : ℕ}
      → Adds w P s t nothing b most
      → Adds w P s t total (add_batch total b) most
  add_batch-Adds total b x = record {
    new = x.new;
    grows = x.grows;
    saved_articles = ap (◌++◌ total.saved_articles) x.saved_articles;
    saved_count = omega (arith, x.saved_count);
    bounded = x.bounded;
  }

  -- From state `s` and an earlier total on: what a result reports was appended, and so was something
  -- within the same bound if the job ends otherwise.
  abbrev pub Within : ℕ → w.State → BatchResult → Result Stop BatchResult × w.State → Type 0
  Within most s total o =
      Post (λ total' t. Adds w P s t total total' most)
        (λ _ t. (total' : BatchResult) × Adds w P s t total total' most) o

  pub Within-later :
      {s t : w.State} {total : BatchResult} {o : Result Stop BatchResult × w.State} (most : ℕ)
      → IsQuiet w s t
      → Within most t total o
      → Within most s total o
  Within-later most q h =
      Post-map h (λ b u x. Adds-later w P most q x) (λ e u x. (x.0, Adds-later w P most q x.1))

  -- A further part that keeps to the quota left after `x`.
  Within-after :
      {s t : w.State} {total b : BatchResult} {o : Result Stop BatchResult × w.State}
      (target baseline : ℕ)
      → Adds w P s t nothing b (target - (baseline + total.saved_count))
      → Within (target - (baseline + (total.saved_count + b.saved_count))) t (add_batch total b) o
      → Within (target - (baseline + total.saved_count)) s total o
  Within-after {s} {t} {total} {b} target baseline x h =
      Post-map h (λ c u y. joined y) (λ e u y. (y.0, joined y.1))
    where
      exact : Adds w P s t total (add_batch total b) (length x.new)
      exact = record {
        new = x.new;
        grows = x.grows;
        saved_articles = ap (◌++◌ total.saved_articles) x.saved_articles;
        saved_count = omega (arith, x.saved_count);
        bounded = le_refl _;
      }

      joined :
          {c : BatchResult} {u : w.State}
          → Adds w P t u
              (add_batch total b)
              c
              (target - (baseline + (total.saved_count + b.saved_count)))
          → Adds w P s u total c (target - (baseline + total.saved_count))
      joined y = Adds-trans w P (length x.new) _ _ exact y (omega (arith, x.saved_count, x.bounded))

  process_batches-Within :
      (baseline : ℕ) (batches : List (List Article)) (total : BatchResult) (s : w.State)
      → All (All P) batches
      → Within
          (config.target_save_count - (baseline + total.saved_count))
          s
          total
          (process_batches w config baseline batches total s)
  unfolding process_batches
  process_batches-Within baseline [] total s h =
      Post-ok (Adds-nothing w P total _ (IsQuiet-refl w s))
  process_batches-Within baseline (batch ∷ batches) total s (p, ps) =
      elim (Bool-cases (leb config.target_save_count (baseline + total.saved_count))) [
        | inl reached ↦ rw reached (Post-ok (Adds-nothing w P total _ (IsQuiet-refl w s)))
        | inr below ↦ rw below (
            Post->>= (lift (process_batch w config batch quota))
              (λ result. process_batches w config baseline batches (add_batch total result)) s
              (lift-Post {R = λ t. (c : BatchResult) × Adds w P s t total c quota}
                (process_batch w config batch quota) s
                (Post-map (process_batch-Outcome w laws config P batch quota s p) (λ b t x. x)
                  (λ e t q. (total, Adds-nothing w P total quota q))))
              (λ b t x.
                Within-after config.target_save_count baseline x
                  (process_batches-Within baseline batches (add_batch total b) t ps)))
      ]
    where
      quota : ℕ
      quota = config.target_save_count - (baseline + total.saved_count)

  in_batches-Within :
      (baseline : ℕ) (articles : List Article) (s : w.State)
      → All P articles
      → Within
          (config.target_save_count - baseline)
          s
          nothing
          (in_batches w config baseline articles s)
  unfolding in_batches
  in_batches-Within baseline articles s h =
      elim (Option-cases (chunk_array articles config.batch_size)) [
        | inl endless ↦
            rw (endless, in_batches)
              (Post-err (nothing, Adds-nothing w P nothing _ (IsQuiet-refl w s)))
        | inr (batches, e) ↦
            rw (e, in_batches)
              (subst
                (λ n.
                  Within (config.target_save_count - n) s nothing
                    (process_batches w config baseline batches nothing s))
                (let e' : baseline + 0 ≡ baseline = omega arith in e')
                (process_batches-Within baseline batches nothing s
                  (chunk_array-All P articles config.batch_size batches h e)))
      ]

  pub process_new-Within :
      (baseline : ℕ) (articles : List Article) (s : w.State)
      → All P articles
      → Within
          (config.target_save_count - baseline)
          s
          nothing
          (process_new w config baseline articles s)
  unfolding process_new
  process_new-Within baseline [] s h = Post-ok (Adds-nothing w P nothing _ (IsQuiet-refl w s))
  process_new-Within baseline (a ∷ rest) s h = in_batches-Within baseline (a ∷ rest) s h
