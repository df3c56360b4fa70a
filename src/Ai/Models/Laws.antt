-- ===== src/Ai/Models/Laws.antt =====
-- What the embedding of texts returns.
use tech_trends.Base.{
  suc, ◌<◌, ◌≡◌, refl, sym, ap, ◌∙◌, inl, inr, List, [], ◌∷◌, Option, none, some, map, arith,
  length, Text, subst, Result-cases, ok, ok_injective, err-ne-ok,
}
use tech_trends.Trends.Data.{Vector}
use tech_trends.Ai.Retry.{ApiError, Floats}
use tech_trends.Ai.Retry.Laws.{Failed, execute_with_retry_lem}
use tech_trends.Ai.Models.{Models, max_retries, or_no_values, embed, vector_embedding_with_ai}

module _ (floats : Floats) {S : Type 0} (models : Models S) where
  -- What the operation returns is what the model gave, at least one embedding.
  embed-ok :
      (texts : List Text) (s : S) (es : List (Option Vector))
      → (embed floats models texts s).0 ≡ ok es
      → ((models.embed_content texts s).0 ≡ ok (some es)) × (0 < length es)
  unfolding embed
  embed-ok texts s es h = elim (Result-cases (models.embed_content texts s).0) [
    | inr (x, bad) ↦ absurd (err-ne-ok (rw (bad, embed) at h))
    | inl (none, good) ↦ absurd (err-ne-ok (rw (good, embed) at h))
    | inl (some [], good) ↦ absurd (err-ne-ok (rw (good, embed) at h))
    | inl (some (e ∷ rest), good) ↦
        let same = ok_injective (rw (good, embed) at h) in
        (good ∙ ap (λ l. ok (some l)) same, subst (λ l. 0 < length l) same (omega arith))
  ]

  -- Vectors that are returned for some texts are those of one answer of the model, in its order, at
  -- least one; the attempts before it, at most two, failed with errors that another may mend.
  pub vector_embedding_with_ai_lem :
      (text : Text) (texts : List Text) (s : S) (vectors : List Vector)
      → (vector_embedding_with_ai floats models (text ∷ texts) s).0 ≡ ok vectors
      → (errors : List ApiError) × (t : S) × (es : List (Option Vector)) × Failed floats
          (embed floats models (text ∷ texts))
          models.sleep
          max_retries
          3000
          1
          errors
          s
          t
        × (length errors < max_retries)
        × ((models.embed_content (text ∷ texts) t).0 ≡ ok (some es))
        × (vectors ≡ map or_no_values es)
        × (0 < length vectors)
  unfolding vector_embedding_with_ai
  vector_embedding_with_ai_lem text texts s vectors h =
      let operation = embed floats models (text ∷ texts) in
      let (errors, t, failed, bound, (state, last)) =
        execute_with_retry_lem floats operation models.sleep max_retries 3000 s (omega arith) in
      elim last [
        | inr (x, bad, thrown_x, why) ↦
            absurd (err-ne-ok (rw (thrown_x, vector_embedding_with_ai) at h))
        | inl (es, good, out) ↦
            let (answer, some_es) = embed-ok (text ∷ texts) t es good in
            let same = sym (ok_injective (rw (out, vector_embedding_with_ai) at h)) in
            (
              errors,
              t,
              es,
              failed,
              bound,
              answer,
              same,
              subst (λ l. 0 < length l) (sym same) (omega (arith, some_es, length-map_values es)),
            )
      ]
    where
      length-map_values :
          (es : List (Option Vector)) → length {A = Vector} (map or_no_values es) ≡ length es
      length-map_values [] = refl
      length-map_values (e ∷ es) = ap suc (length-map_values es)
