-- ===== src/Trends/Worker/Calm.antt =====
-- What calls do to the table, up to the calls of the sites and of the models.
use tech_trends.Base.{
  ℕ, zero, suc, ◌+◌, ◌≡◌, sym, subst, Bool, true, false, List, [], ◌∷◌, Option, none, some,
  if◌then◌else◌, Text, Result, Result-cases, inl, inr, ◌==◌, ok, err, Action, pure, ◌>>=◌,
}
use tech_trends.Common.Text.Matchers.{trim}
use tech_trends.Trends.Data.{BatchEvaluationItem}
use tech_trends.Trends.World.{Failure}
use tech_trends.Ai.Retry.{
  ApiError, Floats, RetryFailure, thrown, is_structural_overflow, is_non_retryable, delay_ms,
  attempt_from, execute_with_retry,
}
use tech_trends.Ai.Models.{
  Models, max_retries, evaluate, embed, filter_batch_with_ai, vector_embedding_with_ai,
}
use tech_trends.Ai.Prompts.{build_summarize_content_prompt}
use tech_trends.Ai.Summary.{ParsedSummary, summarize, summarize_content_with_ai}
use tech_trends.Trends.Scrapers.{or_blank, from_result, map_results}
use tech_trends.Trends.Scrapers.DevTo
use tech_trends.Trends.Scrapers.GeekNews
use tech_trends.Trends.Scrapers.StackOverflow
use tech_trends.Trends.Scrapers.Site.{
  Site, dev_to, geek_news, stack_overflow, get_articles, get_article_details,
}

-- `_⇝_` relates the states before and after a call that leaves the table alone.
module _ {S : Type 0} (Later : S → S → Type 0) (stays : (s : S) → Later s s)
    (joins : (s t u : S) → Later s t → Later t u → Later s u) where
  abbrev pub IsCalm : {E A : Type 0} → Action S E A → Type 0
  IsCalm m = (s : S) → Later s (m s).1

  IsCalm->>= :
      {E A B : Type 0} (m : Action S E A) (f : A → Action S E B)
      → IsCalm m
      → ((a : A) → IsCalm (f a))
      → IsCalm (m >>= f)
  IsCalm->>= {E} {A} m f calm each s = go (m s).0 (m s).1 (calm s)
    where
      go : (r : Result E A) (t : S) → Later s t → Later s (((λ (x : S). (r, t)) >>= f) s).1
      go (ok a) t h = joins s t _ h (each a t)
      go (err e) t h = h

  -- The calls of a site.
  abbrev pub IsCalmSite : Site S → Type 0
  IsCalmSite (dev_to list read) = IsCalm list × ((id : Text) → IsCalm (read id))
  IsCalmSite (geek_news parse iso read topic body delay) =
      IsCalm parse × ((id : Text) → IsCalm (read id)) × ((s : S) → Later s (delay s))
  IsCalmSite (stack_overflow list iso read answers) =
      IsCalm list × ((id : Text) → IsCalm (read id)) × ((id : Text) → IsCalm (answers id))

  pub get_articles-IsCalm : (site : Site S) → IsCalmSite site → IsCalm (get_articles site)
  unfolding DevTo.get_articles GeekNews.get_articles StackOverflow.get_articles
  get_articles-IsCalm (dev_to list read) (h, _) =
      IsCalm->>= list (λ body. pure (DevTo.articles_of body)) h (λ a s. stays s)
  get_articles-IsCalm (geek_news parse iso read topic body delay) (h, _, _) =
      IsCalm->>= parse (λ items. from_result (map_results (GeekNews.to_article iso) items)) h
        (λ a s. stays s)
  get_articles-IsCalm (stack_overflow list iso read answers) (h, _, _) =
      IsCalm->>= list (λ body. from_result (StackOverflow.articles_of iso body)) h (λ a s. stays s)

  with_answers-IsCalm :
      (answers : Text → Action S Failure (Option (List StackOverflow.QuestionAnswer))) (id : Text)
      (question : StackOverflow.Question) (body : Text)
      → ((id : Text) → IsCalm (answers id))
      → IsCalm (StackOverflow.with_answers answers id question body)
  with_answers-IsCalm answers id question [] h s = stays s
  with_answers-IsCalm answers id question (c ∷ body) h s = h id s

  details_of-IsCalm :
      (answers : Text → Action S Failure (Option (List StackOverflow.QuestionAnswer))) (id : Text)
      (question : Option StackOverflow.Question)
      → ((id : Text) → IsCalm (answers id))
      → IsCalm (StackOverflow.details_of answers id question)
  details_of-IsCalm answers id none h s = stays s
  details_of-IsCalm answers id (some question) h s =
      with_answers-IsCalm answers id question (trim (or_blank question.body)) h s

  pub get_article_details-IsCalm :
      (site : Site S) (id : Text) → IsCalmSite site → IsCalm (get_article_details site id)
  unfolding DevTo.get_article_details GeekNews.get_article_details StackOverflow.get_article_details
  get_article_details-IsCalm (dev_to list read) id (_, h) s =
      IsCalm->>= (read id) (λ a. pure (DevTo.details_of a)) (h id) (λ a t. stays t) s
  get_article_details-IsCalm (geek_news parse iso read topic body delay) id (_, h, d) s =
      joins s (delay s) _ (d s) (
        IsCalm->>= (read id) (λ a. pure (GeekNews.details_of topic body a)) (h id) (λ a t. stays t)
          (delay s))
  get_article_details-IsCalm (stack_overflow list iso read answers) id (_, h, k) s =
      IsCalm->>= (read id) (StackOverflow.details_of answers id) (h id)
        (λ q. details_of-IsCalm answers id q k) s

  either-Later :
      {E A : Type 0} (s : S) (b : Bool) (x y : Result E A × S)
      → Later s x.1
      → Later s y.1
      → Later s (if b then x else y).1
  either-Later s true x y h k = h
  either-Later s false x y h k = k

  module _ (floats : Floats) (sleep : ℕ → S → S)
      (wakes : (n : ℕ) (s : S) → Later s (sleep n s)) where
    attempt_from-IsCalm :
        {A : Type 0} (operation : Action S ApiError A) (max_retries base left attempt : ℕ)
        → IsCalm operation
        → IsCalm (attempt_from floats operation sleep max_retries base left attempt)
    unfolding attempt_from
    attempt_from-IsCalm operation max_retries base zero attempt h s = stays s
    attempt_from-IsCalm {A} operation max_retries base (suc left) attempt h s =
        elim (Result-cases (operation s).0) [
          | inl (a, e) ↦ rw (e, attempt_from) (h s)
          | inr (error, e) ↦
              let t = (operation s).1 in
              let u = sleep (delay_ms floats base error attempt) t in
              let again =
                attempt_from floats operation sleep max_retries base left (attempt + 1) u in
              rw (e, attempt_from)
                (either-Later s (is_structural_overflow error) (err (thrown error), t) _ (h s)
                  (either-Later s (is_non_retryable error) (err (thrown error), t) _ (h s)
                    (either-Later s (attempt == max_retries) (err (thrown error), t) again (h s)
                      (joins s t _ (h s) (
                        joins t u _ (wakes _ t) (
                          attempt_from-IsCalm operation max_retries base left (attempt + 1) h
                            u))))))
        ]

    -- A call whose answer is only read.
    read-IsCalm :
        {E A B : Type 0} (m : Action S E A) (f : Action S E B)
        → IsCalm m
        → ((s : S) → (f s).1 ≡ (m s).1)
        → IsCalm f
    read-IsCalm m f h same s = subst (Later s) (sym (same s)) (h s)

    abbrev pub retried : {A : Type 0} → Action S ApiError A → ℕ → Action S RetryFailure A
    retried operation base = execute_with_retry floats operation sleep max_retries base

    retried-IsCalm :
        {A : Type 0} (operation : Action S ApiError A) (base : ℕ)
        → IsCalm operation
        → IsCalm (retried operation base)
    unfolding execute_with_retry
    retried-IsCalm operation base h = attempt_from-IsCalm operation max_retries base max_retries 1 h

  module _ (floats : Floats) (models : Models S)
      (wakes : (n : ℕ) (s : S) → Later s (models.sleep n s))
      (completes : (prompt : Text) → IsCalm (models.complete prompt))
      (embeds : (texts : List Text) → IsCalm (models.embed_content texts)) where
    -- An operation on a call of a model, inside its retries.
    over_retries :
        {A B : Type 0} (m : Action S ApiError A) (operation : Action S ApiError B) (base : ℕ)
        → IsCalm m
        → ((s : S) → (operation s).1 ≡ (m s).1)
        → IsCalm (retried floats models.sleep wakes operation base)
    over_retries m operation base h same =
        retried-IsCalm floats models.sleep wakes operation base
          (read-IsCalm floats models.sleep wakes m operation h same)

    pub filter_batch_with_ai-IsCalm :
        (items : List BatchEvaluationItem) → IsCalm (filter_batch_with_ai floats models items)
    unfolding filter_batch_with_ai
    filter_batch_with_ai-IsCalm items s =
        let operation = evaluate floats models prompt in
        let calm = over_retries (models.complete prompt) operation 2000 (completes prompt) same s in
        elim (Result-cases
          (execute_with_retry floats operation models.sleep max_retries 2000 s).0) [
            | inl (a, e) ↦ rw (e, filter_batch_with_ai) calm
            | inr (x, e) ↦ rw (e, filter_batch_with_ai) calm
          ]
      where
        prompt : Text
        prompt = models.build_filter_batch_prompt items

        same : (t : S) → (evaluate floats models prompt t).1 ≡ (models.complete prompt t).1
        same t = elim (Result-cases (models.complete prompt t).0) [
          | inl (a, e) ↦ rw (e, evaluate)
          | inr (x, e) ↦ rw (e, evaluate)
        ]

    pub summarize_content_with_ai-IsCalm :
        (parse_summary : Text → Result Text ParsedSummary) (title content : Text)
        → IsCalm (
            summarize_content_with_ai floats models.complete models.sleep parse_summary title
              content)
    unfolding summarize_content_with_ai
    summarize_content_with_ai-IsCalm parse_summary title content s =
        let operation = summarize floats models.complete models.sleep parse_summary prompt in
        let calm = over_retries (models.complete prompt) operation 2000 (completes prompt) same s in
        elim (Result-cases
          (execute_with_retry floats operation models.sleep max_retries 2000 s).0) [
            | inl (a, e) ↦ rw (e, summarize_content_with_ai) calm
            | inr (x, e) ↦ rw (e, summarize_content_with_ai) calm
          ]
      where
        prompt : Text
        prompt = build_summarize_content_prompt title content

        same :
            (t : S)
            → (summarize floats models.complete models.sleep parse_summary prompt t).1
              ≡ (models.complete prompt t).1
        same t = elim (Result-cases (models.complete prompt t).0) [
          | inl (a, e) ↦ rw (e, summarize)
          | inr (x, e) ↦ rw (e, summarize)
        ]

    pub vector_embedding_with_ai-IsCalm :
        (texts : List Text) → IsCalm (vector_embedding_with_ai floats models texts)
    unfolding vector_embedding_with_ai
    vector_embedding_with_ai-IsCalm [] s = stays s
    vector_embedding_with_ai-IsCalm (text ∷ texts) s =
        let operation = embed floats models (text ∷ texts) in
        let calm =
          over_retries (models.embed_content (text ∷ texts)) operation 3000 (embeds (text ∷ texts))
            same s in
        elim (Result-cases
          (execute_with_retry floats operation models.sleep max_retries 3000 s).0) [
            | inl (a, e) ↦ rw (e, vector_embedding_with_ai) calm
            | inr (x, e) ↦ rw (e, vector_embedding_with_ai) calm
          ]
      where
        same :
            (t : S)
            → (embed floats models (text ∷ texts) t).1 ≡ (models.embed_content (text ∷ texts) t).1
        same t = elim (Result-cases (models.embed_content (text ∷ texts) t).0) [
          | inl (a, e) ↦ rw (e, embed)
          | inr (x, e) ↦ rw (e, embed)
        ]
