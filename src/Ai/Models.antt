-- ===== src/Ai/Models.antt =====
-- `filterBatchWithAi` and `vectorEmbeddingWithAi`: what is sent to a model, and what is read of its
-- answer, inside the retries.
pub mod Laws
use tech_trends.Base.{
  ℕ, List, [], ◌∷◌, Option, none, some, map, Text, units, Result, ok, err, Action,
}
use tech_trends.Trends.Data.{BatchEvaluationItem, Vector}
use tech_trends.Ai.Retry.{ApiError, Floats, RetryFailure, execute_with_retry}

-- An `Error` with a message alone.
abbrev pub plain_error : Text → ApiError
plain_error message = record {
  status = none;
  response_status = none;
  status_code = none;
  message = some message;
  error_message = none;
  headers = none;
  response_headers = none;
  error_headers = none;
}

-- The clients of the models: the content of the first choice of an answer, if there is one; and the
-- embeddings of an answer, each with its values, if there are any.
pub record Models (S : Type 0) : Type 0 where
  pub complete : Text → Action S ApiError (Option Text)
  pub embed_content : List Text → Action S ApiError (Option (List (Option Vector)))
  pub sleep : ℕ → S → S
  pub build_filter_batch_prompt : List BatchEvaluationItem → Text
  -- `JSON.parse` of an evaluation, with its `valuable_ids`, or the message of its error.
  pub parse_evaluation : Text → Result Text (Option (List Text))

abbrev pub max_retries : ℕ
max_retries = 3

abbrev pub or_no_ids : Option (List Text) → List Text
or_no_ids none = []
or_no_ids (some ids) = ids

abbrev pub or_no_values : Option Vector → Vector
or_no_values none = []
or_no_values (some v) = v

module _ (floats : Floats) {S : Type 0} (models : Models S) where
  abbrev pub read_evaluation :
      Result Text (Option (List Text)) → Result ApiError (Option (List Text))
  read_evaluation (ok ids) = ok ids
  read_evaluation (err message) = err (plain_error message)

  abbrev pub read_content : Option Text → Result ApiError (Option (List Text))
  read_content none = err (plain_error (units "AI 응답이 비어 있습니다."))
  read_content (some []) = err (plain_error (units "AI 응답이 비어 있습니다."))
  read_content (some (c ∷ raw)) = read_evaluation (models.parse_evaluation (c ∷ raw))

  -- The `operation` of the evaluation.
  unfoldable pub evaluate : Text → Action S ApiError (Option (List Text))
  evaluate prompt s =
      let (response, t) = models.complete prompt s in
      elim response [ ok content ↦ (read_content content, t) | err error ↦ (err error, t) ]

  unfoldable pub filter_batch_with_ai : List BatchEvaluationItem → Action S RetryFailure (List Text)
  unfolding evaluate execute_with_retry
  filter_batch_with_ai items s =
      let (parsed, t) =
        execute_with_retry floats (evaluate (models.build_filter_batch_prompt items)) models.sleep
          max_retries 2000 s in
      elim parsed [ ok ids ↦ (ok (or_no_ids ids), t) | err failure ↦ (err failure, t) ]

  abbrev pub read_embeddings :
      Option (List (Option Vector)) → Result ApiError (List (Option Vector))
  read_embeddings none = err (plain_error (units "임베딩 결과가 비어 있습니다."))
  read_embeddings (some []) = err (plain_error (units "임베딩 결과가 비어 있습니다."))
  read_embeddings (some (e ∷ embeddings)) = ok (e ∷ embeddings)

  -- The `operation` of the embedding.
  unfoldable pub embed : List Text → Action S ApiError (List (Option Vector))
  embed texts s =
      let (response, t) = models.embed_content texts s in
      elim response [ ok answer ↦ (read_embeddings answer, t) | err error ↦ (err error, t) ]

  unfoldable pub vector_embedding_with_ai : List Text → Action S RetryFailure (List Vector)
  unfolding embed execute_with_retry
  vector_embedding_with_ai [] s = (ok [], s)
  vector_embedding_with_ai (text ∷ texts) s =
      let (embeddings, t) =
        execute_with_retry floats (embed (text ∷ texts)) models.sleep max_retries 3000 s in
      elim embeddings [ ok es ↦ (ok (map or_no_values es), t) | err failure ↦ (err failure, t) ]
