-- ===== src/Ai/Retry.antt =====
-- `executeWithRetry` and `extractRetryAfterMs`.
pub mod Laws
use tech_trends.Base.{
  ℕ, zero, suc, ◌+◌, ◌-◌, ◌*◌, ◌^◌, Bool, true, false, not, ◌&&◌, List, [], ◌∷◌, Option, none, some,
  ltb, leb, ◌==◌, if◌then◌else◌, Text, units, Result, ok, err, Action, starts_with, includes,
}

-- The headers of a response, by name.
abbrev pub Headers : Type 0
Headers = Text → Option Text

-- The fields that are read of what a call throws.
pub record ApiError : Type 0 where
  pub status : Option ℕ
  pub response_status : Option ℕ
  pub status_code : Option ℕ
  pub message : Option Text
  pub error_message : Option Text
  pub headers : Option Headers
  pub response_headers : Option Headers
  pub error_headers : Option Headers

-- `a || b` on numbers, and `a ?? b`.
abbrev pub or_else : Option ℕ → Option ℕ → Option ℕ
or_else none b = b
or_else (some zero) b = b
or_else (some (suc n)) b = some (suc n)

abbrev pub or_default {ℓ} : {A : Type ℓ} → Option A → Option A → Option A
or_default none b = b
or_default (some a) b = some a

abbrev pub or_no_text : Option Text → Text
or_no_text none = []
or_no_text (some s) = s

abbrev pub status_of : ApiError → Option ℕ
status_of error = or_else error.status (or_else error.response_status error.status_code)

abbrev pub message_of : ApiError → Text
message_of error = or_no_text (or_default error.message error.error_message)

abbrev pub is_429 : Option ℕ → Bool
is_429 none = false
is_429 (some n) = n == 429

abbrev pub is_structural_overflow : ApiError → Bool
is_structural_overflow error =
    is_429 (status_of error) && includes (message_of error) (units "Request too large")

abbrev pub is_client_error : Option ℕ → Bool
is_client_error none = false
is_client_error (some n) = not (n == 0) && leb 400 n && ltb n 500 && not (n == 429)

abbrev pub is_non_retryable : ApiError → Bool
is_non_retryable error = is_client_error (status_of error)

-- `parseFloat`, and what is asked of the number.
pub record Floats : Type 1 where
  pub Float : Type 0
  pub parse_float : Text → Float
  pub is_nan : Float → Bool
  pub is_positive : Float → Bool
  -- `Math.ceil(x * 1000)`
  pub ceil_ms : Float → ℕ

module _ (floats : Floats) where
  -- A header that is there, is not empty, and holds a positive number of seconds.
  unfoldable pub header_ms : Option Text → Option ℕ
  header_ms none = none
  header_ms (some []) = none
  header_ms (some (c ∷ s)) =
      let seconds = floats.parse_float (c ∷ s) in
      if not (floats.is_nan seconds) && floats.is_positive seconds
      then some (floats.ceil_ms seconds)
      else none

  unfoldable pub headers_ms : Option Headers → Option ℕ
  unfolding header_ms
  headers_ms none = none
  headers_ms (some get) =
      or_default (header_ms (get (units "retry-after")))
        (header_ms (get (units "x-ratelimit-reset-tokens")))

  unfoldable pub extract_retry_after_ms : ApiError → Option ℕ
  unfolding headers_ms
  extract_retry_after_ms error =
      headers_ms (or_default error.headers (or_default error.response_headers error.error_headers))

  -- The wait before the next attempt.
  unfoldable pub delay_ms : ℕ → ApiError → ℕ → ℕ
  unfolding extract_retry_after_ms
  delay_ms base_delay_ms error attempt =
      let fallback_delay =
        base_delay_ms * (if is_429 (status_of error) then 3 else 2) ^ (attempt - 1) in
      elim (extract_retry_after_ms error) [
        | none ↦ fallback_delay
        | some ms ↦ if ltb 0 ms then ms else fallback_delay
      ]

-- What is thrown: the error of the last attempt, or the error after the loop.
pub data RetryFailure : Type 0 where
  thrown : ApiError → RetryFailure
  unreachable_code : RetryFailure

module _ (floats : Floats) {S A : Type 0} (operation : Action S ApiError A) (sleep : ℕ → S → S)
    (max_retries base_delay_ms : ℕ) where
  -- The loop with `left` attempts to go, number `attempt` being the next.
  unfoldable pub attempt_from : ℕ → ℕ → Action S RetryFailure A
  unfolding delay_ms
  attempt_from zero attempt s = (err unreachable_code, s)
  attempt_from (suc left) attempt s =
      let (result, t) = operation s in
      elim result [
        | ok a ↦ (ok a, t)
        | err error ↦
            let again =
              attempt_from left (attempt + 1)
                (sleep (delay_ms floats base_delay_ms error attempt) t) in
            if is_structural_overflow error
            then (err (thrown error), t)
            else if is_non_retryable error
            then (err (thrown error), t)
            else if attempt == max_retries
            then (err (thrown error), t)
            else again
      ]

  unfoldable pub execute_with_retry : Action S RetryFailure A
  unfolding attempt_from
  execute_with_retry s = attempt_from max_retries 1 s
