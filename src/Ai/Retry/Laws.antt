-- ===== src/Ai/Retry/Laws.antt =====
-- The attempts of a call with retries, and the end of the last one.
use tech_trends.Base.{
  ℕ, zero, suc, ◌+◌, ◌-◌, ◌≤◌, ◌<◌, ◌≡◌, refl, ◌⊎◌, inl, inr, true, false, List, [], ◌∷◌, arith,
  ◌==◌, Bool-cases, Result-cases, length, subst, Result, ok, err, Action,
}
use tech_trends.Ai.Retry.{
  ApiError, Floats, RetryFailure, thrown, is_structural_overflow, is_non_retryable, delay_ms,
  attempt_from, execute_with_retry,
}

-- An error that another attempt may mend.
abbrev pub IsTransient : ApiError → Type 0
IsTransient error = (is_structural_overflow error ≡ false) × (is_non_retryable error ≡ false)

abbrev pub IsPermanent : ApiError → Type 0
IsPermanent error = (is_structural_overflow error ≡ true) ⊎ (is_non_retryable error ≡ true)

module _ (floats : Floats) {S A : Type 0} (operation : Action S ApiError A) (sleep : ℕ → S → S)
    (max_retries base_delay_ms : ℕ) where
  -- Attempts from number `k` on that failed with these errors, each followed by its wait.
  pub data Failed : ℕ → List ApiError → S → S → Type 0 where
    none_yet : {k : ℕ} {s : S} → Failed k [] s s
    again :
        {k : ℕ} {error : ApiError} {errors : List ApiError} {s t : S}
        → (operation s).0 ≡ err error
        → IsTransient error
        → Failed (k + 1) errors (sleep (delay_ms floats base_delay_ms error k) (operation s).1) t
        → Failed k (error ∷ errors) s t

  -- The outcome of the last attempt, made in state `t` after `n` that failed.
  abbrev pub Last : ℕ → S → Result RetryFailure A × S → Type 0
  Last n t o =
      (o.1 ≡ (operation t).1)
      × (((a : A) × ((operation t).0 ≡ ok a) × (o.0 ≡ ok a))
          ⊎ ((error : ApiError) × ((operation t).0 ≡ err error)
              × (o.0 ≡ err (thrown error))
              × (IsPermanent error ⊎ (n + 1 ≡ max_retries))))

  Last-same : {m n : ℕ} {t : S} {o : Result RetryFailure A × S} → m ≡ n → Last m t o → Last n t o
  Last-same {t} {o} e = subst (λ n. Last n t o) e

  -- The outcome of the loop from attempt `k` on.
  abbrev Ends : ℕ → S → Result RetryFailure A × S → Type 0
  Ends k s o =
      (errors : List ApiError) × (t : S) × Failed k errors s t
      × (k + length errors ≤ max_retries)
      × Last (k - 1 + length errors) t o

  attempt_from-Ends :
      (left k : ℕ) (s : S)
      → 0 < k
      → 0 < left
      → k + left ≡ suc max_retries
      → Ends k s (attempt_from floats operation sleep max_retries base_delay_ms left k s)
  unfolding attempt_from
  attempt_from-Ends zero k s pos some_left e = absurd (omega arith)
  attempt_from-Ends (suc left) k s pos some_left e = elim (Result-cases (operation s).0) [
    | inl (a, good) ↦
        rw (good, attempt_from) ([], s, none_yet, omega arith, (refl, inl (a, good, refl)))
    | inr (error, bad) ↦ elim (Bool-cases (is_structural_overflow error)) [
      | inl overflow ↦
          rw (bad, overflow, attempt_from)
            ([], s, none_yet, omega arith, (refl, inr (error, bad, refl, inl (inl overflow))))
      | inr fits ↦ elim (Bool-cases (is_non_retryable error)) [
        | inl permanent ↦
            rw (bad, fits, permanent, attempt_from)
              ([], s, none_yet, omega arith, (refl, inr (error, bad, refl, inl (inr permanent))))
        | inr transient ↦ elim (Bool-cases (k == max_retries)) [
          | inl last ↦
              rw (bad, fits, transient, last, attempt_from)
                ([], s, none_yet, omega arith, (refl, inr (error, bad, refl, inr (ground arith))))
          | inr more ↦
              let (errors, t, failed, bound, final) =
                attempt_from-Ends left (k + 1)
                  (sleep (delay_ms floats base_delay_ms error k) (operation s).1) (omega arith)
                  (ground arith) (omega arith) in
              rw (bad, fits, transient, more, attempt_from)
                (
                  error ∷ errors,
                  t,
                  again bad (fits, transient) failed,
                  omega arith,
                  Last-same (omega arith) final,
                )
        ]
      ]
    ]
  ]

  -- With at least one attempt allowed: some attempts fail with errors that another may mend, each
  -- followed by the wait for its number; one more is made, and its outcome, with its state, is that
  -- of the call. It is at most attempt `max_retries`, and where it fails its error is permanent or
  -- it was the last one allowed. The error after the loop is never thrown.
  pub execute_with_retry_lem :
      (s : S)
      → 0 < max_retries
      → (errors : List ApiError) × (t : S) × Failed 1 errors s t
        × (length errors < max_retries)
        × Last
            (length errors)
            t
            (execute_with_retry floats operation sleep max_retries base_delay_ms s)
  unfolding execute_with_retry
  execute_with_retry_lem s pos =
      let (errors, t, failed, bound, final) =
        attempt_from-Ends max_retries 1 s (omega arith) pos (omega arith) in
      (errors, t, failed, omega arith, Last-same (omega arith) final)
