-- ===== src/Manager/Retry.antt =====
-- synckit/manager.go, `syncWithRetry` and `nextDelay`, and `IsRetryable` of errors/errors.go. An
-- operation acts on a state; where the context is done while it waits is an argument. The product of
-- the floating-point multiplier, converted to a duration, is an argument too.
use go_sync_kit.Base.{
  ℕ, zero, suc, ◌+◌, ◌-◌, ◌<◌, String, Option, none, some, Bool, true, false, ltb, if◌then◌else◌,
  if_both_known, subst, ◌≡◌, refl, arith,
}
use go_sync_kit.Base.Int.{ℤ, pos, negsuc}

-- An error and what it wraps: a `*SyncError`, with its `Retryable`, or another.
pub data WrappedError : Type 0 where
  other_error : String → WrappedError
  wrapping_error : String → WrappedError → WrappedError
  sync_error : Bool → WrappedError

-- `IsRetryable`, by the first `*SyncError` of the chain.
pub is_retryable : WrappedError → Bool
is_retryable (other_error message) = false
is_retryable (wrapping_error message cause) = is_retryable cause
is_retryable (sync_error retryable) = retryable

-- `nextDelay`, for an attempt that is not negative.
abbrev pub next_delay : (ℕ → ℕ) → ℕ → ℕ → ℕ
next_delay scaled max_delay attempt =
    if ltb max_delay (scaled attempt) then max_delay else scaled attempt

pub data RetryError : Type 0 where
  operation_failed : WrappedError → RetryError
  retry_canceled : RetryError

module _ {S : Type 0} (operation : S → S × Option WrappedError) (done_waiting : ℕ → Bool) where
  -- After an execution: nil, an error that is not retryable, or the rest of the loop.
  abbrev pub after_attempt :
      S × Option WrappedError → (WrappedError → S → S × Option RetryError) → S × Option RetryError
  after_attempt (s, none) next = (s, none)
  after_attempt (s, some e) next =
      if is_retryable e then next e s else (s, some (operation_failed e))

  -- The loop from an attempt on, with the number of attempts that are left and the last error.
  unfoldable pub retry_loop : ℕ → ℕ → WrappedError → S → S × Option RetryError
  retry_loop zero attempt last s = (s, some (operation_failed last))
  retry_loop (suc left) attempt last s =
      let tried = after_attempt (operation s) (λ e s'. retry_loop left (attempt + 1) e s') in
      if done_waiting attempt then (s, some retry_canceled) else tried

  -- How many attempts follow the first.
  abbrev pub further_attempts : ℤ → ℕ
  further_attempts (pos n) = n - 1
  further_attempts (negsuc n) = 0

  abbrev pub once : S × Option WrappedError → S × Option RetryError
  once (s, none) = (s, none)
  once (s, some e) = (s, some (operation_failed e))

  -- `syncWithRetry`; the configuration is `MaxAttempts`, or none.
  unfoldable pub sync_with_retry : Option ℤ → S → S × Option RetryError
  unfolding retry_loop is_retryable
  sync_with_retry none s = once (operation s)
  sync_with_retry (some max_attempts) s =
      after_attempt (operation s) (λ e s'. retry_loop (further_attempts max_attempts) 1 e s')

  -- So many executions from a state on, all failing with a retryable error; where they lead, and the
  -- last error.
  pub data Failing (first : S) : ℕ → S → Option WrappedError → Type 0 where
    not_yet : Failing first 0 first none
    failed_again :
        {n : ℕ} {s s' : S} {last : Option WrappedError} {e : WrappedError}
        → Failing first n s last
        → operation s ≡ (s', some e)
        → is_retryable e ≡ true
        → Failing first (suc n) s' (some e)

  -- How at most `budget` executions end: one succeeds, one fails for good, all of them fail, or the
  -- context is found done in between.
  pub data Ends (first : S) (budget : ℕ) : S × Option RetryError → Type 0 where
    succeeded :
        {n : ℕ} {s s' : S} {last : Option WrappedError}
        → Failing first n s last
        → n < budget
        → operation s ≡ (s', none)
        → Ends first budget (s', none)
    not_retryable :
        {n : ℕ} {s s' : S} {last : Option WrappedError} {e : WrappedError}
        → Failing first n s last
        → n < budget
        → operation s ≡ (s', some e)
        → is_retryable e ≡ false
        → Ends first budget (s', some (operation_failed e))
    exhausted :
        {s : S} {e : WrappedError}
        → Failing first budget s (some e)
        → Ends first budget (s, some (operation_failed e))
    canceled :
        {n : ℕ} {s : S} {last : Option WrappedError}
        → Failing first n s last
        → 0 < n
        → n < budget
        → done_waiting n ≡ true
        → Ends first budget (s, some retry_canceled)

  after_attempt-Ends :
      (first s : S) (n budget : ℕ) (last : Option WrappedError)
      (next : WrappedError → S → S × Option RetryError)
      → Failing first n s last
      → n < budget
      → ((e : WrappedError) (s' : S)
          → Failing first (suc n) s' (some e)
          → Ends first budget (next e s'))
      → Ends first budget (after_attempt (operation s) next)
  after_attempt-Ends first s n budget last next so_far room continues =
      by_outcome (operation s) refl
    where
      by_outcome :
          (outcome : S × Option WrappedError)
          → operation s ≡ outcome
          → Ends first budget (after_attempt outcome next)
      by_outcome (s', none) is = succeeded so_far room is
      by_outcome (s', some e) is = by_kind (is_retryable e) refl
        where
          by_kind :
              (b : Bool)
              → is_retryable e ≡ b
              → Ends first budget (if b then next e s' else (s', some (operation_failed e)))
          by_kind true kind = continues e s' (failed_again so_far is kind)
          by_kind false kind = not_retryable so_far room is kind

  retry_loop-Ends :
      (first s : S) (left attempt budget : ℕ) (last : WrappedError)
      → Failing first attempt s (some last)
      → 0 < attempt
      → attempt + left ≡ budget
      → Ends first budget (retry_loop left attempt last s)
  unfolding retry_loop
  retry_loop-Ends first s zero attempt budget last so_far some_failed total =
      exhausted (subst (λ n. Failing first n s (some last)) (omega (arith, total)) so_far)
  retry_loop-Ends first s (suc left) attempt budget last so_far some_failed total =
      if_both_known {A = S × Option RetryError} (Ends first budget) (done_waiting attempt) refl
        (canceled so_far some_failed (omega (arith, total)))
        (after_attempt-Ends first s attempt budget (some last) _ so_far (omega (arith, total))
          (λ e s' more.
            retry_loop-Ends first s' left (attempt + 1) budget e
              (subst (λ n. Failing first n s' (some e)) (omega arith) more) (omega arith)
              (omega (arith, total))))

  -- With a retry configuration the operation is executed at least once and at most so often as
  -- configured; it is executed again only after a retryable error. The result is nil after a success,
  -- and otherwise the last error, or the context's if it was done between two executions.
  pub sync_with_retry-Ends :
      (max_attempts : ℤ) (s : S)
      → Ends s (suc (further_attempts max_attempts)) (sync_with_retry (some max_attempts) s)
  unfolding sync_with_retry
  sync_with_retry-Ends max_attempts s =
      after_attempt-Ends s s 0 (suc (further_attempts max_attempts)) none _ not_yet (omega arith)
        (λ e s' more.
          retry_loop-Ends s s' (further_attempts max_attempts) 1
            (suc (further_attempts max_attempts)) e more (omega arith) (omega arith))
