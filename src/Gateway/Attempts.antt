-- ===== src/Gateway/Attempts.antt =====
-- The attempts of one call: what the loop keeps, how often it calls the provider, and where its answer
-- comes from.
use production_support_agent.Circuit.{
  Circuit, is_open, record_failure, record_success, circuit_state, count_failure,
}
use production_support_agent.Prelude.{
  ℕ, zero, suc, ◌+◌, ◌≤◌, ◌<◌, ◌≡◌, refl, sym, ap, ◌∙◌, subst, ◌⊎◌, inl, inr, true, false, none,
  arith, leb, nat_eq, string_eq, Bool-cases, ok, err, Result,
}
use production_support_agent.Gateway.{
  LlmError, GatewaySettings, is_retryable_llm_error, should_retry, Served, Provider, attempt_answer,
  attempt_calls, after_failure, retries, finish_attempt, attempt_loop, circuit_is_open,
}
use production_support_agent.Circuit.Laws.{
  IsConsistent, record_failure-IsConsistent, record_success-IsConsistent,
}

module _ {A : Type 0} (settings : GatewaySettings) (provider : Provider A) where
  -- The answer of the loop is the provider's to one of the attempts, or the refusal of the circuit.
  abbrev pub IsAnswered : Result LlmError A → Type 0
  IsAnswered answer =
      (answer ≡ err circuit_is_open) ⊎ ((attempt : ℕ) × (provider.reply attempt ≡ answer))

  attempt_answer-IsAnswered :
      (circuit : Circuit) (attempt : ℕ)
      → IsAnswered (attempt_answer settings provider circuit attempt)
  unfolding attempt_answer
  attempt_answer-IsAnswered circuit attempt =
      elim (Bool-cases (is_open settings.circuit circuit (provider.moments attempt).checked_at)) [
        | inl t ↦ inl (rw t refl)
        | inr f ↦ inr (attempt, rw f refl)
      ]

  -- One attempt from its three ends: an answer, a retry, and an error that is not retried.
  finish_attempt_lem :
      (P : Served A → Type 0) (circuit : Circuit) (calls attempt : ℕ)
      (next : Circuit → LlmError → Served A) (answer : Result LlmError A)
      → ((response : A)
          → answer ≡ ok response
          → P (record {
            circuit = record_success circuit;
            provider_calls = calls;
            answer = ok response;
          }))
      → ((e : LlmError)
          → answer ≡ err e
          → retries settings provider circuit attempt e ≡ true
          → let later = next (after_failure settings provider circuit attempt e) e in
            P (record later { provider_calls = calls + later.provider_calls }))
      → ((e : LlmError)
          → answer ≡ err e
          → retries settings provider circuit attempt e ≡ false
          → P (record {
            circuit = after_failure settings provider circuit attempt e;
            provider_calls = calls;
            answer = err e;
          }))
      → P (finish_attempt settings provider circuit calls attempt next answer)
  finish_attempt_lem P circuit calls attempt next (ok response) done retried stopped =
      done response refl
  finish_attempt_lem P circuit calls attempt next (err e) done retried stopped =
      elim (Bool-cases (retries settings provider circuit attempt e)) [
        | inl t ↦ rw t (retried e refl t)
        | inr f ↦ rw f (stopped e refl f)
      ]

  -- There are no more calls of the provider than attempts.
  pub attempt_loop_calls :
      (left : ℕ) (circuit : Circuit) (attempt : ℕ) (last : LlmError)
      → (attempt_loop settings provider left circuit attempt last).provider_calls ≤ left
  unfolding attempt_loop attempt_calls
  attempt_loop_calls zero circuit attempt last = ground arith
  attempt_loop_calls (suc left) circuit attempt last =
      finish_attempt_lem (λ served. served.provider_calls ≤ suc left) circuit
        (attempt_calls settings provider circuit attempt) attempt
        (λ c e. attempt_loop settings provider left c (attempt + 1) e)
        (attempt_answer settings provider circuit attempt) (λ response k. ground arith)
        (λ e k t.
          let rest =
            attempt_loop_calls left (after_failure settings provider circuit attempt e)
              (attempt + 1) e in
          ground (arith, rest))
        (λ e k f. ground arith)

  pub attempt_loop-IsConsistent :
      (left : ℕ) (circuit : Circuit) (attempt : ℕ) (last : LlmError)
      → 0 < settings.circuit.failure_threshold
      → IsConsistent settings.circuit circuit
      → IsConsistent settings.circuit
          (attempt_loop settings provider left circuit attempt last).circuit
  unfolding attempt_loop after_failure
  attempt_loop-IsConsistent zero circuit attempt last pos h = h
  attempt_loop-IsConsistent (suc left) circuit attempt last pos h =
      let failed = λ (e : LlmError).
        record_failure-IsConsistent settings.circuit circuit (is_retryable_llm_error e)
          (provider.moments attempt).failed_at h in
      finish_attempt_lem (λ served. IsConsistent settings.circuit served.circuit) circuit
        (attempt_calls settings provider circuit attempt) attempt
        (λ c e. attempt_loop settings provider left c (attempt + 1) e)
        (attempt_answer settings provider circuit attempt)
        (λ response k. record_success-IsConsistent settings.circuit circuit pos)
        (λ e k t.
          attempt_loop-IsConsistent left (after_failure settings provider circuit attempt e)
            (attempt + 1) e pos (failed e))
        (λ e k f. failed e)

  -- The last attempt is not retried.
  retries_left :
      (circuit : Circuit) (attempt : ℕ) (e : LlmError)
      → retries settings provider circuit attempt e ≡ true
      → attempt < settings.retry_attempts
  unfolding retries should_retry
  retries_left circuit attempt e t = ground arith

  pub attempt_loop-IsAnswered :
      (left : ℕ) (circuit : Circuit) (attempt : ℕ) (last : LlmError)
      → attempt + left ≡ settings.retry_attempts + 1
      → 0 < left
      → IsAnswered (attempt_loop settings provider left circuit attempt last).answer
  unfolding attempt_loop
  attempt_loop-IsAnswered zero circuit attempt last count pos = absurd (ground arith)
  attempt_loop-IsAnswered (suc left) circuit attempt last count pos =
      let from = attempt_answer-IsAnswered circuit attempt in
      finish_attempt_lem (λ served. IsAnswered served.answer) circuit
        (attempt_calls settings provider circuit attempt) attempt
        (λ c e. attempt_loop settings provider left c (attempt + 1) e)
        (attempt_answer settings provider circuit attempt) (λ response k. subst IsAnswered k from)
        (λ e k t.
          let more = retries_left circuit attempt e t in
          attempt_loop-IsAnswered left (after_failure settings provider circuit attempt e)
            (attempt + 1) e (ground (arith, count)) (ground (arith, count, more)))
        (λ e k f. subst IsAnswered k from)

  -- A circuit that is open at the first attempt answers at once.
  pub attempt_loop_open :
      (left : ℕ) (circuit : Circuit) (attempt : ℕ) (last : LlmError)
      → is_open settings.circuit circuit (provider.moments attempt).checked_at ≡ true
      → attempt_loop settings provider (suc left) circuit attempt last
        ≡ record { circuit = circuit; provider_calls = 0; answer = err circuit_is_open }
  unfolding attempt_loop attempt_answer attempt_calls retries after_failure should_retry
      record_failure is_retryable_llm_error
  attempt_loop_open left circuit attempt last opened = rw opened refl

  -- An error that does not count ends the call, and the circuit does not notice it.
  pub attempt_loop_fatal :
      (left : ℕ) (circuit : Circuit) (attempt : ℕ) (last e : LlmError)
      → is_open settings.circuit circuit (provider.moments attempt).checked_at ≡ false
      → provider.reply attempt ≡ err e
      → is_retryable_llm_error e ≡ false
      → attempt_loop settings provider (suc left) circuit attempt last
        ≡ record { circuit = circuit; provider_calls = 1; answer = err e }
  unfolding attempt_loop attempt_answer attempt_calls retries after_failure should_retry
      record_failure
  attempt_loop_fatal left circuit attempt last e shut failed fatal = rw (shut, failed, fatal) refl

  -- The attempts from one number to another raised errors that count.
  abbrev pub Failing : ℕ → ℕ → Type 0
  Failing first stop =
      (n : ℕ)
      → first ≤ n
      → n < stop
      → (e : LlmError) × (provider.reply n ≡ err e) × (is_retryable_llm_error e ≡ true)

  module _ (response : A) (stop : ℕ) (done : provider.reply stop ≡ ok response) where
    abbrev recovered : Circuit → ℕ → Served A
    recovered circuit calls = record {
      circuit = record_success circuit;
      provider_calls = calls;
      answer = ok response;
    }

    recovers_now :
        (left : ℕ) (circuit : Circuit) (attempt : ℕ) (last : LlmError)
        → attempt ≡ stop
        → circuit.opened_at ≡ none
        → attempt_loop settings provider (suc left) circuit attempt last ≡ recovered circuit 1
    unfolding attempt_loop attempt_answer attempt_calls is_open circuit_state record_success
    recovers_now left circuit attempt last here shut =
        let replied = subst (λ n. provider.reply n ≡ ok response) (sym here) done in
        rw (shut, replied) refl

    retries_once :
        (left : ℕ) (circuit : Circuit) (attempt : ℕ) (last e : LlmError)
        → circuit.opened_at ≡ none
        → circuit.failure_count + 1 < settings.circuit.failure_threshold
        → attempt < settings.retry_attempts
        → provider.reply attempt ≡ err e
        → is_retryable_llm_error e ≡ true
        → let next =
            attempt_loop settings provider left
              (record circuit { failure_count = circuit.failure_count + 1 })
              (attempt + 1)
              e in
          attempt_loop settings provider (suc left) circuit attempt last
          ≡ record next { provider_calls = 1 + next.provider_calls }
    unfolding attempt_loop attempt_answer attempt_calls is_open circuit_state after_failure retries
        should_retry record_failure count_failure
    retries_once left circuit attempt last e shut room more failed retryable =
        let below : leb settings.circuit.failure_threshold (circuit.failure_count + 1) ≡ false =
          ground arith in
        let early : leb settings.retry_attempts attempt ≡ false = ground arith in
        rw (shut, failed, retryable, below, early) refl

    -- Errors that count, fewer than the circuit tolerates, and then an answer.
    pub attempt_loop_recovers :
        (failures left : ℕ) (circuit : Circuit) (attempt : ℕ) (last : LlmError)
        → failures < left
        → attempt + left ≡ settings.retry_attempts + 1
        → attempt + failures ≡ stop
        → circuit.opened_at ≡ none
        → circuit.failure_count + failures < settings.circuit.failure_threshold
        → Failing attempt stop
        → attempt_loop settings provider left circuit attempt last
          ≡ recovered circuit (suc failures)
    unfolding record_success
    attempt_loop_recovers failures zero circuit attempt last few count reach shut room failing =
        absurd (ground arith)
    attempt_loop_recovers zero (suc left) circuit attempt last few count reach shut room failing =
        recovers_now left circuit attempt last (ground arith) shut
    attempt_loop_recovers (suc failures) (suc left) circuit attempt last few count reach shut room
          failing =
        let (e, failed, retryable) = failing attempt (ground arith) (ground arith) in
        let next = record circuit { failure_count = circuit.failure_count + 1 } in
        let counted : 1 + suc failures ≡ suc (suc failures) = ground arith in
        retries_once left circuit attempt last e shut (ground arith) (ground arith) failed retryable
        ∙ ap (λ (served : Served A). record served { provider_calls = 1 + served.provider_calls })
            (attempt_loop_recovers failures left next (attempt + 1) e (ground arith) (ground arith)
              (ground arith) shut (ground arith) (λ n from to. failing n (ground arith) to))
        ∙ ap (recovered circuit) counted
