-- ===== src/Gateway/Serving.antt =====
-- What a caller of the gateway can rely on.
use production_support_agent.Circuit.{circuit_settings, Circuit, is_open, record_success}
use production_support_agent.Prelude.{
  ℕ, zero, suc, ◌+◌, ◌≤◌, ◌<◌, max, String, ◌≡◌, refl, ap, ◌∙◌, ◌⊎◌, inl, inr, true, false, none,
  arith, nat_eq, string_eq, ok, err, Result,
}
use production_support_agent.Gateway.{
  LlmError, LlmRequest, LlmResponse, GatewaySettings, gateway_settings, is_retryable_llm_error,
  fallback_response, Served, Provider, attempt_loop, no_attempt, answered, generate,
  circuit_is_open, some, error_type,
}
use production_support_agent.Circuit.Laws.{IsConsistent}
use production_support_agent.Gateway.Attempts.{
  IsAnswered, attempt_loop_calls, attempt_loop-IsConsistent, attempt_loop-IsAnswered,
  attempt_loop_open, attempt_loop_fatal, attempt_loop_recovers, Failing,
}

-- The response is what the provider replied to one of the attempts, or the fallback of the request.
abbrev pub IsServed : GatewaySettings → Provider LlmResponse → LlmRequest → LlmResponse → Type 0
IsServed settings provider request response =
    ((attempt : ℕ) × (provider.reply attempt ≡ ok response))
    ⊎ ((e : LlmError) × (response.content ≡ request.fallback_content)
        × (response.trace.fallback_used ≡ true)
        × (response.trace.error_type ≡ some (error_type e))
        × (response.trace.provider ≡ settings.provider)
        × (response.trace.model ≡ settings.model)
        × (response.trace.prompt_version ≡ request.prompt_version)
        × ((e ≡ circuit_is_open) ⊎ ((attempt : ℕ) × (provider.reply attempt ≡ err e))))

answered-IsServed :
    (settings : GatewaySettings) (provider : Provider LlmResponse) (request : LlmRequest)
    (answer : Result LlmError LlmResponse)
    → IsAnswered settings provider answer
    → IsServed settings provider request (answered settings request answer)
unfolding fallback_response
answered-IsServed settings provider request (ok response) (inl e) = absurd (ground arith)
answered-IsServed settings provider request (ok response) (inr (attempt, e)) = inl (attempt, e)
answered-IsServed settings provider request (err raised) (inl e) =
    inr (raised, refl, refl, refl, refl, refl, refl, inl (ground arith))
answered-IsServed settings provider request (err raised) (inr (attempt, e)) =
    inr (raised, refl, refl, refl, refl, refl, refl, inr (attempt, e))

at_least_one : (n : ℕ) → (k : ℕ) × (max 1 n ≡ suc k)
at_least_one zero = (0, ground arith)
at_least_one (suc n) = (n, ground arith)

module _ (name model : String) (retry_attempts backoff threshold reset_seconds : ℕ)
    (provider : Provider LlmResponse) (request : LlmRequest) (circuit : Circuit) where
  abbrev settings : GatewaySettings
  settings = gateway_settings name model retry_attempts backoff threshold reset_seconds

  abbrev serve : Served LlmResponse → Served LlmResponse × LlmResponse
  serve served = (served, answered settings request served.answer)

  -- `generate` by what the loop does with one attempt at least.
  generate_from :
      (served : Served LlmResponse)
      → ((left : ℕ) → attempt_loop settings provider (suc left) circuit 1 no_attempt ≡ served)
      → generate settings provider request circuit ≡ serve served
  unfolding generate gateway_settings
  generate_from served loops =
      let (left, e) = at_least_one retry_attempts in
      ap (λ n. serve (attempt_loop settings provider n circuit 1 no_attempt)) e
      ∙ ap serve (loops left)

  -- Whatever the provider does, `generate` returns a response, after at most `max(1,
  -- retry_attempts)` calls of the provider, and that response is one that the provider gave, or it
  -- has the fallback content and the prompt version of the request, the provider and the model of the
  -- settings and the mark of a fallback, and names the type of an error, which the circuit or an
  -- attempt of the provider raised; if the circuit keeps an opening time exactly when its failures have reached the
  -- threshold, it does so afterwards.
  pub generate-IsServed :
      IsConsistent (circuit_settings threshold reset_seconds) circuit
      → let out = generate settings provider request circuit in
        IsServed settings provider request out.1
        × (out.0.provider_calls ≤ max 1 retry_attempts)
        × IsConsistent (circuit_settings threshold reset_seconds) out.0.circuit
  unfolding generate gateway_settings circuit_settings
  generate-IsServed h = (
    answered-IsServed settings provider request _ (
        attempt_loop-IsAnswered settings provider (max 1 retry_attempts) circuit 1 no_attempt
          (ground arith) (ground arith)),
    attempt_loop_calls settings provider (max 1 retry_attempts) circuit 1 no_attempt,
    attempt_loop-IsConsistent settings provider (max 1 retry_attempts) circuit 1 no_attempt
        (ground arith) h,
  )

  -- While the circuit is open, `generate` returns the fallback with the error LLMCircuitOpen, calls no
  -- provider and leaves the circuit as it is.
  pub generate_open :
      is_open (circuit_settings threshold reset_seconds) circuit (provider.moments 1).checked_at
        ≡ true
      → generate settings provider request circuit ≡ (
        record { circuit = circuit; provider_calls = 0; answer = err circuit_is_open },
        fallback_response settings request circuit_is_open,
      )
  unfolding gateway_settings
  generate_open opened =
      generate_from _ (λ left. attempt_loop_open settings provider left circuit 1 no_attempt opened)

  -- When the circuit is not open and the provider raises an error at the first attempt that is not
  -- retryable, `generate` returns the fallback with that error after this one call, and the circuit is
  -- as it was.
  pub generate_fatal :
      (e : LlmError)
      → is_open (circuit_settings threshold reset_seconds) circuit (provider.moments 1).checked_at
        ≡ false
      → provider.reply 1 ≡ err e
      → is_retryable_llm_error e ≡ false
      → generate settings provider request circuit ≡ (
        record { circuit = circuit; provider_calls = 1; answer = err e },
        fallback_response settings request e,
      )
  unfolding gateway_settings
  generate_fatal e shut failed fatal =
      generate_from _
        (λ left. attempt_loop_fatal settings provider left circuit 1 no_attempt e shut failed fatal)

  -- When the circuit is closed, the provider fails at the first attempts with errors that are
  -- retryable, and then answers within `max(1, retry_attempts)` attempts, and those failures leave the
  -- circuit below its threshold, `generate` returns that answer, after as many calls, and the circuit
  -- has no failure any more.
  pub generate_recovers :
      (failures : ℕ) (response : LlmResponse)
      → circuit.opened_at ≡ none
      → failures < max 1 retry_attempts
      → circuit.failure_count + failures < max 1 threshold
      → Failing settings provider 1 (suc failures)
      → provider.reply (suc failures) ≡ ok response
      → generate settings provider request circuit ≡ (
        record {
          circuit = record { failure_count = 0; opened_at = none };
          provider_calls = suc failures;
          answer = ok response;
        },
        response,
      )
  unfolding generate gateway_settings circuit_settings record_success
  generate_recovers failures response shut few room failing done = ap serve (
      attempt_loop_recovers settings provider response (suc failures) done failures
        (max 1 retry_attempts) circuit 1 no_attempt few (ground arith) (ground arith) shut room
        failing)
