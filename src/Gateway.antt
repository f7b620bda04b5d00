-- ===== src/Gateway.antt =====
-- llm/gateway.py, LLMGateway.generate and health_check: attempts with retries, behind the circuit. The
-- provider is the environment's. The latency, the cost and the counts of tokens of a trace are left out.
use production_support_agent.Circuit.{
  CircuitSettings, circuit_settings, Circuit, is_open, record_failure, record_success, Moments,
}
use production_support_agent.Prelude.{
  ℕ, zero, suc, ◌+◌, ◌-◌, ◌*◌, ◌/◌, ◌%◌, ◌^◌, ◌≤◌, ◌<◌, min, max, String, str_append, ◌≡◌, refl,
  sym, ap, ◌∙◌, subst, ◌≢◌, ◌↔◌, ◌⊎◌, inl, inr, Bool, true, false, not, ◌&&◌, ◌||◌, false≢true,
  Option, none, some, List, [], ◌∷◌, ◌++◌, map, arith, eq_iff, eq_refl, ltb, leb, if◌then◌else◌,
  ◌==◌, nat_eq, string_eq, Bool-cases, Option-cases, is_some, or_else, length, All, find, ok, err,
  Result,
}
use Prim.Native.String.{find as find_text, len}
pub mod Attempts
pub mod Serving
pub mod Examples

-- What `generate` and `health_check` catch. The name of an exception's type stands in lower case, as
-- it is compared, beside the name that is reported.
pub data LlmError : Type 0 where
  circuit_is_open : LlmError
  call_timed_out : LlmError
  provider_failed : String → String → Option ℕ → LlmError

-- LLMRequest, less the contexts, which only the provider reads.
pub record LlmRequest : Type 0 where
  pub prompt_version : String
  pub task : String
  pub fallback_content : String

-- LLMCallTrace and LLMResponse
pub record LlmTrace : Type 0 where
  pub provider : String
  pub model : String
  pub prompt_version : String
  pub fallback_used : Bool
  pub error_type : Option String

pub record LlmResponse : Type 0 where
  pub content : String
  pub trace : LlmTrace

-- The gateway's settings after `__post_init__`.
pub record GatewaySettings : Type 0 where
  pub provider : String
  pub model : String
  pub retry_attempts : ℕ
  pub retry_backoff_ms : ℕ
  pub circuit : CircuitSettings

unfoldable pub gateway_settings : String → String → ℕ → ℕ → ℕ → ℕ → GatewaySettings
gateway_settings provider model retry_attempts retry_backoff_ms threshold reset_seconds = record {
  provider = provider;
  model = model;
  retry_attempts = max 1 retry_attempts;
  retry_backoff_ms = retry_backoff_ms;
  circuit = circuit_settings threshold reset_seconds;
}

-- `part in text`: `find` of the standard library gives a position, or more than the length.
unfoldable pub is_part : String → String → Bool
is_part text part = leb (find_text text part) (len text)

-- `any(part in text for part in parts)`
unfoldable pub has_part : String → List String → Bool
has_part text [] = false
has_part text (part ∷ parts) = is_part text part || has_part text parts

abbrev pub retryable_error_name_parts : List String
retryable_error_name_parts =
    "timeout" ∷ "ratelimit" ∷ "rate_limit" ∷ "apiconnection" ∷ "connection" ∷ "internalserver"
    ∷ "serviceunavailable" ∷ []

-- `status_code in _RETRYABLE_STATUS_CODES or 500 <= status_code <= 599`
unfoldable pub is_retryable_status : ℕ → Bool
is_retryable_status status_code =
    status_code == 408
    || status_code == 409
    || status_code == 429
    || (leb 500 status_code && leb status_code 599)

-- _is_retryable_llm_error
unfoldable pub is_retryable_llm_error : LlmError → Bool
is_retryable_llm_error circuit_is_open = false
is_retryable_llm_error call_timed_out = true
is_retryable_llm_error (provider_failed name lower_name status_code) = elim status_code [
  | some code ↦ is_retryable_status code
  | none ↦ has_part lower_name retryable_error_name_parts
]

-- `type(exc).__name__`
unfoldable pub error_type : LlmError → String
error_type circuit_is_open = "LLMCircuitOpen"
error_type call_timed_out = "TimeoutError"
error_type (provider_failed name lower_name status_code) = name

-- _fallback_response
unfoldable pub fallback_response : GatewaySettings → LlmRequest → LlmError → LlmResponse
fallback_response settings request e = record {
  content = request.fallback_content;
  trace = record {
    provider = settings.provider;
    model = settings.model;
    prompt_version = request.prompt_version;
    fallback_used = true;
    error_type = some (error_type e);
  };
}

-- _should_retry
unfoldable pub should_retry : GatewaySettings → Circuit → Bool → ℕ → ℕ → Bool
should_retry settings circuit retryable attempt now =
    if not retryable || leb settings.retry_attempts attempt
    then false
    else not (is_open settings.circuit circuit now)

-- What the loop has done: the circuit, how often the provider was called, and the answer.
pub record Served (A : Type 0) : Type 0 where
  pub circuit : Circuit
  pub provider_calls : ℕ
  pub answer : Result LlmError A

-- The environment of one call: the provider's answer to each attempt, under its timeout, and the
-- clock of each attempt.
pub record Provider (A : Type 0) : Type 0 where
  pub reply : ℕ → Result LlmError A
  pub moments : ℕ → Moments

module _ {A : Type 0} (settings : GatewaySettings) (provider : Provider A) where
  -- What an attempt gives: the open circuit raises before the provider is called.
  unfoldable pub attempt_answer : Circuit → ℕ → Result LlmError A
  attempt_answer circuit attempt =
      if is_open settings.circuit circuit (provider.moments attempt).checked_at
      then err circuit_is_open
      else provider.reply attempt

  unfoldable pub attempt_calls : Circuit → ℕ → ℕ
  attempt_calls circuit attempt =
      if is_open settings.circuit circuit (provider.moments attempt).checked_at then 0 else 1

  -- The circuit after an attempt that raised.
  unfoldable pub after_failure : Circuit → ℕ → LlmError → Circuit
  after_failure circuit attempt e =
      record_failure settings.circuit circuit (is_retryable_llm_error e)
        (provider.moments attempt).failed_at

  unfoldable pub retries : Circuit → ℕ → LlmError → Bool
  retries circuit attempt e =
      should_retry settings (after_failure circuit attempt e) (is_retryable_llm_error e) attempt
        (provider.moments attempt).decided_at

  -- The arms of one attempt, from its answer and what the next attempts would give.
  abbrev pub finish_attempt :
      Circuit → ℕ → ℕ → (Circuit → LlmError → Served A) → Result LlmError A → Served A
  finish_attempt circuit calls attempt next (ok response) = record {
    circuit = record_success circuit;
    provider_calls = calls;
    answer = ok response;
  }
  finish_attempt circuit calls attempt next (err e) =
      let later = next (after_failure circuit attempt e) e in
      if retries circuit attempt e
      then record later { provider_calls = calls + later.provider_calls }
      else record {
        circuit = after_failure circuit attempt e;
        provider_calls = calls;
        answer = err e;
      }

  -- `for attempt in range(1, retry_attempts + 1)`, where `left` attempts are left and `last` is the
  -- last error. The loop of `generate` and that of `health_check` are the same.
  unfoldable pub attempt_loop : ℕ → Circuit → ℕ → LlmError → Served A
  attempt_loop zero circuit attempt last = record {
    circuit = circuit;
    provider_calls = 0;
    answer = err last;
  }
  attempt_loop (suc left) circuit attempt last =
      let rest = λ (c : Circuit) (e : LlmError). attempt_loop left c (attempt + 1) e in
      finish_attempt circuit (attempt_calls circuit attempt) attempt rest
        (attempt_answer circuit attempt)

-- `last_error or RuntimeError("LLM provider failed")`
abbrev pub no_attempt : LlmError
no_attempt = provider_failed "RuntimeError" "runtimeerror" none

-- generate
abbrev pub answered : GatewaySettings → LlmRequest → Result LlmError LlmResponse → LlmResponse
answered settings request (ok response) = response
answered settings request (err e) = fallback_response settings request e

unfoldable pub generate :
    GatewaySettings → Provider LlmResponse → LlmRequest → Circuit → Served LlmResponse × LlmResponse
generate settings provider request circuit =
    let served = attempt_loop settings provider settings.retry_attempts circuit 1 no_attempt in
    (served, answered settings request served.answer)

-- health_check, which raises what is left.
unfoldable pub health_check : GatewaySettings → Provider (Unit {0}) → Circuit → Served (Unit {0})
health_check settings provider circuit =
    attempt_loop settings provider settings.retry_attempts circuit 1 no_attempt
