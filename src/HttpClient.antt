-- ===== src/HttpClient.antt =====
-- tools/http_business_tools.py, HTTPBusinessClient: requests to the business services with retries
-- behind the circuit, and the errors that responses become. What one `_send_once` brings back is the
-- environment's; payloads are JSON texts.
use production_support_agent.Circuit.{Moments}
use production_support_agent.Circuit.{
  CircuitSettings, circuit_settings, Circuit, record_failure, is_open, record_success,
}
use production_support_agent.Tools.Types.{
  timeout_error, ToolError, forbidden, ToolContext, conflict_error, lacks_key,
}
use production_support_agent.Prelude.{
  ℕ, zero, suc, ◌+◌, ◌-◌, ◌*◌, ◌/◌, ◌%◌, ◌^◌, ◌≤◌, ◌<◌, min, max, String, str_append, ◌≡◌, refl,
  sym, ap, ◌∙◌, subst, ◌≢◌, ◌↔◌, ◌⊎◌, inl, inr, Bool, true, false, not, ◌&&◌, ◌||◌, false≢true,
  Option, none, some, List, [], ◌∷◌, ◌++◌, map, arith, eq_iff, eq_refl, ltb, leb, if◌then◌else◌,
  ◌==◌, nat_eq, string_eq, Bool-cases, Option-cases, is_some, or_else, length, All, find, ok, err,
  Result, contains,
}
pub mod Requests
pub mod Limits
pub mod Examples

-- The codes of tools/errors.py that the client gives.
abbrev pub rate_limited : String
rate_limited = "RATE_LIMITED"

abbrev pub upstream_error : String
upstream_error = "UPSTREAM_ERROR"

abbrev pub upstream_unavailable : String
upstream_unavailable = "UPSTREAM_UNAVAILABLE"

-- _RETRYABLE_ERROR_CODES
abbrev pub retryable_error_codes : List String
retryable_error_codes = rate_limited ∷ timeout_error ∷ upstream_error ∷ upstream_unavailable ∷ []

-- `exc.retryable and exc.code in _RETRYABLE_ERROR_CODES`
unfoldable pub is_retryable : ToolError → Bool
is_retryable e = e.retryable && contains retryable_error_codes e.code

-- The `mapping` of _tool_error_from_status.
unfoldable pub status_mapping : ℕ → Option String
status_mapping status_code =
    if status_code == 401
    then some "UNAUTHORIZED"
    else if status_code == 403
    then some forbidden
    else if status_code == 404
    then some "NOT_FOUND"
    else if status_code == 409
    then some conflict_error
    else if status_code == 429
    then some rate_limited
    else none

-- The two errors of _tool_error_from_status, by what the mapping gives.
abbrev pub status_error : String → ℕ → Option String → ToolError
status_error message status_code (some code) = record {
  code = code;
  message = message;
  retryable = status_code == 429;
}
status_error message status_code none = record {
  code = upstream_error;
  message = message;
  retryable = leb 500 status_code && leb status_code 599;
}

-- _tool_error_from_status; `status_text` is the status code as the message shows it.
unfoldable pub tool_error_from_status : String → String → ℕ → ToolError
tool_error_from_status path status_text status_code =
    status_error
      (str_append "HTTP service returned " (str_append status_text (str_append " for " path)))
      status_code (status_mapping status_code)

-- `n / d`, rounded to the nearest number, and to the even one of two.
unfoldable pub rounded : ℕ → ℕ → ℕ
rounded n d =
    let q = n / d in
    let r = 2 * (n % d) in if ltb r d then q else if ltb d r then q + 1 else q + q % 2

-- The power of two by which the double `ms / 1000` is scaled: its significand has 53 bits. Of the
-- 62 steps none is lacking, since 2 ^ 62 / 1000 has 53 bits.
unfoldable pub scale : ℕ → ℕ → ℕ → ℕ
scale zero ms k = k
scale (suc left) ms k =
    let more = scale left ms (k + 1) in if leb (2 ^ 52 * 1000) (ms * 2 ^ k) then k else more

-- `int((ms / 1000) * 1000)`, where `/` and `*` round to doubles: for up to 2 ^ 52 milliseconds.
unfoldable pub whole_ms : ℕ → ℕ
whole_ms ms =
    let k = scale 62 ms 0 in
    let product = rounded (ms * 2 ^ k) 1000 * 1000 in
    let unit = if ltb product (2 ^ 62) then 2 ^ 9 else 2 ^ 10 in rounded product unit * unit / 2 ^ k

-- The settings of a client, in the ranges that `__init__` puts them in; `timeout_ms` is the property
-- of the name, the timeout in whole milliseconds.
pub record ClientSettings : Type 0 where
  pub timeout_ms : ℕ
  pub retry_attempts : ℕ
  pub retry_backoff_ms : ℕ
  pub circuit : CircuitSettings

unfoldable pub client_settings : ℕ → ℕ → ℕ → ℕ → ℕ → ClientSettings
client_settings timeout_ms retry_attempts retry_backoff_ms threshold reset_seconds = record {
  timeout_ms = whole_ms timeout_ms;
  retry_attempts = max 1 retry_attempts;
  retry_backoff_ms = retry_backoff_ms;
  circuit = circuit_settings threshold reset_seconds;
}

-- The pause of _sleep_before_retry.
unfoldable pub pause_ms : ClientSettings → ℕ → ℕ
pause_ms settings attempt =
    if leb settings.retry_backoff_ms 0 then 0 else settings.retry_backoff_ms * 2 ^ (attempt - 1)

-- `sum(retry_backoff_ms * (2 ** (attempt - 1)) for attempt in range(1, n + 1))`
unfoldable pub backoff_ms : ClientSettings → ℕ → ℕ
backoff_ms settings zero = 0
backoff_ms settings (suc n) = backoff_ms settings n + settings.retry_backoff_ms * 2 ^ n

-- operation_timeout_ms
unfoldable pub operation_timeout_ms : ClientSettings → ℕ
operation_timeout_ms settings =
    settings.timeout_ms * settings.retry_attempts
    + backoff_ms settings (settings.retry_attempts - 1)

-- What a request has done: the circuit, the requests that were sent, the pauses, and the answer.
pub record Sent : Type 0 where
  pub circuit : Circuit
  pub sends : ℕ
  pub slept_ms : ℕ
  pub answer : Result ToolError (Option String)

-- The environment of one request: what each `_send_once` brings back, and the clock of each attempt.
pub record Service : Type 0 where
  pub reply : ℕ → Result ToolError (Option String)
  pub moments : ℕ → Moments

-- What _raise_if_circuit_open raises.
abbrev pub circuit_error : String → ToolError
circuit_error path = record {
  code = upstream_unavailable;
  message =
      str_append "Business API circuit is open for " (str_append path "; retry after reset window");
  retryable = true;
}

-- What stands after the loop.
abbrev pub no_response : String → ToolError
no_response path = record {
  code = upstream_error;
  message = str_append "HTTP service failed without response for " path;
  retryable = false;
}

-- What _require_payload raises.
abbrev pub empty_payload : String → ToolError
empty_payload path = record {
  code = upstream_error;
  message = str_append "HTTP service returned empty payload for " path;
  retryable = false;
}

module _ (settings : ClientSettings) (service : Service) (path : String)
    (safe_to_retry : Bool) where
  -- `attempts = self.retry_attempts if safe_to_retry else 1`
  unfoldable pub attempts : ℕ
  attempts = if safe_to_retry then settings.retry_attempts else 1

  unfoldable pub circuit_after : Circuit → ℕ → ToolError → Circuit
  circuit_after circuit attempt e =
      record_failure settings.circuit circuit (is_retryable e) (service.moments attempt).failed_at

  -- _should_retry, asked after the failure is recorded.
  unfoldable pub sends_again : Circuit → ℕ → ToolError → Bool
  unfolding attempts
  sends_again circuit attempt e =
      if not safe_to_retry || leb attempts attempt
      then false
      else if is_open settings.circuit (circuit_after circuit attempt e)
          (service.moments attempt).decided_at
      then false
      else is_retryable e

  -- The arms of one attempt whose request is sent.
  abbrev pub finish_request :
      Circuit → ℕ → (Circuit → ToolError → Sent) → Result ToolError (Option String) → Sent
  finish_request circuit attempt next (ok payload) = record {
    circuit = record_success circuit;
    sends = 1;
    slept_ms = 0;
    answer = ok payload;
  }
  finish_request circuit attempt next (err e) =
      let later = next (circuit_after circuit attempt e) e in
      if sends_again circuit attempt e
      then record later {
        sends = 1 + later.sends;
        slept_ms = pause_ms settings attempt + later.slept_ms;
      }
      else record {
        circuit = circuit_after circuit attempt e;
        sends = 1;
        slept_ms = 0;
        answer = err e;
      }

  -- The loop of _request with `left` attempts left, `last` the last error.
  unfoldable pub request_loop : ℕ → Circuit → ℕ → ToolError → Sent
  request_loop zero circuit attempt last = record {
    circuit = circuit;
    sends = 0;
    slept_ms = 0;
    answer = err last;
  }
  request_loop (suc left) circuit attempt last =
      let rest = λ (c : Circuit) (e : ToolError). request_loop left c (attempt + 1) e in
      if is_open settings.circuit circuit (service.moments attempt).checked_at
      then record { circuit = circuit; sends = 0; slept_ms = 0; answer = err (circuit_error path) }
      else finish_request circuit attempt rest (service.reply attempt)

  -- _request
  unfoldable pub request : Circuit → Sent
  unfolding attempts
  request circuit = request_loop attempts circuit 1 (no_response path)

-- _require_payload
abbrev pub require_payload : String → Result ToolError (Option String) → Result ToolError String
require_payload path (err e) = err e
require_payload path (ok none) = err (empty_payload path)
require_payload path (ok (some payload)) = ok payload

-- get and post: a `post` may be sent again only with an idempotency key.
unfoldable pub get : ClientSettings → Service → String → Circuit → Sent × Result ToolError String
get settings service path circuit =
    let sent = request settings service path true circuit in
    (sent, require_payload path sent.answer)

unfoldable pub post :
    ClientSettings → Service → String → ToolContext → Circuit → Sent × Result ToolError String
post settings service path ctx circuit =
    let sent = request settings service path (not (lacks_key ctx)) circuit in
    (sent, require_payload path sent.answer)
