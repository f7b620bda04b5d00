-- ===== src/HttpClient/Requests.antt =====
-- One request: how often it is sent, how long it may take, and what it keeps of the circuit.
use production_support_agent.Circuit.{Circuit, is_open, record_success}
use production_support_agent.Tools.Types.{ToolError}
use production_support_agent.Prelude.{
  ℕ, zero, suc, ◌+◌, ◌-◌, ◌*◌, ◌^◌, ◌≤◌, ◌<◌, String, ◌≡◌, subst, inl, inr, Bool, true, Option,
  arith, leb, nat_eq, string_eq, Bool-cases, ok, err, Result,
}
use production_support_agent.HttpClient.{
  is_retryable, ClientSettings, pause_ms, backoff_ms, Sent, Service, attempts, circuit_after,
  sends_again, finish_request, request_loop,
}
use production_support_agent.Circuit.Laws.{
  IsConsistent, record_failure-IsConsistent, record_success-IsConsistent,
}

module _ (settings : ClientSettings) (service : Service) (path : String)
    (safe_to_retry : Bool) where
  -- One request from the ends of an attempt: an answer, a retry, and an error that is raised.
  finish_request_lem :
      (P : Sent → Type 0) (circuit : Circuit) (attempt : ℕ) (next : Circuit → ToolError → Sent)
      (answer : Result ToolError (Option String))
      → ((payload : Option String)
          → P (record {
            circuit = record_success circuit;
            sends = 1;
            slept_ms = 0;
            answer = ok payload;
          }))
      → ((e : ToolError)
          → sends_again settings service path safe_to_retry circuit attempt e ≡ true
          → let later =
              next (circuit_after settings service path safe_to_retry circuit attempt e) e in
            P (record later {
              sends = 1 + later.sends;
              slept_ms = pause_ms settings attempt + later.slept_ms;
            }))
      → ((e : ToolError)
          → P (record {
            circuit = circuit_after settings service path safe_to_retry circuit attempt e;
            sends = 1;
            slept_ms = 0;
            answer = err e;
          }))
      → P (finish_request settings service path safe_to_retry circuit attempt next answer)
  finish_request_lem P circuit attempt next (ok payload) done again raised_now = done payload
  finish_request_lem P circuit attempt next (err e) done again raised_now =
      elim (Bool-cases (sends_again settings service path safe_to_retry circuit attempt e)) [
        | inl t ↦ rw t (again e t)
        | inr f ↦ rw f (raised_now e)
      ]

  again_left :
      (circuit : Circuit) (attempt : ℕ) (e : ToolError)
      → sends_again settings service path safe_to_retry circuit attempt e ≡ true
      → (attempt < attempts settings service path safe_to_retry) × (safe_to_retry ≡ true)
  unfolding sends_again
  again_left circuit attempt e t = (ground arith, ground arith)

  pub request_loop_sends :
      (left : ℕ) (circuit : Circuit) (attempt : ℕ) (last : ToolError)
      → (request_loop settings service path safe_to_retry left circuit attempt last).sends ≤ left
  unfolding request_loop
  request_loop_sends zero circuit attempt last = ground arith
  request_loop_sends (suc left) circuit attempt last =
      elim (Bool-cases (is_open settings.circuit circuit (service.moments attempt).checked_at)) [
        | inl t ↦ rw t (ground arith)
        | inr f ↦ rw f (
            finish_request_lem (λ sent. sent.sends ≤ suc left) circuit attempt
              (λ c e. request_loop settings service path safe_to_retry left c (attempt + 1) e)
              (service.reply attempt) (λ payload. ground arith)
              (λ e t.
                let rest =
                  request_loop_sends left
                    (circuit_after settings service path safe_to_retry circuit attempt e)
                    (attempt + 1) e in
                ground (arith, rest))
              (λ e. ground arith))
      ]

  pub request_loop-IsConsistent :
      (left : ℕ) (circuit : Circuit) (attempt : ℕ) (last : ToolError)
      → 0 < settings.circuit.failure_threshold
      → IsConsistent settings.circuit circuit
      → IsConsistent settings.circuit
          (request_loop settings service path safe_to_retry left circuit attempt last).circuit
  unfolding request_loop circuit_after
  request_loop-IsConsistent zero circuit attempt last pos h = h
  request_loop-IsConsistent (suc left) circuit attempt last pos h =
      let failed = λ (e : ToolError).
        record_failure-IsConsistent settings.circuit circuit (is_retryable e)
          (service.moments attempt).failed_at h in
      elim (Bool-cases (is_open settings.circuit circuit (service.moments attempt).checked_at)) [
        | inl t ↦ rw t h
        | inr f ↦ rw f (
            finish_request_lem (λ sent. IsConsistent settings.circuit sent.circuit) circuit attempt
              (λ c e. request_loop settings service path safe_to_retry left c (attempt + 1) e)
              (service.reply attempt)
              (λ payload. record_success-IsConsistent settings.circuit circuit pos)
              (λ e t. request_loop-IsConsistent left _ (attempt + 1) e pos (failed e))
              (λ e. failed e))
      ]

  pub backoff_mono : (k d : ℕ) → backoff_ms settings k ≤ backoff_ms settings (k + d)
  unfolding backoff_ms
  backoff_mono k zero = ground arith
  backoff_mono k (suc d) =
      let next : suc (k + d) ≡ k + suc d = ground arith in
      let grown : backoff_ms settings k ≤ backoff_ms settings (suc (k + d)) =
        ground (arith, backoff_mono k d) in
      subst (λ n. backoff_ms settings k ≤ backoff_ms settings n) next grown

  pause_bound :
      (k attempt : ℕ)
      → attempt ≡ suc k
      → pause_ms settings attempt ≤ settings.retry_backoff_ms * 2 ^ k
  unfolding pause_ms
  pause_bound k attempt e =
      let exponent : attempt - 1 ≡ k = ground arith in
      rw exponent (elim (Bool-cases (leb settings.retry_backoff_ms 0)) [
        | inl t ↦ rw t (ground arith)
        | inr f ↦ rw f (ground arith)
      ])

  -- A pause and what follows it.
  add_pause :
      (k m attempt slept : ℕ)
      → attempt ≡ suc k
      → backoff_ms settings (suc k) + slept ≤ backoff_ms settings m
      → backoff_ms settings k + (pause_ms settings attempt + slept) ≤ backoff_ms settings m
  unfolding backoff_ms
  add_pause k m attempt slept at h = ground (arith, h, pause_bound k attempt at)

  -- The pauses fit what the backoffs of the earlier attempts leave.
  pub request_loop_slept :
      (left k m : ℕ) (circuit : Circuit) (attempt : ℕ) (last : ToolError)
      → attempt ≡ suc k
      → k + left ≡ suc m
      → 0 < left
      → attempts settings service path safe_to_retry ≡ suc m
      → backoff_ms settings k
          + (request_loop settings service path safe_to_retry left circuit attempt last).slept_ms
        ≤ backoff_ms settings m
  unfolding request_loop
  request_loop_slept zero k m circuit attempt last at count pos total = absurd (ground arith)
  request_loop_slept (suc left) k m circuit attempt last at count pos total =
      let reach : k + left ≡ m = ground arith in
      let idle =
        subst (λ n. backoff_ms settings k ≤ backoff_ms settings n) reach (backoff_mono k left) in
      elim (Bool-cases (is_open settings.circuit circuit (service.moments attempt).checked_at)) [
        | inl t ↦ rw t (ground (arith, idle))
        | inr f ↦ rw f (
            finish_request_lem
              (λ sent. backoff_ms settings k + sent.slept_ms ≤ backoff_ms settings m) circuit
              attempt
              (λ c e. request_loop settings service path safe_to_retry left c (attempt + 1) e)
              (service.reply attempt) (λ payload. ground (arith, idle))
              (λ e t.
                let more = (again_left circuit attempt e t).0 in
                add_pause k m attempt _ at (
                  request_loop_slept left (suc k) m
                    (circuit_after settings service path safe_to_retry circuit attempt e)
                    (attempt + 1) e (ground (arith, at)) (ground (arith, count))
                    (ground (arith, more, at, count, total)) total))
              (λ e. ground (arith, idle)))
      ]
