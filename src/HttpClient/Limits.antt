-- ===== src/HttpClient/Limits.antt =====
-- What a caller of the client can rely on.
use production_support_agent.Circuit.{circuit_settings, Circuit}
use production_support_agent.Tools.Types.{ToolContext, lacks_key}
use production_support_agent.Prelude.{
  ℕ, suc, ◌+◌, ◌-◌, ◌*◌, ◌≤◌, max, String, str_append, ◌≡◌, refl, sym, subst, inl, inr, Bool, true,
  false, ◌&&◌, ◌||◌, none, arith, leb, ◌==◌, nat_eq, string_eq, Bool-cases, contains,
}
use production_support_agent.HttpClient.{
  is_retryable, tool_error_from_status, status_mapping, ClientSettings, client_settings, backoff_ms,
  operation_timeout_ms, whole_ms, Sent, Service, no_response, attempts, request, get, post,
  status_error,
}
use production_support_agent.Circuit.Laws.{IsConsistent}
use native.Mathlib.Nat.{mul-le-mul_left}
use production_support_agent.HttpClient.Requests.{
  backoff_mono, request_loop_sends, request_loop-IsConsistent, request_loop_slept,
}

module _ (timeout retry_attempts backoff threshold reset_seconds : ℕ) (service : Service)
    (path : String) (circuit : Circuit) where
  abbrev settings : ClientSettings
  settings = client_settings timeout retry_attempts backoff threshold reset_seconds

  -- The time of a request: its pauses, and the whole milliseconds of the timeout of every request
  -- that was sent.
  abbrev pub IsInTime : Sent → Type 0
  IsInTime sent = sent.slept_ms + whole_ms timeout * sent.sends ≤ operation_timeout_ms settings

  attempts_bound :
      (safe_to_retry : Bool)
      → (n : ℕ) × (d : ℕ) × (attempts settings service path safe_to_retry ≡ suc n)
        × (max 1 retry_attempts ≡ suc (n + d))
  unfolding attempts client_settings
  attempts_bound true = (max 1 retry_attempts - 1, 0, ground arith, ground arith)
  attempts_bound false = (0, max 1 retry_attempts - 1, ground arith, ground arith)

  request-IsInTime :
      (safe_to_retry : Bool) → IsInTime (request settings service path safe_to_retry circuit)
  unfolding request operation_timeout_ms client_settings backoff_ms
  request-IsInTime safe_to_retry =
      let (n, d, made, allowed) = attempts_bound safe_to_retry in
      let left = attempts settings service path safe_to_retry in
      let slept =
        request_loop_slept settings service path safe_to_retry left 0 n circuit 1 (no_response path)
          refl (ground (arith, made)) (ground (arith, made)) made in
      let sent =
        request_loop_sends settings service path safe_to_retry left circuit 1 (no_response path) in
      let times = mul-le-mul_left (whole_ms timeout) sent in
      let fewer : left ≤ max 1 retry_attempts = ground (arith, made, allowed) in
      let more = mul-le-mul_left (whole_ms timeout) fewer in
      let idle = backoff_mono settings service path safe_to_retry n d in
      let whole : n + d ≡ max 1 retry_attempts - 1 = ground (arith, allowed) in
      ground (
        arith,
        slept,
        times,
        more,
        subst (λ k. backoff_ms settings n ≤ backoff_ms settings k) whole idle,
      )

  -- A `get` is sent at most `max(1, retry_attempts)` times, and its pauses and, for each request that
  -- was sent, the whole milliseconds of the timeout, `int(timeout * 1000)`, add up to no more than
  -- operation_timeout_ms; if the circuit keeps an opening
  -- time exactly when its failures have reached the threshold, it does so afterwards.
  pub get_limits :
      IsConsistent (circuit_settings threshold reset_seconds) circuit
      → let sent = (get settings service path circuit).0 in
        (sent.sends ≤ max 1 retry_attempts)
        × IsInTime sent
        × IsConsistent (circuit_settings threshold reset_seconds) sent.circuit
  unfolding get request attempts client_settings circuit_settings
  get_limits h = (
    request_loop_sends settings service path true (max 1 retry_attempts) circuit 1
        (no_response path),
    request-IsInTime true,
    request_loop-IsConsistent settings service path true (max 1 retry_attempts) circuit 1
        (no_response path) (ground arith) h,
  )

  -- A `post` without an idempotency key is sent at most once, whatever the settings.
  pub post_once :
      (ctx : ToolContext)
      → lacks_key ctx ≡ true
      → (post settings service path ctx circuit).0.sends ≤ 1
  unfolding post request attempts
  post_once ctx lacks =
      rw lacks (request_loop_sends settings service path false 1 circuit 1 (no_response path))

module _ (path status_text : String) where
  -- What the classification of one status says.
  abbrev pub IsClassified : ℕ → Type 0
  IsClassified status_code =
      is_retryable (tool_error_from_status path status_text status_code)
      ≡ (status_code == 429 || (leb 500 status_code && leb status_code 599))

  -- A status that the mapping names, or another one.
  by_status :
      (status_code named : ℕ)
      → IsClassified named
      → ((status_code == named) ≡ false → IsClassified status_code)
      → IsClassified status_code
  by_status status_code named here other = elim (Bool-cases (status_code == named)) [
    | inl t ↦ subst IsClassified (sym ((nat_eq.equals_iff status_code named).0 t)) here
    | inr f ↦ other f
  ]

  unmapped :
      (status_code : ℕ)
      → (status_code == 429) ≡ false
      → status_mapping status_code ≡ none
      → IsClassified status_code
  unfolding is_retryable tool_error_from_status contains
  unmapped status_code f none_mapped =
      subst
        (λ m.
          is_retryable (
            status_error
              (str_append "HTTP service returned "
                (str_append status_text (str_append " for " path)))
              status_code m)
          ≡ (status_code == 429 || (leb 500 status_code && leb status_code 599)))
        (sym none_mapped) (rw f (ground arith))

  -- The error of a response is one that is sent again exactly for the status 429 and for 500 to 599.
  pub status_error_retryable : (status_code : ℕ) → IsClassified status_code
  unfolding is_retryable tool_error_from_status status_mapping contains
  status_error_retryable status_code = by_status status_code 401 refl λ f1.
      by_status status_code 403 refl λ f2. by_status status_code 404 refl λ f3.
        by_status status_code 409 refl λ f4.
          by_status status_code 429 refl
            λ f5. unmapped status_code f5 (rw (f1, f2, f3, f4, f5) refl)
