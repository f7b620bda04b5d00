-- ===== src/HttpClient/Examples.antt =====
-- Tests of the client, and the witnesses of its properties.
use production_support_agent.HttpClient.Limits.{IsInTime, post_once, get_limits}
use production_support_agent.Circuit.{circuit_state, count_failure}
use production_support_agent.Circuit.{circuit_settings, Circuit, record_failure, is_open}
use production_support_agent.Tools.Types.{ToolContext, lacks_key}
use production_support_agent.Prelude.{
  ◌≤◌, max, ◌≡◌, refl, none, [], nat_eq, string_eq, err, contains,
}
use production_support_agent.HttpClient.{
  is_retryable, tool_error_from_status, status_mapping, client_settings, pause_ms, Service,
  attempts, circuit_after, sends_again, request_loop, request, get, post, whole_ms, scale, rounded,
}
use production_support_agent.Circuit.Laws.{IsConsistent}

abbrev unavailable : Service
unavailable = record {
  reply = λ attempt. err (tool_error_from_status "/orders" "503" 503);
  moments = λ attempt. record { checked_at = attempt; failed_at = attempt; decided_at = attempt };
}

abbrev fresh_circuit : Circuit
fresh_circuit = record { failure_count = 0; opened_at = none }

abbrev keyless : ToolContext
keyless = record {
  actor = record { user_id = "u"; tenant_id = "t"; roles = []; scopes = [] };
  request_id = "r";
  trace_id = "x";
  tenant_id = "t";
  parent_trace_id = none;
  idempotency_key = none;
}

get_limits_example :
    let sent = (get (client_settings 5000 2 100 5 30) unavailable "/orders" fresh_circuit).0 in
    (sent.sends ≤ max 1 2)
    × IsInTime 5000 2 100 5 30 unavailable "/orders" fresh_circuit sent
    × IsConsistent (circuit_settings 5 30) sent.circuit
unfolding circuit_settings
get_limits_example = get_limits 5000 2 100 5 30 unavailable "/orders" fresh_circuit refl

post_once_example :
    (post (client_settings 5000 2 100 5 30) unavailable "/tickets" keyless fresh_circuit).0.sends
    ≤ 1
unfolding lacks_key
post_once_example = post_once 5000 2 100 5 30 unavailable "/tickets" fresh_circuit keyless refl

-- The same request is sent twice, with one pause of 100 milliseconds.
retry_test :
    (get (client_settings 5000 2 100 5 30) unavailable "/orders" fresh_circuit).0.slept_ms ≡ 100
unfolding get request attempts request_loop client_settings circuit_settings is_open circuit_state
    sends_again circuit_after is_retryable tool_error_from_status status_mapping contains
    record_failure count_failure pause_ms
retry_test = refl

-- Two timeouts, one of which loses a millisecond.
whole_ms_test : (whole_ms 5000 ≡ 5000) × (whole_ms 1001 ≡ 1000)
unfolding whole_ms scale rounded
whole_ms_test = (refl, refl)
