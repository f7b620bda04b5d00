-- ===== src/Gateway/Examples.antt =====
-- Tests of the circuit and the gateway, and the witnesses of their properties.
use production_support_agent.Gateway.Serving.{IsServed, generate_recovers, generate-IsServed}
use production_support_agent.Circuit.{circuit_settings, Circuit, record_success, Moments}
use production_support_agent.Prelude.{
  ℕ, ◌≤◌, max, ◌≡◌, refl, true, false, none, some, [], ◌∷◌, arith, leb, if◌then◌else◌, nat_eq,
  string_eq, is_some, length, ok, err,
}
use production_support_agent.Gateway.{
  LlmRequest, LlmResponse, gateway_settings, is_retryable_llm_error, Provider, generate,
  call_timed_out, provider_failed, has_part, is_part,
}
use production_support_agent.Circuit.Laws.{IsConsistent, record_failures, failures_open}
use production_support_agent.Gateway.Attempts.{Failing}

abbrev question : LlmRequest
question = record { prompt_version = "v1"; task = "t"; fallback_content = "draft" }

abbrev reply_text : LlmResponse
reply_text = record {
  content = "answer";
  trace = record {
    provider = "openai";
    model = "m";
    prompt_version = "v1";
    fallback_used = false;
    error_type = none;
  };
}

abbrev at_second : ℕ → Moments
at_second n = record { checked_at = n; failed_at = n; decided_at = n }

-- A provider that times out once and then answers.
abbrev flaky : Provider LlmResponse
flaky = record {
  reply = λ attempt. if leb attempt 1 then err call_timed_out else ok reply_text;
  moments = at_second;
}

abbrev refusing : Provider LlmResponse
refusing = record {
  reply = λ attempt. err (provider_failed "AuthenticationError" "authenticationerror" (some 401));
  moments = at_second;
}

abbrev rested : Circuit
rested = record { failure_count = 0; opened_at = none }

abbrev tripped : Circuit
tripped = record { failure_count = 5; opened_at = some 0 }

failures_open_example :
    is_some
      (record_failures (circuit_settings 2 30) (record_success tripped) (1 ∷ 2 ∷ [])).opened_at
    ≡ leb (max 1 2) (length {A = ℕ} (1 ∷ 2 ∷ []))
failures_open_example = failures_open 2 30 tripped (1 ∷ 2 ∷ [])

generate-IsServed_example :
    IsServed
      (gateway_settings "openai" "m" 2 250 5 30)
      flaky
      question
      (generate (gateway_settings "openai" "m" 2 250 5 30) flaky question rested).1
    × ((generate (gateway_settings "openai" "m" 2 250 5 30) flaky question rested).0.provider_calls
        ≤ max 1 2)
    × IsConsistent
        (circuit_settings 5 30)
        (generate (gateway_settings "openai" "m" 2 250 5 30) flaky question rested).0.circuit
unfolding circuit_settings
generate-IsServed_example = generate-IsServed "openai" "m" 2 250 5 30 flaky question rested refl

flaky-Failing : Failing (gateway_settings "openai" "m" 2 250 5 30) flaky 1 2
unfolding is_retryable_llm_error
flaky-Failing n from to =
    let one : leb n 1 ≡ true = ground arith in (call_timed_out, rw one refl, refl)

generate_recovers_example :
    generate (gateway_settings "openai" "m" 2 250 5 30) flaky question rested ≡ (
      record {
        circuit = record { failure_count = 0; opened_at = none };
        provider_calls = 2;
        answer = ok reply_text;
      },
      reply_text,
    )
generate_recovers_example =
    generate_recovers "openai" "m" 2 250 5 30 flaky question rested 1 reply_text refl (ground arith)
      (ground arith) flaky-Failing refl

-- An error without a status counts by its name.
name_test :
    is_retryable_llm_error (provider_failed "APIConnectionError" "apiconnectionerror" none) ≡ true
unfolding is_retryable_llm_error has_part is_part
name_test = refl
