-- ===== src/Circuit.antt =====
-- llm/gateway.py and tools/http_business_tools.py keep the same circuit breaker (_CircuitState,
-- _record_success, _record_failure, _circuit_state); it stands here once. Times are microseconds.
use production_support_agent.Prelude.{
  ℕ, zero, suc, ◌+◌, ◌-◌, ◌*◌, ◌/◌, ◌%◌, ◌^◌, ◌≤◌, ◌<◌, min, max, String, str_append, ◌≡◌, refl,
  sym, ap, ◌∙◌, subst, ◌≢◌, ◌↔◌, ◌⊎◌, inl, inr, Bool, true, false, not, ◌&&◌, ◌||◌, false≢true,
  Option, none, some, List, [], ◌∷◌, ◌++◌, map, arith, eq_iff, eq_refl, ltb, leb, if◌then◌else◌,
  ◌==◌, nat_eq, string_eq, Bool-cases, Option-cases, is_some, or_else, length, All, find, ok, err,
  Result,
}
pub mod Laws

-- _CircuitState
pub record Circuit : Type 0 where
  pub failure_count : ℕ
  pub opened_at : Option ℕ

-- The settings of a gateway or a client that the circuit reads, once `__post_init__` has put them in
-- range: `circuit_failure_threshold` is at least 1. The window is `circuit_reset_seconds`.
pub record CircuitSettings : Type 0 where
  pub failure_threshold : ℕ
  pub reset_window : ℕ

-- `max(1, circuit_failure_threshold)` and `max(0, circuit_reset_seconds)`
unfoldable pub circuit_settings : ℕ → ℕ → CircuitSettings
circuit_settings threshold reset_seconds = record {
  failure_threshold = max 1 threshold;
  reset_window = reset_seconds * 1000000;
}

-- The answers of _circuit_state: "closed", "half_open", "open".
pub data CircuitState : Type 0 where
  closed_circuit : CircuitState
  half_open_circuit : CircuitState
  open_circuit : CircuitState

-- _circuit_state
unfoldable pub circuit_state : CircuitSettings → Circuit → ℕ → CircuitState
circuit_state settings circuit now = elim circuit.opened_at [
  | none ↦ closed_circuit
  | some opened_at ↦
      if leb (opened_at + settings.reset_window) now then half_open_circuit else open_circuit
]

-- `self._circuit_state() == "open"`
abbrev pub is_open_state : CircuitState → Bool
is_open_state closed_circuit = false
is_open_state half_open_circuit = false
is_open_state open_circuit = true

unfoldable pub is_open : CircuitSettings → Circuit → ℕ → Bool
unfolding circuit_state
is_open settings circuit now = is_open_state (circuit_state settings circuit now)

-- The clock during one attempt: when the circuit is tested, when a failure is recorded, and when the
-- retry is decided.
pub record Moments : Type 0 where
  pub checked_at : ℕ
  pub failed_at : ℕ
  pub decided_at : ℕ

-- _record_success
unfoldable pub record_success : Circuit → Circuit
record_success circuit = record circuit { failure_count = 0; opened_at = none }

-- _record_failure of an error that counts.
unfoldable pub count_failure : CircuitSettings → Circuit → ℕ → Circuit
count_failure settings circuit now =
    let failures = circuit.failure_count + 1 in
    if leb settings.failure_threshold failures
    then record circuit { failure_count = failures; opened_at = some now }
    else record circuit { failure_count = failures }

-- _record_failure
unfoldable pub record_failure : CircuitSettings → Circuit → Bool → ℕ → Circuit
record_failure settings circuit counts now =
    if counts then count_failure settings circuit now else circuit
