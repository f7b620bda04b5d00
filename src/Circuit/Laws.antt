-- ===== src/Circuit/Laws.antt =====
-- What the circuit breaker keeps, and when it opens.
use production_support_agent.Circuit.{
  CircuitSettings, record_failure, circuit_settings, Circuit, count_failure, record_success,
  circuit_state, half_open_circuit, open_circuit,
}
use production_support_agent.Prelude.{
  ℕ, ◌+◌, ◌<◌, max, ◌≡◌, ◌≢◌, Bool, true, none, List, [], ◌∷◌, arith, leb, if◌then◌else◌, nat_eq,
  string_eq, is_some, length,
}

-- The circuit has an opening time exactly when the failures have reached the threshold.
abbrev pub IsConsistent : CircuitSettings → Circuit → Type 0
IsConsistent settings circuit =
    is_some circuit.opened_at ≡ leb settings.failure_threshold circuit.failure_count

module _ (settings : CircuitSettings) (circuit : Circuit) where
  pub record_failure-IsConsistent :
      (counts : Bool) (now : ℕ)
      → IsConsistent settings circuit
      → IsConsistent settings (record_failure settings circuit counts now)
  unfolding record_failure count_failure
  record_failure-IsConsistent counts now h = ground arith

  pub record_success-IsConsistent :
      0 < settings.failure_threshold → IsConsistent settings (record_success circuit)
  unfolding record_success
  record_success-IsConsistent pos = ground arith

-- What the failures of a run, each with its time, make of the circuit.
unfoldable pub record_failures : CircuitSettings → Circuit → List ℕ → Circuit
record_failures settings circuit [] = circuit
record_failures settings circuit (now ∷ later) =
    record_failures settings (record_failure settings circuit true now) later

record_failures_count :
    (settings : CircuitSettings) (circuit : Circuit) (times : List ℕ)
    → (record_failures settings circuit times).failure_count ≡ circuit.failure_count + length times
unfolding record_failures record_failure count_failure
record_failures_count settings circuit [] = ground arith
record_failures_count settings circuit (now ∷ later) =
    let rest = record_failures_count settings (record_failure settings circuit true now) later in
    ground arith

record_failures-IsConsistent :
    (settings : CircuitSettings) (circuit : Circuit) (times : List ℕ)
    → IsConsistent settings circuit
    → IsConsistent settings (record_failures settings circuit times)
unfolding record_failures
record_failures-IsConsistent settings circuit [] h = h
record_failures-IsConsistent settings circuit (now ∷ later) h =
    record_failures-IsConsistent settings (record_failure settings circuit true now) later
      (record_failure-IsConsistent settings circuit true now h)

-- After a success, consecutive failures that count give the circuit an opening time exactly when
-- there are as many of them as the threshold, which is at least 1, or more.
pub failures_open :
    (threshold reset_seconds : ℕ) (circuit : Circuit) (times : List ℕ)
    → let settings = circuit_settings threshold reset_seconds in
      let after = record_failures settings (record_success circuit) times in
      is_some after.opened_at ≡ leb (max 1 threshold) (length times)
unfolding circuit_settings record_success
failures_open threshold reset_seconds circuit times =
    let settings = circuit_settings threshold reset_seconds in
    let consistent =
      record_failures-IsConsistent settings (record_success circuit) times
        (record_success-IsConsistent settings circuit (ground arith)) in
    let counted = record_failures_count settings (record_success circuit) times in ground arith

-- In a circuit that has an opening time, and keeps one exactly when its failures have reached the
-- threshold, a failure that counts opens the circuit again: it is open until the window has passed
-- since the failure, and half-open from then on.
pub failure_reopens :
    (settings : CircuitSettings) (circuit : Circuit) (now later : ℕ)
    → IsConsistent settings circuit
    → circuit.opened_at ≢ none
    → circuit_state settings (record_failure settings circuit true now) later
      ≡ (if leb (now + settings.reset_window) later then half_open_circuit else open_circuit)
unfolding record_failure count_failure circuit_state
failure_reopens settings circuit now later h opened = ground arith
