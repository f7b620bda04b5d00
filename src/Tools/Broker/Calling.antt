-- ===== src/Tools/Broker/Calling.antt =====
-- tools/registry.py, ToolBroker.call: the state of a broker and one call from end to end. Calls do not
-- overlap; `started_at` is when the key is reserved and `finished_at` when the result is recorded.
use production_support_agent.Tools.Broker.{
  ToolFault, ToolWorld, ToolAuditRecord, ToolError, CallError, ToolFaultProfile, tool_error,
  ToolDefinition, CallStamp, ToolContext, lacks_key, audit_record, failed_result, pop_fault,
  success_result, require_idempotency, check_call, idempotency_key, outcome_of,
}
use production_support_agent.Tools.Idempotency.{
  reserved, replay, conflict, running_already, IdempotencyDecision, IdempotencyStore, replay,
}
use production_support_agent.Tools.Types.{
  ToolRegistry, ToolResult, idempotency_conflict, conflict_error,
}
use production_support_agent.Prelude.{
  ℕ, String, Bool, true, false, ◌||◌, Option, none, some, List, [], ◌∷◌, ◌++◌, if◌then◌else◌,
  nat_eq, string_eq, ok, err, Result,
}

-- `invocations` is not in the code: it lists the calls of handlers, by tool and parsed arguments.
pub record Broker (S : Type 0) : Type 0 where
  pub registry : ToolRegistry
  pub idempotency : S
  pub audit_log : List ToolAuditRecord
  pub faults : ToolFaultProfile
  pub invocations : List (String × String)

-- What _reserve_idempotency returns: the cached result, or the key that is reserved, if any.
pub data Reservation : Type 0 where
  cached : ToolResult → Reservation
  proceed : Option String → Reservation

-- What _reserve_idempotency makes of the decision about the key.
abbrev pub read_decision : String → IdempotencyDecision → Result ToolError Reservation
read_decision key reserved = ok (proceed (some key))
read_decision key (replay result) = ok (cached result)
read_decision key conflict = err (record {
  code = idempotency_conflict;
  message = "Same idempotency key used with different payload";
  retryable = false;
})
read_decision key running_already = err (record {
  code = conflict_error;
  message = "Same idempotency key is already in progress";
  retryable = true;
})

-- What a fault raises.
abbrev pub fault_error : ToolFault → CallError
fault_error fault =
    tool_error
      (record { code = fault.error_code; message = fault.message; retryable = fault.retryable })

module _ (w : ToolWorld) (store : IdempotencyStore) where
  -- _reserve_idempotency
  unfoldable pub reserve_idempotency :
      store.Store
      → ToolDefinition
      → ToolContext
      → String
      → ℕ
      → store.Store × Result ToolError Reservation
  reserve_idempotency s tool ctx arg_hash now =
      if tool.idempotent || lacks_key ctx
      then (s, ok (proceed none))
      else let key = idempotency_key w tool.name ctx in
        let decided = store.reserve s key arg_hash now in (decided.0, read_decision key decided.1)

  -- _complete_idempotency
  abbrev pub complete_idempotency :
      store.Store → Option String → String → ToolResult → ℕ → store.Store
  complete_idempotency s none arg_hash result now = s
  complete_idempotency s (some key) arg_hash result now = store.complete s key arg_hash result now

  -- _release_idempotency
  abbrev pub release_idempotency : store.Store → Option String → String → store.Store
  release_idempotency s none arg_hash = s
  release_idempotency s (some key) arg_hash = store.release s key arg_hash

  module _ (stamp : CallStamp) (name : String) (ctx : ToolContext) where
    -- _audit
    unfoldable pub audit : Broker store.Store → String → ToolResult → Bool → Broker store.Store
    audit b arg_hash result replayed = record b {
      audit_log = b.audit_log ++ audit_record w stamp name arg_hash result ctx replayed ∷ [];
    }

    -- The end of `call` after an exception.
    unfoldable pub fail :
        Broker store.Store
        → Option ToolDefinition
        → String
        → Option String
        → CallError
        → Broker store.Store × ToolResult
    unfolding audit
    fail b tool arg_hash reserved_key raised_error =
        let result = failed_result w stamp name tool raised_error in
        (
          audit (record b { idempotency = release_idempotency b.idempotency reserved_key arg_hash })
              arg_hash result false,
          result,
        )

    -- The call of the handler, if the profile has no fault for the tool.
    abbrev pub run_unless :
        Broker store.Store
        → ToolDefinition
        → String
        → ToolFaultProfile × Option ToolFault
        → Broker store.Store × Result CallError String
    run_unless b tool parsed (faults, some fault) =
        (record b { faults = faults }, err (fault_error fault))
    run_unless b tool parsed (faults, none) = (
      record b { invocations = b.invocations ++ (tool.name, parsed) ∷ [] },
      outcome_of w tool.name (w.handler tool.name parsed ctx),
    )

    -- How the outcome of the handler is recorded.
    abbrev pub record_outcome :
        ToolDefinition
        → String
        → Option String
        → Broker store.Store × Result CallError String
        → Broker store.Store × ToolResult
    record_outcome tool arg_hash reserved_key (b, err raised_error) =
        fail b (some tool) arg_hash reserved_key raised_error
    record_outcome tool arg_hash reserved_key (b, ok output) =
        let result = success_result stamp name output in
        (
          audit
              (record b {
                idempotency =
                    complete_idempotency b.idempotency reserved_key arg_hash result
                      stamp.finished_at;
              })
              arg_hash result false,
          result,
        )

    -- From the reservation to the end.
    unfoldable pub run_reserved :
        Broker store.Store
        → ToolDefinition
        → String
        → Option String
        → Broker store.Store × ToolResult
    run_reserved b tool parsed reserved_key =
        record_outcome tool (w.hash parsed) reserved_key
          (run_unless b tool parsed (pop_fault b.faults name))

    -- What follows from the answer to the reservation.
    abbrev pub continue_call :
        Broker store.Store
        → ToolDefinition
        → String
        → Result ToolError Reservation
        → Broker store.Store × ToolResult
    continue_call b tool parsed (err e) = fail b (some tool) (w.hash parsed) none (tool_error e)
    continue_call b tool parsed (ok (proceed reserved_key)) =
        run_reserved b tool parsed reserved_key
    continue_call b tool parsed (ok (cached result)) =
        let shown = record result { latency_ms = stamp.latency_ms } in
        (audit b (w.hash parsed) shown true, shown)

    -- What follows from the check that a write has a key.
    abbrev pub continue_keyed :
        Broker store.Store
        → ToolDefinition
        → String
        → Result ToolError (Unit {0})
        → Broker store.Store × ToolResult
    continue_keyed b tool parsed (err e) = fail b (some tool) (w.hash parsed) none (tool_error e)
    continue_keyed b tool parsed (ok _) =
        let held = reserve_idempotency b.idempotency tool ctx (w.hash parsed) stamp.started_at in
        continue_call (record b { idempotency = held.0 }) tool parsed held.1

    -- What follows from the checks of the tool, the actor and the arguments.
    abbrev pub continue_checked :
        Broker store.Store
        → String
        → Result CallError (ToolDefinition × String)
        → Broker store.Store × ToolResult
    continue_checked b arguments (err raised_error) =
        fail b none (w.hash arguments) none raised_error
    continue_checked b arguments (ok (tool, parsed)) =
        continue_keyed b tool parsed (require_idempotency tool ctx)

    unfoldable pub call : Broker store.Store → String → Broker store.Store × ToolResult
    call b arguments = continue_checked b arguments (check_call w b.registry name arguments ctx)
