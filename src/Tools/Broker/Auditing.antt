-- ===== src/Tools/Broker/Auditing.antt =====
-- What every call of the broker does: the audit record, and the checks before a handler runs.
use production_support_agent.Tools.Broker.{
  invalid, too_slow, unexpected, failed_result, success_result, lacks_key, key_text,
}
use production_support_agent.Tools.Types.{ToolAuditRecord}
use production_support_agent.Prelude.{if◌then◌else◌}
use production_support_agent.Tools.Broker.{
  ToolFault, ToolWorld, ToolError, CallError, ToolFaultProfile, tool_error, ToolDefinition,
  CallStamp, ToolContext, audit_record, pop_fault, require_idempotency, check_call, outcome_of,
}
use production_support_agent.Tools.Idempotency.{IdempotencyStore}
use production_support_agent.Tools.Types.{ToolResult}
use production_support_agent.Prelude.{
  String, ◌≡◌, refl, Bool, true, false, Option, none, some, [], ◌∷◌, ◌++◌, nat_eq, string_eq, ok,
  err, Result, false≢true,
}
use production_support_agent.Tools.Broker.Calling.{
  Broker, call, run_reserved, run_unless, record_outcome, continue_keyed, continue_checked, audit,
  fail, reserve_idempotency, continue_call, Reservation, cached, proceed, fault_error,
}

-- The broker after a call has one audit record more: it names the tool, the tenants and the actor of
-- the call and the ids of its request and trace, has the status, the error code, the latency of the
-- result and the hash of the key, if there is one; and a record that is marked as a replay goes with
-- no handler.
abbrev pub IsAudited :
    {S : Type 0}
    → ToolWorld
    → CallStamp
    → String
    → ToolContext
    → Broker S
    → Broker S × ToolResult
    → Type 0
IsAudited w stamp name ctx b (after, result) =
    (entry : ToolAuditRecord) × (after.audit_log ≡ b.audit_log ++ entry ∷ [])
    × (entry.tool_name ≡ name)
    × (entry.tenant_id ≡ ctx.tenant_id)
    × (entry.actor_user_id ≡ ctx.actor.user_id)
    × (entry.request_id ≡ ctx.request_id)
    × (entry.trace_id ≡ ctx.trace_id)
    × (entry.status ≡ result.status)
    × (entry.error_code ≡ result.error_code)
    × (entry.latency_ms ≡ result.latency_ms)
    × (result.latency_ms ≡ stamp.latency_ms)
    × (entry.idempotency_key_hash
        ≡ (if lacks_key ctx then none else some (w.hash_text (key_text ctx))))
    × (entry.replayed ≡ true → after.invocations ≡ b.invocations)

failed_result_latency :
    (w : ToolWorld) (stamp : CallStamp) (name : String) (tool : Option ToolDefinition)
    (e : CallError)
    → (failed_result w stamp name tool e).latency_ms ≡ stamp.latency_ms
unfolding failed_result
failed_result_latency w stamp name tool (invalid message) = refl
failed_result_latency w stamp name tool too_slow = refl
failed_result_latency w stamp name tool (tool_error e) = refl
failed_result_latency w stamp name tool (unexpected message) = refl

module _ (w : ToolWorld) (store : IdempotencyStore) (stamp : CallStamp) (name : String)
    (ctx : ToolContext) (b : Broker store.Store) where
  audit_record-IsAudited :
      (after : Broker store.Store) (arg_hash : String) (result : ToolResult) (replayed : Bool)
      → after.audit_log ≡ b.audit_log ++ audit_record w stamp name arg_hash result ctx replayed ∷ []
      → result.latency_ms ≡ stamp.latency_ms
      → (replayed ≡ true → after.invocations ≡ b.invocations)
      → IsAudited w stamp name ctx b (after, result)
  unfolding audit_record
  audit_record-IsAudited after arg_hash result replayed logged timed quiet = (
    audit_record w stamp name arg_hash result ctx replayed,
    logged,
    refl,
    refl,
    refl,
    refl,
    refl,
    refl,
    refl,
    refl,
    timed,
    refl,
    quiet,
  )

  fail-IsAudited :
      (tool : Option ToolDefinition) (arg_hash : String) (key : Option String) (e : CallError)
      → IsAudited w stamp name ctx b (fail w store stamp name ctx b tool arg_hash key e)
  unfolding fail audit
  fail-IsAudited tool arg_hash key e =
      audit_record-IsAudited (fail w store stamp name ctx b tool arg_hash key e).0 arg_hash
        (failed_result w stamp name tool e) false refl (failed_result_latency w stamp name tool e)
        (λ r. absurd (false≢true r))

  record_outcome-IsAudited :
      (tool : ToolDefinition) (parsed : String) (arg_hash : String) (key : Option String)
      (popped : ToolFaultProfile × Option ToolFault)
      → IsAudited w stamp name ctx b (
          record_outcome w store stamp name ctx tool arg_hash key
            (run_unless w store stamp name ctx b tool parsed popped))
  unfolding fail audit
  record_outcome-IsAudited tool parsed arg_hash key (faults, some fault) =
      audit_record-IsAudited
        (fail w store stamp name ctx (record b { faults = faults }) (some tool) arg_hash key
          (fault_error fault)).0
        arg_hash (failed_result w stamp name (some tool) (fault_error fault)) false refl
        (failed_result_latency w stamp name (some tool) (fault_error fault))
        (λ r. absurd (false≢true r))
  record_outcome-IsAudited tool parsed arg_hash key (faults, none) =
      by_outcome (outcome_of w tool.name (w.handler tool.name parsed ctx))
    where
      by_outcome :
          (outcome : Result CallError String)
          → IsAudited w stamp name ctx b (
              record_outcome w store stamp name ctx tool arg_hash key
                (record b { invocations = b.invocations ++ (tool.name, parsed) ∷ [] }, outcome))
      by_outcome (err e) =
          audit_record-IsAudited
            (fail w store stamp name ctx
              (record b { invocations = b.invocations ++ (tool.name, parsed) ∷ [] }) (some tool)
              arg_hash key e).0
            arg_hash (failed_result w stamp name (some tool) e) false refl
            (failed_result_latency w stamp name (some tool) e) (λ r. absurd (false≢true r))
      by_outcome (ok output) =
          audit_record-IsAudited
            (record_outcome w store stamp name ctx tool arg_hash key
              (record b { invocations = b.invocations ++ (tool.name, parsed) ∷ [] }, ok output)).0
            arg_hash (success_result stamp name output) false refl (unfold success_result in refl)
            (λ r. absurd (false≢true r))

  continue_call-IsAudited :
      (tool : ToolDefinition) (parsed : String) (held : Result ToolError Reservation)
      → IsAudited w stamp name ctx b (continue_call w store stamp name ctx b tool parsed held)
  unfolding audit run_reserved
  continue_call-IsAudited tool parsed (err e) =
      fail-IsAudited (some tool) (w.hash parsed) none (tool_error e)
  continue_call-IsAudited tool parsed (ok (proceed key)) =
      record_outcome-IsAudited tool parsed (w.hash parsed) key (pop_fault b.faults name)
  continue_call-IsAudited tool parsed (ok (cached result)) =
      audit_record-IsAudited
        (continue_call w store stamp name ctx b tool parsed (ok (cached result))).0 (w.hash parsed)
        (record result { latency_ms = stamp.latency_ms }) true refl refl (λ r. refl)

module _ (w : ToolWorld) (store : IdempotencyStore) (stamp : CallStamp) (name : String)
    (ctx : ToolContext) (b : Broker store.Store) where
  continue_keyed-IsAudited :
      (tool : ToolDefinition) (parsed : String) (keyed : Result ToolError (Unit {0}))
      → IsAudited w stamp name ctx b (continue_keyed w store stamp name ctx b tool parsed keyed)
  continue_keyed-IsAudited tool parsed (err e) =
      fail-IsAudited w store stamp name ctx b (some tool) (w.hash parsed) none (tool_error e)
  continue_keyed-IsAudited tool parsed (ok _) =
      let held =
        reserve_idempotency w store b.idempotency tool ctx (w.hash parsed) stamp.started_at in
      continue_call-IsAudited w store stamp name ctx (record b { idempotency = held.0 }) tool parsed
        held.1

  continue_checked-IsAudited :
      (arguments : String) (checked : Result CallError (ToolDefinition × String))
      → IsAudited w stamp name ctx b (continue_checked w store stamp name ctx b arguments checked)
  continue_checked-IsAudited arguments (err e) =
      fail-IsAudited w store stamp name ctx b none (w.hash arguments) none e
  continue_checked-IsAudited arguments (ok (tool, parsed)) =
      continue_keyed-IsAudited tool parsed (require_idempotency tool ctx)

  -- Every call of the broker, whatever it ends in, appends one record to the audit log. The record
  -- names the tool that was called, the tenant and the actor of the call, its request and its trace;
  -- it has the status, the error code and the latency of the result that the call returns, which is
  -- the latency of this call, and the hash of the idempotency key if there is one; and when it is
  -- marked as a replay, no handler ran.
  pub call-IsAudited :
      (arguments : String) → IsAudited w stamp name ctx b (call w store stamp name ctx b arguments)
  unfolding call
  call-IsAudited arguments =
      continue_checked-IsAudited arguments (check_call w b.registry name arguments ctx)
