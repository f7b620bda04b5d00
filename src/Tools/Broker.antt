-- ===== src/Tools/Broker.antt =====
-- tools/registry.py, ToolBroker: one call of a tool, from the lookup to the audit record. The schemas,
-- the hashes and the handlers of the tools are the environment's, ToolWorld. A sink of audit records
-- changes nothing that is modelled: the code catches what it raises.
pub mod Calling
pub mod Auditing
pub mod Recording
pub mod Keeping
pub mod Replaying
pub mod Guarding
pub mod Releasing
use production_support_agent.Models.{ToolStatus}
use production_support_agent.Tools.Types.{
  ToolError, ToolContext, ToolDefinition, ToolResult, ToolRegistry, lacks_key, ToolAuditRecord,
  get_tool, validation_error, forbidden, comma_join, timeout_error, internal_error,
}
use production_support_agent.Prelude.{
  ℕ, zero, suc, ◌+◌, ◌-◌, ◌*◌, ◌/◌, ◌%◌, ◌^◌, ◌≤◌, ◌<◌, min, max, String, str_append, ◌≡◌, refl,
  sym, ap, ◌∙◌, subst, ◌≢◌, ◌↔◌, ◌⊎◌, inl, inr, Bool, true, false, not, ◌&&◌, ◌||◌, false≢true,
  Option, none, some, List, [], ◌∷◌, ◌++◌, map, arith, eq_iff, eq_refl, ltb, leb, if◌then◌else◌,
  ◌==◌, nat_eq, string_eq, Bool-cases, Option-cases, is_some, or_else, length, All, find, ok, err,
  Result, delete_where, update_where, pop_key, get_key, put_key, select, contains, ◌>>=◌,
}

-- What a handler does: it returns an output, or raises within its time, or is cut off.
pub data HandlerOutcome : Type 0 where
  returned : String → HandlerOutcome
  refused : ToolError → HandlerOutcome
  malformed : String → HandlerOutcome
  crashed : String → HandlerOutcome
  timed_out : HandlerOutcome

-- What the broker catches: ValidationError, TimeoutError, ToolError, and any other exception.
pub data CallError : Type 0 where
  invalid : String → CallError
  too_slow : CallError
  tool_error : ToolError → CallError
  unexpected : String → CallError

-- The code that the broker is given: the models of the tools by name, their handlers and SHA-256.
pub record ToolWorld : Type 0 where
  pub hash : String → String
  pub hash_text : String → String
  pub validate_input : String → String → Result String String
  pub validate_output : String → String → Result String String
  pub handler : String → String → ToolContext → HandlerOutcome
  pub milliseconds : ℕ → String

pub record ToolFault : Type 0 where
  pub error_code : String
  pub message : String
  pub retryable : Bool

abbrev pub ToolFaultProfile : Type 0
ToolFaultProfile = List (String × List ToolFault)

abbrev pub take_fault :
    ToolFaultProfile → String → List ToolFault → ToolFaultProfile × Option ToolFault
take_fault faults name [] = (faults, none)
take_fault faults name (fault ∷ []) = (pop_key faults name, some fault)
take_fault faults name (fault ∷ next ∷ rest) = (put_key faults name (next ∷ rest), some fault)

unfoldable pub pop_fault : ToolFaultProfile → String → ToolFaultProfile × Option ToolFault
pop_fault faults name = elim (get_key faults name) [
  | none ↦ (faults, none)
  | some queue ↦ take_fault faults name queue
]

-- What one call takes from the clocks and from new_id.
pub record CallStamp : Type 0 where
  pub started_at : ℕ
  pub finished_at : ℕ
  pub latency_ms : ℕ
  pub result_id : String
  pub audit_id : String

-- _authorize
unfoldable pub authorize : ToolDefinition → ToolContext → Result ToolError (Unit {0})
authorize tool ctx =
    let missing = select (λ scope. not (contains ctx.actor.scopes scope)) tool.required_scopes in
    if not (leb (length missing) 0)
    then err (record {
      code = forbidden;
      message = str_append "Missing scopes: " (comma_join missing);
      retryable = false;
    })
    else if not (ctx.actor.tenant_id == ctx.tenant_id)
    then err (record {
      code = forbidden;
      message = "Actor tenant does not match request tenant";
      retryable = false;
    })
    else ok tt

-- _require_idempotency, for a tool that is not idempotent
unfoldable pub require_idempotency : ToolDefinition → ToolContext → Result ToolError (Unit {0})
require_idempotency tool ctx =
    if not tool.idempotent && lacks_key ctx
    then err (record {
      code = validation_error;
      message = "Write tool requires idempotency_key";
      retryable = false;
    })
    else ok tt

abbrev pub key_text : ToolContext → String
key_text ctx = elim ctx.idempotency_key [ none ↦ "" | some key ↦ key ]

-- The arms of `except`: the result of a call that raised.
unfoldable pub failed_result :
    ToolWorld → CallStamp → String → Option ToolDefinition → CallError → ToolResult
failed_result w stamp name tool raised =
    let result : String → String → Bool → ToolResult = λ code message retryable. record {
      id = stamp.result_id;
      name = name;
      status = ToolStatus.failed;
      output = none;
      error_code = some code;
      error_message = some message;
      retryable = retryable;
      latency_ms = stamp.latency_ms;
    } in
    elim raised [
      | invalid message ↦ result validation_error message false
      | too_slow ↦
          result timeout_error
            (str_append "Tool " (
              str_append name (
                str_append " exceeded " (
                  str_append (w.milliseconds (elim tool [ none ↦ 0 | some t ↦ t.timeout_ms ]))
                    "ms"))))
            true
      | tool_error e ↦ result e.code e.message e.retryable
      | unexpected message ↦ result internal_error message false
    ]

unfoldable pub success_result : CallStamp → String → String → ToolResult
success_result stamp name output = record {
  id = stamp.result_id;
  name = name;
  status = ToolStatus.success;
  output = some output;
  error_code = none;
  error_message = none;
  retryable = false;
  latency_ms = stamp.latency_ms;
}

-- The record that _audit appends.
unfoldable pub audit_record :
    ToolWorld → CallStamp → String → String → ToolResult → ToolContext → Bool → ToolAuditRecord
audit_record w stamp name arg_hash result ctx replayed = record {
  id = stamp.audit_id;
  tool_name = name;
  tenant_id = ctx.tenant_id;
  actor_user_id = ctx.actor.user_id;
  request_id = ctx.request_id;
  trace_id = ctx.trace_id;
  argument_hash = arg_hash;
  status = result.status;
  latency_ms = result.latency_ms;
  error_code = result.error_code;
  idempotency_key_hash = if lacks_key ctx then none else some (w.hash_text (key_text ctx));
  replayed = replayed;
}

-- _idempotency_key
unfoldable pub idempotency_key : ToolWorld → String → ToolContext → String
idempotency_key w tool_name ctx = str_append ctx.tenant_id (
    str_append ":" (
      str_append ctx.actor.user_id
        (str_append ":" (str_append tool_name (str_append ":" (w.hash_text (key_text ctx)))))))

-- A ToolError raised in `call`.
abbrev pub raised {ℓ} : {A : Type ℓ} → Result ToolError A → Result CallError A
raised (ok value) = ok value
raised (err e) = err (tool_error e)

abbrev pub validated {ℓ} : {A : Type ℓ} → Result String A → Result CallError A
validated (ok value) = ok value
validated (err message) = err (invalid message)

-- The statements of `call` up to the validation of the arguments, from the last to the first: the tool
-- and the parsed arguments.
abbrev pub parse_arguments :
    ToolDefinition → Result String String → Result CallError (ToolDefinition × String)
parse_arguments tool (err message) = err (invalid message)
parse_arguments tool (ok parsed) = ok (tool, parsed)

abbrev pub check_tool :
    ToolWorld → String → ToolContext → ToolDefinition → Result CallError (ToolDefinition × String)
check_tool w arguments ctx tool =
    raised (authorize tool ctx) >>= λ _. parse_arguments tool (w.validate_input tool.name arguments)

unfoldable pub check_call :
    ToolWorld
    → ToolRegistry
    → String
    → String
    → ToolContext
    → Result CallError (ToolDefinition × String)
check_call w tools name arguments ctx = raised (get_tool tools name) >>= check_tool w arguments ctx

-- What the handler and its output model make of the call.
abbrev pub outcome_of : ToolWorld → String → HandlerOutcome → Result CallError String
outcome_of w tool_name (returned output) = validated (w.validate_output tool_name output)
outcome_of w tool_name (refused e) = err (tool_error e)
outcome_of w tool_name (malformed message) = err (invalid message)
outcome_of w tool_name (crashed message) = err (unexpected message)
outcome_of w tool_name timed_out = err too_slow
