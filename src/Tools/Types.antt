-- ===== src/Tools/Types.antt =====
-- tools/registry.py, tools/errors.py and models.py: the values that the broker works with. Arguments
-- and outputs of tools are JSON, which stands here as its canonical text.
use production_support_agent.Models.{ToolStatus}
use production_support_agent.Prelude.{
  ℕ, String, str_append, Bool, true, false, Option, none, some, List, [], ◌∷◌, ◌==◌, nat_eq,
  string_eq, find, ok, err, Result, delete_where,
}

-- The error codes of tools/errors.py that the broker itself gives.
abbrev pub validation_error : String
validation_error = "VALIDATION_ERROR"

abbrev pub forbidden : String
forbidden = "FORBIDDEN"

abbrev pub idempotency_conflict : String
idempotency_conflict = "IDEMPOTENCY_CONFLICT"

abbrev pub conflict_error : String
conflict_error = "CONFLICT"

abbrev pub timeout_error : String
timeout_error = "TIMEOUT"

abbrev pub internal_error : String
internal_error = "INTERNAL_ERROR"

abbrev pub tool_not_found : String
tool_not_found = "TOOL_NOT_FOUND"

-- ToolError
pub record ToolError : Type 0 where
  pub code : String
  pub message : String
  pub retryable : Bool

-- Actor, ToolContext
pub record Actor : Type 0 where
  pub user_id : String
  pub tenant_id : String
  pub roles : List String
  pub scopes : List String

pub record ToolContext : Type 0 where
  pub actor : Actor
  pub request_id : String
  pub trace_id : String
  pub tenant_id : String
  pub parent_trace_id : Option String
  pub idempotency_key : Option String

-- ToolDefinition, less the schemas and the handler, which are the environment's.
pub record ToolDefinition : Type 0 where
  pub name : String
  pub description : String
  pub required_scopes : List String
  pub timeout_ms : ℕ
  pub idempotent : Bool

-- ToolResult
pub record ToolResult : Type 0 where
  pub id : String
  pub name : String
  pub status : ToolStatus
  pub output : Option String
  pub error_code : Option String
  pub error_message : Option String
  pub retryable : Bool
  pub latency_ms : ℕ

-- ToolAuditRecord, less `created_at`, which the broker leaves empty.
pub record ToolAuditRecord : Type 0 where
  pub id : String
  pub tool_name : String
  pub tenant_id : String
  pub actor_user_id : String
  pub request_id : String
  pub trace_id : String
  pub argument_hash : String
  pub status : ToolStatus
  pub latency_ms : ℕ
  pub error_code : Option String
  pub idempotency_key_hash : Option String
  pub replayed : Bool

-- ToolRegistry: `tools[name]`, where a later registration of a name replaces an earlier one.
abbrev pub ToolRegistry : Type 0
ToolRegistry = List (String × ToolDefinition)

unfoldable pub register : ToolRegistry → ToolDefinition → ToolRegistry
register tools tool = (tool.name, tool) ∷ delete_where (λ entry. entry.0 == tool.name) tools

unfoldable pub get_tool : ToolRegistry → String → Result ToolError ToolDefinition
get_tool tools name = elim (find (λ (entry : String × ToolDefinition). entry.0 == name) tools) [
  | none ↦ err (record {
    code = tool_not_found;
    message = str_append "Unknown tool: " name;
    retryable = false;
  })
  | some entry ↦ ok entry.1
]

-- `not ctx.idempotency_key`: absent or empty.
unfoldable pub lacks_key : ToolContext → Bool
lacks_key ctx = elim ctx.idempotency_key [ none ↦ true | some key ↦ key == "" ]

-- ', '.join(xs)
unfoldable pub comma_join : List String → String
comma_join [] = ""
comma_join (x ∷ []) = x
comma_join (x ∷ y ∷ xs) = str_append x (str_append ", " (comma_join (y ∷ xs)))
