-- ===== src/Tools/Examples.antt =====
-- Tests of the stores and the broker, and the witnesses of their properties.
use production_support_agent.Tools.Broker.Recording.{not_success}
use production_support_agent.Tools.Refinement.{
  sqlite_store-Refines, memory_store-Refines, sqlite_store_completes,
}
use production_support_agent.Tools.Sqlite.Store.{sqlite_store}
use production_support_agent.Tools.Memory.{memory_store, memory_reserve}
use production_support_agent.Tools.Sqlite.{sqlite_reserve, SqliteStore, is_stale, sqlite_view}
use production_support_agent.Tools.Broker.Releasing.{IsUndone, call-IsUndone}
use production_support_agent.Tools.Broker.Guarding.{IsGuarded, call-IsGuarded}
use production_support_agent.Tools.Broker.Auditing.{IsAudited, call-IsAudited}
use production_support_agent.Tools.Broker.Replaying.{
  Succeeds, IsInOrder, LaterCall, run_calls, EndsWith, EndsInConflict, call_replays, call_conflicts,
}
use production_support_agent.Tools.Broker.Calling.{
  Broker, call, reserve_idempotency, run_reserved, fail,
}
use production_support_agent.Tools.Idempotency.{
  IdempotencyStore, ReservesByEntry, CompletesEntry, ReleasesEntry, reserved, reserving, started,
}
use production_support_agent.Tools.Types.{
  ToolDefinition, ToolContext, ToolResult, get_tool, lacks_key,
}
use production_support_agent.Tools.Broker.{
  ToolWorld, CallStamp, timed_out, returned, check_call, authorize, require_idempotency, pop_fault,
  success_result, failed_result,
}
use production_support_agent.Prelude.{
  ℕ, ◌+◌, ◌<◌, str_append, ◌≡◌, refl, false, false≢true, none, some, [], ◌∷◌, arith, eq_iff,
  if◌then◌else◌, ◌==◌, nat_eq, string_eq, find, ok, err, select, contains, get_key,
}

abbrev world : ToolWorld
world = record {
  hash = λ text. str_append "h" text;
  hash_text = λ text. str_append "k" text;
  validate_input = λ tool text. if text == "" then err "empty" else ok text;
  validate_output = λ tool text. ok text;
  handler = λ tool text ctx. if text == "bad" then timed_out else returned text;
  milliseconds = λ n. "8000";
}

abbrev refund : ToolDefinition
refund = record {
  name = "create_refund";
  description = "";
  required_scopes = "refund:write" ∷ [];
  timeout_ms = 8000;
  idempotent = false;
}

abbrev request : ToolContext
request = record {
  actor = record { user_id = "u"; tenant_id = "t"; roles = []; scopes = "refund:write" ∷ [] };
  request_id = "r";
  trace_id = "x";
  tenant_id = "t";
  parent_trace_id = none;
  idempotency_key = some "key";
}

abbrev stamp_at : ℕ → CallStamp
stamp_at n = record {
  started_at = n;
  finished_at = n + 5;
  latency_ms = 5;
  result_id = "tool_1";
  audit_id = "audit_1";
}

sixty_pos : 0 < 60
sixty_pos = ground arith

abbrev one_minute : IdempotencyStore
one_minute = sqlite_store 60 sixty_pos

abbrev broker : Broker SqliteStore
broker = record {
  registry = ("create_refund", refund) ∷ [];
  idempotency = [];
  audit_log = [];
  faults = [];
  invocations = [];
}

paid-Succeeds :
    Succeeds world one_minute "create_refund" request refund "42" (stamp_at 0) broker "42"
unfolding check_call get_tool find authorize select contains lacks_key call require_idempotency
    reserve_idempotency sqlite_reserve run_reserved pop_fault get_key success_result
paid-Succeeds = record {
  checked = refl;
  write = refl;
  keyed = refl;
  valid = record { unique = tt; results = tt };
  in_time = ground arith;
  success = refl;
}

abbrev paid : Broker SqliteStore
paid = (call world one_minute (stamp_at 0) "create_refund" request broker "42").0

call-IsAudited_example :
    IsAudited world
      (stamp_at 0)
      "create_refund"
      request
      broker
      (call world one_minute (stamp_at 0) "create_refund" request broker "42")
call-IsAudited_example =
    call-IsAudited world one_minute (stamp_at 0) "create_refund" request broker "42"

call-IsGuarded_example : IsGuarded world "create_refund" request "42" broker paid
call-IsGuarded_example =
    call-IsGuarded world one_minute (stamp_at 0) "create_refund" request "42" broker

-- A call of the tool under another key, and a retry of the first with a request of its own.
abbrev other_call : LaterCall
other_call = record {
  stamp = stamp_at 6;
  name = "create_refund";
  ctx = record request { idempotency_key = some "other" };
  arguments = "7";
}

abbrev retried : ToolContext
retried = record request { request_id = "r2"; trace_id = "x2" }

retry_order : IsInOrder 5 (other_call ∷ []) 20
retry_order = (ground arith, ground arith, ground arith)

abbrev between_calls : Broker SqliteStore
between_calls = run_calls world one_minute paid (other_call ∷ [])

call_replays_example :
    EndsWith world one_minute "create_refund" request refund "42"
      (stamp_at 0)
      broker
      "42"
      paid-Succeeds
      (other_call ∷ [])
      (stamp_at 20)
      retried
      retry_order
      (refl, refl, refl)
      "h42"
      (record (call world one_minute (stamp_at 0) "create_refund" request broker "42").1 {
        latency_ms = 5;
      })
      (call world one_minute (stamp_at 20) "create_refund" retried between_calls "42")
unfolding check_call get_tool find authorize select contains
call_replays_example =
    call_replays world one_minute "create_refund" request refund "42" (stamp_at 0) broker "42"
      paid-Succeeds (other_call ∷ []) (stamp_at 20) retried retry_order (refl, refl, refl) "42" "42"
      refl refl

call_conflicts_example :
    EndsInConflict world one_minute "create_refund" request refund "42"
      (stamp_at 0)
      broker
      "42"
      paid-Succeeds
      (other_call ∷ [])
      (stamp_at 20)
      retried
      retry_order
      (refl, refl, refl)
      (call world one_minute (stamp_at 20) "create_refund" retried between_calls "43")
unfolding check_call get_tool find authorize select contains
call_conflicts_example =
    call_conflicts world one_minute "create_refund" request refund "42" (stamp_at 0) broker "42"
      paid-Succeeds (other_call ∷ []) (stamp_at 20) retried retry_order (refl, refl, refl) "43" "43"
      refl (λ e. false≢true ((eq_iff "h42" "h43").1 e))

call-IsUndone_example :
    IsUndone world one_minute "create_refund" request refund "bad"
      (stamp_at 0)
      broker
      (call world one_minute (stamp_at 0) "create_refund" request broker "bad")
unfolding check_call get_tool find authorize select contains lacks_key call require_idempotency
    reserve_idempotency sqlite_reserve sqlite_view run_reserved pop_fault get_key fail failed_result
call-IsUndone_example =
    call-IsUndone world one_minute "create_refund" request refund "bad" (stamp_at 0) broker "bad"
      refl refl refl (record { unique = tt; results = tt }) refl (not_success refl)

abbrev result : ToolResult
result = (call world one_minute (stamp_at 0) "create_refund" request broker "42").1

sqlite_store-Refines_example :
    ReservesByEntry one_minute (sqlite_reserve 60 [] "a" "h" 0).0 "a" "h" 5
    × ReleasesEntry one_minute (sqlite_reserve 60 [] "a" "h" 0).0 "a" "h" 5
sqlite_store-Refines_example =
    sqlite_store-Refines 60 sixty_pos (sqlite_reserve 60 [] "a" "h" 0).0
      (reserving [] "a" "h" 0 started) "a" "h" 5

sqlite_store_completes_example :
    CompletesEntry one_minute (sqlite_reserve 60 [] "a" "h" 0).0 "a" "h" result 5
unfolding sqlite_reserve sqlite_view find is_stale
sqlite_store_completes_example =
    sqlite_store_completes 60 sixty_pos (sqlite_reserve 60 [] "a" "h" 0).0
      (reserving [] "a" "h" 0 started) "a" "h" result 5 refl

memory_store-Refines_example :
    ReservesByEntry memory_store (memory_reserve [] "a" "h").0 "a" "h" 5
    × CompletesEntry memory_store (memory_reserve [] "a" "h").0 "a" "h" result 5
    × ReleasesEntry memory_store (memory_reserve [] "a" "h").0 "a" "h" 5
memory_store-Refines_example =
    memory_store-Refines (memory_reserve [] "a" "h").0 (reserving [] "a" "h" 0 started) "a" "h"
      result 5

-- A reservation of a minute lapses, and the key is taken over.
taken_over_test :
    (sqlite_reserve 60 (sqlite_reserve 60 [] "a" "h" 0).0 "a" "h" 60000000).1 ≡ reserved
unfolding sqlite_reserve is_stale find
taken_over_test = refl
