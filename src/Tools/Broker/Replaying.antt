-- ===== src/Tools/Broker/Replaying.antt =====
-- A write that succeeded runs once: a call under the same key is answered from the store.
use production_support_agent.Tools.Idempotency.{done}
use production_support_agent.Tools.Broker.Keeping.{IsKept, IsKept-later, call-IsKept}
use production_support_agent.Tools.Broker.{idempotency_key}
use production_support_agent.Tools.Types.{ToolRegistry, lacks_key}
use production_support_agent.Prelude.{ℕ, List}
use production_support_agent.Tools.Broker.{
  ToolWorld, ToolDefinition, CallStamp, ToolContext, lacks_key, audit_record, failed_result,
  check_call, ToolStatus,
}
use production_support_agent.Tools.Idempotency.{replay, conflict, IdempotencyStore, replay, done}
use production_support_agent.Tools.Types.{ToolResult, idempotency_conflict}
use production_support_agent.Prelude.{
  ◌≤◌, String, ◌≡◌, refl, sym, ap, ◌∙◌, subst, ◌≢◌, Bool, true, false, some, [], ◌∷◌, ◌++◌, arith,
  eq_iff, if◌then◌else◌, ◌==◌, nat_eq, string_eq, ok,
}
use production_support_agent.Tools.Broker.Calling.{
  Broker, call, audit, fail, continue_call, read_decision,
}
use production_support_agent.Tools.Broker.Recording.{
  call_key, reserved_broker, IsRecorded, call_answered, decide_done, continue_call-IsRecorded,
}

-- A call of a write tool with a key, on a store in order, that passed the checks and succeeded.
pub record Succeeds (w : ToolWorld) (store : IdempotencyStore) (name : String) (ctx : ToolContext)
    (tool : ToolDefinition) (parsed : String) (stamp : CallStamp) (b : Broker store.Store)
    (arguments : String) : Type 0 where
  pub checked : check_call w b.registry name arguments ctx ≡ ok (tool, parsed)
  pub write : tool.idempotent ≡ false
  pub keyed : lacks_key ctx ≡ false
  pub valid : store.IsValid b.idempotency
  pub in_time : stamp.started_at ≤ stamp.finished_at
  pub success : (call w store stamp name ctx b arguments).1.status ≡ ToolStatus.success

-- A call that comes later, with its own tool, context and arguments.
pub record LaterCall : Type 0 where
  pub stamp : CallStamp
  pub name : String
  pub ctx : ToolContext
  pub arguments : String

-- Calls one after the other.
abbrev pub run_calls :
    (w : ToolWorld) (store : IdempotencyStore)
    → Broker store.Store
    → List LaterCall
    → Broker store.Store
run_calls w store b [] = b
run_calls w store b (c ∷ calls) =
    run_calls w store (call w store c.stamp c.name c.ctx b c.arguments).0 calls

-- The calls start and finish one after the other, between two times.
abbrev pub IsInOrder : ℕ → List LaterCall → ℕ → Type 0
IsInOrder now [] later = now ≤ later
IsInOrder now (c ∷ calls) later =
    (now ≤ c.stamp.started_at)
    × (c.stamp.started_at ≤ c.stamp.finished_at)
    × IsInOrder c.stamp.finished_at calls later

-- The contexts have one tenant, actor and idempotency key.
abbrev pub HasSameKey : ToolContext → ToolContext → Type 0
HasSameKey ctx other =
    (other.tenant_id ≡ ctx.tenant_id)
    × (other.actor.user_id ≡ ctx.actor.user_id)
    × (other.idempotency_key ≡ ctx.idempotency_key)

run_calls-IsKept :
    (w : ToolWorld) (store : IdempotencyStore) (registry : ToolRegistry) (key arg_hash : String)
    (result : ToolResult) (calls : List LaterCall) (b : Broker store.Store) (now later : ℕ)
    → IsInOrder now calls later
    → IsKept store registry key arg_hash result b now
    → IsKept store registry key arg_hash result (run_calls w store b calls) later
run_calls-IsKept w store registry key arg_hash result [] b now later order h =
    IsKept-later store registry key arg_hash result b now later order h
run_calls-IsKept w store registry key arg_hash result (c ∷ calls) b now later order h =
    run_calls-IsKept w store registry key arg_hash result calls
      (call w store c.stamp c.name c.ctx b c.arguments).0 c.stamp.finished_at later order.2
      (call-IsKept store registry key arg_hash result w c.stamp c.name c.ctx order.1 b c.arguments
        (IsKept-later store registry key arg_hash result b now c.stamp.started_at order.0 h))

module _ (w : ToolWorld) (store : IdempotencyStore) (name : String) (ctx : ToolContext)
    (tool : ToolDefinition) (parsed : String) (stamp : CallStamp) (b : Broker store.Store)
    (arguments : String) (h : Succeeds w store name ctx tool parsed stamp b arguments) where
  call-IsRecorded :
      IsRecorded w store name ctx tool parsed stamp b.registry
        (call w store stamp name ctx b arguments)
  call-IsRecorded =
      let answered =
        call_answered w store name ctx tool parsed stamp b arguments _ h.checked h.write h.keyed
          h.valid refl in
      subst (IsRecorded w store name ctx tool parsed stamp b.registry) (sym answered) (
        continue_call-IsRecorded w store name ctx tool parsed stamp b h.valid h.in_time _ refl
          (subst (λ out. out.1.status ≡ ToolStatus.success) answered h.success))

  abbrev with_latency : CallStamp → ToolResult → ToolResult
  with_latency again r = record r { latency_ms = again.latency_ms }

  abbrev pub first : Broker store.Store × ToolResult
  first = call w store stamp name ctx b arguments

  -- After calls in order, the result is still under the key of the call.
  first-IsKept :
      (calls : List LaterCall) (later : ℕ)
      → IsInOrder stamp.finished_at calls later
      → IsKept store b.registry
          (call_key w store name ctx tool parsed)
          (w.hash parsed)
          call-IsRecorded.result
          (run_calls w store first.0 calls)
          later
  first-IsKept calls later order =
      let recorded = call-IsRecorded in
      run_calls-IsKept w store b.registry (call_key w store name ctx tool parsed) (w.hash parsed)
        recorded.result calls first.0 stamp.finished_at later order
        (record {
          valid = recorded.valid;
          entry = recorded.entry;
          registered = recorded.registered;
        })

  module _ (calls : List LaterCall) (again : CallStamp) (ctx_again : ToolContext)
      (order : IsInOrder stamp.finished_at calls again.started_at)
      (one_key : HasSameKey ctx ctx_again) where
    abbrev pub between : Broker store.Store
    between = run_calls w store first.0 calls

    abbrev pub second : String → Broker store.Store × ToolResult
    second arguments_again = call w store again name ctx_again between arguments_again

    keyed_again : lacks_key ctx_again ≡ false
    unfolding lacks_key
    keyed_again = rw one_key.2 h.keyed

    key_again :
        (parsed_again : String)
        → call_key w store name ctx_again tool parsed_again ≡ call_key w store name ctx tool parsed
    unfolding idempotency_key
    key_again parsed_again = rw (one_key.0, one_key.1, one_key.2) refl

    -- The answer to another call under the same key, for arguments that the checks let pass.
    answer_again :
        (arguments_again parsed_again : String) (same : Bool)
        → check_call w b.registry name arguments_again ctx_again ≡ ok (tool, parsed_again)
        → (w.hash parsed == w.hash parsed_again) ≡ same
        → second arguments_again
          ≡ continue_call w store again name ctx_again
              (reserved_broker w store name ctx_again tool parsed_again again between)
              tool
              parsed_again
              (read_decision
                (call_key w store name ctx_again tool parsed_again)
                (if same then replay call-IsRecorded.result else conflict))
    answer_again arguments_again parsed_again same checked compared =
        let recorded = call-IsRecorded in
        let kept = first-IsKept calls again.started_at order in
        call_answered w store name ctx_again tool parsed_again again between arguments_again
          (done (w.hash parsed) recorded.result)
          (ap (λ tools. check_call w tools name arguments_again ctx_again) kept.registered
            ∙ checked)
          h.write keyed_again kept.valid
          (ap (λ key. store.view between.idempotency key again.started_at) (key_again parsed_again)
            ∙ kept.entry)
        ∙ ap
            (λ d.
              continue_call w store again name ctx_again
                (reserved_broker w store name ctx_again tool parsed_again again between) tool
                parsed_again (read_decision (call_key w store name ctx_again tool parsed_again) d))
            (decide_done recorded.result (w.hash parsed) (w.hash parsed_again)
              ∙ ap (λ c. if c then replay recorded.result else conflict) compared)

    -- The outcome of a second call that answers `result` without a handler.
    abbrev pub EndsWith : String → ToolResult → Broker store.Store × ToolResult → Type 0
    EndsWith arg_hash result out =
        (out.1 ≡ result)
        × (out.0.invocations ≡ between.invocations)
        × (out.0.audit_log
            ≡ between.audit_log ++ audit_record w again name arg_hash out.1 ctx_again true ∷ [])

    -- When a write tool was called with a key, on a store in order, and the call passed the checks
    -- and succeeded, and then came any calls of any tools, one after the other, a call of the tool
    -- that starts after these, for the same tenant, actor and key, whatever its request and trace,
    -- and whose arguments pass the checks and have the same hash, returns the result of the first
    -- call with its own latency, runs no handler and audits a replay, on every store that keeps the
    -- promises of a store.
    pub call_replays :
        (arguments_again parsed_again : String)
        → check_call w b.registry name arguments_again ctx_again ≡ ok (tool, parsed_again)
        → w.hash parsed ≡ w.hash parsed_again
        → EndsWith
            (w.hash parsed_again)
            (record first.1 { latency_ms = again.latency_ms })
            (second arguments_again)
    unfolding audit
    call_replays arguments_again parsed_again checked same =
        subst (EndsWith (w.hash parsed_again) (record first.1 { latency_ms = again.latency_ms }))
          (sym (
            answer_again arguments_again parsed_again true checked
              ((eq_iff (w.hash parsed) (w.hash parsed_again)).1 same)))
          (ap (with_latency again) (sym call-IsRecorded.shown), refl, refl)

    -- The outcome of a call that is refused for the payload under its key.
    abbrev pub EndsInConflict : Broker store.Store × ToolResult → Type 0
    EndsInConflict out =
        (out.1.status ≡ ToolStatus.failed)
        × (out.1.error_code ≡ some idempotency_conflict)
        × (out.1.retryable ≡ false)
        × (out.0.invocations ≡ between.invocations)

    -- After a write tool was called with a key, on a store in order, and the call passed the checks
    -- and succeeded, and after any calls of any tools that came then, one after the other, a call of
    -- the tool that starts after these, for the same tenant, actor and key, whatever its request and
    -- trace, and whose arguments pass the checks and have another hash, fails with
    -- IDEMPOTENCY_CONFLICT, which is not retryable, and runs no handler.
    pub call_conflicts :
        (arguments_again parsed_again : String)
        → check_call w b.registry name arguments_again ctx_again ≡ ok (tool, parsed_again)
        → w.hash parsed ≢ w.hash parsed_again
        → EndsInConflict (second arguments_again)
    unfolding fail audit failed_result
    call_conflicts arguments_again parsed_again checked apart =
        subst EndsInConflict
          (sym (
            answer_again arguments_again parsed_again false checked
              (ground (arith, apart, eq_iff (w.hash parsed) (w.hash parsed_again)))))
          (refl, refl, refl, refl)
