-- ===== src/Tools/Broker/Releasing.antt =====
-- A write that failed gives its key back.
use production_support_agent.Tools.Idempotency.{free, release_entry}
use production_support_agent.Tools.Broker.{
  ToolFault, ToolWorld, CallError, ToolFaultProfile, ToolDefinition, CallStamp, ToolContext,
  lacks_key, pop_fault, success_result, check_call, outcome_of, ToolStatus,
}
use production_support_agent.Tools.Idempotency.{IdempotencyStore, decide_entry, reserve_entry}
use production_support_agent.Tools.Types.{ToolResult}
use production_support_agent.Prelude.{
  String, ◌≡◌, refl, sym, ◌∙◌, subst, ◌≢◌, inl, inr, false, Option, none, some, [], ◌∷◌, ◌++◌,
  eq_iff, eq_refl, ◌==◌, nat_eq, string_eq, Bool-cases, ok, err, Result,
}
use production_support_agent.Tools.Broker.Calling.{
  Broker, call, run_reserved, run_unless, record_outcome, audit, fail,
}
use production_support_agent.Tools.Broker.Recording.{call_key, reserved_broker, call_answered}

module _ (w : ToolWorld) (store : IdempotencyStore) (name : String) (ctx : ToolContext)
    (tool : ToolDefinition) (parsed : String) (stamp : CallStamp) where
  -- The store shows at the time of the reservation what it showed before the call.
  abbrev pub IsUndone : Broker store.Store → Broker store.Store × ToolResult → Type 0
  IsUndone b out =
      (j : String)
      → store.view out.0.idempotency j stamp.started_at
        ≡ store.view b.idempotency j stamp.started_at

  release_undoes :
      (s : store.Store) (j : String)
      → store.IsValid s
      → store.view s (call_key w store name ctx tool parsed) stamp.started_at ≡ free
      → store.view
          (store.release
            (store.reserve s
              (call_key w store name ctx tool parsed)
              (w.hash parsed)
              stamp.started_at).0
            (call_key w store name ctx tool parsed)
            (w.hash parsed))
          j
          stamp.started_at
        ≡ store.view s j stamp.started_at
  unfolding reserve_entry release_entry
  release_undoes s j valid unused =
      let key = call_key w store name ctx tool parsed in
      store.view-release (store.reserve s key (w.hash parsed) stamp.started_at).0 key
        (w.hash parsed) j stamp.started_at
        (store.reserve-IsValid s key (w.hash parsed) stamp.started_at valid)
      ∙ elim (Bool-cases (key == j)) [
        | inl t ↦
            let j_is = (eq_iff key j).0 t in
            let free_j = subst (λ i. store.view s i stamp.started_at ≡ free) j_is unused in
            rw
              (
                t,
                store.view-reserve s key (w.hash parsed) j stamp.started_at valid,
                t,
                free_j,
                eq_refl (w.hash parsed),
              )
              refl
        | inr f ↦
            rw f (store.view-reserve s key (w.hash parsed) j stamp.started_at valid ∙ rw f refl)
      ]

  record_outcome-IsUndone :
      (b : Broker store.Store)
      → store.IsValid b.idempotency
      → store.view b.idempotency (call_key w store name ctx tool parsed) stamp.started_at ≡ free
      → (popped : ToolFaultProfile × Option ToolFault)
      → let out =
          record_outcome w store stamp name ctx tool
            (w.hash parsed)
            (some (call_key w store name ctx tool parsed))
            (run_unless w store stamp name ctx
              (reserved_broker w store name ctx tool parsed stamp b)
              tool
              parsed
              popped) in
        out.1.status ≢ ToolStatus.success → IsUndone b out
  unfolding fail audit success_result
  record_outcome-IsUndone b valid unused (faults, some fault) h =
      λ j. release_undoes b.idempotency j valid unused
  record_outcome-IsUndone b valid unused (faults, none) h =
      by_outcome (outcome_of w tool.name (w.handler tool.name parsed ctx)) h
    where
      by_outcome :
          (outcome : Result CallError String)
          → let out =
              record_outcome w store stamp name ctx tool
                (w.hash parsed)
                (some (call_key w store name ctx tool parsed))
                (
                  record (reserved_broker w store name ctx tool parsed stamp b) {
                    invocations = b.invocations ++ (tool.name, parsed) ∷ [];
                  },
                  outcome,
                ) in
            out.1.status ≢ ToolStatus.success → IsUndone b out
      by_outcome (err e) k = λ j. release_undoes b.idempotency j valid unused
      by_outcome (ok output) k = absurd (k refl)

-- A call of a write tool that passes the checks, on a store in order and under a key that the
-- store shows free, when it does not succeed, leaves the store, as it is seen at the time of the
-- reservation, as it was.
pub call-IsUndone :
    (w : ToolWorld) (store : IdempotencyStore) (name : String) (ctx : ToolContext)
    (tool : ToolDefinition) (parsed : String) (stamp : CallStamp) (b : Broker store.Store)
    (arguments : String)
    → check_call w b.registry name arguments ctx ≡ ok (tool, parsed)
    → tool.idempotent ≡ false
    → lacks_key ctx ≡ false
    → store.IsValid b.idempotency
    → store.view b.idempotency (call_key w store name ctx tool parsed) stamp.started_at ≡ free
    → (call w store stamp name ctx b arguments).1.status ≢ ToolStatus.success
    → IsUndone w store name ctx tool parsed stamp b (call w store stamp name ctx b arguments)
unfolding decide_entry run_reserved
call-IsUndone w store name ctx tool parsed stamp b arguments checked write keyed valid unused h =
    let answered =
      call_answered w store name ctx tool parsed stamp b arguments free checked write keyed valid
        unused in
    subst (IsUndone w store name ctx tool parsed stamp b) (sym answered) (
      record_outcome-IsUndone w store name ctx tool parsed stamp b valid unused
        (pop_fault b.faults name) (subst (λ out. out.1.status ≢ ToolStatus.success) answered h))
