-- ===== src/Tools/Broker/Recording.antt =====
-- What a call of a write tool leaves in the store of idempotency keys, by the promises of the store.
use production_support_agent.Tools.Idempotency.{free, running, done, lapsed}
use production_support_agent.Tools.Broker.{
  invalid, too_slow, unexpected, ToolFault, ToolWorld, ToolError, CallError, ToolFaultProfile,
  tool_error, ToolDefinition, CallStamp, ToolContext, lacks_key, failed_result, pop_fault,
  success_result, require_idempotency, check_call, idempotency_key, outcome_of, ToolStatus, invalid,
  unexpected,
}
use production_support_agent.Tools.Idempotency.{
  reserved, replay, conflict, running_already, IdempotencyDecision, IdempotencyStore, replay, done,
  decide_entry, IsReservedFor, running, reserve_entry, Entry, lapsed,
}
use production_support_agent.Tools.Types.{ToolRegistry, ToolResult}
use production_support_agent.Prelude.{
  ℕ, ◌≤◌, String, ◌≡◌, refl, sym, ap, ◌∙◌, subst, ◌≢◌, inl, inr, false, Option, none, some, [], ◌∷◌,
  ◌++◌, arith, eq_iff, eq_refl, if◌then◌else◌, ◌==◌, nat_eq, string_eq, ok, err, Result,
}
use production_support_agent.Tools.Broker.Calling.{
  Broker, call, run_reserved, run_unless, record_outcome, continue_keyed, continue_checked, audit,
  fail, reserve_idempotency, continue_call, Reservation, read_decision, fault_error,
}

failed_result_status :
    (w : ToolWorld) (stamp : CallStamp) (name : String) (tool : Option ToolDefinition)
    (e : CallError)
    → (failed_result w stamp name tool e).status ≡ ToolStatus.failed
unfolding failed_result
failed_result_status w stamp name tool (invalid message) = refl
failed_result_status w stamp name tool too_slow = refl
failed_result_status w stamp name tool (tool_error e) = refl
failed_result_status w stamp name tool (unexpected message) = refl

pub not_success : {s : ToolStatus} → s ≡ ToolStatus.failed → s ≢ ToolStatus.success
not_success f h = ground arith

decide_entry_reserved :
    (e : Entry) (arg_hash : String)
    → decide_entry e arg_hash ≡ reserved
    → reserve_entry e arg_hash ≡ running arg_hash
unfolding decide_entry reserve_entry
decide_entry_reserved free arg_hash h = refl
decide_entry_reserved (running holder) arg_hash h = ground arith
decide_entry_reserved (done holder result) arg_hash h = ground arith
decide_entry_reserved (lapsed holder) arg_hash h = ground arith

decide_entry_replay :
    (e : Entry) (arg_hash : String) (result : ToolResult)
    → decide_entry e arg_hash ≡ replay result
    → reserve_entry e arg_hash ≡ done arg_hash result
unfolding decide_entry reserve_entry
decide_entry_replay free arg_hash result h = ground arith
decide_entry_replay (running holder) arg_hash result h = ground arith
decide_entry_replay (done holder r) arg_hash result h = ground (arith, eq_iff holder arg_hash)
decide_entry_replay (lapsed holder) arg_hash result h = ground arith

module _ (w : ToolWorld) (store : IdempotencyStore) (name : String) (ctx : ToolContext)
    (tool : ToolDefinition) (parsed : String) where
  abbrev pub call_key : String
  call_key = idempotency_key w tool.name ctx

  -- The store holds the result of the call for these arguments, and the call returned it.
  pub record IsRecorded (stamp : CallStamp) (registry : ToolRegistry)
      (out : Broker store.Store × ToolResult) : Type 0 where
    pub result : ToolResult
    pub valid : store.IsValid out.0.idempotency
    pub entry :
        store.view out.0.idempotency call_key stamp.finished_at ≡ done (w.hash parsed) result
    pub shown : out.1 ≡ record result { latency_ms = stamp.latency_ms }
    pub registered : out.0.registry ≡ registry

  needs_key : tool.idempotent ≡ false → lacks_key ctx ≡ false → require_idempotency tool ctx ≡ ok tt
  unfolding require_idempotency
  needs_key write keyed = rw (write, keyed) refl

  reserves :
      (stamp : CallStamp) (s : store.Store)
      → tool.idempotent ≡ false
      → lacks_key ctx ≡ false
      → reserve_idempotency w store s tool ctx (w.hash parsed) stamp.started_at ≡ (
        (store.reserve s call_key (w.hash parsed) stamp.started_at).0,
        read_decision call_key (store.reserve s call_key (w.hash parsed) stamp.started_at).1,
      )
  unfolding reserve_idempotency
  reserves stamp s write keyed = rw (write, keyed) refl

  abbrev pub reserved_broker : CallStamp → Broker store.Store → Broker store.Store
  reserved_broker stamp b = record b {
    idempotency = (store.reserve b.idempotency call_key (w.hash parsed) stamp.started_at).0;
  }

  -- The decision of a valid store about the key of the call.
  pub call_decided :
      (stamp : CallStamp) (b : Broker store.Store) (arguments : String)
      → check_call w b.registry name arguments ctx ≡ ok (tool, parsed)
      → tool.idempotent ≡ false
      → lacks_key ctx ≡ false
      → call w store stamp name ctx b arguments
        ≡ continue_call w store stamp name ctx (reserved_broker stamp b) tool parsed (
            read_decision call_key
              (store.reserve b.idempotency call_key (w.hash parsed) stamp.started_at).1)
  unfolding call
  call_decided stamp b arguments checked write keyed =
      ap (continue_checked w store stamp name ctx b arguments) checked
      ∙ ap (continue_keyed w store stamp name ctx b tool parsed) (needs_key write keyed)
      ∙ ap
          (λ (held : store.Store × Result ToolError Reservation).
            continue_call w store stamp name ctx (record b { idempotency = held.0 }) tool parsed
              held.1)
          (reserves stamp b.idempotency write keyed)

  module _ (stamp : CallStamp) where
    record_outcome-IsRecorded :
        (b : Broker store.Store) (outcome : Result CallError String)
        → store.IsValid b.idempotency
        → IsReservedFor (w.hash parsed) (store.view b.idempotency call_key stamp.finished_at)
        → (record_outcome w store stamp name ctx tool
            (w.hash parsed)
            (some call_key)
            (b, outcome)).1.status
          ≡ ToolStatus.success
        → IsRecorded stamp b.registry (
            record_outcome w store stamp name ctx tool (w.hash parsed) (some call_key) (b, outcome))
    unfolding fail audit success_result
    record_outcome-IsRecorded b (err e) valid held h =
        absurd (not_success (failed_result_status w stamp name (some tool) e) h)
    record_outcome-IsRecorded b (ok output) valid held h = record {
      result = success_result stamp name output;
      valid =
          store.complete-IsValid b.idempotency call_key (w.hash parsed)
            (success_result stamp name output) stamp.finished_at valid;
      entry =
          store.view-complete b.idempotency call_key (w.hash parsed) call_key
            (success_result stamp name output) stamp.finished_at valid held
          ∙ rw (eq_refl call_key) refl;
      shown = refl;
      registered = refl;
    }

    run_unless-IsRecorded :
        (b : Broker store.Store) (popped : ToolFaultProfile × Option ToolFault)
        → store.IsValid b.idempotency
        → IsReservedFor (w.hash parsed) (store.view b.idempotency call_key stamp.finished_at)
        → (record_outcome w store stamp name ctx tool
            (w.hash parsed)
            (some call_key)
            (run_unless w store stamp name ctx b tool parsed popped)).1.status
          ≡ ToolStatus.success
        → IsRecorded stamp b.registry (
            record_outcome w store stamp name ctx tool
              (w.hash parsed)
              (some call_key)
              (run_unless w store stamp name ctx b tool parsed popped))
    run_unless-IsRecorded b (faults, some fault) =
        record_outcome-IsRecorded (record b { faults = faults }) (err (fault_error fault))
    run_unless-IsRecorded b (faults, none) =
        record_outcome-IsRecorded
          (record b { invocations = b.invocations ++ (tool.name, parsed) ∷ [] })
          (outcome_of w tool.name (w.handler tool.name parsed ctx))

    -- A reservation lasts, though it may lapse.
    still_reserved :
        (s : store.Store) (now later : ℕ)
        → now ≤ later
        → store.IsValid s
        → store.view s call_key now ≡ running (w.hash parsed)
        → IsReservedFor (w.hash parsed) (store.view s call_key later)
    still_reserved s now later le valid e = elim (store.view_later s call_key now later valid le) [
      | inl same ↦ subst (IsReservedFor (w.hash parsed)) (sym (same ∙ e)) refl
      | inr (holder, was, lapsed_now) ↦
          subst (IsReservedFor (w.hash parsed)) (sym lapsed_now) (ground (arith, sym was ∙ e))
    ]

  -- A finished call stays finished.
  pub still_done :
      (s : store.Store) (now later : ℕ) (holder : String) (result : ToolResult)
      → now ≤ later
      → store.IsValid s
      → store.view s call_key now ≡ done holder result
      → store.view s call_key later ≡ done holder result
  still_done s now later holder result le valid e =
      elim (store.view_later s call_key now later valid le) [
        | inl same ↦ same ∙ e
        | inr (other, was, lapsed_now) ↦ absurd (ground (arith, sym was ∙ e))
      ]

  -- The entry of the key of the call once it is reserved.
  moved :
      (s : store.Store) (now : ℕ)
      → store.IsValid s
      → store.view (store.reserve s call_key (w.hash parsed) now).0 call_key now
        ≡ reserve_entry (store.view s call_key now) (w.hash parsed)
  moved s now valid =
      store.view-reserve s call_key (w.hash parsed) call_key now valid ∙ rw (eq_refl call_key) refl

  module _ (stamp : CallStamp) (b : Broker store.Store) (valid : store.IsValid b.idempotency)
      (le : stamp.started_at ≤ stamp.finished_at) where
    abbrev reserved_valid : store.IsValid (reserved_broker stamp b).idempotency
    reserved_valid =
        store.reserve-IsValid b.idempotency call_key (w.hash parsed) stamp.started_at valid

    pub continue_call-IsRecorded :
        (d : IdempotencyDecision)
        → decide_entry (store.view b.idempotency call_key stamp.started_at) (w.hash parsed) ≡ d
        → (continue_call w store stamp name ctx
            (reserved_broker stamp b)
            tool
            parsed
            (read_decision call_key d)).1.status
          ≡ ToolStatus.success
        → IsRecorded stamp b.registry (
            continue_call w store stamp name ctx
              (reserved_broker stamp b)
              tool
              parsed
              (read_decision call_key d))
    unfolding fail audit run_reserved
    continue_call-IsRecorded conflict e h =
        absurd (not_success (failed_result_status w stamp name (some tool) _) h)
    continue_call-IsRecorded running_already e h =
        absurd (not_success (failed_result_status w stamp name (some tool) _) h)
    continue_call-IsRecorded reserved e h =
        run_unless-IsRecorded stamp (reserved_broker stamp b) (pop_fault b.faults name)
          reserved_valid
          (still_reserved stamp (reserved_broker stamp b).idempotency stamp.started_at
            stamp.finished_at le reserved_valid
            (moved b.idempotency stamp.started_at valid
              ∙ decide_entry_reserved _ (w.hash parsed) e))
          h
    continue_call-IsRecorded (replay result) e h = record {
      result = result;
      valid = reserved_valid;
      entry =
          still_done (reserved_broker stamp b).idempotency stamp.started_at stamp.finished_at
            (w.hash parsed) result le reserved_valid
            (moved b.idempotency stamp.started_at valid
              ∙ decide_entry_replay _ (w.hash parsed) result e);
      shown = refl;
      registered = refl;
    }

-- What a call is when the answer of the store to its key is known.
pub call_answered :
    (w : ToolWorld) (store : IdempotencyStore) (name : String) (ctx : ToolContext)
    (tool : ToolDefinition) (parsed : String) (stamp : CallStamp) (b : Broker store.Store)
    (arguments : String) (entry : Entry)
    → check_call w b.registry name arguments ctx ≡ ok (tool, parsed)
    → tool.idempotent ≡ false
    → lacks_key ctx ≡ false
    → store.IsValid b.idempotency
    → store.view b.idempotency (call_key w store name ctx tool parsed) stamp.started_at ≡ entry
    → call w store stamp name ctx b arguments
      ≡ continue_call w store stamp name ctx
          (reserved_broker w store name ctx tool parsed stamp b)
          tool
          parsed
          (read_decision
            (call_key w store name ctx tool parsed)
            (decide_entry entry (w.hash parsed)))
call_answered w store name ctx tool parsed stamp b arguments entry checked write keyed valid e =
    call_decided w store name ctx tool parsed stamp b arguments checked write keyed
    ∙ ap
        (λ d.
          continue_call w store stamp name ctx
            (reserved_broker w store name ctx tool parsed stamp b) tool parsed
            (read_decision (call_key w store name ctx tool parsed) d))
        (store.reserve_decision b.idempotency (call_key w store name ctx tool parsed)
            (w.hash parsed) stamp.started_at valid
          ∙ ap (λ v. decide_entry v (w.hash parsed)) e)

pub decide_done :
    (result : ToolResult) (holder arg_hash : String)
    → decide_entry (done holder result) arg_hash
      ≡ (if holder == arg_hash then replay result else conflict)
unfolding decide_entry
decide_done result holder arg_hash = refl
