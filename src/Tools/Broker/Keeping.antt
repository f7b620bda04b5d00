-- ===== src/Tools/Broker/Keeping.antt =====
-- A result that is stored under a key stays there through the calls of any tools that follow.
use production_support_agent.Tools.Idempotency.{
  reserved, replay, conflict, running_already, IdempotencyDecision, IdempotencyStore, Entry, free,
  running, done, lapsed, decide_entry, reserve_entry, IsReservedFor,
}
use production_support_agent.Tools.Broker.{
  ToolFault, ToolWorld, ToolFaultProfile, ToolDefinition, CallStamp, ToolContext, CallError,
  ToolError, lacks_key, require_idempotency, check_call, idempotency_key, pop_fault, outcome_of,
  success_result,
}
use production_support_agent.Tools.Types.{ToolRegistry, ToolResult}
use production_support_agent.Tools.Broker.Calling.{
  Broker, call, run_reserved, run_unless, record_outcome, continue_keyed, continue_checked, audit,
  fail, reserve_idempotency, continue_call, read_decision, fault_error,
}
use production_support_agent.Prelude.{
  ℕ, ◌≤◌, String, ◌≡◌, refl, sym, ap, ◌∙◌, subst, inl, inr, false, ◌||◌, Option, none, some, [],
  ◌∷◌, ◌++◌, arith, eq_iff, eq_refl, ◌==◌, nat_eq, string_eq, Bool-cases, ok, err, Result,
}

decide_reserved :
    (e : Entry) (arg_hash : String)
    → decide_entry e arg_hash ≡ reserved
    → IsReservedFor arg_hash (reserve_entry e arg_hash)
unfolding decide_entry reserve_entry
decide_reserved free arg_hash h = refl
decide_reserved (running holder) arg_hash h = absurd (ground arith)
decide_reserved (done holder result) arg_hash h = absurd (ground arith)
decide_reserved (lapsed holder) arg_hash h = ground (arith, h)

done_not_reserved :
    (holder arg_hash : String) (result : ToolResult)
    → decide_entry (done holder result) arg_hash ≡ reserved
    → ⊥
unfolding decide_entry
done_not_reserved holder arg_hash result h = ground arith

module _ (store : IdempotencyStore) where
  -- A reservation that may have lapsed in the meantime.
  IsReservedFor-later :
      (s : store.Store) (key arg_hash : String) (now later : ℕ)
      → now ≤ later
      → store.IsValid s
      → IsReservedFor arg_hash (store.view s key now)
      → IsReservedFor arg_hash (store.view s key later)
  IsReservedFor-later s key arg_hash now later le valid h =
      elim (store.view_later s key now later valid le) [
        | inl same ↦ subst (IsReservedFor arg_hash) (sym same) h
        | inr (holder, was, lapsed_now) ↦
            subst (IsReservedFor arg_hash) (sym lapsed_now) (subst (IsReservedFor arg_hash) was h)
      ]

  module _ (registry : ToolRegistry) (key arg_hash : String) (result : ToolResult) where
    -- The broker has the tools of the registry, and the result under the key.
    pub record IsKept (b : Broker store.Store) (now : ℕ) : Type 0 where
      pub valid : store.IsValid b.idempotency
      pub entry : store.view b.idempotency key now ≡ done arg_hash result
      pub registered : b.registry ≡ registry

    pub IsKept-later :
        (b : Broker store.Store) (now later : ℕ) → now ≤ later → IsKept b now → IsKept b later
    IsKept-later b now later le h = record {
      valid = h.valid;
      entry = elim (store.view_later b.idempotency key now later h.valid le) [
        | inl same ↦ same ∙ h.entry
        | inr (other, was, lapsed_now) ↦ absurd (ground (arith, sym was ∙ h.entry))
      ];
      registered = h.registered;
    }

    reserve-IsKept :
        (b : Broker store.Store) (other other_hash : String) (now : ℕ)
        → IsKept b now
        → IsKept
            (record b { idempotency = (store.reserve b.idempotency other other_hash now).0 })
            now
    unfolding reserve_entry
    reserve-IsKept b other other_hash now h = record {
      valid = store.reserve-IsValid b.idempotency other other_hash now h.valid;
      entry =
          store.view-reserve b.idempotency other other_hash key now h.valid
          ∙ (elim (Bool-cases (other == key)) [
            | inl t ↦ rw (t, h.entry) refl
            | inr t ↦ rw (t, h.entry) refl
          ]);
      registered = h.registered;
    }

    release-IsKept :
        (b : Broker store.Store) (other other_hash : String) (now : ℕ)
        → (other == key) ≡ false
        → IsKept b now
        → IsKept (record b { idempotency = store.release b.idempotency other other_hash }) now
    release-IsKept b other other_hash now apart h = record {
      valid = store.release-IsValid b.idempotency other other_hash h.valid;
      entry = store.view-release b.idempotency other other_hash key now h.valid ∙ rw apart h.entry;
      registered = h.registered;
    }

    complete-IsKept :
        (b : Broker store.Store) (other other_hash : String) (r : ToolResult) (now : ℕ)
        → (other == key) ≡ false
        → IsReservedFor other_hash (store.view b.idempotency other now)
        → IsKept b now
        → IsKept
            (record b { idempotency = store.complete b.idempotency other other_hash r now })
            now
    complete-IsKept b other other_hash r now apart held h = record {
      valid = store.complete-IsValid b.idempotency other other_hash r now h.valid;
      entry =
          store.view-complete b.idempotency other other_hash key r now h.valid held
          ∙ rw apart h.entry;
      registered = h.registered;
    }

    -- A key that a call can reserve is another one.
    reserved_apart :
        (b : Broker store.Store) (other other_hash : String) (now : ℕ)
        → IsKept b now
        → decide_entry (store.view b.idempotency other now) other_hash ≡ reserved
        → (other == key) ≡ false
    reserved_apart b other other_hash now h decided = elim (Bool-cases (other == key)) [
      | inl t ↦ absurd (
          done_not_reserved arg_hash other_hash result (
            ap (λ e. decide_entry e other_hash)
              (sym (ap (λ k. store.view b.idempotency k now) ((eq_iff other key).0 t) ∙ h.entry))
            ∙ decided))
      | inr f ↦ f
    ]

    -- The fields that the store and the registry do not depend on.
    same-IsKept :
        (b c : Broker store.Store) (now : ℕ)
        → c.idempotency ≡ b.idempotency
        → c.registry ≡ b.registry
        → IsKept b now
        → IsKept c now
    same-IsKept b c now same tools h = record {
      valid = subst store.IsValid (sym same) h.valid;
      entry = ap (λ s. store.view s key now) same ∙ h.entry;
      registered = tools ∙ h.registered;
    }

    module _ (w : ToolWorld) (stamp : CallStamp) (name : String) (ctx : ToolContext)
        (le : stamp.started_at ≤ stamp.finished_at) where
      -- The key that the call holds, if any, is another one, and reserved.
      abbrev HoldsOther : Broker store.Store → String → Option String → Type 0
      HoldsOther b other_hash none = Unit {0}
      HoldsOther b other_hash (some other) =
          ((other == key) ≡ false)
          × IsReservedFor other_hash (store.view b.idempotency other stamp.finished_at)

      record_outcome-IsKept :
          (tool : ToolDefinition) (other_hash : String) (held : Option String)
          (b : Broker store.Store) (outcome : Result CallError String)
          → HoldsOther b other_hash held
          → IsKept b stamp.finished_at
          → IsKept
              (record_outcome w store stamp name ctx tool other_hash held (b, outcome)).0
              stamp.finished_at
      unfolding fail audit
      record_outcome-IsKept tool other_hash none b (err e) holds h =
          same-IsKept b _ stamp.finished_at refl refl h
      record_outcome-IsKept tool other_hash none b (ok output) holds h =
          same-IsKept b _ stamp.finished_at refl refl h
      record_outcome-IsKept tool other_hash (some other) b (err e) holds h =
          same-IsKept _ _ stamp.finished_at refl refl
            (release-IsKept b other other_hash stamp.finished_at holds.0 h)
      record_outcome-IsKept tool other_hash (some other) b (ok output) holds h =
          same-IsKept _ _ stamp.finished_at refl refl (
            complete-IsKept b other other_hash (success_result stamp name output) stamp.finished_at
              holds.0 holds.1 h)

      run-IsKept :
          (tool : ToolDefinition) (parsed : String) (held : Option String) (b : Broker store.Store)
          (popped : ToolFaultProfile × Option ToolFault)
          → HoldsOther b (w.hash parsed) held
          → IsKept b stamp.finished_at
          → IsKept
              (record_outcome w store stamp name ctx tool
                (w.hash parsed)
                held
                (run_unless w store stamp name ctx b tool parsed popped)).0
              stamp.finished_at
      run-IsKept tool parsed held b (faults, some fault) holds h =
          record_outcome-IsKept tool (w.hash parsed) held (record b { faults = faults })
            (err (fault_error fault)) holds (same-IsKept b _ stamp.finished_at refl refl h)
      run-IsKept tool parsed held b (faults, none) holds h =
          record_outcome-IsKept tool (w.hash parsed) held
            (record b { invocations = b.invocations ++ (tool.name, parsed) ∷ [] })
            (outcome_of w tool.name (w.handler tool.name parsed ctx)) holds
            (same-IsKept b _ stamp.finished_at refl refl h)

      fail-IsKept :
          (b : Broker store.Store) (tool : Option ToolDefinition) (other_hash : String)
          (e : CallError)
          → IsKept b stamp.finished_at
          → IsKept (fail w store stamp name ctx b tool other_hash none e).0 stamp.finished_at
      unfolding fail audit
      fail-IsKept b tool other_hash e h = same-IsKept b _ stamp.finished_at refl refl h

      -- What follows the decision about the key of another call.
      decided-IsKept :
          (tool : ToolDefinition) (parsed other : String) (b : Broker store.Store)
          (d : IdempotencyDecision)
          → (d ≡ reserved → HoldsOther b (w.hash parsed) (some other))
          → IsKept b stamp.finished_at
          → IsKept
              (continue_call w store stamp name ctx b tool parsed (read_decision other d)).0
              stamp.finished_at
      unfolding run_reserved audit
      decided-IsKept tool parsed other b reserved holds h =
          run-IsKept tool parsed (some other) b (pop_fault b.faults name) (holds refl) h
      decided-IsKept tool parsed other b (replay r) holds h =
          same-IsKept b _ stamp.finished_at refl refl h
      decided-IsKept tool parsed other b conflict holds h = fail-IsKept b (some tool) _ _ h
      decided-IsKept tool parsed other b running_already holds h = fail-IsKept b (some tool) _ _ h

      keyed-IsKept :
          (tool : ToolDefinition) (parsed : String) (b : Broker store.Store)
          (keyed : Result ToolError (Unit {0}))
          → IsKept b stamp.started_at
          → IsKept (continue_keyed w store stamp name ctx b tool parsed keyed).0 stamp.finished_at
      unfolding reserve_idempotency run_reserved
      keyed-IsKept tool parsed b (err e) h =
          fail-IsKept b (some tool) _ _ (IsKept-later b stamp.started_at stamp.finished_at le h)
      keyed-IsKept tool parsed b (ok _) h = elim (Bool-cases (tool.idempotent || lacks_key ctx)) [
        | inl t ↦ rw t (
            run-IsKept tool parsed none b (pop_fault b.faults name) tt
              (IsKept-later b stamp.started_at stamp.finished_at le h))
        | inr t ↦
            let other = idempotency_key w tool.name ctx in
            let made = store.reserve b.idempotency other (w.hash parsed) stamp.started_at in
            let b1 : Broker store.Store = record b { idempotency = made.0 } in
            let kept = reserve-IsKept b other (w.hash parsed) stamp.started_at h in
            let decision =
              store.reserve_decision b.idempotency other (w.hash parsed) stamp.started_at h.valid in
            rw t (
              decided-IsKept tool parsed other b1 made.1
                (λ d. (
                  reserved_apart b other (w.hash parsed) stamp.started_at h (sym decision ∙ d),
                  IsReservedFor-later made.0 other (w.hash parsed) stamp.started_at
                      stamp.finished_at le kept.valid
                      (subst (IsReservedFor (w.hash parsed))
                        (sym (
                          store.view-reserve b.idempotency other (w.hash parsed) other
                            stamp.started_at h.valid
                          ∙ rw (eq_refl other) refl))
                        (decide_reserved _ (w.hash parsed) (sym decision ∙ d))),
                ))
                (IsKept-later b1 stamp.started_at stamp.finished_at le kept))
      ]

      checked-IsKept :
          (b : Broker store.Store) (arguments : String)
          (checked : Result CallError (ToolDefinition × String))
          → IsKept b stamp.started_at
          → IsKept (continue_checked w store stamp name ctx b arguments checked).0 stamp.finished_at
      checked-IsKept b arguments (err e) h =
          fail-IsKept b none _ _ (IsKept-later b stamp.started_at stamp.finished_at le h)
      checked-IsKept b arguments (ok (tool, parsed)) h =
          keyed-IsKept tool parsed b (require_idempotency tool ctx) h

      pub call-IsKept :
          (b : Broker store.Store) (arguments : String)
          → IsKept b stamp.started_at
          → IsKept (call w store stamp name ctx b arguments).0 stamp.finished_at
      unfolding call
      call-IsKept b arguments h =
          checked-IsKept b arguments (check_call w b.registry name arguments ctx) h
