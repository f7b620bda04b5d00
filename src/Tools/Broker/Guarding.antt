-- ===== src/Tools/Broker/Guarding.antt =====
-- The checks that stand before every handler.
use production_support_agent.Tools.Broker.{
  ToolFault, ToolWorld, ToolError, CallError, ToolFaultProfile, ToolDefinition, CallStamp,
  ToolContext, lacks_key, pop_fault, require_idempotency, check_call, outcome_of, authorize,
  get_tool, raised, parse_arguments, check_tool,
}
use production_support_agent.Tools.Idempotency.{IdempotencyStore}
use production_support_agent.Tools.Types.{ToolRegistry, ToolResult}
use production_support_agent.Prelude.{
  ◌≤◌, String, ◌≡◌, refl, subst, ◌⊎◌, inl, inr, Bool, true, false, not, Option, none, some, List,
  [], ◌∷◌, ◌++◌, arith, eq_iff, leb, ◌==◌, nat_eq, string_eq, Bool-cases, length, All, ok, err,
  Result, select, contains, ◌>>=◌,
}
use production_support_agent.Tools.Broker.Calling.{
  Broker, call, run_reserved, run_unless, record_outcome, continue_keyed, continue_checked, audit,
  fail, reserve_idempotency, continue_call, Reservation, cached, proceed,
}

none_missing :
    (p : String → Bool) (xs : List String)
    → length (select (λ x. not (p x)) xs) ≤ 0
    → All (λ x. p x ≡ true) xs
unfolding select
none_missing p [] h = tt
none_missing p (x ∷ xs) h = elim (Bool-cases (p x)) [
  | inl t ↦ (t, none_missing p xs (rw t at h))
  | inr t ↦ absurd (ground (arith, rw t at h))
]

authorize_sound :
    (tool : ToolDefinition) (ctx : ToolContext)
    → authorize tool ctx ≡ ok tt
    → All (λ scope. contains ctx.actor.scopes scope ≡ true) tool.required_scopes
      × (ctx.actor.tenant_id ≡ ctx.tenant_id)
unfolding authorize
authorize_sound tool ctx h =
    let missing = select (λ scope. not (contains ctx.actor.scopes scope)) tool.required_scopes in
    elim (Bool-cases (leb (length missing) 0)) [
      | inl t ↦ elim (Bool-cases (ctx.actor.tenant_id == ctx.tenant_id)) [
        | inl u ↦ (
          none_missing (contains ctx.actor.scopes) tool.required_scopes (ground arith),
          (eq_iff ctx.actor.tenant_id ctx.tenant_id).0 u,
        )
        | inr u ↦ absurd (ground arith)
      ]
      | inr t ↦ absurd (ground arith)
    ]

-- A call ran no handler, or ran that of a tool whose checks the call passes.
abbrev pub IsGuarded :
    {S : Type 0} → ToolWorld → String → ToolContext → String → Broker S → Broker S → Type 0
IsGuarded w name ctx arguments b after =
    (after.invocations ≡ b.invocations)
    ⊎ ((tool : ToolDefinition) × (parsed : String) × (after.invocations
          ≡ b.invocations ++ (tool.name, parsed) ∷ [])
        × (get_tool b.registry name ≡ ok tool)
        × All (λ scope. contains ctx.actor.scopes scope ≡ true) tool.required_scopes
        × (ctx.actor.tenant_id ≡ ctx.tenant_id)
        × (w.validate_input tool.name arguments ≡ ok parsed)
        × ((tool.idempotent ≡ true) ⊎ (lacks_key ctx ≡ false)))

check_call_sound :
    (w : ToolWorld) (tools : ToolRegistry) (name arguments : String) (ctx : ToolContext)
    (tool : ToolDefinition) (parsed : String)
    → check_call w tools name arguments ctx ≡ ok (tool, parsed)
    → (get_tool tools name ≡ ok tool)
      × (authorize tool ctx ≡ ok tt)
      × (w.validate_input tool.name arguments ≡ ok parsed)
unfolding check_call
check_call_sound w tools name arguments ctx tool parsed h = by_tool (get_tool tools name) h
  where
    by_arguments :
        (found : ToolDefinition) (v : Result String String)
        → parse_arguments found v ≡ ok (tool, parsed)
        → (found ≡ tool) × (v ≡ ok parsed)
    by_arguments found (err e) k = absurd (ground arith)
    by_arguments found (ok p) k = (ground arith, ground arith)

    by_actor :
        (found : ToolDefinition) (r : Result ToolError (Unit {0}))
        → (raised r >>= λ _. parse_arguments found (w.validate_input found.name arguments))
          ≡ ok (tool, parsed)
        → (found ≡ tool) × (r ≡ ok tt) × (w.validate_input found.name arguments ≡ ok parsed)
    by_actor found (err e) k = absurd (ground arith)
    by_actor found (ok _) k =
        let parts = by_arguments found (w.validate_input found.name arguments) k in
        (parts.0, refl, parts.1)

    by_tool :
        (r : Result ToolError ToolDefinition)
        → (raised r >>= check_tool w arguments ctx) ≡ ok (tool, parsed)
        → (r ≡ ok tool)
          × (authorize tool ctx ≡ ok tt)
          × (w.validate_input tool.name arguments ≡ ok parsed)
    by_tool (err e) k = absurd (ground arith)
    by_tool (ok found) k =
        let parts = by_actor found (authorize found ctx) k in
        let wrap : ToolDefinition → Result ToolError ToolDefinition = λ t. ok t in
        let Sound : ToolDefinition → Type 0 = λ t.
          (wrap found ≡ wrap t)
          × (authorize t ctx ≡ ok tt)
          × (w.validate_input t.name arguments ≡ ok parsed) in
        subst Sound parts.0 (refl, parts.1, parts.2)

module _ (w : ToolWorld) (store : IdempotencyStore) (stamp : CallStamp) (name : String)
    (ctx : ToolContext) (tool : ToolDefinition) (parsed : String) where
  -- At most the one handler ran.
  abbrev RanAtMost : Broker store.Store → Broker store.Store × ToolResult → Type 0
  RanAtMost b out =
      (out.0.invocations ≡ b.invocations)
      ⊎ (out.0.invocations ≡ b.invocations ++ (tool.name, parsed) ∷ [])

  record_outcome-RanAtMost :
      (b : Broker store.Store) (arg_hash : String) (key : Option String)
      (popped : ToolFaultProfile × Option ToolFault)
      → RanAtMost b (
          record_outcome w store stamp name ctx tool arg_hash key
            (run_unless w store stamp name ctx b tool parsed popped))
  unfolding fail audit
  record_outcome-RanAtMost b arg_hash key (faults, some fault) = inl refl
  record_outcome-RanAtMost b arg_hash key (faults, none) =
      by_outcome (outcome_of w tool.name (w.handler tool.name parsed ctx))
    where
      by_outcome :
          (outcome : Result CallError String)
          → RanAtMost b (
              record_outcome w store stamp name ctx tool arg_hash key
                (record b { invocations = b.invocations ++ (tool.name, parsed) ∷ [] }, outcome))
      by_outcome (err e) = inr refl
      by_outcome (ok output) = inr refl

  continue_call-RanAtMost :
      (b : Broker store.Store) (held : Result ToolError Reservation)
      → RanAtMost b (continue_call w store stamp name ctx b tool parsed held)
  unfolding audit fail run_reserved
  continue_call-RanAtMost b (err e) = inl refl
  continue_call-RanAtMost b (ok (proceed key)) =
      record_outcome-RanAtMost b (w.hash parsed) key (pop_fault b.faults name)
  continue_call-RanAtMost b (ok (cached result)) = inl refl

module _ (w : ToolWorld) (store : IdempotencyStore) (stamp : CallStamp) (name : String)
    (ctx : ToolContext) (arguments : String) (b : Broker store.Store) where
  continue_keyed-IsGuarded :
      (tool : ToolDefinition) (parsed : String) (keyed : Result ToolError (Unit {0}))
      → require_idempotency tool ctx ≡ keyed
      → check_call w b.registry name arguments ctx ≡ ok (tool, parsed)
      → IsGuarded w name ctx arguments b
          (continue_keyed w store stamp name ctx b tool parsed keyed).0
  unfolding fail audit require_idempotency
  continue_keyed-IsGuarded tool parsed (err e) k c = inl refl
  continue_keyed-IsGuarded tool parsed (ok _) k c =
      let held =
        reserve_idempotency w store b.idempotency tool ctx (w.hash parsed) stamp.started_at in
      elim (continue_call-RanAtMost w store stamp name ctx tool parsed
        (record b { idempotency = held.0 }) held.1) [
          | inl same ↦ inl same
          | inr ran ↦
              let sound = check_call_sound w b.registry name arguments ctx tool parsed c in
              let actor = authorize_sound tool ctx sound.1 in
              inr (
                tool,
                parsed,
                ran,
                sound.0,
                actor.0,
                actor.1,
                sound.2,
                elim (Bool-cases tool.idempotent) [ inl t ↦ inl t | inr t ↦ inr (ground arith) ],
              )
        ]

  continue_checked-IsGuarded :
      (checked : Result CallError (ToolDefinition × String))
      → check_call w b.registry name arguments ctx ≡ checked
      → IsGuarded w name ctx arguments b
          (continue_checked w store stamp name ctx b arguments checked).0
  unfolding fail audit
  continue_checked-IsGuarded (err e) c = inl refl
  continue_checked-IsGuarded (ok (tool, parsed)) c =
      continue_keyed-IsGuarded tool parsed (require_idempotency tool ctx) refl c

  -- A call runs no handler, or exactly one: that of the tool of its name, on the arguments that the
  -- input model made, and only when the actor has every scope that the tool wants, is of the tenant of
  -- the request, and a write tool comes with an idempotency key.
  pub call-IsGuarded : IsGuarded w name ctx arguments b (call w store stamp name ctx b arguments).0
  unfolding call
  call-IsGuarded = continue_checked-IsGuarded (check_call w b.registry name arguments ctx) refl
