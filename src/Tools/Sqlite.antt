-- ===== src/Tools/Sqlite.antt =====
-- memory/event_store.py, reserve, complete, release and _idempotency_row_is_stale on the table
-- tool_idempotency, and that they keep the promises of a store. That a result survives its JSON is
-- the models' part; `result_json` stands for the result itself.
pub mod Laws
pub mod Store
use production_support_agent.Tools.Idempotency.{
  IdempotencyDecision, Entry, replay, reserved, free, running_already, done, conflict, lapsed,
  running,
}
use production_support_agent.Tools.Types.{ToolResult}
use production_support_agent.Prelude.{
  ℕ, zero, suc, ◌+◌, ◌-◌, ◌*◌, ◌/◌, ◌%◌, ◌^◌, ◌≤◌, ◌<◌, min, max, String, str_append, ◌≡◌, refl,
  sym, ap, ◌∙◌, subst, ◌≢◌, ◌↔◌, ◌⊎◌, inl, inr, Bool, true, false, not, ◌&&◌, ◌||◌, false≢true,
  Option, none, some, List, [], ◌∷◌, ◌++◌, map, arith, eq_iff, eq_refl, ltb, leb, if◌then◌else◌,
  ◌==◌, nat_eq, string_eq, Bool-cases, Option-cases, is_some, or_else, length, All, find, ok, err,
  Result, delete_where, update_where,
}
use production_support_agent.Outbox.Delivery.{seconds}

pub record IdempotencyRow : Type 0 where
  pub scope_key : String
  pub argument_hash : String
  pub completed : Bool
  pub result_json : Option ToolResult
  pub created_at : ℕ
  pub updated_at : ℕ

abbrev pub SqliteStore : Type 0
SqliteStore = List IdempotencyRow

-- `where scope_key = ?`
abbrev pub has_scope_key : String → IdempotencyRow → Bool
has_scope_key key row = row.scope_key == key

-- `where scope_key = ? and argument_hash = ?`
abbrev pub has_argument : String → String → IdempotencyRow → Bool
has_argument key arg_hash row = row.scope_key == key && row.argument_hash == arg_hash

-- `where scope_key = ? and argument_hash = ? and status = 'in_progress'`
abbrev pub is_open_for : String → String → IdempotencyRow → Bool
is_open_for key arg_hash row =
    row.scope_key == key && (row.argument_hash == arg_hash && not row.completed)

abbrev pub reserved_row : ℕ → IdempotencyRow → IdempotencyRow
reserved_row now row = record row { completed = false; result_json = none; updated_at = now }

abbrev pub completed_row : ToolResult → ℕ → IdempotencyRow → IdempotencyRow
completed_row result now row = record row {
  completed = true;
  result_json = some result;
  updated_at = now;
}

unfoldable pub sqlite_complete : SqliteStore → String → String → ToolResult → ℕ → SqliteStore
sqlite_complete rows key arg_hash result now =
    update_where (is_open_for key arg_hash) (completed_row result now) rows

unfoldable pub sqlite_release : SqliteStore → String → String → SqliteStore
sqlite_release rows key arg_hash = delete_where (is_open_for key arg_hash) rows

-- `tool_idempotency_lease_seconds` is the store's; a lease that is not positive is 0 here.
module _ (lease_seconds : ℕ) where
  -- _idempotency_row_is_stale; the columns hold what `isoformat` wrote.
  unfoldable pub is_stale : ℕ → ℕ → Bool
  is_stale updated_at now =
      if leb lease_seconds 0 then true else leb (updated_at + seconds lease_seconds) now

  -- The answer to a row for the same arguments, from its result if it is completed.
  abbrev pub reserve_same :
      SqliteStore
      → String
      → String
      → ℕ
      → IdempotencyRow
      → Option ToolResult
      → SqliteStore × IdempotencyDecision
  reserve_same rows key arg_hash now row (some result) = (rows, replay result)
  reserve_same rows key arg_hash now row none =
      if is_stale row.updated_at now
      then (update_where (has_argument key arg_hash) (reserved_row now) rows, reserved)
      else (rows, running_already)

  -- The answer to a row that is there: the rows afterwards and the decision.
  abbrev pub reserve_existing :
      SqliteStore → String → String → ℕ → IdempotencyRow → SqliteStore × IdempotencyDecision
  reserve_existing rows key arg_hash now row =
      if not (row.argument_hash == arg_hash)
      then (rows, conflict)
      else reserve_same rows key arg_hash now row (if row.completed then row.result_json else none)

  unfoldable pub sqlite_reserve :
      SqliteStore → String → String → ℕ → SqliteStore × IdempotencyDecision
  unfolding is_stale
  sqlite_reserve rows key arg_hash now = elim (find (has_scope_key key) rows) [
    | none ↦ (
      rows
          ++ record {
            scope_key = key;
            argument_hash = arg_hash;
            completed = false;
            result_json = none;
            created_at = now;
            updated_at = now;
          }
            ∷ [],
      reserved,
    )
    | some row ↦ reserve_existing rows key arg_hash now row
  ]

  abbrev pub row_entry : ℕ → Option IdempotencyRow → Entry
  row_entry now none = free
  row_entry now (some row) = elim row.result_json [
    | some result ↦ done row.argument_hash result
    | none ↦
        if is_stale row.updated_at now then lapsed row.argument_hash else running row.argument_hash
  ]

  unfoldable pub sqlite_view : SqliteStore → String → ℕ → Entry
  unfolding is_stale
  sqlite_view rows key now = row_entry now (find (has_scope_key key) rows)
