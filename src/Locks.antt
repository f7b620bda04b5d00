-- ===== src/Locks.antt =====
-- memory/event_store.py, event_store_operation_lock: locks of operations that must not overlap, as the
-- rows of the table event_store_operation_locks, whose key is the tenant and the name of the lock.
use production_support_agent.Outbox.Delivery.{seconds}
use production_support_agent.Prelude.{
  ℕ, zero, suc, ◌+◌, ◌-◌, ◌*◌, ◌/◌, ◌%◌, ◌^◌, ◌≤◌, ◌<◌, min, max, String, str_append, ◌≡◌, refl,
  sym, ap, ◌∙◌, subst, ◌≢◌, ◌↔◌, ◌⊎◌, inl, inr, Bool, true, false, not, ◌&&◌, ◌||◌, false≢true,
  Option, none, some, List, [], ◌∷◌, ◌++◌, map, arith, eq_iff, eq_refl, ltb, leb, if◌then◌else◌,
  ◌==◌, nat_eq, string_eq, Bool-cases, Option-cases, is_some, or_else, length, All, find, ok, err,
  Result, delete_where,
}
pub mod Holding
pub mod Examples

-- EventStoreOperationLock, which is also a row.
pub record OperationLock : Type 0 where
  pub tenant_id : String
  pub lock_name : String
  pub owner_id : String
  pub operation : String
  pub acquired_at : ℕ
  pub expires_at : ℕ

-- `where tenant_id = ? and lock_name = ?`
abbrev pub has_lock_key : String → String → OperationLock → Bool
has_lock_key tenant_id lock_name row = row.tenant_id == tenant_id && row.lock_name == lock_name

-- `where tenant_id = ? and lock_name = ? and expires_at <= ?`
abbrev pub has_expired : String → String → ℕ → OperationLock → Bool
has_expired tenant_id lock_name now row =
    row.tenant_id == tenant_id && row.lock_name == lock_name && leb row.expires_at now

-- `where tenant_id = ? and lock_name = ? and owner_id = ?`
abbrev pub is_owned : OperationLock → OperationLock → Bool
is_owned lock row =
    row.tenant_id == lock.tenant_id
    && row.lock_name == lock.lock_name
    && row.owner_id == lock.owner_id

-- The lock that a call asks for; `ttl_seconds` is at least 1.
unfoldable pub new_lock : String → String → String → String → ℕ → ℕ → OperationLock
new_lock tenant_id lock_name operation owner_id ttl_seconds now = record {
  tenant_id = tenant_id;
  lock_name = lock_name;
  owner_id = owner_id;
  operation = operation;
  acquired_at = now;
  expires_at = now + seconds (max 1 ttl_seconds);
}

-- The insertion, by the row that holds the key.
abbrev pub insert_lock :
    OperationLock
    → List OperationLock
    → Option OperationLock
    → Result OperationLock (List OperationLock × OperationLock)
insert_lock lock rows (some active) = err active
insert_lock lock rows none = ok (rows ++ lock ∷ [], lock)

-- acquire_event_store_operation_lock: a conflict carries the lock that is held, and its transaction is
-- undone.
unfoldable pub acquire_event_store_operation_lock :
    List OperationLock
    → String
    → String
    → String
    → String
    → ℕ
    → ℕ
    → Result OperationLock (List OperationLock × OperationLock)
acquire_event_store_operation_lock rows tenant_id lock_name operation owner_id ttl_seconds now =
    let left = delete_where (has_expired tenant_id lock_name now) rows in
    insert_lock (new_lock tenant_id lock_name operation owner_id ttl_seconds now) left
      (find (has_lock_key tenant_id lock_name) left)

-- release_event_store_operation_lock: the rows afterwards, and whether a row was deleted.
unfoldable pub release_event_store_operation_lock :
    List OperationLock → OperationLock → List OperationLock × Bool
release_event_store_operation_lock rows lock =
    (delete_where (is_owned lock) rows, is_some (find (is_owned lock) rows))

-- A call on the table, by any process.
pub data LockCall : Type 0 where
  acquiring : String → String → String → String → ℕ → ℕ → LockCall
  releasing_lock : OperationLock → LockCall

-- The rows after an acquisition, which changes nothing when it is refused.
abbrev pub rows_after :
    List OperationLock
    → Result OperationLock (List OperationLock × OperationLock)
    → List OperationLock
rows_after rows (ok (after, lock)) = after
rows_after rows (err active) = rows

unfoldable pub run_lock_call : List OperationLock → LockCall → List OperationLock
run_lock_call rows (acquiring tenant_id lock_name operation owner_id ttl_seconds now) =
    rows_after rows (
      acquire_event_store_operation_lock rows tenant_id lock_name operation owner_id ttl_seconds
        now)
run_lock_call rows (releasing_lock lock) = (release_event_store_operation_lock rows lock).0

unfoldable pub run_lock_calls : List OperationLock → List LockCall → List OperationLock
run_lock_calls rows [] = rows
run_lock_calls rows (c ∷ later) = run_lock_calls (run_lock_call rows c) later
