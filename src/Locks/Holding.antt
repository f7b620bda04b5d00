-- ===== src/Locks/Holding.antt =====
-- A lock is held by one owner until it is released or expires.
use production_support_agent.Prelude.{
  ℕ, ◌≤◌, ◌<◌, String, ◌≡◌, refl, ap, ◌∙◌, inl, inr, Bool, true, false, ◌&&◌, none, some, List, [],
  ◌∷◌, ◌++◌, arith, eq_iff, if◌then◌else◌, ◌==◌, nat_eq, string_eq, Option-cases, find, ok, err,
  Result, delete_where, IsUnique, find-delete_where_unique, find-none, IsUnique-append,
  IsUnique-delete_where, All-delete_where, All-map, All-find-none, find-true,
}
use production_support_agent.Locks.{
  insert_lock, OperationLock, has_lock_key, has_expired, is_owned, new_lock,
  acquire_event_store_operation_lock, LockCall, acquiring, releasing_lock, rows_after,
}

abbrev pub same_lock : OperationLock → OperationLock → Bool
same_lock a b = a.tenant_id == b.tenant_id && a.lock_name == b.lock_name

by_lock_key :
    (tenant name : String) (a b : OperationLock)
    → has_lock_key tenant name a ≡ true
    → has_lock_key tenant name b ≡ true
    → same_lock a b ≡ true
by_lock_key tenant name a b ha hb = ground (
  arith,
  eq_iff a.tenant_id tenant,
  eq_iff b.tenant_id tenant,
  eq_iff a.tenant_id b.tenant_id,
  eq_iff a.lock_name name,
  eq_iff b.lock_name name,
  eq_iff a.lock_name b.lock_name,
)

-- Both ends of an acquisition: the table has the lock, or it is as it was.
module _ (rows : List OperationLock) (tenant name operation owner : String) (ttl now : ℕ) where
  abbrev left : List OperationLock
  left = delete_where (has_expired tenant name now) rows

  acquire_none :
      find (has_lock_key tenant name) left ≡ none
      → acquire_event_store_operation_lock rows tenant name operation owner ttl now
        ≡ ok (
          left ++ new_lock tenant name operation owner ttl now ∷ [],
          new_lock tenant name operation owner ttl now,
        )
  unfolding acquire_event_store_operation_lock
  acquire_none e = ap (insert_lock (new_lock tenant name operation owner ttl now) left) e

  acquire_some :
      (active : OperationLock)
      → find (has_lock_key tenant name) left ≡ some active
      → acquire_event_store_operation_lock rows tenant name operation owner ttl now ≡ err active
  unfolding acquire_event_store_operation_lock
  acquire_some active e = ap (insert_lock (new_lock tenant name operation owner ttl now) left) e

  -- The row of a lock survives the deletion of what has expired exactly when it has not.
  find-left :
      (held : OperationLock)
      → IsUnique same_lock rows
      → find (has_lock_key tenant name) rows ≡ some held
      → find (has_lock_key tenant name) left
        ≡ (if has_expired tenant name now held then none else some held)
  find-left held u e =
      find-delete_where_unique same_lock (has_lock_key tenant name) (has_expired tenant name now)
        rows held (by_lock_key tenant name) u e

  -- While a lock is held and has not expired, nobody gets it, and the conflict names its holder.
  pub acquire_held :
      (held : OperationLock)
      → IsUnique same_lock rows
      → find (has_lock_key tenant name) rows ≡ some held
      → now < held.expires_at
      → acquire_event_store_operation_lock rows tenant name operation owner ttl now ≡ err held
  acquire_held held u e early =
      let alive : has_expired tenant name now held ≡ false = ground (arith, early) in
      acquire_some held (find-left held u e ∙ rw alive refl)

  apart_from_none :
      (row : OperationLock)
      → has_lock_key tenant name row ≡ false
      → same_lock row (new_lock tenant name operation owner ttl now) ≡ false
  unfolding new_lock
  apart_from_none row h = h

  -- In a table with one row per key, a lock that nobody holds, or whose holder's time is over, is
  -- acquired: the table has it then, in place of what had expired.
  pub acquire_free :
      IsUnique same_lock rows
      → ((held : OperationLock)
          → find (has_lock_key tenant name) rows ≡ some held
          → held.expires_at ≤ now)
      → acquire_event_store_operation_lock rows tenant name operation owner ttl now
        ≡ ok (
          left ++ new_lock tenant name operation owner ttl now ∷ [],
          new_lock tenant name operation owner ttl now,
        )
  acquire_free u over = elim (Option-cases (find (has_lock_key tenant name) rows)) [
    | inl e ↦ acquire_none (
        find-none (has_lock_key tenant name) left (
          All-delete_where (λ row. has_lock_key tenant name row ≡ false)
            (has_expired tenant name now) rows (All-find-none (has_lock_key tenant name) rows e)))
    | inr (held, e) ↦
        let key = find-true (has_lock_key tenant name) rows held e in
        let late = over held e in
        let gone : has_expired tenant name now held ≡ true = ground (arith, key, late) in
        acquire_none (find-left held u e ∙ rw gone refl)
  ]

  pub acquire-IsUnique :
      IsUnique same_lock rows
      → IsUnique same_lock (
          rows_after rows
            (acquire_event_store_operation_lock rows tenant name operation owner ttl now))
  acquire-IsUnique u = elim (Option-cases (find (has_lock_key tenant name) left)) [
    | inl e ↦ rw (acquire_none e) (
        IsUnique-append same_lock left (new_lock tenant name operation owner ttl now)
          (IsUnique-delete_where same_lock (has_expired tenant name now) rows u)
          (All-map _ _ left (apart_from_none) (All-find-none (has_lock_key tenant name) left e)))
    | inr (active, e) ↦ rw (acquire_some active e) u
  ]

-- Whether a call comes before the lock `held` expires and is not its owner's release.
unfoldable pub IsForeign : OperationLock → LockCall → Type 0
IsForeign held (acquiring tenant name operation owner ttl now) = now < held.expires_at
IsForeign held (releasing_lock lock) = is_owned lock held ≡ false

module _ (held : OperationLock) where
  -- The table has a row per key, and that of `held` is `held`.
  abbrev pub IsHeld : List OperationLock → Type 0
  IsHeld rows =
      IsUnique same_lock rows × (find (has_lock_key held.tenant_id held.lock_name) rows ≡ some held)

-- A successful acquisition leaves its lock held.
abbrev pub IsHeldBy : Result OperationLock (List OperationLock × OperationLock) → Type 0
IsHeldBy (ok (after, lock)) = IsHeld lock after
IsHeldBy (err active) = Unit {0}
