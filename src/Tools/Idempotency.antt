-- ===== src/Tools/Idempotency.antt =====
-- tools/registry.py, IdempotencyDecision and ToolIdempotencyStore: what a store of idempotency keys
-- promises. A key is free, running, done, or lapsed: reserved so long ago that it may be taken over.
use production_support_agent.Tools.Types.{ToolResult}
use production_support_agent.Prelude.{
  ℕ, ◌≤◌, String, ◌≡◌, ◌⊎◌, if◌then◌else◌, ◌==◌, nat_eq, string_eq,
}

pub data IdempotencyDecision : Type 0 where
  reserved : IdempotencyDecision
  replay : ToolResult → IdempotencyDecision
  conflict : IdempotencyDecision
  running_already : IdempotencyDecision

-- What a store holds for one key, and the hash of the arguments that it was reserved for.
pub data Entry : Type 0 where
  free : Entry
  running : String → Entry
  done : String → ToolResult → Entry
  lapsed : String → Entry

-- `reserve` on one entry: the decision and the entry after it.
unfoldable pub decide_entry : Entry → String → IdempotencyDecision
decide_entry free arg_hash = reserved
decide_entry (running holder) arg_hash = if holder == arg_hash then running_already else conflict
decide_entry (done holder result) arg_hash = if holder == arg_hash then replay result else conflict
decide_entry (lapsed holder) arg_hash = if holder == arg_hash then reserved else conflict

unfoldable pub reserve_entry : Entry → String → Entry
reserve_entry free arg_hash = running arg_hash
reserve_entry (running holder) arg_hash = running holder
reserve_entry (done holder result) arg_hash = done holder result
reserve_entry (lapsed holder) arg_hash =
    if holder == arg_hash then running arg_hash else lapsed holder

-- `release` on one entry.
unfoldable pub release_entry : Entry → String → Entry
release_entry free arg_hash = free
release_entry (running holder) arg_hash = if holder == arg_hash then free else running holder
release_entry (done holder result) arg_hash = done holder result
release_entry (lapsed holder) arg_hash = if holder == arg_hash then free else lapsed holder

-- The entry is reserved for these arguments.
abbrev pub IsReservedFor : String → Entry → Type 0
IsReservedFor arg_hash free = ⊥
IsReservedFor arg_hash (running holder) = holder ≡ arg_hash
IsReservedFor arg_hash (done holder result) = ⊥
IsReservedFor arg_hash (lapsed holder) = holder ≡ arg_hash

-- A store of idempotency keys: its operations and what they promise. The last argument of `view` and
-- of the operations that read the clock is the time.
pub record IdempotencyStore : Type 1 where
  pub Store : Type 0
  pub reserve : Store → String → String → ℕ → Store × IdempotencyDecision
  pub complete : Store → String → String → ToolResult → ℕ → Store
  pub release : Store → String → String → Store
  pub view : Store → String → ℕ → Entry
  pub IsValid : Store → Type 0
  pub reserve-IsValid :
      (s : Store) (key arg_hash : String) (now : ℕ)
      → IsValid s
      → IsValid (reserve s key arg_hash now).0
  pub complete-IsValid :
      (s : Store) (key arg_hash : String) (result : ToolResult) (now : ℕ)
      → IsValid s
      → IsValid (complete s key arg_hash result now)
  pub release-IsValid :
      (s : Store) (key arg_hash : String) → IsValid s → IsValid (release s key arg_hash)
  pub reserve_decision :
      (s : Store) (key arg_hash : String) (now : ℕ)
      → IsValid s
      → (reserve s key arg_hash now).1 ≡ decide_entry (view s key now) arg_hash
  pub view-reserve :
      (s : Store) (key arg_hash j : String) (now : ℕ)
      → IsValid s
      → view (reserve s key arg_hash now).0 j now
        ≡ (if key == j then reserve_entry (view s j now) arg_hash else view s j now)
  pub view-complete :
      (s : Store) (key arg_hash j : String) (result : ToolResult) (now : ℕ)
      → IsValid s
      → IsReservedFor arg_hash (view s key now)
      → view (complete s key arg_hash result now) j now
        ≡ (if key == j then done arg_hash result else view s j now)
  pub view-release :
      (s : Store) (key arg_hash j : String) (now : ℕ)
      → IsValid s
      → view (release s key arg_hash) j now
        ≡ (if key == j then release_entry (view s j now) arg_hash else view s j now)
  -- Time frees nothing and finishes nothing: it only lets a reservation lapse.
  pub view_later :
      (s : Store) (key : String) (now later : ℕ)
      → IsValid s
      → now ≤ later
      → (view s key later ≡ view s key now)
        ⊎ ((h : String) × (view s key now ≡ running h) × (view s key later ≡ lapsed h))

-- What the operations of a store do to the entries of every key, at the time of the operation.
module _ (store : IdempotencyStore) where
  -- `reserve` decides by the entry of its key, and changes only that entry.
  abbrev pub ReservesByEntry : store.Store → String → String → ℕ → Type 0
  ReservesByEntry s key arg_hash now =
      let out = store.reserve s key arg_hash now in
      (out.1 ≡ decide_entry (store.view s key now) arg_hash)
      × ((j : String)
          → store.view out.0 j now ≡ (
              if key == j then reserve_entry (store.view s j now) arg_hash else store.view s j now))

  -- `complete` stores the result under its key, and changes only that entry.
  abbrev pub CompletesEntry : store.Store → String → String → ToolResult → ℕ → Type 0
  CompletesEntry s key arg_hash result now =
      (j : String)
      → store.view (store.complete s key arg_hash result now) j now
        ≡ (if key == j then done arg_hash result else store.view s j now)

  -- `release` frees a key that is reserved for the arguments, and changes only that entry.
  abbrev pub ReleasesEntry : store.Store → String → String → ℕ → Type 0
  ReleasesEntry s key arg_hash now =
      (j : String)
      → store.view (store.release s key arg_hash) j now
        ≡ (if key == j then release_entry (store.view s j now) arg_hash else store.view s j now)

  -- A state of the store that operations led to from `start`.
  pub data Reached (start : store.Store) : store.Store → Type 0 where
    started : Reached start start
    reserving :
        (s : store.Store) (key arg_hash : String) (now : ℕ)
        → Reached start s
        → Reached start (store.reserve s key arg_hash now).0
    completing :
        (s : store.Store) (key arg_hash : String) (result : ToolResult) (now : ℕ)
        → Reached start s
        → Reached start (store.complete s key arg_hash result now)
    releasing :
        (s : store.Store) (key arg_hash : String)
        → Reached start s
        → Reached start (store.release s key arg_hash)

  pub reached-IsValid :
      (start s : store.Store) → store.IsValid start → Reached start s → store.IsValid s
  reached-IsValid start s h started = h
  reached-IsValid start s h (reserving r key arg_hash now way) =
      store.reserve-IsValid r key arg_hash now (reached-IsValid start r h way)
  reached-IsValid start s h (completing r key arg_hash result now way) =
      store.complete-IsValid r key arg_hash result now (reached-IsValid start r h way)
  reached-IsValid start s h (releasing r key arg_hash way) =
      store.release-IsValid r key arg_hash (reached-IsValid start r h way)
