-- ===== src/Tools/Refinement.antt =====
-- The two stores of idempotency keys, in memory and on SQLite, as one specification.
use production_support_agent.Tools.Sqlite.Laws.{sqlite_reserve_decision, view-sqlite_reserve}
use production_support_agent.Tools.Types.{ToolResult}
use production_support_agent.Tools.Sqlite.Store.{
  sqlite_store, view-sqlite_complete, view-sqlite_release,
}
use production_support_agent.Tools.Idempotency.{
  Reached, ReservesByEntry, CompletesEntry, ReleasesEntry, reached-IsValid, IsReservedFor,
}
use production_support_agent.Tools.Memory.{
  MemoryStore, memory_store, memory_reserve_decision, view-memory_reserve, view-memory_complete,
  view-memory_release,
}
use production_support_agent.Tools.Sqlite.{SqliteStore, sqlite_view}
use production_support_agent.Prelude.{ℕ, ◌<◌, String, [], nat_eq, string_eq}

-- After any sequence of operations on an empty table, with a lease that is positive, the store on
-- SQLite answers `reserve` by what the key holds (free, running, done, or lapsed), a reservation and a
-- release change the entry of their key as specified, and no other key's entry changes.
pub sqlite_store-Refines :
    (lease : ℕ) (pos : 0 < lease) (rows : SqliteStore)
    → Reached (sqlite_store lease pos) [] rows
    → (key arg_hash : String) (now : ℕ)
    → ReservesByEntry (sqlite_store lease pos) rows key arg_hash now
      × ReleasesEntry (sqlite_store lease pos) rows key arg_hash now
sqlite_store-Refines lease pos rows way key arg_hash now =
    let h =
      reached-IsValid (sqlite_store lease pos) [] rows (record { unique = tt; results = tt }) way in
    (
      (
        sqlite_reserve_decision lease rows key arg_hash now h,
        λ j. view-sqlite_reserve lease rows key arg_hash now h j pos,
      ),
      λ j. view-sqlite_release lease rows key arg_hash j now h,
    )

-- After any sequence of operations on an empty table, with a lease that is positive, `complete` of a
-- key that is reserved for the arguments, be the reservation lapsed or not, stores the result under
-- the key and changes no other key's entry.
pub sqlite_store_completes :
    (lease : ℕ) (pos : 0 < lease) (rows : SqliteStore)
    → Reached (sqlite_store lease pos) [] rows
    → (key arg_hash : String) (result : ToolResult) (now : ℕ)
    → IsReservedFor arg_hash (sqlite_view lease rows key now)
    → CompletesEntry (sqlite_store lease pos) rows key arg_hash result now
sqlite_store_completes lease pos rows way key arg_hash result now held j =
    view-sqlite_complete lease rows key arg_hash j now
      (reached-IsValid (sqlite_store lease pos) [] rows (record { unique = tt; results = tt }) way)
      result held

-- After any sequence of operations on an empty dictionary, the store in memory answers `reserve`
-- by what the key holds, a reservation, a completion and a release change the entry of their key
-- as specified, and no other key's entry changes.
pub memory_store-Refines :
    (entries : MemoryStore)
    → Reached memory_store [] entries
    → (key arg_hash : String) (result : ToolResult) (now : ℕ)
    → ReservesByEntry memory_store entries key arg_hash now
      × CompletesEntry memory_store entries key arg_hash result now
      × ReleasesEntry memory_store entries key arg_hash now
memory_store-Refines entries way key arg_hash result now =
    let h = reached-IsValid memory_store [] entries tt way in
    (
      (
        memory_reserve_decision entries key arg_hash key,
        λ j. view-memory_reserve entries key arg_hash j,
      ),
      λ j. view-memory_complete entries key arg_hash j result,
      λ j. view-memory_release entries key arg_hash j h,
    )
