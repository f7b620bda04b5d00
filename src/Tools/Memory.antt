-- ===== src/Tools/Memory.antt =====
-- tools/registry.py, InMemoryToolIdempotencyStore, and that it keeps the promises of a store.
use production_support_agent.Tools.Idempotency.{
  IdempotencyDecision, Entry, decide_entry, reserve_entry, release_entry, IdempotencyStore,
  reserved, free, done, conflict, running, running_already, replay,
}
use production_support_agent.Tools.Types.{ToolResult}
use production_support_agent.Prelude.{
  String, ◌≡◌, refl, sym, subst, ◌⊎◌, inl, inr, Bool, true, false, not, ◌&&◌, Option, none, some,
  List, arith, eq_iff, if◌then◌else◌, ◌==◌, nat_eq, string_eq, Option-cases, is_some, All, get_key,
  put_key, pop_key, All-delete_where, get_key-put_key, get_key-pop_key, has_key, All-get_key,
}

-- The dict that the store keeps for a key; `result` is null until the call is completed.
pub record MemoryEntry : Type 0 where
  pub arg_hash : String
  pub completed : Bool
  pub result : Option ToolResult

abbrev pub MemoryStore : Type 0
MemoryStore = List (String × MemoryEntry)

unfoldable pub memory_reserve : MemoryStore → String → String → MemoryStore × IdempotencyDecision
memory_reserve entries key arg_hash = elim (get_key entries key) [
  | none ↦ (
    put_key entries key (record { arg_hash = arg_hash; completed = false; result = none }),
    reserved,
  )
  | some existing ↦
      if not (existing.arg_hash == arg_hash) then (entries, conflict) else elim existing.result [
        | none ↦ (entries, running_already)
        | some result ↦ (entries, replay result)
      ]
]

unfoldable pub memory_complete : MemoryStore → String → String → ToolResult → MemoryStore
memory_complete entries key arg_hash result =
    put_key entries key (record { arg_hash = arg_hash; completed = true; result = some result })

unfoldable pub memory_release : MemoryStore → String → String → MemoryStore
memory_release entries key arg_hash = elim (get_key entries key) [
  | none ↦ entries
  | some existing ↦
      if existing.arg_hash == arg_hash && not existing.completed
      then pop_key entries key
      else entries
]

-- A dict is completed exactly when it has a result.
abbrev pub IsSound : MemoryEntry → Type 0
IsSound e = e.completed ≡ is_some e.result

abbrev pub IsSoundStore : MemoryStore → Type 0
IsSoundStore = All (λ entry. IsSound entry.1)

abbrev pub entry_of : Option MemoryEntry → Entry
entry_of none = free
entry_of (some e) = elim e.result [ none ↦ running e.arg_hash | some r ↦ done e.arg_hash r ]

unfoldable pub memory_view : MemoryStore → String → Entry
memory_view entries key = entry_of (get_key entries key)

put-IsSoundStore :
    (entries : MemoryStore) (key : String) (e : MemoryEntry)
    → IsSound e
    → IsSoundStore entries
    → IsSoundStore (put_key entries key e)
unfolding put_key
put-IsSoundStore entries key e sound h =
    (sound, All-delete_where (λ entry. IsSound entry.1) (has_key key) entries h)

pub reserve-IsSoundStore :
    (entries : MemoryStore) (key arg_hash : String)
    → IsSoundStore entries
    → IsSoundStore (memory_reserve entries key arg_hash).0
unfolding memory_reserve
reserve-IsSoundStore entries key arg_hash h = ground (
  arith,
  put-IsSoundStore entries key (record { arg_hash = arg_hash; completed = false; result = none })
      refl h,
)

pub complete-IsSoundStore :
    (entries : MemoryStore) (key arg_hash : String) (result : ToolResult)
    → IsSoundStore entries
    → IsSoundStore (memory_complete entries key arg_hash result)
unfolding memory_complete
complete-IsSoundStore entries key arg_hash result h =
    put-IsSoundStore entries key
      (record { arg_hash = arg_hash; completed = true; result = some result }) refl h

memory_release_cases :
    (entries : MemoryStore) (key arg_hash : String)
    → (memory_release entries key arg_hash ≡ entries)
      ⊎ (memory_release entries key arg_hash ≡ pop_key entries key)
unfolding memory_release
memory_release_cases entries key arg_hash = ground arith

pub release-IsSoundStore :
    (entries : MemoryStore) (key arg_hash : String)
    → IsSoundStore entries
    → IsSoundStore (memory_release entries key arg_hash)
release-IsSoundStore entries key arg_hash h = elim (memory_release_cases entries key arg_hash) [
  | inl e ↦ subst IsSoundStore (sym e) h
  | inr e ↦
      subst IsSoundStore (sym e)
        (unfold pop_key in All-delete_where (λ entry. IsSound entry.1) (has_key key) entries h)
]

module _ (entries : MemoryStore) (key arg_hash j : String) where
  pub memory_reserve_decision :
      (memory_reserve entries key arg_hash).1 ≡ decide_entry (memory_view entries key) arg_hash
  unfolding memory_reserve memory_view decide_entry
  memory_reserve_decision = ground arith

  pub view-memory_reserve :
      memory_view (memory_reserve entries key arg_hash).0 j
      ≡ (if key == j then reserve_entry (memory_view entries j) arg_hash else memory_view entries j)
  unfolding memory_reserve memory_view reserve_entry
  view-memory_reserve = ground (
    arith,
    eq_iff key j,
    get_key-put_key entries key j
        (record { arg_hash = arg_hash; completed = false; result = none }),
  )

  pub view-memory_complete :
      (result : ToolResult)
      → memory_view (memory_complete entries key arg_hash result) j
        ≡ (if key == j then done arg_hash result else memory_view entries j)
  unfolding memory_complete memory_view
  view-memory_complete result = ground (
    arith,
    get_key-put_key entries key j
        (record { arg_hash = arg_hash; completed = true; result = some result }),
  )

  pub view-memory_release :
      IsSoundStore entries
      → memory_view (memory_release entries key arg_hash) j ≡ (
          if key == j
          then release_entry (memory_view entries j) arg_hash
          else memory_view entries j)
  unfolding memory_release memory_view release_entry
  view-memory_release h = elim (Option-cases (get_key entries key)) [
    | inl e ↦ ground (arith, eq_iff key j)
    | inr (existing, e) ↦ ground (
      arith,
      eq_iff key j,
      get_key-pop_key entries key j,
      All-get_key IsSound entries key existing h,
    )
  ]

-- The store in memory keeps the promises of a store of idempotency keys; nothing ever lapses.
abbrev pub memory_store : IdempotencyStore
memory_store = record {
  Store = MemoryStore;
  reserve = λ s key arg_hash now. memory_reserve s key arg_hash;
  complete = λ s key arg_hash result now. memory_complete s key arg_hash result;
  release = memory_release;
  view = λ s key now. memory_view s key;
  IsValid = IsSoundStore;
  reserve-IsValid = λ s key arg_hash now h. reserve-IsSoundStore s key arg_hash h;
  complete-IsValid = λ s key arg_hash result now h. complete-IsSoundStore s key arg_hash result h;
  release-IsValid = λ s key arg_hash h. release-IsSoundStore s key arg_hash h;
  reserve_decision = λ s key arg_hash now h. memory_reserve_decision s key arg_hash key;
  view-reserve = λ s key arg_hash j now h. view-memory_reserve s key arg_hash j;
  view-complete =
      λ s key arg_hash j result now h held. view-memory_complete s key arg_hash j result;
  view-release = λ s key arg_hash j now h. view-memory_release s key arg_hash j h;
  view_later = λ s key now later h le. inl refl;
}
