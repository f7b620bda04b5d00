-- ===== src/Tools/Sqlite/Store.antt =====
-- The store on SQLite: what `complete`, `release` and the passing of time do to an entry, and the
-- promises of a store, filled.
use production_support_agent.Tools.Idempotency.{
  IsReservedFor, done, Entry, release_entry, running, free, lapsed, IdempotencyStore,
}
use production_support_agent.Tools.Sqlite.{
  IdempotencyRow, SqliteStore, has_scope_key, sqlite_complete, sqlite_release, sqlite_reserve,
  ToolResult, sqlite_view, is_open_for, completed_row, row_entry, is_stale,
}
use production_support_agent.Prelude.{
  ℕ, ◌≤◌, ◌<◌, String, ◌≡◌, refl, sym, ap, ◌∙◌, subst, ◌⊎◌, inl, inr, false, none, some, arith,
  eq_iff, if◌then◌else◌, ◌==◌, nat_eq, string_eq, Bool-cases, Option-cases, is_some, find,
  All-delete_where, All-find, All-find-none, find-update_where, find-true, find-delete_where,
  find-delete_where_unique, find-none, delete_where,
}
use production_support_agent.Tools.Sqlite.Laws.{
  IsSoundTable, by_scope_key, sqlite_complete-IsSoundTable, sqlite_release-IsSoundTable,
  sqlite_reserve-IsSoundTable, sqlite_reserve_decision, view-sqlite_reserve, same_scope_key,
}

-- A row whose entry is reserved for these arguments is open for them.
open_of_reserved :
    (lease : ℕ) (now : ℕ) (arg_hash : String) (row : IdempotencyRow)
    → row.completed ≡ is_some row.result_json
    → IsReservedFor arg_hash (row_entry lease now (some row))
    → (row.completed ≡ false) × (row.argument_hash ≡ arg_hash)
open_of_reserved lease now arg_hash row sound held = elim (Option-cases row.result_json) [
  | inl n ↦ elim (Bool-cases (is_stale lease row.updated_at now)) [
    | inl t ↦
        let k : row_entry lease now (some row) ≡ lapsed row.argument_hash = ground arith in
        (sound ∙ ap is_some n, subst (IsReservedFor arg_hash) k held)
    | inr f ↦
        let k : row_entry lease now (some row) ≡ running row.argument_hash = ground arith in
        (sound ∙ ap is_some n, subst (IsReservedFor arg_hash) k held)
  ]
  | inr (r, n) ↦
      let k : row_entry lease now (some row) ≡ done row.argument_hash r = ground arith in
      absurd (subst (IsReservedFor arg_hash) k held)
]

module _ (lease : ℕ) (rows : SqliteStore) (key arg_hash j : String) (now : ℕ)
    (h : IsSoundTable rows) where
  pub view-sqlite_complete :
      (result : ToolResult)
      → IsReservedFor arg_hash (sqlite_view lease rows key now)
      → sqlite_view lease (sqlite_complete rows key arg_hash result now) j now
        ≡ (if key == j then done arg_hash result else sqlite_view lease rows j now)
  unfolding sqlite_complete sqlite_view
  view-sqlite_complete result held =
      let moved =
        find-update_where (has_scope_key j) (is_open_for key arg_hash) (completed_row result now)
          rows (λ a. refl) in
      elim (Bool-cases (key == j)) [
        | inl t ↦ elim (Option-cases (find (has_scope_key j) rows)) [
          | inl e ↦ absurd (
              free_held
                (ap (row_entry lease now)
                  (subst (λ i. find (has_scope_key i) rows ≡ none) (sym ((eq_iff key j).0 t)) e))
                held)
          | inr (row, e) ↦
              let sound = All-find _ (has_scope_key j) rows row h.results e in
              let its_key = find-true (has_scope_key j) rows row e in
              let held_row =
                subst (IsReservedFor arg_hash)
                  (ap (row_entry lease now) (
                    subst (λ i. find (has_scope_key i) rows ≡ some row) (sym ((eq_iff key j).0 t))
                      e))
                  held in
              let opened = open_of_reserved lease now arg_hash row sound held_row in
              ground (
                arith,
                eq_iff row.scope_key j,
                eq_iff row.scope_key key,
                eq_iff key j,
                eq_iff row.argument_hash arg_hash,
              )
        ]
        | inr f ↦ elim (Option-cases (find (has_scope_key j) rows)) [
          | inl e ↦ ground arith
          | inr (row, e) ↦ ground (
            arith,
            find-true (has_scope_key j) rows row e,
            eq_iff row.scope_key j,
            eq_iff row.scope_key key,
            eq_iff key j,
          )
        ]
      ]
    where
      free_held : {e : Entry} → e ≡ free → IsReservedFor arg_hash e → ⊥
      free_held e k = subst (IsReservedFor arg_hash) e k

  pub view-sqlite_release : sqlite_view lease (sqlite_release rows key arg_hash) j now ≡ (
      if key == j
      then release_entry (sqlite_view lease rows j now) arg_hash
      else sqlite_view lease rows j now)
  unfolding sqlite_release sqlite_view release_entry
  view-sqlite_release = elim (Bool-cases (key == j)) [
    | inl t ↦ elim (Option-cases (find (has_scope_key j) rows)) [
      | inl e ↦ ground (
        arith,
        find-none (has_scope_key j) (delete_where (is_open_for key arg_hash) rows) (
            All-delete_where (λ row. has_scope_key j row ≡ false) (is_open_for key arg_hash) rows
              (All-find-none (has_scope_key j) rows e)),
      )
      | inr (row, e) ↦
          let sound = All-find _ (has_scope_key j) rows row h.results e in
          let deleted =
            find-delete_where_unique same_scope_key (has_scope_key j) (is_open_for key arg_hash)
              rows row (by_scope_key j) h.unique e in
          ground (
            arith,
            find-true (has_scope_key j) rows row e,
            eq_iff row.scope_key j,
            eq_iff row.scope_key key,
            eq_iff key j,
          )
    ]
    | inr f ↦
        rw
          (
            f,
            find-delete_where (has_scope_key j) (is_open_for key arg_hash) rows (λ row t.
                ground (arith, eq_iff row.scope_key j, eq_iff row.scope_key key, eq_iff key j)),
          )
          refl
  ]

module _ (lease : ℕ) (rows : SqliteStore) (key : String) where
  pub sqlite_view_later :
      (now later : ℕ)
      → now ≤ later
      → (sqlite_view lease rows key later ≡ sqlite_view lease rows key now)
        ⊎ ((h : String) × (sqlite_view lease rows key now ≡ running h)
            × (sqlite_view lease rows key later ≡ lapsed h))
  unfolding sqlite_view
  sqlite_view_later now later le = elim (Option-cases (find (has_scope_key key) rows)) [
    | inl e ↦ inl (rw e refl)
    | inr (row, e) ↦ ground (arith, e)
  ]

-- The store on SQLite with a lease that is positive keeps the promises of a store.
abbrev pub sqlite_store : (lease : ℕ) → 0 < lease → IdempotencyStore
sqlite_store lease pos = record {
  Store = SqliteStore;
  reserve = sqlite_reserve lease;
  complete = sqlite_complete;
  release = sqlite_release;
  view = sqlite_view lease;
  IsValid = IsSoundTable;
  reserve-IsValid = sqlite_reserve-IsSoundTable lease;
  complete-IsValid =
      λ s key arg_hash result now. sqlite_complete-IsSoundTable s key arg_hash result now;
  release-IsValid = λ s key arg_hash. sqlite_release-IsSoundTable s key arg_hash;
  reserve_decision = sqlite_reserve_decision lease;
  view-reserve = λ s key arg_hash j now h. view-sqlite_reserve lease s key arg_hash now h j pos;
  view-complete = λ s key arg_hash j result now h held.
      view-sqlite_complete lease s key arg_hash j now h result held;
  view-release = λ s key arg_hash j now h. view-sqlite_release lease s key arg_hash j now h;
  view_later = λ s key now later h le. sqlite_view_later lease s key now later le;
}
