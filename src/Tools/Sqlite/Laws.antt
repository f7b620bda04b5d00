-- ===== src/Tools/Sqlite/Laws.antt =====
-- The store on SQLite keeps the promises of a store of idempotency keys.
use production_support_agent.Tools.Idempotency.{decide_entry, reserve_entry}
use production_support_agent.Tools.Sqlite.{
  IdempotencyRow, SqliteStore, has_scope_key, sqlite_complete, sqlite_release, sqlite_reserve,
  ToolResult, sqlite_view, is_open_for, has_argument, completed_row, reserved_row, row_entry,
}
use production_support_agent.Prelude.{
  ℕ, ◌<◌, String, ◌≡◌, refl, sym, ap, ◌∙◌, subst, ◌⊎◌, inl, inr, Bool, true, false, none, some, [],
  ◌∷◌, ◌++◌, arith, eq_iff, eq_refl, if◌then◌else◌, ◌==◌, nat_eq, string_eq, Bool-cases,
  Option-cases, is_some, All, find, IsUnique, IsUnique-delete_where, IsUnique-update_where,
  All-delete_where, All-update_where, All-find, update_where, IsUnique-append, All-find-none,
  All-append, find-update_where, find-true, find-append_none, find-append_some,
}

abbrev pub same_scope_key : IdempotencyRow → IdempotencyRow → Bool
same_scope_key a b = a.scope_key == b.scope_key

-- The primary key is unique, and a row has a result exactly when it is completed.
pub record IsSoundTable (rows : SqliteStore) : Type 0 where
  pub unique : IsUnique same_scope_key rows
  pub results : All (λ row. row.completed ≡ is_some row.result_json) rows

pub by_scope_key :
    (key : String) (a b : IdempotencyRow)
    → has_scope_key key a ≡ true
    → has_scope_key key b ≡ true
    → same_scope_key a b ≡ true
by_scope_key key a b ha hb =
    ground (arith, eq_iff a.scope_key key, eq_iff b.scope_key key, eq_iff a.scope_key b.scope_key)

module _ (rows : SqliteStore) (key arg_hash : String) where
  pub sqlite_complete-IsSoundTable :
      (result : ToolResult) (now : ℕ)
      → IsSoundTable rows
      → IsSoundTable (sqlite_complete rows key arg_hash result now)
  unfolding sqlite_complete
  sqlite_complete-IsSoundTable result now h = record {
    unique =
        IsUnique-update_where same_scope_key (is_open_for key arg_hash) (completed_row result now)
          rows (λ a b. refl) (λ a b. refl) h.unique;
    results =
        All-update_where (λ row. row.completed ≡ is_some row.result_json) (is_open_for key arg_hash)
          (completed_row result now) rows (λ a _ _. refl) h.results;
  }

  pub sqlite_release-IsSoundTable :
      IsSoundTable rows → IsSoundTable (sqlite_release rows key arg_hash)
  unfolding sqlite_release
  sqlite_release-IsSoundTable h = record {
    unique = IsUnique-delete_where same_scope_key _ rows h.unique;
    results = All-delete_where (λ row. row.completed ≡ is_some row.result_json) _ rows h.results;
  }

module _ (lease : ℕ) (rows : SqliteStore) (key arg_hash : String) (now : ℕ) where
  abbrev new_row : IdempotencyRow
  new_row = record {
    scope_key = key;
    argument_hash = arg_hash;
    completed = false;
    result_json = none;
    created_at = now;
    updated_at = now;
  }

  abbrev taken_over : SqliteStore
  taken_over = update_where (has_argument key arg_hash) (reserved_row now) rows

  reserve_cases :
      (row : IdempotencyRow)
      → find (has_scope_key key) rows ≡ some row
      → ((sqlite_reserve lease rows key arg_hash now).0 ≡ rows)
        ⊎ ((sqlite_reserve lease rows key arg_hash now).0 ≡ taken_over)
  unfolding sqlite_reserve
  reserve_cases row e = ground arith

  append-IsSoundTable :
      find (has_scope_key key) rows ≡ none → IsSoundTable rows → IsSoundTable (rows ++ new_row ∷ [])
  append-IsSoundTable e h = record {
    unique =
        IsUnique-append same_scope_key rows new_row h.unique
          (All-find-none (has_scope_key key) rows e);
    results = All-append _ rows (new_row ∷ []) h.results (refl, tt);
  }

  taken_over-IsSoundTable : IsSoundTable rows → IsSoundTable taken_over
  taken_over-IsSoundTable h = record {
    unique =
        IsUnique-update_where same_scope_key (has_argument key arg_hash) (reserved_row now) rows
          (λ a b. refl) (λ a b. refl) h.unique;
    results =
        All-update_where (λ row. row.completed ≡ is_some row.result_json)
          (has_argument key arg_hash) (reserved_row now) rows (λ a _ _. refl) h.results;
  }

  find_other-taken_over :
      (j : String)
      → (key == j) ≡ false
      → find (has_scope_key j) taken_over ≡ find (has_scope_key j) rows
  find_other-taken_over j apart = elim (Option-cases (find (has_scope_key j) rows)) [
    | inl n ↦ ground (
      arith,
      find-update_where (has_scope_key j) (has_argument key arg_hash) (reserved_row now) rows
          (λ a. refl),
    )
    | inr (r, n) ↦ ground (
      arith,
      find-update_where (has_scope_key j) (has_argument key arg_hash) (reserved_row now) rows
          (λ a. refl),
      find-true (has_scope_key j) rows r n,
      eq_iff r.scope_key j,
      eq_iff r.scope_key key,
      eq_iff key j,
    )
  ]

  module _ (h : IsSoundTable rows) where
    pub sqlite_reserve-IsSoundTable : IsSoundTable (sqlite_reserve lease rows key arg_hash now).0
    unfolding sqlite_reserve
    sqlite_reserve-IsSoundTable = elim (Option-cases (find (has_scope_key key) rows)) [
      | inl e ↦ rw (e, sqlite_reserve) (append-IsSoundTable e h)
      | inr (row, e) ↦ elim (reserve_cases row e) [
        | inl k ↦ subst IsSoundTable (sym k) h
        | inr k ↦ subst IsSoundTable (sym k) (taken_over-IsSoundTable h)
      ]
    ]

    pub sqlite_reserve_decision :
        (sqlite_reserve lease rows key arg_hash now).1
        ≡ decide_entry (sqlite_view lease rows key now) arg_hash
    unfolding sqlite_reserve sqlite_view decide_entry
    sqlite_reserve_decision = elim (Option-cases (find (has_scope_key key) rows)) [
      | inl e ↦ ground arith
      | inr (row, e) ↦
          let sound = All-find _ (has_scope_key key) rows row h.results e in ground (arith, sound)
    ]

    -- The entry of the key itself after `reserve`.
    view_same-reserve :
        0 < lease
        → sqlite_view lease (sqlite_reserve lease rows key arg_hash now).0 key now
          ≡ reserve_entry (sqlite_view lease rows key now) arg_hash
    unfolding sqlite_reserve sqlite_view reserve_entry find
    view_same-reserve pos = elim (Option-cases (find (has_scope_key key) rows)) [
      | inl e ↦
          ground (arith, eq_refl key, find-append_none (has_scope_key key) rows (new_row ∷ []) e)
      | inr (row, e) ↦
          let sound = All-find _ (has_scope_key key) rows row h.results e in
          let its_key = find-true (has_scope_key key) rows row e in
          let moved =
            find-update_where (has_scope_key key) (has_argument key arg_hash) (reserved_row now)
              rows (λ a. refl) in
          rw e (ground (arith, moved, eq_iff row.argument_hash arg_hash))
    ]

    -- The row of another key after `reserve`.
    find_other-reserve :
        (j : String)
        → (key == j) ≡ false
        → find (has_scope_key j) (sqlite_reserve lease rows key arg_hash now).0
          ≡ find (has_scope_key j) rows
    unfolding sqlite_reserve find
    find_other-reserve j apart = elim (Option-cases (find (has_scope_key key) rows)) [
      | inl e ↦ elim (Option-cases (find (has_scope_key j) rows)) [
        | inl n ↦ ground (arith, find-append_none (has_scope_key j) rows (new_row ∷ []) n)
        | inr (r, n) ↦ ground (arith, find-append_some (has_scope_key j) rows (new_row ∷ []) r n)
      ]
      | inr (row, e) ↦ elim (reserve_cases row e) [
        | inl k ↦ ap (find (has_scope_key j)) k
        | inr k ↦ ap (find (has_scope_key j)) k ∙ find_other-taken_over j apart
      ]
    ]

    pub view-sqlite_reserve :
        (j : String)
        → 0 < lease
        → sqlite_view lease (sqlite_reserve lease rows key arg_hash now).0 j now ≡ (
            if key == j
            then reserve_entry (sqlite_view lease rows j now) arg_hash
            else sqlite_view lease rows j now)
    unfolding sqlite_view
    view-sqlite_reserve j pos = elim (Bool-cases (key == j)) [
      | inl t ↦ rw t (
          subst
            (λ i.
              sqlite_view lease (sqlite_reserve lease rows key arg_hash now).0 i now
              ≡ reserve_entry (sqlite_view lease rows i now) arg_hash)
            ((eq_iff key j).0 t) (view_same-reserve pos))
      | inr f ↦ rw f (ap (row_entry lease now) (find_other-reserve j f))
    ]
