-- ===== src/Nonces/Replays.antt =====
-- A nonce is accepted once until it expires.
use production_support_agent.Prelude.{
  ℕ, ◌<◌, ◌≡◌, refl, ap, ◌∙◌, Bool, true, false, false≢true, Option, none, some, List, [], ◌∷◌,
  arith, eq_refl, nat_eq, string_eq, All, find, find-append_some, find-append_none, delete_where,
  find_congr, find-none, All-delete_where, All-find-none,
}
use production_support_agent.Nonces.{
  Nonce, has_nonce_key, is_over, insert_nonce, reserve_api_request_nonce, reserve_all, delete_where,
}

-- The row that a statement finds is found still after a delete that spares it.
find-delete_where_kept :
    (q p : Nonce → Bool) (rows : List Nonce) (row : Nonce)
    → find q rows ≡ some row
    → p row ≡ false
    → find q (delete_where p rows) ≡ some row
unfolding find delete_where
find-delete_where_kept q p [] row e kept = absurd (ground arith)
find-delete_where_kept q p (x ∷ rows) row e kept =
    ground (arith, find-delete_where_kept q p rows row)

module _ (asked : Nonce) where
  -- The row of a nonce that is taken.
  abbrev pub IsTaken : Nonce → List Nonce → Type 0
  IsTaken taken rows = find (has_nonce_key asked) rows ≡ some taken

  insert_nonce-IsTaken :
      (taken other : Nonce) (rows : List Nonce) (found : Option Nonce)
      → IsTaken taken rows
      → IsTaken taken (insert_nonce other rows found).0
  insert_nonce-IsTaken taken other rows (some row) h = h
  insert_nonce-IsTaken taken other rows none h =
      find-append_some (has_nonce_key asked) rows (other ∷ []) taken h

  left-IsTaken :
      (taken : Nonce) (rows : List Nonce) (now : ℕ)
      → now < taken.expires_at
      → IsTaken taken rows
      → IsTaken taken (delete_where (is_over now) rows)
  left-IsTaken taken rows now early h =
      find-delete_where_kept (has_nonce_key asked) (is_over now) rows taken h
        (ground (arith, early))

  reserve_all-IsTaken :
      (taken : Nonce) (calls rows : List Nonce)
      → All (λ other. other.created_at < taken.expires_at) calls
      → IsTaken taken rows
      → IsTaken taken (reserve_all rows calls)
  unfolding reserve_all reserve_api_request_nonce
  reserve_all-IsTaken taken [] rows early h = h
  reserve_all-IsTaken taken (other ∷ later) rows early h =
      let left = delete_where (is_over other.created_at) rows in
      reserve_all-IsTaken taken later (insert_nonce other left (find (has_nonce_key other) left)).0
        early.1
        (insert_nonce-IsTaken taken other left (find (has_nonce_key other) left)
          (left-IsTaken taken rows other.created_at early.0 h))

  -- A reservation that is accepted leaves a row for its nonce.
  accepted-IsTaken :
      (left : List Nonce) (found : Option Nonce)
      → find (has_nonce_key asked) left ≡ found
      → (insert_nonce asked left found).1 ≡ true
      → IsTaken asked (insert_nonce asked left found).0
  unfolding find
  accepted-IsTaken left (some taken) e h = absurd (false≢true h)
  accepted-IsTaken left none e h =
      find-append_none (has_nonce_key asked) left (asked ∷ []) e
      ∙ rw (eq_refl asked.tenant_id, eq_refl asked.actor_user_id, eq_refl asked.nonce) refl

-- When a nonce was accepted, it is refused for the same tenant and actor, whatever the request is, by
-- every later call until the nonce expires, after any other calls before that time.
pub nonce_refused :
    (rows : List Nonce) (asked again : Nonce) (calls : List Nonce)
    → (reserve_api_request_nonce rows asked).1 ≡ true
    → again.tenant_id ≡ asked.tenant_id
    → again.actor_user_id ≡ asked.actor_user_id
    → again.nonce ≡ asked.nonce
    → All (λ other. other.created_at < asked.expires_at) calls
    → again.created_at < asked.expires_at
    → (reserve_api_request_nonce
        (reserve_all (reserve_api_request_nonce rows asked).0 calls)
        again).1
      ≡ false
unfolding reserve_api_request_nonce
nonce_refused rows asked again calls accepted tenant actor same early now =
    let left = delete_where (is_over asked.created_at) rows in
    let found = find (has_nonce_key asked) left in
    let after = (insert_nonce asked left found).0 in
    let taken = accepted-IsTaken asked left found refl accepted in
    let still =
      left-IsTaken asked asked (reserve_all after calls) again.created_at now
        (reserve_all-IsTaken asked asked calls after early taken) in
    let rest = delete_where (is_over again.created_at) (reserve_all after calls) in
    let by_again : find (has_nonce_key again) rest ≡ some asked =
      find_congr (has_nonce_key again) (has_nonce_key asked) rest
        (λ row. rw (tenant, actor, same) refl)
      ∙ still in
    ap (λ o. (insert_nonce again rest o).1) by_again

-- A nonce that no row has for the tenant and the actor is accepted.
pub nonce_accepted :
    (rows : List Nonce) (asked : Nonce)
    → find (has_nonce_key asked) rows ≡ none
    → (reserve_api_request_nonce rows asked).1 ≡ true
unfolding reserve_api_request_nonce
nonce_accepted rows asked e =
    let left = delete_where (is_over asked.created_at) rows in
    let unused = find-none (has_nonce_key asked) left (
      All-delete_where (λ row. has_nonce_key asked row ≡ false) (is_over asked.created_at) rows
        (All-find-none (has_nonce_key asked) rows e)) in
    ap (λ o. (insert_nonce asked left o).1) unused
