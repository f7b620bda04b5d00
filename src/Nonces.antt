-- ===== src/Nonces.antt =====
-- memory/event_store.py, reserve_api_request_nonce: the nonces of signed API requests, as the rows of
-- the table api_request_nonces, whose key is the tenant, the actor and the nonce.
use production_support_agent.Prelude.{
  ℕ, zero, suc, ◌+◌, ◌-◌, ◌*◌, ◌/◌, ◌%◌, ◌^◌, ◌≤◌, ◌<◌, min, max, String, str_append, ◌≡◌, refl,
  sym, ap, ◌∙◌, subst, ◌≢◌, ◌↔◌, ◌⊎◌, inl, inr, Bool, true, false, not, ◌&&◌, ◌||◌, false≢true,
  Option, none, some, List, [], ◌∷◌, ◌++◌, map, arith, eq_iff, eq_refl, ltb, leb, if◌then◌else◌,
  ◌==◌, nat_eq, string_eq, Bool-cases, Option-cases, is_some, or_else, length, All, find, ok, err,
  Result, delete_where,
}
pub mod Replays
pub mod Examples

-- A row of the table, and the arguments of one call with the time of the call as `created_at`.
pub record Nonce : Type 0 where
  pub tenant_id : String
  pub actor_user_id : String
  pub nonce : String
  pub request_hash : String
  pub created_at : ℕ
  pub expires_at : ℕ

-- The primary key
abbrev pub has_nonce_key : Nonce → Nonce → Bool
has_nonce_key a row =
    row.tenant_id == a.tenant_id && row.actor_user_id == a.actor_user_id && row.nonce == a.nonce

-- `where expires_at <= ?`
abbrev pub is_over : ℕ → Nonce → Bool
is_over now row = leb row.expires_at now

-- The insertion, which the key refuses when a row has it.
abbrev pub insert_nonce : Nonce → List Nonce → Option Nonce → List Nonce × Bool
insert_nonce asked rows (some taken) = (rows, false)
insert_nonce asked rows none = (rows ++ asked ∷ [], true)

-- reserve_api_request_nonce; the deletion of what has expired stays when the nonce is refused.
unfoldable pub reserve_api_request_nonce : List Nonce → Nonce → List Nonce × Bool
reserve_api_request_nonce rows asked =
    let left = delete_where (is_over asked.created_at) rows in
    insert_nonce asked left (find (has_nonce_key asked) left)

-- The rows after a sequence of calls.
unfoldable pub reserve_all : List Nonce → List Nonce → List Nonce
reserve_all rows [] = rows
reserve_all rows (asked ∷ later) = reserve_all (reserve_api_request_nonce rows asked).0 later
