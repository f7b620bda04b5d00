-- ===== src/Outbox/Claim.antt =====
-- memory/event_store.py, claim_alert_delivery_records and refresh_alert_delivery_lock.
use production_support_agent.Prelude.{
  ℕ, ◌+◌, String, Bool, ◌&&◌, ◌||◌, none, some, List, [], ◌∷◌, map, ◌==◌, string_eq, ltb, take,
  select, contains, find, update_where, sort_by, Result, ok, err,
}
use production_support_agent.Models.{DeliveryStatus, pending, in_progress, delivery_status_eq}
use production_support_agent.Outbox.Delivery.{
  Delivery, Outbox, OutboxError, not_found, lock_lost, seconds, has_id_in_tenant, is_held_by,
  is_due, has_lapsed,
}

-- The `where` clause of the claim.
unfoldable pub is_claimable : String → ℕ → ℕ → Delivery → Bool
is_claimable tenant_id max_attempts now row =
    row.tenant_id == tenant_id
    && ltb row.attempt_count max_attempts
    && (row.status == pending
        || row.status == DeliveryStatus.failed
        || (row.status == in_progress && has_lapsed now row.locked_until))
    && is_due now row.next_attempt_at

-- The `set` clause of the claim.
abbrev pub claimed_row : String → ℕ → ℕ → Delivery → Delivery
claimed_row worker_id locked_until now row = record row {
  status = in_progress;
  locked_by = some worker_id;
  locked_until = some locked_until;
  updated_at = now;
}

-- `created_at asc, rowid asc`
abbrev pub by_created_at : List Delivery → List Delivery
by_created_at = sort_by (λ row. row.created_at)

-- The ids that a claim selects.
unfoldable pub claimable_ids : String → ℕ → ℕ → ℕ → List Delivery → List String
claimable_ids tenant_id max_attempts limit now rows =
    map (λ row. row.id)
      (take limit (by_created_at (select (is_claimable tenant_id max_attempts now) rows)))

-- The update of the rows with the given ids, and the rows that are read back.
unfoldable pub claim_ids : Outbox → String → ℕ → ℕ → List String → Outbox × List Delivery
claim_ids store worker_id locked_until now [] = (store, [])
claim_ids store worker_id locked_until now (first ∷ others) =
    let chosen = λ (row : Delivery). contains (first ∷ others) row.id in
    let rows = update_where chosen (claimed_row worker_id locked_until now) store.deliveries in
    (record store { deliveries = rows }, by_created_at (select chosen rows))

unfoldable pub claim_alert_delivery_records :
    Outbox → String → String → ℕ → ℕ → ℕ → ℕ → Outbox × List Delivery
claim_alert_delivery_records store tenant_id worker_id limit lease_seconds max_attempts now =
    claim_ids store worker_id (now + seconds lease_seconds) now
      (claimable_ids tenant_id max_attempts limit now store.deliveries)

-- The `where` clause of the refresh.
abbrev pub is_locked_by : String → String → String → Delivery → Bool
is_locked_by delivery_id tenant_id worker_id row =
    has_id_in_tenant delivery_id tenant_id row
    && row.status == in_progress
    && is_held_by worker_id row.locked_by

-- `updated.rowcount != 1` is a row that was not found: the id is the primary key.
unfoldable pub refresh_alert_delivery_lock :
    Outbox → String → String → String → ℕ → ℕ → Result OutboxError (Outbox × Delivery)
refresh_alert_delivery_lock store delivery_id tenant_id worker_id lease_seconds now =
    let held = is_locked_by delivery_id tenant_id worker_id in
    let refresh = λ (row : Delivery). record row {
      locked_until = some (now + seconds lease_seconds);
      updated_at = now;
    } in
    elim (find held store.deliveries) [
      | none ↦ elim (find (has_id_in_tenant delivery_id tenant_id) store.deliveries) [
        | none ↦ err not_found
        | some row ↦ err lock_lost
      ]
      | some row ↦
          ok (record store { deliveries = update_where held refresh store.deliveries }, refresh row)
    ]
