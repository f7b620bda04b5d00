-- ===== src/Outbox/Attempt.antt =====
-- memory/event_store.py, record_alert_delivery_attempt.
use mathlib.Core.Option
use production_support_agent.Prelude.{
  ℕ, ◌+◌, String, Bool, false, ◌&&◌, ◌||◌, not, Option, none, some, [], ◌∷◌, ◌++◌, ◌==◌, leb, find,
  update_where, or_else, Result, ok, err, if◌then◌else◌,
}
use production_support_agent.Models.{
  DeliveryStatus, in_progress, sent, failed, dead, delivery_status_eq,
}
use production_support_agent.Outbox.Delivery.{
  Delivery, Outbox, OutboxError, not_found, lock_lost, attempted_event, seconds, has_id, is_held_by,
}

-- The arguments of one call, `backoff_seconds` and the rest of the keyword arguments included.
pub record AttemptOutcome : Type 0 where
  pub status : DeliveryStatus
  pub response_status_code : Option ℕ
  pub last_error : Option String
  pub max_attempts : Option ℕ
  pub backoff_seconds : Option ℕ
  pub worker_id : Option String

-- `max_attempts is not None and attempt_count >= max_attempts`
unfoldable pub is_exhausted : Option ℕ → ℕ → Bool
is_exhausted none attempt_count = false
is_exhausted (some max_attempts) attempt_count = leb max_attempts attempt_count

-- `final_status`, `dead_lettered_at` and `next_attempt_at` as the code computes them.
unfoldable pub final_status : AttemptOutcome → ℕ → DeliveryStatus
unfolding is_exhausted
final_status outcome attempt_count =
    if outcome.status == failed && is_exhausted outcome.max_attempts attempt_count
    then dead
    else outcome.status

unfoldable pub dead_lettered_at : AttemptOutcome → ℕ → ℕ → Option ℕ
unfolding is_exhausted
dead_lettered_at outcome attempt_count now =
    if outcome.status == failed && is_exhausted outcome.max_attempts attempt_count
    then some now
    else none

unfoldable pub next_attempt_at : AttemptOutcome → ℕ → ℕ → Option ℕ
unfolding is_exhausted
next_attempt_at outcome attempt_count now =
    if outcome.status == failed && not (is_exhausted outcome.max_attempts attempt_count)
    then Option.map (λ backoff. now + seconds backoff) outcome.backoff_seconds
    else none

-- `delivered_at = now if status == sent else None`
unfoldable pub delivered_at : AttemptOutcome → ℕ → Option ℕ
delivered_at outcome now = if outcome.status == sent then some now else none

-- The `set` clause; `coalesce(?, column)` keeps a column where the value is null.
unfoldable pub attempted_row : AttemptOutcome → ℕ → ℕ → Delivery → Delivery
unfolding final_status dead_lettered_at next_attempt_at delivered_at
attempted_row outcome attempt_count now row = record row {
  status = final_status outcome attempt_count;
  attempt_count = attempt_count;
  next_attempt_at = next_attempt_at outcome attempt_count now;
  last_attempt_at = some now;
  delivered_at = or_else (delivered_at outcome now) row.delivered_at;
  dead_lettered_at = or_else (dead_lettered_at outcome attempt_count now) row.dead_lettered_at;
  locked_until = none;
  locked_by = none;
  response_status_code = outcome.response_status_code;
  last_error = outcome.last_error;
  updated_at = now;
}

-- `worker_id is not None and (row["status"] != "in_progress" or row["locked_by"] != worker_id)`
unfoldable pub lost_lock : Option String → Delivery → Bool
lost_lock none row = false
lost_lock (some worker_id) row =
    not (row.status == in_progress) || not (is_held_by worker_id row.locked_by)

unfoldable pub record_alert_delivery_attempt :
    Outbox → String → AttemptOutcome → ℕ → Result OutboxError (Outbox × Delivery)
unfolding lost_lock
record_alert_delivery_attempt store delivery_id outcome now =
    elim (find (has_id delivery_id) store.deliveries) [
      | none ↦ err not_found
      | some row ↦
          let write = attempted_row outcome (row.attempt_count + 1) now in
          let updated = write row in
          if lost_lock outcome.worker_id row
          then err lock_lost
          else ok (
            record store {
              deliveries = update_where (has_id delivery_id) write store.deliveries;
              events = store.events ++ attempted_event updated ∷ [];
            },
            updated,
          )
    ]
