-- ===== src/Dispatcher/Dispatching.antt =====
-- monitoring/alert_dispatcher.py, dispatch_alert_deliveries. The clock, the webhook and the other
-- workers are an environment: for the candidate at each position of the loop it gives what they do.
use production_support_agent.Prelude.{
  ℕ, suc, ◌+◌, ◌/◌, max, String, true, false, Option, none, some, List, [], ◌∷◌, ◌++◌, ◌==◌, length,
  if◌then◌else◌, Result, ok, err, string_eq, nat_eq,
}
use production_support_agent.Models.{DeliveryStatus, sent, dead, delivery_status_eq}
use production_support_agent.Outbox.Delivery.{
  Delivery, Outbox, OutboxError, not_found, lock_lost, not_eligible,
}
use production_support_agent.Outbox.Claim.{
  claim_alert_delivery_records, refresh_alert_delivery_lock,
}
use production_support_agent.Outbox.Attempt.{AttemptOutcome, record_alert_delivery_attempt}
use production_support_agent.Dispatcher.Webhook.{
  PostReply, delivery_result, delivery_backoff_seconds,
}
use production_support_agent.Dispatcher.Enqueuing.{DispatchReport, new_report}

-- One turn of the loop: what other workers do to the outbox before the lock is refreshed and while
-- the webhook is called, the times of the two calls of the store, and the webhook's reply.
pub record Turn : Type 0 where
  pub others_before : Outbox → Outbox
  pub refreshed_at : ℕ
  pub reply : PostReply
  pub others_during : Outbox → Outbox
  pub attempted_at : ℕ

-- The keyword arguments of the call.
pub record DispatchOptions : Type 0 where
  pub tenant_id : String
  pub worker_id : String
  pub max_attempts : ℕ
  pub limit : ℕ
  pub timeout_ms : ℕ
  pub backoff_base_seconds : ℕ
  pub backoff_max_seconds : ℕ
  pub claim_lease_seconds : ℕ

-- max(claim_lease_seconds, math.ceil(timeout_ms / 1000) + 5)
unfoldable pub refresh_lease_seconds : DispatchOptions → ℕ
refresh_lease_seconds o = max o.claim_lease_seconds ((o.timeout_ms + 999) / 1000 + 5)

-- The arguments of record_alert_delivery_attempt.
unfoldable pub attempt_outcome : DispatchOptions → Delivery → PostReply → AttemptOutcome
unfolding delivery_result
attempt_outcome o row reply =
    let (status, response_status_code, last_error) = delivery_result reply in
    record {
      status = status;
      response_status_code = response_status_code;
      last_error = last_error;
      max_attempts = some o.max_attempts;
      backoff_seconds =
          if status == DeliveryStatus.failed
          then some (
              delivery_backoff_seconds (row.attempt_count + 1) o.backoff_base_seconds
                o.backoff_max_seconds)
          else none;
      worker_id = some o.worker_id;
    }

abbrev pub skip : DispatchReport → DispatchReport
skip report = record report { skipped_count = report.skipped_count + 1 }

abbrev pub attempted : DispatchReport → DispatchReport
attempted report = record report { attempted_count = report.attempted_count + 1 }

-- The counters and the list of deliveries after an attempt that was recorded.
unfoldable pub count_updated : DispatchReport → Delivery → DispatchReport
count_updated report updated = record report {
  sent_count = if updated.status == sent then report.sent_count + 1 else report.sent_count;
  dead_count = if updated.status == dead then report.dead_count + 1 else report.dead_count;
  failed_count =
      if updated.status == sent
      then report.failed_count
      else if updated.status == dead
      then report.failed_count
      else report.failed_count + 1;
  deliveries = report.deliveries ++ updated ∷ [];
}

-- What one candidate makes of the outbox and the report. A KeyError ends the loop; a lost lock
-- skips the candidate.
unfoldable pub record_turn :
    DispatchOptions
    → Turn
    → Delivery
    → Outbox
    → DispatchReport
    → Result OutboxError (Outbox × DispatchReport)
record_turn o turn row store report =
    elim (record_alert_delivery_attempt (turn.others_during store) row.id
      (attempt_outcome o row turn.reply) turn.attempted_at) [
        | ok (store', updated) ↦ ok (store', count_updated (attempted report) updated)
        | err lock_lost ↦ ok (turn.others_during store, skip (attempted report))
        | err not_found ↦ err not_found
        | err not_eligible ↦ err not_eligible
      ]

unfoldable pub dispatch_turn :
    DispatchOptions
    → Turn
    → Delivery
    → Outbox
    → DispatchReport
    → Result OutboxError (Outbox × DispatchReport)
dispatch_turn o turn candidate store report =
    elim (refresh_alert_delivery_lock (turn.others_before store) candidate.id o.tenant_id
      o.worker_id (refresh_lease_seconds o) turn.refreshed_at) [
        | ok (store', row) ↦ record_turn o turn row store' report
        | err lock_lost ↦ ok (turn.others_before store, skip report)
        | err not_found ↦ err not_found
        | err not_eligible ↦ err not_eligible
      ]

unfoldable pub dispatch_loop :
    DispatchOptions
    → (ℕ → Turn)
    → ℕ
    → List Delivery
    → Outbox
    → DispatchReport
    → Result OutboxError (Outbox × DispatchReport)
dispatch_loop o turns i [] store report = ok (store, report)
dispatch_loop o turns i (candidate ∷ candidates) store report =
    elim (dispatch_turn o (turns i) candidate store report) [
      | ok (store', report') ↦ dispatch_loop o turns (suc i) candidates store' report'
      | err e ↦ err e
    ]

-- The whole call; `now` is the time of the claim.
unfoldable pub dispatch_alert_deliveries :
    DispatchOptions
    → Option String
    → (ℕ → Turn)
    → ℕ
    → Outbox
    → Result OutboxError (Outbox × DispatchReport)
dispatch_alert_deliveries o none turns now store = ok (store, new_report false)
dispatch_alert_deliveries o (some webhook_url) turns now store =
    let (store', candidates) =
      claim_alert_delivery_records store o.tenant_id o.worker_id o.limit o.claim_lease_seconds
        o.max_attempts now in
    if webhook_url == ""
    then ok (store, new_report false)
    else dispatch_loop o turns 0 candidates store'
        (record (new_report true) { claimed_count = length candidates })
