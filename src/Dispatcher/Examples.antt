-- ===== src/Dispatcher/Examples.antt =====
-- The dispatcher's theorems at concrete inputs: a dispatch whose webhook answers 503.
use production_support_agent.Outbox.Attempt.{record_alert_delivery_attempt, attempted_row}
use production_support_agent.Outbox.Claim.{
  refresh_alert_delivery_lock, claim_alert_delivery_records, claimable_ids, claim_ids, is_claimable,
}
use production_support_agent.Outbox.Examples.{one_delivery}
use production_support_agent.Dispatcher.Enqueuing.{DispatchReport, new_report}
use production_support_agent.Dispatcher.Backoff.{backoff_laws}
use production_support_agent.Dispatcher.Webhook.{delivery_backoff_seconds, responded}
use production_support_agent.Outbox.Delivery.{OutboxError, Outbox}
use production_support_agent.Dispatcher.Dispatching.{
  DispatchOptions, Turn, dispatch_alert_deliveries, dispatch_loop, dispatch_turn, record_turn,
  attempt_outcome, count_updated,
}
use production_support_agent.Prelude.{
  ℕ, ◌≤◌, ◌≡◌, refl, false, some, arith, nat_eq, string_eq, find, ok, err, Result, select, sort_by,
  contains, update_where,
}

abbrev options : DispatchOptions
options = record {
  tenant_id = "acme";
  worker_id = "w1";
  max_attempts = 3;
  limit = 5;
  timeout_ms = 5000;
  backoff_base_seconds = 60;
  backoff_max_seconds = 900;
  claim_lease_seconds = 120;
}

abbrev quiet_503 : ℕ → Turn
quiet_503 i = record {
  others_before = λ s. s;
  refreshed_at = 2000;
  reply = responded 503;
  others_during = λ s. s;
  attempted_at = 3000;
}

abbrev dispatched : Result OutboxError (Outbox × DispatchReport)
dispatched = dispatch_alert_deliveries options (some "https://hook") quiet_503 1000 one_delivery

abbrev state_of : Result OutboxError (Outbox × DispatchReport) → Outbox × DispatchReport
state_of (ok a) = a
state_of (err e) = (one_delivery, new_report false)

-- The webhook's 503 is one failed attempt, to be retried after the base delay.
dispatched_counts :
    ((state_of dispatched).1.claimed_count ≡ 1)
    × ((state_of dispatched).1.failed_count ≡ 1)
    × ((state_of dispatched).1.sent_count ≡ 0)
unfolding dispatch_alert_deliveries dispatch_loop dispatch_turn record_turn
    refresh_alert_delivery_lock record_alert_delivery_attempt claim_alert_delivery_records
    claimable_ids claim_ids is_claimable select sort_by contains update_where find attempt_outcome
    attempted_row count_updated
dispatched_counts = (refl, refl, refl)

backoff_laws_example :
    (delivery_backoff_seconds 2 60 900 ≤ delivery_backoff_seconds 4 60 900)
    × (delivery_backoff_seconds 4 60 900 ≤ 900)
    × (delivery_backoff_seconds 3 60 900 ≡ 240)
backoff_laws_example = backoff_laws 2 4 60 900 (omega arith) (omega arith)
