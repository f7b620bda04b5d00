-- ===== src/Dispatcher/Enqueuing.antt =====
-- monitoring/alert_dispatcher.py, should_enqueue_alert, build_alert_delivery_record,
-- alert_delivery_payload and enqueue_alert_deliveries.
use production_support_agent.Prelude.{
  ℕ, suc, ◌+◌, String, Bool, true, false, Option, none, some, List, [], ◌∷◌, ◌++◌, ◌==◌, ltb, take,
  length, if◌then◌else◌, string_eq, nat_eq,
}
use production_support_agent.Models.{
  Severity, AlertStatus, open_alert, acknowledged, investigating, resolved, silenced, p0, p1, p2,
  p3, pending,
}
use production_support_agent.Monitor.Events.{MonitorAlert}
use production_support_agent.Outbox.Delivery.{Delivery, Outbox}
use production_support_agent.Outbox.Enqueue.{enqueue_alert_delivery}

-- SEVERITY_RANK
abbrev pub severity_rank : Severity → ℕ
severity_rank p0 = 0
severity_rank p1 = 1
severity_rank p2 = 2
severity_rank p3 = 3

-- SEVERITY_RANK.get(min_severity, 99); a text that is no severity is `none`.
abbrev pub min_severity_rank : Option Severity → ℕ
min_severity_rank none = 99
min_severity_rank (some severity) = severity_rank severity

-- ACTIVE_ALERT_STATUSES
abbrev pub is_active_status : AlertStatus → Bool
is_active_status open_alert = true
is_active_status acknowledged = true
is_active_status investigating = true
is_active_status resolved = false
is_active_status silenced = false

unfoldable pub should_enqueue_alert : MonitorAlert → Option Severity → Bool
should_enqueue_alert alert min_severity =
    if ltb (min_severity_rank min_severity) (severity_rank alert.severity)
    then false
    else is_active_status alert.status

-- The `dict` of alert_delivery_payload, less the constant "type".
pub record Payload : Type 0 where
  pub delivery_id : String
  pub tenant_id : String
  pub alert_key : String
  pub severity : Severity
  pub reason : String
  pub alert_count : ℕ
  pub alert_first_seen_at : ℕ
  pub alert_last_seen_at : ℕ
  pub sample_event_ids : List String
  pub sample_run_ids : List String

-- alert_delivery_payload at the fields of an alert
unfoldable pub alert_delivery_payload : String → String → MonitorAlert → Payload
alert_delivery_payload delivery_id tenant_id alert = record {
  delivery_id = delivery_id;
  tenant_id = tenant_id;
  alert_key = alert.key;
  severity = alert.severity;
  reason = alert.reason;
  alert_count = alert.count;
  alert_first_seen_at = alert.first_seen_at;
  alert_last_seen_at = alert.last_seen_at;
  sample_event_ids = take 3 alert.sample_event_ids;
  sample_run_ids = take 3 alert.sample_run_ids;
}

-- alert_delivery_payload_from_record
unfoldable pub alert_delivery_payload_from_record : Delivery → Payload
alert_delivery_payload_from_record row = record {
  delivery_id = row.id;
  tenant_id = row.tenant_id;
  alert_key = row.alert_key;
  severity = row.severity;
  reason = row.reason;
  alert_count = row.alert_count;
  alert_first_seen_at = row.alert_first_seen_at;
  alert_last_seen_at = row.alert_last_seen_at;
  sample_event_ids = take 3 row.sample_event_ids;
  sample_run_ids = take 3 row.sample_run_ids;
}

-- AlertDispatchReport
pub record DispatchReport : Type 0 where
  pub webhook_enabled : Bool
  pub enqueued_count : ℕ
  pub existing_count : ℕ
  pub skipped_count : ℕ
  pub claimed_count : ℕ
  pub attempted_count : ℕ
  pub sent_count : ℕ
  pub failed_count : ℕ
  pub dead_count : ℕ
  pub deliveries : List Delivery

abbrev pub new_report : Bool → DispatchReport
new_report webhook_enabled = record {
  webhook_enabled = webhook_enabled;
  enqueued_count = 0;
  existing_count = 0;
  skipped_count = 0;
  claimed_count = 0;
  attempted_count = 0;
  sent_count = 0;
  failed_count = 0;
  dead_count = 0;
  deliveries = [];
}

-- `not webhook_url`
abbrev pub is_falsy : Option String → Bool
is_falsy none = true
is_falsy (some text) = text == ""

-- `hash_json_payload` and `hash_alert_destination`: SHA-256 over the canonical JSON of a payload and
-- over a URL.
module _ (hash_json_payload : Payload → String) (hash_alert_destination : String → String) where
  -- `delivery_id` is the fresh id and `now` the time of the call.
  unfoldable pub build_alert_delivery_record :
      String → ℕ → String → MonitorAlert → String → Delivery
  build_alert_delivery_record delivery_id now tenant_id alert destination_hash = record {
    id = delivery_id;
    tenant_id = tenant_id;
    alert_key = alert.key;
    severity = alert.severity;
    destination_hash = destination_hash;
    status = pending;
    alert_first_seen_at = alert.first_seen_at;
    alert_last_seen_at = alert.last_seen_at;
    alert_count = alert.count;
    reason = alert.reason;
    sample_event_ids = alert.sample_event_ids;
    sample_run_ids = alert.sample_run_ids;
    payload_hash = hash_json_payload (alert_delivery_payload delivery_id tenant_id alert);
    attempt_count = 0;
    next_attempt_at = none;
    last_attempt_at = none;
    delivered_at = none;
    dead_lettered_at = none;
    locked_until = none;
    locked_by = none;
    operator_action = none;
    operator_action_at = none;
    operator_action_by = none;
    operator_action_note = none;
    response_status_code = none;
    last_error = none;
    created_at = now;
    updated_at = now;
  }

  -- The report of one alert that is enqueued.
  abbrev reported : DispatchReport → Delivery → Bool → DispatchReport
  reported report persisted true = record report {
    deliveries = report.deliveries ++ persisted ∷ [];
    enqueued_count = report.enqueued_count + 1;
  }
  reported report persisted false = record report {
    deliveries = report.deliveries ++ persisted ∷ [];
    existing_count = report.existing_count + 1;
  }

  -- The loop over the alerts. `stamps` gives the fresh id and the time of the alert at each position
  -- of the loop. `none` is the exception of `enqueue_alert_delivery`.
  unfoldable pub enqueue_loop :
      (ℕ → String × ℕ)
      → String
      → String
      → Option Severity
      → ℕ
      → List MonitorAlert
      → Outbox
      → DispatchReport
      → Option (Outbox × DispatchReport)
  enqueue_loop stamps tenant_id destination_hash min_severity i [] store report =
      some (store, report)
  enqueue_loop stamps tenant_id destination_hash min_severity i (alert ∷ alerts) store report =
      let go = enqueue_loop stamps tenant_id destination_hash min_severity (suc i) alerts in
      let row =
        build_alert_delivery_record (stamps i).0 (stamps i).1 tenant_id alert destination_hash in
      let enqueued : Option (Outbox × DispatchReport) = elim (enqueue_alert_delivery store row) [
        | none ↦ none
        | some (store', persisted, created) ↦ go store' (reported report persisted created)
      ] in
      let skipped = go store (record report { skipped_count = report.skipped_count + 1 }) in
      if should_enqueue_alert alert min_severity then enqueued else skipped

  unfoldable pub enqueue_alert_deliveries :
      Outbox
      → (ℕ → String × ℕ)
      → String
      → List MonitorAlert
      → Option String
      → Option Severity
      → Option (Outbox × DispatchReport)
  unfolding enqueue_loop
  enqueue_alert_deliveries store stamps tenant_id alerts none min_severity =
      some (store, record (new_report false) { skipped_count = length alerts })
  enqueue_alert_deliveries store stamps tenant_id alerts (some webhook_url) min_severity =
      if webhook_url == ""
      then some (store, record (new_report false) { skipped_count = length alerts })
      else enqueue_loop stamps tenant_id (hash_alert_destination webhook_url) min_severity 0 alerts
          store (new_report true)
