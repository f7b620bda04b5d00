-- ===== src/Outbox/Delivery.antt =====
-- models.py, AlertDeliveryRecord; memory/event_store.py, the table alert_delivery_outbox and the
-- events that its operations append. A time is a number of microseconds, and a text that only
-- `isoformat` writes is the time it stands for.
use production_support_agent.Prelude.{
  ℕ, ◌*◌, String, ◌&&◌, Bool, true, false, Option, none, some, List, ◌==◌, string_eq, nat_eq, leb,
}
use production_support_agent.Models.{Severity, DeliveryStatus}

-- timedelta(seconds=n)
abbrev pub seconds : ℕ → ℕ
seconds n = n * 1000000

-- AlertDeliveryRecord, less `channel`, which has one value.
pub record Delivery : Type 0 where
  pub id : String
  pub tenant_id : String
  pub alert_key : String
  pub severity : Severity
  pub destination_hash : String
  pub status : DeliveryStatus
  pub alert_first_seen_at : ℕ
  pub alert_last_seen_at : ℕ
  pub alert_count : ℕ
  pub reason : String
  pub sample_event_ids : List String
  pub sample_run_ids : List String
  pub payload_hash : String
  pub attempt_count : ℕ
  pub next_attempt_at : Option ℕ
  pub last_attempt_at : Option ℕ
  pub delivered_at : Option ℕ
  pub dead_lettered_at : Option ℕ
  pub locked_until : Option ℕ
  pub locked_by : Option String
  pub operator_action : Option String
  pub operator_action_at : Option ℕ
  pub operator_action_by : Option String
  pub operator_action_note : Option String
  pub response_status_code : Option ℕ
  pub last_error : Option String
  pub created_at : ℕ
  pub updated_at : ℕ

-- What the operations append to the event log: the event type and the row that the payload shows.
pub data OutboxEvent : Type 0 where
  enqueued_event : Delivery → OutboxEvent
  attempted_event : Delivery → OutboxEvent
  requeued_event : Delivery → OutboxEvent
  closed_event : Delivery → OutboxEvent

-- The table in rowid order, and the events appended so far.
pub record Outbox : Type 0 where
  pub deliveries : List Delivery
  pub events : List OutboxEvent

-- KeyError, AlertDeliveryLockLostError, ValueError
pub data OutboxError : Type 0 where
  not_found lock_lost not_eligible : OutboxError

-- `where id = ?`
abbrev pub has_id : String → Delivery → Bool
has_id delivery_id row = row.id == delivery_id

-- `where id = ? and tenant_id = ?`
abbrev pub has_id_in_tenant : String → String → Delivery → Bool
has_id_in_tenant delivery_id tenant_id row = row.id == delivery_id && row.tenant_id == tenant_id

-- `locked_by = ?`, which null does not satisfy
abbrev pub is_held_by : String → Option String → Bool
is_held_by worker_id none = false
is_held_by worker_id (some holder) = holder == worker_id

-- `column is null or column <= ?`
abbrev pub is_due : ℕ → Option ℕ → Bool
is_due now none = true
is_due now (some at) = leb at now

-- `column is not null and column <= ?`
abbrev pub has_lapsed : ℕ → Option ℕ → Bool
has_lapsed now none = false
has_lapsed now (some at) = leb at now

-- The columns of `unique (tenant_id, alert_key, alert_last_seen_at, destination_hash)`.
abbrev pub same_alert : Delivery → Delivery → Bool
same_alert a b =
    a.tenant_id == b.tenant_id
    && a.alert_key == b.alert_key
    && a.alert_last_seen_at == b.alert_last_seen_at
    && a.destination_hash == b.destination_hash

-- The primary key.
abbrev pub same_id : Delivery → Delivery → Bool
same_id a b = a.id == b.id
