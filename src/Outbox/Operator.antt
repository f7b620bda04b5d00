-- ===== src/Outbox/Operator.antt =====
-- memory/event_store.py, requeue_alert_delivery, close_alert_delivery and the
-- _record_alert_delivery_operator_action that both call.
use production_support_agent.Prelude.{
  ℕ, String, Bool, true, false, none, some, List, [], ◌∷◌, ◌++◌, contains, find, update_where,
  Result, ok, err, if◌then◌else◌,
}
use production_support_agent.Models.{DeliveryStatus, pending, dead, closed, delivery_status_eq}
use production_support_agent.Outbox.Delivery.{
  Delivery, Outbox, OutboxEvent, OutboxError, not_found, not_eligible, requeued_event, closed_event,
  has_id_in_tenant,
}

-- The keyword arguments in which the two operations differ.
pub record OperatorAction : Type 0 where
  pub action : String
  pub final_status : DeliveryStatus
  pub allowed_statuses : List DeliveryStatus
  pub reset_attempts : Bool
  pub event : Delivery → OutboxEvent

-- The `set` clause.
unfoldable pub operated_row : OperatorAction → String → String → ℕ → Delivery → Delivery
operated_row act actor_user_id note now row = record row {
  status = act.final_status;
  attempt_count = if act.reset_attempts then 0 else row.attempt_count;
  next_attempt_at = none;
  dead_lettered_at = if act.reset_attempts then none else row.dead_lettered_at;
  locked_until = none;
  locked_by = none;
  operator_action = some act.action;
  operator_action_at = some now;
  operator_action_by = some actor_user_id;
  operator_action_note = some note;
  response_status_code = if act.reset_attempts then none else row.response_status_code;
  last_error = if act.reset_attempts then none else row.last_error;
  updated_at = now;
}

unfoldable pub record_alert_delivery_operator_action :
    OperatorAction
    → Outbox
    → String
    → String
    → String
    → String
    → ℕ
    → Result OutboxError (Outbox × Delivery)
unfolding operated_row contains
record_alert_delivery_operator_action act store delivery_id tenant_id actor_user_id note now =
    elim (find (has_id_in_tenant delivery_id tenant_id) store.deliveries) [
      | none ↦ err not_found
      | some row ↦
          let write = operated_row act actor_user_id note now in
          if contains act.allowed_statuses row.status
          then ok (
            record store {
              deliveries =
                  update_where (has_id_in_tenant delivery_id tenant_id) write store.deliveries;
              events = store.events ++ act.event (write row) ∷ [];
            },
            write row,
          )
          else err not_eligible
    ]

abbrev pub requeued : OperatorAction
requeued = record {
  action = "requeued";
  final_status = pending;
  allowed_statuses = dead ∷ [];
  reset_attempts = true;
  event = requeued_event;
}

abbrev pub closing : OperatorAction
closing = record {
  action = "closed";
  final_status = closed;
  allowed_statuses = dead ∷ [];
  reset_attempts = false;
  event = closed_event;
}

unfoldable pub requeue_alert_delivery :
    Outbox → String → String → String → String → ℕ → Result OutboxError (Outbox × Delivery)
unfolding record_alert_delivery_operator_action
requeue_alert_delivery = record_alert_delivery_operator_action requeued

unfoldable pub close_alert_delivery :
    Outbox → String → String → String → String → ℕ → Result OutboxError (Outbox × Delivery)
unfolding record_alert_delivery_operator_action
close_alert_delivery = record_alert_delivery_operator_action closing
