-- ===== src/Monitor/Events.antt =====
-- models.py, MonitorEvent and MonitorAlertTriageEvent; monitoring/monitor.py, MonitorAlert. Times are
-- numbers of microseconds.
use production_support_agent.Prelude.{ℕ, String, Option, List, Bool}
use production_support_agent.Models.{RiskLevel, IntentType, Severity, AlertStatus}

pub record MonitorEvent : Type 0 where
  pub id : String
  pub conversation_id : String
  pub run_id : String
  pub timestamp : ℕ
  pub agent_version : String
  pub user_intent : IntentType
  pub alert_key : Option String
  pub risk_level : RiskLevel
  pub grounded : Bool
  pub policy_compliant : Bool
  pub pii_leak : Bool
  pub needs_human_review : Bool
  pub failure_types : List String
  pub summary : String

pub record MonitorAlert : Type 0 where
  pub severity : Severity
  pub key : String
  pub count : ℕ
  pub reason : String
  pub first_seen_at : ℕ
  pub last_seen_at : ℕ
  pub sample_event_ids : List String
  pub sample_run_ids : List String
  pub status : AlertStatus
  pub assignee_user_id : Option String
  pub last_triage_event_id : Option String
  pub last_triage_at : Option ℕ
  pub last_triage_note : Option String
  pub new_events_since_triage : Bool

-- MonitorAlertTriageEvent; `note` is a text, which may be empty.
pub record TriageEvent : Type 0 where
  pub id : String
  pub alert_key : String
  pub status : Option AlertStatus
  pub assignee_user_id : Option String
  pub actor_user_id : String
  pub note : String
  pub created_at : ℕ
