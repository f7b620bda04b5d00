-- ===== src/Models.antt =====
-- models.py: the enumerations that the components share, with the source's words for their values.
use production_support_agent.Prelude.{ℕ, ◌≡◌, ◌↔◌, true, Comparable, nat_eq, ◌==◌, arith}

-- RiskLevel
pub data RiskLevel : Type 0 where
  low medium high critical : RiskLevel

-- IntentType
pub data IntentType : Type 0 where
  order_status refund_or_return billing technical_issue complaint account_security : IntentType
  general_question unknown : IntentType

-- RouteTarget
pub data RouteTarget : Type 0 where
  order_agent billing_agent tech_agent retention_agent safety_agent general_agent human :
      RouteTarget

-- ToolStatus
pub data ToolStatus : Type 0 where
  success failed skipped : ToolStatus

-- The literals "P0" to "P3" of MonitorAlert.severity and AlertDeliveryRecord.severity
pub data Severity : Type 0 where
  p0 p1 p2 p3 : Severity

-- AlertDeliveryStatus
pub data DeliveryStatus : Type 0 where
  pending in_progress sent failed dead closed : DeliveryStatus

-- MonitorAlertStatus
pub data AlertStatus : Type 0 where
  open_alert acknowledged investigating resolved silenced : AlertStatus

abbrev delivery_code : DeliveryStatus → ℕ
delivery_code pending = 0
delivery_code in_progress = 1
delivery_code sent = 2
delivery_code failed = 3
delivery_code dead = 4
delivery_code closed = 5

pub delivery_code_iff :
    (a b : DeliveryStatus) → ((delivery_code a == delivery_code b) ≡ true) ↔ (a ≡ b)
delivery_code_iff a b = (λ h. ground arith, λ h. ground arith)

instance abbrev pub delivery_status_eq : Comparable DeliveryStatus
delivery_status_eq = record {
  equals = λ a b. delivery_code a == delivery_code b;
  equals_iff = delivery_code_iff;
}
