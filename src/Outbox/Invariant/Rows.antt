-- ===== src/Outbox/Invariant/Rows.antt =====
-- The columns of one row of the outbox agree with its status, whatever writes the row.
use production_support_agent.Prelude.{
  ℕ, String, ◌≡◌, ◌≢◌, ◌⊎◌, inl, inr, true, none, some, is_some, arith,
}
use production_support_agent.Models.{DeliveryStatus, in_progress, sent, dead, closed}
use production_support_agent.Outbox.Delivery.{Delivery}
use production_support_agent.Outbox.Claim.{claimed_row}
use production_support_agent.Outbox.Attempt.{AttemptOutcome, attempted_row}
use production_support_agent.Outbox.Operator.{operated_row, requeued, closing}

-- A row is locked exactly while it is in progress; a sent row has a delivery time; a dead or closed
-- one has the time of its death, and a closed one its operator.
pub record IsConsistent (d : Delivery) : Type 0 where
  pub held_by : d.status ≡ in_progress → is_some d.locked_by ≡ true
  pub held_until : d.status ≡ in_progress → is_some d.locked_until ≡ true
  pub free_by : d.status ≢ in_progress → d.locked_by ≡ none
  pub free_until : d.status ≢ in_progress → d.locked_until ≡ none
  pub delivered : d.status ≡ sent → is_some d.delivered_at ≡ true
  pub died : d.status ≡ dead → is_some d.dead_lettered_at ≡ true
  pub died_closed : d.status ≡ closed → is_some d.dead_lettered_at ≡ true
  pub closed_by : d.status ≡ closed → is_some d.operator_action_by ≡ true

-- The outcomes that a dispatcher reports.
abbrev pub IsReport : AttemptOutcome → Type 0
IsReport outcome = (outcome.status ≡ sent) ⊎ (outcome.status ≡ DeliveryStatus.failed)

pub claimed_row-IsConsistent :
    (worker_id : String) (locked_until now : ℕ) (d : Delivery)
    → IsConsistent (claimed_row worker_id locked_until now d)
claimed_row-IsConsistent worker_id locked_until now d = ground arith

pub refreshed-IsConsistent :
    (until now : ℕ) (d : Delivery)
    → IsConsistent d
    → d.status ≡ in_progress
    → IsConsistent (record d { locked_until = some until; updated_at = now })
refreshed-IsConsistent until now d c h = ground arith

pub attempted_row-IsConsistent :
    (outcome : AttemptOutcome) (n now : ℕ) (d : Delivery)
    → IsReport outcome
    → IsConsistent (attempted_row outcome n now d)
unfolding attempted_row
attempted_row-IsConsistent outcome n now d (inl h) = ground arith
attempted_row-IsConsistent outcome n now d (inr h) = ground arith

pub requeued-IsConsistent :
    (actor note : String) (now : ℕ) (d : Delivery)
    → IsConsistent (operated_row requeued actor note now d)
unfolding operated_row
requeued-IsConsistent actor note now d = ground arith

pub closed-IsConsistent :
    (actor note : String) (now : ℕ) (d : Delivery)
    → IsConsistent d
    → d.status ≡ dead
    → IsConsistent (operated_row closing actor note now d)
unfolding operated_row
closed-IsConsistent actor note now d c h = ground arith
