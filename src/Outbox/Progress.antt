-- ===== src/Outbox/Progress.antt =====
-- Runs of workers that agree on a retry budget: the budget is kept, and no delivery gets stuck.
use production_support_agent.Outbox.Budget.{
  IsWithinBudget, Fits, enqueue-Fits, claim-Fits, refresh-Fits, attempt-Fits, operate-Fits,
  operated_row-IsWithinBudget,
}
use production_support_agent.Models.{pending, DeliveryStatus, in_progress}
use production_support_agent.Outbox.Invariant.Rows.{IsConsistent}
use production_support_agent.Outbox.Operator.{
  requeue_alert_delivery, close_alert_delivery, requeued, closing,
}
use production_support_agent.Outbox.Invariant.Steps.{
  Step, empty_outbox, IsWellFormed, Step-IsWellFormed, enqueues, claims, refreshes, attempts,
  requeues, closes,
}
use production_support_agent.Outbox.Claim.{claim_alert_delivery_records, is_claimable}
use production_support_agent.Outbox.Delivery.{Outbox, Delivery, seconds}
use production_support_agent.Prelude.{
  ℕ, none, some, true, arith, Option, ◌<◌, max, ◌≡◌, All, ◌⊎◌, ◌≤◌, All-map, All-zip, inl, eq_refl,
  inr, ◌+◌, is_some,
}

-- The calls of workers that agree on the budget: rows enter with no attempt, claims and attempts
-- pass the budget, and an attempt names its worker.
unfoldable pub Uses : ℕ → {s t : Outbox} → Step s t → Type 0
Uses budget (enqueues d c h) = d.attempt_count ≡ 0
Uses budget (claims tenant worker limit lease max_attempts now) = max_attempts ≡ budget
Uses budget (refreshes id tenant worker lease now h) = Unit {0}
Uses budget (attempts id outcome now r h) =
    (outcome.max_attempts ≡ some budget) × (is_some outcome.worker_id ≡ true)
Uses budget (requeues id tenant actor note now h) = Unit {0}
Uses budget (closes id tenant actor note now h) = Unit {0}

pub data Run (budget : ℕ) (s : Outbox) : Outbox → Type 0 where
  start : Run budget s s
  further : {t u : Outbox} → Run budget s t → (step : Step t u) → Uses budget step → Run budget s u

module _ (budget : ℕ) where
  Step-Fits :
      {s t : Outbox} (step : Step s t)
      → 0 < budget
      → Uses budget step
      → IsWellFormed s.deliveries
      → Fits budget s.deliveries
      → Fits budget t.deliveries
  unfolding Uses claim_alert_delivery_records requeue_alert_delivery close_alert_delivery
  Step-Fits {s} {t} (enqueues d c h) pos u v w = enqueue-Fits budget s t d _ _ pos u h w
  Step-Fits {s} (claims tenant worker limit lease max_attempts now) pos u v w =
      rw u (claim-Fits budget s worker tenant limit (now + seconds lease) now v.ids w)
  Step-Fits {s} {t} (refreshes id tenant worker lease now h) pos u v w =
      refresh-Fits budget s t id tenant worker lease now _ h w
  Step-Fits {s} {t} (attempts id outcome now r h) pos u v w =
      attempt-Fits budget s t id outcome now _ r u.0 u.1 h w
  Step-Fits {s} {t} (requeues id tenant actor note now h) pos u v w =
      operate-Fits budget requeued s t id tenant actor note now _
        (λ d b. (operated_row-IsWithinBudget budget actor note now d pos b).0) h w
  Step-Fits {s} {t} (closes id tenant actor note now h) pos u v w =
      operate-Fits budget closing s t id tenant actor note now _
        (λ d b. (operated_row-IsWithinBudget budget actor note now d pos b).1) h w

  run-Fits :
      {t : Outbox}
      → 0 < budget
      → Run budget empty_outbox t
      → IsWellFormed t.deliveries × Fits budget t.deliveries
  run-Fits pos start = (record { ids = tt; alerts = tt; consistent = tt }, tt)
  run-Fits pos (further r step u) =
      let (v, w) = run-Fits pos r in (Step-IsWellFormed step v, Step-Fits step pos u v w)

-- Whatever the workers do within a budget of attempts that they agree on, no delivery has been
-- attempted more often than the budget since it was enqueued or requeued, and each one that is
-- still pending, failed or in progress has an attempt left.
pub run-IsWithinBudget :
    (budget : ℕ) {t : Outbox}
    → 0 < budget
    → Run budget empty_outbox t
    → All (IsWithinBudget budget) t.deliveries
run-IsWithinBudget budget pos r = (run-Fits budget pos r).1

-- The time from which a row that is still to be delivered can be claimed.
abbrev at_or_zero : Option ℕ → ℕ
at_or_zero none = 0
at_or_zero (some at) = at

unfoldable pub claimable_from : Delivery → ℕ
claimable_from d = max (at_or_zero d.locked_until) (at_or_zero d.next_attempt_at)

abbrev pub IsUndelivered : Delivery → Type 0
IsUndelivered d =
    (d.status ≡ pending) ⊎ (d.status ≡ DeliveryStatus.failed) ⊎ (d.status ≡ in_progress)

undelivered_claimable :
    (budget : ℕ) (d : Delivery) (now : ℕ)
    → IsConsistent d
    → IsWithinBudget budget d
    → IsUndelivered d
    → claimable_from d ≤ now
    → is_claimable d.tenant_id budget now d ≡ true
unfolding is_claimable claimable_from
undelivered_claimable budget d now c b (inl p) h = ground (arith, eq_refl d.tenant_id)
undelivered_claimable budget d now c b (inr (inl p)) h = ground (arith, eq_refl d.tenant_id)
undelivered_claimable budget d now c b (inr (inr p)) h = ground (arith, eq_refl d.tenant_id)

-- No delivery gets stuck: in every state that such workers reach, each delivery that is not sent,
-- dead or closed is claimable by its tenant from the end of its lease and its backoff on, also
-- when the worker that held it has died.
pub run_claimable :
    (budget : ℕ) {t : Outbox}
    → 0 < budget
    → Run budget empty_outbox t
    → All
        (λ d.
          IsUndelivered d
          → (now : ℕ) → claimable_from d ≤ now
          → is_claimable d.tenant_id budget now d ≡ true)
        t.deliveries
run_claimable budget {t} pos r =
    All-map _ _ t.deliveries (λ d h u now from. undelivered_claimable budget d now h.0 h.1 u from)
      (All-zip _ _ t.deliveries (run-Fits budget pos r).0.consistent
        (run-IsWithinBudget budget pos r))
