-- ===== src/Outbox/Budget.antt =====
-- The retry budget of a delivery: what MAX attempts, used by every claim and attempt, guarantee.
use production_support_agent.Outbox.Operator.{
  operated_row, record_alert_delivery_operator_action, requeued, OperatorAction, closing,
}
use production_support_agent.Outbox.Invariant.Rows.{IsReport}
use production_support_agent.Outbox.Attempt.{
  attempted_row, AttemptOutcome, record_alert_delivery_attempt,
}
use production_support_agent.Outbox.Claim.{
  claimable_ids, is_claimable, claim_ids, claimed_row, refresh_alert_delivery_lock, is_locked_by,
}
use production_support_agent.Prelude.{
  refl, string_eq, nat_eq, ℕ, ◌<◌, ◌≤◌, ◌≡◌, inl, inr, Bool, true, some, is_some, List, [], ◌∷◌,
  arith, All, All-append, find, Option-cases, subst, ◌||◌, String, IsUnique, contains, All-contains,
  All-update_where_at, All-of_map, ◌+◌, All-map, ok, All-take, All-sort_by, All-find,
  All-select_map, All-update_where, eq_iff, All-unique,
}
use production_support_agent.Models.{DeliveryStatus, pending, in_progress, delivery_status_eq}
use production_support_agent.Outbox.Delivery.{
  Delivery, Outbox, same_id, same_alert, has_id, seconds, has_id_in_tenant,
}
use production_support_agent.Outbox.Enqueue.{enqueue_alert_delivery}

-- The attempts made since the row was enqueued or requeued, and room for one more while the row
-- is still to be delivered.
pub record IsWithinBudget (budget : ℕ) (d : Delivery) : Type 0 where
  pub within : d.attempt_count ≤ budget
  pub room_pending : d.status ≡ pending → d.attempt_count < budget
  pub room_failed : d.status ≡ DeliveryStatus.failed → d.attempt_count < budget
  pub room_in_progress : d.status ≡ in_progress → d.attempt_count < budget

-- A row whose id a claim selects is one that its `where` clause admits: ids are unique.
pub claimable_ids_rows :
    (tenant_id : String) (max_attempts limit now : ℕ) (rows : List Delivery)
    → IsUnique same_id rows
    → All
        (λ d.
          contains (claimable_ids tenant_id max_attempts limit now rows) d.id ≡ true
          → is_claimable tenant_id max_attempts now d ≡ true)
        rows
claimable_ids_rows tenant_id max_attempts limit now rows u =
    All-map _ _ rows (λ d h. of_unique d h)
      (All-unique same_id rows (λ a b h. ground (arith, eq_iff a.id b.id, eq_iff b.id a.id)) u)
  where
    of_unique :
        (d : Delivery)
        → All (λ x. same_id x d ≡ true → x ≡ d) rows
        → contains (claimable_ids tenant_id max_attempts limit now rows) d.id ≡ true
        → is_claimable tenant_id max_attempts now d ≡ true
    of_unique d h c =
        All-contains (λ i. i ≡ d.id → is_claimable tenant_id max_attempts now d ≡ true)
          (claimable_ids tenant_id max_attempts limit now rows) d.id
          (unfold claimable_ids in
            All-of_map _ _ _ (
              All-take _ limit _ (
                All-sort_by _ _ _ (
                  All-select_map _ _ rows (
                    All-map _ _ rows
                      (λ x k claimable e.
                        subst (λ y. is_claimable tenant_id max_attempts now y ≡ true)
                          (k ((eq_iff x.id d.id).1 e)) claimable)
                      h)))))
          c refl

claimed_row-IsWithinBudget :
    {budget : ℕ} (tenant_id worker_id : String) (until now : ℕ) (d : Delivery)
    → IsWithinBudget budget d
    → is_claimable tenant_id budget now d ≡ true
    → IsWithinBudget budget (claimed_row worker_id until now d)
unfolding is_claimable
claimed_row-IsWithinBudget tenant_id worker_id until now d b h = ground arith

attempted_row-IsWithinBudget :
    {budget : ℕ} (outcome : AttemptOutcome) (n now : ℕ) (d : Delivery)
    → IsReport outcome
    → outcome.max_attempts ≡ some budget
    → n < budget
    → IsWithinBudget budget (attempted_row outcome (n + 1) now d)
unfolding attempted_row
attempted_row-IsWithinBudget outcome n now d (inl r) m h = ground arith
attempted_row-IsWithinBudget outcome n now d (inr r) m h = ground arith

module _ (budget : ℕ) where
  abbrev pub Fits : List Delivery → Type 0
  Fits = All (IsWithinBudget budget)

  pub enqueue-Fits :
      (s t : Outbox) (d row : Delivery) (created : Bool)
      → 0 < budget
      → d.attempt_count ≡ 0
      → enqueue_alert_delivery s d ≡ some (t, row, created)
      → Fits s.deliveries
      → Fits t.deliveries
  unfolding enqueue_alert_delivery
  enqueue-Fits s t d row created pos zero' h w =
      elim (Option-cases (find (λ x. same_id x d || same_alert x d) s.deliveries)) [
        | inl e ↦
            subst Fits (ground arith)
              (All-append (IsWithinBudget budget) s.deliveries (d ∷ []) w (omega arith, tt))
        | inr (x, e) ↦ subst Fits (ground arith) w
      ]

  pub claim-Fits :
      (s : Outbox) (worker_id tenant_id : String) (limit until now : ℕ)
      → IsUnique same_id s.deliveries
      → Fits s.deliveries
      → Fits
          (claim_ids s worker_id until now
            (claimable_ids tenant_id budget limit now s.deliveries)).0.deliveries
  claim-Fits s worker_id tenant_id limit until now u w =
      go (claimable_ids tenant_id budget limit now s.deliveries)
        (claimable_ids_rows tenant_id budget limit now s.deliveries u)
    where
      go :
          (ids : List String)
          → All
              (λ d. contains ids d.id ≡ true → is_claimable tenant_id budget now d ≡ true)
              s.deliveries
          → All (IsWithinBudget budget) (claim_ids s worker_id until now ids).0.deliveries
      go [] h = unfold claim_ids in w
      go (x ∷ xs) h =
          unfold claim_ids in
          All-update_where_at _ _ (claimed_row worker_id until now) s.deliveries
            (All-map _ _ s.deliveries
              (λ d claimable hit b.
                claimed_row-IsWithinBudget tenant_id worker_id until now d b (claimable hit))
              h)
            w

  pub attempt-Fits :
      (s t : Outbox) (id : String) (outcome : AttemptOutcome) (now : ℕ) (row : Delivery)
      → IsReport outcome
      → outcome.max_attempts ≡ some budget
      → is_some outcome.worker_id ≡ true
      → record_alert_delivery_attempt s id outcome now ≡ ok (t, row)
      → Fits s.deliveries
      → Fits t.deliveries
  unfolding record_alert_delivery_attempt
  attempt-Fits s t id outcome now row r m by h w =
      elim (Option-cases (find (has_id id) s.deliveries)) [
        | inl e ↦ absurd (ground arith)
        | inr (x, e) ↦
            let fits = All-find (IsWithinBudget budget) (has_id id) s.deliveries x w e in
            let held : x.status ≡ in_progress = ground arith in
            subst (All (IsWithinBudget budget)) (ground arith) (
              All-update_where _ (has_id id) (attempted_row outcome (x.attempt_count + 1) now)
                s.deliveries
                (λ d _ _.
                  attempted_row-IsWithinBudget outcome x.attempt_count now d r m
                    (fits.room_in_progress held))
                w)
      ]

  pub refresh-Fits :
      (s t : Outbox) (id tenant_id worker_id : String) (lease now : ℕ) (row : Delivery)
      → refresh_alert_delivery_lock s id tenant_id worker_id lease now ≡ ok (t, row)
      → Fits s.deliveries
      → Fits t.deliveries
  unfolding refresh_alert_delivery_lock
  refresh-Fits s t id tenant_id worker_id lease now row h w =
      subst (All (IsWithinBudget budget)) (ground arith) (
        All-update_where _ (is_locked_by id tenant_id worker_id)
          (λ d. record d { locked_until = some (now + seconds lease); updated_at = now })
          s.deliveries (λ d _ b. ground arith) w)

  pub operate-Fits :
      (act : OperatorAction) (s t : Outbox) (id tenant_id actor note : String) (now : ℕ)
      (row : Delivery)
      → ((d : Delivery)
          → IsWithinBudget budget d
          → IsWithinBudget budget (operated_row act actor note now d))
      → record_alert_delivery_operator_action act s id tenant_id actor note now ≡ ok (t, row)
      → Fits s.deliveries
      → Fits t.deliveries
  unfolding record_alert_delivery_operator_action
  operate-Fits act s t id tenant_id actor note now row keep h w =
      elim (Option-cases (find (has_id_in_tenant id tenant_id) s.deliveries)) [
        | inl e ↦ absurd (ground arith)
        | inr (x, e) ↦ subst (All (IsWithinBudget budget)) (ground arith) (
            All-update_where _ (has_id_in_tenant id tenant_id) (operated_row act actor note now)
              s.deliveries (λ d _ b. keep d b) w)
      ]

  pub operated_row-IsWithinBudget :
      (actor note : String) (now : ℕ) (d : Delivery)
      → 0 < budget
      → IsWithinBudget budget d
      → IsWithinBudget budget (operated_row requeued actor note now d)
        × IsWithinBudget budget (operated_row closing actor note now d)
  unfolding operated_row
  operated_row-IsWithinBudget actor note now d pos b = (ground arith, ground arith)
