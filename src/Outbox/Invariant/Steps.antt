-- ===== src/Outbox/Invariant/Steps.antt =====
-- The outbox as a state machine: its operations as steps, and the invariant of every reachable state.
use production_support_agent.Prelude.{
  ℕ, ◌+◌, String, ◌≡◌, refl, subst, inl, inr, Bool, true, false, ◌||◌, none, some, List, [], ◌∷◌,
  ◌++◌, arith, All, All-append, All-find-none, All-map, find, update_where, All-update_where,
  All-update_where_at, All-only_found, IsUnique, IsUnique-append, IsUnique-update_where,
  Option-cases, ok, nat_eq, string_eq, contains, eq_iff, ap, ◌∙◌,
}
use production_support_agent.Models.{delivery_status_eq, dead}
use production_support_agent.Outbox.Delivery.{
  Delivery, Outbox, same_id, same_alert, seconds, has_id, has_id_in_tenant,
}
use production_support_agent.Outbox.Enqueue.{enqueue_alert_delivery}
use production_support_agent.Outbox.Claim.{
  claimed_row, claim_ids, claim_alert_delivery_records, is_locked_by, refresh_alert_delivery_lock,
  claimable_ids,
}
use production_support_agent.Outbox.Attempt.{
  AttemptOutcome, attempted_row, record_alert_delivery_attempt,
}
use production_support_agent.Outbox.Operator.{
  requeue_alert_delivery, close_alert_delivery, record_alert_delivery_operator_action, operated_row,
  requeued, OperatorAction, closing,
}
use production_support_agent.Outbox.Invariant.Rows.{
  IsConsistent, IsReport, claimed_row-IsConsistent, refreshed-IsConsistent,
  attempted_row-IsConsistent, requeued-IsConsistent, closed-IsConsistent,
}

pub record IsWellFormed (rows : List Delivery) : Type 0 where
  pub ids : IsUnique same_id rows
  pub alerts : IsUnique same_alert rows
  pub consistent : All IsConsistent rows

-- One call of an operation that returned. A call that raises changes nothing.
pub data Step (s : Outbox) : Outbox → Type 0 where
  enqueues :
      (d : Delivery) {t : Outbox} {row : Delivery} {created : Bool}
      → IsConsistent d
      → enqueue_alert_delivery s d ≡ some (t, row, created)
      → Step s t
  claims :
      (tenant_id worker_id : String) (limit lease max_attempts now : ℕ)
      → Step s (claim_alert_delivery_records s tenant_id worker_id limit lease max_attempts now).0
  refreshes :
      (id tenant_id worker_id : String) (lease now : ℕ) {t : Outbox} {row : Delivery}
      → refresh_alert_delivery_lock s id tenant_id worker_id lease now ≡ ok (t, row)
      → Step s t
  attempts :
      (id : String) (outcome : AttemptOutcome) (now : ℕ) {t : Outbox} {row : Delivery}
      → IsReport outcome
      → record_alert_delivery_attempt s id outcome now ≡ ok (t, row)
      → Step s t
  requeues :
      (id tenant_id actor note : String) (now : ℕ) {t : Outbox} {row : Delivery}
      → requeue_alert_delivery s id tenant_id actor note now ≡ ok (t, row)
      → Step s t
  closes :
      (id tenant_id actor note : String) (now : ℕ) {t : Outbox} {row : Delivery}
      → close_alert_delivery s id tenant_id actor note now ≡ ok (t, row)
      → Step s t

pub data Reach (s : Outbox) : Outbox → Type 0 where
  here : Reach s s
  next : {t u : Outbox} → Reach s t → Step t u → Reach s u

-- An update that leaves the columns of both keys alone.
update-IsWellFormed :
    (p : Delivery → Bool) (f : Delivery → Delivery) (rows : List Delivery)
    → ((a b : Delivery) → same_id (f a) b ≡ same_id a b)
    → ((a b : Delivery) → same_id a (f b) ≡ same_id a b)
    → ((a b : Delivery) → same_alert (f a) b ≡ same_alert a b)
    → ((a b : Delivery) → same_alert a (f b) ≡ same_alert a b)
    → ((d : Delivery) → p d ≡ true → IsConsistent d → IsConsistent (f d))
    → IsWellFormed rows
    → IsWellFormed (update_where p f rows)
update-IsWellFormed p f rows il ir al ar keep w = record {
  ids = IsUnique-update_where same_id p f rows il ir w.ids;
  alerts = IsUnique-update_where same_alert p f rows al ar w.alerts;
  consistent = All-update_where IsConsistent p f rows keep w.consistent;
}

insert-IsWellFormed :
    (d : Delivery) (rows : List Delivery)
    → IsConsistent d
    → find (λ x. same_id x d || same_alert x d) rows ≡ none
    → IsWellFormed rows
    → IsWellFormed (rows ++ d ∷ [])
insert-IsWellFormed d rows c e w =
    let apart = All-find-none (λ x. same_id x d || same_alert x d) rows e in
    record {
      ids =
          IsUnique-append same_id rows d w.ids
            (All-map _ (λ x. same_id x d ≡ false) rows (λ x h. ground arith) apart);
      alerts =
          IsUnique-append same_alert rows d w.alerts
            (All-map _ (λ x. same_alert x d ≡ false) rows (λ x h. ground arith) apart);
      consistent = All-append IsConsistent rows (d ∷ []) w.consistent (c, tt);
    }

enqueue-IsWellFormed :
    (s t : Outbox) (d row : Delivery) (created : Bool)
    → IsConsistent d
    → enqueue_alert_delivery s d ≡ some (t, row, created)
    → IsWellFormed s.deliveries
    → IsWellFormed t.deliveries
unfolding enqueue_alert_delivery
enqueue-IsWellFormed s t d row created c h w =
    elim (Option-cases (find (λ x. same_id x d || same_alert x d) s.deliveries)) [
      | inl e ↦ subst IsWellFormed (ground arith) (insert-IsWellFormed d s.deliveries c e w)
      | inr (x, e) ↦ subst IsWellFormed (ground arith) w
    ]

claim_ids-IsWellFormed :
    (s : Outbox) (worker_id : String) (until now : ℕ) (ids : List String)
    → IsWellFormed s.deliveries
    → IsWellFormed (claim_ids s worker_id until now ids).0.deliveries
unfolding claim_ids
claim_ids-IsWellFormed s worker_id until now [] w = w
claim_ids-IsWellFormed s worker_id until now (x ∷ xs) w =
    update-IsWellFormed _ (claimed_row worker_id until now) s.deliveries (λ a b. refl) (λ a b. refl)
      (λ a b. refl) (λ a b. refl) (λ d _ _. claimed_row-IsConsistent worker_id until now d) w

refresh-IsWellFormed :
    (s t : Outbox) (id tenant_id worker_id : String) (lease now : ℕ) (row : Delivery)
    → refresh_alert_delivery_lock s id tenant_id worker_id lease now ≡ ok (t, row)
    → IsWellFormed s.deliveries
    → IsWellFormed t.deliveries
unfolding refresh_alert_delivery_lock
refresh-IsWellFormed s t id tenant_id worker_id lease now row h w =
    subst IsWellFormed (ground arith) (
      update-IsWellFormed (is_locked_by id tenant_id worker_id)
        (λ d. record d { locked_until = some (now + seconds lease); updated_at = now }) s.deliveries
        (λ a b. refl) (λ a b. refl) (λ a b. refl) (λ a b. refl)
        (λ d p c. refreshed-IsConsistent (now + seconds lease) now d c (ground arith)) w)

attempt-IsWellFormed :
    (s t : Outbox) (id : String) (outcome : AttemptOutcome) (now : ℕ) (row : Delivery)
    → IsReport outcome
    → record_alert_delivery_attempt s id outcome now ≡ ok (t, row)
    → IsWellFormed s.deliveries
    → IsWellFormed t.deliveries
unfolding record_alert_delivery_attempt attempted_row
attempt-IsWellFormed s t id outcome now row r h w =
    elim (Option-cases (find (has_id id) s.deliveries)) [
      | inl e ↦ absurd (ground arith)
      | inr (x, e) ↦ subst IsWellFormed (ground arith) (
          update-IsWellFormed (has_id id) (attempted_row outcome (x.attempt_count + 1) now)
            s.deliveries (λ a b. refl) (λ a b. refl) (λ a b. refl) (λ a b. refl)
            (λ d _ _. attempted_row-IsConsistent outcome (x.attempt_count + 1) now d r) w)
    ]

-- Both operator actions, from what they make of a dead row.
operate-IsWellFormed :
    (act : OperatorAction) (s t : Outbox) (id tenant_id actor note : String) (now : ℕ)
    (row : Delivery)
    → ((d : Delivery)
        → IsConsistent d
        → d.status ≡ dead
        → IsConsistent (operated_row act actor note now d))
    → act.allowed_statuses ≡ dead ∷ []
    → record_alert_delivery_operator_action act s id tenant_id actor note now ≡ ok (t, row)
    → IsWellFormed s.deliveries
    → IsWellFormed t.deliveries
unfolding record_alert_delivery_operator_action operated_row contains
operate-IsWellFormed act s t id tenant_id actor note now row keep only h w =
    elim (Option-cases (find (has_id_in_tenant id tenant_id) s.deliveries)) [
      | inl e ↦ absurd (ground arith)
      | inr (x, e) ↦
          let p = has_id_in_tenant id tenant_id in
          let f = operated_row act actor note now in
          let is_dead : x.status ≡ dead = ground arith in
          let found =
            All-only_found same_id p s.deliveries x
              (λ a b pa pb. ground (arith, eq_iff a.id id, eq_iff b.id id, eq_iff a.id b.id)) w.ids
              e in
          subst IsWellFormed (ground arith) (record {
            ids = IsUnique-update_where same_id p f s.deliveries (λ a b. refl) (λ a b. refl) w.ids;
            alerts =
                IsUnique-update_where same_alert p f s.deliveries (λ a b. refl) (λ a b. refl)
                  w.alerts;
            consistent =
                All-update_where_at IsConsistent p f s.deliveries
                  (All-map _ _ s.deliveries
                    (λ y same hit c.
                      keep y c (ap (λ (d : Delivery). d.status) (same hit) ∙ is_dead))
                    found)
                  w.consistent;
          })
    ]

-- Every step of the outbox keeps both keys unique and every row consistent.
pub Step-IsWellFormed :
    {s t : Outbox} → Step s t → IsWellFormed s.deliveries → IsWellFormed t.deliveries
unfolding claim_alert_delivery_records requeue_alert_delivery close_alert_delivery
Step-IsWellFormed {s} {t} (enqueues d c h) w = enqueue-IsWellFormed s t d _ _ c h w
Step-IsWellFormed {s} (claims tenant worker limit lease max now) w =
    claim_ids-IsWellFormed s worker (now + seconds lease) now
      (claimable_ids tenant max limit now s.deliveries) w
Step-IsWellFormed {s} {t} (refreshes id tenant worker lease now h) w =
    refresh-IsWellFormed s t id tenant worker lease now _ h w
Step-IsWellFormed {s} {t} (attempts id outcome now r h) w =
    attempt-IsWellFormed s t id outcome now _ r h w
Step-IsWellFormed {s} {t} (requeues id tenant actor note now h) w =
    operate-IsWellFormed requeued s t id tenant actor note now _
      (λ d _ _. requeued-IsConsistent actor note now d) refl h w
Step-IsWellFormed {s} {t} (closes id tenant actor note now h) w =
    operate-IsWellFormed closing s t id tenant actor note now _
      (λ d c dead'. closed-IsConsistent actor note now d c dead') refl h w

abbrev pub empty_outbox : Outbox
empty_outbox = record { deliveries = []; events = [] }

pub Reach-IsWellFormed :
    {s t : Outbox} → Reach s t → IsWellFormed s.deliveries → IsWellFormed t.deliveries
Reach-IsWellFormed here w = w
Reach-IsWellFormed (next r st) w = Step-IsWellFormed st (Reach-IsWellFormed r w)

-- In every state that the operations reach from the empty outbox, no two rows share an id or the
-- columns of an alert, and every row's lock, delivery time, death and operator agree with its status.
pub outbox-IsWellFormed : {t : Outbox} → Reach empty_outbox t → IsWellFormed t.deliveries
outbox-IsWellFormed r = Reach-IsWellFormed r (record { ids = tt; alerts = tt; consistent = tt })
