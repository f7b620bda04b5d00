-- ===== src/Outbox/Transitions.antt =====
-- The life of one delivery: which status may follow which, and what never changes.
use production_support_agent.Outbox.Budget.{claimable_ids_rows}
use production_support_agent.Outbox.Operator.{
  operated_row, requeued, record_alert_delivery_operator_action, requeue_alert_delivery, closing,
  OperatorAction, close_alert_delivery,
}
use production_support_agent.Outbox.Invariant.Rows.{IsReport}
use mathlib.Core.Option.{some-injective}
use production_support_agent.Outbox.Claim.{
  refresh_alert_delivery_lock, is_claimable, is_locked_by, claim_ids, claimed_row,
  claim_alert_delivery_records, claimable_ids,
}
use production_support_agent.Outbox.Enqueue.{enqueue_alert_delivery}
use production_support_agent.Outbox.Attempt.{
  attempted_row, AttemptOutcome, record_alert_delivery_attempt,
}
use production_support_agent.Outbox.Invariant.Steps.{
  Step, attempts, enqueues, claims, refreshes, requeues, closes, IsWellFormed,
}
use production_support_agent.Outbox.Delivery.{
  Delivery, Outbox, has_id, same_id, same_alert, seconds, has_id_in_tenant,
}
use production_support_agent.Prelude.{
  ◌≡◌, refl, some, true, false, arith, string_eq, nat_eq, Bool, List, find, is_some, update_where,
  Bool-cases, inl, find-update_where, ap, ◌==◌, ◌∙◌, updated, ◌++◌, String, if◌then◌else◌, ◌∷◌,
  Option-cases, ℕ, inr, [], All, ok, sym, find-append_some, ◌||◌, contains, subst, eq_iff, ◌+◌,
  All-find, IsUnique, All-only_found,
}
use mathlib.Core.Option
use production_support_agent.Models.{DeliveryStatus, pending, in_progress, sent, dead, closed}

-- The state diagram of AlertDeliveryStatus.
unfoldable pub may_move : DeliveryStatus → DeliveryStatus → Bool
may_move pending pending = true
may_move pending in_progress = true
may_move in_progress in_progress = true
may_move in_progress sent = true
may_move in_progress DeliveryStatus.failed = true
may_move in_progress dead = true
may_move DeliveryStatus.failed DeliveryStatus.failed = true
may_move DeliveryStatus.failed in_progress = true
may_move dead dead = true
may_move dead pending = true
may_move dead closed = true
may_move sent sent = true
may_move closed closed = true
may_move _ _ = false

-- The columns that say what is delivered, to whom and since when.
pub record IsSameAlert (d e : Delivery) : Type 0 where
  pub id : e.id ≡ d.id
  pub tenant_id : e.tenant_id ≡ d.tenant_id
  pub alert_key : e.alert_key ≡ d.alert_key
  pub severity : e.severity ≡ d.severity
  pub destination_hash : e.destination_hash ≡ d.destination_hash
  pub alert_last_seen_at : e.alert_last_seen_at ≡ d.alert_last_seen_at
  pub payload_hash : e.payload_hash ≡ d.payload_hash
  pub created_at : e.created_at ≡ d.created_at

-- What became of the row `d` in the table `rows`.
pub record Follows (d : Delivery) (rows : List Delivery) : Type 0 where
  pub now : Delivery
  pub found : find (has_id d.id) rows ≡ some now
  pub moved : may_move d.status now.status ≡ true
  pub same : IsSameAlert d now

may_move_stay : (a : DeliveryStatus) → may_move a a ≡ true
unfolding may_move
may_move_stay a = ground arith

attempted_row_moves :
    (outcome : AttemptOutcome) (n now : ℕ) (d : Delivery)
    → IsReport outcome
    → d.status ≡ in_progress
    → (may_move d.status (attempted_row outcome n now d).status ≡ true)
      × IsSameAlert d (attempted_row outcome n now d)
unfolding attempted_row may_move
attempted_row_moves outcome n now d (inl r) h = (ground arith, ground arith)
attempted_row_moves outcome n now d (inr r) h = (ground arith, ground arith)

claimed_row_moves :
    (tenant_id worker_id : String) (max_attempts until now : ℕ) (d : Delivery)
    → is_claimable tenant_id max_attempts now d ≡ true
    → (may_move d.status (claimed_row worker_id until now d).status ≡ true)
      × IsSameAlert d (claimed_row worker_id until now d)
unfolding is_claimable may_move
claimed_row_moves tenant_id worker_id max_attempts until now d h = (ground arith, ground arith)

operated_row_moves :
    (actor note : String) (now : ℕ) (d : Delivery)
    → d.status ≡ dead
    → ((may_move d.status (operated_row requeued actor note now d).status ≡ true)
        × IsSameAlert d (operated_row requeued actor note now d))
      × ((may_move d.status (operated_row closing actor note now d).status ≡ true)
          × IsSameAlert d (operated_row closing actor note now d))
unfolding operated_row may_move
operated_row_moves actor note now d h = ((ground arith, ground arith), (ground arith, ground arith))

-- An update that keeps the id of each row, from what it makes of the row `d`.
update-Follows :
    (p : Delivery → Bool) (f : Delivery → Delivery) (d : Delivery) (rows : List Delivery)
    → ((x : Delivery) → (f x).id ≡ x.id)
    → find (has_id d.id) rows ≡ some d
    → (p d ≡ true → (may_move d.status (f d).status ≡ true) × IsSameAlert d (f d))
    → Follows d (update_where p f rows)
update-Follows p f d rows keep e step = elim (Bool-cases (p d)) [
  | inl t ↦ record {
    now = f d;
    found =
        find-update_where (has_id d.id) p f rows (λ x. ap (λ i. i == d.id) (keep x))
        ∙ ap (Option.map (updated p f)) e
        ∙ ap (λ b. some (if b then f d else d)) t;
    moved = (step t).0;
    same = (step t).1;
  }
  | inr t ↦ record {
    now = d;
    found =
        find-update_where (has_id d.id) p f rows (λ x. ap (λ i. i == d.id) (keep x))
        ∙ ap (Option.map (updated p f)) e
        ∙ ap (λ b. some (if b then f d else d)) t;
    moved = may_move_stay d.status;
    same = ground arith;
  }
]

append-Follows :
    (d new : Delivery) (rows : List Delivery)
    → find (has_id d.id) rows ≡ some d
    → Follows d (rows ++ new ∷ [])
append-Follows d new rows e = record {
  now = d;
  found = find-append_some (has_id d.id) rows (new ∷ []) d e;
  moved = may_move_stay d.status;
  same = ground arith;
}

stay-Follows :
    (d : Delivery) (rows : List Delivery) → find (has_id d.id) rows ≡ some d → Follows d rows
stay-Follows d rows e = record {
  now = d;
  found = e;
  moved = may_move_stay d.status;
  same = ground arith;
}

module _ (s : Outbox) (d : Delivery) (here' : find (has_id d.id) s.deliveries ≡ some d) where
  enqueue-Follows :
      (t : Outbox) (new row : Delivery) (created : Bool)
      → enqueue_alert_delivery s new ≡ some (t, row, created)
      → Follows d t.deliveries
  unfolding enqueue_alert_delivery
  enqueue-Follows t new row created h =
      elim (Option-cases (find (λ x. same_id x new || same_alert x new) s.deliveries)) [
        | inl e ↦ subst (Follows d) (ground arith) (append-Follows d new s.deliveries here')
        | inr (x, e) ↦ subst (Follows d) (ground arith) (stay-Follows d s.deliveries here')
      ]

  claim-Follows :
      (worker_id tenant_id : String) (until now max_attempts : ℕ) (ids : List String)
      → All
          (λ x. contains ids x.id ≡ true → is_claimable tenant_id max_attempts now x ≡ true)
          s.deliveries
      → Follows d (claim_ids s worker_id until now ids).0.deliveries
  claim-Follows worker_id tenant_id until now max_attempts [] h =
      unfold claim_ids in stay-Follows d s.deliveries here'
  claim-Follows worker_id tenant_id until now max_attempts (x ∷ xs) h =
      unfold claim_ids in
      update-Follows _ (claimed_row worker_id until now) d s.deliveries (λ y. refl) here'
        (λ hit. claimed_row_moves tenant_id worker_id max_attempts until now d (
          All-find
            (λ z. contains (x ∷ xs) z.id ≡ true → is_claimable tenant_id max_attempts now z ≡ true)
            (has_id d.id) s.deliveries d h here' hit))

  refresh-Follows :
      (t : Outbox) (id tenant_id worker_id : String) (lease now : ℕ) (row : Delivery)
      → refresh_alert_delivery_lock s id tenant_id worker_id lease now ≡ ok (t, row)
      → Follows d t.deliveries
  unfolding refresh_alert_delivery_lock
  refresh-Follows t id tenant_id worker_id lease now row h = subst (Follows d) (ground arith) (
      update-Follows (is_locked_by id tenant_id worker_id)
        (λ x. record x { locked_until = some (now + seconds lease); updated_at = now }) d
        s.deliveries (λ x. refl) here' (λ hit. (may_move_stay d.status, ground arith)))

  -- The row with the id that a call names is `d` itself when `d` has that id.
  named :
      (id : String) (x : Delivery)
      → find (has_id id) s.deliveries ≡ some x
      → (d.id == id) ≡ true
      → x ≡ d
  named id x e hit =
      let there =
        subst (λ i. find (has_id i) s.deliveries ≡ some d) ((eq_iff d.id id).0 hit) here' in
      ground (arith, there)

  attempt-Follows :
      (t : Outbox) (id : String) (outcome : AttemptOutcome) (now : ℕ) (row : Delivery)
      → IsReport outcome
      → is_some outcome.worker_id ≡ true
      → record_alert_delivery_attempt s id outcome now ≡ ok (t, row)
      → Follows d t.deliveries
  unfolding record_alert_delivery_attempt
  attempt-Follows t id outcome now row r by h =
      elim (Option-cases (find (has_id id) s.deliveries)) [
        | inl e ↦ absurd (ground arith)
        | inr (x, e) ↦
            let held : x.status ≡ in_progress = ground arith in
            subst (Follows d) (ground arith) (
              update-Follows (has_id id) (attempted_row outcome (x.attempt_count + 1) now) d
                s.deliveries (λ y. unfold attempted_row in refl) here'
                (λ hit.
                  attempted_row_moves outcome (x.attempt_count + 1) now d r
                    (ap (λ (y : Delivery). y.status) (sym (named id x e hit)) ∙ held)))
      ]

  operate-Follows :
      (act : OperatorAction) (t : Outbox) (id tenant_id actor note : String) (now : ℕ)
      (row : Delivery)
      → act.allowed_statuses ≡ dead ∷ []
      → (d.status ≡ dead
          → (may_move d.status (operated_row act actor note now d).status ≡ true)
            × IsSameAlert d (operated_row act actor note now d))
      → IsUnique same_id s.deliveries
      → record_alert_delivery_operator_action act s id tenant_id actor note now ≡ ok (t, row)
      → Follows d t.deliveries
  unfolding record_alert_delivery_operator_action contains
  operate-Follows act t id tenant_id actor note now row only step u h =
      elim (Option-cases (find (has_id_in_tenant id tenant_id) s.deliveries)) [
        | inl e ↦ absurd (ground arith)
        | inr (x, e) ↦
            let is_dead : x.status ≡ dead = ground arith in
            let the_row =
              All-find _ (has_id d.id) s.deliveries d
                (All-only_found same_id (has_id_in_tenant id tenant_id) s.deliveries x
                  (λ a b pa pb. ground (arith, eq_iff a.id id, eq_iff b.id id, eq_iff a.id b.id)) u
                  e)
                here' in
            subst (Follows d) (ground arith) (
              update-Follows (has_id_in_tenant id tenant_id) (operated_row act actor note now) d
                s.deliveries (λ y. unfold operated_row in refl) here'
                (λ hit. step (ap (λ (y : Delivery). y.status) (the_row hit) ∙ is_dead)))
      ]

-- A call that does not record an attempt behind the back of a worker that holds the row.
unfoldable pub NamesWorker : {s t : Outbox} → Step s t → Type 0
NamesWorker (attempts id outcome now r h) = is_some outcome.worker_id ≡ true
NamesWorker (enqueues d c h) = Unit {0}
NamesWorker (claims tenant worker limit lease max_attempts now) = Unit {0}
NamesWorker (refreshes id tenant worker lease now h) = Unit {0}
NamesWorker (requeues id tenant actor note now h) = Unit {0}
NamesWorker (closes id tenant actor note now h) = Unit {0}

-- In a well-formed outbox, each call whose attempts name their worker keeps every delivery: the row
-- is there afterwards, is about the same alert, and its status is the same or has moved along the
-- state diagram, in which sent and closed are final.
pub Step-Follows :
    {s t : Outbox} (step : Step s t) (d : Delivery)
    → NamesWorker step
    → IsWellFormed s.deliveries
    → find (has_id d.id) s.deliveries ≡ some d
    → Follows d t.deliveries
unfolding NamesWorker claim_alert_delivery_records requeue_alert_delivery close_alert_delivery
Step-Follows {s} {t} (enqueues new c h) d n w e = enqueue-Follows s d e t new _ _ h
Step-Follows {s} (claims tenant worker limit lease max_attempts now) d n w e =
    claim-Follows s d e worker tenant (now + seconds lease) now max_attempts
      (claimable_ids tenant max_attempts limit now s.deliveries)
      (claimable_ids_rows tenant max_attempts limit now s.deliveries w.ids)
Step-Follows {s} {t} (refreshes id tenant worker lease now h) d n w e =
    refresh-Follows s d e t id tenant worker lease now _ h
Step-Follows {s} {t} (attempts id outcome now r h) d n w e =
    attempt-Follows s d e t id outcome now _ r n h
Step-Follows {s} {t} (requeues id tenant actor note now h) d n w e =
    operate-Follows s d e requeued t id tenant actor note now _ refl
      (λ is_dead. (operated_row_moves actor note now d is_dead).0) w.ids h
Step-Follows {s} {t} (closes id tenant actor note now h) d n w e =
    operate-Follows s d e closing t id tenant actor note now _ refl
      (λ is_dead. (operated_row_moves actor note now d is_dead).1) w.ids h
