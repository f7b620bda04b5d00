-- ===== src/Outbox/Apart.antt =====
-- The lease of a claim: until it ends, a claimed row stays with its worker.
use production_support_agent.Outbox.Budget.{claimable_ids_rows}
use production_support_agent.Outbox.Operator.{
  OperatorAction, operated_row, requeued, closing, record_alert_delivery_operator_action,
  requeue_alert_delivery, close_alert_delivery,
}
use production_support_agent.Models.{dead}
use production_support_agent.Outbox.Attempt.{
  AttemptOutcome, attempted_row, record_alert_delivery_attempt,
}
use production_support_agent.Outbox.Claim.{
  refresh_alert_delivery_lock, is_claimable, is_locked_by, claim_ids, claimed_row,
  claim_alert_delivery_records, claimable_ids,
}
use production_support_agent.Outbox.Enqueue.{enqueue_alert_delivery}
use production_support_agent.Outbox.Delivery.{
  Delivery, Outbox, has_id, same_id, same_alert, seconds, has_id_in_tenant,
}
use production_support_agent.Outbox.Invariant.Steps.{
  Step, Reach, here, next, attempts, enqueues, claims, refreshes, requeues, closes, IsWellFormed,
  Reach-IsWellFormed,
}
use production_support_agent.Outbox.Locking.{IsHeld, ids_of, claim_ids_chosen, after_claim-IsHeld}
use production_support_agent.Prelude.{
  ℕ, ◌+◌, ◌<◌, String, ◌≡◌, ◌≢◌, refl, sym, ap, ◌∙◌, subst, inl, inr, Bool, true, false, ◌||◌, some,
  List, [], ◌∷◌, arith, All, All-map, All-find, All-of_map, All-contains, All-select_of,
  All-sort_by, All-only_found, contains, find, find-true, find-append_some, find-update_where,
  update_where, updated, Bool-cases, Option-cases, if◌then◌else◌, ◌==◌, eq_iff, eq_refl, nat_eq,
  string_eq, ok, false≢true, is_some,
}
use mathlib.Core.Option

-- Whether a step is none of the worker that holds rows until `until`: a claim before that time, of
-- whatever worker, an attempt or a refresh of another worker, an enqueue, or what an operator does.
unfoldable pub LeavesLease : String → ℕ → {s t : Outbox} → Step s t → Type 0
LeavesLease worker_id until (attempts id outcome now r h) =
    (other : String) × (outcome.worker_id ≡ some other) × (other ≢ worker_id)
LeavesLease worker_id until (enqueues d c h) = Unit {0}
LeavesLease worker_id until (claims tenant worker limit lease max_attempts now) = now < until
LeavesLease worker_id until (refreshes id tenant worker lease now h) = worker ≢ worker_id
LeavesLease worker_id until (requeues id tenant actor note now h) = Unit {0}
LeavesLease worker_id until (closes id tenant actor note now h) = Unit {0}

unfoldable pub AllLeaveLease : String → ℕ → {s t : Outbox} → Reach s t → Type 0
AllLeaveLease worker_id until here = Unit {0}
AllLeaveLease worker_id until (next path step) =
    AllLeaveLease worker_id until path × LeavesLease worker_id until step

-- A row that an update does not select is found as it was.
update-unselected :
    (p : Delivery → Bool) (f : Delivery → Delivery) (id : String) (rows : List Delivery)
    (e : Delivery)
    → ((x : Delivery) → (f x).id ≡ x.id)
    → find (has_id id) rows ≡ some e
    → p e ≡ false
    → find (has_id id) (update_where p f rows) ≡ some e
update-unselected p f id rows e keep found apart =
    find-update_where (has_id id) p f rows (λ x. ap (λ i. i == id) (keep x))
    ∙ ap (Option.map (updated p f)) found
    ∙ ap (λ b. some (if b then f e else e)) apart

module _ (worker_id : String) (until : ℕ) (s : Outbox) (id : String) (e : Delivery)
    (found : find (has_id id) s.deliveries ≡ some e) (held : IsHeld worker_id until e) where
  -- The row is where it was.
  abbrev Stays : List Delivery → Type 0
  Stays rows = find (has_id id) rows ≡ some e

  enqueue-Stays :
      (t : Outbox) (new row : Delivery) (created : Bool)
      → enqueue_alert_delivery s new ≡ some (t, row, created)
      → Stays t.deliveries
  unfolding enqueue_alert_delivery
  enqueue-Stays t new row created h =
      elim (Option-cases (find (λ x. same_id x new || same_alert x new) s.deliveries)) [
        | inl c ↦
            subst Stays {y = t.deliveries} (ground arith)
              (find-append_some (has_id id) s.deliveries (new ∷ []) e found)
        | inr (x, c) ↦ subst Stays {y = t.deliveries} (ground arith) found
      ]

  held_not_claimable :
      (tenant : String) (max_attempts now : ℕ)
      → now < until
      → is_claimable tenant max_attempts now e ≡ false
  unfolding is_claimable
  held_not_claimable tenant max_attempts now early = ground (arith, held, early)

  pub not_chosen :
      (tenant : String) (limit max_attempts now : ℕ)
      → IsWellFormed s.deliveries
      → now < until
      → contains (claimable_ids tenant max_attempts limit now s.deliveries) e.id ≡ false
  not_chosen tenant limit max_attempts now w early =
      let ids = claimable_ids tenant max_attempts limit now s.deliveries in
      elim (Bool-cases (contains ids e.id)) [
        | inl t ↦ absurd (
            false≢true (
              sym (held_not_claimable tenant max_attempts now early)
              ∙ All-find
                  (λ d. contains ids d.id ≡ true → is_claimable tenant max_attempts now d ≡ true)
                  (has_id id) s.deliveries e
                  (claimable_ids_rows tenant max_attempts limit now s.deliveries w.ids) found t))
        | inr f ↦ f
      ]

  claim-Stays :
      (worker : String) (later now : ℕ) (ids : List String)
      → contains ids e.id ≡ false
      → Stays (claim_ids s worker later now ids).0.deliveries
  claim-Stays worker later now [] apart = unfold claim_ids in found
  claim-Stays worker later now (x ∷ xs) apart =
      unfold claim_ids in
      update-unselected _ (claimed_row worker later now) id s.deliveries e (λ y. refl) found apart

  refresh-Stays :
      (t : Outbox) (named tenant worker : String) (lease now : ℕ) (row : Delivery)
      → worker ≢ worker_id
      → refresh_alert_delivery_lock s named tenant worker lease now ≡ ok (t, row)
      → Stays t.deliveries
  unfolding refresh_alert_delivery_lock
  refresh-Stays t named tenant worker lease now row other h =
      subst Stays {y = t.deliveries} (ground arith) (
        update-unselected (is_locked_by named tenant worker)
          (λ x. record x { locked_until = some (now + seconds lease); updated_at = now }) id
          s.deliveries e (λ x. refl) found (ground (arith, held, other, eq_iff worker_id worker)))

  attempt-Stays :
      (t : Outbox) (named : String) (outcome : AttemptOutcome) (now : ℕ) (row : Delivery)
      (other : String)
      → outcome.worker_id ≡ some other
      → other ≢ worker_id
      → record_alert_delivery_attempt s named outcome now ≡ ok (t, row)
      → Stays t.deliveries
  unfolding record_alert_delivery_attempt
  attempt-Stays t named outcome now row other by ne h =
      elim (Option-cases (find (has_id named) s.deliveries)) [
        | inl missing ↦ absurd (ground arith)
        | inr (x, there) ↦ subst Stays {y = t.deliveries} (ground arith) (
            update-unselected (has_id named) (attempted_row outcome (x.attempt_count + 1) now) id
              s.deliveries e (λ y. unfold attempted_row in refl) found (elsewhere x there))
      ]
    where
      elsewhere :
          (x : Delivery) → find (has_id named) s.deliveries ≡ some x → has_id named e ≡ false
      elsewhere x there = elim (Bool-cases (has_id named e)) [
        | inl t ↦
            let named_id : id ≡ named =
              sym ((eq_iff e.id id).0 (find-true (has_id id) s.deliveries e found))
              ∙ (eq_iff e.id named).0 t in
            let it = subst (λ i. find (has_id i) s.deliveries ≡ some e) named_id found in
            absurd (ground (arith, it, held, eq_iff worker_id other))
        | inr f ↦ f
      ]

  operate-Stays :
      (act : OperatorAction) (t : Outbox) (named tenant actor note : String) (now : ℕ)
      (row : Delivery)
      → act.allowed_statuses ≡ dead ∷ []
      → IsWellFormed s.deliveries
      → record_alert_delivery_operator_action act s named tenant actor note now ≡ ok (t, row)
      → Stays t.deliveries
  unfolding record_alert_delivery_operator_action contains
  operate-Stays act t named tenant actor note now row only w h =
      elim (Option-cases (find (has_id_in_tenant named tenant) s.deliveries)) [
        | inl missing ↦ absurd (ground arith)
        | inr (x, there) ↦
            let is_dead : x.status ≡ dead = ground arith in
            subst Stays {y = t.deliveries} (ground arith) (
              update-unselected (has_id_in_tenant named tenant) (operated_row act actor note now) id
                s.deliveries e (λ y. unfold operated_row in refl) found (elsewhere x there is_dead))
      ]
    where
      elsewhere :
          (x : Delivery)
          → find (has_id_in_tenant named tenant) s.deliveries ≡ some x
          → x.status ≡ dead
          → has_id_in_tenant named tenant e ≡ false
      elsewhere x there is_dead = elim (Bool-cases (has_id_in_tenant named tenant e)) [
        | inl t ↦
            let it =
              All-find (λ y. has_id_in_tenant named tenant y ≡ true → y ≡ x) (has_id id)
                s.deliveries e
                (All-only_found same_id (has_id_in_tenant named tenant) s.deliveries x
                  (λ a b pa pb.
                    ground (arith, eq_iff a.id named, eq_iff b.id named, eq_iff a.id b.id))
                  w.ids there)
                found t in
            absurd (ground (arith, ap (λ (y : Delivery). y.status) it ∙ is_dead, held))
        | inr f ↦ f
      ]

Step-Stays :
    (worker_id : String) (until : ℕ) {s t : Outbox} (step : Step s t) (id : String) (e : Delivery)
    → LeavesLease worker_id until step
    → IsWellFormed s.deliveries
    → find (has_id id) s.deliveries ≡ some e
    → IsHeld worker_id until e
    → find (has_id id) t.deliveries ≡ some e
unfolding LeavesLease claim_alert_delivery_records requeue_alert_delivery close_alert_delivery
Step-Stays worker_id until {s} {t} (enqueues new c h) id e l w found held =
    enqueue-Stays worker_id until s id e found held t new _ _ h
Step-Stays worker_id until {s} (claims tenant worker limit lease max_attempts now) id e l w found
      held =
    claim-Stays worker_id until s id e found held worker (now + seconds lease) now
      (claimable_ids tenant max_attempts limit now s.deliveries)
      (not_chosen worker_id until s id e found held tenant limit max_attempts now w l)
Step-Stays worker_id until {s} {t} (refreshes named tenant worker lease now h) id e l w found held =
    refresh-Stays worker_id until s id e found held t named tenant worker lease now _ l h
Step-Stays worker_id until {s} {t} (attempts named outcome now r h) id e l w found held =
    attempt-Stays worker_id until s id e found held t named outcome now _ l.0 l.1 l.2 h
Step-Stays worker_id until {s} {t} (requeues named tenant actor note now h) id e l w found held =
    operate-Stays worker_id until s id e found held requeued t named tenant actor note now _ refl w
      h
Step-Stays worker_id until {s} {t} (closes named tenant actor note now h) id e l w found held =
    operate-Stays worker_id until s id e found held closing t named tenant actor note now _ refl w h

Reach-Stays :
    (worker_id : String) (until : ℕ) {s t : Outbox} (path : Reach s t) (id : String) (e : Delivery)
    → AllLeaveLease worker_id until path
    → IsWellFormed s.deliveries
    → find (has_id id) s.deliveries ≡ some e
    → IsHeld worker_id until e
    → find (has_id id) t.deliveries ≡ some e
unfolding AllLeaveLease
Reach-Stays worker_id until here id e l w found held = found
Reach-Stays worker_id until (next path step) id e l w found held =
    Step-Stays worker_id until step id e l.1 (Reach-IsWellFormed path w)
      (Reach-Stays worker_id until path id e l.0 w found held) held

-- Each row is found by its id.
All-found : (rows : List Delivery) → All (λ d. is_some (find (has_id d.id) rows) ≡ true) rows
unfolding find
All-found [] = tt
All-found (d ∷ rows) =
    (rw (eq_refl d.id) refl, All-map _ _ rows (λ x h. ground (arith, h)) (All-found rows))

claimed-found :
    (s : Outbox) (worker_id : String) (until now : ℕ) (ids : List String)
    → let out = claim_ids s worker_id until now ids in
      All (λ d. is_some (find (has_id d.id) out.0.deliveries) ≡ true) out.1
unfolding claim_ids
claimed-found s worker_id until now [] = tt
claimed-found s worker_id until now (x ∷ xs) = All-sort_by _ _ _ (All-select_of _ _ _ (All-found _))

module _ (s : Outbox) (tenant_id worker_id : String) (limit lease max_attempts now : ℕ) where
  abbrev first : Outbox × List Delivery
  first = claim_alert_delivery_records s tenant_id worker_id limit lease max_attempts now

  -- A claimed row is in the table, and held.
  claimed_row-IsHeld :
      (id : String)
      → contains (ids_of first.1) id ≡ true
      → (e : Delivery) × (find (has_id id) first.0.deliveries ≡ some e)
        × IsHeld worker_id (now + seconds lease) e
  unfolding claim_alert_delivery_records
  claimed_row-IsHeld id mine =
      let there =
        All-contains (λ i. is_some (find (has_id i) first.0.deliveries) ≡ true) (ids_of first.1) id
          (All-of_map _ _ _ (
            claimed-found s worker_id (now + seconds lease) now
              (claimable_ids tenant_id max_attempts limit now s.deliveries)))
          mine in
      elim (Option-cases (find (has_id id) first.0.deliveries)) [
        | inl missing ↦ absurd (ground (arith, missing, there))
        | inr (e, found) ↦
            let its_id = (eq_iff e.id id).0 (find-true (has_id id) first.0.deliveries e found) in
            (
              e,
              found,
              All-find _ (has_id id) first.0.deliveries e
                  (after_claim-IsHeld s tenant_id worker_id limit lease max_attempts now) found
                  (ap (contains (ids_of first.1)) its_id ∙ mine),
            )
      ]

  -- From a claim on a well-formed outbox until its lease ends, and as long as the worker itself
  -- records no attempt and refreshes no lock, whatever enqueues, claims before the end of the lease,
  -- attempts and refreshes that name another worker, requeues and closes come in between, a row of the
  -- claim is as the claim left it, held by the worker, and no claim before the end of the lease, of
  -- whatever worker, tenant and limit, returns it.
  pub claim-claim_apart :
      (t : Outbox) (path : Reach first.0 t)
      → IsWellFormed s.deliveries
      → AllLeaveLease worker_id (now + seconds lease) path
      → (id : String) → contains (ids_of first.1) id ≡ true
      → (tenant' worker' : String) (limit' lease' max' now' : ℕ) → now' < now + seconds lease
      → ((e : Delivery) × (find (has_id id) t.deliveries ≡ some e)
          × (find (has_id id) first.0.deliveries ≡ some e)
          × IsHeld worker_id (now + seconds lease) e)
        × All
            (λ d. (d.id == id) ≡ false)
            (claim_alert_delivery_records t tenant' worker' limit' lease' max' now').1
  unfolding claim_alert_delivery_records
  claim-claim_apart t path w leaves id mine tenant' worker' limit' lease' max' now' early =
      let until = now + seconds lease in
      let (e, found, held) = claimed_row-IsHeld id mine in
      let w1 =
        Reach-IsWellFormed (next here (claims tenant_id worker_id limit lease max_attempts now))
          w in
      let still = Reach-Stays worker_id until path id e leaves w1 found held in
      let theirs = claimable_ids tenant' max' limit' now' t.deliveries in
      let apart =
        not_chosen worker_id until t id e still held tenant' limit' max' now'
          (Reach-IsWellFormed path w1) early in
      let its_id = (eq_iff e.id id).0 (find-true (has_id id) t.deliveries e still) in
      (
        (e, still, found, held),
        All-map _ _ _ (λ d c. other_id theirs d.id id (ap (contains theirs) (sym its_id) ∙ apart) c)
            (claim_ids_chosen t worker' (now' + seconds lease') now' theirs),
      )
    where
      other_id :
          (ids : List String) (i j : String)
          → contains ids j ≡ false
          → contains ids i ≡ true
          → (i == j) ≡ false
      other_id ids i j apart c = elim (Bool-cases (i == j)) [
        | inl t ↦ absurd (false≢true (sym apart ∙ ap (contains ids) (sym ((eq_iff i j).0 t)) ∙ c))
        | inr f ↦ f
      ]
