-- ===== src/Outbox/Examples.antt =====
-- The outbox's theorems at concrete inputs: one delivery that two workers compete for.
use production_support_agent.Outbox.Claimed.{claim_results, first_claimable}
use production_support_agent.Models.{in_progress}
use production_support_agent.Prelude.{map}
use production_support_agent.Outbox.Idempotence.{enqueue-enqueue_same}
use production_support_agent.Outbox.Transitions.{Follows, Step-Follows, NamesWorker}
use production_support_agent.Outbox.Locking.{ids_of, attempt_after_claim, IsHeld}
use production_support_agent.Outbox.Apart.{claim-claim_apart, AllLeaveLease, LeavesLease}
use production_support_agent.Outbox.Idempotence.{AllNameWorkers}
use production_support_agent.Outbox.Transitions.{IsSameAlert}
use production_support_agent.Prelude.{◌==◌}
use production_support_agent.Models.{p1, pending, DeliveryStatus}
use production_support_agent.Outbox.Budget.{IsWithinBudget}
use production_support_agent.Outbox.Progress.{
  Run, run-IsWithinBudget, start, Uses, IsUndelivered, claimable_from, run_claimable, further,
}
use production_support_agent.Outbox.Invariant.Steps.{
  Reach, IsWellFormed, empty_outbox, outbox-IsWellFormed, next, here, enqueues, claims, attempts,
}
use production_support_agent.Outbox.Claim.{
  claim_alert_delivery_records, claimed_row, claimable_ids, claim_ids, is_claimable,
}
use production_support_agent.Outbox.Attempt.{
  AttemptOutcome, attempted_row, record_alert_delivery_attempt,
}
use production_support_agent.Outbox.Invariant.Rows.{IsConsistent}
use production_support_agent.Outbox.Enqueue.{enqueue_alert_delivery}
use production_support_agent.Outbox.Delivery.{
  Delivery, Outbox, enqueued_event, seconds, has_id, attempted_event,
}
use production_support_agent.Prelude.{
  ℕ, ◌+◌, ◌≤◌, ◌≡◌, refl, ◌≢◌, inr, true, false, false≢true, none, some, List, [], ◌∷◌, ◌++◌, arith,
  eq_iff, nat_eq, string_eq, length, All, find, ok, update_where, select, sort_by, contains,
}

abbrev pub fresh : Delivery
fresh = record {
  id = "deliv_1";
  tenant_id = "acme";
  alert_key = "v1:billing:TIMEOUT";
  severity = p1;
  destination_hash = "h";
  status = pending;
  alert_first_seen_at = 10;
  alert_last_seen_at = 20;
  alert_count = 2;
  reason = "TIMEOUT clustered across 2 event(s)";
  sample_event_ids = [];
  sample_run_ids = [];
  payload_hash = "p";
  attempt_count = 0;
  next_attempt_at = none;
  last_attempt_at = none;
  delivered_at = none;
  dead_lettered_at = none;
  locked_until = none;
  locked_by = none;
  operator_action = none;
  operator_action_at = none;
  operator_action_by = none;
  operator_action_note = none;
  response_status_code = none;
  last_error = none;
  created_at = 30;
  updated_at = 30;
}

abbrev pub one_delivery : Outbox
one_delivery = record { deliveries = fresh ∷ []; events = enqueued_event fresh ∷ [] }

enqueue_fresh : enqueue_alert_delivery empty_outbox fresh ≡ some (one_delivery, fresh, true)
unfolding enqueue_alert_delivery find
enqueue_fresh = refl

fresh-IsConsistent : IsConsistent fresh
fresh-IsConsistent = ground arith

abbrev claim_1 : Outbox × List Delivery
claim_1 = claim_alert_delivery_records one_delivery "acme" "w1" 5 120 3 1000

abbrev failed_report : AttemptOutcome
failed_report = record {
  status = DeliveryStatus.failed;
  response_status_code = none;
  last_error = some "TIMEOUT";
  max_attempts = some 3;
  backoff_seconds = some 60;
  worker_id = some "w1";
}

abbrev held_1 : Delivery
held_1 = claimed_row "w1" (1000 + seconds 120) 1000 fresh

claim_fresh : claim_1 ≡ (record one_delivery { deliveries = held_1 ∷ [] }, held_1 ∷ [])
unfolding claim_alert_delivery_records claimable_ids claim_ids is_claimable select sort_by contains
    update_where
claim_fresh = refl

-- The claim's row after a failed attempt: it waits for its backoff.
abbrev failed_1 : Delivery
failed_1 = attempted_row failed_report 1 2000 held_1

failed_columns :
    (failed_1.status ≡ DeliveryStatus.failed)
    × (failed_1.next_attempt_at ≡ some (2000 + seconds 60))
    × (failed_1.attempt_count ≡ 1)
unfolding attempted_row
failed_columns = (refl, refl, refl)

abbrev after_failure : Outbox
after_failure = record claim_1.0 {
  deliveries =
      update_where (has_id "deliv_1") (attempted_row failed_report 1 2000) claim_1.0.deliveries;
  events = claim_1.0.events ++ attempted_event failed_1 ∷ [];
}

attempt_failed :
    record_alert_delivery_attempt claim_1.0 "deliv_1" failed_report 2000
    ≡ ok (after_failure, failed_1)
unfolding record_alert_delivery_attempt claim_alert_delivery_records claimable_ids claim_ids
    is_claimable select sort_by contains update_where find
attempt_failed = refl

-- enqueue, claim, failed attempt
abbrev history : Reach empty_outbox after_failure
history =
    next
      (next (next here (enqueues fresh fresh-IsConsistent enqueue_fresh))
        (claims "acme" "w1" 5 120 3 1000))
      (attempts "deliv_1" failed_report 2000 (inr refl) attempt_failed)

outbox-IsWellFormed_example : IsWellFormed after_failure.deliveries
outbox-IsWellFormed_example = outbox-IsWellFormed history

abbrev budgeted : Run 3 empty_outbox after_failure
budgeted =
    further
      (further
        (further start (enqueues fresh fresh-IsConsistent enqueue_fresh) (unfold Uses in refl))
        (claims "acme" "w1" 5 120 3 1000) (unfold Uses in refl))
      (attempts "deliv_1" failed_report 2000 (inr refl) attempt_failed)
      (unfold Uses in (refl, refl))

run-IsWithinBudget_example : All (IsWithinBudget 3) after_failure.deliveries
run-IsWithinBudget_example = run-IsWithinBudget 3 (omega arith) budgeted

run_claimable_example :
    All
      (λ d.
        IsUndelivered d
        → (now : ℕ) → claimable_from d ≤ now
        → is_claimable d.tenant_id 3 now d ≡ true)
      after_failure.deliveries
run_claimable_example = run_claimable 3 (omega arith) budgeted

abbrev one_delivery-IsWellFormed : IsWellFormed one_delivery.deliveries
one_delivery-IsWellFormed =
    outbox-IsWellFormed (next here (enqueues fresh fresh-IsConsistent enqueue_fresh))

-- What comes in between: another delivery, and a claim of a second worker, which takes only that one.
abbrev second_delivery : Delivery
second_delivery = record fresh { id = "deliv_9"; alert_key = "v1:billing:OTHER" }

second_delivery-IsConsistent : IsConsistent second_delivery
second_delivery-IsConsistent = ground arith

abbrev with_second : Outbox
with_second = record {
  deliveries = claim_1.0.deliveries ++ second_delivery ∷ [];
  events = claim_1.0.events ++ enqueued_event second_delivery ∷ [];
}

enqueue_second :
    enqueue_alert_delivery claim_1.0 second_delivery ≡ some (with_second, second_delivery, true)
unfolding enqueue_alert_delivery claim_alert_delivery_records claimable_ids claim_ids is_claimable
    select sort_by contains update_where find
enqueue_second = refl

abbrev meanwhile :
    Reach claim_1.0 (claim_alert_delivery_records with_second "acme" "w2" 5 120 3 4000).0
meanwhile =
    next (next here (enqueues second_delivery second_delivery-IsConsistent enqueue_second))
      (claims "acme" "w2" 5 120 3 4000)

-- Until the lease of the first worker has ended, no other claim has its row, ...
claim-claim_apart_example :
    ((e : Delivery) × (find
          (has_id "deliv_1")
          (claim_alert_delivery_records with_second "acme" "w2" 5 120 3 4000).0.deliveries
        ≡ some e)
      × (find (has_id "deliv_1") claim_1.0.deliveries ≡ some e)
      × IsHeld "w1" (1000 + seconds 120) e)
    × All
        (λ d. (d.id == "deliv_1") ≡ false)
        (claim_alert_delivery_records
          (claim_alert_delivery_records with_second "acme" "w2" 5 120 3 4000).0
          "acme"
          "w3"
          5
          120
          3
          5000).1
unfolding AllLeaveLease LeavesLease
claim-claim_apart_example =
    claim-claim_apart one_delivery "acme" "w1" 5 120 3 1000
      (claim_alert_delivery_records with_second "acme" "w2" 5 120 3 4000).0 meanwhile
      one_delivery-IsWellFormed ((tt, tt), omega arith) "deliv_1" claimed_id "acme" "w3" 5 120 3
      5000 (omega arith)
  where
    claimed_id : contains (ids_of claim_1.1) "deliv_1" ≡ true
    claimed_id = rw claim_fresh (unfold contains in refl)

abbrev by_w2 : AttemptOutcome
by_w2 = record failed_report { worker_id = some "w2" }

-- ... and its attempt on the row is not recorded.
attempt_after_claim_example :
    record_alert_delivery_attempt claim_1.0 "deliv_1" by_w2 2000 ≢ ok (one_delivery, fresh)
attempt_after_claim_example =
    attempt_after_claim one_delivery "acme" "w1" 5 120 3 1000 "deliv_1" by_w2 "w2" 2000
      (one_delivery, fresh) claimed_id refl (λ e. false≢true ((eq_iff "w2" "w1").1 e))
  where
    claimed_id : contains (ids_of claim_1.1) "deliv_1" ≡ true
    claimed_id = rw claim_fresh (unfold contains in refl)

fresh_found : find (has_id fresh.id) one_delivery.deliveries ≡ some fresh
unfolding find
fresh_found = refl

Step-Follows_example : Follows fresh claim_1.0.deliveries
Step-Follows_example =
    Step-Follows (claims "acme" "w1" 5 120 3 1000) fresh (unfold NamesWorker in tt)
      one_delivery-IsWellFormed fresh_found

-- The same occurrence under another id.
abbrev again : Delivery
again = record fresh { id = "deliv_2"; created_at = 99 }

enqueue-enqueue_same_example :
    (now : Delivery) × (enqueue_alert_delivery after_failure again
      ≡ some (after_failure, now, false))
    × IsSameAlert fresh now
unfolding AllNameWorkers NamesWorker
enqueue-enqueue_same_example =
    enqueue-enqueue_same empty_outbox one_delivery after_failure fresh again fresh true
      (record { ids = tt; alerts = tt; consistent = tt }) fresh-IsConsistent enqueue_fresh refl
      (next (next here (claims "acme" "w1" 5 120 3 1000))
        (attempts "deliv_1" failed_report 2000 (inr refl) attempt_failed))
      ((tt, tt), refl)

claim_results_example :
    (claim_1.1
      ≡ map
          (λ (d : Delivery). record d {
            status = in_progress;
            locked_by = some "w1";
            locked_until = some (1000 + seconds 120);
            updated_at = 1000;
          })
          (first_claimable "acme" 3 5 1000 one_delivery.deliveries))
    × (length claim_1.1 ≤ 5)
    × All (IsHeld "w1" (1000 + seconds 120)) claim_1.1
claim_results_example = claim_results one_delivery "acme" "w1" 5 120 3 1000 (tt, tt)
