-- ===== src/Monitor/Complete.antt =====
-- The worker of monitoring/monitor_review_service.py leaves a review of each run it can review.
use production_support_agent.Monitor.Events.{MonitorEvent}
use production_support_agent.Models.{IntentType}
use production_support_agent.Monitor.Review.{RunTrace, review, unkeyed_review, is_alerted}
use production_support_agent.Monitor.Worker.{
  ReviewRow, ReviewReport, insert_review, counted, ReviewTurn, append_monitor_event_if_absent,
  review_loop, is_review_of, review_of, reviewed, review_trace, inspected, review_row, reviewable,
  response_from_trace, review_missing_monitor_events, list_unreviewed_agent_runs, new_report,
}
use production_support_agent.Prelude.{
  ℕ, String, ◌≡◌, refl, sym, ap, ◌∙◌, subst, inl, inr, Bool, true, false, false≢true, Option, none,
  some, List, [], ◌∷◌, ◌++◌, arith, eq_refl, nat_eq, string_eq, Bool-cases, Option-cases, is_some,
  All, find, find-append_some, find-append_none,
}

-- A row that is found is found still among more rows.
insert_review-kept :
    (p : ReviewRow → Bool) (rows : List ReviewRow) (new row : ReviewRow)
    (existing : Option ReviewRow)
    → find p rows ≡ some row
    → find p (insert_review rows new existing).0 ≡ some row
insert_review-kept p rows new row (some existing) h = h
insert_review-kept p rows new row none h = find-append_some p rows (new ∷ []) row h

counted_rows :
    (report : ReviewReport) (result : List ReviewRow × Bool) → (counted report result).1 ≡ result.0
counted_rows report (rows, true) = refl
counted_rows report (rows, false) = refl

module _ (tenant_id : String) (turns : RunTrace → ReviewTurn) where
  reviewed-kept :
      (p : ReviewRow → Bool) (trace : RunTrace) (primary : IntentType) (turn : ReviewTurn)
      (report : ReviewReport) (rows : List ReviewRow) (row : ReviewRow) (raises : Option String)
      → find p rows ≡ some row
      → find p (reviewed tenant_id trace primary turn report rows raises).1 ≡ some row
  unfolding append_monitor_event_if_absent
  reviewed-kept p trace primary turn report rows row (some error) h = h
  reviewed-kept p trace primary turn report rows row none h =
      ap (find p) (counted_rows report _)
      ∙ insert_review-kept p rows _ row
          (find (is_review_of tenant_id (review_of trace primary turn).run_id) rows) h

  review_trace-kept :
      (p : ReviewRow → Bool) (trace : RunTrace) (turn : ReviewTurn) (report : ReviewReport)
      (rows : List ReviewRow) (row : ReviewRow) (intent : Option IntentType)
      → find p rows ≡ some row
      → find p (review_trace tenant_id trace turn report rows intent).1 ≡ some row
  review_trace-kept p trace turn report rows row none h = h
  review_trace-kept p trace turn report rows row (some primary) h =
      reviewed-kept p trace primary turn report (rows ++ turn.others) row turn.raises
        (find-append_some p rows turn.others row h)

  review_loop-kept :
      (p : ReviewRow → Bool) (report : ReviewReport) (rows : List ReviewRow)
      (traces : List RunTrace) (row : ReviewRow)
      → find p rows ≡ some row
      → find p (review_loop tenant_id turns report rows traces).1 ≡ some row
  unfolding review_loop
  review_loop-kept p report rows [] row h = h
  review_loop-kept p report rows (trace ∷ traces) row h =
      let next =
        review_trace tenant_id trace (turns trace) (inspected report trace) rows
          (reviewable trace) in
      review_loop-kept p next.0 next.1 traces row (
        review_trace-kept p trace (turns trace) (inspected report trace) rows row (reviewable trace)
          h)

  -- A review of the run is among the rows.
  abbrev pub HasReview : List ReviewRow → RunTrace → Type 0
  HasReview rows trace = is_some (find (is_review_of tenant_id trace.id) rows) ≡ true

  inserted-HasReview :
      (rows : List ReviewRow) (trace : RunTrace) (event : MonitorEvent) (now : ℕ)
      (existing : Option ReviewRow)
      → event.run_id ≡ trace.id
      → find (is_review_of tenant_id event.run_id) rows ≡ existing
      → HasReview (insert_review rows (review_row tenant_id event now) existing).0 trace
  unfolding is_review_of find
  inserted-HasReview rows trace event now (some row) same e =
      subst (λ i. is_some (find (is_review_of tenant_id i) rows) ≡ true) same (rw e refl)
  inserted-HasReview rows trace event now none same e =
      subst
        (λ i.
          is_some (find (is_review_of tenant_id i) (rows ++ review_row tenant_id event now ∷ []))
          ≡ true)
        same
        (ap is_some {y = some (review_row tenant_id event now)} (
          find-append_none (is_review_of tenant_id event.run_id) rows
            (review_row tenant_id event now ∷ []) e
          ∙ rw (eq_refl tenant_id, eq_refl event.run_id) refl))

  -- The review of a run has its identifier.
  review_of-run :
      (trace : RunTrace) (primary : IntentType) (turn : ReviewTurn)
      → (review_of trace primary turn).run_id ≡ trace.id
  unfolding review_of review unkeyed_review response_from_trace
  review_of-run trace primary turn =
      elim (Bool-cases (
        is_alerted
          (unkeyed_review (response_from_trace trace primary) turn.new_id turn.now turn.summary))) [
            | inl t ↦ rw t refl
            | inr t ↦ rw t refl
          ]

  -- A run that is reviewed without an exception has a review.
  traced-HasReview :
      (trace : RunTrace) (primary : IntentType) (turn : ReviewTurn) (report : ReviewReport)
      (rows : List ReviewRow)
      → turn.raises ≡ none
      → HasReview (review_trace tenant_id trace turn report rows (some primary)).1 trace
  unfolding append_monitor_event_if_absent
  traced-HasReview trace primary turn report rows calm =
      let event = review_of trace primary turn in
      let before_it = rows ++ turn.others in
      subst (λ r. HasReview (reviewed tenant_id trace primary turn report before_it r).1 trace)
        (sym calm)
        (subst (λ l. HasReview l trace) (sym (counted_rows report _))
          (inserted-HasReview before_it trace event turn.now
            (find (is_review_of tenant_id event.run_id) before_it)
            (review_of-run trace primary turn) refl))

  HasReview-loop :
      (report : ReviewReport) (rows : List ReviewRow) (traces : List RunTrace) (trace : RunTrace)
      → HasReview rows trace
      → HasReview (review_loop tenant_id turns report rows traces).1 trace
  HasReview-loop report rows traces trace h =
      elim (Option-cases (find (is_review_of tenant_id trace.id) rows)) [
        | inl missing ↦ absurd (ground (arith, missing, h))
        | inr (row, found) ↦
            ap is_some
              (review_loop-kept (is_review_of tenant_id trace.id) report rows traces row found)
      ]

  review_loop-HasReview :
      (report : ReviewReport) (rows : List ReviewRow) (traces : List RunTrace)
      → All
          (λ trace.
            is_some (reviewable trace) ≡ true
            → (turns trace).raises ≡ none
            → HasReview (review_loop tenant_id turns report rows traces).1 trace)
          traces
  unfolding review_loop
  review_loop-HasReview report rows [] = tt
  review_loop-HasReview report rows (trace ∷ traces) =
      let next =
        review_trace tenant_id trace (turns trace) (inspected report trace) rows
          (reviewable trace) in
      (
        λ can calm. HasReview-loop next.0 next.1 traces trace (now_has (reviewable trace) can calm),
        review_loop-HasReview next.0 next.1 traces,
      )
    where
      now_has :
          (intent : Option IntentType)
          → is_some intent ≡ true
          → (turns trace).raises ≡ none
          → HasReview
              (review_trace tenant_id trace (turns trace) (inspected report trace) rows intent).1
              trace
      now_has none can calm = absurd (false≢true can)
      now_has (some primary) can calm =
          traced-HasReview trace primary (turns trace) (inspected report trace) rows calm

  -- After a cycle, each run that was listed, is reviewable and whose review raised nothing has a review
  -- among the rows of the store.
  pub cycle-HasReview :
      (rows : List ReviewRow) (created_after created_before : Option ℕ) (limit : ℕ)
      → All
          (λ trace.
            is_some (reviewable trace) ≡ true
            → (turns trace).raises ≡ none
            → HasReview
                (review_missing_monitor_events tenant_id turns rows created_after created_before
                  limit).1
                trace)
          (list_unreviewed_agent_runs rows tenant_id created_after created_before limit)
  unfolding review_missing_monitor_events
  cycle-HasReview rows created_after created_before limit =
      review_loop-HasReview new_report rows
        (list_unreviewed_agent_runs rows tenant_id created_after created_before limit)
