-- ===== src/Monitor/Reviewed.antt =====
-- The worker of monitoring/monitor_review_service.py and the counts of its report.
use production_support_agent.Models.{IntentType}
use production_support_agent.Monitor.Review.{RunTrace}
use production_support_agent.Monitor.Worker.{
  ReviewReport, ReviewRow, ReviewTurn, counted, review_loop, review_missing_monitor_events,
  review_trace, inspected, with_status, reviewed, reviewable, list_unreviewed_agent_runs,
  new_report,
}
use production_support_agent.Prelude.{
  ℕ, ◌+◌, String, ◌≡◌, refl, sym, ◌∙◌, inl, inr, Bool, true, false, not, Option, none, some, List,
  [], ◌∷◌, ◌++◌, arith, ◌==◌, nat_eq, string_eq, Bool-cases, length,
}

abbrev counts : ReviewReport → ℕ
counts r =
    r.reviewed_count + r.skipped_existing_count + r.skipped_unreviewable_count + r.failed_count

counted-counts :
    (report : ReviewReport) (result : List ReviewRow × Bool)
    → (counts (counted report result).0 ≡ counts report + 1)
      × ((counted report result).0.inspected_count ≡ report.inspected_count)
      × ((counted report result).0.cycle_status ≡ report.cycle_status)
counted-counts report (rows, true) = (omega arith, refl, refl)
counted-counts report (rows, false) = (omega arith, refl, refl)

with_status-counts :
    (report : ReviewReport) (count : ℕ)
    → report.cycle_status ≡ "success"
    → report.inspected_count ≡ count
    → counts report ≡ count
    → ((with_status report).inspected_count ≡ count)
      × (counts (with_status report) ≡ (with_status report).inspected_count)
      × (((with_status report).cycle_status == "partial_failure")
          ≡ not ((with_status report).failed_count == 0))
unfolding with_status
with_status-counts report count status inspected_all counted_all =
    elim (Bool-cases (report.failed_count == 0)) [
      | inl t ↦ rw t (inspected_all, counted_all ∙ sym inspected_all, rw (status, t) refl)
      | inr t ↦ rw t (inspected_all, counted_all ∙ sym inspected_all, rw t refl)
    ]

module _ (tenant_id : String) (turns : RunTrace → ReviewTurn) where
  review_trace-counts :
      (trace : RunTrace) (turn : ReviewTurn) (report : ReviewReport) (rows : List ReviewRow)
      (intent : Option IntentType)
      → (counts (review_trace tenant_id trace turn report rows intent).0 ≡ counts report + 1)
        × ((review_trace tenant_id trace turn report rows intent).0.inspected_count
            ≡ report.inspected_count)
        × ((review_trace tenant_id trace turn report rows intent).0.cycle_status
            ≡ report.cycle_status)
  review_trace-counts trace turn report rows none = (omega arith, refl, refl)
  review_trace-counts trace turn report rows (some primary) = tried turn.raises
    where
      tried :
          (raises : Option String)
          → (counts (reviewed tenant_id trace primary turn report (rows ++ turn.others) raises).0
              ≡ counts report + 1)
            × ((reviewed tenant_id trace primary turn report
                  (rows ++ turn.others)
                  raises).0.inspected_count
                ≡ report.inspected_count)
            × ((reviewed tenant_id trace primary turn report
                  (rows ++ turn.others)
                  raises).0.cycle_status
                ≡ report.cycle_status)
      tried (some error) = (omega arith, refl, refl)
      tried none = counted-counts report _

  review_loop-counts :
      (report : ReviewReport) (rows : List ReviewRow) (traces : List RunTrace)
      → (counts (review_loop tenant_id turns report rows traces).0 ≡ counts report + length traces)
        × ((review_loop tenant_id turns report rows traces).0.inspected_count
            ≡ report.inspected_count + length traces)
        × ((review_loop tenant_id turns report rows traces).0.cycle_status ≡ report.cycle_status)
  unfolding review_loop
  review_loop-counts report rows [] = (omega arith, omega arith, refl)
  review_loop-counts report rows (trace ∷ traces) =
      let seen = inspected report trace in
      let next = review_trace tenant_id trace (turns trace) seen rows (reviewable trace) in
      let one = review_trace-counts trace (turns trace) seen rows (reviewable trace) in
      let rest = review_loop-counts next.0 next.1 traces in
      (omega (arith, one.0, rest.0), omega (arith, one.1, rest.1), rest.2 ∙ one.2)

  -- The report of a cycle has inspected the runs that were listed, counts each of them once, as
  -- reviewed, already reviewed, unreviewable or failed, and its status is a partial failure exactly
  -- when one failed.
  pub cycle-counts :
      (rows : List ReviewRow) (created_after created_before : Option ℕ) (limit : ℕ)
      → let report =
          (review_missing_monitor_events tenant_id turns rows created_after created_before
            limit).0 in
        (report.inspected_count
          ≡ length (list_unreviewed_agent_runs rows tenant_id created_after created_before limit))
        × (report.reviewed_count + report.skipped_existing_count + report.skipped_unreviewable_count
              + report.failed_count
            ≡ report.inspected_count)
        × ((report.cycle_status == "partial_failure") ≡ not (report.failed_count == 0))
  unfolding review_missing_monitor_events with_status
  cycle-counts rows created_after created_before limit =
      let listed = list_unreviewed_agent_runs rows tenant_id created_after created_before limit in
      let all = review_loop-counts new_report rows listed in
      with_status-counts (review_loop tenant_id turns new_report rows listed).0 (length listed)
        all.2 (omega (arith, all.1)) (omega (arith, all.0))
