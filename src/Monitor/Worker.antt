-- ===== src/Monitor/Worker.antt =====
-- monitoring/monitor_review_service.py, and list_unreviewed_agent_runs and
-- append_monitor_event_if_absent of memory/event_store.py.
use production_support_agent.Monitor.Review.{running, completed, failed}
use production_support_agent.Agent.Routing.{PolicyFinding}
use production_support_agent.Locks.{OperationLock}
use production_support_agent.Models.{IntentType}
use production_support_agent.Monitor.Events.{MonitorEvent}
use production_support_agent.Monitor.Review.{RunTrace, RunStatus, AgentResponse, review}
use production_support_agent.Prelude.{
  ℕ, ◌+◌, String, Bool, true, false, not, ◌&&◌, ◌||◌, Option, none, some, List, [], ◌∷◌, ◌++◌, leb,
  if◌then◌else◌, ◌==◌, nat_eq, string_eq, is_some, find, ok, err, Result, take, sort_by, select,
  value_or, any,
}

-- The columns of a row of events that these read; the trace of a run's event.
pub record ReviewRow : Type 0 where
  pub tenant_id : String
  pub run_id : Option String
  pub event_type : String
  pub row_created_at : ℕ
  pub trace : Option RunTrace
  pub review : Option MonitorEvent

abbrev same_run : Option String → String → Bool
same_run none run_id = false
same_run (some own) run_id = own == run_id

-- `where tenant_id = ? and run_id = ? and event_type = 'monitor.reviewed'`
unfoldable pub is_review_of : String → String → ReviewRow → Bool
is_review_of tenant_id run_id row =
    row.tenant_id == tenant_id && same_run row.run_id run_id && row.event_type == "monitor.reviewed"

-- The row of a review.
abbrev pub review_row : String → MonitorEvent → ℕ → ReviewRow
review_row tenant_id event now = record {
  tenant_id = tenant_id;
  run_id = some event.run_id;
  event_type = "monitor.reviewed";
  row_created_at = now;
  trace = none;
  review = some event;
}

-- The insertion, where no review exists.
abbrev pub insert_review : List ReviewRow → ReviewRow → Option ReviewRow → List ReviewRow × Bool
insert_review rows row (some existing) = (rows, false)
insert_review rows row none = (rows ++ row ∷ [], true)

unfoldable pub append_monitor_event_if_absent :
    List ReviewRow → String → MonitorEvent → ℕ → List ReviewRow × Bool
append_monitor_event_if_absent rows tenant_id event now =
    insert_review rows (review_row tenant_id event now)
      (find (is_review_of tenant_id event.run_id) rows)

abbrev is_completed : RunStatus → Bool
is_completed running = false
is_completed completed = true
is_completed failed = false

-- `created_at >= ?` and `created_at <= ?`, where they are asked for
abbrev not_before : Option ℕ → ℕ → Bool
not_before none at = true
not_before (some bound) at = leb bound at

abbrev not_after : Option ℕ → ℕ → Bool
not_after none at = true
not_after (some bound) at = leb at bound

-- The `where` clause on the run and its trace.
unfoldable pub is_unreviewed :
    List ReviewRow
    → String
    → Option ℕ
    → Option ℕ
    → ReviewRow
    → Option String
    → Option RunTrace
    → Bool
is_unreviewed rows tenant_id created_after created_before row (some run_id) (some trace) =
    row.tenant_id == tenant_id
    && row.event_type == "agent.run.completed"
    && is_completed trace.run_status
    && not (is_some (find (is_review_of row.tenant_id run_id) rows))
    && not_before created_after row.row_created_at
    && not_after created_before row.row_created_at
is_unreviewed rows tenant_id created_after created_before row _ _ = false

-- The traces of rows.
abbrev pub traces_of : List ReviewRow → List RunTrace
traces_of [] = []
traces_of (row ∷ rows) = prepend row.trace (traces_of rows)
  where
    prepend : Option RunTrace → List RunTrace → List RunTrace
    prepend none traces = traces
    prepend (some trace) traces = trace ∷ traces

-- list_unreviewed_agent_runs, in ascending order
unfoldable pub list_unreviewed_agent_runs :
    List ReviewRow → String → Option ℕ → Option ℕ → ℕ → List RunTrace
list_unreviewed_agent_runs rows tenant_id created_after created_before limit = traces_of (
    take limit (
      sort_by (λ row. row.row_created_at)
        (select
          (λ row.
            is_unreviewed rows tenant_id created_after created_before row row.run_id row.trace)
          rows)))

-- MonitorReviewWorkerReport
pub record ReviewReport : Type 0 where
  pub cycle_status : String
  pub inspected_count : ℕ
  pub reviewed_count : ℕ
  pub skipped_existing_count : ℕ
  pub skipped_unreviewable_count : ℕ
  pub failed_count : ℕ
  pub lock_skipped : Bool
  pub latest_run_created_at : Option ℕ
  pub last_error_type : Option String

abbrev pub new_report : ReviewReport
new_report = record {
  cycle_status = "success";
  inspected_count = 0;
  reviewed_count = 0;
  skipped_existing_count = 0;
  skipped_unreviewable_count = 0;
  failed_count = 0;
  lock_skipped = false;
  latest_run_created_at = none;
  last_error_type = none;
}

-- _trace_is_reviewable: the intent of a trace that is.
unfoldable pub reviewable : RunTrace → Option IntentType
reviewable trace = if is_completed trace.run_status then trace.intent else none

abbrev cited : Option (List String) → List String
cited none = []
cited (some context) = take 2 context

-- _response_from_trace, for the trace's intent
unfoldable pub response_from_trace : RunTrace → IntentType → AgentResponse
response_from_trace trace primary = record {
  trace = trace;
  primary = primary;
  citations = cited trace.selected_context;
  handoff_required =
      value_or trace.needs_human false
      || any (λ (f : PolicyFinding). f.should_escalate) trace.policy_findings;
}

-- What the world gives a review of a trace: the type of an exception, if one is raised, the rows that
-- other processes appended before its transaction, the new identifier, the summary and the time.
pub record ReviewTurn : Type 0 where
  pub raises : Option String
  pub others : List ReviewRow
  pub new_id : String
  pub summary : String
  pub now : ℕ

-- The event with the time of the run.
unfoldable pub review_of : RunTrace → IntentType → ReviewTurn → MonitorEvent
review_of trace primary turn =
    record (review (response_from_trace trace primary) turn.new_id turn.now turn.summary) {
      timestamp = value_or trace.completed_at trace.created_at;
    }

-- `if created`
abbrev pub counted : ReviewReport → List ReviewRow × Bool → ReviewReport × List ReviewRow
counted report (rows, true) = (record report { reviewed_count = report.reviewed_count + 1 }, rows)
counted report (rows, false) =
    (record report { skipped_existing_count = report.skipped_existing_count + 1 }, rows)

-- The `try`.
abbrev pub reviewed :
    String
    → RunTrace
    → IntentType
    → ReviewTurn
    → ReviewReport
    → List ReviewRow
    → Option String
    → ReviewReport × List ReviewRow
reviewed tenant_id trace primary turn report rows (some error) =
    (record report { failed_count = report.failed_count + 1; last_error_type = some error }, rows)
reviewed tenant_id trace primary turn report rows none =
    counted report
      (append_monitor_event_if_absent rows tenant_id (review_of trace primary turn) turn.now)

abbrev pub review_trace :
    String
    → RunTrace
    → ReviewTurn
    → ReviewReport
    → List ReviewRow
    → Option IntentType
    → ReviewReport × List ReviewRow
review_trace tenant_id trace turn report rows none =
    (record report { skipped_unreviewable_count = report.skipped_unreviewable_count + 1 }, rows)
review_trace tenant_id trace turn report rows (some primary) =
    reviewed tenant_id trace primary turn report (rows ++ turn.others) turn.raises

-- A trace is inspected.
abbrev pub inspected : ReviewReport → RunTrace → ReviewReport
inspected report trace = record report {
  inspected_count = report.inspected_count + 1;
  latest_run_created_at = some trace.created_at;
}

-- The loop of _review_missing_monitor_events
unfoldable pub review_loop :
    String
    → (RunTrace → ReviewTurn)
    → ReviewReport
    → List ReviewRow
    → List RunTrace
    → ReviewReport × List ReviewRow
review_loop tenant_id turns report rows [] = (report, rows)
review_loop tenant_id turns report rows (trace ∷ traces) =
    let next =
      review_trace tenant_id trace (turns trace) (inspected report trace) rows (reviewable trace) in
    review_loop tenant_id turns next.0 next.1 traces

-- `if report.failed_count`
unfoldable pub with_status : ReviewReport → ReviewReport
with_status report =
    if report.failed_count == 0 then report else record report { cycle_status = "partial_failure" }

-- _review_missing_monitor_events
unfoldable pub review_missing_monitor_events :
    String
    → (RunTrace → ReviewTurn)
    → List ReviewRow
    → Option ℕ
    → Option ℕ
    → ℕ
    → ReviewReport × List ReviewRow
review_missing_monitor_events tenant_id turns rows created_after created_before limit =
    let done =
      review_loop tenant_id turns new_report rows
        (list_unreviewed_agent_runs rows tenant_id created_after created_before limit) in
    (with_status done.0, done.1)

-- _run_monitor_review_cycle, by what the acquisition of the lock gave
unfoldable pub run_review_cycle :
    String
    → (RunTrace → ReviewTurn)
    → List ReviewRow
    → Option ℕ
    → Option ℕ
    → ℕ
    → Result OperationLock (List OperationLock × OperationLock)
    → ReviewReport × List ReviewRow
run_review_cycle tenant_id turns rows created_after created_before limit (err active) =
    (record new_report { cycle_status = "skipped_lock"; lock_skipped = true }, rows)
run_review_cycle tenant_id turns rows created_after created_before limit (ok acquired) =
    review_missing_monitor_events tenant_id turns rows created_after created_before limit
