-- ===== src/Dispatcher/Accounting.antt =====
-- The counters of a dispatch report add up.
use production_support_agent.Outbox.Delivery.{Delivery, OutboxError, Outbox}
use production_support_agent.Dispatcher.Enqueuing.{DispatchReport}
use production_support_agent.Prelude.{string_eq, ℕ, length, Result, ◌+◌, ◌≡◌, ◌≤◌, ok, err}

-- After `handled` candidates: each was counted once, and the report lists the attempts that were recorded.
pub record IsBalanced (claimed handled : ℕ) (r : DispatchReport) : Type 0 where
  pub all_claimed : r.claimed_count ≡ claimed
  pub each_once : r.sent_count + r.dead_count + r.failed_count + r.skipped_count ≡ handled
  pub listed : length r.deliveries ≡ r.sent_count + r.dead_count + r.failed_count
  pub recorded_attempts : r.sent_count + r.dead_count + r.failed_count ≤ r.attempted_count
  pub attempts_handled : r.attempted_count ≤ handled

abbrev Balances : ℕ → ℕ → Result OutboxError (Outbox × DispatchReport) → Type 0
Balances total n (ok (store, report)) = IsBalanced total n report
Balances total n (err e) = Unit {0}
