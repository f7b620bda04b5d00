-- ===== src/Lib.antt =====
-- A verification library for the production support agent, the Python package
-- src/support_agent_lab. Paths below are from the repository's root.
--
-- The program answers support messages. A message is routed to an agent (agent/), whose plan calls
-- tools through a broker (tools/registry.py) with keys that make a write run once, some of them over
-- HTTP (tools/http_business_tools.py), and an LLM gateway (llm/gateway.py) words the answer. Monitor
-- events become alerts, and a dispatcher (monitoring/alert_dispatcher.py) delivers alerts to a webhook
-- by an outbox in the SQLite event store (memory/event_store.py).
--
-- Files and code:
--   Models              src/support_agent_lab/models.py, the enumerations
--   Outbox, Outbox/     src/support_agent_lab/memory/event_store.py: enqueue_alert_delivery,
--                       claim_alert_delivery_records, refresh_alert_delivery_lock,
--                       record_alert_delivery_attempt, requeue_alert_delivery, close_alert_delivery.
--                       The store is the list of the table's rows in rowid order and the list of the
--                       events that were appended; an exception is an `err`.
--   Dispatcher/         src/support_agent_lab/monitoring/alert_dispatcher.py:
--                       enqueue_alert_deliveries, dispatch_alert_deliveries,
--                       post_alert_delivery_webhook, delivery_backoff_seconds
--   Monitor/            src/support_agent_lab/monitoring/monitor.py: the records of events and alerts,
--                       OnlineMonitorAgent.review, monitor_alert_key, _severity_for,
--                       apply_monitor_triage and the alerts of summarize_monitor_events;
--                       check_input and check_output of agent/policy.py, by what their tests of the
--                       text say;
--                       src/support_agent_lab/monitoring/monitor_review_service.py, with
--                       list_unreviewed_agent_runs and append_monitor_event_if_absent of
--                       memory/event_store.py
--   Tools/Types, Broker src/support_agent_lab/tools/registry.py, ToolRegistry and ToolBroker.call
--   Tools/Idempotency   the interface that both stores of keys fill: a view of each key as free,
--                       running, done or lapsed, and laws of reserve, complete and release
--   Tools/Memory        InMemoryToolIdempotencyStore of tools/registry.py
--   Tools/Sqlite        reserve, complete and release of memory/event_store.py
--   Circuit             the circuit breaker that llm/gateway.py and tools/http_business_tools.py share
--   Gateway             src/support_agent_lab/llm/gateway.py, LLMGateway
--   HttpClient          src/support_agent_lab/tools/http_business_tools.py, HTTPBusinessClient
--   Agent/              src/support_agent_lab/agent: router.py, policy.py, agents.py and _max_risk of
--                       orchestrator.py
--   Locks               src/support_agent_lab/memory/event_store.py, the operation lock
--   Nonces              src/support_agent_lab/memory/event_store.py, reserve_api_request_nonce
--   Memory/             src/support_agent_lab/memory/store.py and memory/replay.py, the events of messages
--                       and runs in memory/event_store.py, and the turns of agent/orchestrator.py as
--                       far as they change the memory and the events
--   Security/           src/support_agent_lab/security/actor_signature.py, the signed headers;
--                       src/support_agent_lab/api/request_signature.py with the start of the middleware
--                       of src/support_agent_lab/api/main.py; src/support_agent_lab/api/auth.py
--   Prelude             shared names, and lemmas on lists, texts, tables, dictionaries and
--                       sorting
--
-- Conventions. A time is a number of microseconds, and an interval in seconds is multiplied by
-- 1,000,000. A statement of SQL is a function on the list of rows, and its `where` clause a Boolean
-- test; each transaction is one step, which SQLite's `begin immediate` makes of it, so an
-- interleaving of workers is a sequence of steps. A loop over attempts counts the attempts that are
-- left, as `range` does, so it needs no fuel. SHA-256, HMAC, str.upper, int of a text, the schemas
-- and handlers of tools, the LLM provider, the webhook and the business services are parameters of
-- the definitions that use them, and a parameter is any function of the kind. JSON stands as its
-- text. Two counts are not in the code and are kept beside the state: the handlers that a broker
-- ran, and the calls that a gateway or a client made.
--
-- Not modelled: the handlers of the HTTP API, its rate limit in floating point, metrics, readiness
-- and the configuration, which are glue; the search of knowledge, the evaluations, the scripts, the
-- MCP adapter and the audit export, which are SQL queries, files and protocols; the regular
-- expressions of agent/intent.py and agent/policy.py; the latencies, costs and token counts of
-- traces; the heartbeats of workers; the counters and rates of monitor summaries. Calls of a broker
-- do not overlap here, and an audit sink is left out, since the code catches what it raises.
mod Prelude
pub mod Models
pub mod Outbox
pub mod Monitor
pub mod Dispatcher
pub mod Tools
pub mod Circuit
pub mod Gateway
pub mod HttpClient
pub mod Agent
pub mod Locks
pub mod Nonces
pub mod Memory
pub mod Security
