-- ===== src/Outbox/Enqueue.antt =====
-- memory/event_store.py, enqueue_alert_delivery.
use production_support_agent.Prelude.{
  Bool, true, false, ◌||◌, Option, none, some, List, [], ◌∷◌, ◌++◌, find,
}
use production_support_agent.Outbox.Delivery.{Delivery, Outbox, enqueued_event, same_alert, same_id}

-- The row that the insert conflicts with, if it raises IntegrityError.
conflicts : Delivery → List Delivery → Option Delivery
conflicts record' rows = find (λ row. same_id row record' || same_alert row record') rows

-- `insert`, with the IntegrityError passed over; then `select` by the unique columns. `none` is a
-- row that is not found, on which the source fails: a record whose id is taken by another alert.
unfoldable pub enqueue_alert_delivery : Outbox → Delivery → Option (Outbox × Delivery × Bool)
unfolding conflicts
enqueue_alert_delivery store delivery = elim (conflicts delivery store.deliveries) [
  | none ↦ some (
    record {
      deliveries = store.deliveries ++ delivery ∷ [];
      events = store.events ++ enqueued_event delivery ∷ [];
    },
    delivery,
    true,
  )
  | some taken ↦ elim (find (λ row. same_alert row delivery) store.deliveries) [
    | none ↦ none
    | some persisted ↦ some (store, persisted, false)
  ]
]
