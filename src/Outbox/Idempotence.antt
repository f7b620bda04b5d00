-- ===== src/Outbox/Idempotence.antt =====
-- One row for one occurrence of an alert at one destination, however often it is enqueued.
use production_support_agent.Outbox.Enqueue.{enqueue_alert_delivery}
use production_support_agent.Outbox.Delivery.{Delivery, Outbox, same_alert, same_id}
use production_support_agent.Outbox.Delivery.{has_id}
use production_support_agent.Outbox.Invariant.Rows.{IsConsistent}
use production_support_agent.Outbox.Invariant.Steps.{
  Step, Reach, here, next, enqueues, IsWellFormed, Reach-IsWellFormed,
}
use production_support_agent.Outbox.Transitions.{IsSameAlert, Step-Follows, NamesWorker}
use production_support_agent.Prelude.{find-only_passes, find-true, sym, ap, refl}
use production_support_agent.Prelude.{
  arith, string_eq, nat_eq, some, true, false, find, Bool, ◌≡◌, eq_iff, Option-cases, ◌||◌, inl,
  find-or_right, inr, ◌∙◌, ◌∷◌, find-or_none, [], find-append_none, eq_refl,
}

-- The unique columns of two records for one alert select the same rows.
same_alert_congr : (d d' x : Delivery) → same_alert d d' ≡ true → same_alert x d' ≡ same_alert x d
same_alert_congr d d' x h = ground (
  arith,
  eq_iff d.tenant_id d'.tenant_id,
  eq_iff d.alert_key d'.alert_key,
  eq_iff d.destination_hash d'.destination_hash,
)

-- A record whose unique columns are taken changes nothing, and the row that took them is returned.
enqueue_taken :
    (s : Outbox) (d row : Delivery)
    → find (λ x. same_alert x d) s.deliveries ≡ some row
    → enqueue_alert_delivery s d ≡ some (s, row, false)
unfolding enqueue_alert_delivery
enqueue_taken s d row e =
    elim (Option-cases (find (λ x. same_id x d || same_alert x d) s.deliveries)) [
      | inl c ↦ absurd (find-or_right (λ x. same_id x d) (λ x. same_alert x d) s.deliveries row e c)
      | inr (x, c) ↦ ground arith
    ]

find_itself : (d : Delivery) → find (λ x. same_alert x d) (d ∷ []) ≡ some d
unfolding find
find_itself d = ground (arith, eq_refl d.tenant_id, eq_refl d.alert_key, eq_refl d.destination_hash)

-- What an enqueue returns is in the table, under the columns of its record.
enqueued_there :
    (s t : Outbox) (d row : Delivery) (created : Bool)
    → enqueue_alert_delivery s d ≡ some (t, row, created)
    → find (λ x. same_alert x d) t.deliveries ≡ some row
enqueued_there s t d row created h =
    elim (Option-cases (find (λ x. same_id x d || same_alert x d) s.deliveries)) [
      | inl e ↦
          let none_before = find-or_none (λ x. same_id x d) (λ x. same_alert x d) s.deliveries e in
          unfold enqueue_alert_delivery in
          ground (
            arith,
            find-append_none (λ x. same_alert x d) s.deliveries (d ∷ []) none_before,
            find_itself d,
          )
      | inr (x, e) ↦ unfold enqueue_alert_delivery in ground arith
    ]

-- Every attempt on the way names its worker.
unfoldable pub AllNameWorkers : {s t : Outbox} → Reach s t → Type 0
AllNameWorkers here = Unit {0}
AllNameWorkers (next path step) = AllNameWorkers path × NamesWorker step

IsSameAlert-trans : (a b c : Delivery) → IsSameAlert a b → IsSameAlert b c → IsSameAlert a c
IsSameAlert-trans a b c one two = record {
  id = two.id ∙ one.id;
  tenant_id = two.tenant_id ∙ one.tenant_id;
  alert_key = two.alert_key ∙ one.alert_key;
  severity = two.severity ∙ one.severity;
  destination_hash = two.destination_hash ∙ one.destination_hash;
  alert_last_seen_at = two.alert_last_seen_at ∙ one.alert_last_seen_at;
  payload_hash = two.payload_hash ∙ one.payload_hash;
  created_at = two.created_at ∙ one.created_at;
}

-- A row of the outbox is there after any steps, about the same alert.
row-kept :
    {s t : Outbox} (path : Reach s t) (d : Delivery)
    → AllNameWorkers path
    → IsWellFormed s.deliveries
    → find (has_id d.id) s.deliveries ≡ some d
    → (e : Delivery) × (find (has_id d.id) t.deliveries ≡ some e) × IsSameAlert d e
unfolding AllNameWorkers
row-kept here d named w found = (d, found, ground arith)
row-kept {s} {t} (next {t = r} path step) d named w found =
    let (e, kept, same) = row-kept path d named.0 w found in
    let follows =
      Step-Follows step e named.1 (Reach-IsWellFormed path w)
        (ap (λ i. find (has_id i) r.deliveries) same.id ∙ kept) in
    (
      follows.now,
      ap (λ i. find (has_id i) t.deliveries) (sym same.id) ∙ follows.found,
      IsSameAlert-trans d e follows.now same follows.same,
    )

-- Once an alert is enqueued in a well-formed outbox, and after any steps of the six operations of the
-- outbox, whose attempts name their worker, a record for the same occurrence and destination, whatever
-- its id, creates no row and changes nothing: it returns the row that the first enqueue returned, as
-- the steps left it, with its id and about the same alert. The six operations delete no rows.
pub enqueue-enqueue_same :
    (s t u : Outbox) (d d' row : Delivery) (created : Bool)
    → IsWellFormed s.deliveries
    → IsConsistent d
    → enqueue_alert_delivery s d ≡ some (t, row, created)
    → same_alert d d' ≡ true
    → (path : Reach t u) → AllNameWorkers path
    → (now : Delivery) × (enqueue_alert_delivery u d' ≡ some (u, now, false)) × IsSameAlert row now
enqueue-enqueue_same s t u d d' row created w c h same path named =
    let there = enqueued_there s t d row created h in
    let enqueued : Step s t = enqueues d c h in
    let w1 = Reach-IsWellFormed (next here enqueued) w in
    let found =
      find-only_passes same_id (λ x. same_alert x d) (has_id row.id) t.deliveries row
        (λ a b pa pb. ground (arith, eq_iff a.id row.id, eq_iff b.id row.id, eq_iff a.id b.id))
        w1.ids there (eq_refl row.id) in
    let (now, kept, about) = row-kept path row named w1 found in
    let passes : same_alert row d' ≡ true =
      same_alert_congr d d' row same ∙ find-true (λ x. same_alert x d) t.deliveries row there in
    let passes_now : same_alert now d' ≡ true = same_columns row now d' about ∙ passes in
    (
      now,
      enqueue_taken u d' now (
          find-only_passes same_alert (has_id row.id) (λ x. same_alert x d') u.deliveries now
            (same_alert_twice d') (Reach-IsWellFormed path w1).alerts kept passes_now),
      about,
    )
  where
    same_columns : (a b x : Delivery) → IsSameAlert a b → same_alert b x ≡ same_alert a x
    same_columns a b x about =
        rw (about.tenant_id, about.alert_key, about.alert_last_seen_at, about.destination_hash) refl

    same_alert_twice :
        (x a b : Delivery) → same_alert a x ≡ true → same_alert b x ≡ true → same_alert a b ≡ true
    same_alert_twice x a b pa pb = ground (
      arith,
      eq_iff a.tenant_id x.tenant_id,
      eq_iff b.tenant_id x.tenant_id,
      eq_iff a.tenant_id b.tenant_id,
      eq_iff a.alert_key x.alert_key,
      eq_iff b.alert_key x.alert_key,
      eq_iff a.alert_key b.alert_key,
      eq_iff a.destination_hash x.destination_hash,
      eq_iff b.destination_hash x.destination_hash,
      eq_iff a.destination_hash b.destination_hash,
    )
