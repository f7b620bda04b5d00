-- ===== src/Outbox/Locking.antt =====
-- What a claim holds, and that no other worker records an attempt on a row right after it.
use production_support_agent.Prelude.{
  ℕ, ◌+◌, String, ◌≡◌, ◌≢◌, refl, sym, ◌∙◌, inl, inr, Bool, true, false, some, List, [], ◌∷◌, map,
  arith, All, All-map, All-select_map, All-select, All-of_map, All-find, All-updated, All-contains,
  All-sort_by, contains, find, Option-cases, ok, string_eq, eq_iff, nat_eq, All-intro, false≢true,
  find-true, if◌then◌else◌, subst,
}
use production_support_agent.Models.{in_progress, delivery_status_eq}
use production_support_agent.Outbox.Delivery.{Delivery, Outbox, seconds, has_id}
use production_support_agent.Outbox.Claim.{
  claimed_row, claimable_ids, claim_ids, claim_alert_delivery_records,
}
use production_support_agent.Outbox.Attempt.{AttemptOutcome, record_alert_delivery_attempt}

abbrev pub IsHeld : String → ℕ → Delivery → Type 0
IsHeld worker_id until d =
    (d.status ≡ in_progress) × (d.locked_by ≡ some worker_id) × (d.locked_until ≡ some until)

module _ (s : Outbox) (worker_id : String) (until now : ℕ) where
  -- After the claim each row with a claimed id is held.
  claim_ids-IsHeld :
      (ids : List String)
      → All
          (λ d. contains ids d.id ≡ true → IsHeld worker_id until d)
          (claim_ids s worker_id until now ids).0.deliveries
  unfolding claim_ids contains
  claim_ids-IsHeld [] = All-intro _ s.deliveries (λ d h. absurd (false≢true h))
  claim_ids-IsHeld (x ∷ xs) =
      All-updated _ _ _ s.deliveries (λ d. go d (contains (x ∷ xs) d.id) refl)
    where
      go :
          (d : Delivery) (b : Bool)
          → contains (x ∷ xs) d.id ≡ b
          → contains (x ∷ xs) (if b then claimed_row worker_id until now d else d).id ≡ true
          → IsHeld worker_id until (if b then claimed_row worker_id until now d else d)
      go d true e h = (refl, refl, refl)
      go d false e h = absurd (false≢true (sym e ∙ h))

  -- What is read back has the claimed ids, and is held.
  pub claim_ids_chosen :
      (ids : List String)
      → All (λ d. contains ids d.id ≡ true) (claim_ids s worker_id until now ids).1
  unfolding claim_ids
  claim_ids_chosen [] = tt
  claim_ids_chosen (x ∷ xs) = All-sort_by _ _ _ (All-select _ _)

  pub claimed_ids-IsHeld :
      (ids : List String) → All (IsHeld worker_id until) (claim_ids s worker_id until now ids).1
  unfolding claim_ids
  claimed_ids-IsHeld [] = tt
  claimed_ids-IsHeld (x ∷ xs) =
      All-sort_by _ _ _ (All-select_map _ _ _ (unfold claim_ids in claim_ids-IsHeld (x ∷ xs)))

abbrev pub ids_of : List Delivery → List String
ids_of = map (λ d. d.id)

module _ (s : Outbox) (tenant_id worker_id : String) (limit lease max_attempts now : ℕ) where
  abbrev after_claim : Outbox
  after_claim = (claim_alert_delivery_records s tenant_id worker_id limit lease max_attempts now).0

  abbrev claimed : List Delivery
  claimed = (claim_alert_delivery_records s tenant_id worker_id limit lease max_attempts now).1

  chosen : List String
  chosen = claimable_ids tenant_id max_attempts limit now s.deliveries

  claimed-chosen : All (λ i. contains chosen i ≡ true) (ids_of claimed)
  unfolding claim_alert_delivery_records chosen
  claimed-chosen = All-of_map _ _ _ (claim_ids_chosen s worker_id (now + seconds lease) now chosen)

  pub after_claim-IsHeld :
      All
        (λ d. contains (ids_of claimed) d.id ≡ true → IsHeld worker_id (now + seconds lease) d)
        after_claim.deliveries
  unfolding claim_alert_delivery_records chosen
  after_claim-IsHeld =
      All-map _ _ _
        (λ d h c.
          h (All-contains (λ i. contains chosen i ≡ true) (ids_of claimed) d.id claimed-chosen c))
        (claim_ids-IsHeld s worker_id (now + seconds lease) now chosen)

  -- After a claim, no other worker's attempt on a claimed row is recorded, also when that worker
  -- held the row before and its lease has run out.
  pub attempt_after_claim :
      (id : String) (outcome : AttemptOutcome) (other : String) (later : ℕ) (r : Outbox × Delivery)
      → contains (ids_of claimed) id ≡ true
      → outcome.worker_id ≡ some other
      → other ≢ worker_id
      → record_alert_delivery_attempt after_claim id outcome later ≢ ok r
  unfolding record_alert_delivery_attempt
  attempt_after_claim id outcome other later r mine by ne h =
      elim (Option-cases (find (has_id id) after_claim.deliveries)) [
        | inl e ↦ ground arith
        | inr (d, e) ↦
            let named = find-true (has_id id) after_claim.deliveries d e in
            let held = All-find _ (has_id id) after_claim.deliveries d after_claim-IsHeld e (
              subst (λ i. contains (ids_of claimed) i ≡ true) (sym ((eq_iff d.id id).0 named))
                mine) in
            ground (arith, held, eq_iff worker_id other)
      ]
