-- ===== src/Outbox/Claimed.antt =====
-- What a claim returns: which rows, in which order and in which state.
use production_support_agent.Outbox.Locking.{IsHeld, claimed_ids-IsHeld}
use production_support_agent.Outbox.Delivery.{Outbox, Delivery, same_id, seconds}
use production_support_agent.Outbox.Claim.{
  claimable_ids, claim_ids, claim_alert_delivery_records, claimed_row,
}
use production_support_agent.Outbox.Budget.{claimable_ids_rows}
use production_support_agent.Outbox.Claim.{is_claimable}
use production_support_agent.Models.{in_progress}
use production_support_agent.Prelude.{
  zero, sort_by, sort_by-map, sort_by-select, sort_by-IsUnique, update_where, take, eq_refl,
  All-select_of, sym, ◌∙◌, subst, some,
}
use production_support_agent.Prelude.{
  ℕ, suc, refl, arith, inl, inr, true, false, string_eq, nat_eq, select, contains, List, Bool,
  String, length, ◌≡◌, All, map, IsUnique, ◌∷◌, ◌≤◌, ◌+◌, ap, length-take-le, Bool-cases, All-map,
  eq_iff, [],
}

module _ {ℓ} {A : Type ℓ} where
  select-update_where :
      (q : A → Bool) (f : A → A) (xs : List A)
      → ((x : A) → q (f x) ≡ q x)
      → select q (update_where q f xs) ≡ map f (select q xs)
  unfolding select update_where
  select-update_where q f [] keep = refl
  select-update_where q f (x ∷ xs) keep = elim (Bool-cases (q x)) [
    | inl t ↦ rw (t, keep x, t) (ap (λ zs. f x ∷ zs) (select-update_where q f xs keep))
    | inr t ↦ rw (t, t) (select-update_where q f xs keep)
  ]

  -- A test that only passes what another passes.
  select-select :
      (q c : A → Bool) (xs : List A)
      → All (λ x. q x ≡ true → c x ≡ true) xs
      → select q xs ≡ select q (select c xs)
  unfolding select
  select-select q c [] h = refl
  select-select q c (x ∷ xs) h = ground (arith, h.0, select-select q c xs h.1)

  select_congr :
      (p q : A → Bool) (xs : List A) → All (λ x. p x ≡ q x) xs → select p xs ≡ select q xs
  unfolding select
  select_congr p q [] h = refl
  select_congr p q (x ∷ xs) h = ground (arith, h.0, select_congr p q xs h.1)

  select-nothing : (xs : List A) → select (λ x. false) xs ≡ []
  unfolding select
  select-nothing [] = refl
  select-nothing (x ∷ xs) = select-nothing xs

  IsUnique-select :
      (same : A → A → Bool) (p : A → Bool) (xs : List A)
      → IsUnique same xs
      → IsUnique same (select p xs)
  unfolding select
  IsUnique-select same p [] u = tt
  IsUnique-select same p (x ∷ xs) u = elim (Bool-cases (p x)) [
    | inl t ↦ rw t (All-select_of (λ y. same x y ≡ false) p xs u.0, IsUnique-select same p xs u.1)
    | inr t ↦ rw t (IsUnique-select same p xs u.1)
  ]

-- The rows of a table with the ids of its first `n` rows are these.
select-contains-take :
    (n : ℕ) (rows : List Delivery)
    → IsUnique same_id rows
    → select (λ d. contains (map (λ (x : Delivery). x.id) (take n rows)) d.id) rows ≡ take n rows
unfolding select contains
select-contains-take zero rows u = select-nothing rows
select-contains-take (suc n) [] u = refl
select-contains-take (suc n) (d ∷ rows) u =
    let ids = map (λ (x : Delivery). x.id) (take n rows) in
    rw (eq_refl d.id) (
      ap (λ xs. d ∷ xs)
        (select_congr (λ x. contains (d.id ∷ ids) x.id) (λ x. contains ids x.id) rows
            (All-map _ _ rows (λ x apart. unfold contains in rw apart refl) u.0)
          ∙ select-contains-take n rows u.1))

-- The rows that a claim is to take.
abbrev pub first_claimable : String → ℕ → ℕ → ℕ → List Delivery → List Delivery
first_claimable tenant_id max_attempts limit now rows =
    take limit (sort_by (λ d. d.created_at) (select (is_claimable tenant_id max_attempts now) rows))

sort_by-nothing :
    (rows : List Delivery)
    → sort_by (λ (d : Delivery). d.created_at) (select (λ d. false) rows) ≡ []
sort_by-nothing rows =
    ap (sort_by (λ (d : Delivery). d.created_at)) (select-nothing rows) ∙ unfold sort_by in refl

claim_ids_rows :
    (s : Outbox) (worker_id : String) (until now : ℕ) (ids : List String)
    → (claim_ids s worker_id until now ids).1
      ≡ map
          (claimed_row worker_id until now)
          (sort_by (λ d. d.created_at) (select (λ d. contains ids d.id) s.deliveries))
unfolding claim_ids contains
claim_ids_rows s worker_id until now [] =
    ap (map (claimed_row worker_id until now)) (sym (sort_by-nothing s.deliveries))
claim_ids_rows s worker_id until now (x ∷ xs) =
    ap (sort_by (λ d. d.created_at)) (
      select-update_where (λ d. contains (x ∷ xs) d.id) (claimed_row worker_id until now)
        s.deliveries (λ d. refl))
    ∙ sort_by-map (λ d. d.created_at) (claimed_row worker_id until now) _ (λ d. refl)

-- What is selected by the ids is what was to be taken.
chosen_rows :
    (tenant_id : String) (max_attempts limit now : ℕ) (rows : List Delivery)
    → IsUnique same_id rows
    → sort_by
        (λ d. d.created_at)
        (select (λ d. contains (claimable_ids tenant_id max_attempts limit now rows) d.id) rows)
      ≡ first_claimable tenant_id max_attempts limit now rows
chosen_rows tenant_id max_attempts limit now rows u =
    let c = is_claimable tenant_id max_attempts now in
    let q = λ (d : Delivery). contains (claimable_ids tenant_id max_attempts limit now rows) d.id in
    ap (sort_by (λ d. d.created_at))
      (select-select q c rows (claimable_ids_rows tenant_id max_attempts limit now rows u))
    ∙ sort_by-select (λ d. d.created_at) q (select c rows)
    ∙ (unfold claimable_ids in
        select-contains-take limit (sort_by (λ d. d.created_at) (select c rows)) (
          sort_by-IsUnique (λ d. d.created_at) same_id (select c rows)
            (λ a b. ground (arith, eq_iff a.id b.id, eq_iff b.id a.id))
            (IsUnique-select same_id c rows u)))

length-map {ℓ κ} :
    {A : Type ℓ} {B : Type κ} (f : A → B) (xs : List A) → length (map f xs) ≡ length xs
length-map f [] = refl
length-map f (x ∷ xs) = ap suc (length-map f xs)

-- A claim on an outbox with unique ids returns exactly the first `limit` rows of those that were
-- claimable, in the order of their creation and, at one time of creation, of the table; each is
-- in progress and held by the worker until the end of the lease, and else as it was, but for the time
-- of its update.
pub claim_results :
    (s : Outbox) (tenant_id worker_id : String) (limit lease max_attempts now : ℕ)
    → IsUnique same_id s.deliveries
    → let claimed =
        (claim_alert_delivery_records s tenant_id worker_id limit lease max_attempts now).1 in
      (claimed
        ≡ map
            (λ (d : Delivery). record d {
              status = in_progress;
              locked_by = some worker_id;
              locked_until = some (now + seconds lease);
              updated_at = now;
            })
            (first_claimable tenant_id max_attempts limit now s.deliveries))
      × (length claimed ≤ limit)
      × All (IsHeld worker_id (now + seconds lease)) claimed
unfolding claim_alert_delivery_records
claim_results s tenant_id worker_id limit lease max_attempts now u =
    let ids = claimable_ids tenant_id max_attempts limit now s.deliveries in
    let rows =
      claim_ids_rows s worker_id (now + seconds lease) now ids
      ∙ ap (map (claimed_row worker_id (now + seconds lease) now))
          (chosen_rows tenant_id max_attempts limit now s.deliveries u) in
    (
      rows,
      subst (λ claimed. length claimed ≤ limit) (sym rows) (rw length-map (length-take-le limit _)),
      claimed_ids-IsHeld s worker_id (now + seconds lease) now ids,
    )
