-- ===== src/Prelude/Sorting.antt =====
-- `order by key asc, rowid asc`, `sorted(xs, key=...)`: a stable sort by a number.
use mathlib.Core.Bool.{Bool, true, false}
use Prim.Native.Nat.{ℕ, suc, ◌≤◌}
use mathlib.Core.Path.{◌≡◌, refl, sym, ap, ◌∙◌}
use mathlib.Core.List.{List, [], ◌∷◌, ◌++◌, Perm, map}
use production_support_agent.Prelude.Table.{IsUnique}
use mathlib.Core.List.Perm
use mathlib.Core.Logic.{inl, inr}
use native.Mathlib.Nat.{le_trans}
use native.Mathlib.Omega.{arith}
use production_support_agent.Prelude.Tests.{if◌then◌else◌, leb, Bool-cases}
use production_support_agent.Prelude.Lists.{length, All, All-map, All-append, All-select_of, select}

module _ {ℓ} {A : Type ℓ} (key : A → ℕ) where
  -- An element goes before those of the same key that came after it.
  insert_by : A → List A → List A
  insert_by x [] = x ∷ []
  insert_by x (y ∷ ys) =
      let rest = insert_by x ys in if leb (key x) (key y) then x ∷ y ∷ ys else y ∷ rest

  unfoldable pub sort_by : List A → List A
  unfolding insert_by
  sort_by [] = []
  sort_by (x ∷ xs) = insert_by x (sort_by xs)

  length-insert_by : (x : A) (ys : List A) → length (insert_by x ys) ≡ suc (length ys)
  unfolding insert_by
  length-insert_by x [] = refl
  length-insert_by x (y ∷ ys) = ground (arith, length-insert_by x ys)

  pub length-sort_by : (xs : List A) → length (sort_by xs) ≡ length xs
  unfolding sort_by
  length-sort_by [] = refl
  length-sort_by (x ∷ xs) = omega (arith, length-insert_by x (sort_by xs), length-sort_by xs)

  All-insert_by {κ} :
      (P : A → Type κ) (x : A) (ys : List A) → P x → All P ys → All P (insert_by x ys)
  unfolding insert_by
  All-insert_by P x [] hx h = (hx, tt)
  All-insert_by P x (y ∷ ys) hx h = elim (Bool-cases (leb (key x) (key y))) [
    | inl t ↦ rw t (hx, h)
    | inr t ↦ rw t (h.0, All-insert_by P x ys hx h.1)
  ]

  pub All-sort_by {κ} : (P : A → Type κ) (xs : List A) → All P xs → All P (sort_by xs)
  unfolding sort_by
  All-sort_by P [] h = tt
  All-sort_by P (x ∷ xs) h = All-insert_by P x (sort_by xs) h.0 (All-sort_by P xs h.1)

  -- In ascending order of the key.
  abbrev pub Ascending : List A → Type 0
  Ascending [] = Unit {0}
  Ascending (x ∷ xs) = All (λ y. key x ≤ key y) xs × Ascending xs

  insert_by-Ascending : (x : A) (ys : List A) → Ascending ys → Ascending (insert_by x ys)
  unfolding insert_by
  insert_by-Ascending x [] h = (tt, tt)
  insert_by-Ascending x (y ∷ ys) h = elim (Bool-cases (leb (key x) (key y))) [
    | inl t ↦ rw t ((ground arith, All-map _ _ ys (λ z k. le_trans (ground arith) k) h.0), h)
    | inr t ↦
        rw t
          (All-insert_by (λ z. key y ≤ key z) x ys (ground arith) h.0, insert_by-Ascending x ys h.1)
  ]

  pub sort_by-Ascending : (xs : List A) → Ascending (sort_by xs)
  unfolding sort_by
  sort_by-Ascending [] = tt
  sort_by-Ascending (x ∷ xs) = insert_by-Ascending x (sort_by xs) (sort_by-Ascending xs)

  insert_by-perm : (x : A) (ys : List A) → Perm (insert_by x ys) (x ∷ ys)
  unfolding insert_by
  insert_by-perm x [] = Perm.rfl
  insert_by-perm x (y ∷ ys) = elim (Bool-cases (leb (key x) (key y))) [
    | inl t ↦ rw t Perm.rfl
    | inr t ↦ rw t (Perm.trans (Perm.cons y (insert_by-perm x ys)) (Perm.swap x y ys))
  ]

  pub sort_by-perm : (xs : List A) → Perm (sort_by xs) xs
  unfolding sort_by
  sort_by-perm [] = Perm.rfl
  sort_by-perm (x ∷ xs) = Perm.trans (insert_by-perm x (sort_by xs)) (Perm.cons x (sort_by-perm xs))

  insert_by-first : (x : A) (ys : List A) → All (λ y. key x ≤ key y) ys → insert_by x ys ≡ x ∷ ys
  unfolding insert_by
  insert_by-first x [] h = refl
  insert_by-first x (y ∷ ys) h = ground (arith, h.0)

  -- A list in ascending order stays as it is.
  pub sort_by_kept : (xs : List A) → Ascending xs → sort_by xs ≡ xs
  unfolding sort_by
  sort_by_kept [] h = refl
  sort_by_kept (x ∷ xs) h = ap (insert_by x) (sort_by_kept xs h.1) ∙ insert_by-first x xs h.0

  pub select-Ascending : (p : A → Bool) (xs : List A) → Ascending xs → Ascending (select p xs)
  unfolding select
  select-Ascending p [] h = tt
  select-Ascending p (x ∷ xs) h = elim (Bool-cases (p x)) [
    | inl t ↦ rw t (All-select_of (λ y. key x ≤ key y) p xs h.0, select-Ascending p xs h.1)
    | inr t ↦ rw t (select-Ascending p xs h.1)
  ]

  -- Elements no earlier than all before them, in ascending order, go behind.
  pub append-Ascending :
      (xs ys : List A)
      → Ascending xs
      → Ascending ys
      → All (λ x. All (λ y. key x ≤ key y) ys) xs
      → Ascending (xs ++ ys)
  append-Ascending [] ys h k j = k
  append-Ascending (x ∷ xs) ys h k j =
      (All-append (λ y. key x ≤ key y) xs ys h.0 j.0, append-Ascending xs ys h.1 k j.1)

  -- A stable sort and a selection commute.
  select-insert_by_out :
      (p : A → Bool) (x : A) (ys : List A) → p x ≡ false → select p (insert_by x ys) ≡ select p ys
  unfolding insert_by select
  select-insert_by_out p x [] f = rw f refl
  select-insert_by_out p x (y ∷ ys) f = elim (Bool-cases (leb (key x) (key y))) [
    | inl t ↦ rw (t, f) refl
    | inr t ↦ rw t (ap (λ zs. if p y then y ∷ zs else zs) (select-insert_by_out p x ys f))
  ]

  select-insert_by_in :
      (p : A → Bool) (x : A) (ys : List A)
      → p x ≡ true
      → Ascending ys
      → select p (insert_by x ys) ≡ insert_by x (select p ys)
  unfolding insert_by select
  select-insert_by_in p x [] t h = rw t refl
  select-insert_by_in p x (y ∷ ys) t h = elim (Bool-cases (leb (key x) (key y))) [
    | inl le ↦
        rw (le, t)
          (sym (
            insert_by-first x (select p (y ∷ ys)) (
              All-select_of (λ z. key x ≤ key z) p (y ∷ ys)
                (ground (arith, le), All-map _ _ ys (λ z k. le_trans (ground (arith, le)) k) h.0))))
    | inr gt ↦ rw gt (elim (Bool-cases (p y)) [
      | inl own ↦ rw (own, gt) (ap (λ zs. y ∷ zs) (select-insert_by_in p x ys t h.1))
      | inr other ↦ rw other (select-insert_by_in p x ys t h.1)
    ])
  ]

  pub sort_by-select : (p : A → Bool) (xs : List A) → sort_by (select p xs) ≡ select p (sort_by xs)
  unfolding sort_by select
  sort_by-select p [] = refl
  sort_by-select p (x ∷ xs) = elim (Bool-cases (p x)) [
    | inl t ↦ rw t (
        ap (insert_by x) (sort_by-select p xs)
        ∙ sym (select-insert_by_in p x (sort_by xs) t (sort_by-Ascending xs)))
    | inr f ↦ rw f (sort_by-select p xs ∙ sym (select-insert_by_out p x (sort_by xs) f))
  ]

  insert_by-map :
      (f : A → A) (x : A) (ys : List A)
      → ((y : A) → key (f y) ≡ key y)
      → insert_by (f x) (map f ys) ≡ map f (insert_by x ys)
  unfolding insert_by
  insert_by-map f x [] keep = refl
  insert_by-map f x (y ∷ ys) keep = elim (Bool-cases (leb (key x) (key y))) [
    | inl t ↦ rw (keep x, keep y, t) refl
    | inr t ↦ rw (keep x, keep y, t) (ap (λ zs. f y ∷ zs) (insert_by-map f x ys keep))
  ]

  -- A change that keeps the key keeps the order.
  pub sort_by-map :
      (f : A → A) (xs : List A)
      → ((y : A) → key (f y) ≡ key y)
      → sort_by (map f xs) ≡ map f (sort_by xs)
  unfolding sort_by
  sort_by-map f [] keep = refl
  sort_by-map f (x ∷ xs) keep =
      ap (insert_by (f x)) (sort_by-map f xs keep) ∙ insert_by-map f x (sort_by xs) keep

  insert_by-IsUnique :
      (same : A → A → Bool) (x : A) (ys : List A)
      → ((a b : A) → same a b ≡ same b a)
      → All (λ y. same x y ≡ false) ys
      → IsUnique same ys
      → IsUnique same (insert_by x ys)
  unfolding insert_by
  insert_by-IsUnique same x [] both apart u = (tt, tt)
  insert_by-IsUnique same x (y ∷ ys) both apart u = elim (Bool-cases (leb (key x) (key y))) [
    | inl t ↦ rw t (apart, u)
    | inr t ↦ rw t (
      All-insert_by (λ z. same y z ≡ false) x ys (both y x ∙ apart.0) u.0,
      insert_by-IsUnique same x ys both apart.1 u.1,
    )
  ]

  pub sort_by-IsUnique :
      (same : A → A → Bool) (xs : List A)
      → ((a b : A) → same a b ≡ same b a)
      → IsUnique same xs
      → IsUnique same (sort_by xs)
  unfolding sort_by
  sort_by-IsUnique same [] both u = tt
  sort_by-IsUnique same (x ∷ xs) both u =
      insert_by-IsUnique same x (sort_by xs) both (All-sort_by (λ y. same x y ≡ false) xs u.0)
        (sort_by-IsUnique same xs both u.1)
