-- ===== src/Prelude/Table.antt =====
-- An SQL table as the list of its rows in rowid order, with the statements that the store uses.
use mathlib.Core.Path.{◌≡◌, refl, sym, ap, subst, ◌∙◌}
use mathlib.Core.Logic.{◌≢◌, inl, inr}
use mathlib.Core.Bool.{Bool, true, false, false≢true, ◌||◌}
use mathlib.Core.Option
use mathlib.Core.Option.{Option, none, some}
use mathlib.Core.List.{List, [], ◌∷◌, ◌++◌}
use native.Mathlib.Omega.{arith}
use production_support_agent.Prelude.Tests.{string_eq, if◌then◌else◌, Bool-cases, Option-cases}
use production_support_agent.Prelude.Lists.{All, All-append, All-map, All-zip}

module _ {ℓ} {A : Type ℓ} where
  -- `select * from t where p limit 1`, or `dict.get`
  unfoldable pub find : (A → Bool) → List A → Option A
  find p [] = none
  find p (x ∷ xs) = let rest = find p xs in if p x then some x else rest

  -- `update t set f where p`
  unfoldable pub update_where : (A → Bool) → (A → A) → List A → List A
  update_where p f [] = []
  update_where p f (x ∷ xs) = (if p x then f x else x) ∷ update_where p f xs

  -- `delete from t where p`
  unfoldable pub delete_where : (A → Bool) → List A → List A
  delete_where p [] = []
  delete_where p (x ∷ xs) = let rest = delete_where p xs in if p x then rest else x ∷ rest

  pub find-true : (p : A → Bool) (xs : List A) (x : A) → find p xs ≡ some x → p x ≡ true
  unfolding find
  find-true p [] x h = ground arith
  find-true p (y ∷ xs) x h = ground (arith, find-true p xs x)

  pub All-find {κ} :
      (P : A → Type κ) (p : A → Bool) (xs : List A) (x : A) → All P xs → find p xs ≡ some x → P x
  unfolding find
  All-find P p [] x h e = absurd (ground arith)
  All-find P p (y ∷ xs) x h e = elim (Bool-cases (p y)) [
    | inl t ↦ subst P (ground arith) h.0
    | inr t ↦ All-find P p xs x h.1 (ground arith)
  ]

  pub find-append_none :
      (p : A → Bool) (xs ys : List A) → find p xs ≡ none → find p (xs ++ ys) ≡ find p ys
  unfolding find
  find-append_none p [] ys h = refl
  find-append_none p (x ∷ xs) ys h = ground (arith, find-append_none p xs ys)

  pub find-append_some :
      (p : A → Bool) (xs ys : List A) (x : A) → find p xs ≡ some x → find p (xs ++ ys) ≡ some x
  unfolding find
  find-append_some p [] ys x h = ground arith
  find-append_some p (y ∷ xs) ys x h = ground (arith, find-append_some p xs ys x)

  -- What `update_where` makes of one row.
  abbrev pub updated : (A → Bool) → (A → A) → A → A
  updated p f x = if p x then f x else x

  -- An update that keeps the columns of another statement's `where` clause.
  pub find-update_where :
      (q p : A → Bool) (f : A → A) (xs : List A)
      → ((x : A) → q (f x) ≡ q x)
      → find q (update_where p f xs) ≡ Option.map (updated p f) (find q xs)
  unfolding find update_where
  find-update_where q p f [] keep = refl
  find-update_where q p f (x ∷ xs) keep = ground (arith, keep x, find-update_where q p f xs keep)

  pub All-update_where {κ} :
      (P : A → Type κ) (p : A → Bool) (f : A → A) (xs : List A)
      → ((x : A) → p x ≡ true → P x → P (f x))
      → All P xs
      → All P (update_where p f xs)
  unfolding update_where
  All-update_where P p f [] step h = tt
  All-update_where P p f (x ∷ xs) step h = elim (Bool-cases (p x)) [
    | inl t ↦ rw t (step x t h.0, All-update_where P p f xs step h.1)
    | inr t ↦ rw t (h.0, All-update_where P p f xs step h.1)
  ]

  pub All-delete_where {κ} :
      (P : A → Type κ) (p : A → Bool) (xs : List A) → All P xs → All P (delete_where p xs)
  unfolding delete_where
  All-delete_where P p [] h = tt
  All-delete_where P p (x ∷ xs) h = elim (Bool-cases (p x)) [
    | inl t ↦ rw t (All-delete_where P p xs h.1)
    | inr t ↦ rw t (h.0, All-delete_where P p xs h.1)
  ]

  pub find-delete_where_self : (p : A → Bool) (xs : List A) → find p (delete_where p xs) ≡ none
  unfolding find delete_where
  find-delete_where_self p [] = refl
  find-delete_where_self p (x ∷ xs) = ground (arith, find-delete_where_self p xs)

  -- The rows that two statements cannot both select are untouched by a delete.
  pub find-delete_where :
      (q p : A → Bool) (xs : List A)
      → ((x : A) → q x ≡ true → p x ≡ false)
      → find q (delete_where p xs) ≡ find q xs
  unfolding find delete_where
  find-delete_where q p [] apart = refl
  find-delete_where q p (x ∷ xs) apart = ground (arith, apart x, find-delete_where q p xs apart)

  -- A `unique` constraint: `same` compares the columns of the key.
  abbrev pub IsUnique : (A → A → Bool) → List A → Type 0
  IsUnique same [] = Unit {0}
  IsUnique same (x ∷ xs) = All (λ y. same x y ≡ false) xs × IsUnique same xs

  pub All-find-none : (p : A → Bool) (xs : List A) → find p xs ≡ none → All (λ x. p x ≡ false) xs
  unfolding find
  All-find-none p [] h = tt
  All-find-none p (x ∷ xs) h = elim (Bool-cases (p x)) [
    | inl t ↦ absurd (ground arith)
    | inr t ↦ (t, All-find-none p xs (ground arith))
  ]

  pub IsUnique-append :
      (same : A → A → Bool) (xs : List A) (y : A)
      → IsUnique same xs
      → All (λ x. same x y ≡ false) xs
      → IsUnique same (xs ++ y ∷ [])
  IsUnique-append same [] y u h = (tt, tt)
  IsUnique-append same (x ∷ xs) y u h = (
    All-append (λ z. same x z ≡ false) xs (y ∷ []) u.0 (h.0, tt),
    IsUnique-append same xs y u.1 h.1,
  )

  same-update_where :
      (same : A → A → Bool) (p : A → Bool) (f : A → A) (x : A) (xs : List A)
      → ((a b : A) → same a (f b) ≡ same a b)
      → All (λ y. same x y ≡ false) xs
      → All (λ y. same x y ≡ false) (update_where p f xs)
  same-update_where same p f x xs keep =
      All-update_where (λ y. same x y ≡ false) p f xs (λ y _ h. keep x y ∙ h)

  pub IsUnique-update_where :
      (same : A → A → Bool) (p : A → Bool) (f : A → A) (xs : List A)
      → ((a b : A) → same (f a) b ≡ same a b)
      → ((a b : A) → same a (f b) ≡ same a b)
      → IsUnique same xs
      → IsUnique same (update_where p f xs)
  unfolding update_where
  IsUnique-update_where same p f [] kl kr u = tt
  IsUnique-update_where same p f (x ∷ xs) kl kr u = elim (Bool-cases (p x)) [
    | inl t ↦ rw t (
      All-map _ _ (update_where p f xs) (λ y h. kl x y ∙ h)
          (same-update_where same p f x xs kr u.0),
      IsUnique-update_where same p f xs kl kr u.1,
    )
    | inr t ↦
        rw t (same-update_where same p f x xs kr u.0, IsUnique-update_where same p f xs kl kr u.1)
  ]

  pub IsUnique-delete_where :
      (same : A → A → Bool) (p : A → Bool) (xs : List A)
      → IsUnique same xs
      → IsUnique same (delete_where p xs)
  unfolding delete_where
  IsUnique-delete_where same p [] u = tt
  IsUnique-delete_where same p (x ∷ xs) u = elim (Bool-cases (p x)) [
    | inl t ↦ rw t (IsUnique-delete_where same p xs u.1)
    | inr t ↦
        rw t
          (All-delete_where (λ y. same x y ≡ false) p xs u.0, IsUnique-delete_where same p xs u.1)
  ]

  -- Under a key, a statement that selects by the key finds the one row that it selects.
  pub All-only_found :
      (same : A → A → Bool) (p : A → Bool) (xs : List A) (x : A)
      → ((a b : A) → p a ≡ true → p b ≡ true → same a b ≡ true)
      → IsUnique same xs
      → find p xs ≡ some x
      → All (λ y. p y ≡ true → y ≡ x) xs
  unfolding find
  All-only_found same p [] x by u e = tt
  All-only_found same p (y ∷ xs) x by u e = elim (Bool-cases (p y)) [
    | inl t ↦ (
      λ _. ground arith,
      All-map _ _ xs (λ z apart h. absurd (false≢true (sym apart ∙ by y z t h))) u.0,
    )
    | inr t ↦
        (λ h. absurd (false≢true (sym t ∙ h)), All-only_found same p xs x by u.1 (ground arith))
  ]

  -- A row that one test finds is found by another that it passes, where the other picks one row.
  pub find-only_passes :
      (same : A → A → Bool) (p q : A → Bool) (xs : List A) (x : A)
      → ((a b : A) → q a ≡ true → q b ≡ true → same a b ≡ true)
      → IsUnique same xs
      → find p xs ≡ some x
      → q x ≡ true
      → find q xs ≡ some x
  find-only_passes same p q xs x by u e passes = elim (Option-cases (find q xs)) [
    | inl missing ↦ absurd (
        false≢true
          (sym (All-find (λ y. q y ≡ false) p xs x (All-find-none q xs missing) e) ∙ passes))
    | inr (y, found) ↦
        found
        ∙ ap some (
            sym (
              All-find (λ z. q z ≡ true → z ≡ y) p xs x (All-only_found same q xs y by u found) e
                passes))
  ]

  -- An update of rows of which something is known.
  pub All-update_where_at {κ} :
      (P : A → Type κ) (p : A → Bool) (f : A → A) (xs : List A)
      → All (λ x. p x ≡ true → P x → P (f x)) xs
      → All P xs
      → All P (update_where p f xs)
  unfolding update_where
  All-update_where_at P p f [] step h = tt
  All-update_where_at P p f (x ∷ xs) step h = elim (Bool-cases (p x)) [
    | inl t ↦ rw t (step.0 t h.0, All-update_where_at P p f xs step.1 h.1)
    | inr t ↦ rw t (h.0, All-update_where_at P p f xs step.1 h.1)
  ]

  pub All-updated {κ} :
      (P : A → Type κ) (p : A → Bool) (f : A → A) (xs : List A)
      → ((x : A) → P (updated p f x))
      → All P (update_where p f xs)
  unfolding update_where
  All-updated P p f [] h = tt
  All-updated P p f (x ∷ xs) h = (h x, All-updated P p f xs h)

  -- Under a key, two rows that share it are one.
  pub All-unique :
      (same : A → A → Bool) (xs : List A)
      → ((a b : A) → same a b ≡ true → same b a ≡ true)
      → IsUnique same xs
      → All (λ d. All (λ x. same x d ≡ true → x ≡ d) xs) xs
  All-unique same [] swap u = tt
  All-unique same (y ∷ xs) swap u = (
    (λ _. refl, All-map _ _ xs (λ x apart h. absurd (false≢true (sym apart ∙ swap x y h))) u.0),
    All-map _ _ xs (λ d h. (λ k. absurd (false≢true (sym h.0 ∙ k)), h.1))
        (All-zip _ _ xs u.0 (All-unique same xs swap u.1)),
  )

  pub find_congr : (p q : A → Bool) (xs : List A) → ((x : A) → p x ≡ q x) → find p xs ≡ find q xs
  unfolding find
  find_congr p q [] same = refl
  find_congr p q (x ∷ xs) same = ground (arith, same x, find_congr p q xs same)

  pub find-or_right :
      (p q : A → Bool) (xs : List A) (y : A) → find q xs ≡ some y → find (λ x. p x || q x) xs ≢ none
  unfolding find
  find-or_right p q [] y e n = ground arith
  find-or_right p q (x ∷ xs) y e n = ground (arith, find-or_right p q xs y)

  pub find-or_none :
      (p q : A → Bool) (xs : List A) → find (λ x. p x || q x) xs ≡ none → find q xs ≡ none
  unfolding find
  find-or_none p q [] n = refl
  find-or_none p q (x ∷ xs) n = ground (arith, find-or_none p q xs)

  pub find-none : (p : A → Bool) (xs : List A) → All (λ x. p x ≡ false) xs → find p xs ≡ none
  unfolding find
  find-none p [] h = refl
  find-none p (x ∷ xs) h = ground (arith, find-none p xs h.1)

  -- Under a key, a delete by the key and more deletes the one row or keeps it.
  pub find-delete_where_unique :
      (same : A → A → Bool) (q p : A → Bool) (xs : List A) (r : A)
      → ((a b : A) → q a ≡ true → q b ≡ true → same a b ≡ true)
      → IsUnique same xs
      → find q xs ≡ some r
      → find q (delete_where p xs) ≡ (if p r then none else some r)
  unfolding find delete_where
  find-delete_where_unique same q p [] r by u e = ground arith
  find-delete_where_unique same q p (x ∷ xs) r by u e = elim (Bool-cases (q x)) [
    | inl t ↦
        let others : All (λ y. q y ≡ false) xs =
          All-map _ _ xs (λ y apart. not_both y apart t) u.0 in
        ground
          (arith, find-none q (delete_where p xs) (All-delete_where (λ y. q y ≡ false) p xs others))
    | inr t ↦ ground (arith, find-delete_where_unique same q p xs r by u.1)
  ]
    where
      not_both : (y : A) → same x y ≡ false → q x ≡ true → q y ≡ false
      not_both y apart t = elim (Bool-cases (q y)) [
        | inl h ↦ absurd (false≢true (sym apart ∙ by x y t h))
        | inr h ↦ h
      ]
