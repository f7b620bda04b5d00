-- ===== src/Prelude/Lists.antt =====
-- Lists over the native numbers, and predicates on lists by recursion.
use Prim.Native.Nat.{ℕ, zero, suc, ◌+◌, ◌-◌, ◌≤◌}
use mathlib.Core.Bool.{Bool, true, false}
use mathlib.Core.List.{List, [], ◌∷◌, ◌++◌}
use native.Mathlib.Omega.{arith}
use mathlib.Core.Path.{◌≡◌, refl}
use mathlib.Core.Logic.{inl, inr}
use mathlib.Core.List.{map}
use production_support_agent.Prelude.Tests.{if◌then◌else◌, Bool-cases}

module _ {ℓ} {A : Type ℓ} where
  abbrev pub length : List A → ℕ
  length [] = 0
  length (x ∷ xs) = suc (length xs)

  abbrev pub take : ℕ → List A → List A
  take zero xs = []
  take (suc n) [] = []
  take (suc n) (x ∷ xs) = x ∷ take n xs

  -- `[x for x in xs if p(x)]`; the rows that a `where` clause selects.
  unfoldable pub select : (A → Bool) → List A → List A
  select p [] = []
  select p (x ∷ xs) = let rest = select p xs in if p x then x ∷ rest else rest

  -- `any(p(x) for x in xs)`
  unfoldable pub any : (A → Bool) → List A → Bool
  any p [] = false
  any p (x ∷ xs) = let rest = any p xs in if p x then true else rest

  pub length-append : (xs ys : List A) → length (xs ++ ys) ≡ length xs + length ys
  length-append [] ys = omega arith
  length-append (x ∷ xs) ys = omega (arith, length-append xs ys)

  pub length-take-le : (n : ℕ) (xs : List A) → length (take n xs) ≤ n
  length-take-le zero xs = omega arith
  length-take-le (suc n) [] = omega arith
  length-take-le (suc n) (x ∷ xs) = omega (arith, length-take-le n xs)

  abbrev pub All {κ} : (A → Type κ) → List A → Type κ
  All P [] = Unit
  All P (x ∷ xs) = P x × All P xs

  pub All-append {κ} :
      (Q : A → Type κ) (front back : List A) → All Q front → All Q back → All Q (front ++ back)
  All-append Q [] back _ after = after
  All-append Q (a ∷ front) back before after = (before.0, All-append Q front back before.1 after)

  pub All-take {κ} : (P : A → Type κ) (n : ℕ) (xs : List A) → All P xs → All P (take n xs)
  All-take P zero xs h = tt
  All-take P (suc n) [] h = tt
  All-take P (suc n) (x ∷ xs) h = (h.0, All-take P n xs h.1)

  pub All-map {κ ν} :
      (P : A → Type κ) (Q : A → Type ν) (xs : List A) → ((x : A) → P x → Q x) → All P xs → All Q xs
  All-map P Q [] f h = tt
  All-map P Q (x ∷ xs) f h = (f x h.0, All-map P Q xs f h.1)

  pub All-select : (p : A → Bool) (xs : List A) → All (λ x. p x ≡ true) (select p xs)
  unfolding select
  All-select p [] = tt
  All-select p (x ∷ xs) = elim (Bool-cases (p x)) [
    | inl t ↦ rw t (t, All-select p xs)
    | inr t ↦ rw t (All-select p xs)
  ]

  pub All-select_of {κ} :
      (P : A → Type κ) (p : A → Bool) (xs : List A) → All P xs → All P (select p xs)
  unfolding select
  All-select_of P p [] h = tt
  All-select_of P p (x ∷ xs) h = elim (Bool-cases (p x)) [
    | inl t ↦ rw t (h.0, All-select_of P p xs h.1)
    | inr t ↦ rw t (All-select_of P p xs h.1)
  ]

  -- From a fact about every row to one about the rows that a test selects.
  pub All-select_map {κ} :
      (P : A → Type κ) (p : A → Bool) (xs : List A)
      → All (λ x. p x ≡ true → P x) xs
      → All P (select p xs)
  unfolding select
  All-select_map P p [] h = tt
  All-select_map P p (x ∷ xs) h = elim (Bool-cases (p x)) [
    | inl t ↦ rw t (h.0 t, All-select_map P p xs h.1)
    | inr t ↦ rw t (All-select_map P p xs h.1)
  ]

  pub All-zip {κ ν} :
      (P : A → Type κ) (Q : A → Type ν) (xs : List A)
      → All P xs
      → All Q xs
      → All (λ x. P x × Q x) xs
  All-zip P Q [] h k = tt
  All-zip P Q (x ∷ xs) h k = ((h.0, k.0), All-zip P Q xs h.1 k.1)

  pub All-intro {κ} : (P : A → Type κ) (xs : List A) → ((x : A) → P x) → All P xs
  All-intro P [] h = tt
  All-intro P (x ∷ xs) h = (h x, All-intro P xs h)

module _ {ℓ κ} {A : Type ℓ} {B : Type κ} where
  pub All-of_map {ν} :
      (P : B → Type ν) (f : A → B) (xs : List A) → All (λ x. P (f x)) xs → All P (map f xs)
  All-of_map P f [] h = tt
  All-of_map P f (x ∷ xs) h = (h.0, All-of_map P f xs h.1)

module _ {ℓ} {A : Type ℓ} where
  abbrev pub drop : ℕ → List A → List A
  drop zero xs = xs
  drop (suc n) [] = []
  drop (suc n) (x ∷ xs) = drop n xs

  -- `xs[-n:]`, which is the whole list when `n` is 0
  unfoldable pub last_elements : ℕ → List A → List A
  last_elements zero xs = xs
  last_elements (suc n) xs = drop (length xs - suc n) xs

  pub select-append :
      (p : A → Bool) (xs ys : List A) → select p (xs ++ ys) ≡ select p xs ++ select p ys
  unfolding select
  select-append p [] ys = refl
  select-append p (x ∷ xs) ys = ground (arith, select-append p xs ys)
