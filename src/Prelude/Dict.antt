-- ===== src/Prelude/Dict.antt =====
-- Membership in a list, and Python's dictionaries with text keys.
use mathlib.Core.Path.{◌≡◌, refl, subst}
use mathlib.Core.Logic.{inl, inr}
use mathlib.Core.Bool.{Bool, true, false, false≢true}
use mathlib.Core.Option.{Option, none, some}
use mathlib.Core.List.{List, [], ◌∷◌}
use native.Mathlib.Omega.{arith}
use Prim.Native.String.{String}
use text.Mathlib.TextEquality.{eq_iff}
use production_support_agent.Prelude.Tests.{
  string_eq, Option-cases, if◌then◌else◌, Bool-cases, Comparable, ◌==◌,
}
use production_support_agent.Prelude.Lists.{All, All-map}
use production_support_agent.Prelude.Table.{
  find, delete_where, find-delete_where, find-delete_where_self, All-find,
}

-- `x in xs`
module _ {ℓ} {A : Type ℓ} ⦃by : Comparable A⦄ where
  unfoldable pub contains : List A → A → Bool
  contains [] a = false
  contains (x ∷ xs) a = let rest = contains xs a in if x == a then true else rest

  pub All-contains {κ} :
      (P : A → Type κ) (xs : List A) (a : A) → All P xs → contains xs a ≡ true → P a
  unfolding contains
  All-contains P [] a h c = absurd (false≢true c)
  All-contains P (x ∷ xs) a h c = elim (Bool-cases (x == a)) [
    | inl t ↦ subst P ((by.equals_iff x a).0 t) h.0
    | inr t ↦ All-contains P xs a h.1 (rw t at c)
  ]

  pub contains-All : (xs : List A) → All (λ x. contains xs x ≡ true) xs
  unfolding contains
  contains-All [] = tt
  contains-All (x ∷ xs) = (
    rw ((by.equals_iff x x).1 refl) refl,
    All-map _ _ xs (λ y h. ground (arith, h)) (contains-All xs),
  )

-- A `dict` with text keys as a list of pairs; the program never iterates over the dicts that are
-- modelled so, and their order is not modelled.
module _ {ℓ} {V : Type ℓ} where
  abbrev pub has_key : String → String × V → Bool
  has_key key entry = entry.0 == key

  -- `d.get(key)`
  unfoldable pub get_key : List (String × V) → String → Option V
  get_key d key = elim (find (has_key key) d) [ none ↦ none | some entry ↦ some entry.1 ]

  -- `d[key] = value`
  unfoldable pub put_key : List (String × V) → String → V → List (String × V)
  put_key d key value = (key, value) ∷ delete_where (has_key key) d

  -- `d.pop(key, None)`
  unfoldable pub pop_key : List (String × V) → String → List (String × V)
  pop_key d key = delete_where (has_key key) d

  find-pop :
      (d : List (String × V)) (key j : String)
      → find (has_key j) (delete_where (has_key key) d)
        ≡ (if key == j then none else find (has_key j) d)
  find-pop d key j = elim (Bool-cases (key == j)) [
    | inl e ↦ rw e (
        subst (λ i. find (has_key i) (delete_where (has_key key) d) ≡ none) ((eq_iff key j).0 e)
          (find-delete_where_self (has_key key) d))
    | inr e ↦ rw e (
        find-delete_where (has_key j) (has_key key) d
          (λ x h. ground (arith, eq_iff x.0 j, eq_iff x.0 key, eq_iff key j)))
  ]

  pub get_key-pop_key :
      (d : List (String × V)) (key j : String)
      → get_key (pop_key d key) j ≡ (if key == j then none else get_key d j)
  unfolding get_key pop_key
  get_key-pop_key d key j = ground (arith, find-pop d key j)

  pub get_key-put_key :
      (d : List (String × V)) (key j : String) (value : V)
      → get_key (put_key d key value) j ≡ (if key == j then some value else get_key d j)
  unfolding get_key put_key find
  get_key-put_key d key j value = ground (arith, find-pop d key j)

  pub All-get_key {κ} :
      (P : V → Type κ) (d : List (String × V)) (key : String) (value : V)
      → All (λ entry. P entry.1) d
      → get_key d key ≡ some value
      → P value
  unfolding get_key
  All-get_key P d key value h e = elim (Option-cases (find (has_key key) d)) [
    | inl n ↦ absurd (ground arith)
    | inr (entry, f) ↦
        subst P (ground arith) (All-find (λ entry. P entry.1) (has_key key) d entry h f)
  ]
