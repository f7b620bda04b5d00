-- ===== src/Prelude/Tests.antt =====
-- Boolean tests on native numbers and texts, and the conditional.
use Prim.Native.Nat.{ℕ, compare, Ordering}
use Prim.Native.String.{String}
use mathlib.Core.Path.{◌≡◌, refl}
use mathlib.Core.Logic.{◌⊎◌, inl, inr, ◌↔◌}
use mathlib.Core.Bool.{false≢true, Bool, true, false}
use mathlib.Core.Option.{Option, none, some}
use native.Mathlib.Omega.{arith}
use text.Mathlib.Text.{◌==◌ as str_eq}
use text.Mathlib.TextEquality.{eq_iff}

abbrev pub ltb : ℕ → ℕ → Bool
ltb a b = elim (compare a b) [ Ordering.lt ↦ true | _ ↦ false ]

abbrev pub leb : ℕ → ℕ → Bool
leb a b = elim (compare a b) [ Ordering.gt ↦ false | _ ↦ true ]

infix 1 if◌then◌else◌
abbrev pub if◌then◌else◌ {ℓ} : {A : Type ℓ} → Bool → A → A → A
if true then x else y = x
if false then x else y = y

-- Python's `==` on the scalars and enumerations; SQL's on two columns that are not null.
pub record Comparable {ℓ} (V : Type ℓ) : Type ℓ where
  pub equals : V → V → Bool
  pub equals_iff : (u v : V) → (equals u v ≡ true) ↔ (u ≡ v)

infix 50 ◌==◌
abbrev pub ◌==◌ {ℓ} : {V : Type ℓ} ⦃c : Comparable V⦄ → V → V → Bool
◌==◌ ⦃c⦄ u v = c.equals u v

abbrev same_number : ℕ → ℕ → Bool
same_number m n = elim (compare m n) [ Ordering.eq ↦ true | _ ↦ false ]

pub same_number_iff : (m n : ℕ) → (same_number m n ≡ true) ↔ (m ≡ n)
same_number_iff m n = (λ h. ground arith, λ h. ground arith)

instance abbrev pub nat_eq : Comparable ℕ
nat_eq = record { equals_iff = same_number_iff; equals = same_number }

instance abbrev pub string_eq : Comparable String
string_eq = record { equals_iff = eq_iff; equals = str_eq }

-- To split on a computed value and keep the equation.
pub Bool-cases : (b : Bool) → (b ≡ true) ⊎ (b ≡ false)
Bool-cases true = inl refl
Bool-cases false = inr refl

pub Option-cases {ℓ} : {A : Type ℓ} (o : Option A) → (o ≡ none) ⊎ ((a : A) × (o ≡ some a))
Option-cases none = inl refl
Option-cases (some a) = inr (a, refl)

abbrev pub is_some {ℓ} : {A : Type ℓ} → Option A → Bool
is_some none = false
is_some (some a) = true

-- `a or b` where `a` may be absent; SQL's `coalesce(a, b)`.
abbrev pub or_else {ℓ} : {A : Type ℓ} → Option A → Option A → Option A
or_else none b = b
or_else (some a) b = some a

-- `d if o is None else o`
abbrev pub value_or {ℓ} : {A : Type ℓ} → Option A → A → A
value_or none d = d
value_or (some a) d = a

pub value_or-some {ℓ} :
    {A : Type ℓ} (o : Option A) (d : A) → is_some o ≡ true → o ≡ some (value_or o d)
value_or-some none d h = absurd (false≢true h)
value_or-some (some a) d h = refl
