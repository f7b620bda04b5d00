-- ===== src/Prelude/Results.antt =====
-- Python's exceptions as values: a call returns, or raises an error of its component.
use mathlib.Core.Path.{◌≡◌, refl, ap}
use native.Mathlib.Omega.{arith}

pub data Result {ℓ κ} (E : Type ℓ) (A : Type κ) : Type (ℓ ⊔ κ) where
  ok : A → Result E A
  err : E → Result E A

module _ {ℓ κ ν} {E : Type ℓ} {A : Type κ} {B : Type ν} where
  infixl 5 ◌>>=◌
  -- The statements after a call that may raise.
  abbrev pub ◌>>=◌ : Result E A → (A → Result E B) → Result E B
  ◌>>=◌ (err raised) rest = err raised
  ◌>>=◌ (ok value) rest = rest value

  -- After a call that returns, the rest runs on its value.
  pub after-ok : {r : Result E A} {a : A} (f : A → Result E B) → r ≡ ok a → (r >>= f) ≡ f a
  after-ok f e = ap (λ r. r >>= f) e

  -- A sequence returns only if its first call does: what follows from that follows.
  pub bind-ok {μ} :
      {C : Type μ} (r : Result E A) (f : A → Result E B) (b : B)
      → (r >>= f) ≡ ok b
      → ((a : A) → r ≡ ok a → f a ≡ ok b → C)
      → C
  bind-ok (err raised) f b h next = absurd (ground (arith, h))
  bind-ok (ok a) f b h next = next a refl h
