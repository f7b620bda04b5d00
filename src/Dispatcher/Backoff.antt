-- ===== src/Dispatcher/Backoff.antt =====
-- The delay before a retry grows with the attempts, doubles each time and never passes its cap.
use production_support_agent.Dispatcher.Webhook.{delivery_backoff_seconds}
use native.Mathlib.Nat.{pow-le-pow_right, pow-suc, mul-le-mul_left}
use production_support_agent.Prelude.{
  ℕ, zero, suc, ◌+◌, ◌-◌, ◌*◌, ◌^◌, ◌≤◌, ◌<◌, ◌≡◌, min, arith, ◌≤◌, ◌<◌, ◌≡◌, min, ◌+◌, ◌*◌, ◌^◌,
  ◌-◌, suc, ap, ◌∙◌,
}

-- The first attempt is no special case: the delay is base * 2^(n - 1), capped.
backoff_formula :
    (n base ceiling : ℕ)
    → delivery_backoff_seconds n base ceiling ≡ min (base * 2 ^ (n - 1)) ceiling
unfolding delivery_backoff_seconds
backoff_formula zero base ceiling = ground arith
backoff_formula (suc zero) base ceiling = ground arith
backoff_formula (suc (suc n)) base ceiling = ground arith

min_mono : (a b ceiling : ℕ) → a ≤ b → min a ceiling ≤ min b ceiling
min_mono a b ceiling h = omega arith

doubled : (m base : ℕ) → 0 < m → base * 2 ^ (m + 1 - 1) ≡ 2 * (base * 2 ^ (m - 1))
doubled zero base pos = absurd (omega arith)
doubled (suc m) base pos =
    ap (λ k. base * 2 ^ k) (exponent m)
    ∙ ap (λ k. base * k) (pow-suc 2 m)
    ∙ grind (arith, ap (λ k. base * 2 ^ k) (predecessor m))
  where
    exponent : (m : ℕ) → suc m + 1 - 1 ≡ suc m
    exponent m = omega arith

    predecessor : (m : ℕ) → suc m - 1 ≡ m
    predecessor m = omega arith

-- More attempts never wait a shorter time, every delay is at most the cap, and while the cap is not
-- reached one more attempt doubles the delay.
pub backoff_laws :
    (m n base ceiling : ℕ)
    → 0 < m
    → m ≤ n
    → (delivery_backoff_seconds m base ceiling ≤ delivery_backoff_seconds n base ceiling)
      × (delivery_backoff_seconds n base ceiling ≤ ceiling)
      × (delivery_backoff_seconds (m + 1) base ceiling ≡ min (2 * (base * 2 ^ (m - 1))) ceiling)
backoff_laws m n base ceiling pos h = (
  rw (backoff_formula m base ceiling, backoff_formula n base ceiling)
      (min_mono _ _ ceiling
        (mul-le-mul_left base (pow-le-pow_right {n = 2} (omega arith) (omega arith)))),
  rw (backoff_formula n base ceiling) (omega arith),
  rw (backoff_formula (m + 1) base ceiling) (ap (λ k. min k ceiling) (doubled m base pos)),
)
