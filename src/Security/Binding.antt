-- ===== src/Security/Binding.antt =====
-- canonical_request_claims of security/actor_signature.py: the text that is signed determines the
-- claims.
use production_support_agent.Security.Claims.{
  canonical_request_claims, Platform, RequestClaims, newline, claim_lines, canonical_csv,
}
use production_support_agent.Prelude.{
  ◌≡◌, refl, sym, ap, ◌∙◌, nat_eq, string_eq, ℕ, zero, suc, String, List, [], ◌∷◌, ◌↔◌, All, Lacks,
  split-join, split,
}

-- What a signature binds: two requests agree in it.
abbrev pub AgreeInClaims : Platform → RequestClaims → RequestClaims → Type 0
AgreeInClaims platform a b =
    (a.tenant_id ≡ b.tenant_id)
    × (a.user_id ≡ b.user_id)
    × (canonical_csv a.roles_header "user" ≡ canonical_csv b.roles_header "user")
    × (canonical_csv a.scopes_header "" ≡ canonical_csv b.scopes_header "")
    × (a.timestamp ≡ b.timestamp)
    × (a.nonce ≡ b.nonce)
    × (platform.upper a.method ≡ platform.upper b.method)
    × (a.path ≡ b.path)
    × (a.body_hash ≡ b.body_hash)

-- The element at a place, or a default.
line_at : String → List String → ℕ → String
line_at d [] i = d
line_at d (x ∷ xs) zero = x
line_at d (x ∷ xs) (suc i) = line_at d xs i

lines-AgreeInClaims :
    (platform : Platform) (a b : RequestClaims)
    → claim_lines platform a ≡ claim_lines platform b
    → AgreeInClaims platform a b
unfolding line_at
lines-AgreeInClaims platform a b same =
    let at : (i : ℕ)
        → line_at "" (claim_lines platform a) i ≡ line_at "" (claim_lines platform b) i =
      λ i. ap (λ xs. line_at "" xs i) same in
    (at 1, at 2, at 3, at 4, at 5, at 6, at 7, at 8, at 9)

-- When no line of the claims of two requests has a line break, their canonical texts are the same only
-- if the tenant, the user, the canonical roles and scopes, the timestamp, the nonce, the method in upper
-- case, the path and the hash of the body all are, and then they are the same.
pub claims-binding :
    (platform : Platform) (a b : RequestClaims)
    → All (Lacks newline) (claim_lines platform a)
    → All (Lacks newline) (claim_lines platform b)
    → (canonical_request_claims platform a ≡ canonical_request_claims platform b)
      ↔ AgreeInClaims platform a b
unfolding canonical_request_claims
claims-binding platform a b one two = (
  λ same. lines-AgreeInClaims platform a b (
      sym (split-join newline "v1" _ one)
      ∙ ap (split newline) same
      ∙ split-join newline "v1" _ two),
  λ (tenant, user, roles, scopes, time, nonce, method, path, body).
      rw (tenant, user, roles, scopes, time, nonce, method, path, body) refl,
)
