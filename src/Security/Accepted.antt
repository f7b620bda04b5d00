-- ===== src/Security/Accepted.antt =====
-- verify_request_signature of api/request_signature.py: what the signature of an accepted request covers.
use production_support_agent.Security.Checked.{verify-verified, header_text, issued}
use production_support_agent.Security.Claims.{
  Platform, newline, canonical_csv, text, signature_prefix, canonical_request_claims,
  sign_request_claims,
}
use production_support_agent.Security.Requests.{
  Settings, Request, VerifiedRequestSignature, verify_request_signature, verified_claims,
  path_with_query, age, second, expiry,
}
use production_support_agent.Prelude.{
  ℕ, ◌*◌, ◌≤◌, String, ◌≡◌, false, [], ◌∷◌, ok, if◌then◌else◌, is_blank, before, join, count,
  remove_prefix, ap, subst, nat_eq, string_eq,
}

module _ (platform : Platform) (settings : Settings) where
  -- The text that the signature of a request has to cover, for the body that came.
  abbrev pub covered_text : Request → String → String
  covered_text request body = join newline (
      "v1"
      ∷ settings.app_tenant_id
      ∷ header_text request.headers.actor_user_id
      ∷ canonical_csv (text (header_text request.headers.actor_roles)) "user"
      ∷ canonical_csv (text (header_text request.headers.actor_scopes)) ""
      ∷ header_text request.headers.actor_timestamp
      ∷ header_text request.headers.request_nonce
      ∷ platform.upper (platform.upper request.method)
      ∷ (if is_blank request.query
          then request.path
          else before request.path (before "?" request.query))
      ∷ platform.sha256 body
      ∷ [])

  -- A request that verify_request_signature accepts has a nonce of 16 characters or more and a time
  -- that is no further from the clock than the maximal age. Its signature, without the prefix, is the
  -- HMAC, with the secret of the settings, which is not empty, of the text that has, line by line, the
  -- tenant of the settings, the user, the canonical roles and scopes, the time and the nonce of its
  -- headers, its method in upper case, its path with the query, and the hash of the body that came. The
  -- result has that tenant, that user, that nonce, the hash of that text, and the expiry of that time.
  pub verify-checked :
      (now : ℕ) (request : Request) (body : String) (v : VerifiedRequestSignature)
      → verify_request_signature platform settings now request body ≡ ok v
      → (16 ≤ count (header_text request.headers.request_nonce))
        × (age now (issued platform settings request)
            ≤ settings.app_actor_signature_max_age_seconds * second)
        × (is_blank (header_text settings.app_actor_signature_secret) ≡ false)
        × (remove_prefix signature_prefix (header_text request.headers.request_signature)
            ≡ platform.hmac_sha256
                (header_text settings.app_actor_signature_secret)
                (covered_text request body))
        × (v.tenant_id ≡ settings.app_tenant_id)
        × (v.actor_user_id ≡ header_text request.headers.actor_user_id)
        × (v.nonce ≡ header_text request.headers.request_nonce)
        × (v.request_hash ≡ platform.sha256 (covered_text request body))
        × (v.expires_at
            ≡ expiry settings.app_actor_signature_max_age_seconds
                (issued platform settings request))
  unfolding verified_claims path_with_query canonical_request_claims sign_request_claims
  verify-checked now request body v h =
      let (same, long, fresh, signed, kept) =
        verify-verified platform settings now request body v h in
      let nonce = ap (λ (x : VerifiedRequestSignature). x.nonce) same in
      (
        subst (λ n. 16 ≤ count n) nonce long,
        fresh,
        kept,
        signed,
        ap (λ (x : VerifiedRequestSignature). x.tenant_id) same,
        ap (λ (x : VerifiedRequestSignature). x.actor_user_id) same,
        nonce,
        ap (λ (x : VerifiedRequestSignature). x.request_hash) same,
        ap (λ (x : VerifiedRequestSignature). x.expires_at) same,
      )
