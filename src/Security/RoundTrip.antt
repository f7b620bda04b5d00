-- ===== src/Security/RoundTrip.antt =====
-- The headers that the gateway builds are accepted.
use production_support_agent.Security.Headers.{
  build_signed_request_headers, build_actor_headers, ActorArguments, chosen_nonce, built_claims,
}
use production_support_agent.Security.Claims.{
  format_actor_signature, signature_prefix, Platform, IsLawful, canonical_csv, body_sha256,
  sign_request_claims, canonical_request_claims,
}
use production_support_agent.Security.Requests.{
  required_header, compare_digest, Settings, verify_request_signature, Request, path_with_query,
  age, second, verified, required_secret, parse_timestamp, verified_claims, check, nonce_too_short,
  expired,
}
use production_support_agent.Prelude.{
  ℕ, ◌*◌, ◌≤◌, String, ◌≡◌, refl, ap, ◌∙◌, true, false, Option, none, some, [], ◌∷◌, arith, eq_refl,
  ltb, leb, nat_eq, string_eq, All, ok, all_chars, after_prefix, is_blank, is_ascii, is_hex_digit,
  all_chars-imply, remove_prefix, code, value_or, before, after_prefix-before, ℤ, count, after-ok,
}

required_header-some :
    (value name : String) → is_blank value ≡ false → required_header (some value) name ≡ ok value
unfolding required_header
required_header-some value name h = rw h refl

given :
    {header : Option String} {value : String} (name : String)
    → header ≡ some value
    → is_blank value ≡ false
    → required_header header name ≡ ok value
given {value = value} name e h =
    ap (λ o. required_header o name) e ∙ required_header-some value name h

given_secret :
    {secret : Option String} {value : String}
    → secret ≡ some value
    → is_blank value ≡ false
    → required_secret secret ≡ ok value
unfolding required_secret
given_secret e h = rw (e, h) refl

long-filled : (s : String) → 16 ≤ count s → is_blank s ≡ false
long-filled String.[] h = absurd (ground (arith, h))
long-filled (String.◌∷◌ c s) h = refl

compare_digest_same : (a : String) → is_ascii a ≡ true → compare_digest a a ≡ ok true
unfolding compare_digest
compare_digest_same a h = rw (h, eq_refl a) refl

pub hex-ascii : (s : String) → all_chars is_hex_digit s ≡ true → is_ascii s ≡ true
hex-ascii s = all_chars-imply is_hex_digit (λ c. ltb (code c) 128) s (λ c h. ground (arith, h))

hex-unprefixed :
    (s : String) → all_chars is_hex_digit s ≡ true → after_prefix signature_prefix s ≡ none
unfolding after_prefix all_chars
hex-unprefixed String.[] h = refl
hex-unprefixed (String.◌∷◌ c s) h = ground (arith, h)

-- What is left of a formatted digest without the prefix is the digest.
pub remove_prefix-format :
    (digest : String)
    → all_chars is_hex_digit digest ≡ true
    → remove_prefix signature_prefix (format_actor_signature digest) ≡ digest
unfolding format_actor_signature
remove_prefix-format digest h = rw (hex-unprefixed digest h) (
    ap (λ o. value_or o (before signature_prefix digest))
      (after_prefix-before signature_prefix digest))

module _ (platform : Platform) (lawful : IsLawful platform) (settings : Settings) where
  same_digest :
      (digest : String)
      → all_chars is_hex_digit digest ≡ true
      → compare_digest (remove_prefix signature_prefix (format_actor_signature digest)) digest
        ≡ ok true
  same_digest digest h =
      ap (λ s. compare_digest s digest) (remove_prefix-format digest h)
      ∙ compare_digest_same digest (hex-ascii digest h)

  pub format-filled :
      (digest : String)
      → all_chars is_hex_digit digest ≡ true
      → is_blank (format_actor_signature digest) ≡ false
  unfolding format_actor_signature
  format-filled digest h = rw (hex-unprefixed digest h) refl

  -- Every check passes.
  verify-passing :
      (user roles scopes timestamp nonce body_hash signature secret : String) (request : Request)
      (body : String) (now : ℕ) (issued_at : ℤ)
      → request.headers.actor_user_id ≡ some user
      → request.headers.actor_roles ≡ some roles
      → request.headers.actor_scopes ≡ some scopes
      → request.headers.actor_timestamp ≡ some timestamp
      → request.headers.request_nonce ≡ some nonce
      → request.headers.request_body_sha256 ≡ some body_hash
      → request.headers.request_signature ≡ some signature
      → settings.app_actor_signature_secret ≡ some secret
      → All
          (λ s. is_blank s ≡ false)
          (user ∷ roles ∷ scopes ∷ timestamp ∷ nonce ∷ body_hash ∷ signature ∷ secret ∷ [])
      → (leb 16 (count nonce)) ≡ true
      → platform.int timestamp ≡ some issued_at
      → leb (age now issued_at) (settings.app_actor_signature_max_age_seconds * second) ≡ true
      → compare_digest body_hash (body_sha256 platform (some body)) ≡ ok true
      → compare_digest (remove_prefix signature_prefix signature) (
          sign_request_claims platform secret
            (verified_claims platform settings request user roles scopes timestamp nonce body_hash))
        ≡ ok true
      → verify_request_signature platform settings now request body
        ≡ ok (
            verified platform settings
              (verified_claims platform settings request user roles scopes timestamp nonce
                body_hash)
              issued_at)
  unfolding verify_request_signature required_secret parse_timestamp
  verify-passing user roles scopes timestamp nonce body_hash signature secret request body now
        issued_at u r s t n b g k filled long read fresh same_body signed =
      after-ok _ (given _ u filled.0)
      ∙ after-ok _ (given _ r filled.1.0)
      ∙ after-ok _ (given _ s filled.1.1.0)
      ∙ after-ok _ (given _ t filled.1.1.1.0)
      ∙ after-ok _ (given _ n filled.1.1.1.1.0)
      ∙ after-ok _ (given _ b filled.1.1.1.1.1.0)
      ∙ after-ok _ (given _ g filled.1.1.1.1.1.1.0)
      ∙ after-ok _ (given_secret k filled.1.1.1.1.1.1.1.0)
      ∙ after-ok _ (ap (λ c. check c nonce_too_short) long)
      ∙ after-ok _ (ap parse_timestamp read)
      ∙ after-ok _ (ap (λ c. check c expired) fresh)
      ∙ after-ok _ same_body
      ∙ after-ok _ signed

  -- The claims that were signed have the canonical text of those that are verified.
  canonical-built :
      (clock : String) (a : ActorArguments) (method body : String) (chosen : Option String)
      (token : String) (request : Request)
      → platform.upper request.method ≡ platform.upper method
      → settings.app_tenant_id ≡ a.tenant_id
      → canonical_request_claims platform (
          verified_claims platform settings request a.user_id
            (canonical_csv a.roles "user")
            (canonical_csv a.scopes "")
            (value_or a.timestamp clock)
            (chosen_nonce platform clock chosen token)
            (platform.sha256 body))
        ≡ canonical_request_claims platform (
            built_claims platform clock a method (path_with_query request) (some body) chosen token)
  unfolding canonical_request_claims verified_claims
  canonical-built clock a method body chosen token request same tenant =
      rw (tenant, lawful.upper_upper request.method, same) refl

  -- A request with the headers that build_signed_request_headers builds for its method, in any case,
  -- its path and its body is accepted by verify_request_signature, with the hash of the claims that
  -- were signed and the expiry of the timestamp, when the secret and the tenant are the API's, the
  -- user, the roles, the scopes and the hash of the body are not empty, the nonce has 16 characters and
  -- the timestamp is read as a number no further from the clock than the maximal age.
  pub verify-build :
      (clock : String) (a : ActorArguments) (method body : String) (chosen : Option String)
      (token : String) (request : Request) (now : ℕ) (issued_at : ℤ)
      → request.headers
        ≡ build_signed_request_headers platform clock a method
            (path_with_query request)
            (some body)
            chosen
            token
      → platform.upper request.method ≡ platform.upper method
      → settings.app_actor_signature_secret ≡ some a.signature_secret
      → settings.app_tenant_id ≡ a.tenant_id
      → is_blank a.signature_secret ≡ false
      → is_blank a.user_id ≡ false
      → is_blank (canonical_csv a.roles "user") ≡ false
      → is_blank (canonical_csv a.scopes "") ≡ false
      → is_blank (value_or a.timestamp clock) ≡ false
      → is_blank (platform.sha256 body) ≡ false
      → 16 ≤ count (chosen_nonce platform clock chosen token)
      → platform.int (value_or a.timestamp clock) ≡ some issued_at
      → age now issued_at ≤ settings.app_actor_signature_max_age_seconds * second
      → verify_request_signature platform settings now request body
        ≡ ok (
            verified platform settings
              (built_claims platform clock a method
                (path_with_query request)
                (some body)
                chosen
                token)
              issued_at)
  unfolding verified_claims build_signed_request_headers build_actor_headers sign_request_claims
  verify-build clock a method body chosen token request now issued_at sent same secret tenant
        has_secret has_user has_roles has_scopes has_time has_hash long read fresh =
      let claims =
        built_claims platform clock a method (path_with_query request) (some body) chosen token in
      let texts = canonical-built clock a method body chosen token request same tenant in
      let digest = sign_request_claims platform a.signature_secret claims in
      let hex = lawful.hmac_hex a.signature_secret (canonical_request_claims platform claims) in
      verify-passing a.user_id (canonical_csv a.roles "user") (canonical_csv a.scopes "")
        (value_or a.timestamp clock) claims.nonce claims.body_hash (format_actor_signature digest)
        a.signature_secret request body now issued_at (ap (λ h. h.actor_user_id) sent)
        (ap (λ h. h.actor_roles) sent) (ap (λ h. h.actor_scopes) sent)
        (ap (λ h. h.actor_timestamp) sent) (ap (λ h. h.request_nonce) sent)
        (ap (λ h. h.request_body_sha256) sent) (ap (λ h. h.request_signature) sent) secret
        (
          has_user,
          (
            has_roles,
            (
              has_scopes,
              (
                has_time,
                (
                  long-filled claims.nonce long,
                  (has_hash, (format-filled digest hex, (has_secret, tt))),
                ),
              ),
            ),
          ),
        )
        (ground (arith, long)) read (ground (arith, fresh))
        (compare_digest_same claims.body_hash (hex-ascii claims.body_hash (lawful.sha256_hex body)))
        (ap
            (λ t.
              compare_digest (remove_prefix signature_prefix (format_actor_signature digest))
                (platform.hmac_sha256 a.signature_secret t))
            texts
          ∙ same_digest digest hex)
      ∙ ap
          (λ t. ok (record (verified platform settings claims issued_at) {
            request_hash = platform.sha256 t;
          }))
          texts
