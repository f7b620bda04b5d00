-- ===== src/Security/Checked.antt =====
-- What verify_request_signature has checked of a request that it accepts.
use production_support_agent.Security.Claims.{
  Platform, RequestClaims, signature_prefix, sign_request_claims, body_sha256,
}
use production_support_agent.Security.Requests.{
  required_header, required_secret, parse_timestamp, SignatureError, compare_digest, check,
  Settings, Request, verify_request_signature, VerifiedRequestSignature, verified_claims, verified,
  age, second, nonce_too_short, expired, body_mismatch, signature_invalid,
}
use production_support_agent.Prelude.{
  ℕ, ◌*◌, ◌≤◌, String, ◌≡◌, refl, sym, ap, ◌∙◌, subst, Bool, true, false, Option, none, some, arith,
  eq_iff, leb, nat_eq, string_eq, ok, Result, value_or, is_blank, ℤ, pos, count, remove_prefix,
  bind-ok,
}

-- The text of a header, or the empty text.
abbrev pub header_text : Option String → String
header_text header = value_or header ""

required_header-text :
    (header : Option String) (name value : String)
    → required_header header name ≡ ok value
    → header_text header ≡ value
unfolding required_header
required_header-text none name value h = absurd (ground (arith, h))
required_header-text (some text) name value h = ground (arith, h)

required_secret-text :
    (secret : Option String) (value : String)
    → required_secret secret ≡ ok value
    → (header_text secret ≡ value) × (is_blank (header_text secret) ≡ false)
unfolding required_secret
required_secret-text none value h = absurd (ground (arith, h))
required_secret-text (some text) value h = ground (arith, h)

parse_timestamp-read :
    (read : Option ℤ) (value : ℤ) → parse_timestamp read ≡ ok value → value_or read (pos 0) ≡ value
unfolding parse_timestamp
parse_timestamp-read none value h = absurd (ground (arith, h))
parse_timestamp-read (some n) value h = ground (arith, h)

check-true : (b : Bool) (error : SignatureError) (u : Unit {0}) → check b error ≡ ok u → b ≡ true
check-true true error u h = refl
check-true false error u h = absurd (ground (arith, h))

compare_digest-equal : (a b : String) → compare_digest a b ≡ ok true → a ≡ b
unfolding compare_digest
compare_digest-equal a b h = ground (arith, eq_iff a b, h)

ok-injective :
    {a v : VerifiedRequestSignature}
    → ◌≡◌ {A = Result SignatureError VerifiedRequestSignature} (ok a) (ok v)
    → a ≡ v
ok-injective h = ground (arith, h)

module _ (platform : Platform) (settings : Settings) where
  -- The time that the request was issued, as it was read.
  abbrev pub issued : Request → ℤ
  issued request = value_or (platform.int (header_text request.headers.actor_timestamp)) (pos 0)

  -- The claims of the headers, for a body.
  abbrev pub claims_of : Request → String → RequestClaims
  claims_of request body =
      verified_claims platform settings request (header_text request.headers.actor_user_id)
        (header_text request.headers.actor_roles) (header_text request.headers.actor_scopes)
        (header_text request.headers.actor_timestamp) (header_text request.headers.request_nonce)
        (platform.sha256 body)

  -- The facts that the checks gave, put together.
  passed-checked :
      (now : ℕ) (request : Request) (body : String) (v : VerifiedRequestSignature)
      (user roles scopes time nonce hash sig secret : String) (issued_at : ℤ)
      → header_text request.headers.actor_user_id ≡ user
      → header_text request.headers.actor_roles ≡ roles
      → header_text request.headers.actor_scopes ≡ scopes
      → header_text request.headers.actor_timestamp ≡ time
      → header_text request.headers.request_nonce ≡ nonce
      → hash ≡ body_sha256 platform (some body)
      → header_text request.headers.request_signature ≡ sig
      → (header_text settings.app_actor_signature_secret ≡ secret)
        × (is_blank (header_text settings.app_actor_signature_secret) ≡ false)
      → leb 16 (count nonce) ≡ true
      → value_or (platform.int time) (pos 0) ≡ issued_at
      → leb (age now issued_at) (settings.app_actor_signature_max_age_seconds * second) ≡ true
      → remove_prefix signature_prefix sig
        ≡ sign_request_claims platform secret
            (verified_claims platform settings request user roles scopes time nonce hash)
      → verified platform settings
          (verified_claims platform settings request user roles scopes time nonce hash)
          issued_at
        ≡ v
      → (v ≡ verified platform settings (claims_of request body) (issued request))
        × (16 ≤ count v.nonce)
        × (age now (issued request) ≤ settings.app_actor_signature_max_age_seconds * second)
        × (remove_prefix signature_prefix (header_text request.headers.request_signature)
            ≡ sign_request_claims platform
                (header_text settings.app_actor_signature_secret)
                (claims_of request body))
        × (is_blank (header_text settings.app_actor_signature_secret) ≡ false)
  unfolding verified_claims
  passed-checked now request body v user roles scopes time nonce hash sig secret issued_at u r s t n
        b g k long read fresh signed result =
      let issued_is : issued request ≡ issued_at =
        ap (λ x. value_or (platform.int x) (pos 0)) t ∙ read in
      let texts : claims_of request body
          ≡ verified_claims platform settings request user roles scopes time nonce hash =
        rw (u, r, s, t, n, b) refl in
      (
        sym result
            ∙ ap (λ c. verified platform settings c issued_at) (sym texts)
            ∙ ap (verified platform settings (claims_of request body)) (sym issued_is),
        subst (λ m. 16 ≤ count m) (ap (λ w. w.nonce) result) (ground (arith, long)),
        subst (λ i. age now i ≤ settings.app_actor_signature_max_age_seconds * second)
            (sym issued_is) (ground (arith, fresh)),
        ap (remove_prefix signature_prefix) g
            ∙ signed
            ∙ ap
                (λ x.
                  sign_request_claims platform x
                    (verified_claims platform settings request user roles scopes time nonce hash))
                (sym k.0)
            ∙ ap (sign_request_claims platform (header_text settings.app_actor_signature_secret))
                (sym texts),
        k.1,
      )

  -- The same for a request that verify_request_signature accepts.
  pub verify-verified :
      (now : ℕ) (request : Request) (body : String) (v : VerifiedRequestSignature)
      → verify_request_signature platform settings now request body ≡ ok v
      → (v ≡ verified platform settings (claims_of request body) (issued request))
        × (16 ≤ count v.nonce)
        × (age now (issued request) ≤ settings.app_actor_signature_max_age_seconds * second)
        × (remove_prefix signature_prefix (header_text request.headers.request_signature)
            ≡ sign_request_claims platform
                (header_text settings.app_actor_signature_secret)
                (claims_of request body))
        × (is_blank (header_text settings.app_actor_signature_secret) ≡ false)
  unfolding verify_request_signature
  verify-verified now request body v h =
      bind-ok (required_header request.headers.actor_user_id "X-Actor-User-Id") _ v h
        λ user user_given h1.
          bind-ok (required_header request.headers.actor_roles "X-Actor-Roles") _ v h1
            λ roles roles_given h2.
              bind-ok (required_header request.headers.actor_scopes "X-Actor-Scopes") _ v h2
                λ scopes scopes_given h3.
                  bind-ok (required_header request.headers.actor_timestamp "X-Actor-Timestamp") _ v
                    h3
                    λ time time_given h4.
                      bind-ok (required_header request.headers.request_nonce "X-Request-Nonce") _ v
                        h4
                        λ nonce nonce_given h5.
                          bind-ok
                            (required_header request.headers.request_body_sha256
                              "X-Request-Body-SHA256")
                            _ v h5
                            λ hash hash_given h6.
                              bind-ok
                                (required_header request.headers.request_signature
                                  "X-Request-Signature")
                                _ v h6
                                λ sig sig_given h7.
                                  bind-ok (required_secret settings.app_actor_signature_secret) _ v
                                    h7
                                    λ secret secret_given h8.
                                      bind-ok (check (leb 16 (count nonce)) nonce_too_short) _ v h8
                                        λ u1 long h9.
                                          bind-ok (parse_timestamp (platform.int time)) _ v h9
                                            λ issued_at read h10.
                                              bind-ok
                                                (check
                                                  (leb (age now issued_at) (
                                                    settings.app_actor_signature_max_age_seconds
                                                    * second))
                                                  expired)
                                                _ v h10
                                                λ u2 fresh h11.
                                                  bind-ok
                                                    (compare_digest hash
                                                      (body_sha256 platform (some body)))
                                                    _ v h11
                                                    λ same_body compared h12.
                                                      bind-ok (check same_body body_mismatch) _ v
                                                        h12
                                                        λ u3 equal_body h13.
                                                          bind-ok
                                                            (compare_digest
                                                            (remove_prefix signature_prefix sig)
                                                            (sign_request_claims platform secret (
                                                            verified_claims platform settings
                                                            request user roles scopes time nonce
                                                            hash)))
                                                            _ v h13
                                                            λ same digests h14.
                                                            bind-ok (check same signature_invalid) _
                                                            v h14
                                                            λ u4 equal h15.
                                                            passed-checked now request body v user
                                                            roles scopes time nonce hash sig secret
                                                            issued_at
                                                            (required_header-text _ _ user
                                                            user_given)
                                                            (required_header-text _ _ roles
                                                            roles_given)
                                                            (required_header-text _ _ scopes
                                                            scopes_given)
                                                            (required_header-text _ _ time
                                                            time_given)
                                                            (required_header-text _ _ nonce
                                                            nonce_given)
                                                            (compare_digest-equal _ _ (
                                                            compared
                                                            ∙ ap ok (check-true _ _ u3 equal_body)))
                                                            (required_header-text _ _ sig sig_given)
                                                            (required_secret-text _ secret
                                                            secret_given)
                                                            (check-true _ _ u1 long)
                                                            (parse_timestamp-read _ issued_at read)
                                                            (check-true _ _ u2 fresh)
                                                            (compare_digest-equal _ _ (
                                                            digests
                                                            ∙ ap ok (check-true _ _ u4 equal)))
                                                            (ok-injective h15)
