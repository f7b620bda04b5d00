-- ===== src/Security/Replays.antt =====
-- A signed request is accepted once.
use production_support_agent.Nonces.Replays.{nonce_refused}
use production_support_agent.Security.Checked.{verify-verified, header_text, issued}
use production_support_agent.Nonces.{Nonce, reserve_api_request_nonce, reserve_all}
use production_support_agent.Security.Requests.{
  Settings, VerifiedRequestSignature, reserve_request_nonce, SignatureError, nonce_reserved,
  reserve_verified, asked_nonce, expiry, accept_request, age, Request, second,
  verify_request_signature, verified_claims,
}
use production_support_agent.Security.Claims.{Platform}
use production_support_agent.Prelude.{
  ℕ, ◌*◌, ◌<◌, String, ◌≡◌, refl, sym, ap, ◌∙◌, subst, ◌≢◌, ◌⊎◌, inl, inr, Bool, true, false,
  false≢true, List, arith, nat_eq, string_eq, Bool-cases, All, ok, err, Result, ℤ, pos, negsuc,
  value_or,
}

module _ (platform : Platform) (settings : Settings) where
  -- What a request that was accepted has passed, and the rows that it leaves.
  abbrev IsAccepted :
      ℕ
      → List Nonce
      → VerifiedRequestSignature
      → Result SignatureError VerifiedRequestSignature
      → List Nonce
      → Type 0
  IsAccepted now rows v checked left =
      (checked ≡ ok v)
      × ((reserve_api_request_nonce rows (asked_nonce platform settings now v)).1 ≡ true)
      × (left ≡ (reserve_api_request_nonce rows (asked_nonce platform settings now v)).0)

  nonce_reserved-ok :
      (w v : VerifiedRequestSignature) (answer : List Nonce × Bool)
      → (nonce_reserved platform settings w answer).1 ≡ ok v
      → (answer.1 ≡ true) × ((nonce_reserved platform settings w answer).0 ≡ answer.0) × (w ≡ v)
  nonce_reserved-ok w v (rows, true) h = (refl, refl, ground (arith, h))
  nonce_reserved-ok w v (rows, false) h = absurd (ground (arith, h))

  reserve_verified-IsAccepted :
      (now : ℕ) (rows : List Nonce) (v : VerifiedRequestSignature)
      (checked : Result SignatureError VerifiedRequestSignature)
      → (reserve_verified platform settings now rows checked).1 ≡ ok v
      → IsAccepted now rows v checked (reserve_verified platform settings now rows checked).0
  unfolding reserve_request_nonce
  reserve_verified-IsAccepted now rows v (err error) h = absurd (ground (arith, h))
  reserve_verified-IsAccepted now rows v (ok w) h = elim (Bool-cases settings.has_sqlite_store) [
    | inl t ↦
        let answer = reserve_api_request_nonce rows (asked_nonce platform settings now w) in
        let stored : reserve_request_nonce platform settings now rows w
            ≡ nonce_reserved platform settings w answer =
          rw t refl in
        let facts = nonce_reserved-ok w v answer (ap (λ a. a.1) (sym stored) ∙ h) in
        let asked =
          ap (λ x. reserve_api_request_nonce rows (asked_nonce platform settings now x)) facts.2 in
        (
          ap ok facts.2,
          ap (λ a. a.1) (sym asked) ∙ facts.0,
          ap (λ a. a.0) stored ∙ facts.1 ∙ ap (λ a. a.0) asked,
        )
    | inr t ↦ absurd (ground (arith, t, h))
  ]

  -- The age of a time whose expiry is over is more than the maximal age.
  over-old :
      (max_age now : ℕ) (issued_at : ℤ)
      → expiry max_age issued_at < now
      → max_age * second < age now issued_at
  unfolding expiry age
  over-old max_age now (pos n) h = omega (arith, h)
  over-old max_age now (negsuc n) h = omega (arith, h)

  -- When a request was accepted, no request with its user, nonce and timestamp is accepted later, if
  -- its nonce is reserved before the first request's expiry or its signature is verified after that
  -- expiry, whatever other nonces were reserved before the expiry in between.
  pub replay_refused :
      (verified_at reserved_at : ℕ) (rows : List Nonce) (request again : Request)
      (body body_again : String) (v w : VerifiedRequestSignature) (calls : List Nonce)
      (verified_again reserved_again : ℕ)
      → (accept_request platform settings verified_at reserved_at rows request body).1 ≡ ok v
      → again.headers.actor_user_id ≡ request.headers.actor_user_id
      → again.headers.request_nonce ≡ request.headers.request_nonce
      → again.headers.actor_timestamp ≡ request.headers.actor_timestamp
      → All (λ other. other.created_at < v.expires_at) calls
      → (reserved_again < v.expires_at) ⊎ (v.expires_at < verified_again)
      → (accept_request platform settings verified_again reserved_again
          (reserve_all
            (accept_request platform settings verified_at reserved_at rows request body).0
            calls)
          again
          body_again).1
        ≢ ok w
  unfolding accept_request verified_claims
  replay_refused verified_at reserved_at rows request again body body_again v w calls verified_again
        reserved_again accepted user same time early when repeated =
      let first =
        reserve_verified-IsAccepted reserved_at rows v
          (verify_request_signature platform settings verified_at request body) accepted in
      let left = (accept_request platform settings verified_at reserved_at rows request body).0 in
      let second_time =
        reserve_verified-IsAccepted reserved_again (reserve_all left calls) w
          (verify_request_signature platform settings verified_again again body_again) repeated in
      let one = verify-verified platform settings verified_at request body v first.0 in
      let two = verify-verified platform settings verified_again again body_again w second_time.0 in
      elim when [
        | inl before_expiry ↦
            let reserved_twice =
              ap
                (λ r.
                  (reserve_api_request_nonce r (asked_nonce platform settings reserved_again w)).1)
                (ap (λ r. reserve_all r calls) (sym first.2))
              ∙ second_time.1 in
            false≢true (
              sym (
                nonce_refused rows (asked_nonce platform settings reserved_at v)
                  (asked_nonce platform settings reserved_again w) calls first.1
                  (ap (λ x. x.tenant_id) two.0 ∙ sym (ap (λ x. x.tenant_id) one.0))
                  (ap (λ x. x.actor_user_id) two.0
                    ∙ ap header_text user
                    ∙ sym (ap (λ x. x.actor_user_id) one.0))
                  (ap (λ x. x.nonce) two.0 ∙ ap header_text same ∙ sym (ap (λ x. x.nonce) one.0))
                  early before_expiry)
              ∙ reserved_twice)
        | inr after_expiry ↦
            let issued_same : issued platform settings again ≡ issued platform settings request =
              ap (λ t. value_or (platform.int (header_text t)) (pos 0)) time in
            let max_age = settings.app_actor_signature_max_age_seconds in
            let is_old = over-old max_age verified_again (issued platform settings again) (
              subst (λ e. e < verified_again)
                (ap (λ x. x.expires_at) one.0 ∙ ap (expiry max_age) (sym issued_same))
                after_expiry) in
            absurd (ground (arith, is_old, two.2))
      ]
