-- ===== src/Security/Admitted.antt =====
-- api/auth.py: what is checked of the headers that give an actor in production.
use production_support_agent.Security.Checked.{header_text}
use production_support_agent.Security.Headers.{Headers}
use production_support_agent.Security.Requests.{Settings, age, second}
use production_support_agent.Security.Claims.{Platform, signature_prefix, sign_actor_claims}
use production_support_agent.Security.Actors.{
  require_text, AuthError, same_digests, read_timestamp, RequestActor, require,
  verify_actor_signature, get_production_actor, unsigned_claims, header_items, signature_required,
  csv_of, no_items, untrusted_gateway, actor_expired, user_required, demo_identity, scopes_required,
}
use production_support_agent.Prelude.{
  ℕ, ◌*◌, ◌≤◌, String, ◌≡◌, refl, sym, ap, ◌∙◌, subst, inl, inr, Bool, true, false, not, Option,
  none, some, [], ◌∷◌, arith, eq_iff, leb, nat_eq, string_eq, Bool-cases, ok, Result, is_blank, ℤ,
  value_or, pos, remove_prefix, bind-ok, contains,
}

require_text-given :
    (given : Option String) (error : AuthError) (value : String)
    → require_text given error ≡ ok value
    → (given ≡ some value) × (is_blank value ≡ false)
unfolding require_text
require_text-given none error value h = absurd (ground (arith, h))
require_text-given (some t) error value h = elim (Bool-cases (is_blank t)) [
  | inl b ↦ absurd (ground (arith, b, h))
  | inr b ↦
      let same : t ≡ value = ground (arith, b, h) in
      (ap some same, subst (λ s. is_blank s ≡ false) same b)
]

require-true : (b : Bool) (error : AuthError) (u : Unit {0}) → require b error ≡ ok u → b ≡ true
require-true true error u h = refl
require-true false error u h = absurd (ground (arith, h))

same_digests-equal : (a b : String) → same_digests a b ≡ ok true → a ≡ b
unfolding same_digests
same_digests-equal a b h = ground (arith, eq_iff a b, h)

read_timestamp-given :
    (read : Option ℤ) (value : ℤ) → read_timestamp read ≡ ok value → value_or read (pos 0) ≡ value
unfolding read_timestamp
read_timestamp-given none value h = absurd (ground (arith, h))
read_timestamp-given (some n) value h = ground (arith, h)

actor-injective :
    {a v : RequestActor} → ◌≡◌ {A = Result AuthError RequestActor} (ok a) (ok v) → a ≡ v
actor-injective h = ground (arith, h)

module _ (platform : Platform) (settings : Settings) where
  -- The headers are signed for the user, not too long ago.
  abbrev pub IsSigned : ℕ → String → Headers → Type 0
  IsSigned now user_id headers =
      (remove_prefix signature_prefix (header_text headers.actor_signature)
        ≡ sign_actor_claims platform (header_text settings.app_actor_signature_secret)
            settings.app_tenant_id user_id (csv_of headers.actor_roles)
            (csv_of headers.actor_scopes) (header_text headers.actor_timestamp))
      × (is_blank (header_text settings.app_actor_signature_secret) ≡ false)
      × (age now (value_or (platform.int (header_text headers.actor_timestamp)) (pos 0))
          ≤ settings.app_actor_signature_max_age_seconds * second)

  verify_actor-IsSigned :
      (now : ℕ) (user_id : String) (headers : Headers) (u : Unit {0})
      → verify_actor_signature platform settings now user_id headers ≡ ok u
      → IsSigned now user_id headers
  unfolding verify_actor_signature
  verify_actor-IsSigned now user_id headers u h =
      bind-ok (require_text settings.app_actor_signature_secret unsigned_claims) _ u h
        λ secret secret_given h1.
          bind-ok (require_text headers.actor_signature signature_required) _ u h1
            λ provided provided_given h2.
              bind-ok (require_text headers.actor_timestamp signature_required) _ u h2
                λ time time_given h3.
                  bind-ok (read_timestamp (platform.int time)) _ u h3 λ issued_at read h4.
                    bind-ok
                      (require
                        (leb (age now issued_at)
                          (settings.app_actor_signature_max_age_seconds * second))
                        actor_expired)
                      _ u h4
                      λ u1 fresh h5.
                        bind-ok
                          (same_digests (remove_prefix signature_prefix provided) (
                            sign_actor_claims platform secret settings.app_tenant_id user_id
                              (csv_of headers.actor_roles) (csv_of headers.actor_scopes) time))
                          _ u h5
                          λ same compared h6.
                            let sec = require_text-given _ _ secret secret_given in
                            let secret_is : header_text settings.app_actor_signature_secret
                                ≡ secret =
                              ap header_text sec.0 in
                            let time_is : header_text headers.actor_timestamp ≡ time =
                              ap header_text (require_text-given _ _ time time_given).0 in
                            let sig_is =
                              ap header_text (require_text-given _ _ provided provided_given).0 in
                            let read_is = read_timestamp-given _ issued_at read in
                            (
                              ap (remove_prefix signature_prefix) sig_is
                                  ∙ same_digests-equal _ _
                                      (compared ∙ ap ok (require-true _ _ u h6))
                                  ∙ ap
                                      (λ x.
                                        sign_actor_claims platform x settings.app_tenant_id user_id
                                          (csv_of headers.actor_roles) (csv_of headers.actor_scopes)
                                          time)
                                      (sym secret_is)
                                  ∙ ap
                                      (sign_actor_claims platform
                                        (header_text settings.app_actor_signature_secret)
                                        settings.app_tenant_id user_id (csv_of headers.actor_roles)
                                        (csv_of headers.actor_scopes))
                                      (sym time_is),
                              subst (λ x. is_blank x ≡ false) (sym secret_is) sec.1,
                              subst
                                  (λ x.
                                    age now x
                                    ≤ settings.app_actor_signature_max_age_seconds * second)
                                  (sym
                                    (ap (λ x. value_or (platform.int x) (pos 0)) time_is ∙ read_is))
                                  (ground (arith, require-true _ _ u1 fresh)),
                            )

  -- In production an actor is given only for headers with the API's internal key, which is not empty,
  -- a user that is not a demo identity, and a signature, not older or newer than the maximal age, of the
  -- tenant, that user and the roles and scopes of the headers, with the API's secret, which is not
  -- empty; the actor has that user, and the roles and scopes that were signed, at least one scope.
  pub authenticate-checked :
      (now : ℕ) (headers : Headers) (actor : RequestActor)
      → get_production_actor platform settings now headers ≡ ok actor
      → (actor ≡ record {
        user_id = header_text headers.actor_user_id;
        roles = header_items headers.actor_roles "user";
        scopes = header_items headers.actor_scopes "";
      })
        × (header_text headers.internal_auth ≡ header_text settings.app_internal_api_key)
        × (is_blank (header_text settings.app_internal_api_key) ≡ false)
        × (contains ("user_demo" ∷ "user_guest" ∷ []) actor.user_id ≡ false)
        × (no_items actor.scopes ≡ false)
        × IsSigned now actor.user_id headers
  unfolding get_production_actor
  authenticate-checked now headers actor h =
      bind-ok (require_text settings.app_internal_api_key untrusted_gateway) _ actor h
        λ expected expected_given h1.
          bind-ok (require_text headers.internal_auth untrusted_gateway) _ actor h1
            λ provided provided_given h2.
              bind-ok (same_digests provided expected) _ actor h2 λ same compared h3.
                bind-ok (require same untrusted_gateway) _ actor h3 λ u1 equal h4.
                  bind-ok (require_text headers.actor_user_id user_required) _ actor h4
                    λ user user_given h5.
                      bind-ok
                        (require (not (contains ("user_demo" ∷ "user_guest" ∷ []) user))
                          demo_identity)
                        _ actor h5
                        λ u2 real h6.
                          bind-ok
                            (require (not (no_items (header_items headers.actor_scopes "")))
                              scopes_required)
                            _ actor h6
                            λ u3 scoped h7.
                              bind-ok (verify_actor_signature platform settings now user headers) _
                                actor h7
                                λ u4 signed h8.
                                  let key = require_text-given _ _ expected expected_given in
                                  let key_is : header_text settings.app_internal_api_key
                                      ≡ expected =
                                    ap header_text key.0 in
                                  let user_is : header_text headers.actor_user_id ≡ user =
                                    ap header_text (require_text-given _ _ user user_given).0 in
                                  let result = actor-injective h8 in
                                  let user_of = ap (λ a. a.user_id) result in
                                  (
                                    sym result
                                        ∙ ap
                                            (λ x. record {
                                              user_id = x;
                                              roles = header_items headers.actor_roles "user";
                                              scopes = header_items headers.actor_scopes "";
                                            })
                                            (sym user_is),
                                    ap header_text
                                          (require_text-given _ _ provided provided_given).0
                                        ∙ same_digests-equal _ _
                                            (compared ∙ ap ok (require-true _ _ u1 equal))
                                        ∙ sym key_is,
                                    subst (λ x. is_blank x ≡ false) (sym key_is) key.1,
                                    subst
                                        (λ x. contains ("user_demo" ∷ "user_guest" ∷ []) x ≡ false)
                                        user_of (ground (arith, require-true _ _ u2 real)),
                                    subst (λ x. no_items x ≡ false) (ap (λ a. a.scopes) result)
                                        (ground (arith, require-true _ _ u3 scoped)),
                                    subst (λ x. IsSigned now x headers) user_of
                                        (verify_actor-IsSigned now user headers u4 signed),
                                  )
