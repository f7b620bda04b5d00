-- ===== src/Security/Authorized.antt =====
-- api/auth.py: the actors that the signed headers of the gateway give.
use production_support_agent.Security.RoundTrip.{format-filled, remove_prefix-format, hex-ascii}
use production_support_agent.Security.Csv.{items-canonical}
use production_support_agent.Security.Headers.{build_actor_headers, ActorArguments}
use production_support_agent.Security.Requests.{Settings, age, second}
use production_support_agent.Security.Claims.{
  canonical_csv, Platform, csv_items, IsLawful, comma, text, stripped_items, sign_actor_claims,
  canonical_actor_claims, signature_prefix, format_actor_signature,
}
use production_support_agent.Security.Actors.{
  require_text, same_digests, header_items, AuthError, no_items, verify_actor_signature,
  get_production_actor, csv_of, read_timestamp, unsigned_claims, untrusted_gateway,
  signature_required, user_required, require, actor_expired, demo_identity, scopes_required,
}
use production_support_agent.Prelude.{
  ℕ, ◌*◌, ◌≤◌, String, ◌≡◌, refl, ap, ◌∙◌, true, false, not, Option, some, List, [], ◌∷◌, arith,
  eq_refl, leb, nat_eq, string_eq, ok, join, is_ascii, is_blank, split, ℤ, contains, value_or,
  after-ok, remove_prefix, filled_or,
}

require_text-some :
    {given : Option String} {value : String} (error : AuthError)
    → given ≡ some value
    → is_blank value ≡ false
    → require_text given error ≡ ok value
unfolding require_text
require_text-some error e h = rw (e, h) refl

same_digests_same : (a : String) → is_ascii a ≡ true → same_digests a a ≡ ok true
unfolding same_digests
same_digests_same a h = rw (h, eq_refl a) refl

filled_or-some :
    (value default : String) → is_blank value ≡ false → filled_or (some value) default ≡ value
unfolding filled_or
filled_or-some value default h = rw h refl

items_of_join : (xs : List String) → is_blank (join comma xs) ≡ false → no_items xs ≡ false
unfolding join
items_of_join [] h = h
items_of_join (x ∷ xs) h = refl

-- A canonical text that is not empty has an item.
canonical-items :
    (value default : String)
    → is_blank (canonical_csv (text value) default) ≡ false
    → no_items (stripped_items (split comma value)) ≡ false
unfolding canonical_csv csv_items
canonical-items value default h = items_of_join (stripped_items (split comma value)) h

-- The items that the API reads from a canonical text are the items of the text.
header_items-canonical :
    (value default other : String)
    → is_blank (canonical_csv (text value) default) ≡ false
    → header_items (some (canonical_csv (text value) default)) other
      ≡ stripped_items (split comma value)
unfolding header_items
header_items-canonical value default other h =
    ap (λ s. stripped_items (split comma s))
      (filled_or-some (canonical_csv (text value) default) other h)
    ∙ items-canonical value default

module _ (platform : Platform) (lawful : IsLawful platform) (settings : Settings) where
  verify_actor-build :
      (clock : String) (a : ActorArguments) (now : ℕ) (issued_at : ℤ)
      → settings.app_actor_signature_secret ≡ some a.signature_secret
      → settings.app_tenant_id ≡ a.tenant_id
      → is_blank a.signature_secret ≡ false
      → is_blank (value_or a.timestamp clock) ≡ false
      → platform.int (value_or a.timestamp clock) ≡ some issued_at
      → age now issued_at ≤ settings.app_actor_signature_max_age_seconds * second
      → verify_actor_signature platform settings now a.user_id
          (build_actor_headers platform clock a)
        ≡ ok tt
  unfolding verify_actor_signature build_actor_headers csv_of read_timestamp sign_actor_claims
  verify_actor-build clock a now issued_at secret tenant has_secret has_time read fresh =
      let roles = canonical_csv a.roles "user" in
      let scopes = canonical_csv a.scopes "" in
      let time = value_or a.timestamp clock in
      let claims = canonical_actor_claims a.tenant_id a.user_id (text roles) (text scopes) time in
      let digest = platform.hmac_sha256 a.signature_secret claims in
      let on_time : leb (age now issued_at) (settings.app_actor_signature_max_age_seconds * second)
          ≡ true =
        ground (arith, fresh) in
      let hex = lawful.hmac_hex a.signature_secret claims in
      after-ok _ (require_text-some unsigned_claims secret has_secret)
      ∙ after-ok _ (
          require_text-some signature_required refl
            (format-filled platform lawful settings digest hex))
      ∙ after-ok _ (require_text-some signature_required refl has_time)
      ∙ after-ok _ (ap read_timestamp read)
      ∙ after-ok _ (ap (λ c. require c actor_expired) on_time)
      ∙ after-ok _ (
          ap
            (λ t. same_digests (remove_prefix signature_prefix (format_actor_signature digest)) (
              platform.hmac_sha256 a.signature_secret
                (canonical_actor_claims t a.user_id (text roles) (text scopes) time)))
            tenant
          ∙ ap (λ s. same_digests s digest) (remove_prefix-format digest hex)
          ∙ same_digests_same digest (hex-ascii digest hex))

  -- The headers that build_actor_headers builds from a text of roles and a text of scopes, neither of
  -- them without an item, are those of an actor with the user, the stripped items of the roles and
  -- the stripped items of the scopes, when the key, in ASCII, the secret and the tenant are the API's,
  -- the key, the secret and the user are not empty, the user is not a demo identity, and the timestamp
  -- is read as a number no further from the clock than the maximal age.
  pub authenticate-build :
      (clock : String) (a : ActorArguments) (roles scopes : String) (now : ℕ) (issued_at : ℤ)
      → a.roles ≡ text roles
      → a.scopes ≡ text scopes
      → settings.app_internal_api_key ≡ some a.internal_api_key
      → is_ascii a.internal_api_key ≡ true
      → is_blank a.internal_api_key ≡ false
      → settings.app_actor_signature_secret ≡ some a.signature_secret
      → settings.app_tenant_id ≡ a.tenant_id
      → is_blank a.signature_secret ≡ false
      → is_blank a.user_id ≡ false
      → contains ("user_demo" ∷ "user_guest" ∷ []) a.user_id ≡ false
      → is_blank (canonical_csv (text roles) "user") ≡ false
      → is_blank (canonical_csv (text scopes) "") ≡ false
      → is_blank (value_or a.timestamp clock) ≡ false
      → platform.int (value_or a.timestamp clock) ≡ some issued_at
      → age now issued_at ≤ settings.app_actor_signature_max_age_seconds * second
      → get_production_actor platform settings now (build_actor_headers platform clock a)
        ≡ ok record {
          user_id = a.user_id;
          roles = stripped_items (split comma roles);
          scopes = stripped_items (split comma scopes);
        }
  unfolding get_production_actor build_actor_headers
  authenticate-build clock a roles scopes now issued_at roles_given scopes_given key ascii has_key
        secret tenant has_secret has_user not_demo has_roles has_scopes has_time read fresh =
      let roles_read =
        ap (λ r. header_items (some (canonical_csv r "user")) "user") roles_given
        ∙ header_items-canonical roles "user" "user" has_roles in
      let scopes_read =
        ap (λ r. header_items (some (canonical_csv r "")) "") scopes_given
        ∙ header_items-canonical scopes "" "" has_scopes in
      let has_items = canonical-items scopes "" has_scopes in
      after-ok _ (require_text-some untrusted_gateway key has_key)
      ∙ after-ok _ (require_text-some untrusted_gateway refl has_key)
      ∙ after-ok _ (same_digests_same a.internal_api_key ascii)
      ∙ after-ok _ (require_text-some user_required refl has_user)
      ∙ after-ok _ (ap (λ c. require (not c) demo_identity) not_demo)
      ∙ after-ok _ (ap (λ c. require (not c) scopes_required) (ap no_items scopes_read ∙ has_items))
      ∙ after-ok _
          (verify_actor-build clock a now issued_at secret tenant has_secret has_time read fresh)
      ∙ ap
          (λ r. ok record {
            user_id = a.user_id;
            roles = r;
            scopes = header_items (some (canonical_csv a.scopes "")) "";
          })
          roles_read
      ∙ ap
          (λ s.
            ok record {
              user_id = a.user_id;
              roles = stripped_items (split comma roles);
              scopes = s;
            })
          scopes_read
