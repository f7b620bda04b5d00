-- ===== src/Security/Examples.antt =====
-- The witnesses of the properties of signatures and actors.
use production_support_agent.Security.Admitted.{IsSigned, authenticate-checked}
use production_support_agent.Security.Binding.{claims-binding, AgreeInClaims}
use production_support_agent.Security.Authorized.{authenticate-build}
use production_support_agent.Security.Replays.{replay_refused}
use production_support_agent.Nonces.{reserve_all, reserve_api_request_nonce}
use production_support_agent.Security.Actors.{
  RequestActor, get_production_actor, header_items, no_items,
}
use production_support_agent.Security.Checked.{issued, header_text}
use production_support_agent.Security.Accepted.{covered_text, verify-checked}
use production_support_agent.Security.RoundTrip.{verify-build}
use production_support_agent.Security.Csv.{items-canonical}
use production_support_agent.Security.Headers.{
  ActorArguments, build_signed_request_headers, chosen_nonce, built_claims, Headers,
  build_actor_headers,
}
use production_support_agent.Security.Requests.{
  Settings, Request, path_with_query, age, verify_request_signature, verified,
  VerifiedRequestSignature, accept_request, expiry, reserve_request_nonce, second, reserve_verified,
}
use production_support_agent.Security.Claims.{
  Platform, IsLawful, stripped_items, canonical_csv, text, csv_items, comma, RequestClaims, items,
  signature_prefix, canonical_request_claims,
}
use production_support_agent.Prelude.{
  ℕ, ◌↔◌, ◌*◌, ◌≤◌, String, ◌≡◌, refl, ap, ◌≢◌, inr, true, false, none, some, List, [], ◌∷◌, arith,
  if◌then◌else◌, ◌==◌, nat_eq, string_eq, find, ok, is_blank, all_chars, pos, is_hex_digit, split,
  select, strip, lstrip, rstrip, is_space, join, contains, count, delete_where, remove_prefix,
}

-- A platform of short digests.
abbrev short_digest : String → String
short_digest s = if is_blank s then "e3" else "ab"

abbrev small_platform : Platform
small_platform = record {
  hmac_sha256 = λ key s. short_digest s;
  sha256 = short_digest;
  upper = λ s. s;
  int = λ s. if s == "100" then some (pos 100) else none;
}

short_digest-hex : (s : String) → all_chars is_hex_digit (short_digest s) ≡ true
unfolding all_chars
short_digest-hex String.[] = refl
short_digest-hex (String.◌∷◌ c s) = refl

small_platform-IsLawful : IsLawful small_platform
small_platform-IsLawful = record {
  hmac_hex = λ key s. short_digest-hex s;
  sha256_hex = short_digest-hex;
  upper_upper = λ s. refl;
}

abbrev api_settings : Settings
api_settings = record {
  app_tenant_id = "t";
  app_internal_api_key = some "key";
  app_actor_signature_secret = some "secret";
  app_actor_signature_max_age_seconds = 300;
  require_request_signature = true;
  has_sqlite_store = true;
}

abbrev gateway : ActorArguments
gateway = record {
  internal_api_key = "key";
  signature_secret = "secret";
  tenant_id = "t";
  user_id = "u1";
  roles = text " user ,admin";
  scopes = text "crm:read,, order:read";
  timestamp = none;
}

abbrev signed_request : Request
signed_request = record {
  headers =
      build_signed_request_headers small_platform "100" gateway "POST" "/api/v1/chat?x=1"
        (some "{}") (some "0123456789abcdef") "";
  method = "POST";
  path = "/api/v1/chat";
  query = "x=1";
}

items-canonical_example :
    stripped_items (split comma (canonical_csv (text " a ,,b") "user"))
    ≡ stripped_items (split comma " a ,,b")
items-canonical_example = items-canonical " a ,,b" "user"

abbrev signed_at : ℕ
signed_at = 150_000_000

verify-build_example :
    verify_request_signature small_platform api_settings signed_at signed_request "{}"
    ≡ ok (
        verified small_platform api_settings
          (built_claims small_platform "100" gateway "POST" "/api/v1/chat?x=1"
            (some "{}")
            (some "0123456789abcdef")
            "")
          (pos 100))
unfolding canonical_csv csv_items stripped_items select split strip lstrip rstrip is_space join
    path_with_query age chosen_nonce
verify-build_example =
    verify-build small_platform small_platform-IsLawful api_settings "100" gateway "POST" "{}"
      (some "0123456789abcdef") "" signed_request signed_at (pos 100) refl refl refl refl refl refl
      refl refl refl refl (ground arith) refl (ground arith)

abbrev signed_claims : RequestClaims
signed_claims =
    built_claims small_platform "100" gateway "POST" "/api/v1/chat?x=1" (some "{}")
      (some "0123456789abcdef") ""

abbrev accepted : VerifiedRequestSignature
accepted = verified small_platform api_settings signed_claims (pos 100)

verify-checked_example :
    (16 ≤ count "0123456789abcdef")
    × (age signed_at (issued small_platform api_settings signed_request) ≤ 300 * second)
    × (is_blank "secret" ≡ false)
    × (remove_prefix signature_prefix (header_text signed_request.headers.request_signature)
        ≡ small_platform.hmac_sha256 "secret"
            (covered_text small_platform api_settings signed_request "{}"))
    × (accepted.tenant_id ≡ "t")
    × (accepted.actor_user_id ≡ header_text signed_request.headers.actor_user_id)
    × (accepted.nonce ≡ header_text signed_request.headers.request_nonce)
    × (accepted.request_hash
        ≡ small_platform.sha256 (covered_text small_platform api_settings signed_request "{}"))
    × (accepted.expires_at ≡ expiry 300 (issued small_platform api_settings signed_request))
unfolding build_signed_request_headers chosen_nonce
verify-checked_example =
    verify-checked small_platform api_settings signed_at signed_request "{}" accepted
      verify-build_example

-- The roles and scopes as lists, which have the same canonical texts.
abbrev listed_claims : RequestClaims
listed_claims = record signed_claims {
  roles_header = items ("user" ∷ " admin" ∷ []);
  scopes_header = items ("crm:read" ∷ "order:read" ∷ []);
}

claims-binding_example :
    (canonical_request_claims small_platform signed_claims
      ≡ canonical_request_claims small_platform listed_claims)
    ↔ AgreeInClaims small_platform signed_claims listed_claims
unfolding canonical_csv csv_items stripped_items select split strip lstrip rstrip is_space join
    chosen_nonce
claims-binding_example =
    claims-binding small_platform signed_claims listed_claims (ground arith) (ground arith)

accept_signed :
    (accept_request small_platform api_settings signed_at signed_at [] signed_request "{}").1
    ≡ ok accepted
unfolding accept_request reserve_request_nonce reserve_api_request_nonce find delete_where
accept_signed =
    ap (λ checked. (reserve_verified small_platform api_settings signed_at [] checked).1)
      verify-build_example

replay_refused_example :
    (accept_request small_platform api_settings 401_000_000 401_000_000
      (reserve_all
        (accept_request small_platform api_settings signed_at signed_at [] signed_request "{}").0
        [])
      signed_request
      "{}").1
    ≢ ok accepted
unfolding expiry
replay_refused_example =
    replay_refused small_platform api_settings signed_at signed_at [] signed_request signed_request
      "{}" "{}" accepted accepted [] 401_000_000 401_000_000 accept_signed refl refl refl tt
      (inr (ground arith))

abbrev actor_headers : Headers
actor_headers = build_actor_headers small_platform "100" gateway

authenticate-build_example :
    get_production_actor small_platform api_settings signed_at actor_headers
    ≡ ok record {
      user_id = "u1";
      roles = stripped_items (split comma " user ,admin");
      scopes = stripped_items (split comma "crm:read,, order:read");
    }
unfolding canonical_csv csv_items stripped_items select split strip lstrip rstrip is_space join age
    contains all_chars
authenticate-build_example =
    authenticate-build small_platform small_platform-IsLawful api_settings "100" gateway
      " user ,admin" "crm:read,, order:read" signed_at (pos 100) refl refl refl refl refl refl refl
      refl refl refl refl refl refl refl (ground arith)

abbrev admitted : RequestActor
admitted = record {
  user_id = "u1";
  roles = stripped_items (split comma " user ,admin");
  scopes = stripped_items (split comma "crm:read,, order:read");
}

abbrev demo_users : List String
demo_users = "user_demo" ∷ "user_guest" ∷ []

authenticate-checked_example :
    (admitted ≡ record {
      user_id = "u1";
      roles = header_items actor_headers.actor_roles "user";
      scopes = header_items actor_headers.actor_scopes "";
    })
    × (header_text actor_headers.internal_auth ≡ "key")
    × (is_blank "key" ≡ false)
    × (contains demo_users admitted.user_id ≡ false)
    × (no_items admitted.scopes ≡ false)
    × IsSigned small_platform api_settings signed_at "u1" actor_headers
unfolding build_actor_headers
authenticate-checked_example =
    authenticate-checked small_platform api_settings signed_at actor_headers admitted
      authenticate-build_example
