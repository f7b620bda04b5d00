-- ===== src/Security/Actors.antt =====
-- api/auth.py: who a request acts for, and what the actor may do.
use production_support_agent.Security.Headers.{Headers}
use production_support_agent.Security.Requests.{Settings, age, second}
use production_support_agent.Security.Claims.{
  CsvValue, stripped_items, Platform, missing, text, comma, signature_prefix, sign_actor_claims,
}
use production_support_agent.Prelude.{
  ℕ, ◌*◌, String, Bool, true, false, not, ◌&&◌, Option, none, some, List, [], ◌∷◌, ◌++◌, leb,
  if◌then◌else◌, ◌==◌, ◌>>=◌, nat_eq, string_eq, ok, err, Result, contains, is_blank, is_ascii, ℤ,
  split, remove_prefix, filled_or,
}

-- An HTTPException by its detail, or the TypeError of `compare_digest` on a text that is not ASCII.
pub data AuthError : Type 0 where
  untrusted_gateway user_required demo_identity scopes_required : AuthError
  unsigned_claims signature_required timestamp_invalid actor_expired actor_invalid : AuthError
  other_user admin_required : AuthError
  scope_missing : String → AuthError
  compared_not_ascii : AuthError

-- The status of the answer; what no handler catches is answered by 500.
unfoldable pub status_of : AuthError → ℕ
status_of other_user = 403
status_of admin_required = 403
status_of (scope_missing scope) = 403
status_of compared_not_ascii = 500
status_of _ = 401

pub record RequestActor : Type 0 where
  pub user_id : String
  pub roles : List String
  pub scopes : List String

unfoldable pub is_admin : RequestActor → Bool
is_admin actor = contains actor.roles "admin"

abbrev pub default_user_scopes : List String
default_user_scopes =
    "crm:read" ∷ "order:read" ∷ "shipping:read" ∷ "ticket:write" ∷ "kb:read" ∷ "feedback:write" ∷ []

abbrev pub default_admin_scopes : List String
default_admin_scopes =
    default_user_scopes
    ++ "admin:read" ∷ "admin:write" ∷ "audit:read" ∷ "eval:read" ∷ "events:read" ∷ "eval:run"
      ∷ "feedback:read" ∷ "knowledge:diagnose" ∷ "memory:replay" ∷ "monitor:read" ∷ "monitor:write"
      ∷ []

-- A header that is present and not empty, or an error.
unfoldable pub require_text : Option String → AuthError → Result AuthError String
require_text none error = err error
require_text (some value) error = if is_blank value then err error else ok value

-- `if not condition: raise error`
abbrev pub require : Bool → AuthError → Result {0, 0} AuthError (Unit {0})
require true error = ok tt
require false error = err error

-- `compare_digest`
unfoldable pub same_digests : String → String → Result AuthError Bool
same_digests a b = if is_ascii a && is_ascii b then ok (a == b) else err compared_not_ascii

unfoldable pub read_timestamp : Option ℤ → Result AuthError ℤ
read_timestamp none = err timestamp_invalid
read_timestamp (some issued_at) = ok issued_at

-- `str | None` as an argument of canonical_csv
unfoldable pub csv_of : Option String → CsvValue
csv_of none = missing
csv_of (some value) = text value

-- `[role.strip() for role in (header or default).split(",") if role.strip()]`
unfoldable pub header_items : Option String → String → List String
header_items header default = stripped_items (split comma (filled_or header default))

-- `not scopes`
abbrev pub no_items : List String → Bool
no_items [] = true
no_items (x ∷ xs) = false

module _ (platform : Platform) (settings : Settings) where
  -- _verify_actor_signature, for the user and the other headers
  unfoldable pub verify_actor_signature : ℕ → String → Headers → Result {0, 0} AuthError (Unit {0})
  verify_actor_signature now user_id headers = do
    secret ← require_text settings.app_actor_signature_secret unsigned_claims
    provided ← require_text headers.actor_signature signature_required
    timestamp ← require_text headers.actor_timestamp signature_required
    issued_at ← read_timestamp (platform.int timestamp)
    _ ←
        require (leb (age now issued_at) (settings.app_actor_signature_max_age_seconds * second))
          actor_expired
    same ← same_digests (remove_prefix signature_prefix provided) (
        sign_actor_claims platform secret settings.app_tenant_id user_id
          (csv_of headers.actor_roles) (csv_of headers.actor_scopes) timestamp)
    require same actor_invalid

  -- _get_production_actor
  unfoldable pub get_production_actor : ℕ → Headers → Result AuthError RequestActor
  get_production_actor now headers = do
    expected ← require_text settings.app_internal_api_key untrusted_gateway
    provided ← require_text headers.internal_auth untrusted_gateway
    same_key ← same_digests provided expected
    _ ← require same_key untrusted_gateway
    user_id ← require_text headers.actor_user_id user_required
    _ ← require (not (contains ("user_demo" ∷ "user_guest" ∷ []) user_id)) demo_identity
    let scopes = header_items headers.actor_scopes ""
    _ ← require (not (no_items scopes)) scopes_required
    _ ← verify_actor_signature now user_id headers
    ok record {
      user_id = user_id;
      roles = header_items headers.actor_roles "user";
      scopes = scopes;
    }

  -- The actor of X-Demo-User and X-Demo-Role, outside production.
  unfoldable pub demo_actor : Option String → Option String → RequestActor
  demo_actor demo_user demo_role =
      let roles = header_items demo_role "user" in
      record {
        user_id = filled_or demo_user "user_demo";
        roles = roles;
        scopes = if contains roles "admin" then default_admin_scopes else default_user_scopes;
      }

  -- get_request_actor
  unfoldable pub get_request_actor :
      Bool → ℕ → Headers → Option String → Option String → Result AuthError RequestActor
  get_request_actor is_production now headers demo_user demo_role =
      if is_production
      then get_production_actor now headers
      else ok (demo_actor demo_user demo_role)

unfoldable pub require_same_user : Option String → RequestActor → Result {0, 0} AuthError (Unit {0})
require_same_user none actor = ok tt
require_same_user (some user_id) actor =
    if not (user_id == actor.user_id) && not (is_admin actor) then err other_user else ok tt

unfoldable pub require_admin : RequestActor → Result {0, 0} AuthError (Unit {0})
require_admin actor = require (is_admin actor) admin_required

unfoldable pub require_scope : RequestActor → String → Result {0, 0} AuthError (Unit {0})
require_scope actor scope = require (contains actor.scopes scope) (scope_missing scope)
