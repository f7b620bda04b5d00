-- ===== src/Security/Requests.antt =====
-- api/request_signature.py, and what the middleware of api/main.py does with it.
use production_support_agent.Nonces.{Nonce, reserve_api_request_nonce}
use production_support_agent.Security.Claims.{
  Platform, RequestClaims, text, canonical_request_claims, body_sha256, signature_prefix,
  sign_request_claims,
}
use production_support_agent.Security.Headers.{Headers}
use production_support_agent.Prelude.{
  ℕ, ◌+◌, ◌-◌, ◌*◌, String, Bool, true, false, ◌&&◌, Option, none, some, List, [], ◌∷◌, leb,
  if◌then◌else◌, ◌==◌, ◌>>=◌, nat_eq, string_eq, ok, err, Result, contains, is_blank, is_ascii, ℤ,
  before, pos, negsuc, count, remove_prefix,
}

-- A RequestSignatureError by its text, or the TypeError of `hmac.compare_digest`, which takes texts in
-- ASCII only.
pub data SignatureError : Type 0 where
  header_required : String → SignatureError
  secret_required nonce_too_short bad_timestamp expired : SignatureError
  body_mismatch signature_invalid store_required nonce_used : SignatureError
  not_ascii : SignatureError

pub record Settings : Type 0 where
  pub app_tenant_id : String
  pub app_internal_api_key : Option String
  pub app_actor_signature_secret : Option String
  pub app_actor_signature_max_age_seconds : ℕ
  pub require_request_signature : Bool
  -- whether app_database_url names a SQLite store
  pub has_sqlite_store : Bool

pub record Request : Type 0 where
  pub headers : Headers
  pub method : String
  pub path : String
  pub query : String

pub record VerifiedRequestSignature : Type 0 where
  pub tenant_id : String
  pub actor_user_id : String
  pub nonce : String
  pub request_hash : String
  pub expires_at : ℕ

abbrev pub exempt_paths : List String
exempt_paths =
    "/api/v1/health" ∷ "/api/v1/ready" ∷ "/metrics" ∷ "/docs" ∷ "/openapi.json"
    ∷ "/api/v1/webhooks/monitor/alerts" ∷ []

unfoldable pub request_signature_required : Settings → String → Bool
request_signature_required settings path =
    if contains exempt_paths path then false else settings.require_request_signature

-- _path_with_query
unfoldable pub path_with_query : Request → String
path_with_query request =
    if is_blank request.query then request.path else before request.path (before "?" request.query)

-- _required_header
unfoldable pub required_header : Option String → String → Result SignatureError String
required_header none name = err (header_required name)
required_header (some value) name = if is_blank value then err (header_required name) else ok value

-- `if not condition: raise error`
abbrev pub check : Bool → SignatureError → Result {0, 0} SignatureError (Unit {0})
check true error = ok tt
check false error = err error

-- `if not secret: raise`
unfoldable pub required_secret : Option String → Result SignatureError String
required_secret none = err secret_required
required_secret (some secret) = if is_blank secret then err secret_required else ok secret

-- `compare_digest`
unfoldable pub compare_digest : String → String → Result SignatureError Bool
compare_digest a b = if is_ascii a && is_ascii b then ok (a == b) else err not_ascii

-- _parse_timestamp, of what `int` read
unfoldable pub parse_timestamp : Option ℤ → Result SignatureError ℤ
parse_timestamp none = err bad_timestamp
parse_timestamp (some issued_at) = ok issued_at

abbrev pub second : ℕ
second = 1_000_000

-- `abs(time.time() - issued_at)`
unfoldable pub age : ℕ → ℤ → ℕ
age now (pos n) = (now - n * second) + (n * second - now)
age now (negsuc n) = now + (n + 1) * second

-- `issued_at + timedelta(seconds=max_age)`; a time before 1970 is not reached, since `age` is at most
-- `max_age` by then.
unfoldable pub expiry : ℕ → ℤ → ℕ
expiry max_age (pos n) = (n + max_age) * second
expiry max_age (negsuc n) = (max_age - (n + 1)) * second

module _ (platform : Platform) (settings : Settings) where
  -- The claims that a request is verified against.
  unfoldable pub verified_claims :
      Request → String → String → String → String → String → String → RequestClaims
  verified_claims request user_id roles_header scopes_header timestamp nonce body_hash = record {
    tenant_id = settings.app_tenant_id;
    user_id = user_id;
    roles_header = text roles_header;
    scopes_header = text scopes_header;
    timestamp = timestamp;
    nonce = nonce;
    method = platform.upper request.method;
    path = path_with_query request;
    body_hash = body_hash;
  }

  -- The result, after all checks.
  abbrev pub verified : RequestClaims → ℤ → VerifiedRequestSignature
  verified claims issued_at = record {
    tenant_id = settings.app_tenant_id;
    actor_user_id = claims.user_id;
    nonce = claims.nonce;
    request_hash = platform.sha256 (canonical_request_claims platform claims);
    expires_at = expiry settings.app_actor_signature_max_age_seconds issued_at;
  }

  -- verify_request_signature, at the time `now`
  unfoldable pub verify_request_signature :
      ℕ → Request → String → Result SignatureError VerifiedRequestSignature
  verify_request_signature now request body = do
    user_id ← required_header request.headers.actor_user_id "X-Actor-User-Id"
    roles_header ← required_header request.headers.actor_roles "X-Actor-Roles"
    scopes_header ← required_header request.headers.actor_scopes "X-Actor-Scopes"
    timestamp ← required_header request.headers.actor_timestamp "X-Actor-Timestamp"
    nonce ← required_header request.headers.request_nonce "X-Request-Nonce"
    body_hash ← required_header request.headers.request_body_sha256 "X-Request-Body-SHA256"
    signature ← required_header request.headers.request_signature "X-Request-Signature"
    secret ← required_secret settings.app_actor_signature_secret
    _ ← check (leb 16 (count nonce)) nonce_too_short
    issued_at ← parse_timestamp (platform.int timestamp)
    _ ←
        check (leb (age now issued_at) (settings.app_actor_signature_max_age_seconds * second))
          expired
    same_body ← compare_digest body_hash (body_sha256 platform (some body))
    _ ← check same_body body_mismatch
    let claims =
        verified_claims request user_id roles_header scopes_header timestamp nonce body_hash
    same_signature ←
        compare_digest (remove_prefix signature_prefix signature)
          (sign_request_claims platform secret claims)
    _ ← check same_signature signature_invalid
    ok (verified claims issued_at)

  -- The row that reserve_request_nonce asks for, at the time `now`.
  abbrev pub asked_nonce : ℕ → VerifiedRequestSignature → Nonce
  asked_nonce now v = record {
    tenant_id = v.tenant_id;
    actor_user_id = v.actor_user_id;
    nonce = v.nonce;
    request_hash = v.request_hash;
    created_at = now;
    expires_at = v.expires_at;
  }

  -- `if not reserved: raise`
  abbrev pub nonce_reserved :
      VerifiedRequestSignature
      → List Nonce × Bool
      → List Nonce × Result SignatureError VerifiedRequestSignature
  nonce_reserved v (rows, true) = (rows, ok v)
  nonce_reserved v (rows, false) = (rows, err nonce_used)

  -- reserve_request_nonce
  unfoldable pub reserve_request_nonce :
      ℕ
      → List Nonce
      → VerifiedRequestSignature
      → List Nonce × Result SignatureError VerifiedRequestSignature
  reserve_request_nonce now rows v =
      if settings.has_sqlite_store
      then nonce_reserved v (reserve_api_request_nonce rows (asked_nonce now v))
      else (rows, err store_required)

  abbrev pub reserve_verified :
      ℕ
      → List Nonce
      → Result SignatureError VerifiedRequestSignature
      → List Nonce × Result SignatureError VerifiedRequestSignature
  reserve_verified now rows (err raised) = (rows, err raised)
  reserve_verified now rows (ok v) = reserve_request_nonce now rows v

  -- The body of the middleware's `try`: verify at one time, reserve at a later one.
  unfoldable pub accept_request :
      ℕ
      → ℕ
      → List Nonce
      → Request
      → String
      → List Nonce × Result SignatureError VerifiedRequestSignature
  accept_request verified_at reserved_at rows request body =
      reserve_verified reserved_at rows (verify_request_signature verified_at request body)

-- What the middleware makes of a request before it counts it: it goes on, the answer 401, or an
-- exception that it does not catch.
pub data Gate : Type 0 where
  passed unauthorized raised : Gate

unfoldable pub gate_of {ℓ} : {A : Type ℓ} → Result SignatureError A → Gate
gate_of (ok v) = passed
gate_of (err not_ascii) = raised
gate_of (err error) = unauthorized

-- The first part of production_request_signature_middleware
unfoldable pub signature_gate :
    Platform → Settings → ℕ → ℕ → List Nonce → Request → String → List Nonce × Gate
signature_gate platform settings verified_at reserved_at rows request body =
    let taken = accept_request platform settings verified_at reserved_at rows request body in
    if request_signature_required settings request.path
    then (taken.0, gate_of taken.1)
    else (rows, passed)
