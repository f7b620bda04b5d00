-- ===== src/Security/Headers.antt =====
-- security/actor_signature.py: the headers that the gateway builds.
use production_support_agent.Security.Claims.{
  CsvValue, Platform, RequestClaims, format_actor_signature, canonical_csv, text,
  sign_request_claims, sign_actor_claims, body_sha256,
}
use production_support_agent.Prelude.{
  String, Option, none, some, if◌then◌else◌, nat_eq, string_eq, value_or, is_blank,
}

-- The headers of a request that the API reads, as `headers.get(name)`.
pub record Headers : Type 0 where
  pub internal_auth : Option String
  pub actor_user_id : Option String
  pub actor_roles : Option String
  pub actor_scopes : Option String
  pub actor_timestamp : Option String
  pub actor_signature : Option String
  pub request_nonce : Option String
  pub request_body_sha256 : Option String
  pub request_signature : Option String

-- The arguments that both functions take; `timestamp` with the clock's second as its default.
pub record ActorArguments : Type 0 where
  pub internal_api_key : String
  pub signature_secret : String
  pub tenant_id : String
  pub user_id : String
  pub roles : CsvValue
  pub scopes : CsvValue
  pub timestamp : Option String

module _ (platform : Platform) (clock : String) where
  unfoldable pub build_actor_headers : ActorArguments → Headers
  build_actor_headers a =
      let issued_at = value_or a.timestamp clock in
      let roles_header = canonical_csv a.roles "user" in
      let scopes_header = canonical_csv a.scopes "" in
      let digest =
        sign_actor_claims platform a.signature_secret a.tenant_id a.user_id (text roles_header)
          (text scopes_header) issued_at in
      record {
        internal_auth = some a.internal_api_key;
        actor_user_id = some a.user_id;
        actor_roles = some roles_header;
        actor_scopes = some scopes_header;
        actor_timestamp = some issued_at;
        actor_signature = some (format_actor_signature digest);
        request_nonce = none;
        request_body_sha256 = none;
        request_signature = none;
      }

  -- `nonce or token_urlsafe(24)`
  unfoldable pub chosen_nonce : Option String → String → String
  chosen_nonce none token = token
  chosen_nonce (some nonce) token = if is_blank nonce then token else nonce

  -- The claims that build_signed_request_headers signs.
  abbrev pub built_claims :
      ActorArguments → String → String → Option String → Option String → String → RequestClaims
  built_claims a method path body nonce token = record {
    tenant_id = a.tenant_id;
    user_id = a.user_id;
    roles_header = text (canonical_csv a.roles "user");
    scopes_header = text (canonical_csv a.scopes "");
    timestamp = value_or a.timestamp clock;
    nonce = chosen_nonce nonce token;
    method = method;
    path = path;
    body_hash = body_sha256 platform body;
  }

  unfoldable pub build_signed_request_headers :
      ActorArguments → String → String → Option String → Option String → String → Headers
  build_signed_request_headers a method path body nonce token =
      let claims = built_claims a method path body nonce token in
      record (build_actor_headers a) {
        request_nonce = some claims.nonce;
        request_body_sha256 = some claims.body_hash;
        request_signature =
            some (format_actor_signature (sign_request_claims platform a.signature_secret claims));
      }
