-- ===== src/Security/Claims.antt =====
-- security/actor_signature.py: the canonical texts that are signed, and the signatures.
use production_support_agent.Prelude.{
  String, ◌≡◌, true, not, Option, List, [], ◌∷◌, map, if◌then◌else◌, nat_eq, string_eq, is_some, ℤ,
  all_chars, Char, select, split, join, value_or, after_prefix, is_hex_digit, is_blank, before,
  strip,
}

-- `hmac.new(key, text, sha256).hexdigest()`, `sha256(text).hexdigest()`, `str.upper`, and `int(text)`
-- or the ValueError that it raises.
pub record Platform : Type 0 where
  pub hmac_sha256 : String → String → String
  pub sha256 : String → String
  pub upper : String → String
  pub int : String → Option ℤ

-- What the code relies on: digests are hexadecimal, and a text in upper case stays as it is.
pub record IsLawful (platform : Platform) : Type 0 where
  pub hmac_hex : (key text : String) → all_chars is_hex_digit (platform.hmac_sha256 key text) ≡ true
  pub sha256_hex : (text : String) → all_chars is_hex_digit (platform.sha256 text) ≡ true
  pub upper_upper : (text : String) → platform.upper (platform.upper text) ≡ platform.upper text

-- `str | Sequence[str] | None`
pub data CsvValue : Type 0 where
  missing : CsvValue
  text : String → CsvValue
  items : List String → CsvValue

abbrev pub comma : Char
comma = ","

abbrev pub newline : Char
newline = "\n"

-- `[item.strip() for item in items if item.strip()]`
unfoldable pub stripped_items : List String → List String
stripped_items xs = select (λ item. not (is_blank item)) (map strip xs)

-- The items of a value, a text of commas or a list.
unfoldable pub csv_items : CsvValue → String → List String
csv_items missing default = split comma default
csv_items (text value) default = split comma value
csv_items (items xs) default = xs

unfoldable pub canonical_csv : CsvValue → String → String
canonical_csv value default = join comma (stripped_items (csv_items value default))

unfoldable pub canonical_actor_claims : String → String → CsvValue → CsvValue → String → String
canonical_actor_claims tenant_id user_id roles_header scopes_header timestamp = join newline (
    "v1"
    ∷ tenant_id
    ∷ user_id
    ∷ canonical_csv roles_header "user"
    ∷ canonical_csv scopes_header ""
    ∷ timestamp
    ∷ [])

-- The arguments of canonical_request_claims and sign_request_claims.
pub record RequestClaims : Type 0 where
  pub tenant_id : String
  pub user_id : String
  pub roles_header : CsvValue
  pub scopes_header : CsvValue
  pub timestamp : String
  pub nonce : String
  pub method : String
  pub path : String
  pub body_hash : String

module _ (platform : Platform) where
  -- The lines of the canonical text.
  abbrev pub claim_lines : RequestClaims → List String
  claim_lines c =
      "v1"
      ∷ c.tenant_id
      ∷ c.user_id
      ∷ canonical_csv c.roles_header "user"
      ∷ canonical_csv c.scopes_header ""
      ∷ c.timestamp
      ∷ c.nonce
      ∷ platform.upper c.method
      ∷ c.path
      ∷ c.body_hash
      ∷ []

  unfoldable pub canonical_request_claims : RequestClaims → String
  canonical_request_claims c = join newline (claim_lines c)

  unfoldable pub sign_actor_claims :
      String → String → String → CsvValue → CsvValue → String → String
  sign_actor_claims secret tenant_id user_id roles_header scopes_header timestamp =
      platform.hmac_sha256 secret
        (canonical_actor_claims tenant_id user_id roles_header scopes_header timestamp)

  unfoldable pub sign_request_claims : String → RequestClaims → String
  sign_request_claims secret c = platform.hmac_sha256 secret (canonical_request_claims c)

  -- body_sha256; no body is the empty one
  abbrev pub body_sha256 : Option String → String
  body_sha256 body = platform.sha256 (value_or body "")

abbrev pub signature_prefix : String
signature_prefix = "sha256="

unfoldable pub format_actor_signature : String → String
format_actor_signature digest =
    if is_some (after_prefix signature_prefix digest)
    then digest
    else before signature_prefix digest
