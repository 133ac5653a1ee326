-- ===== src/Router/Oauth.antt =====
-- packages/mcp-server/src/router/oauth: authorize.ts, token.ts, and the PKCE check of helpers.ts. The
-- items of the table are shown in one map for each prefix of their keys, as the values that their
-- JSON encodes; expiry, which DynamoDB does on its own, is left out. Random texts and the clock's
-- readings are arguments; SHA-256, base64url and the signing of tokens are parameters.
pub mod Sourced
pub mod Entitled
use kitstack.Base.{
  ℕ, Bool, true, false, ◌||◌, ◌&&◌, not, Option, none, some, List, [], ◌∷◌, Text, codes, ◌++◌,
  Result, ok, err, keep, if◌then◌else◌, ◌==◌, text_instance, or_else, any, Dictionary, map_get,
  map_set,
}

pub record AuthorizeParams : Type 0 where
  pub response_type : Text
  pub client_id : Text
  pub redirect_uri : Text
  pub code_challenge : Text
  pub code_challenge_method : Text
  pub state : Option Text

-- The `data` of an item `CODE#…`.
pub record CodeData : Type 0 where
  pub user_id : Text
  pub client_id : Text
  pub redirect_uri : Text
  pub code_challenge : Text
  pub code_challenge_method : Text

-- The `data` of an item `REFRESH#…`.
pub record TokenData : Type 0 where
  pub user_id : Text
  pub client_id : Text
  pub refreshed_at : ℕ

pub record TokenRequest : Type 0 where
  pub grant_type : Text
  pub code : Option Text
  pub redirect_uri : Option Text
  pub code_verifier : Option Text
  pub client_id : Option Text
  pub client_secret : Option Text
  pub refresh_token : Option Text

pub record TokenResponse : Type 0 where
  pub access_token : Text
  pub token_type : Text
  pub expires_in : ℕ
  pub refresh_token : Text

pub record IssuedCode : Type 0 where
  pub code : Text
  pub redirect_uri : Text
  pub state : Option Text

-- The items `CLIENT#…` (their redirect URIs), `AUTHSESSION#…`, `CODE#…` and `REFRESH#…`.
pub record OAuthState : Type 0 where
  pub clients : Dictionary (List Text)
  pub sessions : Dictionary AuthorizeParams
  pub auth_codes : Dictionary CodeData
  pub refresh_tokens : Dictionary TokenData

-- What the platform's libraries compute.
pub record Crypto : Type 0 where
  -- the challenge that a verifier has, as bytes, and the bytes of a challenge
  pub sha256 : Text → Text
  pub from_base64url : Text → Text
  pub sign_access_token : (user_id : Text) → Result Text Text

-- `deleteOAuthItem`
unfoldable pub map_delete {ℓ} : {V : Type ℓ} → Dictionary V → Text → Dictionary V
unfolding keep
map_delete entries key = keep (λ e. not (e.0 == key)) entries

abbrev pub is_missing : Text → Bool
is_missing text = text == []

-- The error, if the request is not valid.
unfoldable pub validate_authorize_request : OAuthState → AuthorizeParams → Option Text
unfolding map_get
validate_authorize_request store params =
    if not (params.response_type == codes "code")
    then some (codes "unsupported_response_type")
    else if is_missing params.client_id
    then some (codes "invalid_request: missing client_id")
    else if is_missing params.redirect_uri
    then some (codes "invalid_request: missing redirect_uri")
    else if is_missing params.code_challenge
    then some (codes "invalid_request: missing code_challenge")
    else if not (params.code_challenge_method == codes "S256")
    then some (codes "invalid_request: code_challenge_method must be S256")
    else elim (map_get store.clients params.client_id) [
      | none ↦ some (codes "invalid_client: client_id not registered")
      | some uris ↦
          if any (λ uri. uri == params.redirect_uri) uris
          then none
          else some (codes "invalid_request: redirect_uri not registered for this client")
    ]

unfoldable pub store_authorize_session :
    (session_id : Text) → AuthorizeParams → OAuthState → OAuthState
unfolding map_set
store_authorize_session session_id params store = record store {
  sessions = map_set store.sessions session_id params;
}

unfoldable pub code_data : (user_id : Text) → AuthorizeParams → CodeData
code_data user_id params = record {
  user_id = user_id;
  client_id = params.client_id;
  redirect_uri = params.redirect_uri;
  code_challenge = params.code_challenge;
  code_challenge_method =
      if is_missing params.code_challenge_method
      then codes "S256"
      else params.code_challenge_method;
}

unfoldable pub issue_auth_code :
    (user_id session_id : Text) → (code : Text) → OAuthState → Result Text IssuedCode × OAuthState
unfolding map_get map_set map_delete code_data
issue_auth_code user_id session_id code store = elim (map_get store.sessions session_id) [
  | none ↦ (err (codes "invalid_session: authorize session not found or expired"), store)
  | some params ↦ (
    ok (record { code = code; redirect_uri = params.redirect_uri; state = params.state }),
    record store {
      sessions = map_delete store.sessions session_id;
      auth_codes = map_set store.auth_codes code (code_data user_id params);
    },
  )
]

module _ (crypto : Crypto) where
  -- The lengths differ only where the bytes do.
  unfoldable pub verify_code_challenge : (verifier challenge method : Text) → Bool
  verify_code_challenge verifier challenge method =
      if not (method == codes "S256") || is_missing verifier || is_missing challenge
      then false
      else crypto.from_base64url challenge == crypto.sha256 verifier

  -- The tokens of a user and a client, with a new refresh token; or the error of the signing.
  unfoldable pub issue_tokens :
      (user_id client_id : Text)
      → (new_token : Text) → (now : ℕ) → OAuthState
      → Result Text TokenResponse × OAuthState
  unfolding map_set
  issue_tokens user_id client_id new_token now store = elim (crypto.sign_access_token user_id) [
    | err message ↦ (err message, store)
    | ok access_token ↦ (
      ok (record {
        access_token = access_token;
        token_type = codes "bearer";
        expires_in = 3600;
        refresh_token = new_token;
      }),
      record store {
        refresh_tokens =
            map_set store.refresh_tokens new_token
              (record { user_id = user_id; client_id = client_id; refreshed_at = now });
      },
    )
  ]

  unfoldable pub handle_auth_code_exchange :
      TokenRequest
      → (new_token : Text) → (now : ℕ) → OAuthState
      → Result Text TokenResponse × OAuthState
  unfolding map_get map_delete issue_tokens
  handle_auth_code_exchange body new_token now store =
      let code = or_else body.code [] in
      let verifier = or_else body.code_verifier [] in
      let redirect_uri = or_else body.redirect_uri [] in
      if is_missing code
      then (err (codes "invalid_request: missing code"), store)
      else if is_missing verifier
      then (err (codes "invalid_request: missing code_verifier"), store)
      else if is_missing redirect_uri
      then (err (codes "invalid_request: missing redirect_uri"), store)
      else elim (map_get store.auth_codes code) [
        | none ↦ (err (codes "invalid_grant: code not found or expired"), store)
        | some d ↦
            if not (d.redirect_uri == redirect_uri)
            then (err (codes "invalid_grant: redirect_uri mismatch"), store)
            else if not (verify_code_challenge verifier d.code_challenge d.code_challenge_method)
            then (err (codes "invalid_grant: code_verifier failed"), store)
            else issue_tokens d.user_id d.client_id new_token now
                (record store { auth_codes = map_delete store.auth_codes code })
      ]

  unfoldable pub handle_refresh_token_exchange :
      TokenRequest
      → (new_token : Text) → (now : ℕ) → OAuthState
      → Result Text TokenResponse × OAuthState
  unfolding map_get map_delete issue_tokens
  handle_refresh_token_exchange body new_token now store =
      let old = or_else body.refresh_token [] in
      if is_missing old
      then (err (codes "invalid_request: missing refresh_token"), store)
      else elim (map_get store.refresh_tokens old) [
        | none ↦ (err (codes "invalid_grant: refresh_token not found or expired"), store)
        | some d ↦
            issue_tokens d.user_id d.client_id new_token now
              (record store { refresh_tokens = map_delete store.refresh_tokens old })
      ]

  unfoldable pub handle_token_exchange :
      TokenRequest
      → (new_token : Text) → (now : ℕ) → OAuthState
      → Result Text TokenResponse × OAuthState
  unfolding handle_auth_code_exchange handle_refresh_token_exchange
  handle_token_exchange body new_token now store =
      if body.grant_type == codes "authorization_code"
      then handle_auth_code_exchange body new_token now store
      else if body.grant_type == codes "refresh_token"
      then handle_refresh_token_exchange body new_token now store
      else (err (codes "unsupported_grant_type"), store)
