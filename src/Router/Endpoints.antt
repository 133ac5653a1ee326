-- ===== src/Router/Endpoints.antt =====
-- The OAuth endpoints of packages/mcp-server/src/router/handler.ts: `/authorize`,
-- `/authorize/callback` and `/token`, on requests that are parsed, with their answers as data.
mod Tests
use kitstack.Base.{
  ℕ, Bool, true, false, Option, none, some, [], Text, codes, Result, ok, err, if◌then◌else◌, ◌==◌,
  text_instance, or_else,
}
use kitstack.Router.Oauth.{
  AuthorizeParams, TokenRequest, TokenResponse, IssuedCode, OAuthState, Crypto, is_missing,
  validate_authorize_request, store_authorize_session, issue_auth_code, handle_token_exchange,
}

-- The query of `/authorize`.
pub record AuthorizeQuery : Type 0 where
  pub response_type : Option Text
  pub client_id : Option Text
  pub redirect_uri : Option Text
  pub code_challenge : Option Text
  pub code_challenge_method : Option Text
  pub state : Option Text

pub data OAuthRequest : Type 0 where
  authorize : AuthorizeQuery → (session_id : Text) → OAuthRequest
  callback : (user_id session_id : Option Text) (code : Text) → OAuthRequest
  token : TokenRequest → (new_token : Text) (now : ℕ) → OAuthRequest

pub data OAuthReply : Type 0 where
  refused : Text → OAuthReply
  login : (session_id : Text) → OAuthReply
  redirected : IssuedCode → OAuthReply
  tokens : TokenResponse → OAuthReply

-- `value || fallback`
abbrev pub text_or : Option Text → Text → Text
text_or none fallback = fallback
text_or (some value) fallback = if is_missing value then fallback else value

unfoldable pub authorize_params : AuthorizeQuery → AuthorizeParams
authorize_params query = record {
  response_type = text_or query.response_type [];
  client_id = text_or query.client_id [];
  redirect_uri = text_or query.redirect_uri [];
  code_challenge = text_or query.code_challenge [];
  code_challenge_method = text_or query.code_challenge_method (codes "S256");
  state = query.state;
}

unfoldable pub authorize_endpoint :
    AuthorizeQuery → (session_id : Text) → OAuthState → OAuthReply × OAuthState
unfolding authorize_params validate_authorize_request store_authorize_session
authorize_endpoint query session_id store =
    let params = authorize_params query in
    elim (validate_authorize_request store params) [
      | some error ↦ (OAuthReply.refused error, store)
      | none ↦ (OAuthReply.login session_id, store_authorize_session session_id params store)
    ]

abbrev pub code_reply : Result Text IssuedCode × OAuthState → OAuthReply × OAuthState
code_reply (ok issued, store) = (OAuthReply.redirected issued, store)
code_reply (err error, store) = (OAuthReply.refused error, store)

unfoldable pub callback_endpoint :
    (user_id session_id : Option Text) → (code : Text) → OAuthState → OAuthReply × OAuthState
unfolding issue_auth_code
callback_endpoint user_id session_id code store =
    let user = or_else user_id [] in
    let session = or_else session_id [] in
    if is_missing user
    then (OAuthReply.refused (codes "Authentication failed"), store)
    else if is_missing session
    then (OAuthReply.refused (codes "Missing session_id"), store)
    else code_reply (issue_auth_code user session code store)

abbrev pub token_reply : Result Text TokenResponse × OAuthState → OAuthReply × OAuthState
token_reply (ok response, store) = (OAuthReply.tokens response, store)
token_reply (err error, store) = (OAuthReply.refused error, store)

unfoldable pub serve_oauth : Crypto → OAuthRequest → OAuthState → OAuthReply × OAuthState
unfolding authorize_endpoint callback_endpoint handle_token_exchange
serve_oauth crypto (OAuthRequest.authorize query session_id) store =
    authorize_endpoint query session_id store
serve_oauth crypto (OAuthRequest.callback user_id session_id code) store =
    callback_endpoint user_id session_id code store
serve_oauth crypto (OAuthRequest.token body new_token now) store =
    token_reply (handle_token_exchange crypto body new_token now store)
