-- ===== src/Router/Endpoints/Tests.antt =====
-- The OAuth endpoints of packages/mcp-server/src/router on a short run, and their property there.
use kitstack.Base.{
  ◌≡◌, ◌⊎◌, refl, false, none, some, List, [], ◌∷◌, ◌++◌, Text, codes, ok, ◌==◌, text_instance,
  text_eq, or_else, Dictionary, map_get,
}
use kitstack.Router.Oauth.{TokenRequest, TokenResponse, OAuthState, Crypto, verify_code_challenge}
use kitstack.Router.Oauth.Entitled.{IsEntitled, Reached, serve_oauth-IsEntitled}
use kitstack.Router.Endpoints.{AuthorizeQuery, OAuthRequest, OAuthReply, serve_oauth}

abbrev crypto : Crypto
crypto = record {
  sha256 = λ t. t;
  from_base64url = λ t. t;
  sign_access_token = λ user_id. ok (codes "jwt-" ++ user_id);
}

abbrev clients : Dictionary (List Text)
clients = (codes "app", codes "uri" ∷ []) ∷ []

abbrev fresh : OAuthState
fresh = record { clients = clients; sessions = []; auth_codes = []; refresh_tokens = [] }

abbrev query : AuthorizeQuery
query = record {
  response_type = some (codes "code");
  client_id = some (codes "app");
  redirect_uri = some (codes "uri");
  code_challenge = some (codes "v");
  code_challenge_method = none;
  state = none;
}

abbrev asking : OAuthRequest
asking = OAuthRequest.authorize query (codes "s")

abbrev calling_back : OAuthRequest
calling_back = OAuthRequest.callback (some (codes "alice")) (some (codes "s")) (codes "c")

abbrev asked : OAuthState
asked = (serve_oauth crypto asking fresh).1

abbrev logged_in : OAuthState
logged_in = (serve_oauth crypto calling_back asked).1

abbrev exchange : TokenRequest
exchange = record {
  grant_type = codes "authorization_code";
  code = some (codes "c");
  redirect_uri = some (codes "uri");
  code_verifier = some (codes "v");
  client_id = none;
  client_secret = none;
  refresh_token = none;
}

abbrev response : TokenResponse
response = record {
  access_token = codes "jwt-alice";
  token_type = codes "bearer";
  expires_in = 3600;
  refresh_token = codes "r1";
}

abbrev past : List OAuthRequest
past = calling_back ∷ asking ∷ []

reached : Reached crypto clients past logged_in
reached =
    Reached.next calling_back logged_in (Reached.next asking asked (Reached.start fresh refl) refl)
      refl

answered :
    (serve_oauth crypto (OAuthRequest.token exchange (codes "r1") 7) logged_in).0
    ≡ OAuthReply.tokens response
unfolding serve_oauth text_eq verify_code_challenge
answered = refl

serve_oauth-IsEntitled_example :
    IsEntitled crypto clients past exchange response
    × (((exchange.grant_type == codes "authorization_code") ≡ false)
        ⊎ (map_get
              (serve_oauth crypto
                (OAuthRequest.token exchange (codes "r1") 7)
                logged_in).1.auth_codes
              (or_else exchange.code [])
            ≡ none))
serve_oauth-IsEntitled_example =
    serve_oauth-IsEntitled crypto clients past logged_in exchange (codes "r1") 7 response reached
      answered
