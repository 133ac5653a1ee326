-- ===== src/Router/Oauth/Sourced.antt =====
-- Where the items of the OAuth endpoints of packages/mcp-server/src/router come from.
use mathlib.Core.Path.{subst}
use kitstack.Base.{
  codes, any, mem_of_any, ℕ, ◌≡◌, ◌⊎◌, inl, inr, refl, ap, Option, none, some, List, [], ◌∷◌, Text,
  Result, ok, err, keep, Memᴰ, Bool-cases, Option-cases, Result-cases, if◌then◌else◌, ◌==◌,
  text_instance, text_eq, Dictionary, map_get, map_set, map_get-map_set, eq_iff, arith,
}
use kitstack.Router.Oauth.{
  AuthorizeParams, CodeData, TokenData, IssuedCode, OAuthState, Crypto, map_delete, is_missing,
  validate_authorize_request, store_authorize_session, code_data, issue_auth_code, issue_tokens,
}
use kitstack.Router.Endpoints.{
  AuthorizeQuery, OAuthRequest, authorize_params, authorize_endpoint, callback_endpoint, code_reply,
}

pub map_get-map_delete :
    {V : Type 0} (entries : Dictionary V) (key wanted : Text)
    → map_get (map_delete entries key) wanted
      ≡ (if wanted == key then none else map_get entries wanted)
unfolding map_get map_delete keep
map_get-map_delete [] key wanted = ground (arith, eq_iff wanted key)
map_get-map_delete ((k, x) ∷ rest) key wanted =
    ground
      (arith, map_get-map_delete rest key wanted, eq_iff k key, eq_iff wanted k, eq_iff wanted key)

-- What is found behind a deletion was there before it.
pub found_before :
    {V : Type 0} (entries : Dictionary V) (key wanted : Text) (v : V)
    → map_get (map_delete entries key) wanted ≡ some v
    → map_get entries wanted ≡ some v
found_before entries key wanted v h =
    let e = map_get-map_delete entries key wanted in
    elim (Bool-cases (wanted == key)) [
      | inl same ↦ let h' = rw (e, same) at h in absurd (cc)
      | inr other ↦ rw (e, other) at h
    ]

-- What is found behind an assignment is the new value, or was there before it.
pub found_set :
    {V : Type 0} (entries : Dictionary V) (key wanted : Text) (value v : V)
    → map_get (map_set entries key value) wanted ≡ some v
    → ((wanted ≡ key) × (v ≡ value)) ⊎ (map_get entries wanted ≡ some v)
found_set entries key wanted value v h =
    let e = map_get-map_set entries key wanted value in
    elim (Bool-cases (wanted == key)) [
      | inl same ↦ let h' = rw (e, same) at h in inl ((eq_iff wanted key).0 same, cc)
      | inr other ↦ inr (rw (e, other) at h)
    ]

-- A request for a code that names a registered client and one of its redirect URIs, and that comes with
-- a challenge for the method S256.
pub record IsRegistered (clients : Dictionary (List Text)) (params : AuthorizeParams) : Type 0 where
  pub redirect_uris : List Text
  pub known : map_get clients params.client_id ≡ some redirect_uris
  pub allowed : Memᴰ params.redirect_uri redirect_uris
  pub for_code : params.response_type ≡ codes "code"
  pub by_hash : params.code_challenge_method ≡ codes "S256"
  pub challenged : ¬ (params.code_challenge ≡ [])

validated-IsRegistered :
    (store : OAuthState) (params : AuthorizeParams)
    → validate_authorize_request store params ≡ none
    → IsRegistered store.clients params
unfolding validate_authorize_request
validated-IsRegistered store params h = elim (Bool-cases (params.response_type == codes "code")) [
  | inr bad ↦ absurd (cc (rw (validate_authorize_request, bad) at h))
  | inl code ↦ elim (Bool-cases (is_missing params.client_id)) [
    | inl bad ↦ absurd (cc (rw (validate_authorize_request, code, bad) at h))
    | inr client ↦ elim (Bool-cases (is_missing params.redirect_uri)) [
      | inl bad ↦ absurd (cc (rw (validate_authorize_request, code, client, bad) at h))
      | inr uri ↦ elim (Bool-cases (is_missing params.code_challenge)) [
        | inl bad ↦ absurd (cc (rw (validate_authorize_request, code, client, uri, bad) at h))
        | inr challenge ↦ elim (Bool-cases (params.code_challenge_method == codes "S256")) [
          | inr bad ↦
              absurd (cc (rw (validate_authorize_request, code, client, uri, challenge, bad) at h))
          | inl method ↦ elim (Option-cases (map_get store.clients params.client_id)) [
            | inl unknown ↦ absurd (
                cc (
                  rw (validate_authorize_request, code, client, uri, challenge, method, unknown) at
                    h))
            | inr (uris, known) ↦ elim (Bool-cases (any (λ uri. uri == params.redirect_uri) uris)) [
              | inr other ↦ absurd (
                  cc (
                    rw
                      (
                        validate_authorize_request, code, client, uri, challenge, method, known,
                        other,
                      )
                      at h))
              | inl listed ↦
                  let (uri, m, same) = mem_of_any (λ uri. uri == params.redirect_uri) uris listed in
                  record {
                    redirect_uris = uris;
                    known = known;
                    allowed = subst (λ x. Memᴰ x uris) ((eq_iff uri params.redirect_uri).0 same) m;
                    for_code = (eq_iff params.response_type (codes "code")).0 code;
                    by_hash = (eq_iff params.code_challenge_method (codes "S256")).0 method;
                    challenged =
                        λ e. absurd (cc ((eq_iff params.code_challenge []).1 e, challenge));
                  }
            ]
          ]
        ]
      ]
    ]
  ]
]

-- The code is of a user that a callback named, for a session that an authorization request asked for
-- whose client and redirect URI are registered; the requests are those so far, the latest first.
pub record IsGranted (clients : Dictionary (List Text)) (past : List OAuthRequest) (d : CodeData)
    : Type 0 where
  pub session_id : Text
  pub code : Text
  pub query : AuthorizeQuery
  pub named : Memᴰ (OAuthRequest.callback (some d.user_id) (some session_id) code) past
  pub asked : Memᴰ (OAuthRequest.authorize query session_id) past
  pub registered : IsRegistered clients (authorize_params query)
  pub same : d ≡ code_data d.user_id (authorize_params query)

-- What the store holds comes from the requests so far.
pub record IsSourced (clients : Dictionary (List Text)) (past : List OAuthRequest)
    (store : OAuthState) : Type 0 where
  pub clients_kept : store.clients ≡ clients
  pub sessions :
      (session_id : Text) (params : AuthorizeParams)
      → map_get store.sessions session_id ≡ some params
      → (query : AuthorizeQuery) × Memᴰ (OAuthRequest.authorize query session_id) past
        × IsRegistered clients (authorize_params query)
        × (params ≡ authorize_params query)
  pub auth_codes :
      (code : Text) (d : CodeData)
      → map_get store.auth_codes code ≡ some d
      → IsGranted clients past d
  pub refresh_tokens :
      (token : Text) (t : TokenData)
      → map_get store.refresh_tokens token ≡ some t
      → (d : CodeData) × IsGranted clients past d
        × (d.user_id ≡ t.user_id)
        × (d.client_id ≡ t.client_id)

IsGranted-later :
    {clients : Dictionary (List Text)} (r : OAuthRequest) (past : List OAuthRequest) (d : CodeData)
    → IsGranted clients past d
    → IsGranted clients (r ∷ past) d
IsGranted-later r past d g = record {
  session_id = g.session_id;
  code = g.code;
  query = g.query;
  named = Memᴰ.tail g.named;
  asked = Memᴰ.tail g.asked;
  registered = g.registered;
  same = g.same;
}

pub IsSourced-later :
    {clients : Dictionary (List Text)} (r : OAuthRequest) (past : List OAuthRequest)
    (store : OAuthState)
    → IsSourced clients past store
    → IsSourced clients (r ∷ past) store
IsSourced-later r past store h = record {
  clients_kept = h.clients_kept;
  sessions =
      λ id params e. let (q, m, v, same) = h.sessions id params e in (q, Memᴰ.tail m, v, same);
  auth_codes = λ code d e. IsGranted-later r past d (h.auth_codes code d e);
  refresh_tokens = λ token t e.
      let (d, g, u, c) = h.refresh_tokens token t e in (d, IsGranted-later r past d g, u, c);
}

pub authorize-IsSourced :
    {clients : Dictionary (List Text)} (past : List OAuthRequest) (query : AuthorizeQuery)
    (session_id : Text) (store : OAuthState)
    → IsSourced clients past store
    → IsSourced clients
        (OAuthRequest.authorize query session_id ∷ past)
        (authorize_endpoint query session_id store).1
unfolding authorize_endpoint store_authorize_session
authorize-IsSourced past query session_id store h =
    let r = OAuthRequest.authorize query session_id in
    let old = IsSourced-later r past store h in
    let params = authorize_params query in
    elim (Option-cases (validate_authorize_request store params)) [
      | inr (error, bad) ↦ rw (authorize_endpoint, bad) old
      | inl good ↦
          rw (authorize_endpoint, good)
            (record {
              clients_kept = h.clients_kept;
              sessions = λ id p e. elim (found_set store.sessions session_id id params p e) [
                | inl (here, same) ↦ (
                  query,
                  Memᴰ.head (ap (OAuthRequest.authorize query) here),
                  subst (λ c. IsRegistered c params) h.clients_kept
                      (validated-IsRegistered store params good),
                  same,
                )
                | inr there ↦ old.sessions id p there
              ];
              auth_codes = old.auth_codes;
              refresh_tokens = old.refresh_tokens;
            })
    ]

code_reply_world : (out : Result Text IssuedCode × OAuthState) → (code_reply out).1 ≡ out.1
code_reply_world (ok issued, store) = refl
code_reply_world (err error, store) = refl

issued-IsSourced :
    {clients : Dictionary (List Text)} (past : List OAuthRequest) (user_id session_id code : Text)
    (store : OAuthState)
    → IsSourced clients past store
    → IsSourced clients
        (OAuthRequest.callback (some user_id) (some session_id) code ∷ past)
        (issue_auth_code user_id session_id code store).1
unfolding issue_auth_code
issued-IsSourced past user_id session_id code store h =
    let r = OAuthRequest.callback (some user_id) (some session_id) code in
    let old = IsSourced-later r past store h in
    elim (Option-cases (map_get store.sessions session_id)) [
      | inl none_there ↦ rw (issue_auth_code, none_there) old
      | inr (params, there) ↦
          let (query, asked, registered, same) = old.sessions session_id params there in
          let d = code_data user_id params in
          rw (issue_auth_code, there)
            (record {
              clients_kept = old.clients_kept;
              sessions =
                  λ id p e. old.sessions id p (found_before store.sessions session_id id p e);
              auth_codes = λ c x e. elim (found_set store.auth_codes code c d x e) [
                | inl (here, new) ↦ rw new (record {
                  session_id = session_id;
                  code = code;
                  query = query;
                  named = Memᴰ.head refl;
                  asked = asked;
                  registered = registered;
                  same = unfold code_data in rw same refl;
                })
                | inr was ↦ old.auth_codes c x was
              ];
              refresh_tokens = old.refresh_tokens;
            })
    ]

pub callback-IsSourced :
    {clients : Dictionary (List Text)} (past : List OAuthRequest) (user_id session_id : Option Text)
    (code : Text) (store : OAuthState)
    → IsSourced clients past store
    → IsSourced clients
        (OAuthRequest.callback user_id session_id code ∷ past)
        (callback_endpoint user_id session_id code store).1
unfolding callback_endpoint text_eq
callback-IsSourced past none session_id code store h =
    IsSourced-later (OAuthRequest.callback none session_id code) past store h
callback-IsSourced past (some user) none code store h =
    let old = IsSourced-later (OAuthRequest.callback (some user) none code) past store h in
    elim (Bool-cases (is_missing user)) [
      | inl absent ↦ simp absent old
      | inr given ↦ simp given old
    ]
callback-IsSourced past (some user) (some session) code store h =
    let old =
      IsSourced-later (OAuthRequest.callback (some user) (some session) code) past store h in
    elim (Bool-cases (is_missing user)) [
      | inl absent ↦ simp absent old
      | inr given ↦ elim (Bool-cases (is_missing session)) [
        | inl absent ↦ simp (given, absent) old
        | inr asked ↦
            simp (given, asked, code_reply_world (issue_auth_code user session code store))
              (issued-IsSourced past user session code store h)
      ]
    ]

module _ (crypto : Crypto) where
  pub tokens-IsSourced :
      {clients : Dictionary (List Text)} (past : List OAuthRequest) (d : CodeData)
      (user_id client_id new_token : Text) (now : ℕ) (store : OAuthState)
      → IsSourced clients past store
      → IsGranted clients past d
      → d.user_id ≡ user_id
      → d.client_id ≡ client_id
      → IsSourced clients past (issue_tokens crypto user_id client_id new_token now store).1
  unfolding issue_tokens
  tokens-IsSourced past d user_id client_id new_token now store h g same_user same_client =
      elim (Result-cases (crypto.sign_access_token user_id)) [
        | inl (m, bad) ↦ rw (issue_tokens, bad) h
        | inr (a, good) ↦
            rw (issue_tokens, good)
              (record {
                clients_kept = h.clients_kept;
                sessions = h.sessions;
                auth_codes = h.auth_codes;
                refresh_tokens = λ token t e.
                    elim (found_set store.refresh_tokens new_token token _ t e) [
                      | inl (here, new) ↦ rw new (d, g, same_user, same_client)
                      | inr was ↦ h.refresh_tokens token t was
                    ];
              })
      ]
