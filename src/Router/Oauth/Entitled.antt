-- ===== src/Router/Oauth/Entitled.antt =====
-- For whom the OAuth endpoints of packages/mcp-server/src/router issue tokens.
use kitstack.Base.{
  ℕ, ◌≡◌, ◌⊎◌, inl, inr, refl, ap, true, false, none, some, List, [], ◌∷◌, Text, codes, Result, ok,
  err, Bool-cases, Option-cases, Result-cases, ok_injective, ◌==◌, text_instance, or_else,
  Dictionary, map_get, eq_refl,
}
use kitstack.Router.Oauth.{
  CodeData, TokenData, TokenRequest, TokenResponse, OAuthState, Crypto, map_delete, is_missing,
  verify_code_challenge, issue_tokens, handle_auth_code_exchange, handle_refresh_token_exchange,
  handle_token_exchange,
}
use kitstack.Router.Oauth.Sourced.{
  IsGranted, IsSourced, IsSourced-later, authorize-IsSourced, callback-IsSourced, tokens-IsSourced,
  map_get-map_delete, found_before,
}
use kitstack.Router.Endpoints.{OAuthRequest, OAuthReply, serve_oauth, token_reply}

module _ (crypto : Crypto) (body : TokenRequest) (new_token : Text) (now : ℕ) where
  -- A code that is in the store is exchanged for the tokens of its user, and is deleted.
  abbrev Exchanges : OAuthState → CodeData → Type 0
  Exchanges store d =
      (map_get store.auth_codes (or_else body.code []) ≡ some d)
      × ((d.redirect_uri == or_else body.redirect_uri []) ≡ true)
      × (verify_code_challenge crypto (or_else body.code_verifier []) d.code_challenge
            d.code_challenge_method
          ≡ true)
      × (handle_auth_code_exchange crypto body new_token now store
          ≡ issue_tokens crypto d.user_id d.client_id new_token now
              (record store { auth_codes = map_delete store.auth_codes (or_else body.code []) }))

  exchange_cases :
      (store : OAuthState)
      → ((m : Text) × (handle_auth_code_exchange crypto body new_token now store ≡ (err m, store)))
        ⊎ ((d : CodeData) × Exchanges store d)
  unfolding handle_auth_code_exchange
  exchange_cases store =
      let code = or_else body.code [] in
      elim (Bool-cases (is_missing code)) [
        | inl absent ↦ inl (codes "invalid_request: missing code", simp absent refl)
        | inr given ↦ elim (Bool-cases (is_missing (or_else body.code_verifier []))) [
          | inl absent ↦
              inl (codes "invalid_request: missing code_verifier", simp (given, absent) refl)
          | inr verifier ↦ elim (Bool-cases (is_missing (or_else body.redirect_uri []))) [
            | inl absent ↦
                inl (
                  codes "invalid_request: missing redirect_uri",
                  simp (given, verifier, absent) refl,
                )
            | inr uri ↦ elim (Option-cases (map_get store.auth_codes code)) [
              | inl unknown ↦ inl (
                codes "invalid_grant: code not found or expired",
                simp (given, verifier, uri, unknown) refl,
              )
              | inr (d, there) ↦
                  elim (Bool-cases (d.redirect_uri == or_else body.redirect_uri [])) [
                    | inr other ↦ inl (
                      codes "invalid_grant: redirect_uri mismatch",
                      simp (given, verifier, uri, there, other) refl,
                    )
                    | inl same ↦
                        elim (Bool-cases (
                          verify_code_challenge crypto (or_else body.code_verifier [])
                            d.code_challenge d.code_challenge_method)) [
                              | inr failed ↦ inl (
                                codes "invalid_grant: code_verifier failed",
                                simp (given, verifier, uri, there, same, failed) refl,
                              )
                              | inl proved ↦ inr (
                                d,
                                (
                                  there,
                                  same,
                                  proved,
                                  simp (given, verifier, uri, there, same, proved) refl,
                                ),
                              )
                            ]
                  ]
            ]
          ]
        ]
      ]

  refresh_cases :
      (store : OAuthState)
      → ((m : Text) × (handle_refresh_token_exchange crypto body new_token now store
            ≡ (err m, store)))
        ⊎ ((t : TokenData) × (map_get store.refresh_tokens (or_else body.refresh_token []) ≡ some t)
            × (handle_refresh_token_exchange crypto body new_token now store
                ≡ issue_tokens crypto t.user_id t.client_id new_token now (record store {
                  refresh_tokens = map_delete store.refresh_tokens (or_else body.refresh_token []);
                })))
  unfolding handle_refresh_token_exchange
  refresh_cases store = elim (Bool-cases (is_missing (or_else body.refresh_token []))) [
    | inl absent ↦ inl (codes "invalid_request: missing refresh_token", simp absent refl)
    | inr given ↦
        elim (Option-cases (map_get store.refresh_tokens (or_else body.refresh_token []))) [
          | inl unknown ↦ inl (
            codes "invalid_grant: refresh_token not found or expired",
            simp (given, unknown) refl,
          )
          | inr (t, there) ↦ inr (t, there, simp (given, there) refl)
        ]
  ]

deleted_code :
    {clients : Dictionary (List Text)} (past : List OAuthRequest) (store : OAuthState) (code : Text)
    → IsSourced clients past store
    → IsSourced clients past (record store { auth_codes = map_delete store.auth_codes code })
deleted_code past store code h = record {
  clients_kept = h.clients_kept;
  sessions = h.sessions;
  auth_codes = λ c d e. h.auth_codes c d (found_before store.auth_codes code c d e);
  refresh_tokens = h.refresh_tokens;
}

deleted_token :
    {clients : Dictionary (List Text)} (past : List OAuthRequest) (store : OAuthState)
    (token : Text)
    → IsSourced clients past store
    → IsSourced clients past
        (record store { refresh_tokens = map_delete store.refresh_tokens token })
deleted_token past store token h = record {
  clients_kept = h.clients_kept;
  sessions = h.sessions;
  auth_codes = h.auth_codes;
  refresh_tokens = λ c d e. h.refresh_tokens c d (found_before store.refresh_tokens token c d e);
}

token_reply_world : (out : Result Text TokenResponse × OAuthState) → (token_reply out).1 ≡ out.1
token_reply_world (ok response, store) = refl
token_reply_world (err error, store) = refl

token_reply_ok :
    (out : Result Text TokenResponse × OAuthState) (response : TokenResponse)
    → (token_reply out).0 ≡ OAuthReply.tokens response
    → out.0 ≡ ok response
token_reply_ok (ok r, store) response e = cc
token_reply_ok (err m, store) response e = absurd (cc)

module _ (crypto : Crypto) where
  signed :
      (user_id client_id new_token : Text) (now : ℕ) (store : OAuthState) (response : TokenResponse)
      → (issue_tokens crypto user_id client_id new_token now store).0 ≡ ok response
      → crypto.sign_access_token user_id ≡ ok response.access_token
  unfolding issue_tokens
  signed user_id client_id new_token now store response e =
      elim (Result-cases (crypto.sign_access_token user_id)) [
        | inl (m, bad) ↦ let e' = rw (issue_tokens, bad) at e in absurd (cc)
        | inr (a, good) ↦
            let e' = rw (issue_tokens, good) at e in
            let same = ap (λ (r : TokenResponse). r.access_token) (ok_injective e') in
            rw (good, same) refl
      ]

  kept_codes :
      (user_id client_id new_token : Text) (now : ℕ) (store : OAuthState)
      → (issue_tokens crypto user_id client_id new_token now store).1.auth_codes ≡ store.auth_codes
  unfolding issue_tokens
  kept_codes user_id client_id new_token now store =
      elim (Result-cases (crypto.sign_access_token user_id)) [
        | inl (m, bad) ↦ rw (issue_tokens, bad) refl
        | inr (a, good) ↦ rw (issue_tokens, good) refl
      ]

  -- The user of the tokens has been granted a code; for a code that is exchanged, the redirect URI is
  -- that of its authorization request, and the verifier answers its challenge.
  pub record IsEntitled (clients : Dictionary (List Text)) (past : List OAuthRequest)
      (body : TokenRequest) (response : TokenResponse) : Type 0 where
    pub grant : CodeData
    pub granted : IsGranted clients past grant
    pub signed_for : crypto.sign_access_token grant.user_id ≡ ok response.access_token
    pub proved :
        ((body.grant_type == codes "authorization_code") ≡ false)
        ⊎ (((grant.redirect_uri == or_else body.redirect_uri []) ≡ true)
            × (verify_code_challenge crypto
                  (or_else body.code_verifier [])
                  grant.code_challenge
                  grant.code_challenge_method
                ≡ true))

  module _ (clients : Dictionary (List Text)) (past : List OAuthRequest) (body : TokenRequest)
      (new_token : Text) (now : ℕ) (store : OAuthState) (h : IsSourced clients past store) where
    -- A code that was exchanged is not in the store any more.
    abbrev pub Spent : OAuthState → Type 0
    Spent after =
        ((body.grant_type == codes "authorization_code") ≡ false)
        ⊎ (map_get after.auth_codes (or_else body.code []) ≡ none)

    abbrev After : Result Text TokenResponse × OAuthState → Type 0
    After out =
        IsSourced clients past out.1
        × ((response : TokenResponse)
            → out.0 ≡ ok response
            → IsEntitled clients past body response × Spent out.1)

    exchange-After : After (handle_auth_code_exchange crypto body new_token now store)
    exchange-After = elim (exchange_cases crypto body new_token now store) [
      | inl (m, same) ↦ rw same (h, λ response e. absurd (cc))
      | inr (d, (there, uri, proof, same)) ↦
          let g = h.auth_codes (or_else body.code []) d there in
          let deleted = record store {
            auth_codes = map_delete store.auth_codes (or_else body.code []);
          } in
          rw same (
            tokens-IsSourced crypto past d d.user_id d.client_id new_token now deleted
                (deleted_code past store (or_else body.code []) h) g refl refl,
            λ response e. (
              record {
                grant = d;
                granted = g;
                signed_for = signed d.user_id d.client_id new_token now deleted response e;
                proved = inr (uri, proof);
              },
              inr (
                  rw
                    (
                      kept_codes d.user_id d.client_id new_token now deleted,
                      map_get-map_delete store.auth_codes (or_else body.code [])
                          (or_else body.code []),
                      eq_refl (or_else body.code []),
                    )
                    refl),
            ),
          )
    ]

    refresh-After :
        (body.grant_type == codes "authorization_code") ≡ false
        → After (handle_refresh_token_exchange crypto body new_token now store)
    refresh-After other = elim (refresh_cases crypto body new_token now store) [
      | inl (m, same) ↦ rw same (h, λ response e. absurd (cc))
      | inr (t, there, same) ↦
          let old = or_else body.refresh_token [] in
          let (d, g, user, client) = h.refresh_tokens old t there in
          let deleted = record store { refresh_tokens = map_delete store.refresh_tokens old } in
          rw same (
            tokens-IsSourced crypto past d t.user_id t.client_id new_token now deleted
                (deleted_token past store old h) g user client,
            λ response e. (
              record {
                grant = d;
                granted = g;
                signed_for =
                    rw user (signed t.user_id t.client_id new_token now deleted response e);
                proved = inl other;
              },
              inl other,
            ),
          )
    ]

    token-After : After (handle_token_exchange crypto body new_token now store)
    unfolding handle_token_exchange
    token-After = elim (Bool-cases (body.grant_type == codes "authorization_code")) [
      | inl code ↦
          let run : handle_token_exchange crypto body new_token now store
              ≡ handle_auth_code_exchange crypto body new_token now store =
            simp code refl in
          rw run exchange-After
      | inr other ↦ elim (Bool-cases (body.grant_type == codes "refresh_token")) [
        | inl refresh ↦
            let run : handle_token_exchange crypto body new_token now store
                ≡ handle_refresh_token_exchange crypto body new_token now store =
              simp (other, refresh) refl in
            rw run (refresh-After other)
        | inr unknown ↦
            let run : handle_token_exchange crypto body new_token now store
                ≡ (err (codes "unsupported_grant_type"), store) =
              simp (other, unknown) refl in
            rw run (h, λ response e. absurd (cc))
      ]
    ]

  -- The states that requests lead to, from a store with clients only; the latest request first.
  pub data Reached (clients : Dictionary (List Text))
      : List OAuthRequest → OAuthState → Type 0 where
    start :
        (store : OAuthState)
        → store
          ≡ (record { clients = clients; sessions = []; auth_codes = []; refresh_tokens = [] })
        → Reached clients [] store
    next :
        {past : List OAuthRequest} {store : OAuthState} (r : OAuthRequest) (after : OAuthState)
        → Reached clients past store
        → (serve_oauth crypto r store).1 ≡ after
        → Reached clients (r ∷ past) after

  served-IsSourced :
      (clients : Dictionary (List Text)) (past : List OAuthRequest) (r : OAuthRequest)
      (store : OAuthState)
      → IsSourced clients past store
      → IsSourced clients (r ∷ past) (serve_oauth crypto r store).1
  unfolding serve_oauth
  served-IsSourced clients past (OAuthRequest.authorize query id) store h =
      authorize-IsSourced past query id store h
  served-IsSourced clients past (OAuthRequest.callback user id code) store h =
      callback-IsSourced past user id code store h
  served-IsSourced clients past (OAuthRequest.token body new_token now) store h =
      rw (token_reply_world (handle_token_exchange crypto body new_token now store)) (
        IsSourced-later (OAuthRequest.token body new_token now) past _
          (token-After clients past body new_token now store h).0)

  Reached-IsSourced :
      (clients : Dictionary (List Text)) (past : List OAuthRequest) (store : OAuthState)
      → Reached clients past store
      → IsSourced clients past store
  unfolding map_get
  Reached-IsSourced clients [] store (Reached.start _ same) = rw same (record {
    clients_kept = refl;
    sessions = λ id p e. absurd (cc);
    auth_codes = λ c d e. absurd (cc);
    refresh_tokens = λ c d e. absurd (cc);
  })
  Reached-IsSourced clients (r ∷ past) store (Reached.next {store = before} _ _ reached same) =
      rw (← same)
        (served-IsSourced clients past r before (Reached-IsSourced clients past before reached))

  -- In every state that the endpoints reach, tokens are answered only for a user whom a callback named
  -- for the session of an authorization request for a code that named a registered client and one of
  -- its redirect URIs, with a challenge for S256. Where a code is exchanged, the redirect URI is that
  -- of this request, the verifier answers its challenge, and the code is gone afterwards.
  pub serve_oauth-IsEntitled :
      (clients : Dictionary (List Text)) (past : List OAuthRequest) (store : OAuthState)
      (body : TokenRequest) (new_token : Text) (now : ℕ) (response : TokenResponse)
      → Reached clients past store
      → (serve_oauth crypto (OAuthRequest.token body new_token now) store).0
        ≡ OAuthReply.tokens response
      → IsEntitled clients past body response
        × (((body.grant_type == codes "authorization_code") ≡ false)
            ⊎ (map_get
                  (serve_oauth crypto (OAuthRequest.token body new_token now) store).1.auth_codes
                  (or_else body.code [])
                ≡ none))
  unfolding serve_oauth
  serve_oauth-IsEntitled clients past store body new_token now response reached e =
      let h = Reached-IsSourced clients past store reached in
      let out = handle_token_exchange crypto body new_token now store in
      let (entitled, spent) =
        (token-After clients past body new_token now store h).1 response
          (token_reply_ok out response e) in
      (
        entitled,
        elim spent [
          | inl refreshed ↦ inl refreshed
          | inr gone ↦ inr (rw (token_reply_world out) gone)
        ],
      )
