-- ===== src/Authz/Cache/Coherence.antt =====
-- The cache never answers otherwise than the database would: the invariant, and that checks,
-- mutations and clearing keep it.
use mathlib.Core.Path.{subst}
use kitstack.Base.{
  ℕ, ◌+◌, ◌≤◌, ◌≡◌, ◌≢◌, refl, sym, ap, ◌∙◌, inl, inr, Option, none, some, [], ltb, nat_eq,
  nat_eq_iff, ◌==◌, eq_iff, text_instance, map_get, map_set, map_get-map_set, arith, Bool-cases,
}
use kitstack.Authz.Types.{CheckInput}
use kitstack.Authz.Db.{Db, authorization_version}
use kitstack.Authz.Engine.{query_decision}
use kitstack.Authz.Keys.{cache_key, cache_key_iff, normal, IsCleanInput}
use kitstack.Authz.Lifecycle.Mutations.{Versioned, unchanged, advanced}
use kitstack.Authz.Cache.{
  CachedDecision, CacheState, GrantCache, current_state, answer, check, clear,
}

-- The decision depends on the written-out input alone.
query_decision-normal :
    (db : Db) (input : CheckInput) → query_decision db (normal input) ≡ query_decision db input
unfolding query_decision
query_decision-normal db input = refl

query_decision_of_key :
    (db : Db) (a b : CheckInput)
    → IsCleanInput a
    → IsCleanInput b
    → cache_key a ≡ cache_key b
    → query_decision db a ≡ query_decision db b
query_decision_of_key db a b ca cb h =
    sym (query_decision-normal db a)
    ∙ ap (query_decision db) ((cache_key_iff a b ca cb).0 h)
    ∙ query_decision-normal db b

allowed_of_some : {c d : CachedDecision} → some c ≡ some d → d.allowed ≡ c.allowed
allowed_of_some {c} h =
    ap (λ (o : Option CachedDecision). elim o [ none ↦ c.allowed | some e ↦ e.allowed ]) (sym h)

-- Every stored decision is what the database answers.
pub record IsExact (db : Db) (state : CacheState) : Type 0 where
  pub exact :
      (input : CheckInput) (d : CachedDecision)
      → IsCleanInput input
      → map_get state.decisions (cache_key input) ≡ some d
      → d.allowed ≡ query_decision db input

-- A state of this version is exact; one of an older version is dropped before it is used.
pub record IsCoherentState (db : Db) (state : CacheState) : Type 0 where
  pub not_ahead : state.version ≤ authorization_version db
  pub exact : state.version ≡ authorization_version db → IsExact db state

abbrev pub IsCoherent : Db → Option CacheState → Type 0
IsCoherent db none = Unit
IsCoherent db (some state) = IsCoherentState db state

pub IsCoherent-Versioned :
    {db after : Db} (state : Option CacheState)
    → Versioned db after
    → IsCoherent db state
    → IsCoherent after state
IsCoherent-Versioned none _ h = tt
IsCoherent-Versioned (some state) (unchanged same) h =
    subst (λ d. IsCoherentState d state) (sym same) h
IsCoherent-Versioned (some state) (advanced more) h = record {
  not_ahead = let n = h.not_ahead in omega arith;
  exact = λ e. absurd (let n = h.not_ahead in omega arith);
}

empty-IsExact : (db : Db) (version : ℕ) → IsExact db (record { version = version; decisions = [] })
empty-IsExact db version = record { exact = λ input d clean h. absurd (unfold map_get in cc h) }

current_state-IsExact :
    (db : Db) (state : Option CacheState)
    → IsCoherent db state
    → (IsExact db (current_state state (authorization_version db)))
      × ((current_state state (authorization_version db)).version ≡ authorization_version db)
unfolding current_state
current_state-IsExact db none h = (empty-IsExact db (authorization_version db), refl)
current_state-IsExact db (some state) h =
    elim (Bool-cases (nat_eq state.version (authorization_version db))) [
      | inl same ↦
          let e = (nat_eq_iff state.version (authorization_version db)).0 same in
          rw same (h.exact e, e)
      | inr other ↦ rw other (empty-IsExact db (authorization_version db), refl)
    ]

module _ (ttl_ms : ℕ) (db : Db) (now : ℕ) (input : CheckInput) (clean : IsCleanInput input)
    (state : CacheState) (exact : IsExact db state) where
  stored-IsExact :
      (expires_at : ℕ)
      → IsExact db (record state {
        decisions =
            map_set state.decisions
              (cache_key input)
              (record { allowed = query_decision db input; expires_at = expires_at });
      })
  stored-IsExact expires_at = record {
    exact = λ other d clean' h.
        let h' = rw map_get-map_set at h in
        elim (Bool-cases (cache_key other == cache_key input)) [
          | inl same ↦
              allowed_of_some (rw same at h')
              ∙ query_decision_of_key db input other clean clean' (sym ((eq_iff _ _).0 same))
          | inr apart ↦ exact.exact other d clean' (rw apart at h')
        ];
  }

  answer_lem :
      (cached : Option CachedDecision)
      → map_get state.decisions (cache_key input) ≡ cached
      → ((answer ttl_ms db now input state cached).0 ≡ query_decision db input)
        × IsExact db (answer ttl_ms db now input state cached).1
        × ((answer ttl_ms db now input state cached).1.version ≡ state.version)
  unfolding answer
  answer_lem none h = (refl, stored-IsExact (now + ttl_ms), refl)
  answer_lem (some d) h = elim (Bool-cases (ltb now d.expires_at)) [
    | inl live ↦ rw live (exact.exact input d clean h, exact, refl)
    | inr expired ↦ rw expired (refl, stored-IsExact (now + ttl_ms), refl)
  ]

module _ (cache : GrantCache) (handle : ℕ) (db : Db) where
  pub check-IsCoherent :
      (now : ℕ) (input : CheckInput)
      → IsCleanInput input
      → IsCoherent db (cache.states handle)
      → ((check cache handle db now input).0.allowed ≡ query_decision db input)
        × IsCoherent db ((check cache handle db now input).1.states handle)
  unfolding check
  check-IsCoherent now input clean h =
      let state = current_state (cache.states handle) (authorization_version db) in
      let (exact, current) = current_state-IsExact db (cache.states handle) h in
      let (same, exact', version) =
        answer_lem cache.ttl_ms db now input clean state exact
          (map_get state.decisions (cache_key input)) refl in
      (
        same,
        rw ((nat_eq_iff handle handle).1 refl)
            (record { not_ahead = omega (arith, version, current); exact = λ _. exact' }),
      )

  check_keeps_others :
      (other : ℕ) (other_db : Db) (now : ℕ) (input : CheckInput)
      → other ≢ handle
      → (check cache other other_db now input).1.states handle ≡ cache.states handle
  unfolding check
  check_keeps_others other other_db now input apart = ground (arith, nat_eq_iff handle other)

  pub check_elsewhere-IsCoherent :
      (other : ℕ) (other_db : Db) (now : ℕ) (input : CheckInput)
      → other ≢ handle
      → IsCoherent db (cache.states handle)
      → IsCoherent db ((check cache other other_db now input).1.states handle)
  check_elsewhere-IsCoherent other other_db now input apart h =
      rw (check_keeps_others other other_db now input apart) h

  pub clear-IsCoherent :
      (cleared : Option ℕ)
      → IsCoherent db (cache.states handle)
      → IsCoherent db ((clear cache cleared).states handle)
  unfolding clear
  clear-IsCoherent none h = h
  clear-IsCoherent (some other) h = elim (Bool-cases (nat_eq handle other)) [
    | inl same ↦ rw same tt
    | inr apart ↦ rw apart h
  ]
