-- ===== src/Authz/Cache.antt =====
-- `VersionedGrantCache` of packages/authz/src/engine.ts. The weak map from database handles to their
-- states is a function of the handle; the clock is an argument.
pub mod Coherence
pub mod Revocation
use kitstack.Base.{
  ℕ, ◌*◌, ◌+◌, Bool, true, false, ◌||◌, Option, none, some, List, [], ◌∷◌, Text, codes, or_else,
  ltb, nat_eq, if◌then◌else◌, ◌==◌, Dictionary, map_get, map_set, Result, ok, err,
}
use kitstack.Authz.Types.{CheckInput}
use kitstack.Authz.Db.{Db, authorization_version}
use kitstack.Authz.Engine.{query_decision}
use kitstack.Authz.Keys.{cache_key}

pub record CachedDecision : Type 0 where
  pub allowed : Bool
  pub expires_at : ℕ

pub record CacheState : Type 0 where
  pub version : ℕ
  pub decisions : Dictionary CachedDecision

pub record GrantCache : Type 0 where
  pub ttl_ms : ℕ
  pub states : ℕ → Option CacheState

pub record CheckResult : Type 0 where
  pub allowed : Bool
  pub reason : Option Text

abbrev pub authz_cache_ttl_ms : ℕ
authz_cache_ttl_ms = 10 * 60 * 1000

-- The constructor.
unfoldable pub new_cache : Option ℕ → Result Text GrantCache
new_cache ttl_ms =
    let ttl = or_else ttl_ms authz_cache_ttl_ms in
    if ltb ttl (5 * 60 * 1000) || ltb (15 * 60 * 1000) ttl
    then err (codes "Authz cache TTL must be between five and fifteen minutes")
    else ok (record { ttl_ms = ttl; states = λ _. none })

abbrev pub set_state : GrantCache → ℕ → Option CacheState → GrantCache
set_state cache handle state = record cache {
  states = λ h. if nat_eq h handle then state else cache.states h;
}

-- The state of this handle, made anew where the version has moved.
unfoldable pub current_state : Option CacheState → ℕ → CacheState
current_state none version = record { version = version; decisions = [] }
current_state (some state) version =
    if nat_eq state.version version then state else record { version = version; decisions = [] }

abbrev plain : Bool → CheckResult
plain allowed = record { allowed = allowed; reason = none }

-- A decision that is stored and not expired is the answer; any other is queried and stored.
unfoldable pub answer :
    ℕ → Db → ℕ → CheckInput → CacheState → Option CachedDecision → Bool × CacheState
unfolding query_decision map_set
answer ttl_ms db now input state cached =
    let allowed = query_decision db input in
    let stored = record state {
      decisions =
          map_set state.decisions (cache_key input)
            (record { allowed = allowed; expires_at = now + ttl_ms });
    } in
    elim cached [
      | none ↦ (allowed, stored)
      | some d ↦ if ltb now d.expires_at then (d.allowed, state) else (allowed, stored)
    ]

unfoldable pub check : GrantCache → ℕ → Db → ℕ → CheckInput → CheckResult × GrantCache
unfolding current_state answer map_get authorization_version
check cache handle db now input =
    let state = current_state (cache.states handle) (authorization_version db) in
    let (allowed, state') =
      answer cache.ttl_ms db now input state (map_get state.decisions (cache_key input)) in
    (plain allowed, set_state cache handle (some state'))

-- `clear(db)`; without an argument it does nothing, since a weak map cannot be walked
unfoldable pub clear : GrantCache → Option ℕ → GrantCache
clear cache none = cache
clear cache (some handle) = set_state cache handle none
