-- ===== src/Dispatch/Audited.antt =====
-- `dispatch` of packages/sdk/src/server/dispatch.ts with `createDispatchAuditSink` of
-- packages/sdk/src/audit.ts as its audit sink: the requests of a host, and the log that they leave.
use mathlib.Core.Path.{◌∙◌}
use mathlib.Core.List.{append-nil}
use kitstack.Base.{
  ◌≡◌, refl, sym, ap, Bool, false, Option, some, List, [], ◌∷◌, ◌++◌, map, Text, Result, ok, err,
  Option-cases, inl, inr, any, length, IsUnique, ◌==◌, text_instance, or_false_iff, ne_comm, suc,
}
use kitstack.Audit.Types.{AuditRecord, AuditEnvelope, AuditEventInput, valid, Platform}
use kitstack.Audit.Dispatch.{DispatchAuditEvent, DispatchAuditSinkOptions, dispatch_input}
use kitstack.Audit.Store.{append, verify, new_body, hashed}
use kitstack.Audit.Queries.{assert_metadata_only_audit-dispatch_input}
use kitstack.Audit.Chain.{id_of}
use kitstack.Audit.Chain.Appended.{verify-appended}
use kitstack.Dispatch.Types.{
  Action, notify, try_or, DispatchErrorCode, DispatchResult, DispatchEnvelope, DispatchDependencies,
}
use kitstack.Dispatch.{
  dispatch, attempt, to_dispatch_audit_event, dispatch_error, resolved, settle_validation,
  authorized, settle_grant, settle_policy, invoked, context_of, evaluate_grant, evaluate_policy,
  complete_call,
}

-- A request of the host, with what the platform supplies while it runs: the measured duration, the
-- time and the fresh id of the audit record.
pub record Request (Args : Type 0) : Type 0 where
  pub envelope : DispatchEnvelope Args
  pub duration_ms : Text
  pub now : Text
  pub fresh_id : Text

-- A world in which the audit store keeps its records.
pub record Logged (W : Type 0) : Type 0 where
  pub log : W → List AuditRecord
  pub store : List AuditRecord → W → W
  pub log_store : (records : List AuditRecord) (w : W) → log (store records w) ≡ records

module _ {W : Type 0} (logged : Logged W) (platform : Platform)
    (options : DispatchAuditSinkOptions) where
  abbrev stored : W → Result Text (AuditRecord × List AuditRecord) → Result Text (Unit {0}) × W
  stored w (ok (r, records)) = (ok tt, logged.store records w)
  stored w (err message) = (err message, w)

  -- `createDispatchAuditSink`: one append of the event's input.
  unfoldable pub store_sink : (now fresh_id : Text) → DispatchAuditEvent → Action W (Unit {0})
  unfolding append dispatch_input
  store_sink now fresh_id event w =
      stored w (append platform now fresh_id (dispatch_input options event) (logged.log w))

abbrev pub envelope_of : AuditRecord → AuditEnvelope
envelope_of r = r.body.envelope

-- The id is in no record of the log.
abbrev pub IsNew : Text → List AuditRecord → Type 0
IsNew id records = any (λ r. id_of r == id) records ≡ false

module _ (platform : Platform) (options : DispatchAuditSinkOptions) where
  append_new :
      (now fresh_id : Text) (event : DispatchAuditEvent) (records : List AuditRecord)
      → verify platform records ≡ valid (length records)
      → IsNew fresh_id records
      → let r = hashed platform (new_body now fresh_id (dispatch_input options event) records) in
        (append platform now fresh_id (dispatch_input options event) records
          ≡ ok (r, records ++ r ∷ []))
        × (verify platform (records ++ r ∷ []) ≡ valid (length (records ++ r ∷ [])))
  unfolding append new_body dispatch_input
  append_new now fresh_id event records v new =
      let body = new_body now fresh_id (dispatch_input options event) records in
      (
        rw (assert_metadata_only_audit-dispatch_input options event, new) refl,
        verify-appended platform body records v refl refl new,
      )

module _ {W Args Ctx : Type 0} (deps : DispatchDependencies W Args Ctx) where
  abbrev with_audit :
      Option (DispatchAuditEvent → Action W (Unit {0})) → DispatchDependencies W Args Ctx
  with_audit sink = record deps { audit = sink }

  -- The stages never call the audit sink.
  attempt-with_audit :
      (sink : Option (DispatchAuditEvent → Action W (Unit {0}))) (envelope : DispatchEnvelope Args)
      (w : W)
      → attempt (with_audit sink) envelope w ≡ attempt deps envelope w
  unfolding attempt resolved settle_validation authorized settle_grant settle_policy invoked
      context_of evaluate_grant evaluate_policy
  attempt-with_audit sink envelope w = refl

recovered_world :
    {W : Type 0} (failed : Text → DispatchResult) (m : Action W DispatchResult) (w : W)
    → (try_or m failed w).1 ≡ (m w).1
recovered_world {W} failed m w = go (m w) refl
  where
    go : (out : Result Text DispatchResult × W) → m w ≡ out → (try_or m failed w).1 ≡ (m w).1
    go (ok r, w') h = rw (try_or, h) refl
    go (err e, w') h = rw (try_or, h) refl

any_of_middle :
    (p : Text → Bool) (ids : List Text) (x : Text) (rest : List Text)
    → any p (ids ++ x ∷ rest) ≡ false
    → p x ≡ false
any_of_middle p [] x rest h = ((or_false_iff (p x) (any p rest)).0 h).0
any_of_middle p (y ∷ ids) x rest h =
    any_of_middle p ids x rest ((or_false_iff (p y) (any p (ids ++ x ∷ rest))).0 h).1

IsNew-of_unique :
    (records : List AuditRecord) (x : Text) (rest : List Text)
    → IsUnique (map id_of records ++ x ∷ rest)
    → IsNew x records
IsNew-of_unique [] x rest u = refl
IsNew-of_unique (r ∷ records) x rest (apart, u) =
    let distinct =
      ne_comm x (id_of r) (any_of_middle (λ id. id == id_of r) (map id_of records) x rest apart) in
    (or_false_iff (id_of r == x) _).1 (distinct, IsNew-of_unique records x rest u)

map_snoc :
    {A B : Type 0} (f : A → B) (xs : List A) (y : A) (rest : List B)
    → map f (xs ++ y ∷ []) ++ rest ≡ map f xs ++ f y ∷ rest
map_snoc f [] y rest = refl
map_snoc f (x ∷ xs) y rest = ap (λ l. f x ∷ l) (map_snoc f xs y rest)

module _ {W Args Ctx : Type 0} (logged : Logged W) (platform : Platform)
    (options : DispatchAuditSinkOptions) (deps : DispatchDependencies W Args Ctx) where
  -- What the host calls leaves the records of the audit store alone.
  pub record KeepsLog : Type 0 where
    pub stages :
        (envelope : DispatchEnvelope Args) (w : W)
        → logged.log (attempt deps envelope w).1 ≡ logged.log w
    pub completion :
        (tell : DispatchEnvelope Args → DispatchResult → Text → Action W (Unit {0}))
        → deps.on_complete ≡ some tell
        → (envelope : DispatchEnvelope Args) (r : DispatchResult) (d : Text) (w : W)
        → logged.log (tell envelope r d w).1 ≡ logged.log w

  abbrev pub serve : Request Args → W → DispatchResult × W
  serve q w =
      dispatch (with_audit deps (some (store_sink logged platform options q.now q.fresh_id)))
        q.envelope q.duration_ms w

  abbrev pub event_of : Request Args → DispatchResult → AuditEventInput
  event_of q r = dispatch_input options (to_dispatch_audit_event q.envelope r q.duration_ms)

  sink-recorded :
      (now fresh_id : Text) (event : DispatchAuditEvent) (records : List AuditRecord) (w : W)
      → logged.log w ≡ records
      → verify platform records ≡ valid (length records)
      → IsNew fresh_id records
      → logged.log (store_sink logged platform options now fresh_id event w).1
        ≡ records
          ++ hashed platform (new_body now fresh_id (dispatch_input options event) records) ∷ []
  unfolding store_sink
  sink-recorded now fresh_id event records w same v new =
      let new_records =
        records
        ++ hashed platform (new_body now fresh_id (dispatch_input options event) records) ∷ [] in
      rw (same, (append_new platform options now fresh_id event records v new).0)
        (logged.log_store new_records w)

  completed-log :
      KeepsLog
      → (envelope : DispatchEnvelope Args) (r : DispatchResult) (d : Text) (w : W)
      → logged.log (notify (complete_call deps.on_complete envelope r d) w) ≡ logged.log w
  completed-log keeps envelope r d w = elim (Option-cases deps.on_complete) [
    | inl none_given ↦ rw none_given refl
    | inr (tell, given) ↦ rw given (keeps.completion tell given envelope r d w)
  ]

  -- A served request adds one record to a valid log: the last one, made of the event of its result.
  serve-recorded :
      KeepsLog
      → (q : Request Args) (w : W) → verify platform (logged.log w) ≡ valid (length (logged.log w))
      → IsNew q.fresh_id (logged.log w)
      → let (r, w') = serve q w in
        let new = hashed platform (new_body q.now q.fresh_id (event_of q r) (logged.log w)) in
        (logged.log w' ≡ logged.log w ++ new ∷ [])
        × (verify platform (logged.log w ++ new ∷ []) ≡ valid (length (logged.log w ++ new ∷ [])))
  unfolding dispatch
  serve-recorded keeps q w v new =
      let sink = store_sink logged platform options q.now q.fresh_id in
      let m = attempt (with_audit deps (some sink)) q.envelope in
      let failed = dispatch_error DispatchErrorCode.provider_failure in
      let (r, tried) = try_or m failed w in
      let event = to_dispatch_audit_event q.envelope r q.duration_ms in
      let same : logged.log tried ≡ logged.log w =
        ap logged.log (recovered_world failed m w)
        ∙ (ap (λ p. logged.log p.1) (attempt-with_audit deps (some sink) q.envelope w)
            ∙ keeps.stages q.envelope w) in
      (
        completed-log keeps q.envelope r q.duration_ms (sink event tried).1
            ∙ sink-recorded q.now q.fresh_id event (logged.log w) tried same v new,
        (append_new platform options q.now q.fresh_id event (logged.log w) v new).1,
      )

  abbrev pub serve_all : List (Request Args) → W → List DispatchResult × W
  serve_all [] w = ([], w)
  serve_all (q ∷ qs) w =
      let (r, w') = serve q w in let (rs, last) = serve_all qs w' in (r ∷ rs, last)

  -- The entries for these results of these requests.
  abbrev pub entries : List (Request Args) → List DispatchResult → List AuditEnvelope
  entries (q ∷ qs) (r ∷ rs) = (event_of q r).envelope ∷ entries qs rs
  entries _ _ = []

  -- Requests are dispatched one after the other, with the audit store as sink, from a log that `verify`
  -- accepts; the ids of their records are new and distinct, and the host's other callbacks leave the
  -- log alone. Then each of them has a result, the log is the old one with exactly one entry for each
  -- result, in order, made of the event of that result, and `verify` accepts it.
  pub serve_all-recorded :
      KeepsLog
      → (qs : List (Request Args)) (w : W)
      → verify platform (logged.log w) ≡ valid (length (logged.log w))
      → IsUnique (map id_of (logged.log w) ++ map (λ q. q.fresh_id) qs)
      → let (rs, last) = serve_all qs w in
        (length rs ≡ length qs)
        × (map envelope_of (logged.log last) ≡ map envelope_of (logged.log w) ++ entries qs rs)
        × (verify platform (logged.log last) ≡ valid (length (logged.log last)))
  serve_all-recorded keeps [] w v u = (refl, sym (append-nil _), v)
  serve_all-recorded keeps (q ∷ qs) w v u =
      let (r, w') = serve q w in
      let new = hashed platform (new_body q.now q.fresh_id (event_of q r) (logged.log w)) in
      let fresh = IsNew-of_unique (logged.log w) q.fresh_id (map (λ p. p.fresh_id) qs) u in
      let (grown, v') = serve-recorded keeps q w v fresh in
      let (sized, told, valid_last) = serve_all-recorded keeps qs w' (rw grown v') (
        rw (grown, map_snoc id_of (logged.log w) new (map (λ p. p.fresh_id) qs))
          (unfold hashed new_body dispatch_input in u)) in
      (
        ap suc sized,
        told
            ∙ rw (grown, map_snoc envelope_of (logged.log w) new (entries qs (serve_all qs w').0))
                (unfold hashed new_body in refl),
        valid_last,
      )
