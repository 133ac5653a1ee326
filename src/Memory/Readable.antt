-- ===== src/Memory/Readable.antt =====
-- What `readRelevant` of kits/debrief/src/memory/plugin.ts gives after any operations on the store.
use kitstack.Base.{
  order_by, All-order_by, ℕ, ◌≡◌, inl, inr, refl, sym, ap, true, not, ◌||◌, Option, none, some,
  List, [], ◌∷◌, Memᴰ, Text, Result, ok, err, Bool-cases, ok_injective, ◌==◌, text_instance,
  option_instance, eq_iff, or_false_iff, arith, length, ◌≤◌, take, keep, All, Dictionary,
}
use kitstack.Memory.Types.{MemoryStatus, MemoryRecord, MemoryContext, MemoryReadQuery, Telemetry}
use kitstack.Memory.Select.{
  relevant, is_owned, is_relevant, is_released, context_matches, in_context, newest_first,
  normalize_limit,
}
use kitstack.Memory.Fitting.{IsFitting, IsFitting-iff, is_released_iff, matches}
use kitstack.Memory.{MemoryState, write_candidate, transition, read_relevant, reset, told, moved}
use kitstack.Memory.Operations.{MemoryRequest, served, served_all}
use kitstack.Memory.Approved.{
  All-take, All-kept, All-weaken, WasApproved, IsGuarded, Guards, approves, owned, written-Guards,
  transition-Guards, reset-Guards, read_relevant-rows, length-take, length-keep,
}

module _ {T : Type 0} (telemetry : Telemetry T) (constraint : Text) where
  approved-Guards :
      (past : List MemoryRequest) (memory_id timestamp : Text) (context : MemoryContext)
      (r : MemoryRecord)
      → is_owned memory_id context r ≡ true
      → IsGuarded
          (MemoryRequest.approve memory_id timestamp context ∷ past)
          (moved MemoryStatus.approved timestamp r)
  approved-Guards past memory_id timestamp context r mine released =
      let (a, b, c) = owned memory_id context r mine in
      record {
        timestamp = timestamp;
        context = context;
        asked = Memᴰ.head (ap (λ id. MemoryRequest.approve id timestamp context) a);
        same_org = sym b;
        same_kit = sym c;
      }

  published-Guards :
      (past : List MemoryRequest) (memory_id timestamp : Text) (context : MemoryContext)
      (existing : MemoryRecord)
      → IsGuarded past existing
      → is_owned memory_id context existing ≡ true
      → existing.status ≡ MemoryStatus.approved
      → (r : MemoryRecord) → is_owned memory_id context r ≡ true
      → IsGuarded past (moved MemoryStatus.published timestamp r)
  published-Guards past memory_id timestamp context existing g mine status r also released =
      let (a, b, c) = owned memory_id context existing mine in
      let (a', b', c') = owned memory_id context r also in
      let h = g (ap is_released status) in
      record {
        timestamp = h.timestamp;
        context = h.context;
        asked = rw (a', ← a) h.asked;
        same_org = cc (h.same_org, b, b');
        same_kit = cc (h.same_kit, c, c');
      }

  served-Guards :
      (r : MemoryRequest) (past : List MemoryRequest) (s : MemoryState T)
      → Guards telemetry past s.0
      → Guards telemetry (r ∷ past) (served telemetry constraint r s).0
  unfolding write_candidate transition read_relevant reset served
  served-Guards (MemoryRequest.write memory_id version_id created_at input context) past (rows, t)
        h =
      let op = MemoryRequest.write memory_id version_id created_at input context in
      written-Guards telemetry constraint (op ∷ past) memory_id version_id created_at input context
        rows t (All-weaken (λ r. approves r past op) rows h)
  served-Guards (MemoryRequest.approve memory_id timestamp context) past (rows, t) h =
      let op = MemoryRequest.approve memory_id timestamp context in
      transition-Guards telemetry (op ∷ past) MemoryStatus.approved memory_id timestamp context rows
        t (All-weaken (λ r. approves r past op) rows h)
        (λ existing g mine status r also g'.
          approved-Guards past memory_id timestamp context r also)
  served-Guards (MemoryRequest.publish memory_id timestamp context) past (rows, t) h =
      let op = MemoryRequest.publish memory_id timestamp context in
      transition-Guards telemetry (op ∷ past) MemoryStatus.published memory_id timestamp context
        rows t (All-weaken (λ r. approves r past op) rows h)
        (λ existing g mine status r also g'.
          published-Guards (op ∷ past) memory_id timestamp context existing g mine status r also)
  served-Guards (MemoryRequest.search_for query context) past (rows, t) h =
      rw (read_relevant-rows telemetry query context rows t)
        (All-weaken (λ r. approves r past (MemoryRequest.search_for query context)) rows h)
  served-Guards (MemoryRequest.clear_all context) past (rows, t) h =
      let op = MemoryRequest.clear_all context in
      reset-Guards telemetry (op ∷ past) context rows t
        (All-weaken (λ r. approves r past op) rows h)

  pub served_all-Guards :
      (past : List MemoryRequest) (t : T)
      → Guards telemetry past (served_all telemetry constraint past ([], t)).0
  served_all-Guards [] t = tt
  served_all-Guards (r ∷ past) t =
      served-Guards r past (served_all telemetry constraint past ([], t)) (served_all-Guards past t)

-- A record that fits the query, and that an operation before has approved.
pub record IsReadable (past : List MemoryRequest) (query : MemoryReadQuery) (r : MemoryRecord)
    : Type 0 where
  pub fitting : IsFitting query r
  pub approved : WasApproved past r

in_context-All :
    (P : MemoryRecord → Type 0) (n : ℕ) (expected : Option (Dictionary Text))
    (records : List MemoryRecord)
    → length records ≤ n
    → All P records
    → (length (in_context expected records) ≤ n)
      × All (λ r. P r × (matches expected r ≡ true)) (in_context expected records)
unfolding in_context matches
in_context-All P n none records few hs = (few, All-weaken (λ r h. (h, refl)) records hs)
in_context-All P n (some x) records few hs = (
  omega (arith, length-keep (λ r. context_matches r.context x) records),
  All-kept P (λ r. context_matches r.context x) records hs,
)

pub relevant-IsReadable :
    (past : List MemoryRequest) (query : MemoryReadQuery) (rows : List MemoryRecord)
    → All (IsGuarded past) rows
    → (length (relevant query rows) ≤ normalize_limit query.limit)
      × All (IsReadable past query) (relevant query rows)
unfolding relevant
relevant-IsReadable past query rows h =
    let found = order_by newest_first (keep (is_relevant query) rows) in
    let n = normalize_limit query.limit in
    let (few, hs) =
      in_context-All (λ r. IsGuarded past r × (is_relevant query r ≡ true)) n query.context
        (take n found) (length-take n found)
        (All-take _ n found
          (All-order_by _ newest_first _ (All-kept (IsGuarded past) (is_relevant query) rows h))) in
    (
      few,
      All-weaken
          (λ r ((guarded, hit), matching).
            let fitting = (IsFitting-iff query r).1 (hit, matching) in
            record {
              fitting = fitting;
              approved = guarded ((is_released_iff r.status).1 fitting.status);
            })
          _ hs,
    )

told_ok :
    {T : Type 0} {A : Type 0} (value : A) (rows : List MemoryRecord)
    (out : Result Text (Unit {0}) × T) (a : A) (after : MemoryState T)
    → told value rows out ≡ (ok a, after)
    → a ≡ value
told_ok value rows (ok u, t) a after e = sym (ok_injective (ap (λ x. x.0) e))
told_ok value rows (err m, t) a after e = absurd (cc (ap (λ x. x.0) e))

module _ {T : Type 0} (telemetry : Telemetry T) where
  pub read_relevant_ok :
      (query : MemoryReadQuery) (context : MemoryContext) (s after : MemoryState T)
      (records : List MemoryRecord)
      → read_relevant telemetry query context s ≡ (ok records, after)
      → (query.org_id ≡ context.org_id)
        × (query.kit_id ≡ context.kit_id)
        × (records ≡ relevant query s.0)
  unfolding read_relevant
  read_relevant_ok query context (rows, t) after records h =
      elim (Bool-cases
        (not (query.org_id == context.org_id) || not (query.kit_id == context.kit_id))) [
          | inl other ↦ absurd (cc (rw (read_relevant, other) at h))
          | inr same ↦
              let (a, b) =
                (or_false_iff (not (query.org_id == context.org_id))
                    (not (query.kit_id == context.kit_id))).0
                  same in
              let told_so = rw (read_relevant, same) at h in
              (
                (eq_iff query.org_id context.org_id).0 (ground arith),
                (eq_iff query.kit_id context.kit_id).0 (ground arith),
                told_ok (relevant query rows) rows _ records after told_so,
              )
        ]
