-- ===== src/Audit/Queries.antt =====
-- What `query` of packages/sdk/src/audit.ts answers, and that dispatch events are never refused.
use kitstack.Base.{
  ℕ, zero, suc, ◌≤◌, ◌≡◌, refl, true, Option, none, some, List, [], ◌∷◌, Text, keep, take, length,
  arith, Memᴰ, mem-keep, ok, text_eq,
}
use kitstack.Audit.Types.{AuditRecord}
use kitstack.Audit.Store.{query, AuditQuery, matches, normalize_limit}
use kitstack.Audit.Sensitive.{
  assert_metadata_only_audit, refuse_sensitive, is_sensitive, normalize_key,
}
use kitstack.Audit.Dispatch.{dispatch_input, DispatchAuditEvent, DispatchAuditSinkOptions}

mem_of_take : (n : ℕ) (xs : List AuditRecord) {r : AuditRecord} → Memᴰ r (take n xs) → Memᴰ r xs
mem_of_take zero xs m = elim m [ ]
mem_of_take (suc n) [] m = elim m [ ]
mem_of_take (suc n) (x ∷ xs) (Memᴰ.head same) = Memᴰ.head same
mem_of_take (suc n) (x ∷ xs) (Memᴰ.tail m) = Memᴰ.tail (mem_of_take n xs m)

length-take : (n : ℕ) (xs : List AuditRecord) → length (take n xs) ≤ n
length-take zero xs = omega arith
length-take (suc n) [] = omega arith
length-take (suc n) (x ∷ xs) = omega (arith, length-take n xs)

normalize_limit_lem : (limit : Option ℕ) → normalize_limit limit ≤ 10000
normalize_limit_lem none = omega arith
normalize_limit_lem (some value) = omega arith

all_matched :
    (q : AuditQuery) (records : List AuditRecord) (r : AuditRecord)
    → Memᴰ r (query q records)
    → Memᴰ r records × (matches q r ≡ true)
unfolding query
all_matched q records r m =
    mem-keep (matches q) records
      (mem_of_take (normalize_limit q.limit) (keep (matches q) records) m)

few : (q : AuditQuery) (records : List AuditRecord) → length (query q records) ≤ 10000
unfolding query
few q records =
    let bound = length-take (normalize_limit q.limit) (keep (matches q) records) in
    omega (arith, bound, normalize_limit_lem q.limit)

-- A query answers records of the log that match it on every field that it gives, and never more than
-- ten thousand, whatever its limit.
pub query_lem :
    (q : AuditQuery) (records : List AuditRecord)
    → (length (query q records) ≤ 10000)
      × ((r : AuditRecord) → Memᴰ r (query q records) → Memᴰ r records × (matches q r ≡ true))
query_lem q records = (few q records, all_matched q records)

-- The audit entry of a dispatch event is never refused for a sensitive field or attribute, whatever
-- the event holds.
pub assert_metadata_only_audit-dispatch_input :
    (options : DispatchAuditSinkOptions) (event : DispatchAuditEvent)
    → assert_metadata_only_audit (dispatch_input options event) ≡ ok tt
unfolding assert_metadata_only_audit dispatch_input refuse_sensitive is_sensitive normalize_key
    text_eq
assert_metadata_only_audit-dispatch_input options event = with_channel event event.channel_id refl
  where
    with_channel :
        (e : DispatchAuditEvent) (channel_id : Option Text)
        → e.channel_id ≡ channel_id
        → assert_metadata_only_audit (dispatch_input options e) ≡ ok tt
    with_channel e none same = rw same refl
    with_channel e (some []) same = rw same refl
    with_channel e (some (c ∷ s)) same = rw same refl
