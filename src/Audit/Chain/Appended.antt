-- ===== src/Audit/Chain/Appended.antt =====
-- What `append` of packages/sdk/src/audit.ts does to a log that `verify` accepts.
use mathlib.Core.Path.{◌∙◌}
use kitstack.Base.{
  ℕ, suc, ◌+◌, ◌≡◌, ◌⊎◌, inl, inr, refl, ap, true, false, Option, none, some, List, [], ◌∷◌, ◌++◌,
  map, Text, any, length, ◌==◌, text_instance, Bool-cases, Result-cases, ok, err, arith,
  IsUnique-append,
}
use kitstack.Audit.Types.{AuditEventInput, Unhashed, AuditRecord, valid, Platform}
use kitstack.Audit.Json.{hash_audit_record}
use kitstack.Audit.Store.{
  append, verify, new_body, hashed, last?, next_sequence, hash_of, already_exists,
}
use kitstack.Audit.Sensitive.{assert_metadata_only_audit}
use kitstack.Audit.Chain.{id_of, IsChained, verify_iff}

abbrev sequence_after : ℕ → List AuditRecord → ℕ
sequence_after index [] = index + 1
sequence_after index (r ∷ rest) = sequence_after (suc index) rest

abbrev hash_after : Option Text → List AuditRecord → Option Text
hash_after previous [] = previous
hash_after previous (r ∷ rest) = hash_after (some r.hash) rest

module _ (platform : Platform) where
  IsChained-append :
      (index : ℕ) (previous : Option Text) (records : List AuditRecord) (new : AuditRecord)
      → IsChained platform index previous records
      → new.body.sequence ≡ sequence_after index records
      → new.body.previous_hash ≡ hash_after previous records
      → new.hash ≡ hash_audit_record platform new.body
      → IsChained platform index previous (records ++ new ∷ [])
  IsChained-append index previous [] new c number link good = (number, link, good, tt)
  IsChained-append index previous (r ∷ rest) new (a, b, d, c) number link good =
      (a, b, d, IsChained-append (suc index) (some r.hash) rest new c number link good)

  sequence_of_last :
      (index : ℕ) (previous : Option Text) (r : AuditRecord) (rest : List AuditRecord)
      → IsChained platform index previous (r ∷ rest)
      → next_sequence (last? (r ∷ rest)) ≡ sequence_after index (r ∷ rest)
  sequence_of_last index previous r [] (number, _, _, _) = omega (arith, number)
  sequence_of_last index previous r (s ∷ rest) (_, _, _, c) =
      sequence_of_last (suc index) (some r.hash) s rest c

  hash_of_last :
      (previous : Option Text) (r : AuditRecord) (rest : List AuditRecord)
      → hash_of (last? (r ∷ rest)) ≡ hash_after previous (r ∷ rest)
  hash_of_last previous r [] = refl
  hash_of_last previous r (s ∷ rest) = hash_of_last (some r.hash) s rest

  next_number :
      (records : List AuditRecord)
      → IsChained platform 0 none records
      → next_sequence (last? records) ≡ sequence_after 0 records
  next_number [] c = refl
  next_number (r ∷ rest) c = sequence_of_last 0 none r rest c

  last_hash : (records : List AuditRecord) → hash_of (last? records) ≡ hash_after none records
  last_hash [] = refl
  last_hash (r ∷ rest) = hash_of_last none r rest

  any-map-id_of :
      (x : Text) (records : List AuditRecord)
      → any (λ id. id == x) (map id_of records) ≡ any (λ r. id_of r == x) records
  any-map-id_of x [] = refl
  any-map-id_of x (r ∷ rest) = rw (any-map-id_of x rest) refl

  map-id_of-append :
      (records : List AuditRecord) (r : AuditRecord)
      → map id_of (records ++ r ∷ []) ≡ map id_of records ++ id_of r ∷ []
  map-id_of-append [] r = refl
  map-id_of-append (x ∷ rest) r = ap (λ l. id_of x ∷ l) (map-id_of-append rest r)

  pub verify-appended :
      (body : Unhashed) (records : List AuditRecord)
      → verify platform records ≡ valid (length records)
      → body.sequence ≡ next_sequence (last? records)
      → body.previous_hash ≡ hash_of (last? records)
      → any (λ r. id_of r == body.event_id) records ≡ false
      → verify platform (records ++ hashed platform body ∷ [])
        ≡ valid (length (records ++ hashed platform body ∷ []))
  unfolding hashed
  verify-appended body records v number link new =
      let (unique, chained) = (verify_iff platform records).0 v in
      (verify_iff platform (records ++ hashed platform body ∷ [])).1 (
        rw (map-id_of-append records (hashed platform body)) (
            IsUnique-append (map id_of records) body.event_id unique
              (any-map-id_of body.event_id records ∙ new)),
        IsChained-append 0 none records (hashed platform body) chained
            (number ∙ next_number records chained) (link ∙ last_hash records) refl,
      )

  -- An append to a log that `verify` accepts either throws, because a key is sensitive or the event's
  -- id is in the log, or answers the new record and puts it behind all others, which stay as they
  -- are; `verify` accepts the log that it leaves.
  pub append_cases :
      (now fresh_id : Text) (input : AuditEventInput) (records : List AuditRecord)
      → verify platform records ≡ valid (length records)
      → ((message : Text) × (assert_metadata_only_audit input ≡ err message)
          × (append platform now fresh_id input records ≡ err message))
        ⊎ ((any (λ r. id_of r == (new_body now fresh_id input records).event_id) records ≡ true)
            × (append platform now fresh_id input records
                ≡ err (already_exists (new_body now fresh_id input records).event_id)))
        ⊎ ((r : AuditRecord) × (assert_metadata_only_audit input ≡ ok tt)
            × (append platform now fresh_id input records ≡ ok (r, records ++ r ∷ []))
            × (verify platform (records ++ r ∷ []) ≡ valid (length (records ++ r ∷ []))))
  unfolding append
  append_cases now fresh_id input records v =
      elim (Result-cases (assert_metadata_only_audit input)) [
        | inl (message, bad) ↦ inl (message, bad, rw bad refl)
        | inr (_, good) ↦
            let body = new_body now fresh_id input records in
            elim (Bool-cases (any (λ r. id_of r == body.event_id) records)) [
              | inl old ↦ inr (inl (old, rw (good, old) refl))
              | inr new ↦ inr (
                  inr (
                    hashed platform body,
                    good,
                    rw (good, new) refl,
                    unfold new_body in verify-appended body records v refl refl new,
                  ))
            ]
      ]
