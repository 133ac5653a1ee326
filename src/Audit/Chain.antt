-- ===== src/Audit/Chain.antt =====
-- What `verify` of packages/sdk/src/audit.ts accepts, and what `append` keeps.
pub mod Appended
use mathlib.Core.Path.{subst, ◌∙◌}
use kitstack.Base.{
  ℕ, zero, suc, ◌+◌, ◌≡◌, ◌↔◌, ◌⊎◌, inl, inr, refl, sym, ap, Bool, true, false, not, ◌||◌, Option,
  none, some, List, [], ◌∷◌, ◌++◌, map, Text, any, length, if◌then◌else◌, ◌==◌, nat_eq, nat_eq_iff,
  text_instance, option_instance, eq_iff, ne_comm, or_false_iff, Bool-cases, Result-cases, Result,
  ok, err, ok_injective, ◌>>=◌, ◌>>◌, arith, Memᴰ, IsUnique, IsUnique-append,
}
use kitstack.Audit.Types.{
  AuditEventInput, Unhashed, AuditRecord, AuditVerification, valid, Reason, Platform,
}
use kitstack.Audit.Json.{hash_audit_record, canonical_audit_record}
use kitstack.Audit.Store.{
  append, verify, verify_from, new_body, hashed, last?, next_sequence, hash_of,
}
use kitstack.Audit.Sensitive.{assert_metadata_only_audit}

abbrev pub id_of : AuditRecord → Text
id_of r = r.body.event_id

module _ (platform : Platform) where
  -- Each record has the next number, the hash of the one before it, and the hash of its own content.
  abbrev pub IsChained : ℕ → Option Text → List AuditRecord → Type 0
  IsChained index previous [] = Unit
  IsChained index previous (r ∷ rest) =
      (r.body.sequence ≡ index + 1)
      × (r.body.previous_hash ≡ previous)
      × (r.hash ≡ hash_audit_record platform r.body)
      × IsChained (suc index) (some r.hash) rest

  abbrev IsFresh : List Text → List AuditRecord → Type 0
  IsFresh ids records = (r : AuditRecord) → Memᴰ r records → any (λ id. id == id_of r) ids ≡ false

  alone_of_fresh :
      (x : Text) (rest : List AuditRecord)
      → ((r : AuditRecord) → Memᴰ r rest → (x == id_of r) ≡ false)
      → any (λ id. id == x) (map id_of rest) ≡ false
  alone_of_fresh x [] h = refl
  alone_of_fresh x (r ∷ rest) h = ground (
    arith,
    ne_comm x (id_of r) (h r (Memᴰ.head refl)),
    alone_of_fresh x rest (λ s m. h s (Memᴰ.tail m)),
  )

  fresh_of_alone :
      (x : Text) (rest : List AuditRecord)
      → any (λ id. id == x) (map id_of rest) ≡ false
      → (r : AuditRecord) → Memᴰ r rest
      → (x == id_of r) ≡ false
  fresh_of_alone x [] h r m = elim m [ ]
  fresh_of_alone x (s ∷ rest) h r (Memᴰ.head same) =
      subst (λ z. (x == id_of z) ≡ false) (sym same)
        (ne_comm (id_of s) x ((or_false_iff (id_of s == x) _).0 h).0)
  fresh_of_alone x (s ∷ rest) h r (Memᴰ.tail m) =
      fresh_of_alone x rest ((or_false_iff (id_of s == x) _).0 h).1 r m

  verify_from_sound :
      (total index : ℕ) (ids : List Text) (previous : Option Text) (records : List AuditRecord)
      → verify_from platform total index ids previous records ≡ valid total
      → IsFresh ids records × IsUnique (map id_of records) × IsChained index previous records
  unfolding verify_from
  verify_from_sound total index ids previous [] e = ((λ r m. elim m [ ]), tt, tt)
  verify_from_sound total index ids previous (r ∷ rest) e =
      elim (Bool-cases (any (λ id. id == id_of r) ids)) [
        | inl seen ↦ absurd (cc (rw seen at e))
        | inr new ↦ elim (Bool-cases (nat_eq r.body.sequence (index + 1))) [
          | inr bad ↦ absurd (cc (rw (new, bad) at e))
          | inl numbered ↦ elim (Bool-cases (r.body.previous_hash == previous)) [
            | inr bad ↦ absurd (cc (rw (new, numbered, bad) at e))
            | inl linked ↦ elim (Bool-cases (r.hash == hash_audit_record platform r.body)) [
              | inr bad ↦ absurd (cc (rw (new, numbered, linked, bad) at e))
              | inl good ↦
                  let (fresh, unique, chained) =
                    verify_from_sound total (suc index) (id_of r ∷ ids) (some r.hash) rest
                      (rw (new, numbered, linked, good) at e) in
                  (
                    (λ s m. elim m [
                      | Memᴰ.head same ↦
                          subst (λ z. any (λ id. id == id_of z) ids ≡ false) (sym same) new
                      | Memᴰ.tail later ↦
                          ((or_false_iff (id_of r == id_of s) _).0 (fresh s later)).1
                    ]),
                    (
                      alone_of_fresh (id_of r) rest
                          (λ s m. ((or_false_iff (id_of r == id_of s) _).0 (fresh s m)).0),
                      unique,
                    ),
                    (
                      (nat_eq_iff r.body.sequence (index + 1)).0 numbered,
                      (eq_iff r.body.previous_hash previous).0 linked,
                      (eq_iff r.hash (hash_audit_record platform r.body)).0 good,
                      chained,
                    ),
                  )
            ]
          ]
        ]
      ]

  verify_from_complete :
      (total index : ℕ) (ids : List Text) (previous : Option Text) (records : List AuditRecord)
      → IsFresh ids records
      → IsUnique (map id_of records)
      → IsChained index previous records
      → verify_from platform total index ids previous records ≡ valid total
  unfolding verify_from
  verify_from_complete total index ids previous [] fresh unique chained = refl
  verify_from_complete total index ids previous (r ∷ rest) fresh (alone, unique)
        (number, link, good, chained) =
      rw
        (
          fresh r (Memᴰ.head refl),
          (nat_eq_iff r.body.sequence (index + 1)).1 number,
          (eq_iff r.body.previous_hash previous).1 link,
          (eq_iff r.hash (hash_audit_record platform r.body)).1 good,
        )
        (verify_from_complete total (suc index) (id_of r ∷ ids) (some r.hash) rest
          (λ s m.
            (or_false_iff (id_of r == id_of s) _).1
              (fresh_of_alone (id_of r) rest alone s m, fresh s (Memᴰ.tail m)))
          unique chained)

  -- `verify` accepts a log exactly when its event ids are all different and it is a chain: the records
  -- are numbered from 1, each holds the hash of the one before it, the first holds none, and each
  -- hash is the hash of the record's own content.
  pub verify_iff :
      (records : List AuditRecord)
      → (verify platform records ≡ valid (length records))
        ↔ (IsUnique (map id_of records) × IsChained 0 none records)
  unfolding verify
  verify_iff records = (
    λ e.
        let (_, unique, chained) = verify_from_sound (length records) 0 [] none records e in
        (unique, chained),
    λ (unique, chained).
        verify_from_complete (length records) 0 [] none records (λ r m. refl) unique chained,
  )
