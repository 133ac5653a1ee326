-- ===== src/Memory/Approved.antt =====
-- Which memories `readRelevant` of kits/debrief/src/memory/plugin.ts gives.
use kitstack.Base.{
  order_by, All-order_by, ℕ, zero, suc, ◌≡◌, inl, inr, refl, ap, Bool, true, false, not, ◌||◌, ◌&&◌,
  some, List, [], ◌∷◌, ◌++◌, Memᴰ, Text, codes, Result, ok, err, Bool-cases, Option-cases, ◌==◌,
  text_instance, option_instance, eq_iff, arith, length, ◌≤◌, take, keep, head?, any, or_else, All,
  All-append, All-keep, All-update_where,
}
use kitstack.Memory.Types.{
  MemoryStatus, memory_status_eq, MemoryWriteInput, MemoryRecord, MemoryContext, MemoryReadQuery,
  Telemetry,
}
use kitstack.Memory.Select.{find_owned, is_owned, is_released}
use kitstack.Memory.{
  MemoryState, assert_write_input, write_candidate, transition, read_relevant, reset, told, updated,
  new_memory, source_of, moved, operation_of, emit_write, emit_read, in_kit,
}
use kitstack.Memory.Operations.{MemoryRequest}

module _ {A : Type 0} (P : A → Type 0) where
  pub All-take : (n : ℕ) (xs : List A) → All P xs → All P (take n xs)
  All-take zero xs h = tt
  All-take (suc n) [] h = tt
  All-take (suc n) (x ∷ xs) (h, hs) = (h, All-take n xs hs)

  -- The rows of a selection have the property and pass its test.
  pub All-kept : (p : A → Bool) (xs : List A) → All P xs → All (λ x. P x × (p x ≡ true)) (keep p xs)
  unfolding keep
  All-kept p [] h = tt
  All-kept p (x ∷ xs) (h, hs) = elim (Bool-cases (p x)) [
    | inl hit ↦ rw hit ((h, hit), All-kept p xs hs)
    | inr miss ↦ rw miss (All-kept p xs hs)
  ]

pub All-weaken :
    {A : Type 0} {P Q : A → Type 0} → ((x : A) → P x → Q x) → (xs : List A) → All P xs → All Q xs
All-weaken f [] h = tt
All-weaken f (x ∷ xs) (h, hs) = (f x h, All-weaken f xs hs)

head-mem : {A : Type 0} (P : A → Type 0) (xs : List A) {x : A} → All P xs → head? xs ≡ some x → P x
head-mem P [] h e = cc
head-mem P (y ∷ ys) (h, hs) e = rw (← ap (λ o. or_else o y) e) h

pub length-take : {A : Type 0} (n : ℕ) (xs : List A) → length (take n xs) ≤ n
length-take zero xs = omega arith
length-take (suc n) [] = omega arith
length-take (suc n) (x ∷ xs) = omega (arith, length-take n xs)

pub length-keep : {A : Type 0} (p : A → Bool) (xs : List A) → length (keep p xs) ≤ length xs
unfolding keep
length-keep p [] = omega arith
length-keep p (x ∷ xs) = elim (Bool-cases (p x)) [
  | inl hit ↦ rw hit (omega (arith, length-keep p xs))
  | inr miss ↦ rw miss (omega (arith, length-keep p xs))
]

-- An operation before approves the memory of the record, for its organization and kit.
pub record WasApproved (past : List MemoryRequest) (r : MemoryRecord) : Type 0 where
  pub timestamp : Text
  pub context : MemoryContext
  pub asked : Memᴰ (MemoryRequest.approve r.memory_id timestamp context) past
  pub same_org : context.org_id ≡ r.org_id
  pub same_kit : context.kit_id ≡ r.kit_id

-- A record is released only after that.
abbrev pub IsGuarded : List MemoryRequest → MemoryRecord → Type 0
IsGuarded past r = is_released r.status ≡ true → WasApproved past r

pub approves :
    (r : MemoryRecord) (past : List MemoryRequest) (op : MemoryRequest)
    → IsGuarded past r
    → IsGuarded (op ∷ past) r
approves r past op h released =
    let g = h released in
    record {
      timestamp = g.timestamp;
      context = g.context;
      asked = Memᴰ.tail g.asked;
      same_org = g.same_org;
      same_kit = g.same_kit;
    }

and3 : (a b c : Bool) → (a && b && c) ≡ true → (a ≡ true) × (b ≡ true) × (c ≡ true)
and3 true true true h = (refl, refl, refl)
and3 true true false h = cc
and3 true false c h = cc
and3 false b c h = cc

-- The owner's test, taken apart.
pub owned :
    (memory_id : Text) (context : MemoryContext) (r : MemoryRecord)
    → is_owned memory_id context r ≡ true
    → (r.memory_id ≡ memory_id) × (r.org_id ≡ context.org_id) × (r.kit_id ≡ context.kit_id)
owned memory_id context r h =
    let (a, b, c) =
      and3 (r.memory_id == memory_id) (r.org_id == context.org_id) (r.kit_id == context.kit_id) h in
    (
      (eq_iff r.memory_id memory_id).0 a,
      (eq_iff r.org_id context.org_id).0 b,
      (eq_iff r.kit_id context.kit_id).0 c,
    )

find_owned-mem :
    (P : MemoryRecord → Type 0) (memory_id : Text) (context : MemoryContext)
    (rows : List MemoryRecord) (r : MemoryRecord)
    → All P rows
    → find_owned memory_id context rows ≡ some r
    → P r × (is_owned memory_id context r ≡ true)
unfolding find_owned
find_owned-mem P memory_id context rows r h found =
    head-mem (λ x. P x × (is_owned memory_id context x ≡ true))
      (order_by _ (keep (is_owned memory_id context) rows))
      (All-order_by _ _ _ (All-kept P (is_owned memory_id context) rows h)) found

told-rows :
    {T A : Type 0} (value : A) (rows : List MemoryRecord) (out : Result Text (Unit {0}) × T)
    → (told value rows out).1.0 ≡ rows
told-rows value rows (ok _, t) = refl
told-rows value rows (err message, t) = refl

module _ {T : Type 0} (telemetry : Telemetry T) where
  emit_write-rows :
      {A : Type 0} (value : A) (operation : Text) (ids : List Text) (context : MemoryContext)
      (rows : List MemoryRecord) (t : T)
      → (emit_write telemetry value operation ids context rows t).1.0 ≡ rows
  emit_write-rows value operation ids context rows t = told-rows value rows (
      telemetry
        (record {
          type = codes "memory.write";
          operation = operation;
          memory_ids = ids;
          context = context;
        })
        t)

  emit_read-rows :
      {A : Type 0} (value : A) (ids : List Text) (context : MemoryContext)
      (rows : List MemoryRecord) (t : T)
      → (emit_read telemetry value ids context rows t).1.0 ≡ rows
  emit_read-rows value ids context rows t = told-rows value rows (
      telemetry
        (record {
          type = codes "memory.read";
          operation = codes "read_relevant";
          memory_ids = ids;
          context = context;
        })
        t)

  abbrev pub Guards : List MemoryRequest → List MemoryRecord → Type 0
  Guards past rows = All (IsGuarded past) rows

  updated-state :
      (memory_id : Text) (context : MemoryContext) (out : Result Text (Unit {0}) × MemoryState T)
      → (updated memory_id context out).1 ≡ out.1
  unfolding find_owned
  updated-state memory_id context (err m, s) = refl
  updated-state memory_id context (ok u, (rows, t)) =
      elim (Option-cases (find_owned memory_id context rows)) [
        | inl gone ↦ rw (updated, gone) refl
        | inr (r, there) ↦ rw (updated, there) refl
      ]

  pub written-Guards :
      (constraint : Text) (past : List MemoryRequest) (memory_id version_id created_at : Text)
      (input : MemoryWriteInput) (context : MemoryContext) (rows : List MemoryRecord) (t : T)
      → Guards past rows
      → Guards past
          (write_candidate telemetry constraint memory_id version_id created_at input context
            (rows, t)).1.0
  unfolding write_candidate
  written-Guards constraint past memory_id version_id created_at input context rows t h =
      let row = new_memory memory_id version_id created_at input context in
      elim (Option-cases (assert_write_input input)) [
        | inr (m, bad) ↦ rw (write_candidate, bad) h
        | inl good ↦ elim (Bool-cases (any (λ r. r.version_id == version_id) rows)) [
          | inl there ↦ rw (write_candidate, good, there) h
          | inr fresh ↦
              rw
                (
                  write_candidate,
                  good,
                  fresh,
                  emit_write-rows row (codes "write_candidate") (memory_id ∷ []) context
                      (rows ++ row ∷ []) t,
                )
                (All-append (IsGuarded past) rows (row ∷ []) h (λ released. absurd (cc), tt))
        ]
      ]

  pub transition-Guards :
      (past : List MemoryRequest) (status : MemoryStatus) (memory_id timestamp : Text)
      (context : MemoryContext) (rows : List MemoryRecord) (t : T)
      → Guards past rows
      → ((existing : MemoryRecord)
          → IsGuarded past existing
          → is_owned memory_id context existing ≡ true
          → existing.status ≡ source_of status
          → (r : MemoryRecord) → is_owned memory_id context r ≡ true
          → IsGuarded past r
          → IsGuarded past (moved status timestamp r))
      → Guards past (transition telemetry status memory_id timestamp context (rows, t)).1.0
  unfolding transition
  transition-Guards past status memory_id timestamp context rows t h step =
      elim (Option-cases (find_owned memory_id context rows)) [
        | inl absent ↦ rw (transition, absent) h
        | inr (existing, there) ↦
            let (g, mine) =
              find_owned-mem (IsGuarded past) memory_id context rows existing h there in
            elim (Bool-cases (existing.status == source_of status)) [
              | inr wrong ↦ rw (transition, there, wrong) h
              | inl right ↦
                  rw
                    (
                      transition,
                      there,
                      right,
                      updated-state memory_id context _,
                      emit_write-rows tt (operation_of status) (memory_id ∷ []) context _ t,
                    )
                    (All-update_where (is_owned memory_id context) (moved status timestamp)
                      (IsGuarded past) rows
                      (step existing g mine ((eq_iff existing.status (source_of status)).0 right))
                      h)
            ]
      ]

  pub reset-Guards :
      (past : List MemoryRequest) (context : MemoryContext) (rows : List MemoryRecord) (t : T)
      → Guards past rows
      → Guards past (reset telemetry context (rows, t)).1.0
  unfolding reset
  reset-Guards past context rows t h =
      rw (reset, emit_write-rows tt (codes "reset") _ context _ t)
        (All-keep (IsGuarded past) (λ r. not (in_kit context r)) rows h)

  pub read_relevant-rows :
      (query : MemoryReadQuery) (context : MemoryContext) (rows : List MemoryRecord) (t : T)
      → (read_relevant telemetry query context (rows, t)).1.0 ≡ rows
  unfolding read_relevant
  read_relevant-rows query context rows t =
      elim (Bool-cases
        (not (query.org_id == context.org_id) || not (query.kit_id == context.kit_id))) [
          | inl other ↦ rw (read_relevant, other) refl
          | inr same ↦ rw (read_relevant, same) (emit_read-rows _ _ context rows t)
        ]
