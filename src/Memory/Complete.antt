-- ===== src/Memory/Complete.antt =====
-- Which records `readRelevant` of kits/debrief/src/memory/plugin.ts does not leave out.
use kitstack.Base.{
  insert_row, order_by, ℕ, zero, suc, ◌≡◌, ◌↔◌, inl, inr, refl, ap, Bool, true, Option, none, some,
  List, [], ◌∷◌, Memᴰ, Text, Bool-cases, arith, length, ◌≤◌, take, keep, mem-keep, mem_keep_of_mem,
  Dictionary, text_instance, option_instance,
}
use kitstack.Memory.Types.{MemoryRecord, MemoryReadQuery}
use kitstack.Memory.Select.{
  relevant, is_relevant, context_matches, normalize_limit, in_context, newest_first,
}
use kitstack.Memory.Fitting.{IsFitting, IsFitting-iff, matches}

mem_behind :
    {A : Type 0} (x y : A) (ys zs : List A) {a : A}
    → (Memᴰ a (x ∷ ys) → Memᴰ a zs)
    → Memᴰ a (x ∷ y ∷ ys)
    → Memᴰ a (y ∷ zs)
mem_behind x y ys zs f (Memᴰ.head same) = Memᴰ.tail (f (Memᴰ.head same))
mem_behind x y ys zs f (Memᴰ.tail (Memᴰ.head same)) = Memᴰ.head same
mem_behind x y ys zs f (Memᴰ.tail (Memᴰ.tail m)) = Memᴰ.tail (f (Memᴰ.tail m))

mem_among :
    {A : Type 0} (x y : A) (ys zs : List A) {a : A}
    → (Memᴰ a zs → Memᴰ a (x ∷ ys))
    → Memᴰ a (y ∷ zs)
    → Memᴰ a (x ∷ y ∷ ys)
mem_among x y ys zs f (Memᴰ.head same) = Memᴰ.tail (Memᴰ.head same)
mem_among x y ys zs f (Memᴰ.tail m) = elim (f m) [
  | Memᴰ.head same ↦ Memᴰ.head same
  | Memᴰ.tail n ↦ Memᴰ.tail (Memᴰ.tail n)
]

module _ {A : Type 0} (before : A → A → Bool) where
  mem-insert_row : (x : A) (xs : List A) {a : A} → Memᴰ a (x ∷ xs) → Memᴰ a (insert_row before x xs)
  mem-insert_row x [] m = m
  mem-insert_row x (y ∷ ys) m = elim (Bool-cases (before x y)) [
    | inl first ↦ rw first m
    | inr later ↦
        rw later (mem_behind x y ys (insert_row before x ys) (λ n. mem-insert_row x ys n) m)
  ]

  mem-order_by : (xs : List A) {a : A} → Memᴰ a xs → Memᴰ a (order_by before xs)
  unfolding order_by
  mem-order_by [] m = elim m [ ]
  mem-order_by (x ∷ xs) (Memᴰ.head same) = mem-insert_row x (order_by before xs) (Memᴰ.head same)
  mem-order_by (x ∷ xs) (Memᴰ.tail m) =
      mem-insert_row x (order_by before xs) (Memᴰ.tail (mem-order_by xs m))

  mem_of_insert_row :
      (x : A) (xs : List A) {a : A} → Memᴰ a (insert_row before x xs) → Memᴰ a (x ∷ xs)
  mem_of_insert_row x [] m = m
  mem_of_insert_row x (y ∷ ys) m = elim (Bool-cases (before x y)) [
    | inl first ↦ rw first at m
    | inr later ↦
        mem_among x y ys (insert_row before x ys) (λ n. mem_of_insert_row x ys n) (rw later at m)
  ]

  mem_of_order_by : (xs : List A) {a : A} → Memᴰ a (order_by before xs) → Memᴰ a xs
  unfolding order_by
  mem_of_order_by [] m = m
  mem_of_order_by (x ∷ xs) m = elim (mem_of_insert_row x (order_by before xs) m) [
    | Memᴰ.head same ↦ Memᴰ.head same
    | Memᴰ.tail n ↦ Memᴰ.tail (mem_of_order_by xs n)
  ]

  length-insert_row : (x : A) (xs : List A) → length (insert_row before x xs) ≡ suc (length xs)
  length-insert_row x [] = refl
  length-insert_row x (y ∷ ys) = elim (Bool-cases (before x y)) [
    | inl first ↦ rw first refl
    | inr later ↦ rw later (ap suc (length-insert_row x ys))
  ]

  length-order_by : (xs : List A) → length (order_by before xs) ≡ length xs
  unfolding order_by
  length-order_by [] = refl
  length-order_by (x ∷ xs) = rw (length-insert_row x (order_by before xs), length-order_by xs) refl

take_all : {A : Type 0} (n : ℕ) (xs : List A) → length xs ≤ n → take n xs ≡ xs
take_all zero [] h = refl
take_all zero (x ∷ xs) h = absurd (omega (arith, h))
take_all (suc n) [] h = refl
take_all (suc n) (x ∷ xs) h = ap (λ ys. x ∷ ys) (take_all n xs (omega (arith, h)))

mem-in_context :
    (expected : Option (Dictionary Text)) (records : List MemoryRecord) {r : MemoryRecord}
    → Memᴰ r (in_context expected records) ↔ (Memᴰ r records × (matches expected r ≡ true))
unfolding in_context matches
mem-in_context none records = (λ m. (m, refl), λ m. m.0)
mem-in_context (some x) records = (
  mem-keep (λ a. context_matches a.context x) records,
  λ (m, matching). mem_keep_of_mem (λ a. context_matches a.context x) records m matching,
)

-- When the limit cuts nothing off, the selected records are those that fit.
pub mem-relevant :
    (query : MemoryReadQuery) (rows : List MemoryRecord) (r : MemoryRecord)
    → length (keep (is_relevant query) rows) ≤ normalize_limit query.limit
    → Memᴰ r (relevant query rows) ↔ (Memᴰ r rows × IsFitting query r)
unfolding relevant
mem-relevant query rows r few =
    let kept = keep (is_relevant query) rows in
    let found = order_by newest_first kept in
    let uncut =
      take_all (normalize_limit query.limit) found (rw (length-order_by newest_first kept) few) in
    rw uncut (
      λ m.
          let (n, matching) = (mem-in_context query.context found).0 m in
          let (k, hit) = mem-keep (is_relevant query) rows (mem_of_order_by newest_first kept n) in
          (k, (IsFitting-iff query r).1 (hit, matching)),
      λ (m, fitting).
          let (hit, matching) = (IsFitting-iff query r).0 fitting in
          (mem-in_context query.context found).1 (
            mem-order_by newest_first kept (mem_keep_of_mem (is_relevant query) rows m hit),
            matching,
          ),
    )
