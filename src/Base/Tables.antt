-- ===== src/Base/Tables.antt =====
-- SQL statements on one table, a list of rows in the order of insertion.
use mathlib.Core.Path.{◌≡◌, refl, sym, ap}
use mathlib.Core.Logic.{◌⊎◌}
use mathlib.Core.Logic.{inl, inr}
use mathlib.Core.Bool.{Bool, true, false, not}
use mathlib.Core.List.{List, [], ◌∷◌, ◌++◌, Memᴰ}
use native.Mathlib.Omega.{arith}
use kitstack.Base.Tests.{Equality, ◌==◌, if◌then◌else◌, Bool-cases, eq_iff, ne_comm, or_false_iff}
use kitstack.Base.Lists.{any, keep, List-cases}

module _ {ℓ} {A : Type ℓ} where
  -- `DELETE … WHERE … RETURNING`: the rows left, and the rows deleted.
  unfoldable pub delete_where : (A → Bool) → List A → List A × List A
  delete_where p rows = (keep (λ r. not (p r)) rows, keep p rows)

  -- `UPDATE … SET … WHERE`
  unfoldable pub update_where : (A → Bool) → (A → A) → List A → List A
  update_where p f [] = []
  update_where p f (x ∷ xs) = let rest = update_where p f xs in if p x then f x ∷ rest else x ∷ rest

  -- A row of an updated table: an old one for which the test fails, or one that was changed.
  abbrev pub IsUpdated : (A → Bool) → (A → A) → List A → A → Type ℓ
  IsUpdated p f xs a =
      (Memᴰ a xs × (p a ≡ false)) ⊎ ((x : A) × Memᴰ x xs × (p x ≡ true) × (a ≡ f x))

  IsUpdated-cons :
      (p : A → Bool) (f : A → A) (x : A) (xs : List A) {a : A}
      → IsUpdated p f xs a
      → IsUpdated p f (x ∷ xs) a
  IsUpdated-cons p f x xs (inl (k, h)) = inl (Memᴰ.tail k, h)
  IsUpdated-cons p f x xs (inr (y, k, h, e)) = inr (y, Memᴰ.tail k, h, e)

  IsUpdated-hit :
      (p : A → Bool) (f : A → A) (x : A) (xs rest : List A) {a : A}
      → (Memᴰ a rest → IsUpdated p f xs a)
      → p x ≡ true
      → Memᴰ a (f x ∷ rest)
      → IsUpdated p f (x ∷ xs) a
  IsUpdated-hit p f x xs rest ih hit (Memᴰ.head same) = inr (x, Memᴰ.head refl, hit, same)
  IsUpdated-hit p f x xs rest ih hit (Memᴰ.tail t) = IsUpdated-cons p f x xs (ih t)

  IsUpdated-miss :
      (p : A → Bool) (f : A → A) (x : A) (xs rest : List A) {a : A}
      → (Memᴰ a rest → IsUpdated p f xs a)
      → p x ≡ false
      → Memᴰ a (x ∷ rest)
      → IsUpdated p f (x ∷ xs) a
  IsUpdated-miss p f x xs rest ih miss (Memᴰ.head same) = inl (Memᴰ.head same, rw (same, miss))
  IsUpdated-miss p f x xs rest ih miss (Memᴰ.tail t) = IsUpdated-cons p f x xs (ih t)

  pub mem-update_where :
      (p : A → Bool) (f : A → A) (xs : List A) {a : A}
      → Memᴰ a (update_where p f xs)
      → IsUpdated p f xs a
  unfolding update_where
  mem-update_where p f [] m = elim m [ ]
  mem-update_where p f (x ∷ xs) m = elim (Bool-cases (p x)) [
    | inl hit ↦
        IsUpdated-hit p f x xs (update_where p f xs) (mem-update_where p f xs) hit (rw hit at m)
    | inr miss ↦
        IsUpdated-miss p f x xs (update_where p f xs) (mem-update_where p f xs) miss (rw miss at m)
  ]

  -- Every old row stays, or comes back changed.
  pub mem_update_where_of_mem :
      (p : A → Bool) (f : A → A) (xs : List A) {a : A}
      → Memᴰ a xs
      → Memᴰ (if p a then f a else a) (update_where p f xs)
  unfolding update_where
  mem_update_where_of_mem p f [] m = elim m [ ]
  mem_update_where_of_mem p f (x ∷ xs) {a} (Memᴰ.head same) = rw same (elim (Bool-cases (p x)) [
    | inl hit ↦ rw hit (Memᴰ.head refl)
    | inr miss ↦ rw miss (Memᴰ.head refl)
  ])
  mem_update_where_of_mem p f (x ∷ xs) (Memᴰ.tail t) = elim (Bool-cases (p x)) [
    | inl hit ↦ rw hit (Memᴰ.tail (mem_update_where_of_mem p f xs t))
    | inr miss ↦ rw miss (Memᴰ.tail (mem_update_where_of_mem p f xs t))
  ]

  mem_cons_of_hit :
      (p : A → Bool) (x : A) {rest xs : List A} {a : A}
      → (Memᴰ a rest → Memᴰ a xs × (p a ≡ true))
      → p x ≡ true
      → Memᴰ a (x ∷ rest)
      → Memᴰ a (x ∷ xs) × (p a ≡ true)
  mem_cons_of_hit p x ih hit (Memᴰ.head same) = (Memᴰ.head same, rw (same, hit))
  mem_cons_of_hit p x ih hit (Memᴰ.tail m) = let (m', h) = ih m in (Memᴰ.tail m', h)

  pub mem-keep :
      (p : A → Bool) (xs : List A) {a : A} → Memᴰ a (keep p xs) → Memᴰ a xs × (p a ≡ true)
  unfolding keep
  mem-keep p [] m = elim m [ ]
  mem-keep p (x ∷ xs) m = elim (Bool-cases (p x)) [
    | inl hit ↦ mem_cons_of_hit p x (mem-keep p xs) hit (rw (hit, keep) at m)
    | inr miss ↦ let (m', h) = mem-keep p xs (rw (miss, keep) at m) in (Memᴰ.tail m', h)
  ]

  pub mem_keep_of_mem :
      (p : A → Bool) (xs : List A) {a : A} → Memᴰ a xs → p a ≡ true → Memᴰ a (keep p xs)
  unfolding keep
  mem_keep_of_mem p [] m h = elim m [ ]
  mem_keep_of_mem p (x ∷ xs) (Memᴰ.head same) h = rw (← same, h, keep) (Memᴰ.head refl)
  mem_keep_of_mem p (x ∷ xs) (Memᴰ.tail m) h = elim (Bool-cases (p x)) [
    | inl hit ↦ rw (hit, keep) (Memᴰ.tail (mem_keep_of_mem p xs m h))
    | inr miss ↦ rw (miss, keep) (mem_keep_of_mem p xs m h)
  ]

  -- Nothing deleted, nothing changed.
  pub keep_of_none_deleted :
      (p : A → Bool) (xs : List A) → keep p xs ≡ [] → keep (λ r. not (p r)) xs ≡ xs
  unfolding keep
  keep_of_none_deleted p [] e = refl
  keep_of_none_deleted p (x ∷ xs) e = ground (arith, keep_of_none_deleted p xs)

  pub delete_where_cases :
      (p : A → Bool) (rows : List A)
      → (delete_where p rows ≡ (rows, []))
        ⊎ ((d : A) × (ds : List A) × (delete_where p rows ≡ (keep (λ r. not (p r)) rows, d ∷ ds)))
  unfolding delete_where
  delete_where_cases p rows = elim (List-cases (keep p rows)) [
    | inl nothing ↦ inl (rw nothing (ap (λ rs. (rs, [])) (keep_of_none_deleted p rows nothing)))
    | inr (d, ds, same) ↦ inr (d, ds, rw same)
  ]

module _ {ℓ} {A : Type ℓ} ⦃e : Equality A⦄ where
  -- `INSERT … ON CONFLICT DO NOTHING RETURNING`, under a unique index on all columns: the table,
  -- and the rows inserted.
  unfoldable pub insert_new : A → List A → List A × List A
  insert_new row rows =
      if any (λ r. r == row) rows then (rows, []) else (rows ++ row ∷ [], row ∷ [])

  -- The unique index over the stored rows.
  abbrev pub IsUnique : List A → Type 0
  IsUnique [] = Unit
  IsUnique (x ∷ xs) = (any (λ r. r == x) xs ≡ false) × IsUnique xs

  pub insert_new_cases :
      (row : A) (rows : List A)
      → (insert_new row rows ≡ (rows, []))
        ⊎ ((any (λ r. r == row) rows ≡ false)
            × (insert_new row rows ≡ (rows ++ row ∷ [], row ∷ [])))
  unfolding insert_new
  insert_new_cases row rows = elim (Bool-cases (any (λ r. r == row) rows)) [
    | inl old ↦ inl (rw old)
    | inr new ↦ inr (new, rw new)
  ]

  pub any-append :
      (p : A → Bool) (xs : List A) (y : A)
      → any p xs ≡ false
      → p y ≡ false
      → any p (xs ++ y ∷ []) ≡ false
  any-append p [] y h k = rw k
  any-append p (x ∷ xs) y h k = ground (arith, any-append p xs y)

  pub IsUnique-append :
      (xs : List A) (y : A) → IsUnique xs → any (λ r. r == y) xs ≡ false → IsUnique (xs ++ y ∷ [])
  IsUnique-append [] y u new = (refl, tt)
  IsUnique-append (x ∷ xs) y (apart, u) new = (
    any-append (λ r. r == x) xs y apart (ne_comm x y ((or_false_iff (x == y) _).0 new).0),
    IsUnique-append xs y u ((or_false_iff (x == y) _).0 new).1,
  )

  pub insert_new-IsUnique :
      (row : A) (rows : List A) → IsUnique rows → IsUnique (insert_new row rows).0
  insert_new-IsUnique row rows u = elim (insert_new_cases row rows) [
    | inl old ↦ rw old u
    | inr (new, same) ↦ rw same (IsUnique-append rows row u new)
  ]

  pub any-keep : (p q : A → Bool) (xs : List A) → any q xs ≡ false → any q (keep p xs) ≡ false
  unfolding keep
  any-keep p q [] h = refl
  any-keep p q (x ∷ xs) h = ground (arith, any-keep p q xs)

  pub keep-IsUnique : (p : A → Bool) (xs : List A) → IsUnique xs → IsUnique (keep p xs)
  unfolding keep
  keep-IsUnique p [] u = tt
  keep-IsUnique p (x ∷ xs) (apart, u) =
      ground (arith, any-keep p (λ r. r == x) xs, keep-IsUnique p xs u)

  pub mem_append_last : (xs : List A) (y : A) → Memᴰ y (xs ++ y ∷ [])
  mem_append_last [] y = Memᴰ.head refl
  mem_append_last (x ∷ xs) y = Memᴰ.tail (mem_append_last xs y)

  mem_of_equal : (xs : List A) {y : A} → any (λ r. r == y) xs ≡ true → Memᴰ y xs
  mem_of_equal [] h = absurd (cc)
  mem_of_equal (x ∷ xs) {y} h = elim (Bool-cases (x == y)) [
    | inl hit ↦ Memᴰ.head (sym ((eq_iff x y).0 hit))
    | inr miss ↦ Memᴰ.tail (mem_of_equal xs (rw miss at h))
  ]

  -- After an insertion the row is stored, whether it was there or not.
  pub mem-insert_new : (row : A) (rows : List A) → Memᴰ row (insert_new row rows).0
  unfolding insert_new
  mem-insert_new row rows = elim (Bool-cases (any (λ r. r == row) rows)) [
    | inl old ↦ rw old (mem_of_equal rows old)
    | inr new ↦ rw new (mem_append_last rows row)
  ]
