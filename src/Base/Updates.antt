-- ===== src/Base/Updates.antt =====
-- What an UPDATE leaves alone, and rows that a unique column tells apart.
use mathlib.Core.Path.{◌≡◌, refl, sym, ap, ◌∙◌, subst}
use mathlib.Core.Logic.{inl, inr}
use mathlib.Core.Bool.{Bool, true, false}
use mathlib.Core.List.{List, [], ◌∷◌, ◌++◌, Memᴰ, map}
use native.Mathlib.Omega.{arith}
use kitstack.Base.Tests.{Equality, ◌==◌, Bool-cases, eq_iff}
use kitstack.Base.Lists.{any, keep, All, any_of_mem}
use kitstack.Base.Tables.{update_where, IsUnique}

module _ {ℓ} {A : Type ℓ} (p : A → Bool) (f : A → A) where
  -- An update that neither takes rows from a selection nor adds any leaves the selection.
  pub keep-update_where :
      (q : A → Bool) (xs : List A)
      → ((x : A) → Memᴰ x xs → p x ≡ true → (q x ≡ false) × (q (f x) ≡ false))
      → keep q (update_where p f xs) ≡ keep q xs
  unfolding keep update_where
  keep-update_where q [] out = refl
  keep-update_where q (x ∷ xs) out =
      let rest = keep-update_where q xs (λ y m. out y (Memᴰ.tail m)) in
      elim (Bool-cases (p x)) [
        | inl hit ↦ let (old, new) = out x (Memᴰ.head refl) hit in rw (hit, old, new) rest
        | inr miss ↦ rw (miss, rest) refl
      ]

  -- An update of other columns.
  pub map-update_where {κ} :
      {K : Type κ} (key : A → K) (xs : List A)
      → ((x : A) → key (f x) ≡ key x)
      → map key (update_where p f xs) ≡ map key xs
  unfolding update_where
  map-update_where key [] same = refl
  map-update_where key (x ∷ xs) same = elim (Bool-cases (p x)) [
    | inl hit ↦ rw (hit, same x, map-update_where key xs same) refl
    | inr miss ↦ rw (miss, map-update_where key xs same) refl
  ]

  -- An update that finds no row.
  pub update_where_of_none : (xs : List A) → keep p xs ≡ [] → update_where p f xs ≡ xs
  unfolding keep update_where
  update_where_of_none [] e = refl
  update_where_of_none (x ∷ xs) e = ground (arith, update_where_of_none xs)

  pub All-update_where {κ} :
      (P : A → Type κ) (xs : List A)
      → ((x : A) → p x ≡ true → P x → P (f x))
      → All P xs
      → All P (update_where p f xs)
  unfolding update_where
  All-update_where P [] step h = tt
  All-update_where P (x ∷ xs) step (h, hs) = elim (Bool-cases (p x)) [
    | inl hit ↦ rw hit (step x hit h, All-update_where P xs step hs)
    | inr miss ↦ rw miss (h, All-update_where P xs step hs)
  ]

pub keep_of_miss {ℓ} :
    {A : Type ℓ} (p : A → Bool) (xs : List A)
    → ((x : A) → Memᴰ x xs → p x ≡ true → ⊥)
    → keep p xs ≡ []
unfolding keep
keep_of_miss p [] h = refl
keep_of_miss p (x ∷ xs) h = elim (Bool-cases (p x)) [
  | inl hit ↦ absurd (h x (Memᴰ.head refl) hit)
  | inr miss ↦ rw miss (keep_of_miss p xs (λ y m. h y (Memᴰ.tail m)))
]

pub All-mem {ℓ κ} : {A : Type ℓ} (P : A → Type κ) (xs : List A) {a : A} → All P xs → Memᴰ a xs → P a
All-mem P [] h m = elim m [ ]
All-mem P (x ∷ xs) (h, hs) (Memᴰ.head same) = subst P (sym same) h
All-mem P (x ∷ xs) (h, hs) (Memᴰ.tail m) = All-mem P xs hs m

module _ {ℓ κ} {A : Type ℓ} {K : Type κ} ⦃e : Equality K⦄ (key : A → K) where
  mem-map : (xs : List A) {a : A} → Memᴰ a xs → Memᴰ (key a) (map key xs)
  mem-map [] m = elim m [ ]
  mem-map (x ∷ xs) (Memᴰ.head same) = Memᴰ.head (ap key same)
  mem-map (x ∷ xs) (Memᴰ.tail m) = Memᴰ.tail (mem-map xs m)

  -- The first row's key is no other row's.
  first_alone :
      (x : A) (xs : List A) {a : A}
      → any (λ k. k == key x) (map key xs) ≡ false
      → Memᴰ a xs
      → ¬ (key a ≡ key x)
  first_alone x xs {a} apart m same = absurd (
      cc (
        apart,
        any_of_mem (λ k. k == key x) (map key xs) (mem-map xs m) ((eq_iff (key a) (key x)).1 same),
      ))

  -- Two rows with one key are the same row.
  pub same_of_key :
      (xs : List A) {a b : A}
      → IsUnique (map key xs)
      → Memᴰ a xs
      → Memᴰ b xs
      → key a ≡ key b
      → a ≡ b
  same_of_key [] u m n h = elim m [ ]
  same_of_key (x ∷ xs) (apart, u) (Memᴰ.head s) (Memᴰ.head t) h = s ∙ sym t
  same_of_key (x ∷ xs) (apart, u) (Memᴰ.head s) (Memᴰ.tail n) h =
      absurd (first_alone x xs apart n (sym h ∙ ap key s))
  same_of_key (x ∷ xs) (apart, u) (Memᴰ.tail m) (Memᴰ.head t) h =
      absurd (first_alone x xs apart m (h ∙ ap key t))
  same_of_key (x ∷ xs) (apart, u) (Memᴰ.tail m) (Memᴰ.tail n) h = same_of_key xs u m n h

  any-map-keep :
      (p : A → Bool) (q : K → Bool) (xs : List A)
      → any q (map key xs) ≡ false
      → any q (map key (keep p xs)) ≡ false
  unfolding keep
  any-map-keep p q [] h = refl
  any-map-keep p q (x ∷ xs) h = ground (arith, any-map-keep p q xs)

  pub IsUnique-map-keep :
      (p : A → Bool) (xs : List A) → IsUnique (map key xs) → IsUnique (map key (keep p xs))
  unfolding keep
  IsUnique-map-keep p [] u = tt
  IsUnique-map-keep p (x ∷ xs) (apart, u) = elim (Bool-cases (p x)) [
    | inl hit ↦ rw hit (any-map-keep p (λ k. k == key x) xs apart, IsUnique-map-keep p xs u)
    | inr miss ↦ rw miss (IsUnique-map-keep p xs u)
  ]

  -- A selection of rows with one key is that row, or nothing.
  pub keep_of_key :
      (p : A → Bool) (xs : List A) {a : A}
      → IsUnique (map key xs)
      → Memᴰ a xs
      → p a ≡ true
      → ((x : A) → p x ≡ true → key x ≡ key a)
      → keep p xs ≡ a ∷ []
  unfolding keep
  keep_of_key p [] u m h alone = elim m [ ]
  keep_of_key p (x ∷ xs) {a} (apart, u) (Memᴰ.head same) h alone =
      rw (← same, h, keep_of_miss p xs none_left) refl
    where
      none_left : (y : A) → Memᴰ y xs → p y ≡ true → ⊥
      none_left y n hit = first_alone x xs apart n (alone y hit ∙ ap key same)
  keep_of_key p (x ∷ xs) {a} (apart, u) (Memᴰ.tail m) h alone = elim (Bool-cases (p x)) [
    | inl hit ↦ absurd (first_alone x xs apart m (sym (alone x hit)))
    | inr miss ↦ rw miss (keep_of_key p xs u m h alone)
  ]

pub keep-append_miss {ℓ} :
    {A : Type ℓ} (q : A → Bool) (xs : List A) (y : A)
    → q y ≡ false
    → keep q (xs ++ y ∷ []) ≡ keep q xs
unfolding keep
keep-append_miss q [] y miss = rw miss refl
keep-append_miss q (x ∷ xs) y miss = rw (keep-append_miss q xs y miss) refl

pub keep-keep {ℓ} : {A : Type ℓ} (q : A → Bool) (xs : List A) → keep q (keep q xs) ≡ keep q xs
unfolding keep
keep-keep q [] = refl
keep-keep q (x ∷ xs) = elim (Bool-cases (q x)) [
  | inl hit ↦ rw (hit, hit, keep-keep q xs) refl
  | inr miss ↦ rw (miss, keep-keep q xs) refl
]
