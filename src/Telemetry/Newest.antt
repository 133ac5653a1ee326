-- ===== src/Telemetry/Newest.antt =====
-- Which events a query of kits/debrief/src/telemetry/index.ts gives.
use mathlib.Core.List.{reverse-append, reverse-cons, reverse-reverse}
use kitstack.Base.{
  ℕ, zero, suc, ◌≡◌, ◌⊎◌, inl, inr, refl, sym, ap, ◌∙◌, ◌≤◌, ◌<◌, Bool, false, List, [], ◌∷◌, ◌++◌,
  reverse, Bool-cases, arith, length, length-append, take, keep, All, All-keep, insert_row,
  order_by, All-order_by, text_instance,
}
use kitstack.Telemetry.Types.{TelemetryEvent, TelemetryQuery}
use kitstack.Telemetry.{is_selected, query_limit, later_first, query_events, TelemetryTable}

-- The sequence numbers grow from row to row.
abbrev pub IsAscending : List TelemetryEvent → Type 0
IsAscending [] = Unit
IsAscending (x ∷ xs) = All (λ y. x.sequence < y.sequence) xs × IsAscending xs

pub record IsNumbered (table : TelemetryTable) : Type 0 where
  pub ascending : IsAscending table.rows
  pub below : All (λ r. r.sequence < table.next_sequence) table.rows

pub IsAscending-keep :
    (p : TelemetryEvent → Bool) (rows : List TelemetryEvent)
    → IsAscending rows
    → IsAscending (keep p rows)
unfolding keep
IsAscending-keep p [] h = tt
IsAscending-keep p (x ∷ xs) (first, rest) = elim (Bool-cases (p x)) [
  | inl hit ↦
      rw (keep, hit)
        (All-keep (λ y. x.sequence < y.sequence) p xs first, IsAscending-keep p xs rest)
  | inr miss ↦ rw (keep, miss) (IsAscending-keep p xs rest)
]

pub insert_last :
    (x : TelemetryEvent) (rows : List TelemetryEvent)
    → All (λ y. x.sequence < y.sequence) rows
    → insert_row later_first x rows ≡ rows ++ x ∷ []
insert_last x [] h = refl
insert_last x (y ∷ ys) (h, hs) =
    let later : later_first x y ≡ false = ground (arith, h) in
    rw (insert_row, later) (ap (λ zs. y ∷ zs) (insert_last x ys hs))

pub order_by-ascending :
    (rows : List TelemetryEvent) → IsAscending rows → order_by later_first rows ≡ reverse rows
unfolding order_by
order_by-ascending [] h = refl
order_by-ascending (x ∷ xs) (first, rest) =
    insert_last x (order_by later_first xs)
      (All-order_by (λ y. x.sequence < y.sequence) later_first xs first)
    ∙ ap (λ ys. ys ++ x ∷ []) (order_by-ascending xs rest)
    ∙ sym (reverse-cons x xs)

length-reverse : {A : Type 0} (xs : List A) → length (reverse xs) ≡ length xs
length-reverse [] = refl
length-reverse (x ∷ xs) =
    rw (reverse-cons x xs, length-append (reverse xs) (x ∷ [])) (omega (arith, length-reverse xs))

take_split :
    {A : Type 0} (n : ℕ) (xs : List A)
    → (rest : List A) × (xs ≡ take n xs ++ rest)
      × (length (take n xs) ≤ n)
      × ((rest ≡ []) ⊎ (length (take n xs) ≡ n))
take_split zero xs = (xs, refl, omega arith, inr refl)
take_split (suc n) [] = ([], refl, omega arith, inl refl)
take_split (suc n) (x ∷ xs) =
    let (rest, split, few, full) = take_split n xs in
    (
      rest,
      ap (λ ys. x ∷ ys) split,
      omega (arith, few),
      elim full [ inl all ↦ inl all | inr cut ↦ inr (ap suc cut) ],
    )

-- The last events that the query selects, within its limit.
abbrev pub IsNewest : TelemetryQuery → List TelemetryEvent → List TelemetryEvent → Type 0
unfolding is_selected keep
IsNewest query rows found =
    (older : List TelemetryEvent) × (keep (is_selected query) rows ≡ older ++ found)
    × (length found ≤ query_limit query.limit)
    × ((older ≡ []) ⊎ (length found ≡ query_limit query.limit))

pub query_events-IsNewest :
    (query : TelemetryQuery) (rows : List TelemetryEvent)
    → IsAscending rows
    → IsNewest query rows (query_events query rows)
unfolding query_events IsNewest
query_events-IsNewest query rows h =
    let chosen = keep (is_selected query) rows in
    let sorted = order_by-ascending chosen (IsAscending-keep (is_selected query) rows h) in
    let n = query_limit query.limit in
    let (rest, split, few, full) = take_split n (reverse chosen) in
    rw sorted (
      reverse rest,
      sym (reverse-reverse chosen)
          ∙ ap reverse split
          ∙ reverse-append (take n (reverse chosen)) rest,
      rw (length-reverse (take n (reverse chosen))) few,
      elim full [
        | inl all ↦ inl (ap reverse all)
        | inr cut ↦ inr (length-reverse (take n (reverse chosen)) ∙ cut)
      ],
    )
