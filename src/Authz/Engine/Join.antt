-- ===== src/Authz/Engine/Join.antt =====
-- The left join of grants with memberships: its rows are exactly the matching pairs, with a row for
-- each grant that has no match.
use mathlib.Core.List.Memᴰ.{append_cases, append_left, append_right, of_map, map as mem_map}
use kitstack.Base.{
  ◌≡◌, refl, Bool, true, inl, inr, Option, none, some, List, [], ◌∷◌, keep, text_instance, Memᴰ,
  mem-keep, mem_keep_of_mem,
}
use kitstack.Authz.Types.{
  AuthzTuple, SubjectMembership, subject_type_eq, relation_eq, object_type_eq,
}
use kitstack.Authz.Engine.{Joined, join_matches, left_join}

-- What a row of the left join stands for.
abbrev pub Matched :
    (AuthzTuple → SubjectMembership → Bool) → List SubjectMembership → Joined → Type 0
Matched on ms (t, none) = Unit
Matched on ms (t, some m) = Memᴰ m ms × (on t m ≡ true)

module _ (on : AuthzTuple → SubjectMembership → Bool) (ms : List SubjectMembership) where
  pub join_matches_sound :
      (t : AuthzTuple) (ks : List SubjectMembership) (r : Joined)
      → ((k : SubjectMembership) → Memᴰ k ks → Memᴰ k ms × (on t k ≡ true))
      → Memᴰ r (join_matches t ks)
      → (r.0 ≡ t) × Matched on ms r
  unfolding join_matches
  join_matches_sound t [] r h (Memᴰ.head same) = rw same (refl, tt)
  join_matches_sound t [] r h (Memᴰ.tail m) = elim m [ ]
  join_matches_sound t (k ∷ ks) r h m =
      let (k', listed, same) = of_map (λ k. (t, some k)) (k ∷ ks) m in
      rw (← same) (refl, h k' listed)

  pub left_join_sound :
      (ts : List AuthzTuple) (r : Joined)
      → Memᴰ r (left_join on ms ts)
      → Memᴰ r.0 ts × Matched on ms r
  unfolding left_join
  left_join_sound [] r m = elim m [ ]
  left_join_sound (t ∷ ts) r m = elim (append_cases (join_matches t (keep (on t) ms)) m) [
    | inl here ↦
        let (same, h) = join_matches_sound t (keep (on t) ms) r (λ k. mem-keep (on t) ms) here in
        (Memᴰ.head same, h)
    | inr later ↦ let (stored, h) = left_join_sound ts r later in (Memᴰ.tail stored, h)
  ]

  -- Every grant has a row, and every match of it.
  pub join_matches_some :
      (t : AuthzTuple) (ks : List SubjectMembership)
      → (m : Option SubjectMembership) × Memᴰ (t, m) (join_matches t ks)
  unfolding join_matches
  join_matches_some t [] = (none, Memᴰ.head refl)
  join_matches_some t (k ∷ ks) = (some k, Memᴰ.head refl)

  pub join_matches_complete :
      (t : AuthzTuple) (ks : List SubjectMembership) {k : SubjectMembership}
      → Memᴰ k ks
      → Memᴰ (t, some k) (join_matches t ks)
  unfolding join_matches
  join_matches_complete t [] m = elim m [ ]
  join_matches_complete t (k ∷ ks) m = mem_map (λ k. (t, some k)) m

  pub left_join_some :
      (ts : List AuthzTuple) {t : AuthzTuple}
      → Memᴰ t ts
      → (m : Option SubjectMembership) × Memᴰ (t, m) (left_join on ms ts)
  unfolding left_join
  left_join_some [] m = elim m [ ]
  left_join_some (t ∷ ts) (Memᴰ.head same) =
      let (m, r) = join_matches_some t (keep (on t) ms) in
      (m, rw same (append_left (left_join on ms ts) r))
  left_join_some (t ∷ ts) (Memᴰ.tail later) =
      let (m, r) = left_join_some ts later in (m, append_right (join_matches t (keep (on t) ms)) r)

  pub left_join_complete :
      (ts : List AuthzTuple) {t : AuthzTuple} {k : SubjectMembership}
      → Memᴰ t ts
      → Memᴰ k ms
      → on t k ≡ true
      → Memᴰ (t, some k) (left_join on ms ts)
  unfolding left_join
  left_join_complete [] m mk h = elim m [ ]
  left_join_complete (t ∷ ts) {k} (Memᴰ.head same) mk h = rw same (
      append_left (left_join on ms ts)
        (join_matches_complete t (keep (on t) ms) (mem_keep_of_mem (on t) ms mk (rw same at h))))
  left_join_complete (t ∷ ts) (Memᴰ.tail later) mk h =
      append_right (join_matches t (keep (on t) ms)) (left_join_complete ts later mk h)
