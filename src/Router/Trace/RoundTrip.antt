-- ===== src/Router/Trace/RoundTrip.antt =====
-- What is printed as a `traceparent` is read back.
use kitstack.Base.{
  ℕ, ◌+◌, ◌≡◌, refl, sym, inl, inr, true, false, ◌||◌, Option, none, some, List, [], ◌∷◌, ◌++◌,
  reverse, Text, codes, trim, trim_start, is_space, length, all, ltb, nat_eq, text_eq, Bool-cases,
  Option-cases, arith, length-append, and_iff, nat_eq_iff,
}
use mathlib.Core.List.{reverse-append, append_assoc, reverse-reverse, reverse-cons}
use kitstack.Router.Trace.{
  TraceparentContext, is_hex, is_hex_text, is_hex_field, is_zero, add_to, split_dashes,
  is_malformed, parse_parts, parse_traceparent, valid_trace_id, valid_parent_id, traceparent_text,
  traceparent_from_ids, fresh_context, resolve_traceparent,
}

split_dashes_cases : (s : Text) → (p : Text) × (ps : List Text) × (split_dashes s ≡ p ∷ ps)
unfolding split_dashes add_to
split_dashes_cases [] = ([], [], refl)
split_dashes_cases (c ∷ s) =
    let (p, ps, e) = split_dashes_cases s in
    elim (Bool-cases (nat_eq c 45)) [
      | inl dash ↦ ([], p ∷ ps, rw (e, dash) refl)
      | inr other ↦ (c ∷ p, ps, rw (e, other) refl)
    ]

-- Splitting at the first dash.
split_dashes-append :
    (s t : Text) → all is_hex s ≡ true → split_dashes (s ++ 45 ∷ t) ≡ s ∷ split_dashes t
unfolding split_dashes add_to is_hex
split_dashes-append [] t h = let (p, ps, e) = split_dashes_cases t in rw e refl
split_dashes-append (c ∷ s) t h =
    let (_, later) = (and_iff (is_hex c) (all is_hex s)).0 h in
    rw (split_dashes-append s t later) (ground arith)

split_dashes_hex : (s : Text) → all is_hex s ≡ true → split_dashes s ≡ s ∷ []
unfolding split_dashes add_to is_hex
split_dashes_hex [] h = refl
split_dashes_hex (c ∷ s) h =
    let (_, later) = (and_iff (is_hex c) (all is_hex s)).0 h in
    rw (split_dashes_hex s later) (ground arith)

-- A text that starts with no white space.
abbrev IsSolid : Text → Type 0
IsSolid [] = Unit
IsSolid (c ∷ s) = is_space c ≡ false

trim_start-IsSolid : (s : Text) → IsSolid (trim_start s)
unfolding trim_start
trim_start-IsSolid [] = tt
trim_start-IsSolid (c ∷ s) = elim (Bool-cases (is_space c)) [
  | inl space ↦ rw space (trim_start-IsSolid s)
  | inr solid ↦ rw solid solid
]

trim_start_of_solid : (s : Text) → IsSolid s → trim_start s ≡ s
unfolding trim_start
trim_start_of_solid [] h = refl
trim_start_of_solid (c ∷ s) h = rw h refl

trim_start-append :
    (s : Text) (c : ℕ) → is_space c ≡ false → (t : Text) × (trim_start (s ++ c ∷ []) ≡ t ++ c ∷ [])
unfolding trim_start
trim_start-append [] c h = ([], rw h refl)
trim_start-append (d ∷ s) c h = elim (Bool-cases (is_space d)) [
  | inl space ↦ rw space (trim_start-append s c h)
  | inr solid ↦ (d ∷ s, rw solid refl)
]

reverse_snoc : (s : Text) (c : ℕ) → reverse (s ++ c ∷ []) ≡ c ∷ reverse s
reverse_snoc s c = reverse-append s (c ∷ [])

trim_end-IsSolid : (s : Text) → IsSolid s → IsSolid (reverse (trim_start (reverse s)))
unfolding trim_start
trim_end-IsSolid [] h = tt
trim_end-IsSolid (c ∷ s) h =
    let (t, e) = trim_start-append (reverse s) c h in rw (reverse-cons c s, e, reverse_snoc t c) h

trim_idem : (s : Text) → trim (trim s) ≡ trim s
unfolding trim
trim_idem s =
    let x = trim_start (reverse (trim_start s)) in
    rw
      (
        trim_start_of_solid (reverse x) (trim_end-IsSolid (trim_start s) (trim_start-IsSolid s)),
        reverse-reverse x,
        trim_start_of_solid x (trim_start-IsSolid (reverse (trim_start s))),
      )
      refl

trim_of_solid :
    (c d : ℕ) (s : Text)
    → is_space c ≡ false
    → is_space d ≡ false
    → trim (c ∷ (s ++ d ∷ [])) ≡ c ∷ (s ++ d ∷ [])
unfolding trim
trim_of_solid c d s first last =
    rw
      (
        trim_start_of_solid (c ∷ (s ++ d ∷ [])) first,
        reverse_snoc (c ∷ s) d,
        trim_start_of_solid (d ∷ reverse (c ∷ s)) last,
        reverse-cons d (reverse (c ∷ s)),
        reverse-reverse (c ∷ s),
      )
      refl

-- The four checks of an id.
abbrev pub IsId : ℕ → Text → Type 0
IsId n s = (is_hex_text n s ≡ true) × (is_zero s ≡ false)

parsed_parts :
    (t p input : Text)
    → IsId 32 t
    → IsId 16 p
    → parse_parts input (codes "00" ∷ t ∷ p ∷ codes "01" ∷ [])
      ≡ some (record { trace_id = t; parent_id = some p; traceparent = input })
unfolding parse_parts is_malformed is_hex is_hex_field is_hex_text text_eq
parsed_parts t p input (hex_t, zero_t) (hex_p, zero_p) = rw (hex_t, zero_t, hex_p, zero_p) refl

split-traceparent_text :
    (t p : Text)
    → all is_hex t ≡ true
    → all is_hex p ≡ true
    → split_dashes (traceparent_text t p) ≡ codes "00" ∷ t ∷ p ∷ codes "01" ∷ []
unfolding traceparent_text is_hex
split-traceparent_text t p ht hp =
    rw
      (
        split_dashes-append (codes "00") (t ++ (codes "-" ++ (p ++ codes "-01"))) refl,
        split_dashes-append t (p ++ codes "-01") ht,
        split_dashes-append p (codes "01") hp,
        split_dashes_hex (codes "01") refl,
      )
      refl

trim-traceparent_text : (t p : Text) → trim (traceparent_text t p) ≡ traceparent_text t p
unfolding traceparent_text
trim-traceparent_text t p =
    let middle = codes "0-" ++ (t ++ (codes "-" ++ (p ++ codes "-0"))) in
    let shape : traceparent_text t p ≡ 48 ∷ (middle ++ 49 ∷ []) = simp append_assoc in
    rw shape (trim_of_solid 48 49 middle refl refl)

length-traceparent_text : (t p : Text) → length (traceparent_text t p) ≡ 7 + (length t + length p)
unfolding traceparent_text
length-traceparent_text t p = grind (arith, length-append)

hex_of_id : (n : ℕ) (s : Text) → is_hex_text n s ≡ true → (length s ≡ n) × (all is_hex s ≡ true)
unfolding is_hex_text
hex_of_id n s h =
    ground (arith, and_iff (nat_eq (length s) n) (all is_hex s), nat_eq_iff (length s) n)

pub parse-fresh_context :
    (t p : Text)
    → IsId 32 t
    → IsId 16 p
    → parse_traceparent (some (traceparent_text t p)) ≡ some (fresh_context t p)
unfolding parse_traceparent fresh_context
parse-fresh_context t p ht hp =
    let (size_t, all_t) = hex_of_id 32 t ht.0 in
    let (size_p, all_p) = hex_of_id 16 p hp.0 in
    rw
      (
        trim-traceparent_text t p,
        length-traceparent_text t p,
        size_t,
        size_p,
        split-traceparent_text t p all_t all_p,
        parsed_parts t p (traceparent_text t p) ht hp,
      )
      refl

valid_trace_id_cases :
    (value : Option Text) (t : Text) → valid_trace_id value ≡ some t → (value ≡ some t) × IsId 32 t
unfolding valid_trace_id
valid_trace_id_cases none t e = absurd (cc)
valid_trace_id_cases (some s) t e = ground arith

valid_parent_id_cases :
    (value : Option Text) (p : Text) → valid_parent_id value ≡ some p → (value ≡ some p) × IsId 16 p
unfolding valid_parent_id
valid_parent_id_cases none p e = absurd (cc)
valid_parent_id_cases (some s) p e = ground arith

-- If a header is printed for two ids, then both ids were given, and parsing the header gives back
-- these two ids and the header itself.
pub parse-traceparent_from_ids :
    (trace_id parent_id : Option Text) (header : Text)
    → traceparent_from_ids trace_id parent_id ≡ some header
    → (context : TraceparentContext) × (parse_traceparent (some header) ≡ some context)
      × (some context.trace_id ≡ trace_id)
      × (context.parent_id ≡ parent_id)
      × (context.traceparent ≡ header)
unfolding traceparent_from_ids fresh_context
parse-traceparent_from_ids trace_id parent_id header printed =
    elim (Option-cases (valid_trace_id trace_id)) [
      | inl none_t ↦ absurd (cc (rw (traceparent_from_ids, none_t) at printed))
      | inr (t, et) ↦ elim (Option-cases (valid_parent_id parent_id)) [
        | inl none_p ↦ absurd (cc (rw (traceparent_from_ids, et, none_p) at printed))
        | inr (p, ep) ↦
            let (given_t, id_t) = valid_trace_id_cases trace_id t et in
            let (given_p, id_p) = valid_parent_id_cases parent_id p ep in
            let shown : some (traceparent_text t p) ≡ some header =
              rw (traceparent_from_ids, et, ep) at printed in
            let same : traceparent_text t p ≡ header = cc in
            (
              fresh_context t p,
              rw (← same) (parse-fresh_context t p id_t id_p),
              sym given_t,
              sym given_p,
              same,
            )
      ]
    ]

parse_parts-traceparent :
    (input : Text) (parts : List Text) (c : TraceparentContext)
    → parse_parts input parts ≡ some c
    → c.traceparent ≡ input
unfolding parse_parts
parse_parts-traceparent input [] c e = absurd (cc)
parse_parts-traceparent input (a ∷ []) c e = absurd (cc)
parse_parts-traceparent input (a ∷ b ∷ []) c e = absurd (cc)
parse_parts-traceparent input (a ∷ b ∷ d ∷ []) c e = absurd (cc)
parse_parts-traceparent input (v ∷ t ∷ p ∷ f ∷ extra) c e = ground arith

parse-parsed :
    (value : Option Text) (c : TraceparentContext)
    → parse_traceparent value ≡ some c
    → parse_traceparent (some c.traceparent) ≡ some c
unfolding parse_traceparent
parse-parsed none c e = absurd (cc)
parse-parsed (some v) c e =
    let input = trim v in
    elim (Bool-cases (nat_eq (length input) 0 || ltb 512 (length input))) [
      | inl out ↦ absurd (cc (rw out at e))
      | inr fits ↦
          let read : parse_parts input (split_dashes input) ≡ some c = rw fits at e in
          simp (parse_parts-traceparent input (split_dashes input) c read, trim_idem v) e
    ]

-- Whatever header and old trace id a request brings, the context that it gets has a header that
-- parses to this very context, provided the random ids are hexadecimal texts that are not zero.
pub parse-resolve_traceparent :
    (random_trace random_parent : Text) (inbound legacy : Option Text)
    → IsId 32 random_trace
    → IsId 16 random_parent
    → let context = resolve_traceparent random_trace random_parent inbound legacy in
      parse_traceparent (some context.traceparent) ≡ some context
unfolding resolve_traceparent fresh_context
parse-resolve_traceparent rt rp inbound legacy ht hp =
    elim (Option-cases (parse_traceparent inbound)) [
      | inr (c, e) ↦ rw (resolve_traceparent, e) (parse-parsed inbound c e)
      | inl bad ↦ elim (Option-cases (valid_trace_id legacy)) [
        | inr (t, et) ↦
            let (given, id_t) = valid_trace_id_cases legacy t et in
            rw (resolve_traceparent, bad, et) (parse-fresh_context t rp id_t hp)
        | inl old ↦ rw (resolve_traceparent, bad, old) (parse-fresh_context rt rp ht hp)
      ]
    ]
