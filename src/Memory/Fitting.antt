-- ===== src/Memory/Fitting.antt =====
-- What a query of `readRelevant` in kits/debrief/src/memory/plugin.ts asks of a record.
use mathlib.Core.Path.{◌∙◌, subst}
use kitstack.Base.{
  ◌≡◌, ◌⊎◌, ◌↔◌, inl, inr, refl, sym, Bool, true, Option, none, some, [], ◌∷◌, ◌==◌, ◌&&◌, Memᴰ,
  Text, arith, Dictionary, map_get, eq_iff, and_iff, text_instance, option_instance,
}
use kitstack.Memory.Types.{MemoryStatus, MemoryRecord, MemoryReadQuery}
use kitstack.Memory.Select.{is_relevant, is_released, fits, context_matches}

-- The context of a record against the query's.
unfoldable pub matches : Option (Dictionary Text) → MemoryRecord → Bool
unfolding context_matches
matches none r = true
matches (some wanted) r = context_matches r.context wanted

all_of_five :
    (a b c d e : Bool)
    → (a && b && c && d && e) ≡ true
    → (a ≡ true) × (b ≡ true) × (c ≡ true) × (d ≡ true) × (e ≡ true)
all_of_five a b c d e h = ground arith

-- What a query asks of a record, written out: released, of the organization and the kit, of the
-- customer and the session when they are named, and with every value of the context asked for.
pub record IsFitting (query : MemoryReadQuery) (r : MemoryRecord) : Type 0 where
  pub org : r.org_id ≡ query.org_id
  pub kit : r.kit_id ≡ query.kit_id
  pub status : (r.status ≡ MemoryStatus.approved) ⊎ (r.status ≡ MemoryStatus.published)
  pub customer : (wanted : Text) → query.customer_id ≡ some wanted → r.customer_id ≡ some wanted
  pub session : (wanted : Text) → query.session_id ≡ some wanted → r.session_id ≡ some wanted
  pub context :
      (expected : Dictionary Text)
      → query.context ≡ some expected
      → (key value : Text) → Memᴰ (key, value) expected
      → map_get r.context key ≡ some value

pub is_released_iff :
    (status : MemoryStatus)
    → (is_released status ≡ true)
      ↔ ((status ≡ MemoryStatus.approved) ⊎ (status ≡ MemoryStatus.published))
is_released_iff MemoryStatus.candidate =
    (λ e. absurd (cc e), λ h. elim h [ inl e ↦ absurd (cc e) | inr e ↦ absurd (cc e) ])
is_released_iff MemoryStatus.approved = (λ e. inl refl, λ h. refl)
is_released_iff MemoryStatus.published = (λ e. inr refl, λ h. refl)

fits_iff :
    (query column : Option Text)
    → (fits query column ≡ true) ↔ ((wanted : Text) → query ≡ some wanted → column ≡ some wanted)
fits_iff none column = (λ e wanted asked. absurd (cc asked), λ h. refl)
fits_iff (some x) column = (
  λ e wanted asked. (eq_iff column (some x)).0 e ∙ asked,
  λ h. (eq_iff column (some x)).1 (h x refl),
)

context_matches_iff :
    (actual expected : Dictionary Text)
    → (context_matches actual expected ≡ true)
      ↔ ((key value : Text) → Memᴰ (key, value) expected → map_get actual key ≡ some value)
unfolding context_matches
context_matches_iff actual [] = (λ e key value m. elim m [ ], λ h. refl)
context_matches_iff actual (pair ∷ rest) =
    let ih = context_matches_iff actual rest in
    let here = eq_iff (map_get actual pair.0) (some pair.1) in
    let both = and_iff (map_get actual pair.0 == some pair.1) (context_matches actual rest) in
    (
      λ e key value m.
          let (now, later) = both.0 e in
          elim m [
            | Memᴰ.head same ↦ subst (λ z. map_get actual z.0 ≡ some z.1) (sym same) (here.0 now)
            | Memᴰ.tail there ↦ ih.0 later key value there
          ],
      λ h. both.1 (
        here.1 (h pair.0 pair.1 (Memᴰ.head refl)),
        ih.1 (λ key value m. h key value (Memᴰ.tail m)),
      ),
    )

matches_iff :
    (asked : Option (Dictionary Text)) (r : MemoryRecord)
    → (matches asked r ≡ true) ↔ (
        (expected : Dictionary Text)
        → asked ≡ some expected
        → (key value : Text) → Memᴰ (key, value) expected
        → map_get r.context key ≡ some value)
unfolding matches
matches_iff none r = (λ e expected asked. absurd (cc asked), λ h. refl)
matches_iff (some wanted) r =
    let found = context_matches_iff r.context wanted in
    (
      λ e expected asked.
          subst
            (λ (d : Dictionary Text).
              (key value : Text) → Memᴰ (key, value) d → map_get r.context key ≡ some value)
            (cc asked) (found.0 e),
      λ h. found.1 (h wanted refl),
    )

five_true :
    (a b c d e : Bool)
    → a ≡ true
    → b ≡ true
    → c ≡ true
    → d ≡ true
    → e ≡ true
    → (a && b && c && d && e) ≡ true
five_true a b c d e ha hb hc hd he = rw (ha, hb, hc, hd, he) refl

-- The code's two tests together are the specification.
pub IsFitting-iff :
    (query : MemoryReadQuery) (r : MemoryRecord)
    → IsFitting query r ↔ ((is_relevant query r ≡ true) × (matches query.context r ≡ true))
IsFitting-iff query r = (
  λ h. (
    five_true (r.org_id == query.org_id) (r.kit_id == query.kit_id) (is_released r.status)
        (fits query.customer_id r.customer_id) (fits query.session_id r.session_id)
        ((eq_iff r.org_id query.org_id).1 h.org) ((eq_iff r.kit_id query.kit_id).1 h.kit)
        ((is_released_iff r.status).1 h.status)
        ((fits_iff query.customer_id r.customer_id).1 h.customer)
        ((fits_iff query.session_id r.session_id).1 h.session),
    (matches_iff query.context r).1 h.context,
  ),
  λ (hit, matching).
      let (org, kit, status, customer, session) =
        all_of_five (r.org_id == query.org_id) (r.kit_id == query.kit_id) (is_released r.status)
          (fits query.customer_id r.customer_id) (fits query.session_id r.session_id) hit in
      record {
        org = (eq_iff r.org_id query.org_id).0 org;
        kit = (eq_iff r.kit_id query.kit_id).0 kit;
        status = (is_released_iff r.status).0 status;
        customer = (fits_iff query.customer_id r.customer_id).0 customer;
        session = (fits_iff query.session_id r.session_id).0 session;
        context = (matches_iff query.context r).0 matching;
      },
)
