-- ===== src/Memory/Select.antt =====
-- The selections of `MemoryStore` in kits/debrief/src/memory/plugin.ts, and how they are ordered,
-- limited and filtered.
use kitstack.Base.{
  order_by, ℕ, Bool, true, false, ◌||◌, ◌&&◌, not, Option, none, some, List, Text, ◌==◌,
  text_instance, option_instance, all, keep, take, head?, text_leb, min, max, Dictionary, map_get,
}
use kitstack.Memory.Types.{
  MemoryStatus, memory_status_eq, MemoryRecord, MemoryContext, MemoryReadQuery,
}

-- `Object.entries(expected).every(([key, value]) => actual[key] === value)`
unfoldable pub context_matches : (actual expected : Dictionary Text) → Bool
unfolding map_get
context_matches actual expected = all (λ e. map_get actual e.0 == some e.1) expected

-- Of a limit that is a whole number.
abbrev pub normalize_limit : Option ℕ → ℕ
normalize_limit none = 100
normalize_limit (some value) = min 1000 (max 1 value)

-- `created_at DESC, memory_id ASC, version_id ASC`
abbrev pub newest_first : MemoryRecord → MemoryRecord → Bool
newest_first a b =
    not (text_leb a.created_at b.created_at)
    || (a.created_at == b.created_at
        && (not (text_leb b.memory_id a.memory_id)
            || (a.memory_id == b.memory_id && text_leb a.version_id b.version_id)))

abbrev by_version : MemoryRecord → MemoryRecord → Bool
by_version a b = text_leb a.version_id b.version_id

abbrev pub is_owned : Text → MemoryContext → MemoryRecord → Bool
is_owned memory_id context r =
    r.memory_id == memory_id && r.org_id == context.org_id && r.kit_id == context.kit_id

unfoldable pub find_owned : Text → MemoryContext → List MemoryRecord → Option MemoryRecord
unfolding keep order_by text_leb
find_owned memory_id context rows =
    head? (order_by by_version (keep (is_owned memory_id context) rows))

-- `status IN ('approved', 'published')`
abbrev pub is_released : MemoryStatus → Bool
is_released MemoryStatus.candidate = false
is_released _ = true

-- `query.field === undefined || column = ?`
abbrev pub fits : Option Text → Option Text → Bool
fits none column = true
fits (some wanted) column = column == some wanted

abbrev pub is_relevant : MemoryReadQuery → MemoryRecord → Bool
is_relevant query r =
    r.org_id == query.org_id
    && r.kit_id == query.kit_id
    && is_released r.status
    && fits query.customer_id r.customer_id
    && fits query.session_id r.session_id

unfoldable pub in_context : Option (Dictionary Text) → List MemoryRecord → List MemoryRecord
unfolding context_matches keep
in_context none records = records
in_context (some expected) records = keep (λ r. context_matches r.context expected) records

-- The rows of the statement, limited before the context is compared.
unfoldable pub relevant : MemoryReadQuery → List MemoryRecord → List MemoryRecord
unfolding in_context keep order_by text_leb
relevant query rows =
    in_context query.context
      (take (normalize_limit query.limit) (order_by newest_first (keep (is_relevant query) rows)))
