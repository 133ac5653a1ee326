-- ===== src/Memory/Answers.antt =====
-- What `readRelevant` of kits/debrief/src/memory/plugin.ts answers after any operations on the store.
use kitstack.Base.{◌≡◌, List, [], Text, ok, Memᴰ, ◌↔◌, length, ◌≤◌, keep, All}
use kitstack.Memory.Types.{MemoryRecord, MemoryContext, MemoryReadQuery, Telemetry}
use kitstack.Memory.Select.{is_relevant, normalize_limit}
use kitstack.Memory.{MemoryState, read_relevant}
use kitstack.Memory.Operations.{MemoryRequest, served_all}
use kitstack.Memory.Readable.{IsReadable, served_all-Guards, relevant-IsReadable, read_relevant_ok}
use kitstack.Memory.Fitting.{IsFitting}
use kitstack.Memory.Complete.{mem-relevant}

module _ {T : Type 0} (telemetry : Telemetry T) (constraint : Text) (past : List MemoryRequest)
    (t : T) (query : MemoryReadQuery) (context : MemoryContext) (records : List MemoryRecord)
    (after : MemoryState T) where
  -- A query that the store answers, after any operations on an empty store, has the organization and
  -- the kit of its context, and gets at most as many records as its limit, clamped to 1 to 1000.
  -- Each of them is of that organization and kit, approved or published, of the customer and the
  -- session that the query names, and has the value of every key of the context that it names; and an
  -- operation before asked to approve its memory for that organization and kit.
  pub read_relevant-IsReadable :
      read_relevant telemetry query context (served_all telemetry constraint past ([], t))
        ≡ (ok records, after)
      → (query.org_id ≡ context.org_id)
        × (query.kit_id ≡ context.kit_id)
        × (length records ≤ normalize_limit query.limit)
        × All (IsReadable past query) records
  read_relevant-IsReadable h =
      let s = served_all telemetry constraint past ([], t) in
      let (org, kit, same) = read_relevant_ok telemetry query context s after records h in
      let (few, readable) =
        relevant-IsReadable past query s.0 (served_all-Guards telemetry constraint past t) in
      (org, kit, rw same few, rw same readable)

  -- When the query without its context selects no more rows of the store than its limit, clamped to
  -- 1 to 1000, lets through, an answer after any operations on an empty store has exactly the records
  -- of the store that are of the query's organization and kit, approved or published, of the customer
  -- and the session that it names, and have the value of every key of the context that it names.
  pub read_relevant_complete :
      (r : MemoryRecord)
      → read_relevant telemetry query context (served_all telemetry constraint past ([], t))
        ≡ (ok records, after)
      → length (keep (is_relevant query) (served_all telemetry constraint past ([], t)).0)
        ≤ normalize_limit query.limit
      → Memᴰ r records
        ↔ (Memᴰ r (served_all telemetry constraint past ([], t)).0 × IsFitting query r)
  read_relevant_complete r h few =
      let s = served_all telemetry constraint past ([], t) in
      let (org, kit, same) = read_relevant_ok telemetry query context s after records h in
      rw same (mem-relevant query s.0 r few)
