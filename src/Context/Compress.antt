-- ===== src/Context/Compress.antt =====
-- `_compress_if_needed`, `_structured_summary` and `rollback_context` (aruntime/context/manager.py) on
-- one context.
use agent_runtime.Prelude.Sets.{member}
use agent_runtime.Prelude.{
  ℕ, suc, ◌+◌, Bool, true, false, Option, none, some, List, [], ◌∷◌, ◌++◌, if◌then◌else◌, leb, take,
}
use agent_runtime.Prelude.Dict.{Dict, keys, lookup}
use agent_runtime.Context.Data.{
  Payload, RuntimeContext, Texts, Snapshot, Label, shared_label, private_label, structured, marked,
  label, names, object, no_fields, field, key_shared, key_private, key_readonly, rolled_back,
  mark_key, important_keys, label_key, keys_key, important_key,
}
use agent_runtime.Context.Views.{
  merged_shared, merged_private, payload_fields, private_fields, readonly_fields, cache_key,
  prefix_block_id,
}

unfoldable pub is_important : ℕ → Bool
unfolding member
is_important k = member k important_keys

-- {key: payload[key] for key in keys if p(key)}, for keys that stand in the payload
unfoldable pub select : (ℕ → Bool) → List ℕ → Payload → Payload
unfolding lookup
select p [] payload = []
select p (k ∷ ks) payload =
    let rest = select p ks payload in
    if p k then elim (lookup k payload) [ none ↦ rest | some v ↦ (k, v) ∷ rest ] else rest

-- c.previous_versions.pop(): the last element, and those before it
unfoldable pub pop_last {ℓ} : {A : Type ℓ} → List A → Option (List A × A)
pop_last [] = none
pop_last (x ∷ xs) =
    let rest = pop_last xs in elim rest [ none ↦ some ([], x) | some (ys, y) ↦ some (x ∷ ys, y) ]

abbrev pub snapshot : RuntimeContext → Snapshot
snapshot c = record {
  shared_data = c.shared_data;
  private_data = c.private_data;
  readonly_data = c.readonly_data;
  delta_shared_data = c.delta_shared_data;
  delta_private_data = c.delta_private_data;
  readonly_versions = c.readonly_versions;
  summary = c.summary;
  compressed = c.compressed;
}

abbrev pub restore : Snapshot → RuntimeContext → RuntimeContext
restore s c = record c {
  shared_data = s.shared_data;
  private_data = s.private_data;
  readonly_data = s.readonly_data;
  delta_shared_data = s.delta_shared_data;
  delta_private_data = s.delta_private_data;
  readonly_versions = s.readonly_versions;
  summary = s.summary;
  compressed = s.compressed;
}

module _ (t : Texts) where
  unfoldable pub structured_summary : Label → Payload → Payload
  unfolding select is_important keys
  structured_summary l payload =
      let ks = t.sorted (keys payload) in
      (mark_key, marked)
      ∷ (label_key, label l)
      ∷ (keys_key, names (take 50 ks))
      ∷ (important_key, object (payload_fields (select is_important ks payload)))
      ∷ []

  abbrev pub summarise_private : Dict Payload → Dict Payload
  summarise_private [] = []
  summarise_private ((agent, payload) ∷ d) =
      (agent, structured_summary (private_label agent) payload) ∷ summarise_private d

  -- what the size is measured on: what was written since the last compression, if there was one
  unfoldable pub content_size : RuntimeContext → ℕ
  content_size c =
      let shared = if c.compressed then c.delta_shared_data else c.shared_data in
      let private = if c.compressed then c.delta_private_data else c.private_data in
      let readonly = if c.compressed then [] else c.readonly_data in
      t.len (t.dumps (object (payload_fields shared)))
      + t.len (t.dumps (object (private_fields private)))
      + t.len (t.dumps (object (readonly_fields readonly)))

  abbrev pub raw_context : RuntimeContext → ℕ
  raw_context c = t.dumps (
      object (
        field key_shared (object (payload_fields (merged_shared c))) (
          field key_private (object (private_fields (merged_private c)))
            (field key_readonly (object (readonly_fields c.readonly_data)) no_fields))))

  unfoldable pub compress : RuntimeContext → RuntimeContext
  unfolding merged_shared merged_private structured_summary
  compress c = record c {
    previous_versions = c.previous_versions ++ snapshot c ∷ [];
    shared_data = structured_summary shared_label (merged_shared c);
    private_data = summarise_private (merged_private c);
    delta_shared_data = [];
    delta_private_data = [];
    summary = structured (t.len (raw_context c)) c.version;
    compressed = true;
    version = suc c.version;
  }

  -- the context, and whether the call compressed it
  unfoldable pub compress_if_needed : ℕ → RuntimeContext → Bool × RuntimeContext
  unfolding content_size compress
  compress_if_needed threshold c =
      if leb (content_size c) threshold then (false, c) else (true, compress c)

  abbrev pub refresh_keys : RuntimeContext → RuntimeContext
  refresh_keys c =
      let key = cache_key t c in
      record c { prefix_cache_key = some key; prefix_block_id = some (prefix_block_id t key) }

  unfoldable pub rollback : RuntimeContext → Bool × RuntimeContext
  unfolding pop_last cache_key
  rollback c = elim (pop_last c.previous_versions) [
    | none ↦ (false, c)
    | some (earlier, previous) ↦ (
      true,
      refresh_keys (record (restore previous c) {
        previous_versions = earlier;
        version = suc c.version;
        context_diff = rolled_back;
      }),
    )
  ]
