-- ===== src/Context/Views.antt =====
-- The views of a context that aruntime/context/manager.py computes: the compressed base with what was
-- written since laid over it, the summary line, the cache keys and the token estimate.
use agent_runtime.Prelude.{ℕ, ◌+◌, ◌/◌, max, [], ◌∷◌, get_or, length}
use agent_runtime.Prelude.Dict.{Dict, lookup, insert}
use agent_runtime.Context.Data.{
  Json, given, name, text, object, Fields, no_fields, field, key_shared, key_private, key_readonly,
  key_private_agent, key_summary, agent_key, caller_key, Payload, RuntimeContext, Texts, Summary,
  counts,
}

-- d.update(e)
unfoldable pub update {ℓ} : {V : Type ℓ} → Dict V → Dict V → Dict V
unfolding insert
update d [] = d
update d ((k, v) ∷ e) = update (insert k v d) e

-- d.get(agent, {})
abbrev pub payload_of : ℕ → Dict Payload → Payload
payload_of agent d = get_or (lookup agent d) []

unfoldable pub merged_shared : RuntimeContext → Payload
unfolding update
merged_shared c = update c.shared_data c.delta_shared_data

unfoldable pub merge_private : Dict Payload → Dict Payload → Dict Payload
unfolding update insert lookup
merge_private base [] = base
merge_private base ((agent, payload) ∷ delta) =
    merge_private (insert agent (update (payload_of agent base) payload) base) delta

unfoldable pub merged_private : RuntimeContext → Dict Payload
unfolding merge_private
merged_private c = merge_private c.private_data c.delta_private_data

-- The private payload that an agent is shown.
unfoldable pub private_view : ℕ → RuntimeContext → Payload
unfolding update lookup
private_view agent c =
    update (payload_of agent c.private_data) (payload_of agent c.delta_private_data)

-- Dictionaries as JSON values.
abbrev pub payload_fields : Payload → Fields
payload_fields [] = no_fields
payload_fields ((k, v) ∷ d) = field (caller_key k) v (payload_fields d)

abbrev pub readonly_fields : Dict ℕ → Fields
readonly_fields [] = no_fields
readonly_fields ((k, v) ∷ d) = field (caller_key k) (given v) (readonly_fields d)

abbrev pub private_fields : Dict Payload → Fields
private_fields [] = no_fields
private_fields ((agent, d) ∷ ds) =
    field (agent_key agent) (object (payload_fields d)) (private_fields ds)

unfoldable pub summary_line : RuntimeContext → Summary
unfolding merged_shared merged_private
summary_line c =
    counts (length (merged_shared c)) (length (merged_private c)) (length c.readonly_data) c.version

module _ (t : Texts) where
  unfoldable pub cache_key : RuntimeContext → ℕ
  unfolding merged_shared
  cache_key c = t.versioned c.context_id c.version (
      t.dumps (
        object (
          field key_shared (object (payload_fields (merged_shared c))) (
            field key_readonly (object (readonly_fields c.readonly_data))
              (field key_summary (text c.summary) no_fields)))))

  unfoldable pub full_cache_key : RuntimeContext → ℕ → Payload → ℕ
  unfolding merged_shared
  full_cache_key c agent private = t.versioned c.context_id c.version (
      t.dumps (
        object (
          field key_shared (object (payload_fields (merged_shared c))) (
            field key_readonly (object (readonly_fields c.readonly_data)) (
              field key_private_agent (name agent) (
                field key_private (object (payload_fields private))
                  (field key_summary (text c.summary) no_fields)))))))

  -- A cache key is never the empty text, so the block of one is never empty.
  abbrev pub prefix_block_id : ℕ → ℕ
  prefix_block_id key = t.block (t.sha256 key)

  unfoldable pub estimate_tokens : Json → ℕ
  estimate_tokens payload = max 1 ((t.len (t.dumps payload) + 3) / 4)
