-- ===== src/Context/Building.antt =====
-- `build_agent_context` and `get_metrics` (aruntime/context/manager.py). The time that a build takes is
-- an argument; a ratio is the fraction that the code rounds to four decimals.
use agent_runtime.Prelude.{
  ℕ, suc, ◌+◌, ◌-◌, max, min, Bool, false, Option, none, some, List, [], if◌then◌else◌, ◌==◌,
  get_or, length, is_some,
}
use agent_runtime.Prelude.Dict.{Dict, lookup, insert, keys}
use agent_runtime.Context.Data.{
  Payload, RuntimeContext, Texts, Diff, wrote, Summary, no_summary, object, field, no_fields,
  key_shared, key_private, key_readonly, key_summary, text,
}
use agent_runtime.Context.Views.{
  merged_shared, private_view, estimate_tokens, cache_key, full_cache_key, prefix_block_id,
  payload_fields, readonly_fields,
}
use agent_runtime.Context.Manager.{Manager, touch}

abbrev pub ratio : ℕ → ℕ → ℕ × ℕ
ratio numerator denominator = if denominator == 0 then (0, 1) else (numerator, denominator)

-- The result, each value of it once: the code repeats several of them under other names.
pub record AgentContext : Type 0 where
  pub context_id : ℕ
  pub shared : Payload
  pub private : Payload
  pub readonly : Dict ℕ
  pub compressed : Bool
  pub context_version : ℕ
  pub context_diff : Diff
  pub summary : Summary
  pub shared_keys : List ℕ
  pub private_keys : List ℕ
  pub readonly_keys : List ℕ
  pub prefix_cache_key : Option ℕ
  pub prefix_hash : Option ℕ
  pub full_context_hash : Option ℕ
  pub prefix_block : Option ℕ
  pub reuse_count : ℕ
  pub token_count : ℕ
  pub input_token_after : ℕ
  pub reused_tokens : ℕ
  pub saved_tokens : ℕ
  pub cache_hit : Bool
  pub prefix_cache_hit : Bool
  pub cache_hit_ratio : ℕ × ℕ
  pub prefix_hit_ratio : ℕ × ℕ
  pub build_time_ms : ℕ

-- what is returned for a context that is not there
abbrev pub missing_context : ℕ → AgentContext
missing_context id = record {
  context_id = id;
  shared = [];
  private = [];
  readonly = [];
  compressed = false;
  context_version = 0;
  context_diff = wrote none none none;
  summary = no_summary;
  shared_keys = [];
  private_keys = [];
  readonly_keys = [];
  prefix_cache_key = none;
  prefix_hash = none;
  full_context_hash = none;
  prefix_block = none;
  reuse_count = 0;
  token_count = 0;
  input_token_after = 0;
  reused_tokens = 0;
  saved_tokens = 0;
  cache_hit = false;
  prefix_cache_hit = false;
  cache_hit_ratio = (0, 1);
  prefix_hit_ratio = (0, 1);
  build_time_ms = 0;
}

-- The token counts of one build.
pub record Usage : Type 0 where
  pub key : ℕ
  pub full_key : ℕ
  pub prefix_tokens : ℕ
  pub token_count : ℕ
  pub previous_prefix : Option ℕ
  pub previous_full : Option ℕ

abbrev pub reused : Usage → ℕ
reused u = get_or u.previous_full (get_or u.previous_prefix 0)

abbrev pub saved : Usage → ℕ
saved u = min (reused u) u.token_count

abbrev pub input_after : Usage → ℕ
input_after u = max (u.token_count - saved u) 0

abbrev pub count_if : Bool → ℕ → ℕ
count_if b n = if b then suc n else n

-- the counters and the caches of the manager
unfoldable pub account : Usage → ℕ → Manager → Manager
unfolding insert
account u elapsed m = record m {
  build_hits = suc m.build_hits;
  original_tokens = m.original_tokens + u.token_count;
  saved_tokens = m.saved_tokens + saved u;
  input_tokens_after = m.input_tokens_after + input_after u;
  build_time_ms_total = m.build_time_ms_total + elapsed;
  shared_prefix_hits = count_if (is_some u.previous_prefix) m.shared_prefix_hits;
  cache_hits = count_if (is_some u.previous_full) m.cache_hits;
  shared_prefix_cache = insert u.key u.prefix_tokens m.shared_prefix_cache;
  execution_cache = insert u.full_key u.token_count m.execution_cache;
}

-- the counters of the context
abbrev pub account_context : Usage → ℕ → RuntimeContext → RuntimeContext
account_context u elapsed c = record c {
  original_tokens = c.original_tokens + u.token_count;
  saved_tokens = c.saved_tokens + saved u;
  build_time_ms_total = c.build_time_ms_total + elapsed;
  cache_hits = count_if (is_some u.previous_full) c.cache_hits;
}

module _ (t : Texts) where
  unfoldable pub usage : ℕ → RuntimeContext → Manager → Usage
  unfolding merged_shared private_view estimate_tokens cache_key full_cache_key lookup
  usage agent c m =
      let shared = field key_shared (object (payload_fields (merged_shared c))) in
      let private = private_view agent c in
      let readonly = field key_readonly (object (readonly_fields c.readonly_data)) in
      let key = get_or c.prefix_cache_key (cache_key t c) in
      let full_key = full_cache_key t c agent private in
      record {
        key = key;
        full_key = full_key;
        prefix_tokens =
            estimate_tokens t
              (object (shared (readonly (field key_summary (text c.summary) no_fields))));
        token_count = estimate_tokens t (
            object
              (shared (field key_private (object (payload_fields private)) (readonly no_fields))));
        previous_prefix = lookup key m.shared_prefix_cache;
        previous_full = lookup full_key m.execution_cache;
      }

  unfoldable pub agent_context : ℕ → Usage → ℕ → RuntimeContext → Manager → AgentContext
  unfolding merged_shared private_view keys
  agent_context agent u elapsed c m = record {
    context_id = c.context_id;
    shared = merged_shared c;
    private = private_view agent c;
    readonly = c.readonly_data;
    compressed = c.compressed;
    context_version = c.version;
    context_diff = c.context_diff;
    summary = c.summary;
    shared_keys = t.sorted (keys (merged_shared c));
    private_keys = t.sorted (keys (private_view agent c));
    readonly_keys = t.sorted (keys c.readonly_data);
    prefix_cache_key = some u.key;
    prefix_hash = some (t.sha256 u.key);
    full_context_hash = some (t.sha256 u.full_key);
    prefix_block = some (get_or c.prefix_block_id (prefix_block_id t u.key));
    reuse_count = c.reuse_count;
    token_count = u.token_count;
    input_token_after = input_after u;
    reused_tokens = reused u;
    saved_tokens = saved u;
    cache_hit = is_some u.previous_full;
    prefix_cache_hit = is_some u.previous_prefix;
    cache_hit_ratio = ratio m.cache_hits m.build_hits;
    prefix_hit_ratio = ratio m.shared_prefix_hits m.build_hits;
    build_time_ms = elapsed;
  }

  unfoldable pub build_agent_context : ℕ → ℕ → ℕ → ℕ → Manager → AgentContext × Manager
  unfolding lookup usage account agent_context touch
  build_agent_context now elapsed id agent m = elim (lookup id m.contexts) [
    | none ↦ (missing_context id, m)
    | some c ↦
        let c = record c { updated_at = now } in
        let u = usage agent c m in
        let c' = account_context u elapsed c in
        let m' = account u elapsed (record m { contexts = touch id c' m.contexts }) in
        (agent_context agent u elapsed c' m', m')
  ]

pub record Metrics : Type 0 where
  pub total_contexts : ℕ
  pub reuse_hits : ℕ
  pub compression_count : ℕ
  pub build_hits : ℕ
  pub cache_hits : ℕ
  pub cache_hit_ratio : ℕ × ℕ
  pub shared_prefix_hits : ℕ
  pub shared_prefix_hit_ratio : ℕ × ℕ
  pub original_tokens : ℕ
  pub saved_tokens : ℕ
  pub input_token_after : ℕ
  pub token_saved_ratio : ℕ × ℕ
  pub build_time_ms : ℕ
  pub build_time_ms_avg : ℕ × ℕ

-- each value once, as above
unfoldable pub get_metrics : Manager → Metrics
get_metrics m = record {
  total_contexts = length m.contexts;
  reuse_hits = m.reuse_hits;
  compression_count = m.compression_count;
  build_hits = m.build_hits;
  cache_hits = m.cache_hits;
  cache_hit_ratio = ratio m.cache_hits m.build_hits;
  shared_prefix_hits = m.shared_prefix_hits;
  shared_prefix_hit_ratio = ratio m.shared_prefix_hits m.build_hits;
  original_tokens = m.original_tokens;
  saved_tokens = m.saved_tokens;
  input_token_after = m.input_tokens_after;
  token_saved_ratio = ratio m.saved_tokens m.original_tokens;
  build_time_ms = m.build_time_ms_total;
  build_time_ms_avg = ratio m.build_time_ms_total m.build_hits;
}
