-- ===== src/Context/Manager.antt =====
-- `ContextManager` (aruntime/context/manager.py): its state, `record_task_context`, `update_context`,
-- `rollback_context`, `readonly_history` and the evictions. A clock that the code reads is an argument:
-- `now` for the record, and `later` for the eviction after it.
use agent_runtime.Prelude.{
  ℕ, suc, ◌+◌, Bool, false, Option, none, some, List, [], ◌∷◌, if◌then◌else◌, ◌==◌, ltb, length,
}
use agent_runtime.Prelude.Dict.{Dict, lookup, insert, remove}
use agent_runtime.Context.Data.{RuntimeContext, Texts, ContextObject, new_context, Json}
use agent_runtime.Context.Views.{summary_line, cache_key}
use agent_runtime.Context.Compress.{compress_if_needed, refresh_keys, rollback}
use agent_runtime.Context.Recording.{Patch, write, versions_of}

pub record Manager : Type 0 where
  pub compress_threshold_chars : ℕ
  pub max_contexts : ℕ
  pub ttl_seconds : ℕ
  pub contexts : Dict RuntimeContext
  pub reuse_hits : ℕ
  pub compression_count : ℕ
  pub build_hits : ℕ
  pub execution_cache : Dict ℕ
  pub shared_prefix_cache : Dict ℕ
  pub cache_hits : ℕ
  pub shared_prefix_hits : ℕ
  pub original_tokens : ℕ
  pub saved_tokens : ℕ
  pub input_tokens_after : ℕ
  pub build_time_ms_total : ℕ

-- ContextManager(compress_threshold_chars, max_contexts, ttl_seconds)
abbrev pub new_manager : ℕ → ℕ → ℕ → Manager
new_manager threshold most ttl = record {
  compress_threshold_chars = threshold;
  max_contexts = most;
  ttl_seconds = ttl;
  contexts = [];
  reuse_hits = 0;
  compression_count = 0;
  build_hits = 0;
  execution_cache = [];
  shared_prefix_cache = [];
  cache_hits = 0;
  shared_prefix_hits = 0;
  original_tokens = 0;
  saved_tokens = 0;
  input_tokens_after = 0;
  build_time_ms_total = 0;
}

-- self._contexts[id] = c, with `id` moved to the end
unfoldable pub touch {ℓ} : {V : Type ℓ} → ℕ → V → Dict V → Dict V
unfolding insert remove
touch id c d = insert id c (remove id d)

-- now - context.updated_at > ttl_seconds
abbrev pub is_expired : ℕ → ℕ → RuntimeContext → Bool
is_expired ttl now c = ltb (c.updated_at + ttl) now

unfoldable pub drop_expired : ℕ → ℕ → Dict RuntimeContext → Dict RuntimeContext
drop_expired ttl now [] = []
drop_expired ttl now ((id, c) ∷ d) =
    let rest = drop_expired ttl now d in if is_expired ttl now c then rest else (id, c) ∷ rest

-- `_evict_expired`; a time to live of 0 is none
unfoldable pub evict_expired : ℕ → Manager → Manager
unfolding drop_expired
evict_expired now m =
    if m.ttl_seconds == 0
    then m
    else record m { contexts = drop_expired m.ttl_seconds now m.contexts }

-- while len(l) > most: l.popitem(last=False)
unfoldable pub drop_oldest {ℓ} : {A : Type ℓ} → ℕ → List A → List A
drop_oldest most [] = []
drop_oldest most (x ∷ xs) =
    let rest = drop_oldest most xs in if ltb most (length (x ∷ xs)) then rest else x ∷ xs

unfoldable pub evict_lru : Manager → Manager
unfolding drop_oldest
evict_lru m = record m { contexts = drop_oldest m.max_contexts m.contexts }

-- the context that is there, seen again, or a new one
unfoldable pub open_context : ℕ → ℕ → Manager → RuntimeContext × Manager
unfolding lookup
open_context now id m = elim (lookup id m.contexts) [
  | none ↦ (new_context now id, m)
  | some c ↦ (
    record c { updated_at = now; reuse_count = suc c.reuse_count },
    record m { reuse_hits = suc m.reuse_hits },
  )
]

abbrev pub summarised : RuntimeContext → RuntimeContext
summarised c = record c { summary = summary_line c }

module _ (t : Texts) where
  -- what a record makes of the context that it opened, and whether it compressed it
  unfoldable pub recorded : ℕ → ℕ → Patch → RuntimeContext → Bool × RuntimeContext
  unfolding write summary_line compress_if_needed cache_key
  recorded threshold now p c =
      let (compressed, c') = compress_if_needed t threshold (summarised (write now p c)) in
      (compressed, refresh_keys t c')

  unfoldable pub record_task_context : ℕ → ℕ → ℕ → Patch → Manager → RuntimeContext × Manager
  unfolding open_context recorded touch evict_expired evict_lru
  record_task_context now later id p m =
      let (c, m') = open_context now id m in
      let (compressed, c') = recorded m'.compress_threshold_chars now p c in
      let m'' = record m' {
        contexts = touch id c' m'.contexts;
        compression_count = if compressed then suc m'.compression_count else m'.compression_count;
      } in
      (c', evict_lru (evict_expired later m''))

  unfoldable pub rollback_context : ℕ → Manager → Bool × Manager
  unfolding rollback lookup insert
  rollback_context id m = elim (lookup id m.contexts) [
    | none ↦ (false, m)
    | some c ↦
        let (done, c') = rollback t c in
        (done, if done then record m { contexts = insert id c' m.contexts } else m)
  ]

-- A part of the patch of `update_context`, which is a dictionary or something else.
pub data Part {ℓ} (V : Type ℓ) : Type ℓ where
  dict : Dict V → Part V
  other : Part V

abbrev pub as_dict {ℓ} : {V : Type ℓ} → Option (Part V) → Option (Dict V)
as_dict none = none
as_dict (some (dict d)) = some d
as_dict (some other) = none

pub record RawPatch : Type 0 where
  pub shared : Option (Part Json)
  pub private : Option (Part Json)
  pub readonly : Option (Part ℕ)

unfoldable pub update_context :
    Texts → ℕ → ℕ → ℕ → ℕ → RawPatch → Manager → RuntimeContext × Manager
unfolding record_task_context
update_context t now later id agent p m =
    record_task_context t now later id
      (record {
        agent_name = agent;
        shared_data = as_dict p.shared;
        private_data = as_dict p.private;
        readonly_data = as_dict p.readonly;
      })
      m

unfoldable pub readonly_history : ℕ → ℕ → Manager → List ContextObject
unfolding lookup
readonly_history id key m = elim (lookup id m.contexts) [ none ↦ [] | some c ↦ versions_of key c ]
