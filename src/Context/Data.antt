-- ===== src/Context/Data.antt =====
-- The data of aruntime/context/types.py and of `RuntimeContext` (aruntime/context/manager.py). A text
-- that the code is given (a key, an agent, an identifier) and a value that a caller stores are opaque.
use agent_runtime.Prelude.{ℕ, Bool, false, Option, none, List, [], ◌∷◌}
use agent_runtime.Prelude.Dict.{Dict}

-- The two forms of `context.summary`, and the empty text.
pub data Summary : Type 0 where
  no_summary : Summary
  counts : ℕ → ℕ → ℕ → ℕ → Summary
  structured : ℕ → ℕ → Summary

-- "shared" and f"private:{agent}"
pub data Label : Type 0 where
  shared_label : Label
  private_label : ℕ → Label

-- The keys of what is hashed: the manager's own, an agent's name, and a key of a payload.
pub data Key : Type 0 where
  key_shared key_private key_readonly key_private_agent key_summary : Key
  agent_key caller_key : ℕ → Key

-- A JSON value: a caller's own, or one that the manager builds.
mutual
  pub data Json : Type 0 where
    given : ℕ → Json
    marked : Json
    label : Label → Json
    names : List ℕ → Json
    name : ℕ → Json
    text : Summary → Json
    object : Fields → Json

  pub data Fields : Type 0 where
    no_fields : Fields
    field : Key → Json → Fields → Fields

-- Payload keys are numbered: "goal", "task", "constraints", "tool_results", "entities" and
-- "requirements" come first, then the four keys of a structured summary.
abbrev pub important_keys : List ℕ
important_keys = 0 ∷ 1 ∷ 2 ∷ 3 ∷ 4 ∷ 5 ∷ []

abbrev pub mark_key : ℕ
mark_key = 6

abbrev pub label_key : ℕ
label_key = 7

abbrev pub keys_key : ℕ
keys_key = 8

abbrev pub important_key : ℕ
important_key = 9

abbrev pub Payload : Type 0
Payload = Dict Json

pub data ContextPermission : Type 0 where
  shared private readonly : ContextPermission

pub record ContextObject : Type 0 where
  pub key : ℕ
  pub value : ℕ
  pub owner_agent : Option ℕ
  pub permission : ContextPermission
  pub version : ℕ
  pub created_at : ℕ
  pub updated_at : ℕ

-- An entry of diff["readonly"]: the value of a first version, or the number of a later one.
pub data Change : Type 0 where
  first_value : ℕ → Change
  new_version : ℕ → Change

-- `context_diff`: what the last record wrote, or {"rollback": True}.
pub data Diff : Type 0 where
  wrote : Option Payload → Option (ℕ × Payload) → Option (Dict Change) → Diff
  rolled_back : Diff

-- An element of `previous_versions`.
pub record Snapshot : Type 0 where
  pub shared_data : Payload
  pub private_data : Dict Payload
  pub readonly_data : Dict ℕ
  pub delta_shared_data : Payload
  pub delta_private_data : Dict Payload
  pub readonly_versions : Dict (List ContextObject)
  pub summary : Summary
  pub compressed : Bool

pub record RuntimeContext : Type 0 where
  pub context_id : ℕ
  pub shared_data : Payload
  pub private_data : Dict Payload
  pub readonly_data : Dict ℕ
  pub delta_shared_data : Payload
  pub delta_private_data : Dict Payload
  pub readonly_versions : Dict (List ContextObject)
  pub context_diff : Diff
  pub summary : Summary
  pub compressed : Bool
  pub version : ℕ
  pub prefix_cache_key : Option ℕ
  pub prefix_block_id : Option ℕ
  pub reuse_count : ℕ
  pub original_tokens : ℕ
  pub saved_tokens : ℕ
  pub cache_hits : ℕ
  pub build_time_ms_total : ℕ
  pub previous_versions : List Snapshot
  pub updated_at : ℕ

-- RuntimeContext(context_id=context_id)
abbrev pub new_context : ℕ → ℕ → RuntimeContext
new_context now id = record {
  context_id = id;
  shared_data = [];
  private_data = [];
  readonly_data = [];
  delta_shared_data = [];
  delta_private_data = [];
  readonly_versions = [];
  context_diff = wrote none none none;
  summary = no_summary;
  compressed = false;
  version = 0;
  prefix_cache_key = none;
  prefix_block_id = none;
  reuse_count = 0;
  original_tokens = 0;
  saved_tokens = 0;
  cache_hits = 0;
  build_time_ms_total = 0;
  previous_versions = [];
  updated_at = now;
}

-- What the manager takes from `json`, `hashlib` and the texts: the text of a value under
-- json.dumps(value, ensure_ascii=False, sort_keys=True), the length of a text, a hash, the text
-- f"{id}:v{version}:{raw}", the text f"pblk_{hash[:16]}", and sorted() on texts.
pub record Texts : Type 0 where
  pub dumps : Json → ℕ
  pub len : ℕ → ℕ
  pub sha256 : ℕ → ℕ
  pub versioned : ℕ → ℕ → ℕ → ℕ
  pub block : ℕ → ℕ
  pub sorted : List ℕ → List ℕ
