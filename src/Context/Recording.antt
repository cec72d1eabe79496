-- ===== src/Context/Recording.antt =====
-- What `record_task_context` (aruntime/context/manager.py) writes into one context: the shared, private
-- and readonly parts, the diff, the summary, the compression and the cache keys.
use agent_runtime.Prelude.{
  ℕ, suc, ◌+◌, Bool, false, Option, none, some, List, [], ◌∷◌, ◌++◌, if◌then◌else◌, ◌==◌, get_or,
  length,
}
use agent_runtime.Prelude.Dict.{Dict, lookup, insert}
use agent_runtime.Context.Data.{
  Payload, RuntimeContext, ContextObject, ContextPermission, Change, first_value, new_version,
  wrote,
}
use agent_runtime.Context.Views.{update, payload_of}

-- The arguments of `record_task_context`.
pub record Patch : Type 0 where
  pub agent_name : ℕ
  pub shared_data : Option Payload
  pub private_data : Option Payload
  pub readonly_data : Option (Dict ℕ)

-- the argument, where it is given and not empty
abbrev pub content {ℓ} : {V : Type ℓ} → Option (Dict V) → Option (Dict V)
content none = none
content (some []) = none
content (some (x ∷ d)) = some (x ∷ d)

unfoldable pub write_shared : Option Payload → RuntimeContext → RuntimeContext
unfolding update
write_shared none c = c
write_shared (some d) c =
    let c = record c { version = suc c.version } in
    if c.compressed
    then record c { delta_shared_data = update c.delta_shared_data d }
    else record c { shared_data = update c.shared_data d }

-- the agent's payload with the patch laid over it, in the table that the context writes to
abbrev pub write_payload : ℕ → Payload → Dict Payload → Dict Payload
write_payload agent d table = insert agent (update (payload_of agent table) d) table

unfoldable pub write_private : ℕ → Option Payload → RuntimeContext → RuntimeContext
unfolding update insert lookup
write_private agent none c = c
write_private agent (some d) c =
    let c = record c { version = suc c.version } in
    if c.compressed
    then record c { delta_private_data = write_payload agent d c.delta_private_data }
    else record c { private_data = write_payload agent d c.private_data }

-- not (key not in readonly_data or readonly_data[key] != value)
abbrev pub holds : ℕ → ℕ → Dict ℕ → Bool
holds key value d = elim (lookup key d) [ none ↦ false | some v ↦ v == value ]

abbrev pub versions_of : ℕ → RuntimeContext → List ContextObject
versions_of key c = get_or (lookup key c.readonly_versions) []

abbrev pub context_object : ℕ → ℕ → ℕ → ℕ → ℕ → ContextObject
context_object now agent key value version = record {
  key = key;
  value = value;
  owner_agent = some agent;
  permission = ContextPermission.readonly;
  version = version;
  created_at = now;
  updated_at = now;
}

abbrev pub change_of : ℕ → ℕ → Change
change_of value version = if version == 1 then first_value value else new_version version

-- one entry of the readonly patch, with the changes so far
unfoldable pub write_entry :
    ℕ → ℕ → ℕ → ℕ → RuntimeContext × Dict Change → RuntimeContext × Dict Change
unfolding lookup insert
write_entry now agent key value (c, changes) =
    let versions = versions_of key c in
    let number = length versions + 1 in
    if holds key value c.readonly_data
    then (record c { readonly_versions = insert key versions c.readonly_versions }, changes)
    else (
      record c {
        readonly_versions =
            insert key (versions ++ context_object now agent key value number ∷ [])
              c.readonly_versions;
        readonly_data = insert key value c.readonly_data;
      },
      insert key (change_of value number) changes,
    )

unfoldable pub write_entries :
    ℕ → ℕ → Dict ℕ → RuntimeContext × Dict Change → RuntimeContext × Dict Change
unfolding write_entry
write_entries now agent [] r = r
write_entries now agent ((key, value) ∷ d) r =
    write_entries now agent d (write_entry now agent key value r)

-- the changes, where there are any
abbrev pub changes_of : Dict Change → Option (Dict Change)
changes_of [] = none
changes_of (x ∷ d) = some (x ∷ d)

unfoldable pub write_readonly :
    ℕ → ℕ → Option (Dict ℕ) → RuntimeContext → RuntimeContext × Option (Dict Change)
unfolding write_entries
write_readonly now agent none c = (c, none)
write_readonly now agent (some d) c =
    let (c', changes) = write_entries now agent d (c, []) in
    (record c' { version = suc c'.version }, changes_of changes)

-- diff["private"]
abbrev pub private_diff : ℕ → Option Payload → Option (ℕ × Payload)
private_diff agent none = none
private_diff agent (some d) = some (agent, d)

-- the three parts and the diff
unfoldable pub write : ℕ → Patch → RuntimeContext → RuntimeContext
unfolding write_shared write_private write_readonly
write now p c =
    let c = write_shared (content p.shared_data) c in
    let c = write_private p.agent_name p.private_data c in
    let (c', changes) = write_readonly now p.agent_name (content p.readonly_data) c in
    record c' {
      context_diff =
          wrote (content p.shared_data) (private_diff p.agent_name p.private_data) changes;
    }
