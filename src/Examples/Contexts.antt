-- ===== src/Examples/Contexts.antt =====
-- A manager of two contexts, whose texts are as long as the number of the fields that they print.
use agent_runtime.Context.Views.{merged_shared, payload_fields, update}
use agent_runtime.Context.Stored.{Stored}
use agent_runtime.Context.Compress.{compress, rollback, is_important}
use agent_runtime.Context.Building.{get_metrics}
use agent_runtime.Prelude.{
  ℕ, suc, ◌+◌, ◌*◌, ◌≤◌, none, some, List, [], ◌∷◌, ◌≡◌, refl, arith, true, false, length,
  if◌then◌else◌,
}
use agent_runtime.Prelude.Dict.{lookup, keys}
use agent_runtime.Context.Data.{
  Texts, Json, Fields, object, no_fields, field, given, RuntimeContext, new_context, important_key,
}
use agent_runtime.Context.Recording.{Patch, write, write_shared}
use agent_runtime.Context.Manager.{
  new_manager, recorded, drop_oldest, summarised, record_task_context, readonly_history, is_expired,
}
use agent_runtime.Context.Runs.{Op, record_context, build_context, roll_back, run}
use agent_runtime.Context.Window.{run-window, note_all}
use agent_runtime.Context.Versions.{readonly_history-IsChain, IsChain}
use agent_runtime.Context.Tokens.{get_metrics-balance}
use agent_runtime.Context.Snapshots.{HoldsSame, rollback-recorded}
use agent_runtime.Context.Layers.{run-Shown, Shown}
use agent_runtime.Context.Important.{compress-important, kept}
use agent_runtime.Context.Limits.{record-limits, record-readable}

abbrev count_fields : Fields → ℕ
count_fields no_fields = 0
count_fields (field k v d) = suc (count_fields d)

abbrev count : Json → ℕ
count (object d) = count_fields d
count _ = 1

abbrev texts : Texts
texts = record {
  dumps = count;
  len = λ n. n;
  sha256 = λ n. n;
  versioned = λ id version raw. 100 * id + 10 * version + raw;
  block = λ n. n;
  sorted = λ ks. ks;
}

abbrev patch : ℕ → Patch
patch v = record {
  agent_name = 1;
  shared_data = some ((0, given v) ∷ (20, given 7) ∷ []);
  private_data = some ((21, given v) ∷ []);
  readonly_data = some ((30, v) ∷ []);
}

-- the second context is opened after the first, which is then built, and evicted is neither
abbrev ops : List Op
ops =
    record_context 1 1 5 (patch 3)
    ∷ record_context 2 2 6 (patch 4)
    ∷ build_context 3 1 5 1
    ∷ record_context 4 4 7 (patch 5)
    ∷ record_context 5 5 5 (patch 8)
    ∷ roll_back 5
    ∷ []

run-window_example :
    keys (run texts ops (new_manager 100 2 0)).contexts ≡ drop_oldest 2 (note_all 2 [] ops)
run-window_example = run-window texts 100 2 ops

-- the contexts that are left, the least recently used first
kept_keys : keys (run texts ops (new_manager 100 2 0)).contexts ≡ 7 ∷ 5 ∷ []
unfolding run keys
kept_keys = refl

readonly_history-IsChain_example :
    IsChain 30 1 none (readonly_history 5 30 (run texts ops (new_manager 100 2 0)))
readonly_history-IsChain_example = readonly_history-IsChain texts 100 2 0 ops 5 30

get_metrics-balance_example :
    let r = get_metrics (run texts ops (new_manager 100 2 0)) in
    (r.original_tokens ≡ r.saved_tokens + r.input_token_after)
    × (r.cache_hits ≤ r.build_hits)
    × (r.shared_prefix_hits ≤ r.build_hits)
get_metrics-balance_example = get_metrics-balance texts 100 2 0 ops

abbrev first : RuntimeContext
first = (recorded texts 100 1 (patch 3) (new_context 1 5)).1

rollback-recorded_example :
    let (done, c') = rollback texts (recorded texts 0 2 (patch 4) first).1 in
    (done ≡ true) × HoldsSame c' (summarised (write 2 (patch 4) first))
rollback-recorded_example = rollback-recorded texts 0 2 (patch 4) first (unfold recorded in refl)

run-Shown_example : Shown 2 (patch 4) first (recorded texts 100 2 (patch 4) first).1
run-Shown_example =
    run-Shown texts 100 2 0 (record_context 1 1 5 (patch 3) ∷ []) 5 first 2 (patch 4)
      (unfold run recorded lookup in refl) (unfold recorded in refl)

compress-important_example :
    let again = compress texts (write_shared (some ((1, given 9) ∷ [])) (compress texts first)) in
    (lookup important_key (merged_shared again)
      ≡ some (
          object (
            payload_fields
              (kept texts (write_shared (some ((1, given 9) ∷ [])) (compress texts first))))))
    × (lookup 0 (kept texts first)
        ≡ (if is_important 0 then lookup 0 (merged_shared first) else none))
    × (lookup 0 (kept texts (write_shared (some ((1, given 9) ∷ [])) (compress texts first)))
        ≡ (if is_important 0 then lookup 0 (update [] ((1, given 9) ∷ [])) else none))
compress-important_example = compress-important texts (λ k ks. refl) first ((1, given 9) ∷ []) 0

record-limits_example :
    let m' = (record_task_context texts 9 9 5 (patch 3) (new_manager 100 2 3)).1 in
    (length m'.contexts ≤ 2) × Stored (λ c. is_expired 3 9 c ≡ false) m'.contexts
record-limits_example = record-limits texts 9 9 5 (patch 3) (new_manager 100 2 3) (omega arith)

record-readable_example :
    let (c, m') = record_task_context texts 9 9 5 (patch 3) (new_manager 100 2 3) in
    lookup 5 m'.contexts ≡ some c
record-readable_example =
    record-readable texts 9 9 5 (patch 3) (new_manager 100 2 3) (omega arith) (omega arith)
