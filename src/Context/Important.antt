-- ===== src/Context/Important.antt =====
-- What compressions keep of the entries that the code counts as important.
use agent_runtime.Context.Layers.{compress-IsLayered}
use agent_runtime.Prelude.{
  ℕ, Bool, true, false, Option, none, some, List, [], ◌∷◌, ◌≡◌, refl, arith, ◌∙◌, if◌then◌else◌,
  Bool-cases, inl, inr, ◌==◌, is_some, ==_iff, ==_refl,
}
use agent_runtime.Prelude.Dict.{lookup, keys}
use agent_runtime.Prelude.Sets.{member}
use agent_runtime.Context.Data.{
  RuntimeContext, Payload, Texts, important_key, object, Label, shared_label,
}
use agent_runtime.Context.Views.{merged_shared, update, payload_fields}
use agent_runtime.Context.Recording.{write_shared}
use agent_runtime.Context.Compress.{
  compress, select, is_important, structured_summary, is_important,
}
use agent_runtime.Context.Merging.{or_else, lookup-write_shared}
use agent_runtime.Context.Lists.{lookup-member}

lookup-select :
    (p : ℕ → Bool) (k : ℕ) (ks : List ℕ) (d : Payload)
    → lookup k (select p ks d) ≡ (if p k then (if member k ks then lookup k d else none) else none)
unfolding select lookup member
lookup-select p k [] d = ground arith
lookup-select p k (j ∷ ks) d =
    let rest = lookup-select p k ks d in
    elim (Bool-cases (j == k)) [
      | inl e ↦ rw ((==_iff j k).0 e) (ground (arith, rest, ==_refl k))
      | inr e ↦ ground (arith, e, rest)
    ]

-- `sorted` gives back the elements of its list.
abbrev pub KeepsElements : (List ℕ → List ℕ) → Type 0
KeepsElements f = (k : ℕ) (ks : List ℕ) → member k (f ks) ≡ member k ks

-- the "important" part of a compression of a context
abbrev pub kept : Texts → RuntimeContext → Payload
kept t c = select is_important (t.sorted (keys (merged_shared c))) (merged_shared c)

if-is_some {ℓ} :
    {A : Type ℓ} (o : Option A) (b : Bool)
    → (if b then (if is_some o then o else none) else none) ≡ (if b then o else none)
if-is_some none true = refl
if-is_some none false = refl
if-is_some (some a) true = refl
if-is_some (some a) false = refl

lookup-kept :
    (t : Texts)
    → KeepsElements t.sorted
    → (k : ℕ) (c : RuntimeContext)
    → lookup k (kept t c) ≡ (if is_important k then lookup k (merged_shared c) else none)
lookup-kept t h k c =
    rw
      (
        lookup-select is_important k (t.sorted (keys (merged_shared c))) (merged_shared c),
        h k (keys (merged_shared c)),
        ← lookup-member k (merged_shared c),
      )
      (if-is_some (lookup k (merged_shared c)) (is_important k))

-- an important key is none of the four keys of a structured summary
lookup-summary :
    (t : Texts) (k : ℕ) (l : Label) (d : Payload)
    → is_important k ≡ true
    → lookup k (structured_summary t l d) ≡ none
unfolding structured_summary lookup is_important member
lookup-summary t k l d h = ground (arith, h)

or_else-none {ℓ} : {A : Type ℓ} (o : Option A) → or_else o none ≡ o
or_else-none none = refl
or_else-none (some a) = refl

-- A compression keeps an entry of the shared part under "important" if its key is one of the six
-- that count and it stands in the part as written since the compression before; what an earlier
-- compression kept there is not among them, and is gone. (`sorted` has the elements of its list.)
pub compress-important :
    (t : Texts)
    → KeepsElements t.sorted
    → (c : RuntimeContext) (d : Payload) (k : ℕ)
    → let again = compress t (write_shared (some d) (compress t c)) in
      (lookup important_key (merged_shared again)
        ≡ some (object (payload_fields (kept t (write_shared (some d) (compress t c))))))
      × (lookup k (kept t c) ≡ (if is_important k then lookup k (merged_shared c) else none))
      × (lookup k (kept t (write_shared (some d) (compress t c)))
          ≡ (if is_important k then lookup k (update [] d) else none))
unfolding compress merged_shared structured_summary lookup update write_shared
compress-important t h c d k =
    let written : RuntimeContext = write_shared (some d) (compress t c) in
    let shown = lookup-write_shared k (some d) (compress t c) (compress-IsLayered t c) in
    (
      refl,
      lookup-kept t h k c,
      lookup-kept t h k written
          ∙ rw shown (elim (Bool-cases (is_important k)) [
            | inl i ↦ rw (i, lookup-summary t k shared_label (merged_shared c) i, or_else-none) refl
            | inr i ↦ rw i refl
          ]),
    )
