-- ===== src/Context/Snapshots.antt =====
-- Compression and rollback of one context are inverse on what a context holds.
use agent_runtime.Prelude.{
  ℕ, true, false, Option, none, some, List, [], ◌∷◌, ◌++◌, ◌≡◌, refl, arith, Bool-cases, inl, inr,
  leb, All, Option-cases, subst,
}
use agent_runtime.Context.Data.{Texts, RuntimeContext, Snapshot}
use agent_runtime.Context.Recording.{Patch, write}
use agent_runtime.Context.Compress.{pop_last, rollback, compress, compress_if_needed, content_size}
use agent_runtime.Context.Manager.{recorded, summarised}

module _ (P : Snapshot → Type 0) where
  -- what is popped, and what is left
  abbrev pub Popped : Option (List Snapshot × Snapshot) → Type 0
  Popped none = Unit
  Popped (some (earlier, s)) = All P earlier × P s

  pub pop_last-Popped : (l : List Snapshot) → All P l → Popped (pop_last l)
  unfolding pop_last
  pop_last-Popped [] h = tt
  pop_last-Popped (x ∷ l) h =
      let rest = pop_last-Popped l h.1 in
      elim (Option-cases (pop_last l)) [
        | inl n ↦ rw (pop_last, n) (tt, h.0)
        | inr ((earlier, s), n) ↦
            let both : Popped (some (earlier, s)) = subst Popped n rest in
            rw (pop_last, n) ((h.0, both.0), both.1)
      ]

pop_last-append {ℓ} : {A : Type ℓ} (xs : List A) (x : A) → pop_last (xs ++ x ∷ []) ≡ some (xs, x)
unfolding pop_last
pop_last-append [] x = refl
pop_last-append (y ∷ xs) x = rw (pop_last-append xs x) refl

-- The two contexts hold the same: the shared and private parts with what was written to them since the
-- last compression, the readonly entries with their histories, the summary, and the earlier snapshots.
pub record HoldsSame (c d : RuntimeContext) : Type 0 where
  pub shared_data : c.shared_data ≡ d.shared_data
  pub private_data : c.private_data ≡ d.private_data
  pub readonly_data : c.readonly_data ≡ d.readonly_data
  pub delta_shared_data : c.delta_shared_data ≡ d.delta_shared_data
  pub delta_private_data : c.delta_private_data ≡ d.delta_private_data
  pub readonly_versions : c.readonly_versions ≡ d.readonly_versions
  pub summary : c.summary ≡ d.summary
  pub compressed : c.compressed ≡ d.compressed
  pub previous_versions : c.previous_versions ≡ d.previous_versions

-- A record that compresses the context can be undone: the rollback succeeds, and every part of the
-- context is again what it was after the write and before the compression, as are the snapshots left.
pub rollback-recorded :
    (t : Texts) (threshold now : ℕ) (p : Patch) (c : RuntimeContext)
    → (recorded t threshold now p c).0 ≡ true
    → let (done, c') = rollback t (recorded t threshold now p c).1 in
      (done ≡ true) × HoldsSame c' (summarised (write now p c))
unfolding recorded compress_if_needed compress rollback
rollback-recorded t threshold now p c h =
    elim (Bool-cases (leb (content_size t (summarised (write now p c))) threshold)) [
      | inl e ↦
          let none_done : (recorded t threshold now p c).0 ≡ false =
            rw (recorded, compress_if_needed, e) refl in
          absurd (ground (arith, h, none_done))
      | inr e ↦
          rw (recorded, compress_if_needed, e, rollback, pop_last-append)
            (
              refl,
              record {
                shared_data = refl;
                private_data = refl;
                readonly_data = refl;
                delta_shared_data = refl;
                delta_private_data = refl;
                readonly_versions = refl;
                summary = refl;
                compressed = refl;
                previous_versions = refl;
              },
            )
    ]
