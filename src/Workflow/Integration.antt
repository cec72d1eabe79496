-- ===== src/Workflow/Integration.antt =====
-- The integration of patches (aruntime/workflow/service.py): all of a root's patches, or none.
use agent_runtime.Prelude.{
  ℕ, true, Option, none, some, List, [], ◌≡◌, All, ◌⊎◌, false, not, ◌&&◌, is_empty, Bool,
}
use agent_runtime.Prelude.Dict.{lookup}
use agent_runtime.Prelude.Result.{Result, ok}
use agent_runtime.Prelude.Sets.{member}
use agent_runtime.Workflow.Service.{FlowTask, Service, repo_of, root_of}
use agent_runtime.Workflow.Patches.{Git, applied_of, GitError, base_ref}
use agent_runtime.Workflow.Accepted.{IsAccepted, fresh}

abbrev found : Option ℕ → Bool
found none = false
found (some n) = true

-- git takes the patches to a commit: no whitespace error, something is staged, and the commit succeeds
abbrev pub commits_to : Git → ℕ → List ℕ → Bool
commits_to g base out =
    g.clean base out
    && g.adds base out
    && not (g.nothing_staged base out)
    && g.commits base out
    && found (g.head base out)

-- Nothing stands against the integration of the patches on a commit.
abbrev pub IsFit : Git → ℕ → List ℕ → List ℕ → Type 0
IsFit g base done artifacts =
    IsAccepted g base done [] artifacts
    × (is_empty (fresh done artifacts) ≡ false)
    × (commits_to g base (fresh done artifacts) ≡ true)

-- Every patch counts as applied, and the commit is the one that git made.
abbrev pub IsIntegrated :
    Git → ℕ → ℕ → List ℕ → Service → Result GitError (Unit {0}) × Service → Type 0
IsIntegrated g root base artifacts s (r, s') =
    (r ≡ ok tt)
    × All (λ a. member a (applied_of root s') ≡ true) artifacts
    × (lookup root s'.integration_commits ≡ g.head base (fresh (applied_of root s) artifacts))

abbrev Outcome : Git → ℕ → ℕ → List ℕ → Service → Result GitError (Unit {0}) × Service → Type 0
Outcome g root base artifacts s x =
    (IsFit g base (applied_of root s) artifacts × IsIntegrated g root base artifacts s x)
    ⊎ ((¬ IsFit g base (applied_of root s) artifacts) × (x.1 ≡ s))

-- What the integration of a root's patches starts from: their list, the commit it is based on, if git
-- knows that, and what was applied before.
abbrev pub start_commit : Git → ℕ → FlowTask → Service → Option ℕ
start_commit g cwd trigger s =
    g.resolve (repo_of cwd trigger.workspace) (base_ref (root_of trigger) trigger s)
