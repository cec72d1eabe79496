-- ===== src/Workflow/Patches.antt =====
-- `_integrate_root_patches` of WorkflowService (aruntime/workflow/service.py). What git answers is a
-- parameter; traces are left out.
use agent_runtime.Prelude.{
  ℕ, Bool, Option, none, some, List, [], ◌∷◌, ◌++◌, if◌then◌else◌, ◌==◌, ◌&&◌, not, get_or, filter,
  is_empty,
}
use agent_runtime.Prelude.Dict.{lookup, insert, values}
use agent_runtime.Prelude.Sets.{member, add}
use agent_runtime.Prelude.Result.{Exec, ok, err}
use agent_runtime.Workflow.Service.{
  Space, FlowTask, Service, writes_code, head_ref, nonempty, root_of, repo_of,
}

-- What git answers, and the integration workspace: `rev-parse` of a reference in a repository, whether a
-- patch applies after others to a commit, by `apply --check` and by `apply --3way`, whether `diff --check`
-- and `add -A` succeed, whether nothing is staged afterwards, whether `commit` succeeds, and what HEAD is then.
pub record Git : Type 0 where
  pub resolve : ℕ → ℕ → Option ℕ
  pub checks : ℕ → List ℕ → ℕ → Bool
  pub applies : ℕ → List ℕ → ℕ → Bool
  pub clean : ℕ → List ℕ → Bool
  pub adds : ℕ → List ℕ → Bool
  pub nothing_staged : ℕ → List ℕ → Bool
  pub commits : ℕ → List ℕ → Bool
  pub head : ℕ → List ℕ → Option ℕ
  pub path : ℕ

-- The RuntimeError of `_git` and the CalledProcessError of a call with `check=True`.
pub data GitError : Type 0 where
  git_failed called_process : GitError

abbrev pub Act : Type 0
Act = Exec GitError Service (Unit {0})

abbrev pub patches_of : List FlowTask → List ℕ
patches_of [] = []
patches_of (t ∷ ts) = t.patches ++ patches_of ts

-- the patches of the tasks that wrote code under a root and succeeded, in the order of their identifiers
unfoldable pub root_artifacts : (List FlowTask → List FlowTask) → ℕ → Service → List ℕ
unfolding values
root_artifacts sorted root s = patches_of (
    sorted
      (filter (λ t. root_of t == root && writes_code t.task_role && t.is_success) (values s.tasks)))

-- the loop over the artifacts: what was applied, or none on a conflict
unfoldable pub apply_patches : Git → ℕ → List ℕ → List ℕ → List ℕ → Option (List ℕ)
unfolding member
apply_patches g base done applied [] = some applied
apply_patches g base done applied (a ∷ artifacts) =
    let skip = apply_patches g base done applied artifacts in
    let next = apply_patches g base done (applied ++ a ∷ []) artifacts in
    if member a done
    then skip
    else (if g.checks base applied a && g.applies base applied a then next else none)

abbrev pub applied_of : ℕ → Service → List ℕ
applied_of root s = get_or (lookup root s.applied_artifacts) []

-- set.update
unfoldable pub add_all : List ℕ → List ℕ → List ℕ
unfolding add
add_all [] done = done
add_all (a ∷ more) done = add_all more (add a done)

unfoldable pub commit_patches : Git → ℕ → ℕ → List ℕ → Service → Service
unfolding insert lookup add_all
commit_patches g root commit applied s = record s {
  integration_commits = insert root commit s.integration_commits;
  integration_workspaces = insert root g.path s.integration_workspaces;
  applied_artifacts = insert root (add_all applied (applied_of root s)) s.applied_artifacts;
}

abbrev pub committed : Git → ℕ → List ℕ → Option ℕ → Act
committed g root applied none s = (err git_failed, s)
committed g root applied (some commit) s = (ok tt, commit_patches g root commit applied s)

-- what follows the loop
unfoldable pub integrated : Git → ℕ → ℕ → Option (List ℕ) → Act
unfolding commit_patches
integrated g root base none s = (ok tt, s)
integrated g root base (some applied) s =
    if is_empty applied
    then (ok tt, s)
    else if not (g.clean base applied && g.adds base applied)
    then (err called_process, s)
    else if g.nothing_staged base applied
    then (ok tt, s)
    else if not (g.commits base applied)
    then (err called_process, s)
    else committed g root applied (g.head base applied) s

abbrev pub base_commit_of : Option Space → Option ℕ
base_commit_of none = none
base_commit_of (some w) = nonempty w.base_commit

-- self.integration_commits.get(root) or (the workspace's base commit) or "HEAD"
unfoldable pub base_ref : ℕ → FlowTask → Service → ℕ
unfolding lookup
base_ref root task s =
    get_or (nonempty (lookup root s.integration_commits))
      (get_or (base_commit_of task.workspace) head_ref)

abbrev pub integrate_from : Git → ℕ → List ℕ → Option ℕ → Act
integrate_from g root artifacts none s = (err git_failed, s)
integrate_from g root artifacts (some base) s =
    integrated g root base (apply_patches g base (applied_of root s) [] artifacts) s

-- _integrate_root_patches, where git itself answers
unfoldable pub integrate_root_patches : Git → (List FlowTask → List FlowTask) → ℕ → FlowTask → Act
unfolding root_artifacts apply_patches integrated base_ref lookup
integrate_root_patches g sorted cwd trigger s =
    let root = root_of trigger in
    let artifacts = root_artifacts sorted root s in
    if is_empty artifacts
    then (ok tt, s)
    else integrate_from g root artifacts
        (g.resolve (repo_of cwd trigger.workspace) (base_ref root trigger s)) s
