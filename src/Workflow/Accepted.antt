-- ===== src/Workflow/Accepted.antt =====
-- Which patches git takes in an integration, and which count as applied (aruntime/workflow/service.py).
use agent_runtime.Prelude.{
  ℕ, true, none, some, List, [], ◌∷◌, ◌++◌, ◌≡◌, refl, arith, All, ◌⊎◌, Bool-cases, inl, inr, ◌||◌,
  if◌then◌else◌, false, ap, sym, ◌∙◌, ◌&&◌, ==_refl,
}
use agent_runtime.Prelude.Sets.{member, add, member-add}
use agent_runtime.Workflow.Patches.{Git, apply_patches, add_all}

-- Each patch that was not applied before is accepted by git in its turn, after those taken before it.
abbrev pub IsAccepted : Git → ℕ → List ℕ → List ℕ → List ℕ → Type 0
IsAccepted g base done applied [] = Unit
IsAccepted g base done applied (a ∷ artifacts) =
    (member a done ≡ false → (g.checks base applied a ≡ true) × (g.applies base applied a ≡ true))
    × IsAccepted g base done (if member a done then applied else applied ++ a ∷ []) artifacts

-- the patches that were not applied before
abbrev pub fresh : List ℕ → List ℕ → List ℕ
fresh done [] = []
fresh done (a ∷ artifacts) =
    if member a done then fresh done artifacts else a ∷ fresh done artifacts

append_assoc : (xs ys zs : List ℕ) → (xs ++ ys) ++ zs ≡ xs ++ (ys ++ zs)
append_assoc [] ys zs = refl
append_assoc (x ∷ xs) ys zs = ap (λ t. x ∷ t) (append_assoc xs ys zs)

append_nil : (xs : List ℕ) → xs ++ [] ≡ xs
append_nil [] = refl
append_nil (x ∷ xs) = ap (λ t. x ∷ t) (append_nil xs)

-- The loop takes all fresh patches if git accepts each, and else nothing.
pub apply_patches-decides :
    (g : Git) (base : ℕ) (done applied artifacts : List ℕ)
    → (IsAccepted g base done applied artifacts
        × (apply_patches g base done applied artifacts ≡ some (applied ++ fresh done artifacts)))
      ⊎ ((¬ IsAccepted g base done applied artifacts)
          × (apply_patches g base done applied artifacts ≡ none))
unfolding apply_patches
apply_patches-decides g base done applied [] = inl (tt, ap some (sym (append_nil applied)))
apply_patches-decides g base done applied (a ∷ artifacts) = elim (Bool-cases (member a done)) [
  | inl e ↦ elim (apply_patches-decides g base done applied artifacts) [
    | inl (h, p) ↦ rw e (inl ((λ q. absurd (cc), h), p))
    | inr (n, p) ↦ rw e (inr (λ h. n h.1, p))
  ]
  | inr e ↦ elim (Bool-cases (g.checks base applied a && g.applies base applied a)) [
    | inl i ↦ elim (apply_patches-decides g base done (applied ++ a ∷ []) artifacts) [
      | inl (h, p) ↦
          rw (e, i)
            (inl (
              (λ q. (ground (arith, i), ground (arith, i)), h),
              p ∙ ap some (append_assoc applied (a ∷ []) (fresh done artifacts)),
            ))
      | inr (n, p) ↦ rw (e, i) (inr (λ h. n h.1, p))
    ]
    | inr i ↦
        rw (e, i)
          (inr (λ h. let both = h.0 refl in absurd (ground (arith, i, both.0, both.1)), refl))
  ]
]

member-add_all :
    (x : ℕ) (new done : List ℕ)
    → (member x done || member x new) ≡ true
    → member x (add_all new done) ≡ true
unfolding add_all
member-add_all x [] done h = unfold member in ground (arith, h)
member-add_all x (a ∷ new) done h =
    member-add_all x new (add a done) (unfold member in ground (arith, h, member-add a x done))

-- every patch is among those done before and the fresh ones
pub All-done :
    (done artifacts : List ℕ) (out : List ℕ)
    → ((x : ℕ) → member x (fresh done artifacts) ≡ true → member x out ≡ true)
    → All (λ a. member a (add_all out done) ≡ true) artifacts
All-done done [] out f = tt
All-done done (a ∷ artifacts) out f = elim (Bool-cases (member a done)) [
  | inl e ↦
      (member-add_all a out done (rw e refl), All-done done artifacts out (λ x h. f x (rw e h)))
  | inr e ↦ (
    member-add_all a out done
        (rw (e, f a (rw e (unfold member in ground (arith, ==_refl a)))) refl),
    All-done done artifacts out (λ x h. f x (rw e (unfold member in ground (arith, h)))),
  )
]
