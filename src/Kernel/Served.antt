-- ===== src/Kernel/Served.antt =====
-- Which of two tasks the ready queue serves first under each policy (aruntime/scheduler/kernel.py), said
-- without the keys of the sort.
use agent_runtime.Prelude.{
  ℕ, Bool, true, false, Option, none, some, List, [], ◌∷◌, ◌++◌, ◌≡◌, refl, arith, ◌&&◌, ◌||◌, not,
  leb, ltb, ◌==◌, ◌∙◌, sym, ap,
}
use agent_runtime.Prelude.Int.{ℤ, pos, neg, leb_ℤ}
use agent_runtime.Prelude.Dict.{lookup}
use agent_runtime.Task.Spec.{Task}
use agent_runtime.Kernel.Defs.{
  Kernel, Setting, Policy, fifo, priority, deadline, fair_share, resource_aware, capability_aware,
  cost_aware_policy, reliability_aware_policy, other_policy,
}
use agent_runtime.Kernel.Order.{
  aged_priority, resource_weight, capability_score, cost_score, reliability_score, dispatch_count,
  policy_key, sort_key, lex_leb, sort_ready, key_of, key_found, deadline_value,
}
use agent_runtime.Kernel.Sorted.{IsSorted, ready-IsSorted}
use agent_runtime.Kernel.Counts.{count}

abbrev greater : ℤ → ℤ → Bool
greater a b = not (leb_ℤ a b)

abbrev same : ℤ → ℤ → Bool
same a b = leb_ℤ a b && leb_ℤ b a

-- one is better, or they are alike and the next test decides
abbrev then_by : Bool → Bool → Bool → Bool
then_by better alike next = better || (alike && next)

abbrev older : Task → Task → Bool
older t u = leb t.created_at u.created_at

-- the task of greater priority, ageing included, and of two alike the older
abbrev more_urgent : ℕ → Task → Task → Bool
more_urgent now t u =
    then_by (greater (aged_priority now t) (aged_priority now u))
      (same (aged_priority now t) (aged_priority now u)) (older t u)

-- a task without a deadline comes after all that have one
abbrev sooner : Option ℕ → Option ℕ → Bool
sooner none d = false
sooner (some a) none = true
sooner (some a) (some b) = ltb a b

abbrev same_deadline : Option ℕ → Option ℕ → Bool
same_deadline none none = true
same_deadline none (some b) = false
same_deadline (some a) none = false
same_deadline (some a) (some b) = a == b

-- The first of two tasks may be served before the second: the older (fifo), the more urgent (priority, and
-- any other policy), and before that the one of the sooner deadline, of the agent that was given fewer
-- tasks, of the smaller weight, that asks for more capabilities, of the cheaper or the more reliable agent.
abbrev pub serves : Policy → Setting → Kernel → Task → Task → Bool
serves fifo s k t u = older t u
serves priority s k t u = more_urgent s.now t u
serves deadline s k t u =
    then_by (sooner t.deadline u.deadline) (same_deadline t.deadline u.deadline)
      (more_urgent s.now t u)
serves fair_share s k t u =
    then_by (ltb (dispatch_count t.agent_name k) (dispatch_count u.agent_name k))
      (dispatch_count t.agent_name k == dispatch_count u.agent_name k) (more_urgent s.now t u)
serves resource_aware s k t u =
    then_by (ltb (resource_weight t k) (resource_weight u k))
      (resource_weight t k == resource_weight u k) (more_urgent s.now t u)
serves capability_aware s k t u =
    then_by (ltb (capability_score u) (capability_score t))
      (capability_score t == capability_score u) (more_urgent s.now t u)
serves cost_aware_policy s k t u =
    then_by (greater (cost_score s u) (cost_score s t)) (same (cost_score s t) (cost_score s u))
      (more_urgent s.now t u)
serves reliability_aware_policy s k t u =
    then_by (greater (reliability_score s t) (reliability_score s u))
      (same (reliability_score s t) (reliability_score s u)) (more_urgent s.now t u)
serves other_policy s k t u = more_urgent s.now t u

leb_ℤ-neg : (a b : ℤ) → leb_ℤ (neg a) (neg b) ≡ leb_ℤ b a
leb_ℤ-neg a b = ground arith

neg-greater : (a b : ℤ) → greater (neg b) (neg a) ≡ true → greater a b ≡ true
neg-greater a b p = sym (ap not (leb_ℤ-neg b a)) ∙ p

neg-same : (a b : ℤ) → same (neg a) (neg b) ≡ true → same a b ≡ true
neg-same a b p = ground (arith, p, leb_ℤ-neg a b, leb_ℤ-neg b a)

pos-greater : (a b : ℕ) → greater (pos b) (pos a) ≡ true → ltb a b ≡ true
pos-greater a b p = ground (arith, p)

pos-same : (a b : ℕ) → same (pos a) (pos b) ≡ true → (a == b) ≡ true
pos-same a b p = ground (arith, p)

-- The keys of two tasks compare by their first entries, and then by the rest.
lex_cons :
    (x y : ℤ) (xs ys : List ℤ)
    → lex_leb (x ∷ xs) (y ∷ ys) ≡ true
    → then_by (greater y x) (same x y) (lex_leb xs ys) ≡ true
unfolding lex_leb
lex_cons x y xs ys h = ground (arith, h)

then_by_mono :
    (better better' alike alike' next next' : Bool)
    → (better ≡ true → better' ≡ true)
    → (alike ≡ true → alike' ≡ true)
    → (next ≡ true → next' ≡ true)
    → then_by better alike next ≡ true
    → then_by better' alike' next' ≡ true
then_by_mono true true a a' n n' f g h p = refl
then_by_mono true false a a' n n' f g h p = let e = f refl in absurd (cc)
then_by_mono false b' true a' n n' f g h p = ground (arith, g refl, h, p)
then_by_mono false b' false a' n n' f g h p = absurd (cc)

last_older :
    (t u : Task) → lex_leb (pos t.created_at ∷ []) (pos u.created_at ∷ []) ≡ true → older t u ≡ true
unfolding lex_leb
last_older t u h = ground (arith, h)

key-urgent :
    (now : ℕ) (t u : Task)
    → lex_leb
        (neg (aged_priority now t) ∷ pos t.created_at ∷ [])
        (neg (aged_priority now u) ∷ pos u.created_at ∷ [])
      ≡ true
    → more_urgent now t u ≡ true
key-urgent now t u h =
    let a = aged_priority now t in
    let b = aged_priority now u in
    then_by_mono (greater (neg b) (neg a)) (greater a b) (same (neg a) (neg b)) (same a b)
      (lex_leb (pos t.created_at ∷ []) (pos u.created_at ∷ [])) (older t u) (neg-greater a b)
      (neg-same a b) (last_older t u)
      (lex_cons (neg a) (neg b) (pos t.created_at ∷ []) (pos u.created_at ∷ []) h)

-- a key that starts with another entry than the urgency
before-urgent :
    (x y : ℤ) (better alike : Bool) (now : ℕ) (t u : Task)
    → (greater y x ≡ true → better ≡ true)
    → (same x y ≡ true → alike ≡ true)
    → lex_leb
        (x ∷ neg (aged_priority now t) ∷ pos t.created_at ∷ [])
        (y ∷ neg (aged_priority now u) ∷ pos u.created_at ∷ [])
      ≡ true
    → then_by better alike (more_urgent now t u) ≡ true
before-urgent x y better alike now t u f g h =
    let xs = neg (aged_priority now t) ∷ pos t.created_at ∷ [] in
    let ys = neg (aged_priority now u) ∷ pos u.created_at ∷ [] in
    then_by_mono (greater y x) better (same x y) alike (lex_leb xs ys) (more_urgent now t u) f g
      (key-urgent now t u) (lex_cons x y xs ys h)

deadline-serves :
    (d e : Option ℕ) (now : ℕ) (t u : Task)
    → lex_leb
        ((deadline_value d ++ neg (aged_priority now t) ∷ []) ++ pos t.created_at ∷ [])
        ((deadline_value e ++ neg (aged_priority now u) ∷ []) ++ pos u.created_at ∷ [])
      ≡ true
    → then_by (sooner d e) (same_deadline d e) (more_urgent now t u) ≡ true
unfolding lex_leb
deadline-serves none none now t u h = key-urgent now t u (unfold lex_leb in h)
deadline-serves none (some b) now t u h = absurd (cc)
deadline-serves (some a) none now t u h = refl
deadline-serves (some a) (some b) now t u h =
    before-urgent (pos a) (pos b) (ltb a b) (a == b) now t u (pos-greater a b) (pos-same a b)
      (unfold lex_leb in h)

sort_key-serves :
    (p : Policy) (s : Setting) (k : Kernel) (t u : Task)
    → lex_leb
        (policy_key p s k t ++ pos t.created_at ∷ [])
        (policy_key p s k u ++ pos u.created_at ∷ [])
      ≡ true
    → serves p s k t u ≡ true
unfolding policy_key
sort_key-serves fifo s k t u h = last_older t u h
sort_key-serves priority s k t u h = key-urgent s.now t u h
sort_key-serves other_policy s k t u h = key-urgent s.now t u h
sort_key-serves deadline s k t u h = deadline-serves t.deadline u.deadline s.now t u h
sort_key-serves fair_share s k t u h =
    let a = dispatch_count t.agent_name k in
    let b = dispatch_count u.agent_name k in
    before-urgent (pos a) (pos b) (ltb a b) (a == b) s.now t u (pos-greater a b) (pos-same a b) h
sort_key-serves resource_aware s k t u h =
    let a = resource_weight t k in
    let b = resource_weight u k in
    before-urgent (pos a) (pos b) (ltb a b) (a == b) s.now t u (pos-greater a b) (pos-same a b) h
sort_key-serves capability_aware s k t u h =
    let a = capability_score t in
    let b = capability_score u in
    before-urgent (neg (pos a)) (neg (pos b)) (ltb b a) (a == b) s.now t u
      (λ p. pos-greater b a (neg-greater (pos a) (pos b) p))
      (λ p. pos-same a b (neg-same (pos a) (pos b) p)) h
sort_key-serves cost_aware_policy s k t u h =
    let a = cost_score s t in
    let b = cost_score s u in
    before-urgent a b (greater b a) (same a b) s.now t u (λ p. p) (λ p. p) h
sort_key-serves reliability_aware_policy s k t u h =
    let a = reliability_score s t in
    let b = reliability_score s u in
    before-urgent (neg a) (neg b) (greater a b) (same a b) s.now t u (neg-greater a b)
      (neg-same a b) h

-- Each task of the list may be served before the next.
abbrev pub IsServed : Setting → Kernel → List ℕ → Type 0
IsServed s k [] = Unit
IsServed s k (x ∷ []) = Unit
IsServed s k (x ∷ y ∷ ys) =
    ((t u : Task)
      → lookup x k.tasks ≡ some t
      → lookup y k.tasks ≡ some u
      → serves s.policy s k t u ≡ true)
    × IsServed s k (y ∷ ys)

key_of-serves :
    (s : Setting) (k : Kernel) (x y : ℕ) (t u : Task)
    → lex_leb (key_of s k x) (key_of s k y) ≡ true
    → lookup x k.tasks ≡ some t
    → lookup y k.tasks ≡ some u
    → serves s.policy s k t u ≡ true
unfolding sort_key
key_of-serves s k x y t u h a b = sort_key-serves s.policy s k t u (
    sym (ap (λ o. lex_leb (key_found s k o) (key_found s k (some u))) a)
    ∙ sym (ap (λ o. lex_leb (key_of s k x) (key_found s k o)) b)
    ∙ h)

IsSorted-IsServed :
    (s : Setting) (k : Kernel) (xs : List ℕ) → IsSorted (key_of s k) xs → IsServed s k xs
IsSorted-IsServed s k [] h = tt
IsSorted-IsServed s k (x ∷ []) h = tt
IsSorted-IsServed s k (x ∷ y ∷ ys) h =
    (λ t u. key_of-serves s k x y t u h.0, IsSorted-IsServed s k (y ∷ ys) h.1)

-- In the sorted ready queue each task may be served before the next, by the rule of the policy and then by
-- urgency and age, and every task is there as often as before. The weights that the resource-aware policy
-- compares are those found while the queue shows no task.
pub sort_ready-IsServed :
    (s : Setting) (k : Kernel)
    → IsServed s (record k { ready_queue = [] }) (sort_ready s k).ready_queue
      × ((x : ℕ) → count x (sort_ready s k).ready_queue ≡ count x k.ready_queue)
sort_ready-IsServed s k =
    let (ordered, kept) = ready-IsSorted s k in
    (IsSorted-IsServed s (record k { ready_queue = [] }) _ ordered, kept)
