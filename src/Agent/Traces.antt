-- ===== src/Agent/Traces.antt =====
-- What holds of a control block over every history of its operations.
use agent_runtime.Prelude.{
  ℕ, Option, none, some, List, [], ◌∷◌, ◌++◌, true, ◌≡◌, refl, arith, if◌then◌else◌, ◌==◌, ==_refl,
  Bool-cases, inl, ◌⊎◌, inr, ◌∙◌,
}
use agent_runtime.Prelude.Result.{Result, ok, err}
use agent_runtime.Agent.{
  AgentStatus, created, completed, killed, index, contains, allowed_block, AgentControlBlock,
  TimelineEvent, AgentSpec, from_agent_spec, record_event, block_transition_to,
  lifecycle_transition_to, set_current_task, set_context, TransitionError, allowed_transitions,
  record_transition,
}

-- An operation of the block; a transition that raises leaves it as it was.
pub data Op : Type 0 where
  event : ℕ → ℕ → Option ℕ → ℕ → ℕ → Op
  transition : ℕ → AgentStatus → Option ℕ → ℕ → ℕ → Op
  lifecycle : ℕ → AgentStatus → Option ℕ → ℕ → ℕ → Op
  current_task : ℕ → Option ℕ → Op
  context : ℕ → Option ℕ → Op

abbrev settle : Result TransitionError AgentControlBlock → AgentControlBlock → AgentControlBlock
settle (ok acb') acb = acb'
settle (err e) acb = acb

pub apply : Op → AgentControlBlock → AgentControlBlock
apply (event now name task reason detail) acb = record_event now name task reason detail acb
apply (transition now target task reason detail) acb =
    settle (block_transition_to now target task reason detail acb) acb
apply (lifecycle now target task reason detail) acb =
    settle (lifecycle_transition_to now target task reason detail acb) acb
apply (current_task now task) acb = set_current_task now task acb
apply (context now id) acb = set_context now id acb

pub apply_all : List Op → AgentControlBlock → AgentControlBlock
apply_all [] acb = acb
apply_all (o ∷ os) acb = apply_all os (apply o acb)

-- The status that a timeline leads to from a first one, if each of its transitions starts at the
-- status that the one before left and is an edge of the table.
abbrev step_event :
    Option AgentStatus → Option AgentStatus → Option AgentStatus → Option AgentStatus
step_event none f t = none
step_event (some s) none t = some s
step_event (some s) (some f) none = none
step_event (some s) (some f) (some t) =
    if index s == index f then (if contains t (allowed_block f) then some t else none) else none

pub replay : Option AgentStatus → List TimelineEvent → Option AgentStatus
replay s [] = s
replay s (e ∷ es) = replay (step_event s e.from_status e.to_status) es

replay-append :
    (s : Option AgentStatus) (es : List TimelineEvent) (e : TimelineEvent)
    → replay s (es ++ e ∷ []) ≡ step_event (replay s es) e.from_status e.to_status
unfolding replay
replay-append s [] e = refl
replay-append s (d ∷ es) e = replay-append (step_event s d.from_status d.to_status) es e

-- The timeline of a block made with status `s` replays to the status that the block has.
abbrev pub IsHistory : AgentStatus → AgentControlBlock → Type 0
IsHistory s acb = replay (some s) acb.timeline ≡ some acb.status

edge :
    (f t : AgentStatus)
    → contains t (allowed_block f) ≡ true
    → step_event (some f) (some f) (some t) ≡ some t
edge f t h = rw (==_refl (index f)) (rw h)

record_event-IsHistory :
    (s : AgentStatus) (now name : ℕ) (task : Option ℕ) (reason detail : ℕ) (acb : AgentControlBlock)
    → IsHistory s acb
    → IsHistory s (record_event now name task reason detail acb)
unfolding record_event
record_event-IsHistory s now name task reason detail acb h = rw (replay-append, h)

block_transition_to-IsHistory :
    (s : AgentStatus) (now : ℕ) (target : AgentStatus) (task : Option ℕ) (reason detail : ℕ)
    (acb : AgentControlBlock)
    → IsHistory s acb
    → IsHistory s (settle (block_transition_to now target task reason detail acb) acb)
unfolding block_transition_to
block_transition_to-IsHistory s now target task reason detail acb h =
    elim (Bool-cases (contains target (allowed_block acb.status))) [
      | inl e ↦ rw e (rw (replay-append, h) (edge acb.status target e))
      | inr e ↦ rw e h
    ]

-- The lifecycle module's table is the block's.
pub allowed_transitions-eq : (s : AgentStatus) → allowed_transitions s ≡ allowed_block s
unfolding allowed_transitions allowed_block
allowed_transitions-eq created = refl
allowed_transitions-eq _ = refl

abbrev pub SameAnswer :
    Result TransitionError AgentControlBlock → Result TransitionError AgentControlBlock → Type 0
SameAnswer (ok a) (ok b) = a ≡ b
SameAnswer (err a) (err b) = Unit
SameAnswer _ _ = ⊥

-- The two ways to move a control block agree: `AgentControlBlock.transition_to` and the lifecycle
-- module's `transition_to` accept the same moves, and leave the same block.
pub lifecycle-agrees :
    (now : ℕ) (target : AgentStatus) (task : Option ℕ) (reason detail : ℕ) (acb : AgentControlBlock)
    → SameAnswer
        (block_transition_to now target task reason detail acb)
        (lifecycle_transition_to now target task reason detail acb)
unfolding block_transition_to lifecycle_transition_to record_transition
lifecycle-agrees now target task reason detail acb =
    elim (Bool-cases (contains target (allowed_block acb.status))) [
      | inl e ↦ rw (allowed_transitions-eq acb.status, e) refl
      | inr e ↦ rw (allowed_transitions-eq acb.status, e) tt
    ]

settle-agrees :
    (a b : Result TransitionError AgentControlBlock) (acb : AgentControlBlock)
    → SameAnswer a b
    → settle a acb ≡ settle b acb
settle-agrees (ok a) (ok b) acb h = h
settle-agrees (ok a) (err b) acb h = absurd h
settle-agrees (err a) (ok b) acb h = absurd h
settle-agrees (err a) (err b) acb h = refl

pub apply-IsHistory :
    (s : AgentStatus) (o : Op) (acb : AgentControlBlock)
    → IsHistory s acb
    → IsHistory s (apply o acb)
unfolding apply set_current_task set_context
apply-IsHistory s (event now name task reason detail) acb h =
    record_event-IsHistory s now name task reason detail acb h
apply-IsHistory s (transition now target task reason detail) acb h =
    block_transition_to-IsHistory s now target task reason detail acb h
apply-IsHistory s (lifecycle now target task reason detail) acb h =
    rw (← settle-agrees _ _ acb (lifecycle-agrees now target task reason detail acb))
      (block_transition_to-IsHistory s now target task reason detail acb h)
apply-IsHistory s (current_task now task) acb h = h
apply-IsHistory s (context now id) acb h = h

apply_all-IsHistory :
    (s : AgentStatus) (os : List Op) (acb : AgentControlBlock)
    → IsHistory s acb
    → IsHistory s (apply_all os acb)
unfolding apply_all
apply_all-IsHistory s [] acb h = h
apply_all-IsHistory s (o ∷ os) acb h =
    apply_all-IsHistory s os (apply o acb) (apply-IsHistory s o acb h)

-- From a block made of an agent, whatever operations follow, refused transitions included, the
-- timeline replays to the block's status: its transitions chain, and each is an edge of the table.
pub timeline_replays :
    (now : ℕ) (agent : AgentSpec) (os : List Op)
    → let acb = apply_all os (from_agent_spec now agent) in
      replay (some agent.status) acb.timeline ≡ some acb.status
timeline_replays now agent os =
    apply_all-IsHistory agent.status os (from_agent_spec now agent)
      (unfold from_agent_spec replay in refl)

abbrev IsFinal : AgentStatus → Type 0
IsFinal s = (s ≡ completed) ⊎ (s ≡ killed)

apply-final :
    (o : Op) (acb : AgentControlBlock) → IsFinal acb.status → (apply o acb).status ≡ acb.status
unfolding apply set_current_task set_context record_event block_transition_to
    lifecycle_transition_to record_transition allowed_block allowed_transitions
apply-final (event now name task reason detail) acb h = refl
apply-final (transition now target task reason detail) acb h = ground arith
apply-final (lifecycle now target task reason detail) acb h = ground arith
apply-final (current_task now task) acb h = refl
apply-final (context now id) acb h = refl

-- A completed or killed agent keeps its status whatever operations are tried.
pub final_absorbs :
    (os : List Op) (acb : AgentControlBlock)
    → (acb.status ≡ completed) ⊎ (acb.status ≡ killed)
    → (apply_all os acb).status ≡ acb.status
unfolding apply_all
final_absorbs [] acb h = refl
final_absorbs (o ∷ os) acb h =
    let e = apply-final o acb h in final_absorbs os (apply o acb) (rw e h) ∙ e
