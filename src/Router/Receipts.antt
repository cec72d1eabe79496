-- ===== src/Router/Receipts.antt =====
-- Receipts: the order in which messages leave a mailbox, and what processed identifiers do.
use agent_runtime.Prelude.Dict.{lookup-insert}
use agent_runtime.Prelude.{
  inr, inl, [], refl, ◌≡◌, true, zero, ◌∷◌, suc, ℕ, List, Bool-cases, arith, take, is_empty, ◌||◌,
  ◌==◌, ==_refl,
}
use agent_runtime.Router.Defs.{
  Message, Router, mailbox, receive, unprocessed, delete_messages, drop,
}

-- What a receipt hands over, and what it leaves.
pub record Received (agent limit : ℕ) (r : Router) (got : List Message × Router) : Type 0 where
  pub handed : got.0 ≡ unprocessed agent r (take limit (mailbox agent r))
  pub left : mailbox agent got.1 ≡ drop limit (mailbox agent r)
  pub processed : got.1.processed ≡ r.processed

nothing-Received :
    (agent limit : ℕ) (r : Router) (box : List Message)
    → mailbox agent r ≡ box
    → is_empty box || limit == 0 ≡ true
    → Received agent limit r ([], r)
unfolding unprocessed
nothing-Received agent zero r box e h = record { handed = refl; left = refl; processed = refl }
nothing-Received agent (suc n) r [] e h = record {
  handed = rw e refl;
  left = rw e refl;
  processed = refl;
}
nothing-Received agent (suc n) r (x ∷ box) e h = absurd (ground arith)

pub receive-Received :
    (agent limit : ℕ) (r : Router) → Received agent limit r (receive agent limit r)
unfolding receive delete_messages
receive-Received agent limit r = elim (Bool-cases (is_empty (mailbox agent r) || limit == 0)) [
  | inl e ↦ rw e (nothing-Received agent limit r (mailbox agent r) refl e)
  | inr e ↦ rw e (record {
    handed = refl;
    left =
        rw (lookup-insert agent agent (drop limit (mailbox agent r)) r.mailboxes, ==_refl agent)
          refl;
    processed = refl;
  })
]

-- What waits for the agent, the oldest first: the messages of its mailbox that it did not acknowledge.
abbrev pub waiting : ℕ → Router → List Message
waiting agent r = unprocessed agent r (mailbox agent r)
