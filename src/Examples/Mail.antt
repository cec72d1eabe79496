-- ===== src/Examples/Mail.antt =====
-- A router with a mailbox of two messages.
use agent_runtime.Prelude.Sets.{member}
use agent_runtime.Prelude.Dict.{lookup}
use agent_runtime.Prelude.{ℕ, [], ◌∷◌, ◌++◌, none, true, false, ◌≡◌, refl, arith}
use agent_runtime.Router.Defs.{Message, Router, receive, ack, enqueue_locked}
use agent_runtime.Router.Mailboxes.{IsBounded, enqueue-IsBounded, arrivals, arrivals-enqueue}
use agent_runtime.Router.Acks.{has_id, apply_all, send, acked_not_received}

abbrev message : ℕ → Message
message id = record { message_id = id; to_agent = 1; ack_required = true; body = 0 }

abbrev router : Router
router = record {
  mailboxes = (1, message 10 ∷ message 11 ∷ []) ∷ [];
  dead_letters = [];
  unacked = [];
  processed = [];
  retry_count = [];
  connections = [];
  connected_events = [];
  mailbox_max = 2;
  store = none;
}

router-IsBounded : IsBounded router
unfolding lookup
router-IsBounded a p = ground arith

enqueue-IsBounded_example : IsBounded (enqueue_locked (message 12) router)
enqueue-IsBounded_example = enqueue-IsBounded (message 12) router router-IsBounded

arrivals-enqueue_example :
    arrivals 1 (enqueue_locked (message 12) router) ≡ arrivals 1 router ++ message 12 ∷ []
unfolding lookup member
arrivals-enqueue_example = arrivals-enqueue (message 12) router 1 (refl, (refl, tt)) refl

acked_not_received_example :
    has_id 10 (receive 1 5 (apply_all (send (message 10) ∷ []) (ack 1 10 router).1)).0 ≡ false
acked_not_received_example = acked_not_received 1 10 5 router (send (message 10) ∷ [])
