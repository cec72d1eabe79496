-- ===== src/Router/Acks.antt =====
-- Acknowledged messages over every schedule of the router's steps.
use agent_runtime.Prelude.Sets.{add, member-add}
use agent_runtime.Router.Receipts.{receive-Received}
use agent_runtime.Prelude.Dict.{insert, values, lookup-insert}
use agent_runtime.Prelude.{
  ◌≡◌, some, ◌∷◌, false, ◌++◌, refl, [], none, true, List, arith, ℕ, Option, ltb, Bool,
  if◌then◌else◌, take, ◌∙◌, ◌==◌, inl, inr, ◌&&◌, Bool-cases, ==_iff,
}
use agent_runtime.Router.Defs.{
  Message, Router, enqueue_locked, receive, ack, is_processed, restore_mailbox, drop_oldest,
  give_up, replay_scan, unregister, sent, unprocessed, replay_begin, bury, mailbox, count_retry,
  disconnect, replay_push, save_message, retries, clear_event, addressed, register_begin,
  route_begin, delete_messages, requeue_begin, requeue_end, wait_begin, listed,
}

-- One hold of the lock, or one write to a connection with its outcome.
pub data Step : Type 0 where
  send : Message → Step
  restore : List Message → Step
  take_some : ℕ → ℕ → Step
  acknowledge : ℕ → ℕ → Step
  scan : ℕ → ℕ → Step
  push : ℕ → Message → Step
  connect : ℕ → ℕ → Step
  leave : ℕ → Option ℕ → Step
  write : Bool → ℕ → ℕ → Step
  route : Message → Step
  requeue : ℕ → Message → ℕ → Step
  requeued : Bool → ℕ → Message → ℕ → Step
  wait : ℕ → Step

pub apply : Step → Router → Router
apply (send m) r = enqueue_locked m r
apply (restore ms) r = restore_mailbox ms r
apply (take_some agent limit) r = (receive agent limit r).1
apply (acknowledge agent id) r = (ack agent id r).1
apply (scan agent most) r = (replay_begin agent most r).1
apply (push agent m) r = replay_push agent m r
apply (connect agent writer) r = (register_begin agent writer r).1
apply (leave agent writer) r = unregister agent writer r
apply (write through agent writer) r = sent through agent writer r
apply (route m) r = (route_begin m r).1
apply (requeue agent m failed) r = (requeue_begin agent m failed r).1
apply (requeued through agent m writer) r = requeue_end through agent m writer r
apply (wait agent) r = (wait_begin agent r).1

pub apply_all : List Step → Router → Router
apply_all [] r = r
apply_all (s ∷ ss) r = apply_all ss (apply s r)

drop_oldest-processed :
    (agent : ℕ) (box : List Message) (r : Router)
    → (drop_oldest agent box r).processed ≡ r.processed
unfolding drop_oldest bury save_message
drop_oldest-processed agent [] r = refl
drop_oldest-processed agent (m ∷ box) r = refl

enqueue-processed : (m : Message) (r : Router) → (enqueue_locked m r).processed ≡ r.processed
unfolding enqueue_locked
enqueue-processed m r = ground (arith, drop_oldest-processed m.to_agent (mailbox m.to_agent r) r)

restore-processed :
    (ms : List Message) (r : Router) → (restore_mailbox ms r).processed ≡ r.processed
unfolding restore_mailbox
restore-processed [] r = refl
restore-processed (m ∷ ms) r =
    restore-processed ms
      (record r { mailboxes = insert m.to_agent (mailbox m.to_agent r ++ m ∷ []) r.mailboxes })

scan_one-processed :
    (over : Bool) (m : Message) (r : Router)
    → (if over then give_up m (count_retry m r) else count_retry m r).processed ≡ r.processed
unfolding give_up count_retry bury save_message
scan_one-processed true m r = refl
scan_one-processed false m r = refl

scan-processed :
    (most : ℕ) (ms : List Message) (r : Router) → (replay_scan most ms r).1.processed ≡ r.processed
unfolding replay_scan
scan-processed most [] r = refl
scan-processed most (m ∷ ms) r =
    let over = ltb most (retries m.message_id (count_retry m r)) in
    scan-processed most ms (if over then give_up m (count_retry m r) else count_retry m r)
    ∙ scan_one-processed over m r

unregister-processed :
    (agent : ℕ) (w : Option ℕ) (r : Router) → (unregister agent w r).processed ≡ r.processed
unfolding unregister disconnect clear_event
unregister-processed agent none r = ground arith
unregister-processed agent (some w) r = ground arith

sent-processed :
    (through : Bool) (agent w : ℕ) (r : Router) → (sent through agent w r).processed ≡ r.processed
unfolding sent
sent-processed true agent w r = refl
sent-processed false agent w r = unregister-processed agent (some w) r

is_processed-ack :
    (a i agent id : ℕ) (r : Router)
    → is_processed agent id (ack a i r).1
      ≡ (if a == agent && i == id then true else is_processed agent id r)
unfolding ack
is_processed-ack a i agent id r = ground (
  arith,
  lookup-insert a agent (add i (listed a r.processed)) r.processed,
  member-add i id (listed a r.processed),
)

-- A processed identifier stays processed, whatever step is taken.
apply-processed :
    (s : Step) (r : Router) (agent id : ℕ)
    → is_processed agent id r ≡ true
    → is_processed agent id (apply s r) ≡ true
unfolding apply
apply-processed (send m) r agent id h = rw (enqueue-processed m r) h
apply-processed (restore ms) r agent id h = rw (restore-processed ms r) h
apply-processed (take_some a limit) r agent id h = rw ((receive-Received a limit r).processed) h
apply-processed (acknowledge a i) r agent id h = ground (arith, is_processed-ack a i agent id r)
apply-processed (scan a most) r agent id h =
    unfold replay_begin in rw (scan-processed most (addressed a (values r.unacked)) r) h
apply-processed (push a m) r agent id h = unfold replay_push save_message in h
apply-processed (connect a w) r agent id h = unfold register_begin delete_messages in h
apply-processed (leave a w) r agent id h = rw (unregister-processed a w r) h
apply-processed (write through a w) r agent id h = rw (sent-processed through a w r) h
apply-processed (route m) r agent id h = unfold route_begin in ground (arith, enqueue-processed m r)
apply-processed (requeue a m failed) r agent id h =
    unfold requeue_begin in ground (arith, enqueue-processed m r)
apply-processed (requeued true a m w) r agent id h = unfold requeue_end sent in h
apply-processed (requeued false a m w) r agent id h =
    unfold requeue_end in rw (enqueue-processed m (sent false a w r), sent-processed false a w r) h
apply-processed (wait a) r agent id h = unfold wait_begin in ground arith

apply_all-processed :
    (ss : List Step) (r : Router) (agent id : ℕ)
    → is_processed agent id r ≡ true
    → is_processed agent id (apply_all ss r) ≡ true
unfolding apply_all
apply_all-processed [] r agent id h = h
apply_all-processed (s ∷ ss) r agent id h =
    apply_all-processed ss (apply s r) agent id (apply-processed s r agent id h)

abbrev pub has_id : ℕ → List Message → Bool
has_id id [] = false
has_id id (m ∷ ms) = if m.message_id == id then true else has_id id ms

unprocessed-without :
    (agent id : ℕ) (r : Router) (ms : List Message)
    → is_processed agent id r ≡ true
    → has_id id (unprocessed agent r ms) ≡ false
unfolding unprocessed
unprocessed-without agent id r [] h = refl
unprocessed-without agent id r (m ∷ ms) h =
    let ih = unprocessed-without agent id r ms h in
    elim (Bool-cases (m.message_id == id)) [
      | inl e ↦
          let done : is_processed agent m.message_id r ≡ true =
            rw ((==_iff m.message_id id).0 e) h in
          rw done ih
      | inr e ↦ elim (Bool-cases (is_processed agent m.message_id r)) [
        | inl done ↦ rw done ih
        | inr new ↦ rw (new, e) ih
      ]
    ]

-- Once an agent acknowledged an identifier, no later receipt of that agent hands over a message of
-- that identifier, whatever steps the router takes in between, replays and restores included.
pub acked_not_received :
    (agent id limit : ℕ) (r : Router) (ss : List Step)
    → has_id id (receive agent limit (apply_all ss (ack agent id r).1)).0 ≡ false
acked_not_received agent id limit r ss =
    let r' = apply_all ss (ack agent id r).1 in
    rw ((receive-Received agent limit r').handed) (
      unprocessed-without agent id r' (take limit (mailbox agent r')) (
        apply_all-processed ss (ack agent id r).1 agent id
          (ground (arith, is_processed-ack agent id agent id r))))
