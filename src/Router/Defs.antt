-- ===== src/Router/Defs.antt =====
-- MessageRouter of aruntime/comm/router.py. Each function is what runs under one hold of the
-- router's lock, or one write to a connection, so that a schedule is a list of them. A connection
-- has its lock for as long as it is registered, so the two dictionaries of the code are one here.
use agent_runtime.Prelude.Sets.{member, add}
use agent_runtime.Prelude.{
  true, ◌++◌, ◌∷◌, [], some, none, zero, false, suc, ℕ, Bool, List, Option, if◌then◌else◌, get_or,
  ltb, take, is_some, ◌==◌, ◌+◌, length, ◌&&◌, is_empty, leb, ◌||◌, not,
}
use agent_runtime.Prelude.Dict.{Dict, insert, remove, values, has, lookup}

-- `body` is the rest of a message, which the router only carries.
pub record Message : Type 0 where
  pub message_id : ℕ
  pub to_agent : ℕ
  pub ack_required : Bool
  pub body : ℕ

-- A row of the table `mailbox_messages`, under its message's identifier.
pub record MailboxRow : Type 0 where
  pub message : Message
  pub dead_letter : Bool

pub record Router : Type 0 where
  pub mailboxes : Dict (List Message)
  pub dead_letters : Dict (List Message)
  pub unacked : Dict Message
  pub processed : Dict (List ℕ)
  pub retry_count : Dict ℕ
  pub connections : Dict ℕ
  pub connected_events : Dict Bool
  pub mailbox_max : ℕ
  pub store : Option (Dict MailboxRow)

-- `defaultdict`: a missing entry reads as the empty one
abbrev pub listed {ℓ} : {A : Type ℓ} → ℕ → Dict (List A) → List A
listed k d = get_or (lookup k d) []

abbrev pub mailbox : ℕ → Router → List Message
mailbox agent r = listed agent r.mailboxes

abbrev pub dead : ℕ → Router → List Message
dead agent r = listed agent r.dead_letters

abbrev pub is_processed : ℕ → ℕ → Router → Bool
is_processed agent id r = member id (listed agent r.processed)

abbrev pub on_store :
    (Dict MailboxRow → Dict MailboxRow) → Option (Dict MailboxRow) → Option (Dict MailboxRow)
on_store f none = none
on_store f (some table) = some (f table)

-- SQLiteStateStore.save_mailbox_message, if there is a store
unfoldable pub save_message : Bool → Message → Router → Router
save_message dead_letter message r = record r {
  store =
      on_store (insert message.message_id (record { message = message; dead_letter = dead_letter }))
        r.store;
}

unfoldable pub delete_rows : List Message → Dict MailboxRow → Dict MailboxRow
delete_rows [] table = table
delete_rows (m ∷ ms) table = delete_rows ms (remove m.message_id table)

-- SQLiteStateStore.delete_mailbox_messages, if there is a store
unfoldable pub delete_messages : List Message → Router → Router
unfolding delete_rows
delete_messages ms r = record r { store = on_store (delete_rows ms) r.store }

unfoldable pub bury : Message → Router → Router
unfolding save_message
bury message r = save_message true message (record r {
  dead_letters =
      insert message.to_agent (listed message.to_agent r.dead_letters ++ message ∷ [])
        r.dead_letters;
})

abbrev pub full : ℕ → List Message → Bool
full most box = ltb 0 most && leb most (length box)

unfoldable pub drop_oldest : ℕ → List Message → Router → Router
unfolding bury
drop_oldest agent [] r = r
drop_oldest agent (oldest ∷ rest) r =
    bury oldest (record r { mailboxes = insert agent rest r.mailboxes })

-- the eviction at the head of `_enqueue_locked`
unfoldable pub make_room : ℕ → Router → Router
unfolding drop_oldest
make_room agent r =
    if full r.mailbox_max (mailbox agent r) then drop_oldest agent (mailbox agent r) r else r

unfoldable pub append_message : Message → Router → Router
unfolding save_message
append_message message r = save_message false message (record r {
  mailboxes = insert message.to_agent (mailbox message.to_agent r ++ message ∷ []) r.mailboxes;
})

unfoldable pub await_ack : Message → Router → Router
await_ack message r =
    if message.ack_required
    then record r { unacked = insert message.message_id message r.unacked }
    else r

-- `_enqueue_locked`; `send` is this under the lock
unfoldable pub enqueue_locked : Message → Router → Router
unfolding make_room append_message await_ack
enqueue_locked message r =
    if is_processed message.to_agent message.message_id r
    then r
    else await_ack message (append_message message (make_room message.to_agent r))

unfoldable pub restore_mailbox : List Message → Router → Router
restore_mailbox [] r = r
restore_mailbox (m ∷ ms) r =
    restore_mailbox ms
      (record r { mailboxes = insert m.to_agent (mailbox m.to_agent r ++ m ∷ []) r.mailboxes })

unfoldable pub unprocessed : ℕ → Router → List Message → List Message
unprocessed agent r [] = []
unprocessed agent r (m ∷ ms) =
    let rest = unprocessed agent r ms in
    if is_processed agent m.message_id r then rest else m ∷ rest

abbrev pub drop {ℓ} : {A : Type ℓ} → ℕ → List A → List A
drop zero xs = xs
drop (suc n) [] = []
drop (suc n) (x ∷ xs) = drop n xs

-- `receive`: the first `limit` messages leave the mailbox, and those not processed are handed over
unfoldable pub receive : ℕ → ℕ → Router → List Message × Router
unfolding unprocessed delete_messages
receive agent limit r =
    let box = mailbox agent r in
    let messages = unprocessed agent r (take limit box) in
    if is_empty box || limit == 0 then ([], r) else (
      messages,
      delete_messages messages (record r { mailboxes = insert agent (drop limit box) r.mailboxes }),
    )

abbrev pub delete_id : ℕ → Dict MailboxRow → Dict MailboxRow
delete_id id table = remove id table

unfoldable pub ack : ℕ → ℕ → Router → Bool × Router
ack agent id r = (
  is_some (lookup id r.unacked),
  record r {
    unacked = remove id r.unacked;
    processed = insert agent (add id (listed agent r.processed)) r.processed;
    store = on_store (delete_id id) r.store;
  },
)

unfoldable pub addressed : ℕ → List Message → List Message
addressed agent [] = []
addressed agent (m ∷ ms) =
    let rest = addressed agent ms in if m.to_agent == agent then m ∷ rest else rest

abbrev pub retries : ℕ → Router → ℕ
retries id r = get_or (lookup id r.retry_count) 0

unfoldable pub count_retry : Message → Router → Router
count_retry m r = record r {
  retry_count = insert m.message_id (retries m.message_id r + 1) r.retry_count;
}

unfoldable pub give_up : Message → Router → Router
unfolding bury
give_up m r = bury m (record r { unacked = remove m.message_id r.unacked })

-- the first loop of `replay_unacked`
unfoldable pub replay_scan : ℕ → List Message → Router → List Message × Router
unfolding count_retry give_up
replay_scan most [] r = ([], r)
replay_scan most (m ∷ ms) r =
    let over = ltb most (retries m.message_id (count_retry m r)) in
    let (replay, r') =
      replay_scan most ms (if over then give_up m (count_retry m r) else count_retry m r) in
    (if over then replay else m ∷ replay, r')

-- `replay_unacked` up to the end of its first hold of the lock
unfoldable pub replay_begin : ℕ → ℕ → Router → List Message × Router
unfolding replay_scan addressed
replay_begin agent most r = replay_scan most (addressed agent (values r.unacked)) r

-- one turn of its second loop, a hold of the lock of its own
unfoldable pub replay_push : ℕ → Message → Router → Router
unfolding save_message
replay_push agent m r =
    save_message false m (record r { mailboxes = insert agent (m ∷ mailbox agent r) r.mailboxes })

unfoldable pub replay_push_all : ℕ → List Message → Router → Router
unfolding replay_push
replay_push_all agent [] r = r
replay_push_all agent (m ∷ ms) r = replay_push_all agent ms (replay_push agent m r)

-- `replay_unacked` with nothing between its steps
unfoldable pub replay_unacked : ℕ → ℕ → Router → ℕ × Router
unfolding replay_begin replay_push_all
replay_unacked agent most r =
    let (replay, r') = replay_begin agent most r in (length replay, replay_push_all agent replay r')

concat_values : Dict (List Message) → List Message
concat_values [] = []
concat_values ((k, ms) ∷ d) = ms ++ concat_values d

-- `dead_letters`, of one agent or of all
unfoldable pub dead_letters : Option ℕ → ℕ → Router → List Message
unfolding concat_values
dead_letters (some agent) limit r = take limit (dead agent r)
dead_letters none limit r = take limit (concat_values r.dead_letters)

unfoldable pub ids : List Message → List ℕ
ids [] = []
ids (m ∷ ms) = m.message_id ∷ ids ms

unfoldable pub not_queued : List ℕ → List Message → List Message
not_queued queued [] = []
not_queued queued (m ∷ ms) =
    let rest = not_queued queued ms in if member m.message_id queued then rest else m ∷ rest

-- `register` up to its sends: the messages to send, and the connection in place
unfoldable pub register_begin : ℕ → ℕ → Router → List Message × Router
unfolding addressed ids not_queued delete_messages
register_begin agent writer r =
    let box = mailbox agent r in
    let queued = box ++ not_queued (ids box) (addressed agent (values r.unacked)) in
    (
      queued,
      delete_messages queued (record r {
        connections = insert agent writer r.connections;
        connected_events = insert agent true r.connected_events;
        mailboxes = insert agent [] r.mailboxes;
      }),
    )

abbrev pub is_writer : ℕ → Option ℕ → Bool
is_writer writer none = false
is_writer writer (some w) = w == writer

unfoldable pub clear_event : ℕ → Router → Router
clear_event agent r =
    if has agent r.connected_events
    then record r { connected_events = insert agent false r.connected_events }
    else r

unfoldable pub disconnect : ℕ → Router → Router
unfolding clear_event
disconnect agent r = clear_event agent (record r { connections = remove agent r.connections })

-- `unregister`, with the writer that is going away if the caller names one
unfoldable pub unregister : ℕ → Option ℕ → Router → Router
unfolding disconnect
unregister agent none r = disconnect agent r
unregister agent (some writer) r =
    if is_writer writer (lookup agent r.connections) then disconnect agent r else r

-- the end of `_send_to_writer`: the write went through, or the writer is taken away
unfoldable pub sent : Bool → ℕ → ℕ → Router → Router
unfolding unregister
sent through agent writer r = if through then r else unregister agent (some writer) r

-- `route` under the lock: the writer to use, or the message in the mailbox
unfoldable pub route_begin : Message → Router → Option ℕ × Router
unfolding enqueue_locked
route_begin message r =
    if is_some (lookup message.to_agent r.connections)
    then (lookup message.to_agent r.connections, r)
    else (none, enqueue_locked message r)

-- `_requeue_after_send_failure` under the lock: another writer to try, or the message in the mailbox
unfoldable pub requeue_begin : ℕ → Message → ℕ → Router → Option ℕ × Router
unfolding enqueue_locked
requeue_begin agent message failed r =
    if is_some (lookup agent r.connections) && not (is_writer failed (lookup agent r.connections))
    then (lookup agent r.connections, r)
    else (none, enqueue_locked message r)

-- the rest of `_requeue_after_send_failure`, with the outcome of the second write
unfoldable pub requeue_end : Bool → ℕ → Message → ℕ → Router → Router
unfolding sent enqueue_locked
requeue_end through agent message writer r =
    if through then sent true agent writer r else enqueue_locked message (sent false agent writer r)

-- `wait_connected` before it waits
unfoldable pub wait_begin : ℕ → Router → Bool × Router
wait_begin agent r =
    if has agent r.connections
    then (true, r)
    else if has agent r.connected_events
    then (false, r)
    else (false, record r { connected_events = insert agent false r.connected_events })
