-- ===== src/Router/Mailboxes.antt =====
-- Mailboxes: their bound, what becomes of every message that is sent, and the order of receipt.
use agent_runtime.Prelude.Dict.{Dict, lookup-insert, insert}
use agent_runtime.Prelude.{
  inl, false, ◌++◌, [], ◌∷◌, true, inr, refl, ◌≡◌, ℕ, List, ◌<◌, Bool-cases, All, if◌then◌else◌,
  length, arith, ◌==◌, ◌≤◌, ap, ◌+◌, length-append, ==_iff, sym, ◌∙◌,
}
use agent_runtime.Router.Defs.{
  Message, Router, mailbox, dead, enqueue_locked, drop_oldest, make_room, await_ack, is_processed,
  bury, full, append_message, save_message, listed,
}
use mathlib.Core.List.{append_assoc}

listed-insert :
    (k j : ℕ) (v : List Message) (d : Dict (List Message))
    → listed j (insert k v d) ≡ (if k == j then v else listed j d)
listed-insert k j v d = ground (arith, lookup-insert k j v d)

-- No mailbox is longer than the bound, if there is one.
abbrev pub IsBounded : Router → Type 0
IsBounded r = (agent : ℕ) → 0 < r.mailbox_max → length (mailbox agent r) ≤ r.mailbox_max

-- What making room does to a mailbox: nothing, or its oldest message goes to the dead letters.
data Room (agent : ℕ) (r : Router) : Router → Type 0 where
  enough : full r.mailbox_max (mailbox agent r) ≡ false → Room agent r r
  dropped :
      (oldest : Message) (rest : List Message)
      → full r.mailbox_max (mailbox agent r) ≡ true
      → mailbox agent r ≡ oldest ∷ rest
      → Room agent r (bury oldest (record r { mailboxes = insert agent rest r.mailboxes }))

drop_oldest-Room :
    (agent : ℕ) (r : Router) (box : List Message)
    → full r.mailbox_max (mailbox agent r) ≡ true
    → mailbox agent r ≡ box
    → Room agent r (drop_oldest agent box r)
unfolding drop_oldest
drop_oldest-Room agent r [] h e = absurd (ground (arith, ap length e))
drop_oldest-Room agent r (oldest ∷ rest) h e = dropped oldest rest h e

make_room-Room : (agent : ℕ) (r : Router) → Room agent r (make_room agent r)
unfolding make_room
make_room-Room agent r = elim (Bool-cases (full r.mailbox_max (mailbox agent r))) [
  | inl e ↦ rw e (drop_oldest-Room agent r (mailbox agent r) e refl)
  | inr e ↦ rw e (enough e)
]

-- The messages of an agent in the order of their arrival: those dropped, then those that wait.
abbrev pub arrivals : ℕ → Router → List Message
arrivals agent r = dead agent r ++ mailbox agent r

-- Every message in a mailbox is addressed to its agent.
abbrev pub IsAddressed : ℕ → Router → Type 0
IsAddressed agent r = All (λ m. m.to_agent ≡ agent) (mailbox agent r)

put_back : Message → Router → Router
put_back m r = await_ack m (append_message m r)

module _ (m : Message) (r : Router) where
  mailbox-put_back :
      (a : ℕ)
      → mailbox a (put_back m r) ≡ (if m.to_agent == a then mailbox a r ++ m ∷ [] else mailbox a r)
  unfolding put_back await_ack append_message save_message
  mailbox-put_back a =
      ground (arith, listed-insert m.to_agent a (mailbox m.to_agent r ++ m ∷ []) r.mailboxes)

  dead-put_back : (a : ℕ) → dead a (put_back m r) ≡ dead a r
  unfolding put_back await_ack append_message save_message
  dead-put_back a = ground arith

  max-put_back : (put_back m r).mailbox_max ≡ r.mailbox_max
  unfolding put_back await_ack append_message save_message
  max-put_back = ground arith

enqueue_locked-lem :
    (m : Message) (r : Router)
    → is_processed m.to_agent m.message_id r ≡ false
    → enqueue_locked m r ≡ put_back m (make_room m.to_agent r)
unfolding enqueue_locked put_back
enqueue_locked-lem m r h = rw h refl

-- Room keeps the other mailboxes, and leaves its own short enough for one more.
Room-length :
    (agent a : ℕ) {r r' : Router}
    → Room agent r r'
    → IsBounded r
    → 0 < r.mailbox_max
    → (r'.mailbox_max ≡ r.mailbox_max)
      × (length (mailbox a r') + (if agent == a then 1 else 0) ≤ r.mailbox_max)
unfolding bury save_message
Room-length agent a {r = r} (enough e) h p = (refl, ground (arith, h a p))
Room-length agent a {r = r} (dropped oldest rest f e) h p =
    (refl, ground (arith, listed-insert agent a rest r.mailboxes, h a p, h agent p, ap length e))

enqueue_processed :
    (m : Message) (r : Router)
    → is_processed m.to_agent m.message_id r ≡ true
    → enqueue_locked m r ≡ r
unfolding enqueue_locked
enqueue_processed m r h = rw h refl

Room-max : (agent : ℕ) {r r' : Router} → Room agent r r' → r'.mailbox_max ≡ r.mailbox_max
unfolding bury save_message
Room-max agent (enough e) = refl
Room-max agent (dropped oldest rest f e) = refl

put_back-IsBounded :
    (m : Message) {r r' : Router} → Room m.to_agent r r' → IsBounded r → IsBounded (put_back m r')
put_back-IsBounded m {r = r} {r' = r'} room h a p =
    let q : 0 < r.mailbox_max = omega (arith, max-put_back m r', Room-max m.to_agent room) in
    let fits = (Room-length m.to_agent a room h q).1 in
    ground (
      arith,
      mailbox-put_back m r' a,
      max-put_back m r',
      Room-max m.to_agent room,
      fits,
      length-append {0} (mailbox a r') (m ∷ []),
    )

-- A mailbox within the bound stays within it whatever is enqueued.
pub enqueue-IsBounded : (m : Message) (r : Router) → IsBounded r → IsBounded (enqueue_locked m r)
enqueue-IsBounded m r h = elim (Bool-cases (is_processed m.to_agent m.message_id r)) [
  | inl e ↦ rw (enqueue_processed m r e) h
  | inr e ↦ rw (enqueue_locked-lem m r e) (put_back-IsBounded m (make_room-Room m.to_agent r) h)
]

dead-bury :
    (a : ℕ) (m : Message) (r : Router)
    → dead a (bury m r) ≡ (if m.to_agent == a then dead a r ++ m ∷ [] else dead a r)
unfolding bury save_message
dead-bury a m r =
    ground (arith, listed-insert m.to_agent a (dead m.to_agent r ++ m ∷ []) r.dead_letters)

Room-arrivals :
    (agent a : ℕ) {r r' : Router}
    → Room agent r r'
    → IsAddressed agent r
    → arrivals a r' ≡ arrivals a r
unfolding bury save_message
Room-arrivals agent a (enough e) h = refl
Room-arrivals agent a {r = r} (dropped oldest rest f e) h =
    let r' : Router = record r { mailboxes = insert agent rest r.mailboxes } in
    let own : oldest.to_agent ≡ agent = (rw e at h).0 in
    elim (Bool-cases (agent == a)) [
      | inl same ↦
          let there : mailbox a r ≡ oldest ∷ rest =
            ap (λ k. mailbox k r) (sym ((==_iff agent a).0 same)) ∙ e in
          let here : (oldest.to_agent == a) ≡ true = ground arith in
          rw (dead-bury a oldest r', listed-insert agent a rest r.mailboxes, same, here, there)
            (append_assoc (dead a r) (oldest ∷ []) rest)
      | inr other ↦
          let elsewhere : (oldest.to_agent == a) ≡ false = ground arith in
          rw (dead-bury a oldest r', listed-insert agent a rest r.mailboxes, other, elsewhere) refl
    ]

-- A message that was not processed comes last among its agent's arrivals, and no earlier arrival
-- is lost: what leaves a full mailbox is the newest dead letter.
pub arrivals-enqueue :
    (m : Message) (r : Router) (a : ℕ)
    → IsAddressed m.to_agent r
    → is_processed m.to_agent m.message_id r ≡ false
    → arrivals a (enqueue_locked m r)
      ≡ (if m.to_agent == a then arrivals a r ++ m ∷ [] else arrivals a r)
arrivals-enqueue m r a h new =
    let room = make_room-Room m.to_agent r in
    let r' = make_room m.to_agent r in
    rw
      (
        enqueue_locked-lem m r new,
        dead-put_back m r' a,
        mailbox-put_back m r' a,
        ← Room-arrivals m.to_agent a room h,
      )
      (elim (Bool-cases (m.to_agent == a)) [
        | inl e ↦ rw e (sym (append_assoc (dead a r') (mailbox a r') (m ∷ [])))
        | inr e ↦ rw e refl
      ])
