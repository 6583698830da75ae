-- ===== src/Network/Server/Conditions.antt =====
-- WT, SG and BC. Where the lock is on another server, WT releases it through the message handlers
-- and waits for the answer, and SG and BC acquire it in the waiting thread's name.
use csci402_projects.Base.{
  suc, pos, minus_one, int_eq, ◌||◌, if◌then◌else◌, out_of_range, Option, none, some, List, [], ◌∷◌,
  ◌++◌, ok, fault, null_pointer, ◌>>=◌,
}
use csci402_projects.Network.Message.{
  Message, ThreadId, Packet, Delivery, aq, rl, packet, no_owner, mailbox, release_mailbox,
  error_reply, success_reply,
}
use csci402_projects.Network.State.{
  Server, ServerLock, ServerCondition, ready, awaiting_release, Outcome, max_entries, entry_at,
  set_lock, set_condition, client, answer,
}
use csci402_projects.Network.Server.Relay.{fresh_id, own_handler, relay_or_refuse}
use csci402_projects.Network.Server.Locks.{pass_on}

-- The request that the server sends to its own handler for a lock that is elsewhere.
abbrev pub lock_request : Server → Delivery → Message
lock_request s d = record d.body {
  name2 = "Lock";
  index = d.body.index2;
  index2 = minus_one;
  index3 = minus_one;
  id = fresh_id s d;
}

abbrev pub release_request : Server → Delivery → Message
release_request s d = record (lock_request s d) {
  request = rl;
  name = "Release";
  client_machine = pos d.to_machine;
  client_mailbox = release_mailbox;
}

abbrev pub acquire_request : Server → Delivery → ThreadId → Message
acquire_request s d t = record (lock_request s d) {
  request = aq;
  name = "Acquire";
  client_machine = t.machine_id;
  client_mailbox = t.thread_id;
}

-- The lock is on this server: its owner, whoever that is, joins the condition's queue.
unfoldable pub wait_here : Server → Delivery → ServerCondition → ServerLock → Outcome
unfolding pass_on
wait_here s d c l =
    let s₁ = set_condition s d.body.index (record c { queue = c.queue ++ (l.owner ∷ []) }) in
    let l₁ = record l { owner = no_owner } in
    pass_on (set_lock s₁ d.body.index2 l₁) d.body.index2 l₁ l.queue

-- The lock is elsewhere: ask for its release, and wait for the answer.
unfoldable pub wait_remote : Server → Delivery → Outcome
wait_remote s d = ok (
  record s { ider = suc s.ider; mode = awaiting_release d },
  record { to = own_handler d; from_box = some release_mailbox; body = release_request s d } ∷ [],
)

unfoldable pub wait_entry : Server → Delivery → ServerCondition → Outcome
unfolding wait_here wait_remote
wait_entry s d c =
    if out_of_range max_entries d.body.index
    then answer s (client d) error_reply
    else if out_of_range max_entries d.body.index2
    then answer s (client d) error_reply
    else if c.deleted || c.to_be_deleted
    then answer s (client d) error_reply
    else (entry_at s.locks d.body.index2 >>= λ l. elim l.name [
      | none ↦ wait_remote s d
      | some _ ↦ wait_here s d c l
    ])

unfoldable pub wait : Server → Delivery → Outcome
unfolding wait_entry relay_or_refuse
wait s d = do
  c ← entry_at s.conditions d.body.index
  elim c.name [ none ↦ relay_or_refuse s d | some _ ↦ wait_entry s d c ]

-- The answer at mailbox 9: only now does the client join the queue.
unfoldable pub released : Server → Delivery → Message → Outcome
released s d m =
    if int_eq m.index minus_one
    then answer (record s { mode = ready }) (client d) error_reply
    else (entry_at s.conditions d.body.index >>= λ c. ok (
      set_condition (record s { mode = ready }) d.body.index
          (record c { queue = c.queue ++ (client d ∷ []) }),
      [],
    ))

-- `Remove` gives a null pointer on an empty queue, and `Append` takes it.
unfoldable pub signal_here :
    Server → Delivery → ServerCondition → ServerLock → List ThreadId → Outcome
signal_here s d c l [] =
    answer (set_lock s d.body.index2 (record l { queue = l.queue ++ (none ∷ []) })) (client d)
      success_reply
signal_here s d c l (t ∷ rest) =
    answer
      (set_lock (set_condition s d.body.index (record c { queue = rest })) d.body.index2
        (record l { queue = l.queue ++ (some t ∷ []) }))
      (client d) success_reply

-- `getFirst` reads through the null head of an empty queue.
unfoldable pub signal_remote : Server → Delivery → ServerCondition → List ThreadId → Outcome
signal_remote s d c [] = fault null_pointer
signal_remote s d c (t ∷ rest) = ok (
  record (set_condition s d.body.index (record c { queue = rest })) { ider = suc s.ider },
  record { to = own_handler d; from_box = some mailbox; body = acquire_request s d t }
      ∷ packet (client d) success_reply
      ∷ [],
)

unfoldable pub signal_entry : Server → Delivery → ServerCondition → Outcome
unfolding signal_here signal_remote
signal_entry s d c =
    if out_of_range max_entries d.body.index
    then answer s (client d) error_reply
    else if out_of_range max_entries d.body.index2
    then answer s (client d) error_reply
    else if c.deleted || c.to_be_deleted
    then answer s (client d) error_reply
    else (entry_at s.locks d.body.index2 >>= λ l. elim l.name [
      | none ↦ signal_remote s d c c.queue
      | some _ ↦ signal_here s d c l c.queue
    ])

unfoldable pub signal : Server → Delivery → Outcome
unfolding signal_entry relay_or_refuse
signal s d = do
  c ← entry_at s.conditions d.body.index
  elim c.name [ none ↦ relay_or_refuse s d | some _ ↦ signal_entry s d c ]

-- The loop that moves every waiting thread to the lock's queue.
unfoldable pub move_all : List ThreadId → List (Option ThreadId) → List (Option ThreadId)
move_all [] queue = queue
move_all (t ∷ rest) queue = move_all rest (queue ++ (some t ∷ []))

unfoldable pub broadcast_here : Server → Delivery → ServerCondition → ServerLock → Outcome
unfolding move_all
broadcast_here s d c l =
    answer
      (set_lock (set_condition s d.body.index (record c { queue = [] })) d.body.index2
        (record l { queue = move_all c.queue l.queue }))
      (client d) success_reply

-- The loop that sends one request for each waiting thread, counting `IDer` up.
unfoldable pub acquire_for_all : Server → Delivery → List ThreadId → Server × List Packet
acquire_for_all s d [] = (s, [])
acquire_for_all s d (t ∷ rest) =
    let r = acquire_for_all (record s { ider = suc s.ider }) d rest in
    (
      r.0,
      record { to = own_handler d; from_box = some mailbox; body = acquire_request s d t } ∷ r.1,
    )

unfoldable pub broadcast_remote : Server → Delivery → ServerCondition → Outcome
unfolding acquire_for_all
broadcast_remote s d c =
    let r = acquire_for_all (set_condition s d.body.index (record c { queue = [] })) d c.queue in
    ok (r.0, r.1 ++ (packet (client d) success_reply ∷ []))

unfoldable pub broadcast_entry : Server → Delivery → ServerCondition → Outcome
unfolding broadcast_here broadcast_remote
broadcast_entry s d c =
    if out_of_range max_entries d.body.index
    then answer s (client d) error_reply
    else if out_of_range max_entries d.body.index2
    then answer s (client d) error_reply
    else if c.deleted || c.to_be_deleted
    then answer s (client d) error_reply
    else (entry_at s.locks d.body.index2 >>= λ l. elim l.name [
      | none ↦ broadcast_remote s d c
      | some _ ↦ broadcast_here s d c l
    ])

unfoldable pub broadcast : Server → Delivery → Outcome
unfolding broadcast_entry relay_or_refuse
broadcast s d = do
  c ← entry_at s.conditions d.body.index
  elim c.name [ none ↦ relay_or_refuse s d | some _ ↦ broadcast_entry s d c ]
