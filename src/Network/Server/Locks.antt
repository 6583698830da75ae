-- ===== src/Network/Server/Locks.antt =====
-- AQ and RL.
use csci402_projects.Base.{
  ℤ, minus_one, int_eq, Bool, not, ◌&&◌, ◌||◌, if◌then◌else◌, out_of_range, Option, none, some,
  List, [], ◌∷◌, ◌++◌, is_empty, ok, fault, null_pointer, ◌>>=◌,
}
use csci402_projects.Network.Message.{
  ThreadId, Delivery, equals, no_owner, packet, sender, named_client, release_mailbox, error_reply,
  success_reply,
}
use csci402_projects.Network.State.{
  Server, ServerLock, Outcome, max_entries, entry_at, set_lock, client, answer,
}
use csci402_projects.Network.Server.Relay.{relay_or_refuse}

-- Is the owner the sender, or the client that a handler names?
abbrev pub is_owner : Delivery → ServerLock → Bool
is_owner d l =
    equals l.owner (sender d)
    || (equals l.owner (named_client d.body) && not (int_eq d.body.client_machine minus_one))

unfoldable pub acquire_entry : Server → Delivery → ServerLock → Outcome
acquire_entry s d l =
    if out_of_range max_entries d.body.index
    then answer s (sender d) error_reply
    else if l.deleted || l.to_be_deleted
    then answer s (client d) error_reply
    else if is_empty l.queue && equals l.owner no_owner
    then answer (set_lock s d.body.index (record l { owner = client d })) (client d) success_reply
    else if is_owner d l
    then answer s (client d) error_reply
    else ok (set_lock s d.body.index (record l { queue = l.queue ++ (some (client d) ∷ []) }), [])

unfoldable pub acquire : Server → Delivery → Outcome
unfolding acquire_entry relay_or_refuse
acquire s d = do
  l ← entry_at s.locks d.body.index
  elim l.name [ none ↦ relay_or_refuse s d | some _ ↦ acquire_entry s d l ]

-- The lock passes to the thread that has waited longest; `id->machineID` reads through the pointer.
unfoldable pub pass_on : Server → ℤ → ServerLock → List (Option ThreadId) → Outcome
pass_on s i l [] = ok (s, [])
pass_on s i l (none ∷ rest) = fault null_pointer
pass_on s i l (some t ∷ rest) =
    answer (set_lock s i (record l { owner = t; queue = rest })) t success_reply

-- The owner is cleared and told so, and then the lock is passed on, or deleted if that is due.
unfoldable pub give_up : Server → Delivery → ServerLock → List (Option ThreadId) → Outcome
unfolding pass_on
give_up s d l [] =
    answer
      (set_lock s d.body.index
        (record l { owner = no_owner; deleted = l.deleted || l.to_be_deleted }))
      (client d) success_reply
give_up s d l (w ∷ rest) = do
  r ← pass_on s d.body.index l (w ∷ rest)
  ok (r.0, packet (client d) success_reply ∷ r.1)

unfoldable pub release_entry : Server → Delivery → ServerLock → Outcome
unfolding give_up
release_entry s d l =
    if out_of_range max_entries d.body.index
    then answer s (client d) error_reply
    else if l.deleted
    then answer s (client d) error_reply
    else if is_owner d l
        || int_eq d.from_box release_mailbox
        || int_eq d.body.client_mailbox release_mailbox
    then give_up s d l l.queue
    else answer s (client d) error_reply

unfoldable pub release : Server → Delivery → Outcome
unfolding release_entry relay_or_refuse
release s d = do
  l ← entry_at s.locks d.body.index
  elim l.name [ none ↦ relay_or_refuse s d | some _ ↦ release_entry s d l ]
