-- ===== src/Network/Handler.antt =====
-- `MessageHandler` in network/nettest.cc: it asks the other servers whether they have the object that
-- a request names, counts their answers, and gives the request back to its own server if none has it.
-- It reads the server's tables and does not write them.
use csci402_projects.Base.{
  ℕ, zero, suc, ◌+◌, ℤ, pos, minus_one, int_eq, Bool, true, false, ◌&&◌, if◌then◌else◌, ◌==◌,
  Option, none, some, List, [], ◌∷◌, ◌++◌, map, Result, ok, ◌>>=◌, String,
}
use csci402_projects.Network.Message.{
  Message, Request, Packet, Delivery, aq, rl, wt, sg, bc, cl, dl, cc_code, dc, cm, dm, gm, sm, hi,
  ys, no_reply, other, sender, named_client, mailbox, message_mailbox, release_mailbox, error_reply,
}
use csci402_projects.Network.State.{
  Server, entry_at, find_lock_by_name, find_condition_by_name, find_monitor_variable_by_name,
}

pub record InProgress : Type 0 where
  pub message : Message
  pub yes_replies : ℕ
  pub no_replies : ℕ

-- `inProgressMessages`, and `numServers` from the command line (from 1 to 5).
pub record Handler : Type 0 where
  pub in_progress : List InProgress
  pub num_servers : ℕ

abbrev pub HandlerOutcome : Type 0
HandlerOutcome = Result (Handler × List Packet)

abbrev pub to_own_server : ℕ → Message → Packet
to_own_server self m = record {
  to = record { machine_id = pos self; thread_id = mailbox };
  from_box = some message_mailbox;
  body = m;
}

abbrev pub to_handler : ℕ → Message → Packet
to_handler machine m = record {
  to = record { machine_id = pos machine; thread_id = message_mailbox };
  from_box = some message_mailbox;
  body = m;
}

-- The loop over the servers from number `i`, which skips the handler's own.
unfoldable pub ask_others : ℕ → Message → ℕ → ℕ → List Packet
ask_others self m i zero = []
ask_others self m i (suc left) =
    let rest = ask_others self m (suc i) left in if i == self then rest else to_handler i m ∷ rest

-- With one server the front of the list goes straight back to it.
unfoldable pub hand_back_front : Handler → ℕ → List InProgress → HandlerOutcome
hand_back_front h self [] = ok (h, [])
hand_back_front h self (p ∷ rest) =
    ok (record h { in_progress = rest }, to_own_server self p.message ∷ [])

unfoldable pub from_own_server : Handler → Delivery → HandlerOutcome
unfolding hand_back_front ask_others
from_own_server h d =
    let entry : InProgress = record { message = d.body; yes_replies = 0; no_replies = 0 } in
    let pending = h.in_progress ++ (entry ∷ []) in
    if h.num_servers == 1
    then hand_back_front (record h { in_progress = pending }) d.to_machine pending
    else ok (record h { in_progress = pending }, ask_others d.to_machine d.body 0 h.num_servers)

-- The index at which the object should be: for a creation, where its name is found.
abbrev pub to_index : Option ℕ → ℤ
to_index none = minus_one
to_index (some i) = pos i

-- The reply to the handler that asked.
abbrev pub vote : Delivery → Request → Packet
vote d r = record {
  to = sender d;
  from_box = some message_mailbox;
  body = record d.body { request = r };
}

-- The object is here if its entry has a name; then the request also goes to this server.
abbrev pub vote_by_name : Handler → Delivery → Option String → HandlerOutcome
vote_by_name h d none = ok (h, vote d no_reply ∷ [])
vote_by_name h d (some _) = ok (h, to_own_server d.to_machine d.body ∷ vote d ys ∷ [])

-- A creation that is not found is answered before the table is read.
unfoldable pub vote_at : Handler → Delivery → (ℕ → Option String) → Bool → ℤ → HandlerOutcome
vote_at h d names creation i =
    if int_eq i minus_one && creation
    then ok (h, vote d no_reply ∷ [])
    else (entry_at names i >>= vote_by_name h d)

unfoldable pub vote_lock : Server → Handler → Delivery → HandlerOutcome
unfolding vote_at
vote_lock s h d = vote_at h d (λ i. (s.locks i).name) false d.body.index

unfoldable pub vote_create_lock : Server → Handler → Delivery → HandlerOutcome
unfolding vote_at
vote_create_lock s h d = do
  found ← find_lock_by_name s d.body.name d.to_machine
  vote_at h d (λ i. (s.locks i).name) true (to_index found)

unfoldable pub vote_condition : Server → Handler → Delivery → HandlerOutcome
unfolding vote_at
vote_condition s h d = vote_at h d (λ i. (s.conditions i).name) false d.body.index

unfoldable pub vote_create_condition : Server → Handler → Delivery → HandlerOutcome
unfolding vote_at
vote_create_condition s h d = do
  found ← find_condition_by_name s d.body.name d.to_machine
  vote_at h d (λ i. (s.conditions i).name) true (to_index found)

unfoldable pub vote_variable : Server → Handler → Delivery → HandlerOutcome
unfolding vote_at
vote_variable s h d = vote_at h d (λ i. (s.variables i).name) false d.body.index

unfoldable pub vote_create_variable : Server → Handler → Delivery → HandlerOutcome
unfolding vote_at
vote_create_variable s h d = do
  found ← find_monitor_variable_by_name s d.body.name d.to_machine
  vote_at h d (λ i. (s.variables i).name) true (to_index found)

unfoldable pub increment_yes_replies : ℤ → InProgress → InProgress
increment_yes_replies id p =
    if int_eq p.message.id id then record p { yes_replies = suc p.yes_replies } else p

unfoldable pub increment_no_replies : ℤ → InProgress → InProgress
increment_no_replies id p =
    if int_eq p.message.id id then record p { no_replies = suc p.no_replies } else p

-- A message that no other server has: an error for a release that the server itself made, and
-- otherwise back to its own server.
unfoldable pub nobody_has : Delivery → InProgress → Packet
nobody_has d p =
    if int_eq d.body.client_mailbox release_mailbox
    then record { to = named_client d.body; from_box = some message_mailbox; body = error_reply }
    else to_own_server d.to_machine p.message

-- The front message alone is looked at, whichever message the reply was for.
unfoldable pub settle_front : Handler → Delivery → List InProgress → HandlerOutcome
unfolding nobody_has
settle_front h d [] = ok (record h { in_progress = [] }, [])
settle_front h d (p ∷ rest) =
    if p.yes_replies + p.no_replies + 1 == h.num_servers
    then (if p.yes_replies == 1
        then ok (record h { in_progress = rest }, [])
        else if p.no_replies + 1 == h.num_servers
        then ok (record h { in_progress = rest }, nobody_has d p ∷ [])
        else ok (record h { in_progress = rest }, []))
    else ok (record h { in_progress = p ∷ rest }, [])

unfoldable pub reply_yes : Handler → Delivery → HandlerOutcome
unfolding increment_yes_replies settle_front
reply_yes h d = settle_front h d (map (increment_yes_replies d.body.id) h.in_progress)

unfoldable pub reply_no : Handler → Delivery → HandlerOutcome
unfolding increment_no_replies settle_front
reply_no h d = settle_front h d (map (increment_no_replies d.body.id) h.in_progress)

-- A message from another handler, by its code; an illegal code is dropped.
unfoldable pub from_other_handler : Request → Server → Handler → Delivery → HandlerOutcome
from_other_handler cl s h d = vote_create_lock s h d
from_other_handler dl s h d = vote_lock s h d
from_other_handler rl s h d = vote_lock s h d
from_other_handler aq s h d = vote_lock s h d
from_other_handler cc_code s h d = vote_create_condition s h d
from_other_handler dc s h d = vote_condition s h d
from_other_handler wt s h d = vote_condition s h d
from_other_handler sg s h d = vote_condition s h d
from_other_handler bc s h d = vote_condition s h d
from_other_handler cm s h d = vote_create_variable s h d
from_other_handler dm s h d = vote_variable s h d
from_other_handler gm s h d = vote_variable s h d
from_other_handler sm s h d = vote_variable s h d
from_other_handler no_reply s h d = reply_no h d
from_other_handler ys s h d = reply_yes h d
from_other_handler hi s h d = ok (h, [])
from_other_handler other s h d = ok (h, [])

-- The body of the handler's loop.
unfoldable pub handle : Server → Handler → Delivery → HandlerOutcome
unfolding from_own_server from_other_handler
handle s h d =
    if int_eq d.from_machine (pos d.to_machine)
    then from_own_server h d
    else from_other_handler d.body.request s h d
