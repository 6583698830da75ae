-- ===== src/Network/Voting.antt =====
-- How the message handler counts the answers of the other servers.
use csci402_projects.Base.{
  ℕ, suc, ◌+◌, ◌<◌, ◌≡◌, refl, sym, ok, ◌>>=◌, arith, List, [], ◌∷◌, ◌++◌, map, length, Bool, true,
  false, if◌then◌else◌, ◌==◌, ℤ, int_eq, int_eq_iff, subst, some,
}
use csci402_projects.Network.Message.{
  Delivery, Packet, release_mailbox, message_mailbox, named_client, error_reply,
}
use csci402_projects.Network.Handler.{
  Handler, HandlerOutcome, InProgress, increment_yes_replies, increment_no_replies, nobody_has,
  reply_yes, reply_no, to_own_server,
}

-- One answer: yes or no, and the message that carries it.
abbrev pub reply : Handler → Bool × Delivery → HandlerOutcome
reply h (true, d) = reply_yes h d
reply h (false, d) = reply_no h d

-- A sequence of answers, with all packets that they cause.
pub replies : Handler → List (Bool × Delivery) → HandlerOutcome
replies h [] = ok (h, [])
replies h (r ∷ rs) = do
  first ← reply h r
  later ← replies first.0 rs
  ok (later.0, first.1 ++ later.1)

abbrev pub yeses : List (Bool × Delivery) → ℕ
yeses [] = 0
yeses ((true, d) ∷ rs) = suc (yeses rs)
yeses ((false, d) ∷ rs) = yeses rs

-- Every answer is for message `id` and reaches machine `m`.
abbrev pub AllFor : ℕ → ℤ → List (Bool × Delivery) → Type 0
AllFor m id [] = Unit
AllFor m id ((b, d) ∷ rs) = ((d.to_machine ≡ m) × (d.body.id ≡ id)) × AllFor m id rs

-- No message in the list has the number `id`.
abbrev pub NoneHas : ℤ → List InProgress → Type 0
NoneHas id [] = Unit
NoneHas id (p ∷ ps) = (int_eq p.message.id id ≡ false) × NoneHas id ps

increment_no-others :
    (id : ℤ) (ps : List InProgress) → NoneHas id ps → map (increment_no_replies id) ps ≡ ps
unfolding increment_no_replies
increment_no-others id [] h = refl
increment_no-others id (p ∷ ps) h = ground (arith, increment_no-others id ps h.1)

increment_yes-others :
    (id : ℤ) (ps : List InProgress) → NoneHas id ps → map (increment_yes_replies id) ps ≡ ps
unfolding increment_yes_replies
increment_yes-others id [] h = refl
increment_yes-others id (p ∷ ps) h = ground (arith, increment_yes-others id ps h.1)

abbrev pub counted : Bool → InProgress → InProgress
counted true p = record p { yes_replies = suc p.yes_replies }
counted false p = record p { no_replies = suc p.no_replies }

abbrev front : Handler → InProgress → List InProgress → Handler
front h p ps = record h { in_progress = p ∷ ps }

-- An answer that is not the last: the front message counts it and stays.
reply_more :
    (h : Handler) (p : InProgress) (ps : List InProgress) (b : Bool) (d : Delivery)
    → int_eq p.message.id d.body.id ≡ true
    → NoneHas d.body.id ps
    → p.yes_replies + p.no_replies + 2 < h.num_servers
    → reply (front h p ps) (b, d) ≡ ok (front h (counted b p) ps, [])
unfolding reply_yes reply_no
reply_more h p ps true d e others more = ground (arith, increment_yes-others d.body.id ps others)
reply_more h p ps false d e others more = ground (arith, increment_no-others d.body.id ps others)

-- The message that carries the last of the answers.
abbrev pub last_answer : Bool × Delivery → List (Bool × Delivery) → Delivery
last_answer (b, d) [] = d
last_answer r (q ∷ rs) = last_answer q rs

-- Where a message goes that no server has: back to the server on machine `m`, but if the last answer
-- names a client with mailbox 9, then an error goes to that client instead.
abbrev pub gone_to : ℕ → InProgress → Delivery → Packet
gone_to m p last =
    if int_eq last.body.client_mailbox release_mailbox
    then record { to = named_client last.body; from_box = some message_mailbox; body = error_reply }
    else to_own_server m p.message

-- The last answer: the front message goes, and on if nobody said yes.
reply_last :
    (h : Handler) (p : InProgress) (ps : List InProgress) (b : Bool) (d : Delivery)
    → int_eq p.message.id d.body.id ≡ true
    → NoneHas d.body.id ps
    → p.yes_replies + p.no_replies + 2 ≡ h.num_servers
    → reply (front h p ps) (b, d)
      ≡ ok (
        record h { in_progress = ps },
        if (counted b p).yes_replies == 0 then gone_to d.to_machine p d ∷ [] else [],
      )
unfolding reply_yes reply_no nobody_has
reply_last h p ps true d e others last = ground (arith, increment_yes-others d.body.id ps others)
reply_last h p ps false d e others last = ground (arith, increment_no-others d.body.id ps others)

-- What was sent when `y` answers were yes.
abbrev pub verdict : ℕ → InProgress → ℕ → Delivery → List Packet
verdict m p y last = if y == 0 then gone_to m p last ∷ [] else []

-- Let message p stand at the front of the list, with as many answers to come as are missing, and let
-- those answers, one at least, come in any order, and no other message have its number. After the
-- last of them p has left the list and the others stand as before. If an answer was yes, nothing was
-- sent. If none was, one packet was sent: p went back to its own server, but if the last answer names
-- a client with mailbox 9, an error went to that client and p is gone.
pub replies-verdict :
    (h : Handler) (p : InProgress) (ps : List InProgress) (m : ℕ) (r : Bool × Delivery)
    (rs : List (Bool × Delivery))
    → AllFor m p.message.id (r ∷ rs)
    → NoneHas p.message.id ps
    → p.yes_replies + p.no_replies + length (r ∷ rs) + 1 ≡ h.num_servers
    → replies (record h { in_progress = p ∷ ps }) (r ∷ rs)
      ≡ ok (
        record h { in_progress = ps },
        verdict m p (p.yes_replies + yeses (r ∷ rs)) (last_answer r rs),
      )
unfolding replies
replies-verdict h p ps m (true, d) [] ((own, same), _) others count =
    rw
      (
        reply_last h p ps true d ((int_eq_iff _ _).1 (sym same))
            (subst (λ i. NoneHas i ps) (sym same) others) (omega arith),
        own,
      )
      (ground arith)
replies-verdict h p ps m (false, d) [] ((own, same), _) others count =
    rw
      (
        reply_last h p ps false d ((int_eq_iff _ _).1 (sym same))
            (subst (λ i. NoneHas i ps) (sym same) others) (omega arith),
        own,
      )
      (ground arith)
replies-verdict h p ps m (true, d) (r ∷ rs) ((own, same), all) others count =
    rw
      (
        reply_more h p ps true d ((int_eq_iff _ _).1 (sym same))
            (subst (λ i. NoneHas i ps) (sym same) others) (omega arith),
        replies-verdict h (counted true p) ps m r rs all others (omega arith),
      )
      (ground arith)
replies-verdict h p ps m (false, d) (r ∷ rs) ((own, same), all) others count =
    rw
      (
        reply_more h p ps false d ((int_eq_iff _ _).1 (sym same))
            (subst (λ i. NoneHas i ps) (sym same) others) (omega arith),
        replies-verdict h (counted false p) ps m r rs all others (omega arith),
      )
      (ground arith)
