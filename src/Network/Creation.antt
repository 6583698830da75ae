-- ===== src/Network/Creation.antt =====
-- The whole way of a request for a new lock: from the client to its server, to the message handler, to
-- the other servers, and back.
use csci402_projects.Base.{
  ℕ, suc, ◌+◌, ◌<◌, ◌≡◌, ◌≢◌, refl, ◌∙◌, ap, Option, none, some, ok, arith, List, [], ◌∷◌, length,
  Bool, false, pos, minus_one, String, ◌==◌, update, len, int_eq,
}
use csci402_projects.Network.Message.{Delivery, cl, sender, index_reply, release_mailbox}
use csci402_projects.Network.State.{
  Server, blank_lock, base, max_entries, name_size, answer, find_lock_by_name,
  construct_server_lock,
}
use csci402_projects.Network.Names.{Found, find-IsTable}
use csci402_projects.Network.Invariant.{Tables}
use csci402_projects.Network.Handler.{
  Handler, InProgress, handle, from_own_server, ask_others, to_own_server,
}
use csci402_projects.Network.Voting.{replies, replies-verdict, AllFor, yeses, last_answer}
use csci402_projects.Network.Server.Relay.{relay, stamped, own_handler, fresh_id}
use csci402_projects.Network.Server.Create.{create_lock, new_lock}
use csci402_projects.Network.Server.Dispatch.{serve}

-- The state after the request was passed to the handler.
abbrev pub asked : Server → Server
asked s = record s { ider = suc s.ider }

-- What the handler keeps of it.
abbrev pub pending : Server → Delivery → InProgress
pending s d = record { message = stamped s d; yes_replies = 0; no_replies = 0 }

abbrev pub Unknown : Server → String → Type 0
Unknown s a = (j : ℕ) → (s.locks j).name ≢ some a

find_lock-Unknown :
    (s : Server) (a : String) (m : ℕ) → Tables m s → Unknown s a → find_lock_by_name s a m ≡ ok none
unfolding find_lock_by_name
find_lock-Unknown s a m v unknown =
    let (r, e, hit) = find-IsTable (λ i. (s.locks i).name) a (base m) s.num_locks v.locks in
    e ∙ ap ok (nothing r hit)
  where
    nothing : (r : Option ℕ) → Found (λ i. (s.locks i).name) a (base m) s.num_locks r → r ≡ none
    nothing none hit = refl
    nothing (some j) hit = absurd (unknown j hit.2)

-- The server does not know the lock, and passes the request on.
passed_on :
    (s : Server) (d : Delivery)
    → Tables d.to_machine s
    → d.body.request ≡ cl
    → d.body.id ≡ minus_one
    → Unknown s d.body.name
    → serve s d ≡ answer (asked s) (own_handler d) (stamped s d)
unfolding serve create_lock relay
passed_on s d v asks new unknown =
    rw (asks, find_lock-Unknown s d.body.name d.to_machine v unknown, new) refl

-- The handler has nothing else to do, and asks the other servers.
others_asked :
    (h : Handler) (s : Server) (d k : Delivery)
    → k.from_machine ≡ pos d.to_machine
    → k.to_machine ≡ d.to_machine
    → k.body ≡ stamped s d
    → (h.num_servers == 1) ≡ false
    → handle (asked s) (record h { in_progress = [] }) k
      ≡ ok (
        record h { in_progress = pending s d ∷ [] },
        ask_others d.to_machine (stamped s d) 0 h.num_servers,
      )
unfolding handle from_own_server
others_asked h s d k own here carries servers = ground arith

-- It comes back, and the lock is made.
made_at_last :
    (s u : Server) (d e : Delivery)
    → Tables d.to_machine u
    → d.body.request ≡ cl
    → Unknown u d.body.name
    → base d.to_machine + u.num_locks < max_entries
    → len d.body.name < name_size
    → e.to_machine ≡ d.to_machine
    → e.body ≡ stamped s d
    → (t : Server) × (serve u e
        ≡ answer t (sender d) (index_reply (pos (base d.to_machine + u.num_locks))))
      × ((t.locks (base d.to_machine + u.num_locks)).name ≡ some d.body.name)
unfolding serve create_lock new_lock construct_server_lock
made_at_last s u d e v asks unknown room short here carries = (
  made,
  rw (carries, here, asks, find_lock-Unknown u d.body.name d.to_machine v unknown) (ground arith),
  ground arith,
)
  where
    made : Server
    made = record u {
      locks =
          update u.locks (base d.to_machine + u.num_locks)
            (record blank_lock { name = some d.body.name });
      num_locks = suc u.num_locks;
    }

-- Every other server answers once, and has no such object.
abbrev pub AllRefuse :
    Server → Handler → Delivery → Bool × Delivery → List (Bool × Delivery) → Type 0
AllRefuse s h d r rs =
    AllFor d.to_machine (fresh_id s d) (r ∷ rs)
    × (yeses (r ∷ rs) ≡ 0)
    × (suc (length (r ∷ rs)) ≡ h.num_servers)

refused :
    (s : Server) (h : Handler) (d : Delivery) (r : Bool × Delivery) (rs : List (Bool × Delivery))
    → AllRefuse s h d r rs
    → (last_answer r rs).body.client_mailbox ≡ d.from_box
    → int_eq d.from_box release_mailbox ≡ false
    → replies (record h { in_progress = pending s d ∷ [] }) (r ∷ rs)
      ≡ ok (record h { in_progress = [] }, to_own_server d.to_machine (stamped s d) ∷ [])
refused s h d r rs (all, none_has, count) named mailbox =
    replies-verdict h (pending s d) [] d.to_machine r rs all tt (omega arith)
    ∙ rw (none_has, named, mailbox) refl

-- A client asks its server for a lock of a name that no entry has. Then the server passes the request
-- on to its handler (delivery k), and the handler, with nothing else in progress, asks all others.
-- If these all answer no, in any order, the last of them names the mailbox of the client, and that
-- mailbox is not 9, then the handler gives the request back, and when the server takes it (delivery
-- e), in any state whose tables are in order and have room and still lack the name, and the name is
-- shorter than 20 bytes, it makes a lock of the name and sends its index to the client.
pub create_lock-everywhere :
    (s u : Server) (h : Handler) (d k e : Delivery) (r : Bool × Delivery)
    (rs : List (Bool × Delivery))
    → Tables d.to_machine s
    → Tables d.to_machine u
    → Unknown s d.body.name
    → Unknown u d.body.name
    → base d.to_machine + u.num_locks < max_entries
    → d.body.request ≡ cl
    → d.body.id ≡ minus_one
    → len d.body.name < name_size
    → AllRefuse s h d r rs
    → (last_answer r rs).body.client_mailbox ≡ d.from_box
    → int_eq d.from_box release_mailbox ≡ false
    → (k.from_machine ≡ pos d.to_machine) × (k.to_machine ≡ d.to_machine) × (k.body ≡ stamped s d)
    → (e.to_machine ≡ d.to_machine) × (e.body ≡ stamped s d)
    → (serve s d ≡ answer (asked s) (own_handler d) (stamped s d))
      × (handle (asked s) (record h { in_progress = [] }) k
          ≡ ok (
            record h { in_progress = pending s d ∷ [] },
            ask_others d.to_machine (stamped s d) 0 h.num_servers,
          ))
      × (replies (record h { in_progress = pending s d ∷ [] }) (r ∷ rs)
          ≡ ok (record h { in_progress = [] }, to_own_server d.to_machine (stamped s d) ∷ []))
      × ((t : Server) × (serve u e
            ≡ answer t (sender d) (index_reply (pos (base d.to_machine + u.num_locks))))
          × ((t.locks (base d.to_machine + u.num_locks)).name ≡ some d.body.name))
create_lock-everywhere s u h d k e r rs v w unknown unknown' room asks new short all named mailbox
      (own, here, carries) (back, carries') =
    (
      passed_on s d v asks new unknown,
      others_asked h s d k own here carries (ground (arith, all.2)),
      refused s h d r rs all named mailbox,
      made_at_last s u d e w asks unknown' room short back carries',
    )
