-- ===== src/Network/Stuck.antt =====
-- A lock that nobody owns while threads stand in its queue, and how it comes to be.
use csci402_projects.Base.{
  ℕ, ◌+◌, ◌≡◌, ◌≢◌, refl, inr, false, ok, String, some, pos, arith, List, [], ◌∷◌, is_empty, int_eq,
  ◌++◌, pos_part, update,
}
use csci402_projects.Network.Keeps.{acquire_for_all-state}
use csci402_projects.Network.Line.{move_all-append}
use csci402_projects.Network.Message.{
  Request, Delivery, ThreadId, aq, rl, wt, sg, bc, cl, dl, cc_code, dc, cm, dm, gm, sm, no_owner,
  equals, release_mailbox, success_reply, sender,
}
use csci402_projects.Network.State.{
  Server, ServerLock, base, client, answer, construct_server_lock, construct_server_condition,
  construct_monitor_variable, set_condition,
}
use csci402_projects.Network.Ensures.{Ensures}
use csci402_projects.Network.Invariant.{Tables}
use csci402_projects.Network.NullSignal.{LiveCondition, LiveLock}
use csci402_projects.Network.Server.Relay.{relay}
use csci402_projects.Network.Server.Locks.{acquire, release, is_owner}
use csci402_projects.Network.Server.Conditions.{wait, signal, broadcast}
use csci402_projects.Network.Server.Create.{create_lock, create_condition, create_variable}
use csci402_projects.Network.Server.Destroy.{destroy_lock, destroy_condition, destroy_variable}
use csci402_projects.Network.Server.Variables.{get_variable, set_array_value}
use csci402_projects.Network.Server.Dispatch.{dispatch, serve}

abbrev pub Stuck : ℕ → Server → Type 0
Stuck j s = ((s.locks j).owner ≡ no_owner) × (is_empty (s.locks j).queue ≡ false)

-- The request has a sender, and neither the mailbox that it comes from nor that of the client is 9: the
-- releases that a server makes for a WT have that mailbox, and so has the tenth thread that user
-- programs start on a machine.
abbrev NotBoxNine : Delivery → Type 0
NotBoxNine d =
    (equals no_owner (sender d) ≡ false)
    × (int_eq d.from_box release_mailbox ≡ false)
    × (int_eq d.body.client_mailbox release_mailbox ≡ false)

-- No thread owns a lock without an owner.
is_owner-no_owner :
    (l : ServerLock) (d : Delivery) → l.owner ≡ no_owner → NotBoxNine d → is_owner d l ≡ false
unfolding equals
is_owner-no_owner l d free (sent, box, named) = rw (free, sent) (ground arith)

module _ (s : Server) (d : Delivery) (j : ℕ) (stuck : Stuck j s) where
  acquire-Stuck : Ensures (Stuck j) (acquire s d)
  unfolding acquire
  acquire-Stuck = ground arith

  release-Stuck : NotBoxNine d → Ensures (Stuck j) (release s d)
  unfolding release
  release-Stuck from = ground (arith, is_owner-no_owner (s.locks j) d stuck.0 from)

  signal-Stuck : Ensures (Stuck j) (signal s d)
  unfolding signal
  signal-Stuck = ground arith

  broadcast-Stuck : Ensures (Stuck j) (broadcast s d)
  unfolding broadcast
  broadcast-Stuck =
      let c = s.conditions (pos_part d.body.index) in
      ground (
        arith,
        move_all-append c.queue (s.locks (pos_part d.body.index2)).queue,
        acquire_for_all-state (set_condition s d.body.index (record c { queue = [] })) d c.queue,
      )

  create_lock-Stuck :
      (a : String)
      → Tables d.to_machine s
      → (s.locks j).name ≡ some a
      → Ensures (Stuck j) (create_lock s d)
  unfolding create_lock relay construct_server_lock
  create_lock-Stuck a v made =
      ground (arith, v.locks.unnamed (base d.to_machine + s.num_locks) (inr (omega arith)))

  create_condition-Stuck : Ensures (Stuck j) (create_condition s d)
  unfolding create_condition relay construct_server_condition
  create_condition-Stuck = ground arith

  create_variable-Stuck : Ensures (Stuck j) (create_variable s d)
  unfolding create_variable relay construct_monitor_variable
  create_variable-Stuck = ground arith

  destroy_lock-Stuck : Ensures (Stuck j) (destroy_lock s d)
  unfolding destroy_lock
  destroy_lock-Stuck = ground arith

  destroy_condition-Stuck : Ensures (Stuck j) (destroy_condition s d)
  unfolding destroy_condition
  destroy_condition-Stuck = ground arith

  destroy_variable-Stuck : Ensures (Stuck j) (destroy_variable s d)
  unfolding destroy_variable
  destroy_variable-Stuck = ground arith

  get_variable-Stuck : Ensures (Stuck j) (get_variable s d)
  unfolding get_variable
  get_variable-Stuck = ground arith

  set_array_value-Stuck : Ensures (Stuck j) (set_array_value s d)
  unfolding set_array_value
  set_array_value-Stuck = ground arith

  dispatch-Stuck :
      (r : Request) (a : String)
      → Tables d.to_machine s
      → (s.locks j).name ≡ some a
      → NotBoxNine d
      → r ≢ wt
      → Ensures (Stuck j) (dispatch r s d)
  unfolding dispatch
  dispatch-Stuck aq a v made from other = acquire-Stuck
  dispatch-Stuck rl a v made from other = release-Stuck from
  dispatch-Stuck wt a v made from other = absurd (other refl)
  dispatch-Stuck sg a v made from other = signal-Stuck
  dispatch-Stuck bc a v made from other = broadcast-Stuck
  dispatch-Stuck cl a v made from other = create_lock-Stuck a v made
  dispatch-Stuck dl a v made from other = destroy_lock-Stuck
  dispatch-Stuck cc_code a v made from other = create_condition-Stuck
  dispatch-Stuck dc a v made from other = destroy_condition-Stuck
  dispatch-Stuck cm a v made from other = create_variable-Stuck
  dispatch-Stuck dm a v made from other = destroy_variable-Stuck
  dispatch-Stuck gm a v made from other = get_variable-Stuck
  dispatch-Stuck sm a v made from other = set_array_value-Stuck
  dispatch-Stuck r a v made from other = stuck

-- A signal with a live condition that a thread waits on and a live lock that nobody owns or waits for
-- puts the thread into the queue of the lock and leaves the lock without an owner.
pub signal-free_lock :
    (s : Server) (d : Delivery) (c n : ℕ) (w : ThreadId) (ws : List ThreadId)
    → LiveCondition s c
    → (s.conditions c).queue ≡ w ∷ ws
    → LiveLock s n
    → (s.locks n).queue ≡ []
    → (s.locks n).owner ≡ no_owner
    → d.body.index ≡ pos c
    → d.body.index2 ≡ pos n
    → (t : Server) × (signal s d ≡ answer t (client d) success_reply)
      × ((t.locks n).queue ≡ some w ∷ [])
      × Stuck n t
unfolding signal
signal-free_lock s d c n w ws (room, (a, named), live, kept) waits (room', (b, named'), live') idle
      free at_c at_n =
    (
      record s {
        conditions = update s.conditions c (record (s.conditions c) { queue = ws });
        locks = update s.locks n (record (s.locks n) { queue = some w ∷ [] });
      },
      ground arith,
      ground arith,
      ground arith,
    )

-- A lock with a name, in tables that are in order, that nobody owns while threads stand in its queue
-- stays so through any request but a WT, if the request does not come from mailbox 9 and does not name
-- a client with mailbox 9: no AQ and no RL of such a thread gives the lock to anyone.
pub serve-Stuck :
    (s : Server) (d : Delivery) (j : ℕ) (a : String)
    → Stuck j s
    → Tables d.to_machine s
    → (s.locks j).name ≡ some a
    → equals no_owner (sender d) ≡ false
    → int_eq d.from_box release_mailbox ≡ false
    → int_eq d.body.client_mailbox release_mailbox ≡ false
    → d.body.request ≢ wt
    → Ensures (Stuck j) (serve s d)
unfolding serve
serve-Stuck s d j a stuck v made sent box named other =
    dispatch-Stuck s d j stuck d.body.request a v made (sent, box, named) other

-- A thread that calls WT with a live condition and a live lock that another owns is not refused: the
-- owner loses the lock and goes to the end of the queue of the condition, the caller gets no answer,
-- and if nobody waits for the lock nothing is sent at all.
pub wait-by_other :
    (s : Server) (d : Delivery) (c n : ℕ)
    → LiveCondition s c
    → LiveLock s n
    → (s.locks n).queue ≡ []
    → d.body.index ≡ pos c
    → d.body.index2 ≡ pos n
    → equals (s.locks n).owner (client d) ≡ false
    → (t : Server) × (wait s d ≡ ok (t, []))
      × ((t.locks n).owner ≡ no_owner)
      × ((t.conditions c).queue ≡ (s.conditions c).queue ++ ((s.locks n).owner ∷ []))
unfolding wait
wait-by_other s d c n (room, (a, named), live, kept) (room', (b, named'), live') idle at_c at_n
      other =
    (
      record s {
        conditions = update s.conditions c (record (s.conditions c) {
          queue = (s.conditions c).queue ++ ((s.locks n).owner ∷ []);
        });
        locks = update s.locks n (record (s.locks n) { owner = no_owner });
      },
      ground arith,
      ground arith,
      ground arith,
    )
