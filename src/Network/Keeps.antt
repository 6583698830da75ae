-- ===== src/Network/Keeps.antt =====
-- What each handler leaves alone: the names of the entries, and how many there are.
use csci402_projects.Base.{
  ℕ, suc, ◌≡◌, Bool, true, false, arith, List, [], ◌∷◌, ◌+◌, length, pos_part,
}
use csci402_projects.Network.Message.{
  Message, Request, ThreadId, Delivery, aq, rl, wt, sg, bc, cl, dl, cc_code, dc, cm, dm, gm, sm,
}
use csci402_projects.Network.State.{Server, set_condition}
use csci402_projects.Network.Ensures.{Ensures}
use csci402_projects.Network.Server.Relay.{relay}
use csci402_projects.Network.Server.Locks.{acquire, release}
use csci402_projects.Network.Server.Conditions.{wait, released, signal, broadcast, acquire_for_all}
use csci402_projects.Network.Server.Destroy.{destroy_lock, destroy_condition, destroy_variable}
use csci402_projects.Network.Server.Variables.{get_variable, set_array_value}
use csci402_projects.Network.Server.Dispatch.{dispatch}

-- The requests that make an object.
abbrev pub creates : Request → Bool
creates cl = true
creates cc_code = true
creates cm = true
creates _ = false

-- At entry `j` of each table the name is the same, and the tables have as many entries.
pub record Kept (s : Server) (j : ℕ) (t : Server) : Type 0 where
  pub lock : (t.locks j).name ≡ (s.locks j).name
  pub condition : (t.conditions j).name ≡ (s.conditions j).name
  pub variable : (t.variables j).name ≡ (s.variables j).name
  pub locks_made : t.num_locks ≡ s.num_locks
  pub conditions_made : t.num_conditions ≡ s.num_conditions
  pub variables_made : t.num_variables ≡ s.num_variables

module _ (s : Server) (d : Delivery) (j : ℕ) where
  pub relay-Kept : Ensures (Kept s j) (relay s d)
  unfolding relay
  relay-Kept = ground arith

  acquire-Kept : Ensures (Kept s j) (acquire s d)
  unfolding acquire
  acquire-Kept = ground arith

  release-Kept : Ensures (Kept s j) (release s d)
  unfolding release
  release-Kept = ground arith

  wait-Kept : Ensures (Kept s j) (wait s d)
  unfolding wait
  wait-Kept = ground arith

  pub released-Kept : (m : Message) → Ensures (Kept s j) (released s d m)
  unfolding released
  released-Kept m = ground arith

  signal-Kept : Ensures (Kept s j) (signal s d)
  unfolding signal
  signal-Kept = ground arith

  destroy_lock-Kept : Ensures (Kept s j) (destroy_lock s d)
  unfolding destroy_lock
  destroy_lock-Kept = ground arith

  destroy_condition-Kept : Ensures (Kept s j) (destroy_condition s d)
  unfolding destroy_condition
  destroy_condition-Kept = ground arith

  destroy_variable-Kept : Ensures (Kept s j) (destroy_variable s d)
  unfolding destroy_variable
  destroy_variable-Kept = ground arith

  get_variable-Kept : Ensures (Kept s j) (get_variable s d)
  unfolding get_variable
  get_variable-Kept = ground arith

  set_array_value-Kept : Ensures (Kept s j) (set_array_value s d)
  unfolding set_array_value
  set_array_value-Kept = ground arith

-- The loop over the waiting threads changes nothing but the counter of requests.
pub acquire_for_all-state :
    (s : Server) (d : Delivery) (ts : List ThreadId)
    → (acquire_for_all s d ts).0 ≡ record s { ider = s.ider + length ts }
unfolding acquire_for_all
acquire_for_all-state s d [] = ground arith
acquire_for_all-state s d (t ∷ rest) =
    ground (arith, acquire_for_all-state (record s { ider = suc s.ider }) d rest)

broadcast-Kept : (s : Server) (d : Delivery) (j : ℕ) → Ensures (Kept s j) (broadcast s d)
unfolding broadcast
broadcast-Kept s d j =
    let c = s.conditions (pos_part d.body.index) in
    ground (
      arith,
      acquire_for_all-state (set_condition s d.body.index (record c { queue = [] })) d c.queue,
    )

-- A request that makes no object leaves the names and the counts as they are.
pub dispatch-Kept :
    (r : Request) (s : Server) (d : Delivery) (j : ℕ)
    → creates r ≡ false
    → Ensures (Kept s j) (dispatch r s d)
unfolding dispatch
dispatch-Kept aq s d j h = acquire-Kept s d j
dispatch-Kept rl s d j h = release-Kept s d j
dispatch-Kept wt s d j h = wait-Kept s d j
dispatch-Kept sg s d j h = signal-Kept s d j
dispatch-Kept bc s d j h = broadcast-Kept s d j
dispatch-Kept dl s d j h = destroy_lock-Kept s d j
dispatch-Kept dc s d j h = destroy_condition-Kept s d j
dispatch-Kept dm s d j h = destroy_variable-Kept s d j
dispatch-Kept gm s d j h = get_variable-Kept s d j
dispatch-Kept sm s d j h = set_array_value-Kept s d j
dispatch-Kept r s d j h = ground arith
