-- ===== src/Network/Total.antt =====
-- What keeps the server from a fault: indices in the tables, no null pointer in the way, and room.
use csci402_projects.Base.{
  ◌+◌, ◌<◌, ◌≡◌, refl, ℤ, pos_part, Bool, true, false, ok, fault, Option, none, arith, List, ◌∷◌,
  is_empty, out_of_range, len,
}
use csci402_projects.Network.Message.{
  Request, Delivery, Packet, ThreadId, aq, rl, wt, sg, bc, cl, dl, cc_code, dc, cm, dm, gm, sm,
}
use csci402_projects.Network.State.{
  Server, Outcome, max_entries, name_size, base, find_lock_by_name, find_condition_by_name,
  find_monitor_variable_by_name, construct_server_lock, construct_server_condition,
  construct_monitor_variable,
}
use csci402_projects.Network.Names.{find-IsTable}
use csci402_projects.Network.Invariant.{Tables}
use csci402_projects.Network.Server.Relay.{relay}
use csci402_projects.Network.Server.Locks.{acquire, release}
use csci402_projects.Network.Server.Conditions.{wait, signal, broadcast}
use csci402_projects.Network.Server.Create.{
  create_lock, create_condition, create_variable, new_lock, new_condition, new_variable,
}
use csci402_projects.Network.Server.Destroy.{destroy_lock, destroy_condition, destroy_variable}
use csci402_projects.Network.Server.Variables.{get_variable, set_array_value}
use csci402_projects.Network.Server.Dispatch.{dispatch, serve}

abbrev pub InTable : ℤ → Type 0
InTable i = out_of_range max_entries i ≡ false

abbrev pub head_is_null : List (Option ThreadId) → Bool
head_is_null (none ∷ rest) = true
head_is_null _ = false

-- What a request needs: its index in the table, no null pointer at the head of the queue that a lock
-- is handed to, somebody to be signalled, and for a creation a free place in the table and a
-- name that fits into its buffer.
abbrev pub Admissible : Request → Server → Delivery → Type 0
Admissible rl s d =
    InTable d.body.index × (head_is_null (s.locks (pos_part d.body.index)).queue ≡ false)
Admissible wt s d =
    InTable d.body.index × (head_is_null (s.locks (pos_part d.body.index2)).queue ≡ false)
Admissible sg s d =
    InTable d.body.index × (is_empty (s.conditions (pos_part d.body.index)).queue ≡ false)
Admissible cl s d = (base d.to_machine + s.num_locks < max_entries) × (len d.body.name < name_size)
Admissible cc_code s d =
    (base d.to_machine + s.num_conditions < max_entries) × (len d.body.name < name_size)
Admissible cm s d =
    (base d.to_machine + s.num_variables < max_entries) × (len d.body.name < name_size)
Admissible aq s d = InTable d.body.index
Admissible bc s d = InTable d.body.index
Admissible dl s d = InTable d.body.index
Admissible dc s d = InTable d.body.index
Admissible dm s d = InTable d.body.index
Admissible gm s d = InTable d.body.index
Admissible sm s d = InTable d.body.index
Admissible _ s d = Unit

abbrev pub is_ok : Outcome → Bool
is_ok (ok r) = true
is_ok (fault e) = false

ok_of : (r : Outcome) → is_ok r ≡ true → (t : Server) × (ps : List Packet) × (r ≡ ok (t, ps))
ok_of (ok (t, ps)) h = (t, ps, refl)
ok_of (fault e) h = cc

module _ (s : Server) (d : Delivery) where
  acquire-total : InTable d.body.index → is_ok (acquire s d) ≡ true
  unfolding acquire
  acquire-total inside = ground arith

  release-total : Admissible rl s d → is_ok (release s d) ≡ true
  unfolding release
  release-total (inside, real) = ground arith

  wait-total : Admissible wt s d → is_ok (wait s d) ≡ true
  unfolding wait
  wait-total (inside, real) = ground arith

  signal-total : Admissible sg s d → is_ok (signal s d) ≡ true
  unfolding signal
  signal-total (inside, waited) = ground arith

  broadcast-total : InTable d.body.index → is_ok (broadcast s d) ≡ true
  unfolding broadcast
  broadcast-total inside = ground arith

  destroy_lock-total : InTable d.body.index → is_ok (destroy_lock s d) ≡ true
  unfolding destroy_lock
  destroy_lock-total inside = ground arith

  destroy_condition-total : InTable d.body.index → is_ok (destroy_condition s d) ≡ true
  unfolding destroy_condition
  destroy_condition-total inside = ground arith

  destroy_variable-total : InTable d.body.index → is_ok (destroy_variable s d) ≡ true
  unfolding destroy_variable
  destroy_variable-total inside = ground arith

  get_variable-total : InTable d.body.index → is_ok (get_variable s d) ≡ true
  unfolding get_variable
  get_variable-total inside = ground arith

  set_array_value-total : InTable d.body.index → is_ok (set_array_value s d) ≡ true
  unfolding set_array_value
  set_array_value-total inside = ground arith

  module _ (v : Tables d.to_machine s) where
    create_lock-total : Admissible cl s d → is_ok (create_lock s d) ≡ true
    unfolding create_lock relay new_lock construct_server_lock find_lock_by_name
    create_lock-total (room, short) =
        let (r, e, hit) = find-IsTable _ d.body.name _ s.num_locks v.locks in ground arith

    create_condition-total : Admissible cc_code s d → is_ok (create_condition s d) ≡ true
    unfolding create_condition relay new_condition construct_server_condition find_condition_by_name
    create_condition-total (room, short) =
        let (r, e, hit) = find-IsTable _ d.body.name _ s.num_conditions v.conditions in ground arith

    create_variable-total : Admissible cm s d → is_ok (create_variable s d) ≡ true
    unfolding create_variable relay new_variable construct_monitor_variable
        find_monitor_variable_by_name
    create_variable-total (room, short) =
        let (r, e, hit) = find-IsTable _ d.body.name _ s.num_variables v.variables in ground arith

    dispatch-total : (r : Request) → Admissible r s d → is_ok (dispatch r s d) ≡ true
    unfolding dispatch
    dispatch-total aq h = acquire-total h
    dispatch-total rl h = release-total h
    dispatch-total wt h = wait-total h
    dispatch-total sg h = signal-total h
    dispatch-total bc h = broadcast-total h
    dispatch-total cl h = create_lock-total h
    dispatch-total dl h = destroy_lock-total h
    dispatch-total cc_code h = create_condition-total h
    dispatch-total dc h = destroy_condition-total h
    dispatch-total cm h = create_variable-total h
    dispatch-total dm h = destroy_variable-total h
    dispatch-total gm h = get_variable-total h
    dispatch-total sm h = set_array_value-total h
    dispatch-total r h = refl

-- With its tables in order the server handles every request without a fault, if the index that the
-- request carries is in the table, no null pointer is at the head of the queue of the lock that is
-- given up, somebody waits on the condition that is signalled, and for what is created there is room
-- in the table and its name is shorter than 20 bytes.
pub serve-total :
    (s : Server) (d : Delivery)
    → Tables d.to_machine s
    → Admissible d.body.request s d
    → (t : Server) × (ps : List Packet) × (serve s d ≡ ok (t, ps))
unfolding serve
serve-total s d v h = ok_of _ (dispatch-total s d v d.body.request h)
