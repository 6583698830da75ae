-- ===== src/Network/Fifo.antt =====
-- Every request moves the line at every lock by the rules of a fair lock.
use csci402_projects.Base.{ℕ, ◌+◌, ◌≡◌, refl, inl, inr, some, arith, [], String}
use csci402_projects.Network.Message.{
  Request, Delivery, aq, rl, wt, sg, bc, cl, dl, cc_code, dc, cm, dm, gm, sm,
}
use csci402_projects.Network.State.{
  Server, base, construct_server_lock, construct_server_condition, construct_monitor_variable,
}
use csci402_projects.Network.Ensures.{Ensures}
use csci402_projects.Network.Invariant.{Tables}
use csci402_projects.Network.Line.{
  Moves, HeadIsThread, joins, MovesBy, acquire-Moves, release-Moves, wait-Moves, signal-Moves,
  broadcast-Moves,
}
use csci402_projects.Network.Server.Relay.{relay}
use csci402_projects.Network.Server.Create.{create_lock, create_condition, create_variable}
use csci402_projects.Network.Server.Destroy.{destroy_lock, destroy_condition, destroy_variable}
use csci402_projects.Network.Server.Variables.{get_variable, set_array_value}
use csci402_projects.Network.Server.Dispatch.{dispatch, serve}

module _ (s : Server) (d : Delivery) (j : ℕ) where
  create_lock-Moves :
      (a : String)
      → Tables d.to_machine s
      → (s.locks j).name ≡ some a
      → Ensures (MovesBy s d j []) (create_lock s d)
  unfolding create_lock relay construct_server_lock
  create_lock-Moves a v made =
      ground (arith, v.locks.unnamed (base d.to_machine + s.num_locks) (inr (omega arith)))

  create_condition-Moves : Ensures (MovesBy s d j []) (create_condition s d)
  unfolding create_condition relay construct_server_condition
  create_condition-Moves = ground arith

  create_variable-Moves : Ensures (MovesBy s d j []) (create_variable s d)
  unfolding create_variable relay construct_monitor_variable
  create_variable-Moves = ground arith

  destroy_lock-Moves : Ensures (MovesBy s d j []) (destroy_lock s d)
  unfolding destroy_lock
  destroy_lock-Moves = ground arith

  destroy_condition-Moves : Ensures (MovesBy s d j []) (destroy_condition s d)
  unfolding destroy_condition
  destroy_condition-Moves = ground arith

  destroy_variable-Moves : Ensures (MovesBy s d j []) (destroy_variable s d)
  unfolding destroy_variable
  destroy_variable-Moves = ground arith

  get_variable-Moves : Ensures (MovesBy s d j []) (get_variable s d)
  unfolding get_variable
  get_variable-Moves = ground arith

  set_array_value-Moves : Ensures (MovesBy s d j []) (set_array_value s d)
  unfolding set_array_value
  set_array_value-Moves = ground arith

  dispatch-Moves :
      (r : Request) (a : String)
      → Tables d.to_machine s
      → (s.locks j).name ≡ some a
      → HeadIsThread (s.locks j).queue
      → Ensures (λ t. Moves (joins r s d j) (s.locks j) (t.locks j)) (dispatch r s d)
  unfolding dispatch joins
  dispatch-Moves aq a v made head = acquire-Moves s d j
  dispatch-Moves rl a v made head = release-Moves s d j head
  dispatch-Moves wt a v made head = wait-Moves s d j head
  dispatch-Moves sg a v made head = signal-Moves s d j
  dispatch-Moves bc a v made head = broadcast-Moves s d j
  dispatch-Moves cl a v made head = create_lock-Moves a v made
  dispatch-Moves dl a v made head = destroy_lock-Moves
  dispatch-Moves cc_code a v made head = create_condition-Moves
  dispatch-Moves dc a v made head = destroy_condition-Moves
  dispatch-Moves cm a v made head = create_variable-Moves
  dispatch-Moves dm a v made head = destroy_variable-Moves
  dispatch-Moves gm a v made head = get_variable-Moves
  dispatch-Moves sm a v made head = set_array_value-Moves
  dispatch-Moves r a v made head = inl refl

-- Let lock j have a name, in tables that are in order, and let the head of its queue be a thread.
-- Whatever the server is asked, if it does not fault then the line at lock j (its owner, and then
-- its queue) stays as it is, or those whom the request names join it at its end in order, or its
-- owner leaves it at the front.
pub serve_line :
    (s : Server) (d : Delivery) (j : ℕ) (a : String)
    → Tables d.to_machine s
    → (s.locks j).name ≡ some a
    → HeadIsThread (s.locks j).queue
    → Ensures (λ t. Moves (joins d.body.request s d j) (s.locks j) (t.locks j)) (serve s d)
unfolding serve
serve_line s d j a v made head = dispatch-Moves s d j d.body.request a v made head
