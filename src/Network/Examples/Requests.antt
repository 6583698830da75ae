-- ===== src/Network/Examples/Requests.antt =====
-- The requests of the server, and its theorems at concrete inputs.
use csci402_projects.Base.{
  ◌≡◌, refl, ok, some, arith, List, true, pos, update, minus_one, false, [], ◌∷◌,
}
use csci402_projects.Network.Message.{
  Packet, aq, rl, cl, gm, sm, dm, equals, index_reply, success_reply, no_reply, Delivery,
}
use csci402_projects.Network.State.{
  Server, init, blank_lock, blank_variable, answer, set_lock, find_from, find_lock_by_name,
}
use csci402_projects.Network.Server.Locks.{acquire}
use csci402_projects.Network.Server.Create.{create_lock}
use csci402_projects.Network.Server.Destroy.{destroy_variable}
use csci402_projects.Network.Server.Variables.{get_variable, set_array_value}
use csci402_projects.Network.Server.Dispatch.{serve, here, Steps, next, receive}
use csci402_projects.Network.Ensures.{Ensures}
use csci402_projects.Network.Invariant.{Tables}
use csci402_projects.Network.Reachable.{reachable-Tables}
use csci402_projects.Network.Identity.{create_lock_again}
use csci402_projects.Network.Line.{Moves, joins}
use csci402_projects.Network.Fifo.{serve_line}
use csci402_projects.Network.Values.{get-set, get-destroy}
use csci402_projects.Network.Total.{serve-total}
use csci402_projects.Network.Grants.{Grants, serve-Grants}
use csci402_projects.Network.Creation.{asked, pending, create_lock-everywhere}
use csci402_projects.Network.Server.Relay.{stamped, own_handler, relay}
use csci402_projects.Network.Handler.{Handler, handle, ask_others, to_own_server}
use csci402_projects.Network.Voting.{replies}
use csci402_projects.Network.Examples.Data.{
  message, delivery, me, one_lock, one_lock_reached, one_lock-Tables,
}

reachable-Tables_example : Tables 0 one_lock
reachable-Tables_example = reachable-Tables 0 one_lock (omega arith) one_lock_reached

serve_line_example :
    Ensures
      (λ t. Moves (joins aq one_lock (delivery 0 aq 0 0) 0) (one_lock.locks 0) (t.locks 0))
      (serve one_lock (delivery 0 aq 0 0))
serve_line_example = serve_line one_lock (delivery 0 aq 0 0) 0 "gate" one_lock-Tables refl tt

create_lock_again_example :
    create_lock one_lock (delivery 0 cl 0 0) ≡ answer one_lock me (index_reply (pos 0))
create_lock_again_example =
    create_lock_again 0 "gate" (delivery 0 cl 0 0) one_lock-Tables refl here refl refl

-- Free, acquired and released again.
acquire_release :
    acquire one_lock (delivery 0 aq 0 0)
    ≡ answer
        (set_lock one_lock (pos 0) (record blank_lock { name = some "gate"; owner = me }))
        me
        success_reply
unfolding acquire equals
acquire_release = refl

serve-total_example :
    (t : Server) × (ps : List Packet) × (serve one_lock (delivery 0 rl 0 0) ≡ ok (t, ps))
serve-total_example = serve-total one_lock (delivery 0 rl 0 0) one_lock-Tables (refl, refl)

serve-Grants_example : Grants one_lock 0 (serve one_lock (delivery 0 aq 0 0))
serve-Grants_example = serve-Grants one_lock (delivery 0 aq 0 0) 0

abbrev one_variable : Server
one_variable = record init {
  variables =
      update (λ _. blank_variable) 0
        (record blank_variable { name = some "size"; array_size = pos 3 });
  num_variables = 1;
}

get-set_run :
    (t : Server) × (set_array_value one_variable (delivery 0 sm 0 2) ≡ answer t me success_reply)
    × (get_variable t (delivery 0 gm 0 2) ≡ answer t me (index_reply (pos 8)))
get-set_run =
    get-set one_variable (delivery 0 sm 0 2) (delivery 0 gm 0 2) 0 2 2
      (omega arith, ("size", refl), refl) (omega arith, ("size", refl), refl) (refl, refl)
      (refl, refl)

destroyed_still_read :
    (t : Server) × (destroy_variable one_variable (delivery 0 dm 0 0) ≡ answer t me success_reply)
    × ((t.variables 0).deleted ≡ true)
    × (get_variable t (delivery 0 gm 0 2) ≡ answer t me (index_reply (pos 0)))
destroyed_still_read =
    get-destroy one_variable (delivery 0 dm 0 0) (delivery 0 gm 0 2) 0 2
      (omega arith, ("size", refl), refl) refl (refl, refl)

-- `me` asks the server on machine 0, which knows no lock, for one.
abbrev fresh : Delivery
fresh = record (delivery 0 cl 0 0) { body = record (message cl 0 0) { id = minus_one } }

-- The request on its way to the handler and back.
abbrev carried : Delivery
carried = record fresh { from_machine = pos 0; body = stamped init fresh }

-- The answer of the other server.
abbrev refusal : Delivery
refusal = record fresh { body = record (stamped init fresh) { request = no_reply } }

abbrev idle : Handler
idle = record { in_progress = []; num_servers = 2 }

init-Tables : Tables 0 init
init-Tables = reachable-Tables 0 init (omega arith) here

asked_reached : Steps 0 init (asked init)
unfolding serve create_lock find_lock_by_name find_from relay
asked_reached = next here (receive fresh _ refl refl refl)

create_lock-everywhere_example :
    (serve init fresh ≡ answer (asked init) (own_handler fresh) (stamped init fresh))
    × (handle (asked init) idle carried
        ≡ ok (
          record idle { in_progress = pending init fresh ∷ [] },
          ask_others 0 (stamped init fresh) 0 2,
        ))
    × (replies (record idle { in_progress = pending init fresh ∷ [] }) ((false, refusal) ∷ [])
        ≡ ok (idle, to_own_server 0 (stamped init fresh) ∷ []))
    × ((t : Server) × (serve (asked init) carried ≡ answer t me (index_reply (pos 0)))
        × ((t.locks 0).name ≡ some "gate"))
create_lock-everywhere_example =
    create_lock-everywhere init (asked init) idle fresh carried carried (false, refusal) []
      init-Tables (reachable-Tables 0 (asked init) (omega arith) asked_reached) (λ j e. cc)
      (λ j e. cc) (omega arith) refl refl (omega arith) (((refl, refl), tt), refl, refl) refl refl
      (refl, refl, refl) (refl, refl)
