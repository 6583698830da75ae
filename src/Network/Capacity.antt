-- ===== src/Network/Capacity.antt =====
-- How many locks a server can really make, and which indices two servers give out.
use csci402_projects.Base.{
  suc, ◌+◌, ◌≤◌, ◌<◌, ◌≡◌, ok, fault, arith, List, [], ◌∷◌, true, out_of_bounds, pos,
}
use csci402_projects.Network.Message.{Delivery, Packet, index_reply, named_client, packet}
use csci402_projects.Network.State.{Server, max_entries, fits, base, construct_server_lock, Outcome}
use csci402_projects.Network.Server.Create.{new_lock}

-- What a server sends on making a lock, if it does not fault.
abbrev pub sent : Outcome → List Packet
sent (ok (t, ps)) = ps
sent (fault e) = []

-- A server on machine 1 or above that is not full by its own count, and whose next lock lies beyond
-- the table, writes outside the table instead of refusing.
pub new_lock_overflow :
    (s : Server) (d : Delivery)
    → s.num_locks < max_entries
    → max_entries ≤ base d.to_machine + s.num_locks
    → new_lock s d ≡ fault out_of_bounds
unfolding new_lock construct_server_lock
new_lock_overflow s d room beyond = ground arith

-- A server that has made 100 locks more than the server on the next machine gives its next lock the
-- index that the other gives to its own next lock, if both have room and both names fit.
pub new_lock_clash :
    (s t : Server) (d e : Delivery)
    → e.to_machine ≡ suc d.to_machine
    → s.num_locks ≡ t.num_locks + 100
    → base d.to_machine + s.num_locks < max_entries
    → fits d.body.name ≡ true
    → fits e.body.name ≡ true
    → (sent (new_lock s d)
        ≡ packet (named_client d.body) (index_reply (pos (base e.to_machine + t.num_locks))) ∷ [])
      × (sent (new_lock t e)
          ≡ packet (named_client e.body) (index_reply (pos (base e.to_machine + t.num_locks))) ∷ [])
unfolding new_lock construct_server_lock
new_lock_clash s t d e beside more room short short' = (ground arith, ground arith)
