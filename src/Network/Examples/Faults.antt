-- ===== src/Network/Examples/Faults.antt =====
-- What goes wrong in the server, at concrete inputs.
use csci402_projects.Base.{
  ℕ, ◌≡◌, refl, ok, fault, some, arith, List, [], ◌∷◌, pos, update, out_of_bounds, null_pointer,
  ◌++◌,
}
use csci402_projects.Network.Message.{
  no_owner, Delivery, ThreadId, aq, rl, wt, sg, cl, cc_code, dc, packet, equals, index_reply,
  success_reply,
}
use csci402_projects.Network.State.{
  Server, init, blank_lock, blank_condition, construct_server_lock, find_from, find_lock_by_name,
  answer, find_condition_by_name, construct_server_condition,
}
use csci402_projects.Network.Server.Locks.{acquire, release}
use csci402_projects.Network.Server.Conditions.{signal, wait}
use csci402_projects.Network.Server.Create.{new_lock, create_lock, new_condition, create_condition}
use csci402_projects.Network.Server.Destroy.{destroy_condition}
use csci402_projects.Network.Server.Dispatch.{serve, here}
use csci402_projects.Network.Ensures.{Ensures}
use csci402_projects.Network.Reachable.{reachable-Tables}
use csci402_projects.Network.NullSignal.{release-signal_empty}
use csci402_projects.Network.Stranded.{Doomed, Steps-Doomed}
use csci402_projects.Network.Bounds.{serve_invalid_index}
use csci402_projects.Network.Capacity.{sent, new_lock_clash, new_lock_overflow}
use csci402_projects.Network.Stuck.{Stuck, signal-free_lock, serve-Stuck, wait-by_other}
use csci402_projects.Network.Examples.Data.{message, delivery, me, one_lock, quiet, Reached, play}

release-signal_empty_example :
    (t : Server) × (signal quiet (delivery 0 sg 0 0) ≡ answer t me success_reply)
    × (release t (delivery 0 rl 0 0) ≡ fault null_pointer)
unfolding equals
release-signal_empty_example =
    release-signal_empty quiet (delivery 0 sg 0 0) (delivery 0 rl 0 0) 0 0
      (omega arith, ("full", refl), refl, refl) refl (omega arith, ("gate", refl), refl) refl refl
      refl refl refl

-- The owner of a lock waits on a condition, which is then destroyed.
deserted : Reached
unfolding play
deserted =
    play (play (play (play (play (record { state = init; steps = here }) cl) cc_code) aq) wt) dc

deserted-Doomed : Doomed 0 (me ∷ []) deserted.state
unfolding deserted serve create_lock find_lock_by_name find_from new_lock construct_server_lock
    create_condition find_condition_by_name new_condition construct_server_condition acquire wait
    destroy_condition equals
deserted-Doomed = record { named = λ e. cc; marked = refl; waiting = refl }

Steps-Doomed_example : (more : List ThreadId) × Doomed 0 ((me ∷ []) ++ more) deserted.state
Steps-Doomed_example =
    Steps-Doomed 0 (me ∷ []) here (reachable-Tables 0 deserted.state (omega arith) deserted.steps)
      deserted-Doomed

serve_invalid_index_example : serve one_lock (delivery 0 aq 5000 0) ≡ fault out_of_bounds
serve_invalid_index_example = serve_invalid_index one_lock (delivery 0 aq 5000 0) refl refl

abbrev made : ℕ → Server
made n = record init { num_locks = n }

new_lock_overflow_run : new_lock (made 4900) (delivery 1 cl 0 0) ≡ fault out_of_bounds
new_lock_overflow_run =
    new_lock_overflow (made 4900) (delivery 1 cl 0 0) (omega arith) (omega arith)

clash_at_hundred :
    (sent (new_lock (made 100) (delivery 0 cl 0 0)) ≡ packet me (index_reply (pos 100)) ∷ [])
    × (sent (new_lock (made 0) (delivery 1 cl 0 0)) ≡ packet me (index_reply (pos 100)) ∷ [])
clash_at_hundred =
    new_lock_clash (made 100) (made 0) (delivery 0 cl 0 0) (delivery 1 cl 0 0) refl refl
      (omega arith) refl refl

-- Nobody owns the lock, and `me` waits on the condition.
abbrev one_waits : Server
one_waits = record quiet {
  locks = update (λ _. blank_lock) 0 (record blank_lock { name = some "gate" });
  conditions =
      update (λ _. blank_condition) 0
        (record blank_condition { name = some "full"; queue = me ∷ [] });
}

signal-free_lock_run :
    (t : Server) × (signal one_waits (delivery 0 sg 0 0) ≡ answer t me success_reply)
    × ((t.locks 0).queue ≡ some me ∷ [])
    × Stuck 0 t
signal-free_lock_run =
    signal-free_lock one_waits (delivery 0 sg 0 0) 0 0 me []
      (omega arith, ("full", refl), refl, refl) refl (omega arith, ("gate", refl), refl) refl refl
      refl refl

-- The owner of a lock waits on a condition, and is signalled while nobody owns the lock.
signalled : Reached
unfolding play
signalled =
    play (play (play (play (play (record { state = init; steps = here }) cl) cc_code) aq) wt) sg

signalled-Stuck : Stuck 0 signalled.state
unfolding signalled serve create_lock find_lock_by_name find_from new_lock construct_server_lock
    create_condition find_condition_by_name new_condition construct_server_condition acquire wait
    signal equals
signalled-Stuck = (refl, refl)

signalled-named : (signalled.state.locks 0).name ≡ some "gate"
unfolding signalled serve create_lock find_lock_by_name find_from new_lock construct_server_lock
    create_condition find_condition_by_name new_condition construct_server_condition acquire wait
    signal equals
signalled-named = refl

serve-Stuck_example : Ensures (Stuck 0) (serve signalled.state (delivery 0 rl 0 0))
unfolding equals
serve-Stuck_example =
    serve-Stuck signalled.state (delivery 0 rl 0 0) 0 "gate" signalled-Stuck
      (reachable-Tables 0 signalled.state (omega arith) signalled.steps) signalled-named refl refl
      refl (λ e. cc)

-- A request from another thread than `me`.
abbrev from_other : Delivery
from_other = record (delivery 0 wt 0 0) {
  from_box = pos 5;
  body = record (message wt 0 0) { client_mailbox = pos 5 };
}

wait-by_other_run :
    (t : Server) × (wait quiet from_other ≡ ok (t, []))
    × ((t.locks 0).owner ≡ no_owner)
    × ((t.conditions 0).queue ≡ [] ++ (me ∷ []))
unfolding equals
wait-by_other_run =
    wait-by_other quiet from_other 0 0 (omega arith, ("full", refl), refl, refl)
      (omega arith, ("gate", refl), refl) refl refl refl refl
