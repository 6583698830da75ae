-- ===== src/Network/Identity.antt =====
-- An object keeps its name and its index for good.
use csci402_projects.Base.{
  ℕ, ◌+◌, ◌≡◌, refl, sym, subst, ◌∙◌, inr, ok, fault, some, arith, String, pos,
}
use csci402_projects.Network.Message.{Request, Delivery, index_reply, cl, cc_code, cm}
use csci402_projects.Network.State.{
  Server, Outcome, client, answer, base, construct_server_lock, construct_server_condition,
  construct_monitor_variable, find_lock_by_name,
}
use csci402_projects.Network.Ensures.{Ensures, Ensures-apply}
use csci402_projects.Network.Names.{find-named}
use csci402_projects.Network.Keeps.{Kept, released-Kept, dispatch-Kept}
use csci402_projects.Network.Invariant.{Tables}
use csci402_projects.Network.Reachable.{Step-Tables}
use csci402_projects.Network.Server.Relay.{relay}
use csci402_projects.Network.Server.Conditions.{released}
use csci402_projects.Network.Server.Create.{create_lock, create_condition, create_variable}
use csci402_projects.Network.Server.Dispatch.{
  dispatch, serve, Step, receive, resume, Steps, here, next,
}

abbrev pub LockNamed : ℕ → String → Server → Type 0
LockNamed j a s = (s.locks j).name ≡ some a

create_lock-LockNamed :
    (s : Server) (d : Delivery) (j : ℕ) (a : String)
    → Tables d.to_machine s
    → LockNamed j a s
    → Ensures (LockNamed j a) (create_lock s d)
unfolding create_lock relay construct_server_lock
create_lock-LockNamed s d j a v h =
    ground (arith, v.locks.unnamed (base d.to_machine + s.num_locks) (inr (omega arith)))

create_condition-LockNamed :
    (s : Server) (d : Delivery) (j : ℕ) (a : String)
    → LockNamed j a s
    → Ensures (LockNamed j a) (create_condition s d)
unfolding create_condition relay construct_server_condition
create_condition-LockNamed s d j a h = ground arith

create_variable-LockNamed :
    (s : Server) (d : Delivery) (j : ℕ) (a : String)
    → LockNamed j a s
    → Ensures (LockNamed j a) (create_variable s d)
unfolding create_variable relay construct_monitor_variable
create_variable-LockNamed s d j a h = ground arith

Kept-LockNamed :
    (s : Server) (r : Outcome) (j : ℕ) (a : String)
    → Ensures (Kept s j) r
    → LockNamed j a s
    → Ensures (LockNamed j a) r
Kept-LockNamed s (ok (t, ps)) j a k h = k.lock ∙ h
Kept-LockNamed s (fault e) j a k h = tt

dispatch-LockNamed :
    (r : Request) (s : Server) (d : Delivery) (j : ℕ) (a : String)
    → Tables d.to_machine s
    → LockNamed j a s
    → Ensures (LockNamed j a) (dispatch r s d)
unfolding dispatch
dispatch-LockNamed cl s d j a v h = create_lock-LockNamed s d j a v h
dispatch-LockNamed cc_code s d j a v h = create_condition-LockNamed s d j a h
dispatch-LockNamed cm s d j a v h = create_variable-LockNamed s d j a h
dispatch-LockNamed r s d j a v h =
    Kept-LockNamed s (dispatch r s d) j a (dispatch-Kept r s d j refl) h

Step-LockNamed :
    {m : ℕ} {s t : Server} (j : ℕ) (a : String)
    → Step m s t
    → Tables m s
    → LockNamed j a s
    → LockNamed j a t
unfolding serve
Step-LockNamed {m} {s} {t} j a (receive d ps own r e) v h =
    Ensures-apply (LockNamed j a) (dispatch d.body.request s d)
      (dispatch-LockNamed d.body.request s d j a (subst (λ k. Tables k s) (sym own) v) h) e
Step-LockNamed {m} {s} {t} j a (resume d reply ps w e) v h =
    Ensures-apply (LockNamed j a) (released s d reply)
      (Kept-LockNamed s (released s d reply) j a (released-Kept s d j reply) h) e

pub Steps-LockNamed :
    {m : ℕ} {s t : Server} (j : ℕ) (a : String)
    → Steps m s t
    → Tables m s
    → LockNamed j a s
    → LockNamed j a t × Tables m t
Steps-LockNamed j a here v h = (h, v)
Steps-LockNamed j a (next r st) v h =
    let (k, w) = Steps-LockNamed j a r v h in (Step-LockNamed j a st w k, Step-Tables st w)

-- Once entry j has the name a, every later request to create a lock named a is answered with j, and
-- makes no lock.
pub create_lock_again :
    {m : ℕ} {s t : Server} (j : ℕ) (a : String) (d : Delivery)
    → Tables m s
    → LockNamed j a s
    → Steps m s t
    → d.to_machine ≡ m
    → d.body.name ≡ a
    → create_lock t d ≡ answer t (client d) (index_reply (pos j))
unfolding create_lock find_lock_by_name
create_lock_again {t} j a d v h r own name =
    let (k, w) = Steps-LockNamed j a r v h in
    rw (own, name, find-named (λ i. (t.locks i).name) a _ t.num_locks j w.locks k)
