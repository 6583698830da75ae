-- ===== src/Network/Examples/Data.antt =====
-- Requests and states of the server that the tests share.
use csci402_projects.Base.{ℕ, ◌≡◌, refl, ok, some, arith, pos, update}
use csci402_projects.Network.Message.{Message, Request, Delivery, ThreadId, cl, index_reply}
use csci402_projects.Network.State.{
  Server, init, blank_lock, blank_condition, construct_server_lock, find_from, find_lock_by_name,
  answer, Mode, ready, Outcome,
}
use csci402_projects.Network.Server.Create.{new_lock, create_lock}
use csci402_projects.Network.Server.Dispatch.{serve, receive, Steps, here, next}
use csci402_projects.Network.Invariant.{Tables}
use csci402_projects.Network.Reachable.{reachable-Tables}

-- A request from thread 4 on machine 2, that names itself as the client.
abbrev pub message : Request → ℕ → ℕ → Message
message r i k = record {
  request = r;
  name = "gate";
  name2 = "x";
  index = pos i;
  index2 = pos k;
  index3 = pos 8;
  id = pos 7;
  client_machine = pos 2;
  client_mailbox = pos 4;
}

abbrev pub delivery : ℕ → Request → ℕ → ℕ → Delivery
delivery m r i k = record {
  from_machine = pos 2;
  from_box = pos 4;
  to_machine = m;
  body = message r i k;
  junk = pos 99;
  fill = λ _. pos 0;
}

abbrev pub me : ThreadId
me = record { machine_id = pos 2; thread_id = pos 4 }

-- The server on machine 0 with one lock, made by a request that came through the handlers.
abbrev pub one_lock : Server
one_lock = record init {
  locks = update (λ _. blank_lock) 0 (record blank_lock { name = some "gate" });
  num_locks = 1;
}

pub one_lock_made : serve init (delivery 0 cl 0 0) ≡ answer one_lock me (index_reply (pos 0))
unfolding serve create_lock find_lock_by_name find_from new_lock construct_server_lock
one_lock_made = refl

pub one_lock_reached : Steps 0 init one_lock
one_lock_reached = next here (receive (delivery 0 cl 0 0) _ refl refl one_lock_made)

pub one_lock-Tables : Tables 0 one_lock
one_lock-Tables = reachable-Tables 0 one_lock (omega arith) one_lock_reached

-- A lock that `me` owns, and a condition that nobody waits on.
abbrev pub quiet : Server
quiet = record init {
  locks = update (λ _. blank_lock) 0 (record blank_lock { name = some "gate"; owner = me });
  num_locks = 1;
  conditions = update (λ _. blank_condition) 0 (record blank_condition { name = some "full" });
  num_conditions = 1;
}

-- A state that the server on machine 0 reaches, and how.
pub record Reached : Type 0 where
  pub state : Server
  pub steps : Steps 0 init state

unfoldable pub advance :
    (r : Reached) (d : Delivery) (o : Outcome) (k : Mode)
    → serve r.state d ≡ o
    → r.state.mode ≡ k
    → d.to_machine ≡ 0
    → Reached
advance r d (ok (t, ps)) ready e k own = record {
  state = t;
  steps = next r.steps (receive d ps own k e);
}
advance r d _ _ e k own = r

unfoldable pub play : Reached → Request → Reached
unfolding advance
play r q = advance r (delivery 0 q 0 0) _ _ refl refl refl
