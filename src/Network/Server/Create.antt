-- ===== src/Network/Server/Create.antt =====
-- CL, CC and CM.
use csci402_projects.Base.{
  suc, ◌+◌, ℤ, pos, negsuc, minus_one, int_eq, Bool, true, if◌then◌else◌, leb, none, some, ◌>>=◌,
}
use csci402_projects.Network.Message.{Delivery, named_client, error_reply, index_reply}
use csci402_projects.Network.State.{
  Server, Outcome, max_entries, base, construct_server_lock, construct_server_condition,
  construct_monitor_variable, find_lock_by_name, find_condition_by_name,
  find_monitor_variable_by_name, client, answer,
}
use csci402_projects.Network.Server.Relay.{relay}

-- The message came through the handlers: no server has the lock, so it is made here.
unfoldable pub new_lock : Server → Delivery → Outcome
new_lock s d = if leb max_entries s.num_locks then answer s (client d) error_reply else do
  s₁ ← construct_server_lock (base d.to_machine + s.num_locks) d.body.name s
  answer (record s₁ { num_locks = suc s.num_locks }) (named_client d.body)
      (index_reply (pos (base d.to_machine + s.num_locks)))

unfoldable pub create_lock : Server → Delivery → Outcome
unfolding relay new_lock
create_lock s d = do
  found ← find_lock_by_name s d.body.name d.to_machine
  elim found [
    | none ↦ if int_eq d.body.id minus_one then relay s d else new_lock s d
    | some i ↦ answer s (client d) (index_reply (pos i))
  ]

unfoldable pub new_condition : Server → Delivery → Outcome
new_condition s d = do
  s₁ ← construct_server_condition (base d.to_machine + s.num_conditions) d.body.name s
  answer (record s₁ { num_conditions = suc s.num_conditions }) (named_client d.body)
      (index_reply (pos (base d.to_machine + s.num_conditions)))

unfoldable pub create_condition : Server → Delivery → Outcome
unfolding relay new_condition
create_condition s d =
    if leb max_entries s.num_conditions then answer s (client d) error_reply else do
      found ← find_condition_by_name s d.body.name d.to_machine
      elim found [
        | none ↦ if int_eq d.body.id minus_one then relay s d else new_condition s d
        | some i ↦ answer s (client d) (index_reply (pos i))
      ]

unfoldable pub new_variable : Server → Delivery → Outcome
new_variable s d = do
  s₁ ←
      construct_monitor_variable (base d.to_machine + s.num_variables) d.body.index2 d.body.name
        d.fill s
  answer (record s₁ { num_variables = suc s.num_variables }) (named_client d.body)
      (index_reply (pos (base d.to_machine + s.num_variables)))

-- `index2 < 1`
abbrev pub below_one : ℤ → Bool
below_one (pos n) = leb n 0
below_one (negsuc n) = true

-- With the table full the reply is sent with the index that its memory happens to hold.
unfoldable pub create_variable : Server → Delivery → Outcome
unfolding relay new_variable
create_variable s d =
    if leb max_entries s.num_variables
    then answer s (client d) (index_reply d.junk)
    else if below_one d.body.index2
    then answer s (client d) error_reply
    else do
      found ← find_monitor_variable_by_name s d.body.name d.to_machine
      elim found [
        | none ↦ if int_eq d.body.id minus_one then relay s d else new_variable s d
        | some i ↦ answer s (client d) (index_reply (pos i))
      ]
