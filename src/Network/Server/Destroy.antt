-- ===== src/Network/Server/Destroy.antt =====
-- DL, DC and DM.
use csci402_projects.Base.{true, ◌&&◌, if◌then◌else◌, out_of_range, is_empty, none, some, ◌>>=◌}
use csci402_projects.Network.Message.{Delivery, equals, no_owner, error_reply, success_reply}
use csci402_projects.Network.State.{
  Server, ServerLock, ServerCondition, MonitorVariable, Outcome, max_entries, entry_at, set_lock,
  set_condition, set_variable, client, answer,
}
use csci402_projects.Network.Server.Relay.{relay_or_refuse}

unfoldable pub destroy_lock_entry : Server → Delivery → ServerLock → Outcome
destroy_lock_entry s d l =
    if out_of_range max_entries d.body.index
    then answer s (client d) error_reply
    else answer
        (set_lock s d.body.index (
          if is_empty l.queue && equals l.owner no_owner
          then record l { to_be_deleted = true; deleted = true }
          else record l { to_be_deleted = true }))
        (client d) success_reply

unfoldable pub destroy_lock : Server → Delivery → Outcome
unfolding destroy_lock_entry relay_or_refuse
destroy_lock s d = do
  l ← entry_at s.locks d.body.index
  elim l.name [ none ↦ relay_or_refuse s d | some _ ↦ destroy_lock_entry s d l ]

unfoldable pub destroy_condition_entry : Server → Delivery → ServerCondition → Outcome
destroy_condition_entry s d c =
    if out_of_range max_entries d.body.index
    then answer s (client d) error_reply
    else answer
        (set_condition s d.body.index (
          if is_empty c.queue
          then record c { to_be_deleted = true; deleted = true }
          else record c { to_be_deleted = true }))
        (client d) success_reply

unfoldable pub destroy_condition : Server → Delivery → Outcome
unfolding destroy_condition_entry relay_or_refuse
destroy_condition s d = do
  c ← entry_at s.conditions d.body.index
  elim c.name [ none ↦ relay_or_refuse s d | some _ ↦ destroy_condition_entry s d c ]

unfoldable pub destroy_variable_entry : Server → Delivery → MonitorVariable → Outcome
destroy_variable_entry s d v =
    if out_of_range max_entries d.body.index
    then answer s (client d) error_reply
    else answer (set_variable s d.body.index (record v { to_be_deleted = true; deleted = true }))
        (client d) success_reply

unfoldable pub destroy_variable : Server → Delivery → Outcome
unfolding destroy_variable_entry relay_or_refuse
destroy_variable s d = do
  v ← entry_at s.variables d.body.index
  elim v.name [ none ↦ relay_or_refuse s d | some _ ↦ destroy_variable_entry s d v ]
