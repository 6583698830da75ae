-- ===== src/Network/Server/Variables.antt =====
-- GM and SM.
use csci402_projects.Base.{
  ℤ, pos, negsuc, pos_part, Bool, true, if◌then◌else◌, out_of_range, update, none, some, ◌>>=◌,
}
use csci402_projects.Network.Message.{Delivery, error_reply, success_reply, index_reply}
use csci402_projects.Network.State.{
  Server, MonitorVariable, Outcome, max_entries, entry_at, set_variable, client, answer,
}
use csci402_projects.Network.Server.Relay.{relay_or_refuse}

-- `index2 < 0 || index2 >= arraySize`
abbrev pub outside : ℤ → ℤ → Bool
outside (pos size) i = out_of_range size i
outside (negsuc size) i = true

unfoldable pub get_entry : Server → Delivery → MonitorVariable → Outcome
get_entry s d v =
    if out_of_range max_entries d.body.index
    then answer s (client d) error_reply
    else if outside v.array_size d.body.index2
    then answer s (client d) error_reply
    else answer s (client d) (index_reply (v.array (pos_part d.body.index2)))

unfoldable pub get_variable : Server → Delivery → Outcome
unfolding get_entry relay_or_refuse
get_variable s d = do
  v ← entry_at s.variables d.body.index
  elim v.name [ none ↦ relay_or_refuse s d | some _ ↦ get_entry s d v ]

unfoldable pub set_entry : Server → Delivery → MonitorVariable → Outcome
set_entry s d v =
    if out_of_range max_entries d.body.index
    then answer s (client d) error_reply
    else if outside v.array_size d.body.index2
    then answer s (client d) error_reply
    else answer
        (set_variable s d.body.index
          (record v { array = update v.array (pos_part d.body.index2) d.body.index3 }))
        (client d) success_reply

unfoldable pub set_array_value : Server → Delivery → Outcome
unfolding set_entry relay_or_refuse
set_array_value s d = do
  v ← entry_at s.variables d.body.index
  elim v.name [ none ↦ relay_or_refuse s d | some _ ↦ set_entry s d v ]
