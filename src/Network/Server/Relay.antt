-- ===== src/Network/Server/Relay.antt =====
-- A request for an object that this server does not have: it is numbered and handed to the server's
-- own message handler, or refused if it has been there already.
use csci402_projects.Base.{◌+◌, ◌*◌, suc, ℤ, pos, minus_one, int_eq, if◌then◌else◌}
use csci402_projects.Network.Message.{
  Message, ThreadId, Delivery, message_mailbox, error_reply, named_client,
}
use csci402_projects.Network.State.{Server, Outcome, answer}

-- The number that a request gets: unique per server as long as there are fewer than 100.
abbrev pub fresh_id : Server → Delivery → ℤ
fresh_id s d = pos (d.to_machine * 100 + s.ider)

abbrev pub own_handler : Delivery → ThreadId
own_handler d = record { machine_id = pos d.to_machine; thread_id = message_mailbox }

abbrev pub stamped : Server → Delivery → Message
stamped s d = record d.body {
  id = fresh_id s d;
  client_machine = d.from_machine;
  client_mailbox = d.from_box;
}

unfoldable pub relay : Server → Delivery → Outcome
relay s d = answer (record s { ider = suc s.ider }) (own_handler d) (stamped s d)

unfoldable pub relay_or_refuse : Server → Delivery → Outcome
unfolding relay
relay_or_refuse s d =
    if int_eq d.body.id minus_one then relay s d else answer s (named_client d.body) error_reply
