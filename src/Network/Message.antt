-- ===== src/Network/Message.antt =====
-- The messages of network/nettest.cc and threads/system.h, and the replies that the server builds.
-- A request code is two characters; a code that is none of these is `other`.
use csci402_projects.Base.{ℕ, ℤ, pos, minus_one, Bool, ◌&&◌, int_eq, String, Option, none}

pub data Request : Type 0 where
  aq rl wt sg bc cl dl cc_code dc cm dm gm sm hi ys no_reply other : Request

pub record Message : Type 0 where
  pub request : Request
  pub name : String
  pub name2 : String
  pub index : ℤ
  pub index2 : ℤ
  pub index3 : ℤ
  pub id : ℤ
  pub client_machine : ℤ
  pub client_mailbox : ℤ

-- A thread on the network: its machine, and the mailbox that it waits on.
pub record ThreadId : Type 0 where
  pub machine_id : ℤ
  pub thread_id : ℤ

unfoldable pub equals : ThreadId → ThreadId → Bool
equals a b = int_eq a.machine_id b.machine_id && int_eq a.thread_id b.thread_id

abbrev pub no_owner : ThreadId
no_owner = record { machine_id = minus_one; thread_id = minus_one }

-- One `postOffice->Send`: where to, and the mailbox that it names as its own, if the code sets it.
pub record Packet : Type 0 where
  pub to : ThreadId
  pub from_box : Option ℤ
  pub body : Message

-- What `postOffice->Receive` delivers, with the values that uninitialised memory happens to hold:
-- `junk` for the `index` of a new Message, `fill` for the elements of a new array.
pub record Delivery : Type 0 where
  pub from_machine : ℤ
  pub from_box : ℤ
  pub to_machine : ℕ
  pub body : Message
  pub junk : ℤ
  pub fill : ℕ → ℤ

abbrev pub mailbox : ℤ
mailbox = pos 0

abbrev pub message_mailbox : ℤ
message_mailbox = pos 1

-- The mailbox at which the server itself waits for the answer to a release.
abbrev pub release_mailbox : ℤ
release_mailbox = pos 9

unfoldable pub index_reply : ℤ → Message
index_reply i = record {
  request = hi;
  name = "index";
  name2 = "reply";
  index = i;
  index2 = pos 0;
  index3 = pos 0;
  id = minus_one;
  client_machine = minus_one;
  client_mailbox = minus_one;
}

unfoldable pub error_reply : Message
error_reply = record {
  request = hi;
  name = "error";
  name2 = "reply";
  index = minus_one;
  index2 = minus_one;
  index3 = minus_one;
  id = minus_one;
  client_machine = minus_one;
  client_mailbox = minus_one;
}

unfoldable pub success_reply : Message
success_reply = record {
  request = hi;
  name = "success";
  name2 = "reply";
  index = pos 0;
  index2 = pos 0;
  index3 = pos 0;
  id = minus_one;
  client_machine = minus_one;
  client_mailbox = minus_one;
}

abbrev pub packet : ThreadId → Message → Packet
packet t m = record { to = t; from_box = none; body = m }

-- The thread at the other end of the packet.
abbrev pub sender : Delivery → ThreadId
sender d = record { machine_id = d.from_machine; thread_id = d.from_box }

-- The thread that the message names as the client.
abbrev pub named_client : Message → ThreadId
named_client m = record { machine_id = m.client_machine; thread_id = m.client_mailbox }
