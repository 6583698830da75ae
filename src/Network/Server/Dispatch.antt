-- ===== src/Network/Server/Dispatch.antt =====
-- The chain of tests on the request code, and the steps of the server thread.
use csci402_projects.Base.{ℕ, List, ◌≡◌, ok}
use csci402_projects.Network.Message.{
  Message, Request, Packet, Delivery, aq, rl, wt, sg, bc, cl, dl, cc_code, dc, cm, dm, gm, sm, hi,
  ys, no_reply, other, sender, error_reply,
}
use csci402_projects.Network.State.{Server, ready, awaiting_release, Outcome, answer}
use csci402_projects.Network.Server.Locks.{acquire, release}
use csci402_projects.Network.Server.Conditions.{wait, released, signal, broadcast}
use csci402_projects.Network.Server.Create.{create_lock, create_condition, create_variable}
use csci402_projects.Network.Server.Destroy.{destroy_lock, destroy_condition, destroy_variable}
use csci402_projects.Network.Server.Variables.{get_variable, set_array_value}

-- `hi`, `ys` and `no_reply` are no requests to the server.
unfoldable pub dispatch : Request → Server → Delivery → Outcome
dispatch aq s d = acquire s d
dispatch rl s d = release s d
dispatch wt s d = wait s d
dispatch sg s d = signal s d
dispatch bc s d = broadcast s d
dispatch cl s d = create_lock s d
dispatch dl s d = destroy_lock s d
dispatch cc_code s d = create_condition s d
dispatch dc s d = destroy_condition s d
dispatch cm s d = create_variable s d
dispatch dm s d = destroy_variable s d
dispatch gm s d = get_variable s d
dispatch sm s d = set_array_value s d
dispatch hi s d = answer s (sender d) error_reply
dispatch ys s d = answer s (sender d) error_reply
dispatch no_reply s d = answer s (sender d) error_reply
dispatch other s d = answer s (sender d) error_reply

-- The body of the server's loop for one delivery.
unfoldable pub serve : Server → Delivery → Outcome
unfolding dispatch
serve s d = dispatch d.body.request s d

-- The server on machine `m` takes a delivery from mailbox 0 when it is ready, and from mailbox 9
-- when it waits there. The post office delivers what is addressed to its own machine.
pub data Step (m : ℕ) (s : Server) (t : Server) : Type 0 where
  receive :
      (d : Delivery) (ps : List Packet)
      → d.to_machine ≡ m
      → s.mode ≡ ready
      → serve s d ≡ ok (t, ps)
      → Step m s t
  resume :
      (d : Delivery) (reply : Message) (ps : List Packet)
      → s.mode ≡ awaiting_release d
      → released s d reply ≡ ok (t, ps)
      → Step m s t

pub data Steps (m : ℕ) (s : Server) : Server → Type 0 where
  here : Steps m s s
  next : {t u : Server} → Steps m s t → Step m t u → Steps m s u
