-- ===== src/Network/Grants.antt =====
-- Who becomes the owner of a lock is told so.
use csci402_projects.Base.{
  ℕ, ◌≡◌, refl, ◌⊎◌, inl, ok, fault, arith, List, [], ◌∷◌, true, false, pos_part,
}
use csci402_projects.Network.Keeps.{acquire_for_all-state}
use csci402_projects.Network.Message.{
  Request, Delivery, Packet, aq, rl, wt, sg, bc, cl, dl, cc_code, dc, cm, dm, gm, sm, packet,
  success_reply, no_owner,
}
use csci402_projects.Network.State.{
  Server, Outcome, construct_server_lock, construct_server_condition, construct_monitor_variable,
  set_condition,
}
use csci402_projects.Network.Server.Relay.{relay}
use csci402_projects.Network.Server.Locks.{acquire, release}
use csci402_projects.Network.Server.Conditions.{wait, signal, broadcast}
use csci402_projects.Network.Server.Create.{create_lock, create_condition, create_variable}
use csci402_projects.Network.Server.Destroy.{destroy_lock, destroy_condition, destroy_variable}
use csci402_projects.Network.Server.Variables.{get_variable, set_array_value}
use csci402_projects.Network.Server.Dispatch.{dispatch, serve}

-- Packet `q` is among those sent.
abbrev pub Sent : Packet → List Packet → Type 0
Sent q [] = true ≡ false
Sent q (p ∷ ps) = (p ≡ q) ⊎ Sent q ps

-- Lock `j` has the owner that it had, or none, or one who was sent a success.
abbrev pub Grants : Server → ℕ → Outcome → Type 0
Grants s j (fault e) = Unit
Grants s j (ok (t, ps)) =
    ((t.locks j).owner ≡ (s.locks j).owner)
    ⊎ ((t.locks j).owner ≡ no_owner)
    ⊎ Sent (packet ((t.locks j).owner) success_reply) ps

module _ (s : Server) (d : Delivery) (j : ℕ) where
  acquire-Grants : Grants s j (acquire s d)
  unfolding acquire
  acquire-Grants = ground arith

  release-Grants : Grants s j (release s d)
  unfolding release
  release-Grants = ground arith

  wait-Grants : Grants s j (wait s d)
  unfolding wait
  wait-Grants = ground arith

  signal-Grants : Grants s j (signal s d)
  unfolding signal
  signal-Grants = ground arith

  broadcast-Grants : Grants s j (broadcast s d)
  unfolding broadcast
  broadcast-Grants =
      let c = s.conditions (pos_part d.body.index) in
      ground (
        arith,
        acquire_for_all-state (set_condition s d.body.index (record c { queue = [] })) d c.queue,
      )

  create_lock-Grants : Grants s j (create_lock s d)
  unfolding create_lock relay construct_server_lock
  create_lock-Grants = ground arith

  create_condition-Grants : Grants s j (create_condition s d)
  unfolding create_condition relay construct_server_condition
  create_condition-Grants = ground arith

  create_variable-Grants : Grants s j (create_variable s d)
  unfolding create_variable relay construct_monitor_variable
  create_variable-Grants = ground arith

  destroy_lock-Grants : Grants s j (destroy_lock s d)
  unfolding destroy_lock
  destroy_lock-Grants = ground arith

  destroy_condition-Grants : Grants s j (destroy_condition s d)
  unfolding destroy_condition
  destroy_condition-Grants = ground arith

  destroy_variable-Grants : Grants s j (destroy_variable s d)
  unfolding destroy_variable
  destroy_variable-Grants = ground arith

  get_variable-Grants : Grants s j (get_variable s d)
  unfolding get_variable
  get_variable-Grants = ground arith

  set_array_value-Grants : Grants s j (set_array_value s d)
  unfolding set_array_value
  set_array_value-Grants = ground arith

  dispatch-Grants : (r : Request) → Grants s j (dispatch r s d)
  unfolding dispatch
  dispatch-Grants aq = acquire-Grants
  dispatch-Grants rl = release-Grants
  dispatch-Grants wt = wait-Grants
  dispatch-Grants sg = signal-Grants
  dispatch-Grants bc = broadcast-Grants
  dispatch-Grants cl = create_lock-Grants
  dispatch-Grants dl = destroy_lock-Grants
  dispatch-Grants cc_code = create_condition-Grants
  dispatch-Grants dc = destroy_condition-Grants
  dispatch-Grants cm = create_variable-Grants
  dispatch-Grants dm = destroy_variable-Grants
  dispatch-Grants gm = get_variable-Grants
  dispatch-Grants sm = set_array_value-Grants
  dispatch-Grants r = inl refl

-- Whatever the server is asked, if it does not fault then every lock has the owner that it had before,
-- or none, or an owner to whom a success was sent: nobody is made the owner without being told.
pub serve-Grants : (s : Server) (d : Delivery) (j : ℕ) → Grants s j (serve s d)
unfolding serve
serve-Grants s d j = dispatch-Grants s d j d.body.request
