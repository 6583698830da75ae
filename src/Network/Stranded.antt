-- ===== src/Network/Stranded.antt =====
-- A condition that is destroyed while threads wait on it.
use csci402_projects.Base.{
  ℕ, ◌+◌, ◌≡◌, ◌≢◌, inl, inr, ◌⊎◌, none, arith, List, [], ◌∷◌, ◌++◌, pos_part, true, subst, sym,
}
use csci402_projects.Network.Message.{
  Message, ThreadId, Request, Delivery, aq, rl, wt, sg, bc, cl, dl, cc_code, dc, cm, dm, gm, sm,
}
use csci402_projects.Network.State.{
  Server, base, client, construct_server_lock, construct_server_condition,
  construct_monitor_variable, set_condition,
}
use csci402_projects.Network.Ensures.{Ensures, Ensures-apply}
use csci402_projects.Network.Invariant.{Tables}
use csci402_projects.Network.Reachable.{Steps-Tables}
use csci402_projects.Network.Keeps.{acquire_for_all-state}
use mathlib.Core.List.{append-nil, append_assoc}
use csci402_projects.Network.Server.Relay.{relay}
use csci402_projects.Network.Server.Locks.{acquire, release}
use csci402_projects.Network.Server.Conditions.{wait, released, signal, broadcast}
use csci402_projects.Network.Server.Create.{create_lock, create_condition, create_variable}
use csci402_projects.Network.Server.Destroy.{destroy_lock, destroy_condition, destroy_variable}
use csci402_projects.Network.Server.Variables.{get_variable, set_array_value}
use csci402_projects.Network.Server.Dispatch.{
  dispatch, serve, Step, receive, resume, Steps, here, next,
}

-- Entry `n` is doomed: it has a name, and is marked for deletion, and `queue` waits on it.
pub record Doomed (n : ℕ) (queue : List ThreadId) (s : Server) : Type 0 where
  pub named : (s.conditions n).name ≢ none
  pub marked : (s.conditions n).to_be_deleted ≡ true
  pub waiting : (s.conditions n).queue ≡ queue

module _ (s : Server) (d : Delivery) (n : ℕ) (q : List ThreadId) (doomed : Doomed n q s) where
  create_condition-Doomed : Tables d.to_machine s → Ensures (Doomed n q) (create_condition s d)
  unfolding create_condition relay construct_server_condition
  create_condition-Doomed v =
      ground
        (arith, v.conditions.unnamed (base d.to_machine + s.num_conditions) (inr (omega arith)))

  create_lock-Doomed : Ensures (Doomed n q) (create_lock s d)
  unfolding create_lock relay construct_server_lock
  create_lock-Doomed = ground arith

  create_variable-Doomed : Ensures (Doomed n q) (create_variable s d)
  unfolding create_variable relay construct_monitor_variable
  create_variable-Doomed = ground arith

  acquire-Doomed : Ensures (Doomed n q) (acquire s d)
  unfolding acquire
  acquire-Doomed = ground arith

  release-Doomed : Ensures (Doomed n q) (release s d)
  unfolding release
  release-Doomed = ground arith

  wait-Doomed : Ensures (Doomed n q) (wait s d)
  unfolding wait
  wait-Doomed = ground arith

  signal-Doomed : Ensures (Doomed n q) (signal s d)
  unfolding signal
  signal-Doomed = ground arith

  destroy_lock-Doomed : Ensures (Doomed n q) (destroy_lock s d)
  unfolding destroy_lock
  destroy_lock-Doomed = ground arith

  destroy_condition-Doomed : Ensures (Doomed n q) (destroy_condition s d)
  unfolding destroy_condition
  destroy_condition-Doomed = ground arith

  destroy_variable-Doomed : Ensures (Doomed n q) (destroy_variable s d)
  unfolding destroy_variable
  destroy_variable-Doomed = ground arith

  get_variable-Doomed : Ensures (Doomed n q) (get_variable s d)
  unfolding get_variable
  get_variable-Doomed = ground arith

  set_array_value-Doomed : Ensures (Doomed n q) (set_array_value s d)
  unfolding set_array_value
  set_array_value-Doomed = ground arith

  broadcast-Doomed : Ensures (Doomed n q) (broadcast s d)
  unfolding broadcast
  broadcast-Doomed =
      let c = s.conditions (pos_part d.body.index) in
      ground (
        arith,
        acquire_for_all-state (set_condition s d.body.index (record c { queue = [] })) d c.queue,
      )

  dispatch-Doomed : (r : Request) → Tables d.to_machine s → Ensures (Doomed n q) (dispatch r s d)
  unfolding dispatch
  dispatch-Doomed aq v = acquire-Doomed
  dispatch-Doomed rl v = release-Doomed
  dispatch-Doomed wt v = wait-Doomed
  dispatch-Doomed sg v = signal-Doomed
  dispatch-Doomed bc v = broadcast-Doomed
  dispatch-Doomed cl v = create_lock-Doomed
  dispatch-Doomed dl v = destroy_lock-Doomed
  dispatch-Doomed cc_code v = create_condition-Doomed v
  dispatch-Doomed dc v = destroy_condition-Doomed
  dispatch-Doomed cm v = create_variable-Doomed
  dispatch-Doomed dm v = destroy_variable-Doomed
  dispatch-Doomed gm v = get_variable-Doomed
  dispatch-Doomed sm v = set_array_value-Doomed
  dispatch-Doomed r v = doomed

-- Only the answer to a release can still bring a thread into the queue: the one that it concerns.
released-Doomed :
    (s : Server) (d : Delivery) (reply : Message) (n : ℕ) (q : List ThreadId)
    → Doomed n q s
    → Ensures (λ t. Doomed n q t ⊎ Doomed n (q ++ (client d ∷ [])) t) (released s d reply)
unfolding released
released-Doomed s d reply n q doomed = ground arith

Step-Doomed :
    {m : ℕ} {s t : Server} (n : ℕ) (q : List ThreadId)
    → Step m s t
    → Tables m s
    → Doomed n q s
    → (more : List ThreadId) × Doomed n (q ++ more) t
unfolding serve
Step-Doomed {s} {t} n q (receive d ps own r e) v doomed = (
  [],
  subst (λ q'. Doomed n q' t) (sym (append-nil q))
      (Ensures-apply (Doomed n q) (dispatch d.body.request s d)
        (dispatch-Doomed s d n q doomed d.body.request (subst (λ k. Tables k s) (sym own) v)) e),
)
Step-Doomed {s} {t} n q (resume d reply ps w e) v doomed =
    elim (Ensures-apply _ (released s d reply) (released-Doomed s d reply n q doomed) e) [
      | inl same ↦ ([], subst (λ q'. Doomed n q' t) (sym (append-nil q)) same)
      | inr more ↦ (client d ∷ [], more)
    ]

-- A condition with a name that is marked for deletion keeps those who wait on it, in their order, in
-- its queue, and stays marked, whatever steps the server makes.
pub Steps-Doomed :
    {m : ℕ} {s t : Server} (n : ℕ) (q : List ThreadId)
    → Steps m s t
    → Tables m s
    → Doomed n q s
    → (more : List ThreadId) × Doomed n (q ++ more) t
Steps-Doomed {s} n q here v doomed = ([], subst (λ q'. Doomed n q' s) (sym (append-nil q)) doomed)
Steps-Doomed {t} n q (next r st) v doomed =
    let (before, d) = Steps-Doomed n q r v doomed in
    let (more, d') = Step-Doomed n (q ++ before) st (Steps-Tables r v) d in
    (before ++ more, subst (λ q'. Doomed n q' t) (append_assoc q before more) d')
