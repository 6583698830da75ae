-- ===== src/Network/Line.antt =====
-- The line at a lock: its owner, and then those who wait for it, in order.
use csci402_projects.Base.{
  ℕ, ◌≡◌, refl, ◌∙◌, sym, ◌⊎◌, Option, none, some, true, false, arith, List, [], ◌∷◌, ◌++◌, map,
  pos_part, if◌then◌else◌,
}
use mathlib.Core.List.{append-nil, append_assoc}
use csci402_projects.Network.Keeps.{acquire_for_all-state}
use csci402_projects.Network.Message.{ThreadId, Request, Delivery, equals, no_owner, aq, sg, bc}
use csci402_projects.Network.State.{Server, ServerLock, client, set_condition}
use csci402_projects.Network.Ensures.{Ensures}
use csci402_projects.Network.Server.Locks.{acquire, release}
use csci402_projects.Network.Server.Conditions.{wait, signal, broadcast, move_all}

abbrev pub line : ServerLock → List (Option ThreadId)
line l = if equals l.owner no_owner then l.queue else some l.owner ∷ l.queue

-- The thread at the head of the queue, if there is one, is not the mark for no owner.
abbrev pub HeadIsThread : List (Option ThreadId) → Type 0
HeadIsThread [] = Unit
HeadIsThread (none ∷ rest) = Unit
HeadIsThread (some t ∷ rest) = equals t no_owner ≡ false

-- The line stays, or `new` join it at the end, or the owner leaves it.
abbrev pub Moves : List (Option ThreadId) → ServerLock → ServerLock → Type 0
Moves new l l' = (line l' ≡ line l) ⊎ (line l' ≡ line l ++ new) ⊎ (line l ≡ some l.owner ∷ line l')

equals-no_owner : equals no_owner no_owner ≡ true
unfolding equals
equals-no_owner = refl

-- What `Remove` gives: the head, or a null pointer.
abbrev pub first : List ThreadId → Option ThreadId
first [] = none
first (t ∷ rest) = some t

-- The loop of a broadcast appends.
pub move_all-append :
    (ts : List ThreadId) (queue : List (Option ThreadId))
    → move_all ts queue ≡ queue ++ map (λ t. some t) ts
unfolding move_all
move_all-append [] queue = sym (append-nil queue)
move_all-append (t ∷ ts) queue =
    move_all-append ts (queue ++ (some t ∷ [])) ∙ append_assoc queue (some t ∷ []) _

-- Who joins the line of lock `j` when the server takes request `r`.
unfoldable pub joins : Request → Server → Delivery → ℕ → List (Option ThreadId)
joins aq s d j = some (client d) ∷ []
joins sg s d j = first (s.conditions (pos_part d.body.index)).queue ∷ []
joins bc s d j = map (λ t. some t) (s.conditions (pos_part d.body.index)).queue
joins _ s d j = []

module _ (s : Server) (d : Delivery) (j : ℕ) where
  abbrev pub MovesBy : List (Option ThreadId) → Server → Type 0
  MovesBy new t = Moves new (s.locks j) (t.locks j)

  pub acquire-Moves : Ensures (MovesBy (some (client d) ∷ [])) (acquire s d)
  unfolding acquire
  acquire-Moves = ground arith

  module _ (head : HeadIsThread (s.locks j).queue) where
    pub release-Moves : Ensures (MovesBy []) (release s d)
    unfolding release
    release-Moves = ground (arith, equals-no_owner)

    pub wait-Moves : Ensures (MovesBy []) (wait s d)
    unfolding wait
    wait-Moves = ground (arith, equals-no_owner)

  pub signal-Moves :
      Ensures (MovesBy (first (s.conditions (pos_part d.body.index)).queue ∷ [])) (signal s d)
  unfolding signal
  signal-Moves = ground arith

  pub broadcast-Moves :
      Ensures
        (MovesBy (map (λ t. some t) (s.conditions (pos_part d.body.index)).queue))
        (broadcast s d)
  unfolding broadcast
  broadcast-Moves =
      let c = s.conditions (pos_part d.body.index) in
      ground (
        arith,
        move_all-append c.queue (s.locks (pos_part d.body.index2)).queue,
        acquire_for_all-state (set_condition s d.body.index (record c { queue = [] })) d c.queue,
      )
