-- ===== src/Network/NullSignal.antt =====
-- A signal to a condition that nobody waits on.
use csci402_projects.Base.{
  ℕ, ◌≡◌, ◌<◌, fault, none, some, arith, [], ◌∷◌, String, pos, true, false, null_pointer,
}
use csci402_projects.Network.Message.{Delivery, success_reply}
use csci402_projects.Network.State.{Server, client, answer, set_lock, max_entries}
use csci402_projects.Network.Server.Locks.{release, is_owner}
use csci402_projects.Network.Server.Conditions.{signal}

abbrev pub LiveLock : Server → ℕ → Type 0
LiveLock s n =
    (n < max_entries) × ((a : String) × ((s.locks n).name ≡ some a)) × ((s.locks n).deleted ≡ false)

abbrev pub LiveCondition : Server → ℕ → Type 0
LiveCondition s n =
    (n < max_entries)
    × ((a : String) × ((s.conditions n).name ≡ some a))
    × ((s.conditions n).deleted ≡ false)
    × ((s.conditions n).to_be_deleted ≡ false)

-- If nobody waits on a live condition and nobody for a live lock, a signal on the two succeeds, and
-- then the release of the lock by its owner runs through a null pointer.
pub release-signal_empty :
    (s : Server) (d r : Delivery) (c n : ℕ)
    → LiveCondition s c
    → (s.conditions c).queue ≡ []
    → LiveLock s n
    → (s.locks n).queue ≡ []
    → d.body.index ≡ pos c
    → d.body.index2 ≡ pos n
    → r.body.index ≡ pos n
    → is_owner r (s.locks n) ≡ true
    → (t : Server) × (signal s d ≡ answer t (client d) success_reply)
      × (release t r ≡ fault null_pointer)
unfolding signal release
release-signal_empty s d r c n (room, (a, named), live, kept) nobody (room', (b, named'), live')
      idle at_c at_n at_n' own =
    (set_lock s (pos n) (record (s.locks n) { queue = none ∷ [] }), ground arith, ground arith)
