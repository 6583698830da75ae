-- ===== src/Network/Asking.antt =====
-- Whom the message handler asks, and what it answers when it is asked.
use csci402_projects.Base.{
  ℕ, zero, suc, ◌+◌, ◌≤◌, ◌<◌, ◌≡◌, ◌≢◌, inl, inr, ◌⊎◌, ok, Option, none, some, arith, List, [],
  ◌∷◌, if◌then◌else◌, ◌==◌, int_eq, pos, ltb,
}
use csci402_projects.Network.Message.{Message, Delivery, Packet, ys, no_reply}
use csci402_projects.Network.State.{Server, find_lock_by_name, base}
use csci402_projects.Network.Names.{Found, find-IsTable}
use csci402_projects.Network.Invariant.{Tables}
use csci402_projects.Network.Handler.{Handler, ask_others, to_own_server, vote, vote_create_lock}

abbrev pub count_to : ℕ → List Packet → ℕ
count_to machine [] = 0
count_to machine (p ∷ ps) =
    if int_eq p.to.machine_id (pos machine) then suc (count_to machine ps) else count_to machine ps

-- How often the loop from server `i` with `left` rounds asks server `k`.
count_to-ask_others :
    (self k : ℕ) (m : Message) (i left : ℕ)
    → count_to k (ask_others self m i left)
      ≡ (if k == self then 0 else if ltb k i then 0 else if ltb k (i + left) then 1 else 0)
unfolding ask_others
count_to-ask_others self k m i zero = ground arith
count_to-ask_others self k m i (suc left) =
    ground (arith, count_to-ask_others self k m (suc i) left)

-- With n servers the handler of server `self` asks each of the servers 0 to n - 1 but its own exactly
-- once, and no other.
pub ask_others_once :
    (self k n : ℕ) (m : Message)
    → count_to k (ask_others self m 0 n) ≡ (if k == self then 0 else if ltb k n then 1 else 0)
ask_others_once self k n m = ground (arith, count_to-ask_others self k m 0 n)

vote-Found :
    (s : Server) (h : Handler) (d : Delivery) (r : Option ℕ)
    → Tables d.to_machine s
    → find_lock_by_name s d.body.name d.to_machine ≡ ok r
    → Found (λ i. (s.locks i).name) d.body.name (base d.to_machine) s.num_locks r
    → (((j : ℕ) × ((s.locks j).name ≡ some d.body.name))
        × (vote_create_lock s h d ≡ ok (h, to_own_server d.to_machine d.body ∷ vote d ys ∷ [])))
      ⊎ (((j : ℕ)
            → base d.to_machine ≤ j
            → j < base d.to_machine + s.num_locks
            → (s.locks j).name ≢ some d.body.name)
          × (vote_create_lock s h d ≡ ok (h, vote d no_reply ∷ [])))
unfolding vote_create_lock
vote-Found s h d none v e absent = inr (absent, rw e)
vote-Found s h d (some j) v e hit = inl ((j, hit.2), ground (arith, e, hit, v.locks.fits))

-- Asked whether it has a lock of a name, a handler whose server's tables are in order says yes, and
-- passes the request to its server, if an entry has the name; otherwise it says no, and no lock that
-- its server made has the name.
pub vote_create_lock_lem :
    (s : Server) (h : Handler) (d : Delivery)
    → Tables d.to_machine s
    → (((j : ℕ) × ((s.locks j).name ≡ some d.body.name))
        × (vote_create_lock s h d ≡ ok (h, to_own_server d.to_machine d.body ∷ vote d ys ∷ [])))
      ⊎ (((j : ℕ)
            → base d.to_machine ≤ j
            → j < base d.to_machine + s.num_locks
            → (s.locks j).name ≢ some d.body.name)
          × (vote_create_lock s h d ≡ ok (h, vote d no_reply ∷ [])))
unfolding find_lock_by_name
vote_create_lock_lem s h d v =
    let (r, e, hit) =
      find-IsTable (λ i. (s.locks i).name) d.body.name (base d.to_machine) s.num_locks v.locks in
    vote-Found s h d r v e hit
