-- ===== src/SystemCalls/Returning.antt =====
-- What it is for a call to come to a value, and the calls on locks that do.
use csci402_projects.Base.{
  ℕ, suc, ℤ, pos_part, minus_one, ◌≡◌, ◌⊎◌, inl, inr, List, [], ◌∷◌, length, Bool, true, false, not,
  Option, none, some, Result, ok, arith, refl, ap, ◌∙◌, ◌>>=◌,
}
use csci402_projects.Threads.Kernel.{Kernel}
use csci402_projects.Threads.Lock.{is_held_by}
use csci402_projects.Threads.Condition.{broadcast}
use csci402_projects.Threads.Wakeups.{broadcast-tied}
use csci402_projects.SystemCalls.Objects.{
  Sys, Entry, max_locks, max_conditions, entry_at, through_pointer, is_held, is_own,
}
use csci402_projects.SystemCalls.Locks.{acquire_entry, release_entry, destroy_lock_entry}
use csci402_projects.SystemCalls.Conditions.{Returned, returned, waiting, create_condition_locked}
use csci402_projects.SystemCalls.Calls.{
  Call, acquires, releases, destroys_lock, destroys_condition, waits, signals, broadcasts,
  creates_lock, creates_condition, to_returned, perform,
}
use csci402_projects.SystemCalls.Sound.{entry_at-some}
use csci402_projects.SystemCalls.Keeps.{Sounds, branch}

-- The code came to a result.
abbrev pub IsOk {ℓ} : {A : Type ℓ} → Result A → Type ℓ
IsOk r = (x : _) × (r ≡ ok x)

-- The lock at the index, if there is one, was not deleted.
abbrev pub NotDeleted : Sys → ℤ → Type 0
NotDeleted s i = (e : Entry) → entry_at max_locks s.locks i ≡ some e → e.is_deleted ≡ false

-- Nobody waits on the condition variable, or it is tied to the lock.
abbrev pub TiedTo : Kernel → ℕ → ℕ → Type 0
TiedTo k c l = ((k.conditions c).queue ≡ []) ⊎ ((k.conditions c).waiting_lock ≡ some l)

-- What the three calls need that ask for the holder of a lock before they look at its marks, and what
-- the loop of Broadcast needs.
abbrev pub Allowed : Sys → Call → Type 0
Allowed s (acquires i) = NotDeleted s i
Allowed s (releases i) = NotDeleted s i
Allowed s (destroys_lock i) = NotDeleted s i
Allowed s (destroys_condition i) = Unit
Allowed s (waits c l) = Unit
Allowed s (signals c l) = Unit
Allowed s (broadcasts c l) =
    (e f : Entry)
    → entry_at max_conditions s.conditions c ≡ some e
    → entry_at max_locks s.locks l ≡ some f
    → TiedTo s.kernel e.object f.object
Allowed s (creates_lock read) = Unit
Allowed s (creates_condition read) = Unit

-- The call comes to a value.
abbrev pub Returns : Result Returned → Type 0
Returns r = (s' : Sys) × (v : ℤ) × (r ≡ ok (returned s' v))

-- It does, or it is a CreateCondition that sleeps in conditionLock->Acquire(), and comes to a value when
-- it goes on in any state with the lock.
abbrev pub Ends : Sys → ℕ → Call → Type 0
Ends s t (creates_condition read) =
    (Returns (perform s t (creates_condition read))
      ⊎ ((s' : Sys) × (perform s t (creates_condition read) ≡ ok (waiting s'))))
    × ((u : Sys) → Returns (ok (create_condition_locked u t)))
Ends s t call = Returns (perform s t call)

pub broadcast-ends :
    (k : Kernel) (c l : ℕ) (ws : List ℕ)
    → (k.conditions c).queue ≡ ws
    → TiedTo k c l
    → (k' : Kernel) × (broadcast (suc (length (k.conditions c).queue)) k c (some l) ≡ some k')
unfolding broadcast
broadcast-ends k c l [] e tied = (k, rw e refl)
broadcast-ends k c l (w ∷ ws) e (inl nobody) = cc
broadcast-ends k c l (w ∷ ws) e (inr tied) =
    let (k', ends, _, _, _) = broadcast-tied k c l w ws e tied in
    (k', ap (λ qs. broadcast (suc (length qs)) k c (some l)) e ∙ ends)

pub back : (s : Sys) (v : ℤ) → Returns (ok (returned s v))
back s v = (s, v, refl)

pub done {ℓ} : {A : Type ℓ} (x : A) → IsOk (ok x)
done x = (x, refl)

module _ (s : Sys) (h : Sounds s) (t : ℕ) where
  is_held-ok :
      (e : Entry) (next : Bool → Result (Sys × ℤ))
      → s.locks.alive e.object ≡ true
      → ((held : Bool) → IsOk (next held))
      → IsOk (is_held s t e >>= next)
  unfolding is_held through_pointer
  is_held-ok e next alive f = rw alive (f (is_held_by t (s.kernel.locks e.object).owner_thread))

  pub acquire_entry-ok :
      (index : ℤ) (e : Entry) → s.locks.alive e.object ≡ true → IsOk (acquire_entry s t index e)
  unfolding acquire_entry
  acquire_entry-ok index e alive = branch IsOk (not (is_own s t e)) _ _ (done _) (
      is_held-ok e _ alive (λ held. branch IsOk held _ _ (done _) (
        branch IsOk e.is_deleted _ _ (done _)
          (branch IsOk e.is_to_be_deleted _ _ (done _) (done _)))))

  pub release_entry-ok :
      (index : ℤ) (e : Entry) → s.locks.alive e.object ≡ true → IsOk (release_entry s t index e)
  unfolding release_entry
  release_entry-ok index e alive = is_held-ok e _ alive (λ held.
      branch IsOk (not held) _ _ (done _) (
        branch IsOk (not (is_own s t e)) _ _ (done _) (
          branch IsOk e.is_deleted _ _ (done _)
            (branch IsOk e.is_to_be_deleted _ _ (done _) (done _)))))

  pub destroy_lock_entry-ok :
      (index : ℤ) (e : Entry)
      → s.locks.alive e.object ≡ true
      → IsOk (destroy_lock_entry s t index e)
  unfolding destroy_lock_entry
  destroy_lock_entry-ok index e alive = branch IsOk (not (is_own s t e)) _ _ (done _) (
      is_held-ok e _ alive (λ held. branch IsOk held _ _ (done _) (
        branch IsOk e.is_to_be_deleted _ _ (done _)
          (branch IsOk e.is_deleted _ _ (done _) (done _)))))

  live-lock :
      (i : ℤ) (e : Entry)
      → NotDeleted s i
      → entry_at max_locks s.locks i ≡ some e
      → s.locks.alive e.object ≡ true
  live-lock i e kept found =
      h.locks.live (pos_part i) e (entry_at-some max_locks s.locks i e found) (kept e found)

  pub at_lock-ok :
      (index : ℤ) (next : Entry → Result (Sys × ℤ))
      → NotDeleted s index
      → ((e : Entry) → s.locks.alive e.object ≡ true → IsOk (next e))
      → (o : Option Entry) → entry_at max_locks s.locks index ≡ o
      → Returns (
          elim o as (λ x. Result (Sys × ℤ)) [ none ↦ ok (s, minus_one) | some e ↦ next e ] >>= λ r.
          ok (to_returned r))
  at_lock-ok index next kept f none found = back s _
  at_lock-ok index next kept f (some e) found =
      let (r, is_r) = f e (live-lock index e kept found) in (r.0, r.1, ground (arith, is_r))
