-- ===== src/Threads/Safety.antt =====
-- The invariant holds in every state that the threads reach.
use csci402_projects.Base.{
  ℕ, ◌≡◌, refl, sym, subst, Option, none, some, List, [], ◌∷◌, arith, inl, inr, Bool-cases, ◌==◌,
  ◌∙◌,
}
use csci402_projects.Threads.Kernel.{
  Kernel, Stage, user, in_p, in_acquire, in_wait, sleep, set_condition,
}
use csci402_projects.Threads.Lock.{release, hand_over}
use csci402_projects.Threads.Condition.{wait, wait_tied, wait_on}
use csci402_projects.Threads.Inv.{Inv}
use csci402_projects.Threads.Moves.{park_condition}
use csci402_projects.Threads.Parking.{park_condition-Places, tie-Places}
use csci402_projects.Threads.System.{
  Call, p_on, v_on, acquires, releases, waits, signals, yields, finishes, perform, resume, Step,
  calls, forks, resumes, interrupts, wakes, Steps, here, next,
}
use csci402_projects.Threads.Calls.{
  switch_to-Inv, set_user-Inv, acquire-Inv, p-Inv, release-Inv, yield-Inv, finish-Inv, fork-Inv,
  v-Inv, signal-Inv, wake-Inv,
}

hand_over-current : (k : Kernel) (l : ℕ) (qs : List ℕ) → (hand_over k l qs).current ≡ k.current
unfolding hand_over
hand_over-current k l [] = refl
hand_over-current k l (w ∷ rest) = refl

release-current : (k : Kernel) (r l : ℕ) → (release k r l).current ≡ k.current
unfolding release
release-current k r l = ground (arith, hand_over-current k l (k.locks l).queue)

module _ (k : Kernel) (inv : Inv k) (r : ℕ) (now : k.current ≡ some r)
    (at_user : k.stage r ≡ user) where
  wait_on-Inv : (c l : ℕ) → Inv (wait_on k r c l)
  unfolding wait_on sleep
  wait_on-Inv c l =
      let after = release-Inv k inv r now l at_user in
      switch_to-Inv (park_condition (release k r l) r c l) (
        park_condition-Places (release k r l) after.places r
          (after.runs r (release-current k r l ∙ now)) c l)

  tie-Inv : (c l : ℕ) → Inv (set_condition k c (record (k.conditions c) { waiting_lock = some l }))
  tie-Inv c l = record { places = tie-Places k inv.places c l; runs = λ u e. inv.runs u e }

module _ (k : Kernel) (inv : Inv k) (r : ℕ) (now : k.current ≡ some r)
    (at_user : k.stage r ≡ user) where
  wait_tied-Inv : (c l : ℕ) (m : Option ℕ) → Inv (wait_tied k r c l m)
  unfolding wait_tied
  wait_tied-Inv c l none = wait_on-Inv _ (tie-Inv k inv r now at_user c l) r now at_user c l
  wait_tied-Inv c l (some m) = elim (Bool-cases (m == l)) [
    | inl same ↦ rw same (wait_on-Inv k inv r now at_user c l)
    | inr differs ↦ rw differs inv
  ]

  wait-Inv : (c : ℕ) (l : Option ℕ) → Inv (wait k r c l)
  unfolding wait
  wait-Inv c none = inv
  wait-Inv c (some l) = wait_tied-Inv c l (k.conditions c).waiting_lock

  perform-Inv : (call : Call) → Inv (perform k r call)
  unfolding perform
  perform-Inv (p_on s) = p-Inv k inv r now s
  perform-Inv (v_on s) = v-Inv k inv s
  perform-Inv (acquires l) = acquire-Inv k inv r now l
  perform-Inv (releases l) = release-Inv k inv r now l at_user
  perform-Inv (waits c l) = wait-Inv c l
  perform-Inv (signals c l) = signal-Inv k inv c l
  perform-Inv yields = yield-Inv k inv r now
  perform-Inv finishes = finish-Inv k inv r now

resume-Inv : (k : Kernel) (r : ℕ) (g : Stage) → Inv k → k.current ≡ some r → Inv (resume k r g)
unfolding resume
resume-Inv k r user inv now = inv
resume-Inv k r (in_p s) inv now = p-Inv k inv r now s
resume-Inv k r (in_acquire l) inv now = set_user-Inv k inv r now
resume-Inv k r (in_wait c l) inv now = acquire-Inv k inv r now l

Step-Inv : {k k' : Kernel} → Step k k' → Inv k → Inv k'
Step-Inv {k} (calls r call now at_user e) inv =
    subst Inv (sym e) (perform-Inv k inv r now at_user call)
Step-Inv {k} (forks r u now fresh e) inv = subst Inv (sym e) (fork-Inv k inv r now u fresh)
Step-Inv {k} (resumes r now e) inv = subst Inv (sym e) (resume-Inv k r (k.stage r) inv now)
Step-Inv {k} (interrupts s e) inv = subst Inv (sym e) (v-Inv k inv s)
Step-Inv {k} (wakes idle e) inv = subst Inv (sym e) (wake-Inv k inv)

-- In every state that the threads reach from one that meets the invariant, the invariant holds: every
-- thread is in at most one queue, once, and is then blocked in the operation of that queue; those on
-- the ready list are ready and the current one is running; and every lock is free exactly if it has
-- no owner, keeps no queue while it is free, does not keep its owner waiting, and is waited for or
-- owned by each thread that is in Acquire for it.
pub Steps-Inv : {k k' : Kernel} → Steps k k' → Inv k → Inv k'
Steps-Inv here inv = inv
Steps-Inv (next r st) inv = Step-Inv st (Steps-Inv r inv)
