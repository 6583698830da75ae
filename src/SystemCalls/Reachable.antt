-- ===== src/SystemCalls/Reachable.antt =====
-- The tables are in order in every state that user programs reach.
use csci402_projects.Base.{ℕ, ℤ, Result, ok, fault, ◌>>=◌, subst}
use csci402_projects.SystemCalls.Objects.{Sys, Entry, through_pointer}
use csci402_projects.SystemCalls.Calls.{
  Call, acquires, releases, destroys_lock, destroys_condition, waits, signals, broadcasts,
  creates_lock, creates_condition, to_returned, perform, Step, calls, sleeps, goes_on, wakes, runs,
  Steps, here, next,
}
use csci402_projects.SystemCalls.Conditions.{wait_woken}
use csci402_projects.SystemCalls.Keeps.{
  Sounds, branch, AllSys, AllLeft, AllReturned, acquire_syscall-Sounds, release_syscall-Sounds,
  destroy_lock-Sounds, create_lock-Sounds, kernel-Sounds,
}
use csci402_projects.SystemCalls.KeepsConditions.{
  wait_syscall-Sounds, signal_syscall-Sounds, broadcast_syscall-Sounds, create_condition-Sounds,
  create_condition_locked-Sounds, destroy_condition-Sounds,
}

to_returned-All :
    (r : Result (Sys × ℤ)) → AllSys Sounds r → AllReturned Sounds (r >>= λ x. ok (to_returned x))
to_returned-All (fault reason) h = tt
to_returned-All (ok r) h = h

perform-Sounds : (s : Sys) (t : ℕ) (call : Call) → Sounds s → AllReturned Sounds (perform s t call)
unfolding perform
perform-Sounds s t (acquires i) h = to_returned-All _ (acquire_syscall-Sounds s h t i)
perform-Sounds s t (releases i) h = to_returned-All _ (release_syscall-Sounds s h t i)
perform-Sounds s t (destroys_lock i) h = to_returned-All _ (destroy_lock-Sounds s h t i)
perform-Sounds s t (destroys_condition i) h = destroy_condition-Sounds s h t i
perform-Sounds s t (waits c l) h = wait_syscall-Sounds s h t c l
perform-Sounds s t (signals c l) h = signal_syscall-Sounds s h t c l
perform-Sounds s t (broadcasts c l) h = broadcast_syscall-Sounds s h t c l
perform-Sounds s t (creates_lock read) h = create_lock-Sounds s h t read
perform-Sounds s t (creates_condition read) h = create_condition-Sounds s h t read

abbrev AllWoken : Result Sys → Type 0
AllWoken (ok s) = Sounds s
AllWoken (fault reason) = Unit

wait_woken-Sounds : (s : Sys) (t : ℕ) (l : Entry) → Sounds s → AllWoken (wait_woken s t l)
unfolding wait_woken through_pointer
wait_woken-Sounds s t l h = branch AllWoken (s.locks.alive l.object) _ _ (kernel-Sounds s h _) tt

Step-Sounds : {s s' : Sys} → Step s s' → Sounds s → Sounds s'
Step-Sounds {s} (calls t call s' v e) h = subst (AllReturned Sounds) e (perform-Sounds s t call h)
Step-Sounds {s} (sleeps t call s' e) h = subst (AllReturned Sounds) e (perform-Sounds s t call h)
Step-Sounds {s} (goes_on t s' v e) h =
    subst (AllLeft Sounds) e (create_condition_locked-Sounds s h t)
Step-Sounds {s} (wakes t l s' e) h = subst AllWoken e (wait_woken-Sounds s t l h)
Step-Sounds {s} (runs k) h = kernel-Sounds s h k

-- In every state that user programs reach by their calls from one where the tables are in order, they
-- are in order: the lock or condition variable of an entry is still there unless the entry says that it
-- was deleted, and no two entries of a table share one.
pub Steps-Sounds : {s s' : Sys} → Steps s s' → Sounds s → Sounds s'
Steps-Sounds here h = h
Steps-Sounds (next steps step) h = Step-Sounds step (Steps-Sounds steps h)
