-- ===== src/SystemCalls/KeepsConditions.antt =====
-- The calls on condition variables keep the order of the tables.
use csci402_projects.Base.{
  ℕ, int_eq, minus_one, ℤ, pos_part, ◌≡◌, Bool-cases, true, not, ◌&&◌, ◌||◌, inl, inr, Option, none,
  some, refl, Result, is_empty,
}
use csci402_projects.Threads.Kernel.{Kernel}
use csci402_projects.Threads.Lock.{is_held_by, acquire}
use csci402_projects.Threads.Condition.{wait, signal}
use csci402_projects.SystemCalls.Objects.{
  Sys, Objects, Entry, max_locks, max_conditions, entry_at, find_null, delete_object, mark_entry,
  through_pointer, is_held, is_own, with_kernel,
}
use csci402_projects.SystemCalls.Conditions.{
  Returned, either_deleted, with_held, wait_entries, with_both, with_entries, wait_syscall,
  delete_if_unused, signal_entries, signal_syscall, broadcast_left, broadcast_all,
  broadcast_entries, broadcast_syscall, create_condition_at, create_condition_locked,
  create_condition_named, create_condition, destroy_condition_entry, destroy_condition_at,
  destroy_condition,
}
use csci402_projects.SystemCalls.Sound.{
  Sound, entry_at-some, construct-Sound, delete_object-Sound, mark_entry-Sound, mark_entry-here,
}
use csci402_projects.SystemCalls.Keeps.{Sounds, AllLeft, AllReturned, branch, kernel-Sounds}

module _ (s : Sys) (h : Sounds s) where
  at_conditions : (o : Objects) → Sound o → Sounds (record s { conditions = o })
  at_conditions o g = record { locks = h.locks; conditions = g }

  delete_if_unused-Sounds :
      (i : ℕ) (c : Entry) → s.conditions.entries i ≡ some c → Sounds (delete_if_unused s i c)
  unfolding delete_if_unused
  delete_if_unused-Sounds i c at_i =
      branch Sounds (c.is_to_be_deleted && is_empty (s.kernel.conditions c.object).queue) _ _
        (at_conditions (delete_object s.conditions i c)
          (delete_object-Sound s.conditions i c h.conditions at_i))
        h

  through_pointer-Sounds :
      (o : Objects) (e : Entry) (next : Result Returned)
      → AllReturned Sounds next
      → AllReturned Sounds (through_pointer o e next)
  unfolding through_pointer
  through_pointer-Sounds o e next g = branch (AllReturned Sounds) (o.alive e.object) _ _ g tt

  with_held-Sounds :
      (t : ℕ) (c l : Entry) (next : Result Returned)
      → AllReturned Sounds next
      → AllReturned Sounds (with_held s t c l next)
  unfolding with_held is_held through_pointer
  with_held-Sounds t c l next g = elim (Bool-cases (s.locks.alive l.object)) [
    | inl on ↦ rw on (
        branch (AllReturned Sounds) (not (is_held_by t (s.kernel.locks l.object).owner_thread)) _ _
          h (branch (AllReturned Sounds) (s.conditions.alive c.object) _ _ g tt))
    | inr off ↦ rw off tt
  ]

  with_entries-Sounds :
      (index_c index_l : ℤ) (next : Entry → Entry → Result Returned)
      → ((c l : Entry)
          → s.conditions.entries (pos_part index_c) ≡ some c
          → AllReturned Sounds (next c l))
      → AllReturned Sounds (with_entries s index_c index_l next)
  unfolding with_entries
  with_entries-Sounds index_c index_l next f =
      both (entry_at max_conditions s.conditions index_c) refl (entry_at max_locks s.locks index_l)
    where
      both :
          (c : Option Entry)
          → entry_at max_conditions s.conditions index_c ≡ c
          → (l : Option Entry) → AllReturned Sounds (with_both s c l next)
      both none at_c l = h
      both (some c) at_c none = h
      both (some c) at_c (some l) = f c l (entry_at-some max_conditions s.conditions index_c c at_c)

module _ (s : Sys) (h : Sounds s) (t : ℕ) where
  pub wait_syscall-Sounds :
      (index_c index_l : ℤ) → AllReturned Sounds (wait_syscall s t index_c index_l)
  unfolding wait_syscall wait_entries
  wait_syscall-Sounds index_c index_l =
      with_entries-Sounds s h index_c index_l (wait_entries s t) (λ c l at_c.
        branch (AllReturned Sounds)
          (either_deleted c || either_deleted l || not (is_own s t c) || not (is_own s t l)) _ _ h
          (with_held-Sounds s h t c l _
            (kernel-Sounds s h (wait s.kernel t c.object (some l.object)))))

  -- The kernel has run, and the condition variable may go.
  left-Sounds :
      (k : Kernel) (i : ℕ) (c : Entry)
      → s.conditions.entries i ≡ some c
      → Sounds (delete_if_unused (with_kernel s k) i c)
  left-Sounds k i c at_c = delete_if_unused-Sounds (with_kernel s k) (kernel-Sounds s h k) i c at_c

  pub signal_syscall-Sounds :
      (index_c index_l : ℤ) → AllReturned Sounds (signal_syscall s t index_c index_l)
  unfolding signal_syscall signal_entries
  signal_syscall-Sounds index_c index_l =
      with_entries-Sounds s h index_c index_l (signal_entries s t index_c) (λ c l at_c.
        branch (AllReturned Sounds)
          (c.is_deleted || l.is_deleted || not (is_own s t c) || not (is_own s t l)) _ _ h
          (with_held-Sounds s h t c l _
            (left-Sounds (signal s.kernel c.object (some l.object)) (pos_part index_c) c at_c)))

  broadcast_left-Sounds :
      (i : ℕ) (c : Entry) (o : Option Kernel)
      → s.conditions.entries i ≡ some c
      → AllLeft Sounds (broadcast_left s i c o)
  unfolding broadcast_left
  broadcast_left-Sounds i c none at_c = tt
  broadcast_left-Sounds i c (some k) at_c = left-Sounds k i c at_c

  pub broadcast_syscall-Sounds :
      (index_c index_l : ℤ) → AllReturned Sounds (broadcast_syscall s t index_c index_l)
  unfolding broadcast_syscall broadcast_entries broadcast_all
  broadcast_syscall-Sounds index_c index_l =
      with_entries-Sounds s h index_c index_l (broadcast_entries s t index_c) (λ c l at_c.
        branch (AllReturned Sounds)
          (c.is_deleted || either_deleted l || not (is_own s t c) || not (is_own s t l)) _ _ h
          (with_held-Sounds s h t c l _ (broadcast_left-Sounds (pos_part index_c) c _ at_c)))

  pub create_condition_locked-Sounds : AllLeft Sounds (create_condition_locked s t)
  unfolding create_condition_locked create_condition_at
  create_condition_locked-Sounds = made (find_null max_conditions s.conditions)
    where
      made : (o : Option ℕ) → AllLeft Sounds (create_condition_at s t o)
      made none = h
      made (some i) = record {
        locks = h.locks;
        conditions = construct-Sound s.conditions i (s.space t) h.conditions;
      }

  pub destroy_condition-Sounds : (index : ℤ) → AllReturned Sounds (destroy_condition s t index)
  unfolding destroy_condition destroy_condition_at destroy_condition_entry
  destroy_condition-Sounds index = found (entry_at max_conditions s.conditions index) refl
    where
      found :
          (o : Option Entry)
          → entry_at max_conditions s.conditions index ≡ o
          → AllReturned Sounds (destroy_condition_at s t index o)
      found none at_e = h
      found (some e) at_e =
          let i = pos_part index in
          let here = entry_at-some max_conditions s.conditions index e at_e in
          branch (AllReturned Sounds) (not (is_own s t e)) _ _ h (
            branch (AllReturned Sounds) e.is_deleted _ _ h (
              through_pointer-Sounds s h s.conditions e _ (
                delete_if_unused-Sounds (record s { conditions = mark_entry s.conditions i e })
                  (at_conditions s h (mark_entry s.conditions i e)
                    (mark_entry-Sound s.conditions i e h.conditions here))
                  i (record e { is_to_be_deleted = true }) (mark_entry-here s.conditions i e))))

pub create_condition-Sounds :
    (s : Sys) (h : Sounds s) (t : ℕ) (read : ℤ) → AllLeft Sounds (create_condition s t read)
unfolding create_condition create_condition_named
create_condition-Sounds s h t read =
    let k = acquire s.kernel t s.condition_lock in
    branch (AllLeft Sounds) (int_eq read minus_one) _ _ h (
      branch (AllLeft Sounds) (is_held_by t (k.locks s.condition_lock).owner_thread) _ _
        (create_condition_locked-Sounds (with_kernel s k) (kernel-Sounds s h k) t)
        (kernel-Sounds s h k))
