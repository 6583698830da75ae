-- ===== src/SystemCalls/Keeps.antt =====
-- The calls on locks keep the order of the tables.
use csci402_projects.Base.{
  ℕ, ℤ, int_eq, pos_part, minus_one, ◌≡◌, Bool, Bool-cases, true, false, not, if◌then◌else◌, inl,
  inr, Option, none, some, refl, Result, ok, fault, ◌>>=◌,
}
use csci402_projects.Threads.Kernel.{Kernel}
use csci402_projects.Threads.Lock.{is_held_by, acquire, release}
use csci402_projects.SystemCalls.Objects.{
  Sys, Objects, Entry, max_locks, entry_at, find_null, mark_entry, through_pointer, is_held, is_own,
  with_kernel,
}
use csci402_projects.SystemCalls.Locks.{
  delete_lock, acquire_entry, acquire_syscall, release_entry, release_syscall, create_lock_at,
  create_lock_named, create_lock, destroy_lock_entry, destroy_lock,
}
use csci402_projects.SystemCalls.Conditions.{Returned, returned, waiting, endless}
use csci402_projects.SystemCalls.Sound.{
  Sound, entry_at-some, construct-Sound, delete_object-Sound, mark_entry-Sound,
}

-- Both tables are in order.
pub record Sounds (s : Sys) : Type 0 where
  pub locks : Sound s.locks
  pub conditions : Sound s.conditions

-- What holds of a result, whichever branch gave it.
abbrev pub AllSys : (Sys → Type 0) → Result (Sys × ℤ) → Type 0
AllSys P (fault reason) = Unit
AllSys P (ok r) = P r.0

abbrev pub AllLeft : (Sys → Type 0) → Returned → Type 0
AllLeft P (returned s v) = P s
AllLeft P (waiting s) = P s
AllLeft P endless = Unit

abbrev pub AllReturned : (Sys → Type 0) → Result Returned → Type 0
AllReturned P (fault reason) = Unit
AllReturned P (ok r) = AllLeft P r

pub branch {ℓ κ} :
    {A : Type ℓ} (P : A → Type κ) (b : Bool) (x y : A) → P x → P y → P (if b then x else y)
branch P true x y h k = h
branch P false x y h k = k

is_held-AllSys :
    (P : Sys → Type 0) (s : Sys) (t : ℕ) (e : Entry) (next : Bool → Result (Sys × ℤ))
    → ((held : Bool) → AllSys P (next held))
    → AllSys P (is_held s t e >>= next)
unfolding is_held through_pointer
is_held-AllSys P s t e next h = elim (Bool-cases (s.locks.alive e.object)) [
  | inl on ↦ rw on (h (is_held_by t (s.kernel.locks e.object).owner_thread))
  | inr off ↦ rw off tt
]

module _ (s : Sys) (h : Sounds s) where
  at_locks : (o : Objects) → Sound o → Sounds (record s { locks = o })
  at_locks o g = record { locks = g; conditions = h.conditions }

  delete_lock-Sounds :
      (k : Kernel) (i : ℕ) (e : Entry)
      → s.locks.entries i ≡ some e
      → Sounds (delete_lock (with_kernel s k) i e)
  delete_lock-Sounds k i e at_i = record {
    locks = delete_object-Sound s.locks i e h.locks at_i;
    conditions = h.conditions;
  }

  pub kernel-Sounds : (k : Kernel) → Sounds (with_kernel s k)
  kernel-Sounds k = record { locks = h.locks; conditions = h.conditions }

  module _ (t : ℕ) (index : ℤ) (e : Entry) (here : s.locks.entries (pos_part index) ≡ some e) where
    acquire_entry-Sounds : AllSys Sounds (acquire_entry s t index e)
    unfolding acquire_entry
    acquire_entry-Sounds = branch (AllSys Sounds) (not (is_own s t e)) _ _ h (
        is_held-AllSys Sounds s t e _ (λ held. branch (AllSys Sounds) held _ _ h (
          branch (AllSys Sounds) e.is_deleted _ _ h (
            branch (AllSys Sounds) e.is_to_be_deleted _ _
              (delete_lock-Sounds s.kernel (pos_part index) e here)
              (kernel-Sounds (acquire s.kernel t e.object))))))

    release_entry-Sounds : AllSys Sounds (release_entry s t index e)
    unfolding release_entry
    release_entry-Sounds = is_held-AllSys Sounds s t e _ (λ held.
        branch (AllSys Sounds) (not held) _ _ h (
          branch (AllSys Sounds) (not (is_own s t e)) _ _ h (
            branch (AllSys Sounds) e.is_deleted _ _ h (
              branch (AllSys Sounds) e.is_to_be_deleted _ _
                (delete_lock-Sounds (release s.kernel t e.object) (pos_part index) e here)
                (kernel-Sounds (release s.kernel t e.object))))))

    destroy_lock_entry-Sounds : AllSys Sounds (destroy_lock_entry s t index e)
    unfolding destroy_lock_entry
    destroy_lock_entry-Sounds = branch (AllSys Sounds) (not (is_own s t e)) _ _ h (
        is_held-AllSys Sounds s t e _ (λ held. branch (AllSys Sounds) held _ _ h (
          branch (AllSys Sounds) e.is_to_be_deleted _ _ h (
            branch (AllSys Sounds) e.is_deleted _ _ h (
              at_locks (mark_entry s.locks (pos_part index) e)
                (mark_entry-Sound s.locks (pos_part index) e h.locks here))))))

  -- A call on the entry at an index, or its refusal.
  at_entry-AllSys :
      (index : ℤ) (next : Entry → Result (Sys × ℤ))
      → ((e : Entry) → s.locks.entries (pos_part index) ≡ some e → AllSys Sounds (next e))
      → (o : Option Entry) → entry_at max_locks s.locks index ≡ o
      → AllSys Sounds (elim o [ none ↦ ok (s, minus_one) | some e ↦ next e ])
  at_entry-AllSys index next f none at_o = h
  at_entry-AllSys index next f (some e) at_o = f e (entry_at-some max_locks s.locks index e at_o)

  pub acquire_syscall-Sounds : (t : ℕ) (index : ℤ) → AllSys Sounds (acquire_syscall s t index)
  unfolding acquire_syscall
  acquire_syscall-Sounds t index =
      at_entry-AllSys index (acquire_entry s t index) (acquire_entry-Sounds t index)
        (entry_at max_locks s.locks index) refl

  pub release_syscall-Sounds : (t : ℕ) (index : ℤ) → AllSys Sounds (release_syscall s t index)
  unfolding release_syscall
  release_syscall-Sounds t index =
      at_entry-AllSys index (release_entry s t index) (release_entry-Sounds t index)
        (entry_at max_locks s.locks index) refl

  pub destroy_lock-Sounds : (t : ℕ) (index : ℤ) → AllSys Sounds (destroy_lock s t index)
  unfolding destroy_lock
  destroy_lock-Sounds t index =
      at_entry-AllSys index (destroy_lock_entry s t index) (destroy_lock_entry-Sounds t index)
        (entry_at max_locks s.locks index) refl

  pub create_lock-Sounds : (t : ℕ) (read : ℤ) → Sounds (create_lock s t read).0
  unfolding create_lock create_lock_named create_lock_at
  create_lock-Sounds t read =
      branch {A = Sys × ℤ} (λ r. Sounds r.0) (int_eq read minus_one) _ _ h
        (made (find_null max_locks s.locks))
    where
      made : (o : Option ℕ) → Sounds (create_lock_at s t o).0
      made none = h
      made (some i) = record {
        locks = construct-Sound s.locks i (s.space t) h.locks;
        conditions = h.conditions;
      }
