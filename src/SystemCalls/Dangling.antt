-- ===== src/SystemCalls/Dangling.antt =====
-- A lock that is deleted while a thread holds it.
use csci402_projects.Base.{
  ℕ, pos, minus_one, ◌≡◌, ◌≢◌, true, false, some, ok, fault, dangling, arith, ◌∙◌, List, [], ◌∷◌,
  if◌then◌else◌,
}
use csci402_projects.Threads.Kernel.{Kernel, in_wait, ready_to_run}
use csci402_projects.Threads.Lock.{is_held_by, release, hand_over}
use csci402_projects.SystemCalls.Objects.{
  Sys, Entry, max_locks, entry_at, mark_entry, delete_object, through_pointer, is_held, with_kernel,
}
use csci402_projects.SystemCalls.Locks.{
  delete_lock, acquire_entry, acquire_syscall, release_entry, release_syscall, destroy_lock_entry,
  destroy_lock,
}
use csci402_projects.SystemCalls.Conditions.{returned, wait_woken}
use csci402_projects.SystemCalls.Calls.{acquires, releases, destroys_lock, perform}

abbrev marked : Entry → Entry
marked e = record e { is_to_be_deleted = true }

abbrev gone : Entry → Entry
gone e = record (marked e) { is_deleted = true }

-- The state after the lock is marked, and the one after it is deleted.
abbrev marked_state : Sys → ℕ → Entry → Sys
marked_state s i e = record s { locks = mark_entry s.locks i e }

abbrev gone_state : Sys → ℕ → Entry → Sys
gone_state s i e = delete_lock (marked_state s i e) i (marked e)

module _ (s : Sys) (t u i : ℕ) (e : Entry) (found : entry_at max_locks s.locks (pos i) ≡ some e)
    (alive : s.locks.alive e.object ≡ true) where
  marked-entry : entry_at max_locks (mark_entry s.locks i e) (pos i) ≡ some (marked e)
  unfolding entry_at mark_entry
  marked-entry = ground (arith, found)

  gone-entry : entry_at max_locks (gone_state s i e).locks (pos i) ≡ some (gone e)
  unfolding entry_at mark_entry delete_object
  gone-entry = ground (arith, found)

  gone-pointer : (gone_state s i e).locks.alive e.object ≡ false
  unfolding mark_entry delete_object
  gone-pointer = ground arith

  marked-pointer : (marked_state s i e).locks.alive e.object ≡ true
  unfolding mark_entry
  marked-pointer = alive

  -- A lock that is not marked yet is destroyed by a thread `u` of its process while another thread `t`
  -- holds it, and then `u` asks for it. The first call marks the lock, and the second deletes it and
  -- returns -1, although `t` still holds it. When `t` releases the lock, the kernel reads the memory that
  -- was freed.
  pub release-destroyed :
      (s.kernel.locks e.object).owner_thread ≡ some t
      → t ≢ u
      → e.process_owner ≡ s.space u
      → e.is_to_be_deleted ≡ false
      → e.is_deleted ≡ false
      → (s₁ : Sys) × (s₂ : Sys) × (perform s u (destroys_lock (pos i)) ≡ ok (returned s₁ (pos i)))
        × (perform s₁ u (acquires (pos i)) ≡ ok (returned s₂ minus_one))
        × ((s₂.kernel.locks e.object).owner_thread ≡ some t)
        × (perform s₂ t (releases (pos i)) ≡ fault dangling)
  unfolding perform destroy_lock destroy_lock_entry acquire_syscall acquire_entry release_syscall
      release_entry is_held through_pointer
  release-destroyed holds other own fresh kept = (
    marked_state s i e,
    gone_state s i e,
    ground (arith, found, alive, holds, other, own, fresh, kept),
    ground (arith, marked-entry, marked-pointer, holds, other, own, kept),
    holds,
    ground (arith, gone-entry, gone-pointer),
  )

  release-stage : (k : Kernel) (v l w : ℕ) → (release k v l).stage w ≡ k.stage w
  unfolding release hand_over ready_to_run
  release-stage k v l w = first (k.locks l).queue
    where
      first :
          (qs : List ℕ)
          → (if is_held_by v (k.locks l).owner_thread then hand_over k l qs else k).stage w
            ≡ k.stage w
      first [] = ground arith
      first (q ∷ qs) = ground arith

  -- A lock that is not marked yet is destroyed by a thread `u` of its process while `t`, a thread of the
  -- same process, holds it and a thread `w` is in Wait with it. The call marks the lock. When `t`
  -- releases the lock, Release deletes it and returns as usual, with `w` still in Wait. When `w` is
  -- woken, it goes on with an Acquire of the lock, and the kernel reads the memory that was freed.
  pub wait-destroyed :
      (w c : ℕ)
      → (s.kernel.locks e.object).owner_thread ≡ some t
      → s.kernel.stage w ≡ in_wait c e.object
      → t ≢ u
      → e.process_owner ≡ s.space u
      → e.process_owner ≡ s.space t
      → e.is_to_be_deleted ≡ false
      → e.is_deleted ≡ false
      → (s₁ : Sys) × (s₂ : Sys) × (perform s u (destroys_lock (pos i)) ≡ ok (returned s₁ (pos i)))
        × (perform s₁ t (releases (pos i)) ≡ ok (returned s₂ (pos i)))
        × (s₂.kernel.stage w ≡ in_wait c e.object)
        × (wait_woken s₂ w e ≡ fault dangling)
  unfolding perform destroy_lock destroy_lock_entry release_syscall release_entry is_held
      through_pointer wait_woken delete_object
  wait-destroyed w c holds waits other own own' fresh kept = (
    marked_state s i e,
    delete_lock (with_kernel (marked_state s i e) (release s.kernel t e.object)) i (marked e),
    ground (arith, found, alive, holds, other, own, fresh, kept),
    ground (arith, marked-entry, marked-pointer, holds, own', kept),
    release-stage s.kernel t e.object w ∙ waits,
    ground arith,
  )
