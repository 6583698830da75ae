-- ===== src/SystemCalls/Locks.antt =====
-- Acquire_Syscall, Release_Syscall, CreateLock_Syscall and DestroyLock_Syscall, without the network. The
-- value is what the call returns, once the thread goes on if it sleeps in Acquire.
use csci402_projects.Base.{
  ℕ, ℤ, pos, pos_part, minus_one, not, int_eq, if◌then◌else◌, Option, none, some, Result, ok, ◌>>=◌,
}
use csci402_projects.Threads.Kernel.{new_lock, set_lock}
use csci402_projects.Threads.Lock.{acquire, release}
use csci402_projects.SystemCalls.Objects.{
  Sys, Entry, max_locks, entry_at, find_null, construct, delete_object, mark_entry, is_held, is_own,
  with_kernel,
}

abbrev pub delete_lock : Sys → ℕ → Entry → Sys
delete_lock s i e = record s { locks = delete_object s.locks i e }

-- The entry is that of the index.
unfoldable pub acquire_entry : Sys → ℕ → ℤ → Entry → Result (Sys × ℤ)
unfolding is_held delete_object
acquire_entry s t index e =
    if not (is_own s t e)
    then ok (s, minus_one)
    else (is_held s t e >>= λ held.
        if held
        then ok (s, minus_one)
        else if e.is_deleted
        then ok (s, minus_one)
        else if e.is_to_be_deleted
        then ok (delete_lock s (pos_part index) e, minus_one)
        else ok (with_kernel s (acquire s.kernel t e.object), index))

unfoldable pub acquire_syscall : Sys → ℕ → ℤ → Result (Sys × ℤ)
unfolding entry_at acquire_entry
acquire_syscall s t index = elim (entry_at max_locks s.locks index) [
  | none ↦ ok (s, minus_one)
  | some e ↦ acquire_entry s t index e
]

unfoldable pub release_entry : Sys → ℕ → ℤ → Entry → Result (Sys × ℤ)
unfolding is_held delete_object
release_entry s t index e = is_held s t e >>= λ held.
    if not held
    then ok (s, minus_one)
    else if not (is_own s t e)
    then ok (s, minus_one)
    else if e.is_deleted
    then ok (s, minus_one)
    else if e.is_to_be_deleted
    then ok (delete_lock (with_kernel s (release s.kernel t e.object)) (pos_part index) e, index)
    else ok (with_kernel s (release s.kernel t e.object), index)

unfoldable pub release_syscall : Sys → ℕ → ℤ → Result (Sys × ℤ)
unfolding entry_at release_entry
release_syscall s t index = elim (entry_at max_locks s.locks index) [
  | none ↦ ok (s, minus_one)
  | some e ↦ release_entry s t index e
]

-- The new lock goes to the place that was found, if there is one.
unfoldable pub create_lock_at : Sys → ℕ → Option ℕ → Sys × ℤ
unfolding construct
create_lock_at s t none = (s, minus_one)
create_lock_at s t (some i) = (
  record s {
    locks = construct s.locks i (s.space t);
    kernel = set_lock s.kernel s.locks.fresh new_lock;
  },
  pos i,
)

unfoldable pub create_lock_named : Sys → ℕ → Sys × ℤ
unfolding create_lock_at
create_lock_named s t = create_lock_at s t (find_null max_locks s.locks)

-- `read` is what copyin returns for the name: its length, which may be -1, or -1 for an error.
unfoldable pub create_lock : Sys → ℕ → (read : ℤ) → Sys × ℤ
unfolding create_lock_named
create_lock s t read = if int_eq read minus_one then (s, minus_one) else create_lock_named s t

unfoldable pub destroy_lock_entry : Sys → ℕ → ℤ → Entry → Result (Sys × ℤ)
unfolding is_held mark_entry
destroy_lock_entry s t index e =
    if not (is_own s t e)
    then ok (s, minus_one)
    else (is_held s t e >>= λ held.
        if held
        then ok (s, minus_one)
        else if e.is_to_be_deleted
        then ok (s, minus_one)
        else if e.is_deleted
        then ok (s, minus_one)
        else ok (record s { locks = mark_entry s.locks (pos_part index) e }, index))

unfoldable pub destroy_lock : Sys → ℕ → ℤ → Result (Sys × ℤ)
unfolding entry_at destroy_lock_entry
destroy_lock s t index = elim (entry_at max_locks s.locks index) [
  | none ↦ ok (s, minus_one)
  | some e ↦ destroy_lock_entry s t index e
]
