-- ===== src/SystemCalls/Conditions.antt =====
-- Wait_Syscall, Signal_Syscall, Broadcast_Syscall, CreateCondition_Syscall and
-- DestroyCondition_Syscall, without the network.
use csci402_projects.Base.{
  ℕ, suc, ℤ, pos, pos_part, minus_one, Bool, true, ◌&&◌, ◌||◌, not, int_eq, if◌then◌else◌, Option,
  none, some, Result, ok, ◌>>=◌, is_empty, length,
}
use csci402_projects.Threads.Kernel.{Kernel, new_condition, set_condition}
use csci402_projects.Threads.Lock.{is_held_by, acquire, release}
use csci402_projects.Threads.Condition.{wait, signal, broadcast}
use csci402_projects.SystemCalls.Objects.{
  Sys, Entry, max_locks, max_conditions, entry_at, find_null, construct, delete_object, mark_entry,
  through_pointer, is_held, is_own, with_kernel,
}

-- The call returned a value; or it sleeps in conditionLock->Acquire() with more to do; or it never ends.
pub data Returned : Type 0 where
  returned : Sys → (value : ℤ) → Returned
  waiting : Sys → Returned
  endless : Returned

abbrev pub refused : Sys → Returned
refused s = returned s minus_one

abbrev pub either_deleted : Entry → Bool
either_deleted e = e.is_to_be_deleted || e.is_deleted

-- The thread holds the lock; with it the condition variable is used.
unfoldable pub with_held : Sys → ℕ → Entry → Entry → Result Returned → Result Returned
unfolding is_held through_pointer
with_held s t c l next = is_held s t l >>= λ held.
    if not held then ok (refused s) else through_pointer s.conditions c next

unfoldable pub wait_entries : Sys → ℕ → Entry → Entry → Result Returned
unfolding with_held
wait_entries s t c l =
    if either_deleted c || either_deleted l || not (is_own s t c) || not (is_own s t l)
    then ok (refused s)
    else with_held s t c l
        (ok (returned (with_kernel s (wait s.kernel t c.object (some l.object))) (pos 0)))

-- The rest of Wait, once `Sleep` returns: it acquires its lock again, through the pointer that it had.
unfoldable pub wait_woken : Sys → ℕ → Entry → Result Sys
unfolding through_pointer
wait_woken s t l = through_pointer s.locks l (ok (with_kernel s (acquire s.kernel t l.object)))

-- Both entries, or the call is refused.
unfoldable pub with_both :
    Sys → Option Entry → Option Entry → (Entry → Entry → Result Returned) → Result Returned
with_both s none l next = ok (refused s)
with_both s (some c) none next = ok (refused s)
with_both s (some c) (some l) next = next c l

unfoldable pub with_entries : Sys → ℤ → ℤ → (Entry → Entry → Result Returned) → Result Returned
unfolding entry_at with_both
with_entries s index_c index_l next =
    with_both s (entry_at max_conditions s.conditions index_c) (entry_at max_locks s.locks index_l)
      next

unfoldable pub wait_syscall : Sys → ℕ → ℤ → ℤ → Result Returned
unfolding with_entries wait_entries
wait_syscall s t index_c index_l = with_entries s index_c index_l (wait_entries s t)

abbrev pub delete_condition : Sys → ℕ → Entry → Sys
delete_condition s i e = record s { conditions = delete_object s.conditions i e }

-- A condition variable that is marked for deletion is deleted when nobody waits on it.
unfoldable pub delete_if_unused : Sys → ℕ → Entry → Sys
unfolding delete_object
delete_if_unused s i e =
    if e.is_to_be_deleted && is_empty (s.kernel.conditions e.object).queue
    then delete_condition s i e
    else s

unfoldable pub signal_entries : Sys → ℕ → ℤ → Entry → Entry → Result Returned
unfolding with_held delete_if_unused
signal_entries s t index c l =
    if c.is_deleted || l.is_deleted || not (is_own s t c) || not (is_own s t l)
    then ok (refused s)
    else with_held s t c l (
        ok (
          returned
            (delete_if_unused (with_kernel s (signal s.kernel c.object (some l.object)))
              (pos_part index) c)
            (pos 0)))

unfoldable pub signal_syscall : Sys → ℕ → ℤ → ℤ → Result Returned
unfolding with_entries signal_entries
signal_syscall s t index_c index_l = with_entries s index_c index_l (signal_entries s t index_c)

unfoldable pub broadcast_left : Sys → ℕ → Entry → Option Kernel → Returned
unfolding delete_if_unused
broadcast_left s i c none = endless
broadcast_left s i c (some k) = returned (delete_if_unused (with_kernel s k) i c) (pos 0)

-- The loop of Broadcast ends after as many rounds as threads wait, or never.
unfoldable pub broadcast_all : Sys → ℕ → Entry → Entry → Returned
unfolding broadcast_left
broadcast_all s i c l =
    let fuel = suc (length (s.kernel.conditions c.object).queue) in
    broadcast_left s i c (broadcast fuel s.kernel c.object (some l.object))

unfoldable pub broadcast_entries : Sys → ℕ → ℤ → Entry → Entry → Result Returned
unfolding with_held broadcast_all
broadcast_entries s t index c l =
    if c.is_deleted || either_deleted l || not (is_own s t c) || not (is_own s t l)
    then ok (refused s)
    else with_held s t c l (ok (broadcast_all s (pos_part index) c l))

unfoldable pub broadcast_syscall : Sys → ℕ → ℤ → ℤ → Result Returned
unfolding with_entries broadcast_entries
broadcast_syscall s t index_c index_l =
    with_entries s index_c index_l (broadcast_entries s t index_c)

-- With conditionLock: a full table is reported without a release of the lock.
unfoldable pub create_condition_at : Sys → ℕ → Option ℕ → Returned
unfolding construct
create_condition_at s t none = refused s
create_condition_at s t (some i) =
    returned
      (record s {
        conditions = construct s.conditions i (s.space t);
        kernel =
            release (set_condition s.kernel s.conditions.fresh new_condition) t s.condition_lock;
      })
      (pos i)

unfoldable pub create_condition_locked : Sys → ℕ → Returned
unfolding create_condition_at
create_condition_locked s t = create_condition_at s t (find_null max_conditions s.conditions)

-- The thread goes on at once if it has the lock now.
unfoldable pub create_condition_named : Sys → ℕ → Returned
unfolding create_condition_locked
create_condition_named s t =
    let k = acquire s.kernel t s.condition_lock in
    if is_held_by t (k.locks s.condition_lock).owner_thread
    then create_condition_locked (with_kernel s k) t
    else waiting (with_kernel s k)

-- `read` is what copyin returns for the name: its length, which may be -1, or -1 for an error.
unfoldable pub create_condition : Sys → ℕ → (read : ℤ) → Returned
unfolding create_condition_named
create_condition s t read = if int_eq read minus_one then refused s else create_condition_named s t

unfoldable pub destroy_condition_entry : Sys → ℕ → ℤ → Entry → Result Returned
unfolding through_pointer delete_if_unused mark_entry
destroy_condition_entry s t index e =
    if not (is_own s t e)
    then ok (refused s)
    else if e.is_deleted
    then ok (refused s)
    else through_pointer s.conditions e (
        ok (
          returned
            (delete_if_unused (record s { conditions = mark_entry s.conditions (pos_part index) e })
              (pos_part index) (record e { is_to_be_deleted = true }))
            (pos 0)))

unfoldable pub destroy_condition_at : Sys → ℕ → ℤ → Option Entry → Result Returned
unfolding destroy_condition_entry
destroy_condition_at s t index none = ok (refused s)
destroy_condition_at s t index (some e) = destroy_condition_entry s t index e

unfoldable pub destroy_condition : Sys → ℕ → ℤ → Result Returned
unfolding entry_at destroy_condition_at
destroy_condition s t index =
    destroy_condition_at s t index (entry_at max_conditions s.conditions index)
