-- ===== src/Network/State.antt =====
-- The tables of the server of network/nettest.cc. A table is a function of the index; its size is a
-- limit that every access is checked against, and an access beyond it is a fault. A name that was
-- never constructed is null, as in memory that the system hands out zeroed.
use csci402_projects.Base.{
  ℕ, zero, suc, ◌*◌, ℤ, pos, negsuc, minus_one, pos_part, int_eq, Bool, false, if◌then◌else◌, ltb,
  not, String, len, str_eq, Option, none, some, List, [], ◌∷◌, update, Result, ok, fault,
  out_of_bounds, null_pointer, ◌>>=◌,
}
use csci402_projects.Network.Message.{
  Message, ThreadId, Delivery, Packet, packet, no_owner, sender, named_client,
}

pub data LockState : Type 0 where
  available busy : LockState

-- The queue holds pointers to ThreadIDs, and a null pointer can get into it.
pub record ServerLock : Type 0 where
  pub name : Option String
  pub state : LockState
  pub owner : ThreadId
  pub queue : List (Option ThreadId)
  pub to_be_deleted : Bool
  pub deleted : Bool

pub record ServerCondition : Type 0 where
  pub name : Option String
  pub lock_index : ℤ
  pub queue : List ThreadId
  pub to_be_deleted : Bool
  pub deleted : Bool

pub record MonitorVariable : Type 0 where
  pub name : Option String
  pub array : ℕ → ℤ
  pub array_size : ℤ
  pub to_be_deleted : Bool
  pub deleted : Bool

-- While the server waits for the answer to a release it keeps the request in hand.
pub data Mode : Type 0 where
  ready : Mode
  awaiting_release : Delivery → Mode

pub record Server : Type 0 where
  pub locks : ℕ → ServerLock
  pub num_locks : ℕ
  pub conditions : ℕ → ServerCondition
  pub num_conditions : ℕ
  pub variables : ℕ → MonitorVariable
  pub num_variables : ℕ
  pub ider : ℕ
  pub mode : Mode

-- MAX_SERVERLOCKS, MAX_SERVERCONDITIONS and MAX_MONITORVARIABLES
abbrev pub max_entries : ℕ
max_entries = 5000

-- A handler gives the new state and the packets that it sent, in order.
abbrev pub Outcome : Type 0
Outcome = Result (Server × List Packet)

abbrev pub blank_lock : ServerLock
blank_lock = record {
  name = none;
  state = available;
  owner = no_owner;
  queue = [];
  to_be_deleted = false;
  deleted = false;
}

abbrev pub blank_condition : ServerCondition
blank_condition = record {
  name = none;
  lock_index = minus_one;
  queue = [];
  to_be_deleted = false;
  deleted = false;
}

abbrev pub blank_variable : MonitorVariable
blank_variable = record {
  name = none;
  array = λ _. pos 0;
  array_size = pos 0;
  to_be_deleted = false;
  deleted = false;
}

-- The head of `Server`, before its loop.
abbrev pub init : Server
init = record {
  locks = λ _. blank_lock;
  num_locks = 0;
  conditions = λ _. blank_condition;
  num_conditions = 0;
  variables = λ _. blank_variable;
  num_variables = 0;
  ider = 0;
  mode = ready;
}

-- `table[i]`, for a table of `max_entries` entries.
abbrev pub entry_at {ℓ} : {A : Type ℓ} → (ℕ → A) → ℤ → Result A
entry_at f (pos n) = if ltb n max_entries then ok (f n) else fault out_of_bounds
entry_at f (negsuc n) = fault out_of_bounds

abbrev pub set_lock : Server → ℤ → ServerLock → Server
set_lock s i l = record s { locks = update s.locks (pos_part i) l }

abbrev pub set_condition : Server → ℤ → ServerCondition → Server
set_condition s i c = record s { conditions = update s.conditions (pos_part i) c }

abbrev pub set_variable : Server → ℤ → MonitorVariable → Server
set_variable s i v = record s { variables = update s.variables (pos_part i) v }

-- The first entry of an owner on machine `m` is number 100 m.
abbrev pub base : ℕ → ℕ
base machine = machine * 100

-- A name of the tables has 20 bytes: `strcpy` needs room for the text and the zero after it.
abbrev pub name_size : ℕ
name_size = 20

abbrev pub fits : String → Bool
fits buf = ltb (len buf) name_size

unfoldable pub construct_server_lock : ℕ → String → Server → Result Server
construct_server_lock i buf s =
    if not (fits buf)
    then fault out_of_bounds
    else if ltb i max_entries
    then ok (record s {
      locks = update s.locks i (record {
        name = some buf;
        state = available;
        owner = no_owner;
        queue = [];
        to_be_deleted = false;
        deleted = false;
      });
    })
    else fault out_of_bounds

unfoldable pub construct_server_condition : ℕ → String → Server → Result Server
construct_server_condition i buf s =
    if not (fits buf)
    then fault out_of_bounds
    else if ltb i max_entries
    then ok (record s {
      conditions = update s.conditions i (record {
        name = some buf;
        lock_index = minus_one;
        queue = [];
        to_be_deleted = false;
        deleted = false;
      });
    })
    else fault out_of_bounds

unfoldable pub construct_monitor_variable : ℕ → ℤ → String → (ℕ → ℤ) → Server → Result Server
construct_monitor_variable i size buf fill s =
    if not (fits buf)
    then fault out_of_bounds
    else if ltb i max_entries
    then ok (record s {
      variables = update s.variables i (record {
        name = some buf;
        array = fill;
        array_size = size;
        to_be_deleted = false;
        deleted = false;
      });
    })
    else fault out_of_bounds

-- `strcmp` with a name of the table.
abbrev pub name_matches : Option String → String → Result Bool
name_matches none name = fault null_pointer
name_matches (some n) name = ok (str_eq n name)

-- The loop of the three functions `find...ByName`, with `left` rounds to go from index `i`.
unfoldable pub find_from : (ℕ → Option String) → String → ℕ → ℕ → Result (Option ℕ)
find_from names name i zero = ok none
find_from names name i (suc left) =
    let rest = find_from names name (suc i) left in
    (entry_at names (pos i) >>= λ n.
    name_matches n name >>= λ hit. if hit then ok (some i) else rest)

unfoldable pub find_lock_by_name : Server → String → ℕ → Result (Option ℕ)
find_lock_by_name s name machine = find_from (λ i. (s.locks i).name) name (base machine) s.num_locks

unfoldable pub find_condition_by_name : Server → String → ℕ → Result (Option ℕ)
find_condition_by_name s name machine =
    find_from (λ i. (s.conditions i).name) name (base machine) s.num_conditions

unfoldable pub find_monitor_variable_by_name : Server → String → ℕ → Result (Option ℕ)
find_monitor_variable_by_name s name machine =
    find_from (λ i. (s.variables i).name) name (base machine) s.num_variables

-- Whom the server answers: the sender, or the client that the message names.
abbrev pub client : Delivery → ThreadId
client d = if int_eq d.body.client_machine minus_one then sender d else named_client d.body

abbrev pub answer : Server → ThreadId → Message → Outcome
answer s t m = ok (s, packet t m ∷ [])
