-- ===== src/Network/Invariant.antt =====
-- The tables of the server on machine `m`, after any sequence of steps.
use csci402_projects.Base.{
  ℕ, suc, ◌+◌, ◌≡◌, refl, inl, inr, ok, fault, Option, none, some, true, arith, update, Bool-cases,
  ltb, leb, ltb→lt, map-update,
}
use csci402_projects.Network.Message.{Request, Delivery, cl, cc_code, cm}
use csci402_projects.Network.State.{
  Server, Outcome, max_entries, fits, base, construct_server_lock, find_lock_by_name,
  find_condition_by_name, find_monitor_variable_by_name, construct_server_condition,
  construct_monitor_variable, blank_lock, blank_condition, blank_variable, ServerLock,
  ServerCondition, MonitorVariable,
}
use csci402_projects.Network.Ensures.{Ensures}
use csci402_projects.Network.Names.{IsTable, IsTable-ext, IsTable-extend, Found, find-IsTable}
use csci402_projects.Network.Keeps.{Kept, dispatch-Kept, relay-Kept}
use csci402_projects.Network.Server.Relay.{relay}
use csci402_projects.Network.Server.Create.{
  new_lock, create_lock, new_condition, create_condition, new_variable, create_variable,
}
use csci402_projects.Network.Server.Dispatch.{dispatch}

pub record Tables (m : ℕ) (s : Server) : Type 0 where
  pub locks : IsTable (λ i. (s.locks i).name) (base m) s.num_locks
  pub conditions : IsTable (λ i. (s.conditions i).name) (base m) s.num_conditions
  pub variables : IsTable (λ i. (s.variables i).name) (base m) s.num_variables

Kept-Tables : {m : ℕ} {s t : Server} → ((j : ℕ) → Kept s j t) → Tables m s → Tables m t
Kept-Tables {m} {s} {t} k v = record {
  locks = rw ((k 0).locks_made) (IsTable-ext (λ j. (k j).lock) v.locks);
  conditions = rw ((k 0).conditions_made) (IsTable-ext (λ j. (k j).condition) v.conditions);
  variables = rw ((k 0).variables_made) (IsTable-ext (λ j. (k j).variable) v.variables);
}

pub Kept-Ensures :
    (m : ℕ) (s : Server) (r : Outcome)
    → ((j : ℕ) → Ensures (Kept s j) r)
    → Tables m s
    → Ensures (Tables m) r
Kept-Ensures m s (ok (t, ps)) k v = Kept-Tables k v
Kept-Ensures m s (fault e) k v = tt

abbrev made_lock : Delivery → ServerLock
made_lock d = record blank_lock { name = some d.body.name }

abbrev made_condition : Delivery → ServerCondition
made_condition d = record blank_condition { name = some d.body.name }

abbrev made_variable : Delivery → MonitorVariable
made_variable d = record blank_variable {
  name = some d.body.name;
  array = d.fill;
  array_size = d.body.index2;
}

new_lock-Tables :
    (s : Server) (d : Delivery)
    → Tables d.to_machine s
    → Found (λ i. (s.locks i).name) d.body.name (base d.to_machine) s.num_locks none
    → Ensures (Tables d.to_machine) (new_lock s d)
unfolding new_lock construct_server_lock
new_lock-Tables s d v absent = elim (Bool-cases (leb max_entries s.num_locks)) [
  | inl full ↦ rw full v
  | inr more ↦ rw more (elim (Bool-cases (fits d.body.name)) [
    | inr long ↦ rw long tt
    | inl short ↦ rw short (elim (Bool-cases (ltb (base d.to_machine + s.num_locks) max_entries)) [
      | inr beyond ↦ rw beyond tt
      | inl room ↦
          rw room (record { locks = made room; conditions = v.conditions; variables = v.variables })
    ])
  ])
]
  where
    made :
        ltb (base d.to_machine + s.num_locks) max_entries ≡ true
        → IsTable
            (λ i. (update s.locks (base d.to_machine + s.num_locks) (made_lock d) i).name)
            (base d.to_machine)
            (suc s.num_locks)
    made room =
        IsTable-ext (map-update (λ e. e.name) s.locks _ (made_lock d))
          (IsTable-extend _ _ _ d.body.name v.locks (ltb→lt _ _ room) absent)

new_condition-Tables :
    (s : Server) (d : Delivery)
    → Tables d.to_machine s
    → Found (λ i. (s.conditions i).name) d.body.name (base d.to_machine) s.num_conditions none
    → Ensures (Tables d.to_machine) (new_condition s d)
unfolding new_condition construct_server_condition
new_condition-Tables s d v absent = elim (Bool-cases (fits d.body.name)) [
  | inr long ↦ rw long tt
  | inl short ↦
      rw short (elim (Bool-cases (ltb (base d.to_machine + s.num_conditions) max_entries)) [
        | inr beyond ↦ rw beyond tt
        | inl room ↦
            rw room (record { locks = v.locks; conditions = made room; variables = v.variables })
      ])
]
  where
    made :
        ltb (base d.to_machine + s.num_conditions) max_entries ≡ true
        → IsTable
            (λ i.
              (update s.conditions
                (base d.to_machine + s.num_conditions)
                (made_condition d)
                i).name)
            (base d.to_machine)
            (suc s.num_conditions)
    made room =
        IsTable-ext (map-update (λ e. e.name) s.conditions _ (made_condition d))
          (IsTable-extend _ _ _ d.body.name v.conditions (ltb→lt _ _ room) absent)

new_variable-Tables :
    (s : Server) (d : Delivery)
    → Tables d.to_machine s
    → Found (λ i. (s.variables i).name) d.body.name (base d.to_machine) s.num_variables none
    → Ensures (Tables d.to_machine) (new_variable s d)
unfolding new_variable construct_monitor_variable
new_variable-Tables s d v absent = elim (Bool-cases (fits d.body.name)) [
  | inr long ↦ rw long tt
  | inl short ↦
      rw short (elim (Bool-cases (ltb (base d.to_machine + s.num_variables) max_entries)) [
        | inr beyond ↦ rw beyond tt
        | inl room ↦
            rw room (record { locks = v.locks; conditions = v.conditions; variables = made room })
      ])
]
  where
    made :
        ltb (base d.to_machine + s.num_variables) max_entries ≡ true
        → IsTable
            (λ i.
              (update s.variables (base d.to_machine + s.num_variables) (made_variable d) i).name)
            (base d.to_machine)
            (suc s.num_variables)
    made room =
        IsTable-ext (map-update (λ e. e.name) s.variables _ (made_variable d))
          (IsTable-extend _ _ _ d.body.name v.variables (ltb→lt _ _ room) absent)

create_lock-Found :
    (s : Server) (d : Delivery) (r : Option ℕ)
    → Tables d.to_machine s
    → find_lock_by_name s d.body.name d.to_machine ≡ ok r
    → Found (λ i. (s.locks i).name) d.body.name (base d.to_machine) s.num_locks r
    → Ensures (Tables d.to_machine) (create_lock s d)
unfolding create_lock
create_lock-Found s d none v e absent = ground (
  arith,
  e,
  v,
  new_lock-Tables s d v absent,
  Kept-Ensures d.to_machine s (relay s d) (relay-Kept s d) v,
)
create_lock-Found s d (some i) v e hit = ground (arith, e, v)

pub create_lock-Tables :
    (s : Server) (d : Delivery)
    → Tables d.to_machine s
    → Ensures (Tables d.to_machine) (create_lock s d)
unfolding find_lock_by_name
create_lock-Tables s d v =
    let (r, e, hit) = find-IsTable _ d.body.name (base d.to_machine) s.num_locks v.locks in
    create_lock-Found s d r v e hit

create_condition-Found :
    (s : Server) (d : Delivery) (r : Option ℕ)
    → Tables d.to_machine s
    → find_condition_by_name s d.body.name d.to_machine ≡ ok r
    → Found (λ i. (s.conditions i).name) d.body.name (base d.to_machine) s.num_conditions r
    → Ensures (Tables d.to_machine) (create_condition s d)
unfolding create_condition
create_condition-Found s d none v e absent = ground (
  arith,
  e,
  v,
  new_condition-Tables s d v absent,
  Kept-Ensures d.to_machine s (relay s d) (relay-Kept s d) v,
)
create_condition-Found s d (some i) v e hit = ground (arith, e, v)

pub create_condition-Tables :
    (s : Server) (d : Delivery)
    → Tables d.to_machine s
    → Ensures (Tables d.to_machine) (create_condition s d)
unfolding find_condition_by_name
create_condition-Tables s d v =
    let (r, e, hit) =
      find-IsTable _ d.body.name (base d.to_machine) s.num_conditions v.conditions in
    create_condition-Found s d r v e hit

create_variable-Found :
    (s : Server) (d : Delivery) (r : Option ℕ)
    → Tables d.to_machine s
    → find_monitor_variable_by_name s d.body.name d.to_machine ≡ ok r
    → Found (λ i. (s.variables i).name) d.body.name (base d.to_machine) s.num_variables r
    → Ensures (Tables d.to_machine) (create_variable s d)
unfolding create_variable
create_variable-Found s d none v e absent = ground (
  arith,
  e,
  v,
  new_variable-Tables s d v absent,
  Kept-Ensures d.to_machine s (relay s d) (relay-Kept s d) v,
)
create_variable-Found s d (some i) v e hit = ground (arith, e, v)

pub create_variable-Tables :
    (s : Server) (d : Delivery)
    → Tables d.to_machine s
    → Ensures (Tables d.to_machine) (create_variable s d)
unfolding find_monitor_variable_by_name
create_variable-Tables s d v =
    let (r, e, hit) = find-IsTable _ d.body.name (base d.to_machine) s.num_variables v.variables in
    create_variable-Found s d r v e hit

-- Each request keeps the tables.
pub dispatch-Tables :
    (r : Request) (s : Server) (d : Delivery)
    → Tables d.to_machine s
    → Ensures (Tables d.to_machine) (dispatch r s d)
unfolding dispatch
dispatch-Tables cl s d v = create_lock-Tables s d v
dispatch-Tables cc_code s d v = create_condition-Tables s d v
dispatch-Tables cm s d v = create_variable-Tables s d v
dispatch-Tables r s d v =
    Kept-Ensures d.to_machine s (dispatch r s d) (λ j. dispatch-Kept r s d j refl) v
