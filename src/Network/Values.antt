-- ===== src/Network/Values.antt =====
-- Monitor variables: what was set is what is read.
use csci402_projects.Base.{ℕ, ◌≡◌, some, arith, String, pos, true, false, update, ◌<◌}
use csci402_projects.Network.Message.{Delivery, success_reply, index_reply}
use csci402_projects.Network.State.{Server, client, answer, set_variable, max_entries}
use csci402_projects.Network.Server.Destroy.{destroy_variable}
use csci402_projects.Network.Server.Variables.{get_variable, set_array_value, outside}

-- A monitor variable n of the server, with room for the element i.
abbrev pub Element : Server → ℕ → ℕ → Type 0
Element s n i =
    (n < max_entries)
    × ((a : String) × ((s.variables n).name ≡ some a))
    × (outside (s.variables n).array_size (pos i) ≡ false)

abbrev pub Asks : Delivery → ℕ → ℕ → Type 0
Asks d n i = (d.body.index ≡ pos n) × (d.body.index2 ≡ pos i)

-- Setting an element of a monitor variable that has a name and is long enough succeeds, and from
-- then on a read of that element is answered with the value, whoever asks; a read of any other
-- element is answered with what it held before.
pub get-set :
    (s : Server) (d g : Delivery) (n i k : ℕ)
    → Element s n i
    → Element s n k
    → Asks d n i
    → Asks g n k
    → (t : Server) × (set_array_value s d ≡ answer t (client d) success_reply)
      × (get_variable t g
          ≡ answer t (client g) (index_reply (update (s.variables n).array i d.body.index3 k)))
unfolding set_array_value get_variable
get-set s d g n i k (room, (a, named), inside) (_, _, inside') (at_n, at_i) (at_n', at_k) = (
  set_variable s (pos n)
      (record (s.variables n) { array = update (s.variables n).array i d.body.index3 }),
  ground arith,
  ground arith,
)

-- Destroying a monitor variable that has a name is answered with success, and does not stop reads:
-- each is answered as before.
pub get-destroy :
    (s : Server) (d g : Delivery) (n k : ℕ)
    → Element s n k
    → d.body.index ≡ pos n
    → Asks g n k
    → (t : Server) × (destroy_variable s d ≡ answer t (client d) success_reply)
      × ((t.variables n).deleted ≡ true)
      × (get_variable t g ≡ answer t (client g) (index_reply ((s.variables n).array k)))
unfolding destroy_variable get_variable
get-destroy s d g n k (room, (a, named), inside) at_n (at_n', at_k) = (
  set_variable s (pos n) (record (s.variables n) { to_be_deleted = true; deleted = true }),
  ground arith,
  ground arith,
  ground arith,
)
