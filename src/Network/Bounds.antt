-- ===== src/Network/Bounds.antt =====
-- Indices outside a table: the checks that the handlers make come after the access.
use csci402_projects.Base.{
  ℕ, refl, ℤ, pos, negsuc, Bool, true, false, out_of_range, ◌≡◌, fault, out_of_bounds, arith,
}
use csci402_projects.Network.Message.{Request, Delivery, aq, rl, wt, sg, bc, dl, dc, dm, gm, sm}
use csci402_projects.Network.State.{Server, max_entries, entry_at}
use csci402_projects.Network.Server.Locks.{acquire, release}
use csci402_projects.Network.Server.Conditions.{wait, signal, broadcast}
use csci402_projects.Network.Server.Destroy.{destroy_lock, destroy_condition, destroy_variable}
use csci402_projects.Network.Server.Variables.{get_variable, set_array_value}
use csci402_projects.Network.Server.Dispatch.{dispatch, serve}

-- The requests that carry the index of an object.
abbrev pub takes_index : Request → Bool
takes_index aq = true
takes_index rl = true
takes_index wt = true
takes_index sg = true
takes_index bc = true
takes_index dl = true
takes_index dc = true
takes_index dm = true
takes_index gm = true
takes_index sm = true
takes_index _ = false

pub entry_at-out_of_range {ℓ} :
    {A : Type ℓ} (f : ℕ → A) (i : ℤ)
    → out_of_range max_entries i ≡ true
    → entry_at f i ≡ fault out_of_bounds
entry_at-out_of_range f (pos n) h = ground arith
entry_at-out_of_range f (negsuc n) h = refl

dispatch_invalid_index :
    (r : Request) (s : Server) (d : Delivery)
    → takes_index r ≡ true
    → out_of_range max_entries d.body.index ≡ true
    → dispatch r s d ≡ fault out_of_bounds
unfolding dispatch acquire release wait signal broadcast destroy_lock destroy_condition
    destroy_variable get_variable set_array_value
dispatch_invalid_index aq s d t h = rw (entry_at-out_of_range s.locks d.body.index h)
dispatch_invalid_index rl s d t h = rw (entry_at-out_of_range s.locks d.body.index h)
dispatch_invalid_index wt s d t h = rw (entry_at-out_of_range s.conditions d.body.index h)
dispatch_invalid_index sg s d t h = rw (entry_at-out_of_range s.conditions d.body.index h)
dispatch_invalid_index bc s d t h = rw (entry_at-out_of_range s.conditions d.body.index h)
dispatch_invalid_index dl s d t h = rw (entry_at-out_of_range s.locks d.body.index h)
dispatch_invalid_index dc s d t h = rw (entry_at-out_of_range s.conditions d.body.index h)
dispatch_invalid_index dm s d t h = rw (entry_at-out_of_range s.variables d.body.index h)
dispatch_invalid_index gm s d t h = rw (entry_at-out_of_range s.variables d.body.index h)
dispatch_invalid_index sm s d t h = rw (entry_at-out_of_range s.variables d.body.index h)
dispatch_invalid_index r s d t h = cc

-- Whatever the request that carries an index, an index outside the table makes the server access
-- memory outside it: the reply to an invalid index is never sent.
pub serve_invalid_index :
    (s : Server) (d : Delivery)
    → takes_index d.body.request ≡ true
    → out_of_range max_entries d.body.index ≡ true
    → serve s d ≡ fault out_of_bounds
unfolding serve
serve_invalid_index s d t h = dispatch_invalid_index d.body.request s d t h
