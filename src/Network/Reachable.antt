-- ===== src/Network/Reachable.antt =====
-- What holds of the tables in every state that the server reaches.
use csci402_projects.Base.{ℕ, ◌≤◌, ◌*◌, refl, subst, sym, none, arith}
use csci402_projects.Network.State.{Server, init}
use csci402_projects.Network.Ensures.{Ensures-apply}
use csci402_projects.Network.Names.{IsTable}
use csci402_projects.Network.Keeps.{released-Kept}
use csci402_projects.Network.Invariant.{Tables, dispatch-Tables, Kept-Ensures}
use csci402_projects.Network.Server.Conditions.{released}
use csci402_projects.Network.Server.Dispatch.{
  dispatch, serve, Step, receive, resume, Steps, here, next,
}

pub Step-Tables : {m : ℕ} {s t : Server} → Step m s t → Tables m s → Tables m t
unfolding serve
Step-Tables {m} {s} {t} (receive d ps own r e) v =
    subst (λ k. Tables k t) own
      (Ensures-apply (Tables d.to_machine) (dispatch d.body.request s d)
        (dispatch-Tables d.body.request s d (subst (λ k. Tables k s) (sym own) v)) e)
Step-Tables {m} {s} {t} (resume d reply ps w e) v =
    Ensures-apply (Tables m) (released s d reply)
      (Kept-Ensures m s (released s d reply) (λ j. released-Kept s d j reply) v) e

pub Steps-Tables : {m : ℕ} {s t : Server} → Steps m s t → Tables m s → Tables m t
Steps-Tables here v = v
Steps-Tables (next r st) v = Step-Tables st (Steps-Tables r v)

pub init-Tables : (m : ℕ) → m ≤ 50 → Tables m init
init-Tables m h = record { locks = empty; conditions = empty; variables = empty }
  where
    empty : IsTable (λ _. none) (m * 100) 0
    empty = record {
      filled = record {
        fits = omega arith;
        named = λ i p q. absurd (omega arith);
        unnamed = λ i p. refl;
      };
      distinct = λ i j a p q. cc;
    }

-- In every state that the server on machine m reaches, the entries of each of its three tables that
-- have a name are the numbers from 100 m on, as many as were made; they lie in the table, and no two
-- entries of a table have one name.
pub reachable-Tables : (m : ℕ) (s : Server) → m ≤ 50 → Steps m init s → Tables m s
reachable-Tables m s h r = Steps-Tables r (init-Tables m h)
