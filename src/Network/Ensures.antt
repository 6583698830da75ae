-- ===== src/Network/Ensures.antt =====
-- What holds of the state after a handler, if it did not fault.
use csci402_projects.Base.{◌≡◌, subst, arith, List, ok, fault}
use csci402_projects.Network.Message.{Packet}
use csci402_projects.Network.State.{Server, Outcome}

abbrev pub Ensures {ℓ} : (Server → Type ℓ) → Outcome → Type ℓ
Ensures P (ok (t, ps)) = P t
Ensures P (fault e) = Unit

pub Ensures-apply {ℓ} :
    (P : Server → Type ℓ) (r : Outcome) {t : Server} {ps : List Packet}
    → Ensures P r
    → r ≡ ok (t, ps)
    → P t
Ensures-apply P (ok (u, qs)) h e = subst P (ground arith) h
Ensures-apply P (fault x) h e = cc
