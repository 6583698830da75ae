-- ===== src/Network/Examples/Votes.antt =====
-- The message handler, at concrete inputs.
use csci402_projects.Base.{
  ℕ, ◌≡◌, refl, ◌⊎◌, ok, some, [], ◌∷◌, false, pos, ◌≢◌, ◌≤◌, ◌<◌, if◌then◌else◌, ◌==◌, ltb,
}
use csci402_projects.Network.Message.{Delivery, aq, cl, no_reply, ys}
use csci402_projects.Network.Handler.{
  Handler, InProgress, ask_others, vote, vote_create_lock, to_own_server,
}
use csci402_projects.Network.Voting.{replies, replies-verdict}
use csci402_projects.Network.Asking.{count_to, ask_others_once, vote_create_lock_lem}
use csci402_projects.Network.Examples.Data.{message, delivery, one_lock, one_lock-Tables}

abbrev waiting : InProgress
waiting = record { message = message cl 0 0; yes_replies = 0; no_replies = 0 }

abbrev later : InProgress
later = record waiting { message = record (message aq 0 0) { id = pos 8 } }

abbrev handler : ℕ → Handler
handler n = record { in_progress = waiting ∷ later ∷ []; num_servers = n }

replies-verdict_example :
    replies (handler 3) ((false, delivery 0 no_reply 0 0) ∷ (false, delivery 0 no_reply 0 0) ∷ [])
    ≡ ok (record (handler 3) { in_progress = later ∷ [] }, to_own_server 0 (message cl 0 0) ∷ [])
replies-verdict_example =
    replies-verdict (handler 3) waiting (later ∷ []) 0 (false, delivery 0 no_reply 0 0)
      ((false, delivery 0 no_reply 0 0) ∷ []) ((refl, refl), ((refl, refl), tt)) (refl, tt) refl

abbrev later_answer : Delivery
later_answer = record (delivery 0 no_reply 0 0) {
  body = record (message no_reply 0 0) { id = pos 8 };
}

ask_others_once_example :
    count_to 2 (ask_others 1 (message cl 0 0) 0 3)
    ≡ (if (2 == 1) then 0 else if ltb 2 3 then 1 else 0)
ask_others_once_example = ask_others_once 1 2 3 (message cl 0 0)

vote_create_lock_lem_run :
    (((j : ℕ) × ((one_lock.locks j).name ≡ some "gate"))
      × (vote_create_lock one_lock (handler 2) (delivery 0 cl 0 0)
          ≡ ok (handler 2, to_own_server 0 (message cl 0 0) ∷ vote (delivery 0 cl 0 0) ys ∷ [])))
    ⊎ (((j : ℕ) → 0 ≤ j → j < 1 → (one_lock.locks j).name ≢ some "gate")
        × (vote_create_lock one_lock (handler 2) (delivery 0 cl 0 0)
            ≡ ok (handler 2, vote (delivery 0 cl 0 0) no_reply ∷ [])))
vote_create_lock_lem_run =
    vote_create_lock_lem one_lock (handler 2) (delivery 0 cl 0 0) one_lock-Tables
