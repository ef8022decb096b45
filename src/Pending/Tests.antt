-- ===== src/Pending/Tests.antt =====
-- The registry at concrete questions: `q1` asked on connection 7.
use plexus_core.Base.{
  ℕ, Text, codes, true, false, none, some, List, [], ◌∷◌, ◌++◌, ◌≡◌, ◌≢◌, refl, inl, inr, nat_eq,
  text_eq,
}
use plexus_core.Base.Assoc.{lookup}
use plexus_core.Errors.{ok, err}
use plexus_core.Pending.{
  BidirError, Registry, bind_asker, answer_pending, is_request_pending, Act, registers, binds,
  answers, acts,
}
use plexus_core.Pending.Laws.{acts-answer_pending}

abbrev q1 : Text
q1 = codes "q1"

abbrev q2 : Text
q2 = codes "q2"

abbrev registry : Registry ℕ ℕ
registry = record { pending = (q1, record { sender = 1; asker = none }) ∷ []; sent = [] }

abbrev others : List (Act ℕ ℕ)
others =
    registers q2 2
    ∷ binds q1 8
    ∷ answers (λ _. true) q1 (some 8) 5
    ∷ answers (λ _. true) q1 none 6
    ∷ answers (λ _. true) q2 none 9
    ∷ []

abbrev later : Registry ℕ ℕ
later = acts others (bind_asker q1 7 registry).0

acts-answer_pending_example :
    ((answer_pending (λ _. true) q1 (some 7) 3 later).1 ≡ ok tt)
    × ((answer_pending (λ _. true) q1 (some 7) 3 later).0.sent ≡ later.sent ++ (1, 3) ∷ [])
    × (is_request_pending q1 (answer_pending (λ _. true) q1 (some 7) 3 later).0 ≡ false)
unfolding lookup
acts-answer_pending_example =
    acts-answer_pending q1 1 7 registry others (λ _. true) 3 refl
      (refl, (tt, (inr refl, (inr refl, (inl refl, tt))))) refl

abbrev delivered : Registry ℕ ℕ
delivered = record { pending = []; sent = (1, 3) ∷ [] }

answers_once : (answer_pending (λ _. true) q1 none 3 registry) ≡ (delivered, ok tt)
unfolding answer_pending
answers_once = refl

is_not_refused : (answer_pending (λ _. true) q1 none 3 registry).1 ≢ err BidirError.not_this_call
unfolding answer_pending
is_not_refused = cc
