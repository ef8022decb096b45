-- ===== src/Duplex/Answers.antt =====
-- Who may answer a question that a call asked.
use plexus_core.Base.{ℕ, Text, Bool, true, Option, none, some, ◌≡◌, refl, arith, nat_eq, inl, inr}
use plexus_core.Errors.{ok, Result-cases}
use plexus_core.Auth.{Gate}
use plexus_core.GrantGate.{gate_check}
use plexus_core.GrantGate.Laws.{Passes}
use plexus_core.Call.{Answerer, DuplexCall}
use plexus_core.Duplex.{asked, check}
use plexus_core.Duplex.Authority.{asked-Passes}
use plexus_core.Duplex.Open.{answer, answered_by, first_target}

module _ {A Reach : Type 0} (g : Gate A Reach) (is_person : A → Bool) (c : DuplexCall A) where
  -- By the method's answerer: the caller's connection, a person on it, or who holds the grant.
  abbrev pub MayAnswer : Answerer → ℕ → Option A → Type 0
  MayAnswer Answerer.caller from who = from ≡ c.conn
  MayAnswer Answerer.person from who =
      (from ≡ c.conn) × (a : A) × (who ≡ some a) × (is_person a ≡ true)
  MayAnswer (Answerer.grant name) from who = Passes g who name (first_target c.targets)

  person-answers :
      (from : ℕ) (w : A)
      → (answered_by g is_person c Answerer.person from (some w)).1 ≡ ok tt
      → (from ≡ c.conn) × (is_person w ≡ true)
  person-answers from w h = ground arith

  grant-answers :
      (name : Text) (from : ℕ) (who : Option A)
      → (answered_by g is_person c (Answerer.grant name) from who).1 ≡ ok tt
      → asked (gate_check g who name (first_target c.targets)) ≡ ok tt
  unfolding check
  grant-answers name from who h =
      elim (Result-cases (asked (gate_check g who name (first_target c.targets)))) [
        | inl (_, passed) ↦ passed
        | inr (e, refused) ↦ cc (rw (refused, answered_by) at h)
      ]

  answered_by-MayAnswer :
      (by : Answerer) (from : ℕ) (who : Option A)
      → (answered_by g is_person c by from who).1 ≡ ok tt
      → MayAnswer by from who
  unfolding check
  answered_by-MayAnswer Answerer.caller from who h = ground arith
  answered_by-MayAnswer Answerer.person from none h = ground arith
  answered_by-MayAnswer Answerer.person from (some w) h =
      let (here, person_is) = person-answers from w h in (here, w, refl, person_is)
  answered_by-MayAnswer (Answerer.grant name) from who h =
      asked-Passes g who name (first_target c.targets) (grant-answers name from who h)

  -- An answer is accepted only while the call's input is open, and only from whom its method lets
  -- answer: its caller's connection, a person on that connection, or who the gate passes on the
  -- grant that the method names.
  pub answer-MayAnswer :
      (from : ℕ) (who : Option A)
      → (answer g is_person c from who).1 ≡ ok tt
      → (c.closed ≡ none) × MayAnswer c.answer_by from who
  unfolding answer
  answer-MayAnswer from who h = ground (arith, answered_by-MayAnswer c.answer_by from who)
