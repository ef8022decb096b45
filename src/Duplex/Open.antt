-- ===== src/Duplex/Open.antt =====
-- How a call opens, and who may answer what it asks (src/plexus/duplex_gate.rs).
use plexus_core.Base.{
  ℕ, Text, Bool, true, Option, none, some, List, [], ◌∷◌, if◌then◌else◌, ◌==◌, nat_eq,
}
use plexus_core.Errors.{Result, ok, err}
use plexus_core.Auth.{Gate}
use plexus_core.Call.{
  CallRef, CallCeiling, Answerer, DuplexRefusal, DuplexGate, DuplexCall, is_some,
}
use plexus_core.Duplex.{check, audited}

abbrev pub one_target : Option Text → List Text
one_target none = []
one_target (some t) = t ∷ []

abbrev pub first_target : List Text → Option Text
first_target [] = none
first_target (t ∷ _) = some t

module _ {A Reach : Type 0} (g : Gate A Reach) where
  -- A refusal of an answer is audited under the name of who answers.
  abbrev pub refuse_answer :
      DuplexGate A
      → DuplexCall A
      → Option A
      → DuplexRefusal
      → DuplexGate A × Result DuplexRefusal (Unit {0})
  refuse_answer dg c who why = (audited dg c.at who c.grant why, err why)

  abbrev pub answered_by :
      (is_person : A → Bool)
      → DuplexCall A
      → Answerer
      → ℕ
      → Option A
      → DuplexGate A × Result DuplexRefusal (Unit {0})
  answered_by is_person c Answerer.caller from who =
      if from == c.conn then (c.dg, ok tt) else refuse_answer c.dg c who DuplexRefusal.not_this_call
  answered_by is_person c Answerer.person from none =
      if from == c.conn
      then refuse_answer c.dg c none DuplexRefusal.person_required
      else refuse_answer c.dg c none DuplexRefusal.not_this_call
  answered_by is_person c Answerer.person from (some w) =
      if from == c.conn
      then (if is_person w
          then (c.dg, ok tt)
          else refuse_answer c.dg c (some w) DuplexRefusal.person_required)
      else refuse_answer c.dg c (some w) DuplexRefusal.not_this_call
  answered_by is_person c (Answerer.grant name) from who =
      let (dg', r) = check g c.dg who name (first_target c.targets) in
      elim r [ ok _ ↦ (dg', ok tt) | err e ↦ refuse_answer dg' c who e ]

  -- DuplexCall::answer: the call itself is not changed, but for what its gate counts and audits.
  unfoldable pub answer :
      (is_person : A → Bool)
      → DuplexCall A
      → ℕ
      → Option A
      → DuplexGate A × Result DuplexRefusal (Unit {0})
  unfolding check audited
  answer is_person c from who =
      if is_some c.closed
      then refuse_answer c.dg c who DuplexRefusal.input_closed
      else answered_by is_person c c.answer_by from who

module _ {A : Type 0} where
  -- DuplexGate::opened: `place` is what the connection's call counter answers, with the most calls
  -- that it allows where it has no place left.
  unfoldable pub opened :
      DuplexGate A
      → CallRef
      → (place : Result ℕ (Unit {0})) → Option A
      → Text
      → List Text
      → (seen : ℕ) (recheck : Bool) → CallCeiling
      → Answerer
      → DuplexGate A × Result DuplexRefusal (DuplexCall A)
  unfolding audited
  opened dg at place who name targets seen recheck ceiling answer_by = elim place [
    | err max ↦ (
      audited dg at who name (DuplexRefusal.too_many_calls max),
      err (DuplexRefusal.too_many_calls max),
    )
    | ok _ ↦ (
      dg,
      ok (record {
        dg = dg;
        conn = at.conn;
        at = at;
        caller = who;
        grant = name;
        targets = targets;
        recheck = recheck;
        seen = seen;
        ceiling = ceiling;
        credit = ceiling.credit;
        items = 0;
        bytes = 0;
        closed = none;
        answer_by = answer_by;
      }),
    )
  ]

  -- DuplexGate::open: the generation is read before the gate decides.
  unfoldable pub open_call :
      {Reach : Type 0}
      → Gate A Reach
      → DuplexGate A
      → CallRef
      → (place : Result ℕ (Unit {0})) → Option A
      → Text
      → Option Text
      → CallCeiling
      → Answerer
      → DuplexGate A × Result DuplexRefusal (DuplexCall A)
  unfolding check audited opened
  open_call g dg at place who name target ceiling answer_by =
      let (dg', r) = check g dg who name target in
      elim r [
        | err e ↦ (audited dg' at who name e, err e)
        | ok _ ↦
            opened dg' at place who name (one_target target) g.generation true ceiling answer_by
      ]

  -- DuplexGate::admitted: the dispatch has decided already, at generation `seen`.
  unfoldable pub admitted :
      DuplexGate A
      → CallRef
      → (place : Result ℕ (Unit {0})) → Option A
      → Text
      → List Text
      → (seen : ℕ) (recheck : Bool) → CallCeiling
      → Answerer
      → DuplexGate A × Result DuplexRefusal (DuplexCall A)
  unfolding opened
  admitted dg at place who name targets seen recheck ceiling answer_by =
      opened dg at place who name targets seen recheck ceiling answer_by
