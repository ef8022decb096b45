-- ===== src/Duplex/Tests.antt =====
-- A call of connection 7 under a gate that passes the grant `ring.run` until its third move.
use plexus_core.Base.{
  ℕ, Text, codes, true, none, some, List, [], ◌∷◌, ◌≡◌, refl, if◌then◌else◌, ltb,
}
use plexus_core.Base.Word.{sat_add64}
use plexus_core.Errors.{PlexusError, Result, ok, err}
use plexus_core.Auth.{Gate, Refusal}
use plexus_core.GrantGate.{from_refusal}
use plexus_core.Call.{
  CallCeiling, Answerer, DuplexRefusal, InputFrame, DuplexGate, DuplexCall, code,
}
use plexus_core.Duplex.{admit}
use plexus_core.Duplex.Answers.{MayAnswer, answer-MayAnswer}
use plexus_core.Duplex.Open.{answer, open_call}
use plexus_core.Duplex.Admission.{Takes, Refuses, admit-Takes, admit-Refuses}
use plexus_core.Duplex.Authority.{PassesCall, admit-Permits}
use plexus_core.Duplex.Loop.{Turn, Output, arrives, moved, input}
use plexus_core.Duplex.Loop.Strangers.{own, heard, input-own}

abbrev pub run : Text
run = codes "ring.run"

-- The grants at their n-th generation: the third move takes the grant back.
abbrev pub grants : ℕ → Gate (Unit {0}) (Unit {0})
grants n = record {
  generation = n;
  check = λ _ _ _. if ltb n 3 then ok tt else err Refusal.unauthenticated;
  reach_of_public = λ _ _. tt;
  alive = λ _. ok tt;
}

abbrev pub ceiling : CallCeiling
ceiling = record { credit = 4; max_items = 100; max_bytes = 1000; max_buffered = 64 }

abbrev pub unaudited : DuplexGate (Unit {0})
unaudited = record { checks = 0; audit = some [] }

abbrev pub call : DuplexCall (Unit {0})
call = record {
  dg = unaudited;
  conn = 7;
  at = record { conn = 7; subscription = 21 };
  caller = some tt;
  grant = run;
  targets = codes "a" ∷ codes "b" ∷ [];
  recheck = true;
  seen = 1;
  ceiling = ceiling;
  credit = 4;
  items = 0;
  bytes = 0;
  closed = none;
  answer_by = Answerer.caller;
}

abbrev pub frame : (from items : ℕ) → InputFrame ℕ
frame from items = record {
  from = from;
  seq = 0;
  item = 5;
  items = items;
  bytes = 10;
  overrun = none;
}

-- Admitted after a move of the grants: both targets are asked for again.
abbrev taken : DuplexCall (Unit {0})
taken = record call { dg = record { checks = 2; audit = some [] }; seen = 2; items = 3; bytes = 10 }

admitted_again : admit (grants 2) call (frame 7 3) ≡ (taken, ok tt)
unfolding admit sat_add64
admitted_again = refl

admit-Takes_example :
    Takes call (frame 7 3) taken
    × ((frame 7 3).from ≡ call.conn)
    × (taken.seen ≡ (grants 2).generation)
admit-Takes_example = admit-Takes (grants 2) call (frame 7 3) taken admitted_again

abbrev past : DuplexRefusal
past = DuplexRefusal.past_credit 0 4

abbrev closed : DuplexCall (Unit {0})
closed = record call {
  dg = record {
    checks = 0;
    audit = some (record { call = call.at; why = code past; who = some tt; grant = run } ∷ []);
  };
  closed = some past;
}

closed_past_credit : admit (grants 1) call (frame 7 5) ≡ (closed, err past)
unfolding admit code sat_add64
closed_past_credit = refl

admit-Refuses_example : Refuses call past closed
admit-Refuses_example = admit-Refuses (grants 1) call (frame 7 5) closed past closed_past_credit

permitted : PassesCall (grants 1) call
permitted = ((tt, refl), ((tt, refl), tt))

admit-Permits_example : PassesCall (grants 2) taken × (taken.seen ≡ 2) × (taken.recheck ≡ true)
admit-Permits_example =
    admit-Permits (grants 1) (grants 2) call (frame 7 3) taken refl (λ h. cc h) refl permitted
      admitted_again

-- After the grant is taken back, the same frame ends the call.
taken_back :
    (admit (grants 3) call (frame 7 3)).1
    ≡ err (
        DuplexRefusal.gate
          (PlexusError.unauthenticated (codes "sign in first: this method is not public")))
unfolding admit from_refusal
taken_back = refl

abbrev place : Result ℕ (Unit {0})
place = ok tt

abbrev opened_call : DuplexCall (Unit {0})
opened_call = record call {
  dg = record { checks = 1; audit = some [] };
  targets = codes "a" ∷ [];
  seen = 2;
}

opens :
    (open_call
      (grants 2)
      unaudited
      call.at
      place
      (some tt)
      run
      (some (codes "a"))
      ceiling
      Answerer.caller).1
    ≡ ok opened_call
unfolding open_call
opens = refl

abbrev turns : List (Turn (Unit {0}) (Unit {0}) ℕ)
turns =
    record { gate = grants 1; event = arrives (frame 8 2) }
    ∷ record { gate = grants 1; event = arrives (frame 7 2) }
    ∷ record { gate = grants 2; event = moved }
    ∷ record { gate = grants 2; event = arrives (frame 7 3) }
    ∷ []

input-own_example : heard (input call turns) ≡ heard (input call (own 7 turns))
input-own_example = input-own turns call refl

heard_once : heard (input call turns) ≡ Output.yields 5 ∷ Output.fails past ∷ []
unfolding input sat_add64
heard_once = refl

answers : (answer (grants 1) (λ _. true) call 7 (some tt)).1 ≡ ok tt
unfolding answer
answers = refl

answer-MayAnswer_example :
    (call.closed ≡ none) × MayAnswer (grants 1) (λ _. true) call Answerer.caller 7 (some tt)
answer-MayAnswer_example = answer-MayAnswer (grants 1) (λ _. true) call 7 (some tt) answers
