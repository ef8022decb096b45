-- ===== src/Duplex/Loop/Strangers.antt =====
-- What other connections send does not reach a call.
use plexus_core.Base.{
  ℕ, Text, Bool, true, false, Option, none, some, List, [], ◌∷◌, ◌++◌, ◌≡◌, refl, sym, ap, ◌∙◌,
  arith, inl, inr, if◌then◌else◌, Bool-cases, ◌==◌, nat_eq,
}
use mathlib.Core.Path.{subst}
use plexus_core.Errors.{Result, ok, err}
use plexus_core.Auth.{Gate}
use plexus_core.Call.{DuplexGate, DuplexCall, InputFrame, DuplexRefusal}
use plexus_core.Duplex.{check, check_each, check_targets, take_in, reverify, admit_verified, admit}
use plexus_core.Duplex.Admission.{admit-Takes, admit-Refuses, reverify-seen}
use plexus_core.Duplex.Loop.{
  Event, moved, expired, arrives, ended, Turn, Output, tells, after_frame, after_move, turn_event,
  input,
}

-- The same call, whatever its gate has counted and audited.
abbrev pub with_gate : {A : Type 0} → DuplexGate A → DuplexCall A → DuplexCall A
with_gate d c = record c { dg = d }

-- Two outcomes that differ in the gate's own state at most.
abbrev SameButGate : {A R : Type 0} → DuplexCall A × R → DuplexCall A × R → Type 0
SameButGate m m' = (m.0 ≡ with_gate m.0.dg m'.0) × (m.1 ≡ m'.1)

module _ {A Reach : Type 0} (g : Gate A Reach) (d : DuplexGate A) where
  check_each-with_gate :
      (dg dg' : DuplexGate A) (who : Option A) (name : Text) (ts : List Text)
      → (check_each g dg who name ts).1 ≡ (check_each g dg' who name ts).1
  unfolding check_each
  check_each-with_gate dg dg' who name [] = refl
  check_each-with_gate dg dg' who name (t ∷ ts) = ground (
    arith,
    check_each-with_gate (check g dg who name (some t)).0 (check g dg' who name (some t)).0 who name
        ts,
  )

  check_targets-with_gate :
      (dg dg' : DuplexGate A) (who : Option A) (name : Text) (ts : List Text)
      → (check_targets g dg who name ts).1 ≡ (check_targets g dg' who name ts).1
  unfolding check
  check_targets-with_gate dg dg' who name [] = refl
  check_targets-with_gate dg dg' who name (t ∷ ts) = check_each-with_gate dg dg' who name (t ∷ ts)

  reverify-with_gate : (c : DuplexCall A) → SameButGate (reverify g (with_gate d c)) (reverify g c)
  unfolding reverify
  reverify-with_gate c = ground (arith, check_targets-with_gate d c.dg c.caller c.grant c.targets)

module _ {A I : Type 0} (d : DuplexGate A) (c : DuplexCall A) (f : InputFrame I) where
  take_in-with_gate : SameButGate (take_in (with_gate d c) f) (take_in c f)
  unfolding take_in
  take_in-with_gate = ground arith

module _ {A Reach I : Type 0} (g : Gate A Reach) (f : InputFrame I) where
  admit_verified-SameButGate :
      (m m' : DuplexCall A × Result DuplexRefusal (Unit {0}))
      → SameButGate m m'
      → SameButGate (admit_verified g f m) (admit_verified g f m')
  admit_verified-SameButGate (c, ok _) (c', ok _) (e, _) =
      subst (λ x. SameButGate (take_in x f) (take_in c' f)) (sym e) (take_in-with_gate c.dg c' f)
  admit_verified-SameButGate (c, err a) (c', err b) (e, same) = (e, same)
  admit_verified-SameButGate (c, ok _) (c', err b) (e, same) = cc
  admit_verified-SameButGate (c, err a) (c', ok _) (e, same) = cc

  admit-SameButGate :
      (d : DuplexGate A) (c : DuplexCall A) → SameButGate (admit g (with_gate d c) f) (admit g c f)
  unfolding admit
  admit-SameButGate d c = ground (
    arith,
    take_in-with_gate d c f,
    admit_verified-SameButGate (reverify g (with_gate d c)) (reverify g c)
        (reverify-with_gate g d c),
  )

module _ {A I : Type 0} (f : InputFrame I) where
  after_frame-SameButGate :
      (m m' : DuplexCall A × Result DuplexRefusal (Unit {0}))
      → SameButGate m m'
      → ((after_frame f m).0 ≡ with_gate (after_frame f m).0.dg (after_frame f m').0)
        × ((after_frame f m).1 ≡ (after_frame f m').1)
        × ((after_frame f m).2 ≡ (after_frame f m').2)
  after_frame-SameButGate (c, ok _) (c', ok _) (e, _) = ground arith
  after_frame-SameButGate (c, err a) (c', err b) (e, same) = ground arith
  after_frame-SameButGate (c, ok _) (c', err b) (e, same) = cc
  after_frame-SameButGate (c, err a) (c', ok _) (e, same) = cc

module _ {A Reach I : Type 0} where
  turn_event-with_gate :
      (d : DuplexGate A) (c : DuplexCall A) (g : Gate A Reach) (e : Event I)
      → ((turn_event (with_gate d c) g e).0
          ≡ with_gate (turn_event (with_gate d c) g e).0.dg (turn_event c g e).0)
        × ((turn_event (with_gate d c) g e).1 ≡ (turn_event c g e).1)
        × ((turn_event (with_gate d c) g e).2 ≡ (turn_event c g e).2)
  unfolding turn_event
  turn_event-with_gate d c g moved = ground (arith, reverify-with_gate g d c)
  turn_event-with_gate d c g expired = ground arith
  turn_event-with_gate d c g (arrives f) =
      after_frame-SameButGate f (admit g (with_gate d c) f) (admit g c f)
        (admit-SameButGate g f d c)
  turn_event-with_gate d c g ended = ground arith

  -- What the loop puts out does not depend on what its gate has counted and audited.
  input-with_gate :
      (ts : List (Turn A Reach I)) (d : DuplexGate A) (c : DuplexCall A)
      → input (with_gate d c) ts ≡ input c ts
  unfolding input
  input-with_gate [] d c = refl
  input-with_gate (t ∷ ts) d c =
      let (same, out, on) = turn_event-with_gate d c t.gate t.event in
      let rest = ap (λ x. input x ts) same ∙ input-with_gate ts _ (turn_event c t.gate t.event).0 in
      ground arith

module _ {I : Type 0} where
  -- The turns of the call's own connection, and of what is no frame.
  abbrev pub is_own : ℕ → Event I → Bool
  is_own conn (arrives f) = f.from == conn
  is_own conn _ = true

  abbrev pub is_told : Output I → Bool
  is_told (tells _ _) = true
  is_told _ = false

  -- What the call's handler and its connection see: not what strangers are told.
  abbrev pub heard : List (Output I) → List (Output I)
  heard [] = []
  heard (o ∷ os) = if is_told o then heard os else o ∷ heard os

after_move-keeps :
    {A Reach : Type 0} (I : Type 0) (c : DuplexCall A) (g : Gate A Reach)
    (m : DuplexCall A × Result DuplexRefusal (Unit {0}))
    → c.closed ≡ none
    → reverify g c ≡ m
    → (after_move {I = I} m).2 ≡ true
    → ((after_move {I = I} m).0.closed ≡ none) × ((after_move {I = I} m).0.conn ≡ c.conn)
after_move-keeps {A} I c g (c', ok _) o e on =
    let fresh = reverify-seen g c c' e in
    (ap (λ (x : DuplexCall A). x.closed) fresh ∙ o, ap (λ (x : DuplexCall A). x.conn) fresh)
after_move-keeps I c g (c', err why) o e on = cc

heard-append : {I : Type 0} (os ps : List (Output I)) → heard (os ++ ps) ≡ heard os ++ heard ps
heard-append [] ps = refl
heard-append (o ∷ os) ps = ground (arith, heard-append os ps)

module _ {A Reach I : Type 0} where
  abbrev pub own : ℕ → List (Turn A Reach I) → List (Turn A Reach I)
  own conn [] = []
  own conn (t ∷ ts) = if is_own conn t.event then t ∷ own conn ts else own conn ts

  after_frame-keeps :
      (c : DuplexCall A) (g : Gate A Reach) (f : InputFrame I)
      (m : DuplexCall A × Result DuplexRefusal (Unit {0}))
      → c.closed ≡ none
      → admit g c f ≡ m
      → (after_frame f m).2 ≡ true
      → ((after_frame f m).0.closed ≡ none) × ((after_frame f m).0.conn ≡ c.conn)
  after_frame-keeps c g f (c', ok _) o e on =
      let takes = (admit-Takes g c f c' e).0 in (takes.still_open, takes.conn)
  after_frame-keeps c g f (c', err why) o e on =
      let refuses = admit-Refuses g c f c' why e in ground arith

  turn_event-keeps :
      (c : DuplexCall A) (g : Gate A Reach) (e : Event I)
      → c.closed ≡ none
      → (turn_event c g e).2 ≡ true
      → ((turn_event c g e).0.closed ≡ none) × ((turn_event c g e).0.conn ≡ c.conn)
  unfolding turn_event
  turn_event-keeps c g moved o on = ground (arith, after_move-keeps I c g (reverify g c))
  turn_event-keeps c g expired o on = cc
  turn_event-keeps c g (arrives f) o on = after_frame-keeps c g f (admit g c f) o refl on
  turn_event-keeps c g ended o on = cc

  turn_event-stranger :
      (c : DuplexCall A) (g : Gate A Reach) (e : Event I)
      → c.closed ≡ none
      → is_own c.conn e ≡ false
      → ((turn_event c g e).0 ≡ with_gate (turn_event c g e).0.dg c)
        × (heard (turn_event c g e).1 ≡ [])
        × ((turn_event c g e).2 ≡ true)
  unfolding turn_event
  turn_event-stranger c g (arrives f) o h = ground arith
  turn_event-stranger c g _ o h = cc

  input-stop :
      (c : DuplexCall A) (t : Turn A Reach I) (ts : List (Turn A Reach I))
      → (turn_event c t.gate t.event).2 ≡ false
      → input c (t ∷ ts) ≡ (turn_event c t.gate t.event).1
  unfolding input
  input-stop c t ts h = rw (h, input)

  input-go :
      (c : DuplexCall A) (t : Turn A Reach I) (ts : List (Turn A Reach I))
      → (turn_event c t.gate t.event).2 ≡ true
      → input c (t ∷ ts)
        ≡ (turn_event c t.gate t.event).1 ++ input (turn_event c t.gate t.event).0 ts
  unfolding input
  input-go c t ts h = rw (h, input)

  heard-input :
      (c : DuplexCall A) (t : Turn A Reach I) (ts us : List (Turn A Reach I))
      → ((turn_event c t.gate t.event).2 ≡ true
          → heard (input (turn_event c t.gate t.event).0 ts)
            ≡ heard (input (turn_event c t.gate t.event).0 us))
      → heard (input c (t ∷ ts)) ≡ heard (input c (t ∷ us))
  heard-input c t ts us h = elim (Bool-cases (turn_event c t.gate t.event).2) [
    | inl on ↦ rw (input-go c t ts on, input-go c t us on, heard-append, heard-append, h on)
    | inr off ↦ rw (input-stop c t ts off, input-stop c t us off)
  ]

  -- What an open call yields, and how it fails, is the same without the frames that other
  -- connections send, wherever they stand in the order of events and however the gate moves.
  pub input-own :
      (ts : List (Turn A Reach I)) (c : DuplexCall A)
      → c.closed ≡ none
      → heard (input c ts) ≡ heard (input c (own c.conn ts))
  input-own [] c o = refl
  input-own (t ∷ ts) c o = elim (Bool-cases (is_own c.conn t.event)) [
    | inl mine ↦ rw mine (
        heard-input c t ts (own c.conn ts) (λ on.
          let (o', same) = turn_event-keeps c t.gate t.event o on in
          rw same at (input-own ts (turn_event c t.gate t.event).0 o')))
    | inr other ↦
        let (same, quiet, on) = turn_event-stranger c t.gate t.event o other in
        rw (other, input-go c t ts on, heard-append, quiet)
          (ap (λ x. heard (input x ts)) same
            ∙ ap heard (input-with_gate ts (turn_event c t.gate t.event).0.dg c)
            ∙ input-own ts c o)
  ]
