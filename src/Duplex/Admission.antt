-- ===== src/Duplex/Admission.antt =====
-- What `DuplexCall::admit` lets in, and what a refusal leaves behind.
use plexus_core.Base.{
  ◌≤◌, ◌<◌, Text, true, not, Option, none, some, ◌≡◌, refl, ap, ◌∙◌, arith, inl, inr, ◌⊎◌, nat_eq,
  List, [], ◌∷◌, if◌then◌else◌,
}
use plexus_core.Base.Word.{sat_add64}
use plexus_core.Errors.{Result, ok, err}
use plexus_core.Auth.{Gate}
use plexus_core.Call.{DuplexCall, InputFrame, DuplexRefusal, ends_input, DuplexGate}
use plexus_core.Duplex.{
  take_in, reverify, admit_verified, admit, check, check_each, check_targets, ask_again,
}

-- Call `c` takes frame `f` and becomes `c'`.
pub record Takes {A I : Type 0} (c : DuplexCall A) (f : InputFrame I) (c' : DuplexCall A)
    : Type 0 where
  pub open_ : c.closed ≡ none
  pub no_overrun : f.overrun ≡ none
  pub not_empty : 0 < f.items
  pub items : c'.items ≡ sat_add64 c.items f.items
  pub bytes : c'.bytes ≡ sat_add64 c.bytes f.bytes
  pub within_credit : c'.items ≤ c.credit
  pub within_items : c'.items ≤ c.ceiling.max_items
  pub within_bytes : c'.bytes ≤ c.ceiling.max_bytes
  pub still_open : c'.closed ≡ none
  pub credit : c'.credit ≡ c.credit
  pub targets : c'.targets ≡ c.targets
  pub conn : c'.conn ≡ c.conn
  pub caller : c'.caller ≡ c.caller
  pub grant : c'.grant ≡ c.grant
  pub recheck : c'.recheck ≡ c.recheck
  pub at : c'.at ≡ c.at
  pub ceiling : c'.ceiling ≡ c.ceiling
  pub answer_by : c'.answer_by ≡ c.answer_by

module _ {A I : Type 0} (c : DuplexCall A) (f : InputFrame I) (c' : DuplexCall A) where
  take_in-Takes : c.closed ≡ none → take_in c f ≡ (c', ok tt) → Takes c f c'
  unfolding take_in
  take_in-Takes o h = ground arith

  take_in-seen : take_in c f ≡ (c', ok tt) → c'.seen ≡ c.seen
  unfolding take_in
  take_in-seen h = ground arith

module _ {A Reach : Type 0} (g : Gate A Reach) (c c' : DuplexCall A) where
  -- What `reverify` leaves alone: all but the gate's own state, `seen` and, refused, `closed`.
  pub reverify-seen : reverify g c ≡ (c', ok tt) → c' ≡ record c { dg = c'.dg; seen = g.generation }
  unfolding reverify
  reverify-seen h = ground arith

pub admit_verified-ok :
    {A Reach I : Type 0} (g : Gate A Reach) (f : InputFrame I)
    (m : DuplexCall A × Result DuplexRefusal (Unit {0})) (c' : DuplexCall A)
    → admit_verified g f m ≡ (c', ok tt)
    → (m.1 ≡ ok tt) × (take_in m.0 f ≡ (c', ok tt))
admit_verified-ok g f (c, ok _) c' h = (refl, h)
admit_verified-ok g f (c, err e) c' h = cc

module _ {A Reach I : Type 0} (g : Gate A Reach) (c : DuplexCall A) (f : InputFrame I)
    (c' : DuplexCall A) where
  admit_verified-Takes :
      c.closed ≡ none
      → admit_verified g f (reverify g c) ≡ (c', ok tt)
      → Takes c f c' × (c'.seen ≡ g.generation)
  admit_verified-Takes o h =
      let (again, taken) = admit_verified-ok g f (reverify g c) c' h in
      let fresh = reverify-seen g c (reverify g c).0 (ap (λ r. ((reverify g c).0, r)) again) in
      let takes =
        take_in-Takes (reverify g c).0 f c' (ap (λ (r : DuplexCall A). r.closed) fresh ∙ o) taken in
      ground (arith, take_in-seen (reverify g c).0 f c' taken)

  -- A frame is admitted only for an open call, from its own connection, with no overrun and an
  -- item at least; the call then has counted it, within its credit, its items and its bytes, has seen
  -- the gate's generation, and is otherwise as it was, but for the gate's count of its checks and its
  -- audit.
  pub admit-Takes :
      admit g c f ≡ (c', ok tt) → Takes c f c' × (f.from ≡ c.conn) × (c'.seen ≡ g.generation)
  unfolding admit
  admit-Takes h = ground (arith, take_in-Takes c f c', take_in-seen c f c', admit_verified-Takes)

-- The refusal that a call holds after one more.
abbrev pub closed_by : Option DuplexRefusal → DuplexRefusal → Option DuplexRefusal
closed_by (some why) e = some why
closed_by none e = if ends_input e then some e else none

-- A refused call has counted nothing.
pub record Refuses {A : Type 0} (c : DuplexCall A) (e : DuplexRefusal) (c' : DuplexCall A)
    : Type 0 where
  pub items : c'.items ≡ c.items
  pub bytes : c'.bytes ≡ c.bytes
  pub credit : c'.credit ≡ c.credit
  pub closed : c'.closed ≡ closed_by c.closed e
  pub conn : c'.conn ≡ c.conn

module _ {A I : Type 0} (c : DuplexCall A) (f : InputFrame I) (c' : DuplexCall A)
    (e : DuplexRefusal) where
  take_in-Refuses : c.closed ≡ none → take_in c f ≡ (c', err e) → Refuses c e c'
  unfolding take_in ends_input
  take_in-Refuses o h = ground arith

module _ {A Reach : Type 0} (g : Gate A Reach) (c c' : DuplexCall A) (e : DuplexRefusal) where
  check_each-gate :
      (dg dg' : DuplexGate A) (who : Option A) (name : Text) (ts : List Text)
      → check_each g dg who name ts ≡ (dg', err e)
      → ends_input e ≡ true
  unfolding check_each ends_input
  check_each-gate dg dg' who name [] h = cc
  check_each-gate dg dg' who name (t ∷ ts) h =
      ground (arith, check_each-gate (check g dg who name (some t)).0 dg' who name ts)

  ask_again-gate : (ask_again g c).1 ≡ err e → ends_input e ≡ true
  unfolding check_each ends_input
  ask_again-gate h = ask_again-gate_of c.targets h
    where
      ask_again-gate_of :
          (ts : List Text)
          → (if not c.recheck then (c.dg, ok tt) else check_targets g c.dg c.caller c.grant ts).1
            ≡ err e
          → ends_input e ≡ true
      ask_again-gate_of [] h = ground arith
      ask_again-gate_of (t ∷ ts) h = ground (
        arith,
        check_each-gate c.dg (check_each g c.dg c.caller c.grant (t ∷ ts)).0 c.caller c.grant
            (t ∷ ts),
      )

  reverify-Refuses : c.closed ≡ none → reverify g c ≡ (c', err e) → Refuses c e c'
  unfolding reverify
  reverify-Refuses o h = ground (arith, ask_again-gate)

pub admit_verified-err :
    {A Reach I : Type 0} (g : Gate A Reach) (f : InputFrame I)
    (m : DuplexCall A × Result DuplexRefusal (Unit {0})) (c' : DuplexCall A) (e : DuplexRefusal)
    → admit_verified g f m ≡ (c', err e)
    → (m ≡ (c', err e)) ⊎ ((m.1 ≡ ok tt) × (take_in m.0 f ≡ (c', err e)))
admit_verified-err g f (c, ok _) c' e h = inr (refl, h)
admit_verified-err g f (c, err e') c' e h = inl h

module _ {A Reach I : Type 0} (g : Gate A Reach) (c : DuplexCall A) (f : InputFrame I)
    (c' : DuplexCall A) (e : DuplexRefusal) where
  reverified-Refuses :
      c.closed ≡ none
      → (reverify g c).1 ≡ ok tt
      → take_in (reverify g c).0 f ≡ (c', err e)
      → Refuses c e c'
  reverified-Refuses o again h =
      let fresh = reverify-seen g c (reverify g c).0 (ap (λ r. ((reverify g c).0, r)) again) in
      let refuses =
        take_in-Refuses (reverify g c).0 f c' e (ap (λ (r : DuplexCall A). r.closed) fresh ∙ o) h in
      ground arith

  -- A refused frame is not counted, and the call keeps its credit. A call that was closed keeps the
  -- refusal that closed it. An open one is closed with this refusal, or, where this one is of a
  -- kind that does not end an input, stays open.
  pub admit-Refuses : admit g c f ≡ (c', err e) → Refuses c e c'
  unfolding admit ends_input
  admit-Refuses h = ground (
    arith,
    take_in-Refuses c f c' e,
    reverify-Refuses g c c' e,
    admit_verified-err g f (reverify g c) c' e,
    reverified-Refuses,
  )
