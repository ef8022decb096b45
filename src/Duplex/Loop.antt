-- ===== src/Duplex/Loop.antt =====
-- The loop of `DuplexCall::input`: its `select!` as one turn at a time, each with the gate as it
-- decides then. The turns come in the order in which the loop takes them.
pub mod Strangers
use plexus_core.Base.{
  ℕ, Text, Bool, true, false, not, Option, none, some, List, [], ◌∷◌, ◌++◌, ◌≡◌, refl, sym, ap, ◌∙◌,
  arith, inl, inr, ◌⊎◌, if◌then◌else◌, All, Bool-cases, ◌==◌, nat_eq, eq_of_beq,
}
use plexus_core.Errors.{Result, ok, err, Result-cases}
use plexus_core.Auth.{Gate}
use plexus_core.Call.{DuplexGate, DuplexCall, InputFrame, DuplexRefusal, ends_input}
use plexus_core.Duplex.{
  refuse, close, expire, check, check_each, check_targets, ask_again, take_in, reverify,
  admit_verified, admit,
}

-- What wakes the loop.
pub data Event (I : Type 0) : Type 0 where
  moved : Event I
  expired : Event I
  arrives : InputFrame I → Event I
  ended : Event I

pub record Turn (A Reach I : Type 0) : Type 0 where
  pub gate : Gate A Reach
  pub event : Event I

-- What the loop yields, and what it tells another connection.
pub data Output (I : Type 0) : Type 0 where
  yields : I → Output I
  fails : DuplexRefusal → Output I
  tells : (conn : ℕ) → DuplexRefusal → Output I

module _ {A I : Type 0} where
  -- A turn's outcome: the call and the output, and whether the loop goes on.
  abbrev pub after_frame :
      InputFrame I
      → DuplexCall A × Result DuplexRefusal (Unit {0})
      → DuplexCall A × List (Output I) × Bool
  after_frame f (c, ok _) = (c, yields f.item ∷ [], true)
  after_frame f (c, err e) =
      if not (ends_input e) then (c, tells f.from e ∷ [], true) else (c, fails e ∷ [], false)

  abbrev pub after_move :
      DuplexCall A × Result DuplexRefusal (Unit {0}) → DuplexCall A × List (Output I) × Bool
  after_move (c, ok _) = (c, [], true)
  after_move (c, err e) = (c, fails e ∷ [], false)

module _ {A Reach I : Type 0} where
  unfoldable pub turn_event :
      DuplexCall A → Gate A Reach → Event I → DuplexCall A × List (Output I) × Bool
  unfolding admit reverify expire ends_input
  turn_event c g moved = if g.generation == c.seen then (c, [], true) else after_move (reverify g c)
  turn_event c g expired = let (c', e) = expire c in (c', fails e ∷ [], false)
  turn_event c g (arrives f) = after_frame f (admit g c f)
  turn_event c g ended = (c, [], false)

  unfoldable pub input : DuplexCall A → List (Turn A Reach I) → List (Output I)
  unfolding turn_event
  input c [] = []
  input c (t ∷ ts) =
      let (c', out, goes_on) = turn_event c t.gate t.event in
      elim goes_on [ true ↦ out ++ input c' ts | false ↦ out ]
