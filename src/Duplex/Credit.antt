-- ===== src/Duplex/Credit.antt =====
-- When `DuplexCall::admit` refuses a frame as past its credit.
use plexus_core.Base.{
  ℕ, ◌<◌, Text, Bool, true, false, Option, some, List, [], ◌∷◌, ◌≡◌, ap, arith, ◌⊎◌, nat_eq,
}
use plexus_core.Base.Word.{sat_add64}
use plexus_core.Errors.{ok, err}
use plexus_core.Auth.{Gate}
use plexus_core.Call.{DuplexGate, DuplexCall, InputFrame, DuplexRefusal, Overrun}
use plexus_core.Duplex.{check, check_each, check_targets, ask_again, take_in, reverify, admit}
use plexus_core.Duplex.Admission.{reverify-seen, admit_verified-err}

abbrev is_gate : DuplexRefusal → Bool
is_gate (DuplexRefusal.gate _) = true
is_gate _ = false

module _ {A Reach : Type 0} (g : Gate A Reach) (c : DuplexCall A) (e : DuplexRefusal) where
  check_each-is_gate :
      (dg dg' : DuplexGate A) (who : Option A) (name : Text) (ts : List Text)
      → check_each g dg who name ts ≡ (dg', err e)
      → is_gate e ≡ true
  unfolding check_each
  check_each-is_gate dg dg' who name [] h = cc
  check_each-is_gate dg dg' who name (t ∷ ts) h =
      ground (arith, check_each-is_gate (check g dg who name (some t)).0 dg' who name ts)

  check_targets-is_gate :
      (dg dg' : DuplexGate A) (who : Option A) (name : Text) (ts : List Text)
      → check_targets g dg who name ts ≡ (dg', err e)
      → is_gate e ≡ true
  unfolding check
  check_targets-is_gate dg dg' who name [] h = ground arith
  check_targets-is_gate dg dg' who name (t ∷ ts) h = check_each-is_gate dg dg' who name (t ∷ ts) h

  reverify-is_gate : (c' : DuplexCall A) → reverify g c ≡ (c', err e) → is_gate e ≡ true
  unfolding reverify
  reverify-is_gate c' h =
      ground (arith, check_targets-is_gate c.dg (ask_again g c).0 c.caller c.grant c.targets)

module _ {A I : Type 0} (c : DuplexCall A) (f : InputFrame I) (c' : DuplexCall A)
    (seq limit : ℕ) where
  take_in-past_credit :
      take_in c f ≡ (c', err (DuplexRefusal.past_credit seq limit))
      → (f.overrun ≡ some Overrun.credit) ⊎ (c.credit < sat_add64 c.items f.items)
  unfolding take_in
  take_in-past_credit h = ground arith

module _ {A Reach I : Type 0} (g : Gate A Reach) (c : DuplexCall A) (f : InputFrame I)
    (c' : DuplexCall A) (seq limit : ℕ) where
  reverified-past_credit :
      (reverify g c).1 ≡ ok tt
      → take_in (reverify g c).0 f ≡ (c', err (DuplexRefusal.past_credit seq limit))
      → (f.overrun ≡ some Overrun.credit) ⊎ (c.credit < sat_add64 c.items f.items)
  reverified-past_credit again h =
      let fresh = reverify-seen g c (reverify g c).0 (ap (λ r. ((reverify g c).0, r)) again) in
      let past = take_in-past_credit (reverify g c).0 f c' seq limit h in ground arith

  -- A frame is refused as past credit only where the table has marked it as past its window, or
  -- its items, with all that the call has taken, are more than the credit granted to the call.
  pub admit-past_credit :
      admit g c f ≡ (c', err (DuplexRefusal.past_credit seq limit))
      → (f.overrun ≡ some Overrun.credit) ⊎ (c.credit < sat_add64 c.items f.items)
  unfolding admit
  admit-past_credit h = ground (
    arith,
    take_in-past_credit c f c' seq limit,
    reverify-is_gate g c (DuplexRefusal.past_credit seq limit) c',
    admit_verified-err g f (reverify g c) c' (DuplexRefusal.past_credit seq limit),
    reverified-past_credit,
  )
