-- ===== src/Duplex/Audit.antt =====
-- Every refusal of a call is offered to the audit queue once, and nothing else is.
use plexus_core.Base.{Text, Option, some, List, [], ◌∷◌, ◌≡◌, refl, arith}
use plexus_core.Errors.{Result, ok, err}
use plexus_core.Auth.{Gate}
use plexus_core.Call.{DuplexGate, DuplexCall, InputFrame, DuplexRefusal, AuditRecord, code}
use plexus_core.Duplex.{
  offer, check, check_each, check_targets, ask_again, take_in, reverify, admit_verified, admit,
}

-- What the audit queue holds after an operation of call `c` answered `r`.
abbrev pub audit_after :
    {A : Type 0} → DuplexCall A → Result DuplexRefusal (Unit {0}) → Option (List (AuditRecord A))
audit_after c (ok _) = c.dg.audit
audit_after c (err e) =
    offer (record { call = c.at; why = code e; who = c.caller; grant = c.grant }) c.dg.audit

module _ {A Reach : Type 0} (g : Gate A Reach) where
  check_each-audit :
      (dg : DuplexGate A) (who : Option A) (name : Text) (ts : List Text)
      → (check_each g dg who name ts).0.audit ≡ dg.audit
  unfolding check_each
  check_each-audit dg who name [] = refl
  check_each-audit dg who name (t ∷ ts) =
      ground (arith, check_each-audit (check g dg who name (some t)).0 who name ts)

  check_targets-audit :
      (dg : DuplexGate A) (who : Option A) (name : Text) (ts : List Text)
      → (check_targets g dg who name ts).0.audit ≡ dg.audit
  unfolding check
  check_targets-audit dg who name [] = refl
  check_targets-audit dg who name (t ∷ ts) = check_each-audit dg who name (t ∷ ts)

  ask_again-audit : (c : DuplexCall A) → (ask_again g c).0.audit ≡ c.dg.audit
  ask_again-audit c = ground (arith, check_targets-audit c.dg c.caller c.grant c.targets)

  reverify-audit : (c : DuplexCall A) → (reverify g c).0.dg.audit ≡ audit_after c (reverify g c).1
  unfolding reverify
  reverify-audit c = ground (arith, ask_again-audit c)

module _ {A I : Type 0} (c : DuplexCall A) (f : InputFrame I) where
  take_in-audit : (take_in c f).0.dg.audit ≡ audit_after c (take_in c f).1
  unfolding take_in
  take_in-audit = ground arith

-- A state that an operation of call `c` left, with all that an audit record names as it was.
record Follows {A : Type 0} (c : DuplexCall A) (m : DuplexCall A × Result DuplexRefusal (Unit {0}))
    : Type 0 where
  audit : m.0.dg.audit ≡ audit_after c m.1
  at : m.0.at ≡ c.at
  caller : m.0.caller ≡ c.caller
  grant : m.0.grant ≡ c.grant

module _ {A Reach I : Type 0} (g : Gate A Reach) (c : DuplexCall A) (f : InputFrame I) where
  reverify-Follows : Follows c (reverify g c)
  unfolding reverify
  reverify-Follows = ground (arith, ask_again-audit g c)

  admit_verified-audit :
      (m : DuplexCall A × Result DuplexRefusal (Unit {0}))
      → Follows c m
      → (admit_verified g f m).0.dg.audit ≡ audit_after c (admit_verified g f m).1
  admit_verified-audit (c₁, ok _) w = ground (arith, take_in-audit c₁ f)
  admit_verified-audit (c₁, err e) w = w.audit

  -- Where a call audits, a refused frame is one more record in the queue, of this call, its caller,
  -- its grant and the refusal's code; an admitted frame is none. Checking again adds nothing.
  pub admit-audit : (admit g c f).0.dg.audit ≡ audit_after c (admit g c f).1
  unfolding admit
  admit-audit =
      ground (arith, take_in-audit c f, admit_verified-audit (reverify g c) reverify-Follows)
