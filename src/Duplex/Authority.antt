-- ===== src/Duplex/Authority.antt =====
-- A call acts under its grant as the gate decides now, however the grants move: the generation
-- that it has `seen` is one at which the gate passed it.
use plexus_core.Base.{
  ℕ, Text, Bool, true, false, Option, none, some, List, [], ◌∷◌, ◌≡◌, sym, ◌∙◌, arith, inl, inr,
  All, Bool-cases, ◌==◌, nat_eq, eq_of_beq,
}
use mathlib.Core.Path.{subst, transport}
use plexus_core.Errors.{Result, ok, Result-cases}
use plexus_core.Auth.{Gate}
use plexus_core.GrantGate.{gate_check}
use plexus_core.GrantGate.Laws.{Passes, PassesAll, gate_check-Passes}
use plexus_core.Call.{DuplexGate, DuplexCall, CallRef, CallCeiling, Answerer, InputFrame}
use plexus_core.Duplex.{asked, check, check_each, check_targets, ask_again, reverify, admit}
use plexus_core.Duplex.Open.{open_call, one_target}
use plexus_core.Duplex.Admission.{admit-Takes, admit_verified-ok}

module _ {A Reach : Type 0} (g : Gate A Reach) where
  pub asked-Passes :
      (who : Option A) (name : Text) (target : Option Text)
      → asked (gate_check g who name target) ≡ ok tt
      → Passes g who name target
  asked-Passes who name target h = elim (Result-cases (gate_check g who name target)) [
    | inl (r, passed) ↦ gate_check-Passes g who name target r passed
    | inr (e, refused) ↦ cc (rw refused at h)
  ]

  check_each-All :
      (dg : DuplexGate A) (who : Option A) (name : Text) (ts : List Text)
      → (check_each g dg who name ts).1 ≡ ok tt
      → All (λ t. Passes g who name (some t)) ts
  unfolding check_each
  check_each-All dg who name [] h = tt
  check_each-All dg who name (t ∷ ts) h =
      elim (Result-cases (asked (gate_check g who name (some t)))) [
        | inl (_, passed) ↦ (
          asked-Passes who name (some t) passed,
          check_each-All (check g dg who name (some t)).0 who name ts
              (rw (passed, check_each) at h),
        )
        | inr (e, refused) ↦ cc (rw (refused, check_each) at h)
      ]

  check_targets-PassesAll :
      (dg : DuplexGate A) (who : Option A) (name : Text) (ts : List Text)
      → (check_targets g dg who name ts).1 ≡ ok tt
      → PassesAll g who name (some ts)
  unfolding check
  check_targets-PassesAll dg who name [] h = asked-Passes who name none h
  check_targets-PassesAll dg who name (t ∷ ts) h = check_each-All dg who name (t ∷ ts) h

-- Where a call is to be checked at all, the gate passes its caller on its targets.
abbrev PermitsFor : {A Reach : Type 0} → Gate A Reach → Bool → Option A → Text → List Text → Type 0
PermitsFor g checked who name ts = checked ≡ true → PassesAll g who name (some ts)

abbrev pub Permits : {A Reach : Type 0} → Gate A Reach → DuplexCall A → Type 0
Permits g c = PermitsFor g c.recheck c.caller c.grant c.targets

module _ {A Reach : Type 0} (g : Gate A Reach) (c : DuplexCall A) where
  ask_again-Permits : (ask_again g c).1 ≡ ok tt → Permits g c
  ask_again-Permits h r = check_targets-PassesAll g c.dg c.caller c.grant c.targets (rw r at h)

  reverify-asked : (reverify g c).1 ≡ ok tt → (ask_again g c).1 ≡ ok tt
  unfolding reverify
  reverify-asked h = ground arith

-- What a check answers changes only with a move of the grants, and a move is a new generation.
abbrev pub ChecksAlike : {A Reach : Type 0} → (g₀ g : Gate A Reach) → Type 0
ChecksAlike g₀ g = g.generation ≡ g₀.generation → g.check ≡ g₀.check

abbrev pub PassesCall : {A Reach : Type 0} → Gate A Reach → DuplexCall A → Type 0
PassesCall g c = PassesAll g c.caller c.grant (some c.targets)

PassesAll-check :
    {A Reach : Type 0} (g₀ g : Gate A Reach) (who : Option A) (name : Text) (ts : List Text)
    → g.check ≡ g₀.check
    → PassesAll g₀ who name (some ts)
    → PassesAll g who name (some ts)
PassesAll-check g₀ g who name ts same p =
    subst (λ k. PassesAll (record g₀ { check = k }) who name (some ts)) (sym same) p

module _ {A Reach I : Type 0} (g : Gate A Reach) (c : DuplexCall A) (f : InputFrame I)
    (c' : DuplexCall A) where
  admit-reverify :
      (g.generation == c.seen) ≡ false → admit g c f ≡ (c', ok tt) → (reverify g c).1 ≡ ok tt
  unfolding admit
  admit-reverify stale h = ground (arith, admit_verified-ok g f (reverify g c) c')

module _ {A Reach I : Type 0} (g₀ g : Gate A Reach) (c : DuplexCall A) (f : InputFrame I)
    (c' : DuplexCall A) where
  admit-PassesCall_before :
      g₀.generation ≡ c.seen
      → ChecksAlike g₀ g
      → c.recheck ≡ true
      → PassesCall g₀ c
      → admit g c f ≡ (c', ok tt)
      → PassesCall g c
  admit-PassesCall_before last alike again p h = elim (Bool-cases (g.generation == c.seen)) [
    | inl same ↦
        PassesAll-check g₀ g c.caller c.grant c.targets
          (alike (eq_of_beq g.generation c.seen same ∙ sym last)) p
    | inr stale ↦ ask_again-Permits g c (reverify-asked g c (admit-reverify g c f c' stale h)) again
  ]

  -- For a call whose grant is asked for again when the grants move, and that the gate passed at the
  -- generation last seen, where a check answers otherwise only at another generation: after a frame is
  -- admitted, the gate as it is now passes the call's caller on each of its targets, and the call has
  -- seen this generation and is still one that is asked for again.
  pub admit-Permits :
      g₀.generation ≡ c.seen
      → ChecksAlike g₀ g
      → c.recheck ≡ true
      → PassesCall g₀ c
      → admit g c f ≡ (c', ok tt)
      → PassesCall g c' × (c'.seen ≡ g.generation) × (c'.recheck ≡ true)
  admit-Permits last alike again p h =
      let (takes, _, seen) = admit-Takes g c f c' h in
      let before = admit-PassesCall_before last alike again p h in
      (
        transport
            (λ i. PassesAll g (sym takes.caller i) (sym takes.grant i) (some (sym takes.targets i)))
            before,
        seen,
        takes.recheck ∙ again,
      )

module _ {A Reach : Type 0} (g : Gate A Reach) where
  open_call-eq-ok :
      (dg : DuplexGate A) (at : CallRef) (place : Result ℕ (Unit {0})) (who : Option A)
      (name : Text) (target : Option Text) (ceiling : CallCeiling) (answer_by : Answerer)
      (c : DuplexCall A)
      → (open_call g dg at place who name target ceiling answer_by).1 ≡ ok c
      → (asked (gate_check g who name target) ≡ ok tt)
        × (c.caller ≡ who)
        × (c.grant ≡ name)
        × (c.targets ≡ one_target target)
        × (c.seen ≡ g.generation)
        × (c.closed ≡ none)
        × (c.credit ≡ ceiling.credit)
        × (c.items ≡ 0)
        × (place ≡ ok tt)
  unfolding open_call
  open_call-eq-ok dg at place who name target ceiling answer_by c h = ground arith

  one_target-PassesAll :
      (who : Option A) (name : Text) (target : Option Text)
      → Passes g who name target
      → PassesAll g who name (some (one_target target))
  one_target-PassesAll who name none p = p
  one_target-PassesAll who name (some t) p = (p, tt)

  -- A call that opens has been passed by the gate, has seen its generation, is open with its
  -- ceiling's credit, and has taken nothing.
  pub open_call-Permits :
      (dg : DuplexGate A) (at : CallRef) (place : Result ℕ (Unit {0})) (who : Option A)
      (name : Text) (target : Option Text) (ceiling : CallCeiling) (answer_by : Answerer)
      (c : DuplexCall A)
      → (open_call g dg at place who name target ceiling answer_by).1 ≡ ok c
      → Permits g c
        × (c.seen ≡ g.generation)
        × (c.closed ≡ none)
        × (c.credit ≡ ceiling.credit)
        × (c.items ≡ 0)
        × (place ≡ ok tt)
  open_call-Permits dg at place who name target ceiling answer_by c h =
      let (passed, same_who, same_name, same_targets, seen, open_, credit, items, placed) =
        open_call-eq-ok dg at place who name target ceiling answer_by c h in
      let permitted =
        one_target-PassesAll who name target (asked-Passes g who name target passed) in
      (
        λ _.
            transport
              (λ i. PassesAll g (sym same_who i) (sym same_name i) (some (sym same_targets i)))
              permitted,
        seen,
        open_,
        credit,
        items,
        placed,
      )
