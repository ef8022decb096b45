-- ===== src/GrantGate/Laws.antt =====
-- What the grant gate admits (src/plexus/grant_gate.rs).
use mathlib.Core.Path.{subst}
use plexus_core.Base.{
  ◌⊎◌, inl, inr, Bool-cases, ◌==◌, text_eq, eq_of_beq, Text, true, false, Option, none, some, List,
  [], ◌∷◌, ◌≡◌, refl, sym, ◌∙◌, ◌≢◌, ◌↔◌, arith, All,
}
use plexus_core.Errors.{PlexusError, Result, ok, err, ◌>>=◌, ◌>>◌, >>=-eq-ok, map_err-eq-ok}
use plexus_core.Auth.{AuthOps, Gate}
use plexus_core.Json.{Value}
use plexus_core.GrantGate.Targets.{ActsOn, IsIn, Covers, targets_in-Covers}
use plexus_core.GrantGate.{
  MethodGateInfo, Admit, reach, open_, from_refusal, params_shape, is_introspection, grant_of,
  is_public, target_param, contains, standing, gate_check, check_targets, check_all, targets_in,
  signed_in, decide, say_ended,
}

module _ {A Reach : Type 0} (gate : Gate A Reach) where
  -- The gate's check passes.
  abbrev pub Passes : Option A → Text → Option Text → Type 0
  Passes auth grant target = (r : Reach) × (gate.check auth grant target ≡ ok r)

  -- It passes on every target named, or on none in particular where none is.
  abbrev pub PassesAll : Option A → Text → Option (List Text) → Type 0
  PassesAll auth grant none = Passes auth grant none
  PassesAll auth grant (some []) = Passes auth grant none
  PassesAll auth grant (some (v ∷ vs)) = All (λ t. Passes auth grant (some t)) (v ∷ vs)

  pub gate_check-Passes :
      (auth : Option A) (grant : Text) (target : Option Text) (r : Reach)
      → gate_check gate auth grant target ≡ ok r
      → Passes auth grant target
  gate_check-Passes auth grant target r h =
      (r, map_err-eq-ok from_refusal (gate.check auth grant target) h)

  check_targets-All :
      (auth : Option A) (grant v : Text) (vs : List Text) (r : Reach)
      → check_targets gate auth grant v vs ≡ ok r
      → All (λ t. Passes auth grant (some t)) (v ∷ vs)
  check_targets-All auth grant v [] r h = (gate_check-Passes auth grant (some v) r h, tt)
  check_targets-All auth grant v (w ∷ ws) r h =
      let (a, here, rest) =
        >>=-eq-ok (gate_check gate auth grant (some v)) (λ _. check_targets gate auth grant w ws)
          h in
      (gate_check-Passes auth grant (some v) a here, check_targets-All auth grant w ws r rest)

  check_all-PassesAll :
      (auth : Option A) (grant : Text) (ts : Option (List Text)) (r : Reach)
      → check_all gate auth grant ts ≡ ok r
      → PassesAll auth grant ts
  check_all-PassesAll auth grant none r h = gate_check-Passes auth grant none r h
  check_all-PassesAll auth grant (some []) r h = gate_check-Passes auth grant none r h
  check_all-PassesAll auth grant (some (v ∷ vs)) r h = check_targets-All auth grant v vs r h

-- Its schema, where there is one, does not make it public.
abbrev pub IsGated : Option MethodGateInfo → Type 0
IsGated none = Unit
IsGated (some i) = i.public ≡ false

-- The grant that the schema declares, or else the path.
abbrev pub IsGrant : Option MethodGateInfo → (path grant : Text) → Type 0
IsGrant none path grant = path ≡ grant
IsGrant (some i) path grant = (i.grant ≡ some grant) ⊎ ((i.grant ≡ none) × (path ≡ grant))

is_public-IsGated : (info : Option MethodGateInfo) → IsGated info → is_public info ≡ false
is_public-IsGated none h = refl
is_public-IsGated (some i) h = h

grant_of_lem :
    (info : Option MethodGateInfo) (path grant : Text)
    → IsGrant info path grant
    → grant_of info path ≡ grant
grant_of_lem none path grant h = h
grant_of_lem (some i) path grant (inl declared) = rw (declared, grant_of) refl
grant_of_lem (some i) path grant (inr (undeclared, same)) = rw (undeclared, grant_of) same

contains-All : (t : Text) (ts : List Text) → All (λ u. u ≢ t) ts → contains t ts ≡ false
contains-All t [] h = refl
contains-All t (u ∷ us) (ne, h) = elim (Bool-cases (u == t)) [
  | inl same ↦ absurd (ne (eq_of_beq u t same))
  | inr other ↦ rw other (contains-All t us h)
]

module _ {A Reach : Type 0} (gate : Gate A Reach) (auth : Option A) (grant : Text) where
  All-IsIn :
      (t : Text) (ts : List Text)
      → All (λ u. Passes gate auth grant (some u)) ts
      → IsIn t ts
      → Passes gate auth grant (some t)
  All-IsIn t [] h k = absurd k
  All-IsIn t (u ∷ us) (p, h) (inl here) =
      subst (λ (v : Text). Passes gate auth grant (some v)) here p
  All-IsIn t (u ∷ us) (p, h) (inr there) = All-IsIn t us h there

  PassesAll-Covers :
      (ts : Option (List Text)) (target : Option Text)
      → Covers ts target
      → PassesAll gate auth grant ts
      → Passes gate auth grant target
  PassesAll-Covers none none covers h = h
  PassesAll-Covers none (some t) covers h = absurd covers
  PassesAll-Covers (some []) none covers h = h
  PassesAll-Covers (some []) (some t) covers h = absurd covers
  PassesAll-Covers (some (u ∷ us)) none covers h = absurd covers
  PassesAll-Covers (some (u ∷ us)) (some t) covers h = All-IsIn t (u ∷ us) h covers

module _ {Reach : Type 0} where
  reach-ne-open : (m : Result PlexusError Reach) → (m >>= λ r. ok (reach r)) ≢ ok open_
  reach-ne-open (ok r) = cc
  reach-ne-open (err e) = cc

  bind-ne-open :
      {T : Type 0} (m : Result PlexusError T) (f : T → Result PlexusError Reach)
      → (m >>= λ t. f t >>= λ r. ok (reach r)) ≢ ok open_
  bind-ne-open (ok t) f = reach-ne-open (f t)
  bind-ne-open (err e) f = cc

module _ {A Reach : Type 0} (ops : AuthOps A) (gate : Gate A Reach) where
  signed_in-ne-open : (auth : Option A) (grant : Text) → signed_in ops gate auth grant ≢ ok open_
  signed_in-ne-open auth grant = ground arith

  decide_gated :
      (service_ns full_path : Text) (info : Option MethodGateInfo) (params : Value)
      (auth : Option A) (signed_in_grants : List Text)
      → is_introspection service_ns full_path ≡ false
      → is_public info ≡ false
      → contains (grant_of info full_path) signed_in_grants ≡ false
      → decide ops gate service_ns full_path info params auth signed_in_grants ≡ (
          params_shape params
          >> (targets_in params (target_param info) >>= λ ts.
              check_all gate auth (grant_of info full_path) ts >>= λ r. ok (reach r)))
  unfolding decide
  decide_gated ns path info params auth sig hi hp hs = rw (hi, hp, hs)

  decide-PassesAll :
      (service_ns full_path : Text) (info : Option MethodGateInfo) (params : Value)
      (auth : Option A) (signed_in_grants : List Text) (admitted : Admit Reach)
      → is_introspection service_ns full_path ≡ false
      → is_public info ≡ false
      → contains (grant_of info full_path) signed_in_grants ≡ false
      → decide ops gate service_ns full_path info params auth signed_in_grants ≡ ok admitted
      → (r : Reach) × (ts : Option (List Text)) × (admitted ≡ reach r)
        × (targets_in params (target_param info) ≡ ok ts)
        × PassesAll gate auth (grant_of info full_path) ts
  decide-PassesAll ns path info params auth sig admitted hi hp hs h =
      let (_, _, h₁) =
        >>=-eq-ok (params_shape params) _
          (sym (decide_gated ns path info params auth sig hi hp hs) ∙ h) in
      let (ts, named, h₂) = >>=-eq-ok (targets_in params (target_param info)) _ h₁ in
      let (r, passed, h₃) = >>=-eq-ok (check_all gate auth (grant_of info path) ts) _ h₂ in
      (r, ts, ground arith, named, check_all-PassesAll gate auth (grant_of info path) ts r passed)

  -- A method that is neither introspection nor public, and whose grant is not every signed-in
  -- caller's: where it is admitted, the gate passed the caller, under the grant that the method's schema
  -- declares or else its path, on each target that the params name where the schema says, one or any in
  -- a list (on none in particular, where they name none there or the schema declares none), and the
  -- answer is never an open admission.
  pub decide-Passes :
      (service_ns full_path : Text) (info : Option MethodGateInfo) (params : Value)
      (auth : Option A) (signed_in_grants : List Text) (admitted : Admit Reach) (grant : Text)
      (target : Option Text)
      → is_introspection service_ns full_path ≡ false
      → IsGated info
      → IsGrant info full_path grant
      → All (λ g. g ≢ grant) signed_in_grants
      → ActsOn info params target
      → decide ops gate service_ns full_path info params auth signed_in_grants ≡ ok admitted
      → Passes gate auth grant target × (admitted ≢ open_)
  decide-Passes ns path info params auth sig admitted grant target hi gated named apart acts h =
      let same = grant_of_lem info path grant named in
      let (r, ts, answer, found, passes) =
        decide-PassesAll ns path info params auth sig admitted hi (is_public-IsGated info gated)
          (rw same (contains-All grant sig apart)) h in
      (
        PassesAll-Covers gate auth grant ts target
            (targets_in-Covers info params target ts acts found)
            (subst (λ g. PassesAll gate auth g ts) same passes),
        λ opened. cc (sym answer ∙ opened),
      )

  -- The gate answers openly exactly for introspection with params of an admissible shape.
  pub decide-open_iff :
      (service_ns full_path : Text) (info : Option MethodGateInfo) (params : Value)
      (auth : Option A) (signed_in_grants : List Text)
      → (decide ops gate service_ns full_path info params auth signed_in_grants ≡ ok open_)
        ↔ ((params_shape params ≡ ok tt) × (is_introspection service_ns full_path ≡ true))
  unfolding decide
  decide-open_iff ns path info params auth sig = ground (
    arith,
    signed_in-ne-open auth (grant_of info path),
    bind-ne-open (targets_in params (target_param info))
        (λ ts. check_all gate auth (grant_of info path) ts),
  )

  -- An ended sign-in proves no one: the caller is decided on as an anonymous one, and where it is
  -- refused as unauthenticated, it reads why its sign-in ended.
  pub say_ended-standing :
      (a : A) (reason : Text) (message : Text)
      → gate.alive a ≡ err reason
      → ((standing gate (some a)).0 ≡ none)
        × (say_ended (PlexusError.unauthenticated message) (standing gate (some a)).1
            ≡ PlexusError.unauthenticated reason)
  unfolding standing say_ended
  say_ended-standing a reason message h = rw h (refl, refl)
