-- ===== src/GrantGate/Targets.antt =====
-- What a call's target param names.
use mathlib.Core.Path.{subst}
use plexus_core.Base.{
  Text, codes, Option, none, some, List, [], ◌∷◌, map, true, false, ◌≡◌, ◌⊎◌, refl, sym, ◌∙◌, ap,
  arith, Option-cases, inl, inr,
}
use plexus_core.Errors.{PlexusError, Result, ok, >>=-eq-ok}
use plexus_core.Json.{Value, Items, items, get}
use plexus_core.GrantGate.{
  MethodGateInfo, target_value, each_target, one_target, targets_of, target_values, targets_in,
  target_param,
}

each_target-ok :
    (param : Text) (vs : Items) (ts : List Text)
    → each_target param vs ≡ ok ts
    → map target_value (items vs) ≡ map some ts
each_target-ok param Items.nil ts h = let same : ts ≡ [] = ground arith in rw same refl
each_target-ok param (Items.cons v vs) ts h = elim (Option-cases (target_value v)) [
  | inl e ↦ cc (rw (e, each_target) at h)
  | inr (t, e) ↦
      let (us, rest, all) =
        >>=-eq-ok (each_target param vs) (λ us. ok (t ∷ us)) (rw (e, each_target) at h) in
      let same : ts ≡ t ∷ us = ground arith in
      rw (same, e) (ap (λ l. some t ∷ l) (each_target-ok param vs us rest))
]

-- Where a target param holds a list and it is accepted, every element of the list is read, in order,
-- and none is skipped: an element that is no scalar refuses the call.
pub target_values-array :
    (params : Value) (param : Text) (vs : Items) (found : Option (List Text))
    → get param params ≡ some (Value.array vs)
    → target_values params param ≡ ok found
    → (ts : List Text) × (found ≡ some ts) × (map target_value (items vs) ≡ map some ts)
unfolding target_values
target_values-array params param vs found at h =
    let (ts, rest, all) =
      >>=-eq-ok (each_target param vs) (λ us. ok (some us)) (rw (at, targets_of) at h) in
    (ts, ground arith, each_target-ok param vs ts rest)

-- A value tells of a target as a string, a number or a Boolean, or as a list with one of these in it.
abbrev pub Says : Value → Text → Type 0
Says (Value.string s) t = s ≡ t
Says (Value.number n) t = n ≡ t
Says (Value.bool true) t = codes "true" ≡ t
Says (Value.bool false) t = codes "false" ≡ t
Says _ t = ⊥

abbrev pub SomeSays : Items → Text → Type 0
SomeSays Items.nil t = ⊥
SomeSays (Items.cons v vs) t = Says v t ⊎ SomeSays vs t

abbrev pub Names : Value → Text → Type 0
Names (Value.array vs) t = SomeSays vs t
Names v t = Says v t

abbrev pub IsSilent : Option Value → Type 0
IsSilent none = Unit
IsSilent (some Value.null) = Unit
IsSilent (some (Value.array Items.nil)) = Unit
IsSilent (some _) = ⊥

abbrev pub Declares : Option MethodGateInfo → Option Text → Type 0
Declares none param = param ≡ none
Declares (some i) param = i.target ≡ param

-- What a call acts on: a target that its params name under the parameter that its method's schema
-- declares; or none in particular, where they name none there, or none is declared.
abbrev pub ActsOn : Option MethodGateInfo → Value → Option Text → Type 0
ActsOn info params (some t) =
    (param : Text) × (v : Value) × Declares info (some param)
    × (get param params ≡ some v)
    × Names v t
ActsOn info params none =
    Declares info none ⊎ ((param : Text) × Declares info (some param) × IsSilent (get param params))

abbrev pub IsIn : Text → List Text → Type 0
IsIn t [] = ⊥
IsIn t (u ∷ us) = (u ≡ t) ⊎ IsIn t us

-- What is checked covers what is acted on.
abbrev pub Covers : Option (List Text) → Option Text → Type 0
Covers none none = Unit
Covers (some []) none = Unit
Covers (some us) (some t) = IsIn t us
Covers _ _ = ⊥

Covers-IsIn : (us : List Text) (t : Text) → IsIn t us → Covers (some us) (some t)
Covers-IsIn [] t h = absurd h
Covers-IsIn (u ∷ us) t h = h

Covers-none :
    (found ts : Option (List Text))
    → Covers found none
    → ◌≡◌ {A = Result PlexusError (Option (List Text))} (ok found) (ok ts)
    → Covers ts none
Covers-none found ts covers h =
    let same : found ≡ ts = ground (arith, h) in
    subst (λ (o : Option (List Text)). Covers o none) same covers

some_inj : {t u : Text} → ◌≡◌ {A = Option Text} (some t) (some u) → t ≡ u
some_inj h = cc h

Says-target_value : (v : Value) (t : Text) → Says v t → target_value v ≡ some t
Says-target_value (Value.string s) t h = ap (λ (x : Text). some x) h
Says-target_value (Value.number n) t h = ap (λ (x : Text). some x) h
Says-target_value (Value.bool true) t h = ap (λ (x : Text). some x) h
Says-target_value (Value.bool false) t h = ap (λ (x : Text). some x) h
Says-target_value Value.null t h = absurd h
Says-target_value (Value.array vs) t h = absurd h
Says-target_value (Value.object ms) t h = absurd h

each_target-IsIn :
    (param : Text) (vs : Items) (ts : List Text) (t : Text)
    → each_target param vs ≡ ok ts
    → SomeSays vs t
    → IsIn t ts
each_target-IsIn param Items.nil ts t h k = absurd k
each_target-IsIn param (Items.cons v vs) ts t h k = elim (Option-cases (target_value v)) [
  | inl e ↦ cc (rw (e, each_target) at h)
  | inr (u, e) ↦
      let (us, rest, all) =
        >>=-eq-ok (each_target param vs) (λ us. ok (u ∷ us)) (rw (e, each_target) at h) in
      let same : u ∷ us ≡ ts = ground (arith, all) in
      subst (IsIn t) same (elim k [
        | inl here ↦ inl (some_inj (sym e ∙ Says-target_value v t here))
        | inr there ↦ inr (each_target-IsIn param vs us t rest there)
      ])
]

one_target-Covers :
    (param : Text) (v : Value) (t : Text) (ts : Option (List Text))
    → Says v t
    → one_target param v ≡ ok ts
    → Covers ts (some t)
one_target-Covers param v t ts says h =
    let named = Says-target_value v t says in
    let all = rw (named, one_target) at h in
    let same : some (t ∷ []) ≡ ts = ground (arith, all) in
    subst (λ (o : Option (List Text)). Covers o (some t)) same (inl refl)

targets_of-Covers :
    (param : Text) (v : Value) (t : Text) (ts : Option (List Text))
    → Names v t
    → targets_of param (some v) ≡ ok ts
    → Covers ts (some t)
targets_of-Covers param (Value.array vs) t ts names h =
    let (us, rest, all) = >>=-eq-ok (each_target param vs) (λ us. ok (some us)) h in
    let same : some us ≡ ts = ground (arith, all) in
    subst (λ (o : Option (List Text)). Covers o (some t)) same
      (Covers-IsIn us t (each_target-IsIn param vs us t rest names))
targets_of-Covers param (Value.string s) t ts says h =
    one_target-Covers param (Value.string s) t ts says h
targets_of-Covers param (Value.number n) t ts says h =
    one_target-Covers param (Value.number n) t ts says h
targets_of-Covers param (Value.bool b) t ts says h =
    one_target-Covers param (Value.bool b) t ts says h
targets_of-Covers param Value.null t ts says h = absurd says
targets_of-Covers param (Value.object ms) t ts says h = absurd says

targets_of-silent :
    (param : Text) (o : Option Value) (ts : Option (List Text))
    → IsSilent o
    → targets_of param o ≡ ok ts
    → Covers ts none
targets_of-silent param none ts silent h = Covers-none none ts tt h
targets_of-silent param (some Value.null) ts silent h = Covers-none none ts tt h
targets_of-silent param (some (Value.array Items.nil)) ts silent h = Covers-none (some []) ts tt h
targets_of-silent param (some (Value.array (Items.cons v vs))) ts silent h = absurd silent
targets_of-silent param (some (Value.string s)) ts silent h = absurd silent
targets_of-silent param (some (Value.number n)) ts silent h = absurd silent
targets_of-silent param (some (Value.bool b)) ts silent h = absurd silent
targets_of-silent param (some (Value.object ms)) ts silent h = absurd silent

targets_declared :
    (info : Option MethodGateInfo) (param : Option Text)
    → Declares info param
    → target_param info ≡ param
targets_declared none param h = sym h
targets_declared (some i) param h = h

pub targets_in-Covers :
    (info : Option MethodGateInfo) (params : Value) (target : Option Text) (ts : Option (List Text))
    → ActsOn info params target
    → targets_in params (target_param info) ≡ ok ts
    → Covers ts target
unfolding target_values
targets_in-Covers info params (some t) ts (param, v, declared, at, names) h =
    targets_of-Covers param v t ts names
      (rw (targets_declared info (some param) declared, targets_in, at) at h)
targets_in-Covers info params none ts (inl undeclared) h =
    Covers-none none ts tt (rw (targets_declared info none undeclared, targets_in) at h)
targets_in-Covers info params none ts (inr (param, declared, silent)) h =
    targets_of-silent param (get param params) ts silent
      (rw (targets_declared info (some param) declared, targets_in) at h)
