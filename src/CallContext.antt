-- ===== src/CallContext.antt =====
-- The context of a call (src/call.rs): who calls, how far the call reaches, the hop it came through,
-- and what its verifier answered. A context narrowed from another shares its verified slot, so the
-- slots are a store that a context points into.
pub mod Laws
pub mod Chain
mod Tests
use plexus_core.Base.{
  ℕ, suc, Text, codes, Bool, true, false, not, Option, none, some, List, [], ◌∷◌, ◌++◌,
  if◌then◌else◌, ◌&&◌, ◌||◌, any, nat_eq, map,
}
use plexus_core.Base.Assoc.{Assoc, lookup, insert}
use plexus_core.Errors.{Result, ok, err}
use plexus_core.Auth.{Gate}

pub record HopLimit : Type 0 where
  pub grant : Text
  pub held_on : List Text

pub record Hop : Type 0 where
  pub principal : Text
  pub for_whom : List Text
  pub limit : Option HopLimit
  pub call : Text

pub data CallError : Type 0 where
  outside_call through_a_hop no_hop not_verified already_verified : CallError

-- plexus-auth-core: whether a caller is signed in, principals and scopes as they are parsed, the
-- context of a hop's caller, and the reach that a gate of the hop alone answers.
pub record Identities (A P Scope Reach : Type 0) : Type 0 where
  pub is_authenticated : A → Bool
  pub parse : Text → Option P
  pub for_hop : P → (call principal : Text) → A
  pub parse_scope : Text → Scope
  pub is_everywhere : Scope → Bool
  pub same_scope : Scope → Scope → Bool
  pub nowhere : Reach
  pub ceiling_reach : Option A → (grant : Text) → List Scope → Reach

pub record CallContext (A Reach : Type 0) : Type 0 where
  pub auth : Option A
  pub reach : Option Reach
  pub deferred : Option (Gate A Reach × Text)
  pub hop : Option Hop
  pub slot : ℕ

-- The verified values, each in its slot, and the next slot.
pub record Slots (V : Type 0) : Type 0 where
  pub next : ℕ
  pub held : Assoc ℕ V

abbrev pub last : List Text → Option Text
last [] = none
last (s ∷ []) = some s
last (s ∷ t ∷ ss) = last (t ∷ ss)

-- Hop::caller, for the far end of `for`.
unfoldable pub hop_caller : Hop → Option Text
hop_caller h = last h.for_whom

module _ {A P Scope Reach : Type 0} (ids : Identities A P Scope Reach) where
  unfoldable pub held_on : Hop → List Scope
  held_on h = elim h.limit [ none ↦ [] | some l ↦ map ids.parse_scope l.held_on ]

  -- The caller that the hop names, where that is a principal.
  unfoldable pub hop_principal : Hop → Option P
  unfolding hop_caller
  hop_principal h = elim (hop_caller h) [ none ↦ none | some p ↦ ids.parse p ]

  -- Whether the hop names someone who cannot be read.
  unfoldable pub is_unreadable : Hop → Bool
  unfolding hop_caller
  is_unreadable h = elim (hop_caller h) [
    | none ↦ false
    | some p ↦ elim (ids.parse p) [ none ↦ true | some q ↦ false ]
  ]

  unfoldable pub allows : Hop → List Scope → Bool
  unfolding hop_principal held_on
  allows h chain =
      let within =
        any (λ s. ids.is_everywhere s || any (λ c. ids.same_scope c s) chain) (held_on h) in
      elim (hop_principal h) [ none ↦ false | some p ↦ within ]

module _ {A Reach : Type 0} where
  unfoldable pub with_reach : Reach → CallContext A Reach → CallContext A Reach
  with_reach reach c = record c { reach = some reach; deferred = none }

  -- What the gate answers, asked once: the context with its reach kept, and the reach.
  unfoldable pub reach_of : CallContext A Reach → CallContext A Reach × Option Reach
  reach_of c = elim c.reach [
    | some r ↦ (c, some r)
    | none ↦ elim c.deferred [
      | none ↦ (c, none)
      | some (gate, grant) ↦
          let r = gate.reach_of_public c.auth grant in (record c { reach = some r }, some r)
    ]
  ]

  unfoldable pub caller : CallContext A Reach → Result CallError (CallContext A Reach)
  unfolding reach_of
  caller c = elim (reach_of c).1 [ none ↦ err through_a_hop | some r ↦ ok (reach_of c).0 ]

module _ {A Reach V : Type 0} where
  -- `Inner::with`: a slot of its own.
  unfoldable pub with_new_slot :
      Option A
      → Option Reach
      → Option (Gate A Reach × Text)
      → Option Hop
      → Slots V
      → CallContext A Reach × Slots V
  with_new_slot auth reach deferred hop s = (
    record { auth = auth; reach = reach; deferred = deferred; hop = hop; slot = s.next },
    record s { next = suc s.next },
  )

  unfoldable pub admitted : Option A → Reach → Slots V → CallContext A Reach × Slots V
  unfolding with_new_slot
  admitted auth reach s = with_new_slot auth (some reach) none none s

  unfoldable pub introspection :
      Option A → Gate A Reach → (grant : Text) → Slots V → CallContext A Reach × Slots V
  unfolding with_new_slot
  introspection auth gate grant s = with_new_slot auth none (some (gate, grant)) none s

  unfoldable pub with_auth :
      Option A → CallContext A Reach → Slots V → CallContext A Reach × Slots V
  unfolding with_new_slot
  with_auth auth c s = with_new_slot auth c.reach c.deferred c.hop s

  -- The context that `ungated` calls an activation in, and `everywhere` the reach outside of a call.
  unfoldable pub ungated_context :
      (everywhere : Reach)
      → Option (CallContext A Reach)
      → Option A
      → Slots V
      → CallContext A Reach × Slots V
  unfolding admitted with_auth
  ungated_context everywhere none auth s = admitted auth everywhere s
  ungated_context everywhere (some outer) auth s = with_auth auth outer s

  unfoldable pub verified : CallContext A Reach → Slots V → Result CallError V
  unfolding lookup
  verified c s = elim (lookup c.slot s.held) [ none ↦ err not_verified | some v ↦ ok v ]

  unfoldable pub keep_verified : V → CallContext A Reach → Slots V → Result CallError (Slots V)
  unfolding lookup insert
  keep_verified v c s = elim (lookup c.slot s.held) [
    | some held ↦ err already_verified
    | none ↦ ok (record s { held = insert c.slot v s.held })
  ]

abbrev pub or_nowhere : {Reach : Type 0} → Reach → Option Reach → Reach
or_nowhere nowhere none = nowhere
or_nowhere nowhere (some r) = r

module _ {A P Scope Reach : Type 0} (ids : Identities A P Scope Reach) where
  abbrev pub signed_in : Option A → Option A
  signed_in none = none
  signed_in (some a) = if ids.is_authenticated a then some a else none

module _ {A P Scope Reach V : Type 0} (ids : Identities A P Scope Reach) where
  -- The call of a child in this process, under its forward policy.
  unfoldable pub for_child :
      (callee : Option A) (keeps_identity : Bool)
      → CallContext A Reach
      → Slots V
      → CallContext A Reach × Slots V
  unfolding with_new_slot reach_of
  for_child callee keeps_identity c s =
      let auth = signed_in ids callee in
      let kept = or_nowhere ids.nowhere (reach_of c).1 in
      if keeps_identity
      then with_new_slot auth (some kept) none c.hop s
      else with_new_slot auth (some ids.nowhere) none none s

  unfoldable pub through_hop : Hop → Slots V → CallContext A Reach × Slots V
  unfolding with_new_slot is_unreadable hop_principal held_on
  through_hop h s =
      let auth : Option A = elim (hop_principal ids h) [
        | none ↦ none
        | some p ↦ some (ids.for_hop p h.call h.principal)
      ] in
      let ceiling : Reach = elim h.limit [
        | none ↦ ids.nowhere
        | some l ↦ ids.ceiling_reach auth l.grant (held_on ids h)
      ] in
      with_new_slot auth (some (if is_unreadable ids h then ids.nowhere else ceiling)) none (some h)
        s
