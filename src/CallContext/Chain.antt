-- ===== src/CallContext/Chain.antt =====
-- Calls of children one below the other (`for_child` of src/call.rs), with what the verifiers of the
-- calls between answer.
use plexus_core.Base.{
  ℕ, suc, ◌<◌, Bool, true, false, ◌&&◌, Option, none, some, List, [], ◌∷◌, ◌≡◌, ◌⊎◌, refl, ◌∙◌,
  arith, if◌then◌else◌, if_cases, ◌==◌, nat_eq, All, Bool-cases, Option-cases, inl, inr,
}
use plexus_core.Base.Assoc.{lookup, insert, remove}
use plexus_core.Errors.{ok, err}
use plexus_core.CallContext.{
  not_verified, Identities, CallContext, Slots, with_new_slot, reach_of, verified, keep_verified,
  or_nowhere, signed_in, for_child,
}

-- A child is called, as the callee that its policy derived, or the verifier of the call answers.
pub data Move (A V : Type 0) : Type 0 where
  calls : (callee : Option A) (keeps_identity : Bool) → Move A V
  answers : V → Move A V

abbrev pub all_keep : {A V : Type 0} → List (Move A V) → Bool
all_keep [] = true
all_keep (calls callee keeps ∷ ms) = keeps && all_keep ms
all_keep (answers v ∷ ms) = all_keep ms

-- Every slot that was given out is behind the next one.
abbrev pub IsAllocated : {V : Type 0} → Slots V → Type 0
IsAllocated s = All (λ e. e.0 < s.next) s.held

module _ {V : Type 0} where
  lookup-fresh : (n : ℕ) (held : List (ℕ × V)) → All (λ e. e.0 < n) held → lookup n held ≡ none
  unfolding lookup
  lookup-fresh n [] h = refl
  lookup-fresh n ((j, v) ∷ held) (less, h) = ground (arith, less, lookup-fresh n held h)

  All-remove :
      (n k : ℕ) (held : List (ℕ × V)) → All (λ e. e.0 < n) held → All (λ e. e.0 < n) (remove k held)
  unfolding remove
  All-remove n k [] h = tt
  All-remove n k ((j, v) ∷ held) (less, h) =
      if_cases (All (λ e. e.0 < n)) (j == k) (λ _. All-remove n k held h)
        (λ _. (less, All-remove n k held h))

  All-suc : (n : ℕ) (held : List (ℕ × V)) → All (λ e. e.0 < n) held → All (λ e. e.0 < suc n) held
  All-suc n [] h = tt
  All-suc n (e ∷ held) (less, h) = (omega (arith, less), All-suc n held h)

if_within :
    {T : Type 0} {x : T} (a b : Bool) (y z : T)
    → x ≡ (if a then y else z)
    → (if b then x else z) ≡ (if a && b then y else z)
if_within true true y z e = e
if_within true false y z e = refl
if_within false true y z e = e
if_within false false y z e = refl

module _ {A P Scope Reach : Type 0} (ids : Identities A P Scope Reach) where
  -- How far a call reaches.
  abbrev pub reach_in : CallContext A Reach → Reach
  reach_in c = or_nowhere ids.nowhere (reach_of c).1

  -- Whom a call runs as: the callee, where that is signed in, or no one.
  abbrev pub RunsAs : (callee auth : Option A) → Type 0
  RunsAs none auth = auth ≡ none
  RunsAs (some a) auth =
      ((ids.is_authenticated a ≡ true) × (auth ≡ some a))
      ⊎ ((ids.is_authenticated a ≡ false) × (auth ≡ none))

  signed_in-RunsAs : (callee : Option A) → RunsAs callee (signed_in ids callee)
  signed_in-RunsAs none = refl
  signed_in-RunsAs (some a) = elim (Bool-cases (ids.is_authenticated a)) [
    | inl here ↦ inl (here, rw here refl)
    | inr there ↦ inr (there, rw there refl)
  ]

module _ {A P Scope Reach V : Type 0} (ids : Identities A P Scope Reach) where
  abbrev kept_or_not : CallContext A Reach → Slots V → V → Slots V
  kept_or_not c s v = elim (keep_verified v c s) [ ok s' ↦ s' | err e ↦ s ]

  unfoldable pub run :
      List (Move A V) → CallContext A Reach → Slots V → CallContext A Reach × Slots V
  unfolding for_child keep_verified
  run [] c s = (c, s)
  run (calls callee keeps ∷ ms) c s =
      run ms (for_child ids callee keeps c s).0 (for_child ids callee keeps c s).1
  run (answers v ∷ ms) c s = run ms c (kept_or_not c s v)

  abbrev IsWithin : Bool → CallContext A Reach → CallContext A Reach × Slots V → Type 0
  IsWithin keeps c (d, t) =
      (reach_in ids d ≡ (if keeps then reach_in ids c else ids.nowhere))
      × (d.hop ≡ (if keeps then c.hop else none))
      × IsAllocated t
      × (d.slot < t.next)

  for_child-IsWithin :
      (callee : Option A) (keeps : Bool) (c : CallContext A Reach) (s : Slots V)
      → IsAllocated s
      → IsWithin keeps c (for_child ids callee keeps c s)
  unfolding for_child with_new_slot reach_of
  for_child-IsWithin callee true c s h = (refl, refl, All-suc s.next s.held h, omega arith)
  for_child-IsWithin callee false c s h = (refl, refl, All-suc s.next s.held h, omega arith)

  kept_or_not-IsAllocated :
      (c : CallContext A Reach) (s : Slots V) (v : V)
      → IsAllocated s
      → c.slot < s.next
      → IsAllocated (kept_or_not c s v) × (c.slot < (kept_or_not c s v).next)
  unfolding keep_verified insert
  kept_or_not-IsAllocated c s v h k = elim (Option-cases (lookup c.slot s.held)) [
    | inl free ↦ rw (kept_or_not, keep_verified, free) ((k, All-remove s.next c.slot s.held h), k)
    | inr (w, held) ↦ rw (kept_or_not, keep_verified, held) (h, k)
  ]

  run-IsWithin :
      (ms : List (Move A V)) (c : CallContext A Reach) (s : Slots V)
      → IsAllocated s
      → c.slot < s.next
      → IsWithin (all_keep ms) c (run ms c s)
  unfolding run
  run-IsWithin [] c s h k = (refl, refl, h, k)
  run-IsWithin (answers v ∷ ms) c s h k =
      let (h', k') = kept_or_not-IsAllocated c s v h k in
      run-IsWithin ms c (kept_or_not c s v) h' k'
  run-IsWithin (calls callee keeps ∷ ms) c s h k =
      let (d, t) = for_child ids callee keeps c s in
      let (reach, hop, h', k') = for_child-IsWithin callee keeps c s h in
      let (reach', hop', h'', k'') = run-IsWithin ms d t h' k' in
      (
        reach' ∙ if_within keeps (all_keep ms) (reach_in ids c) ids.nowhere reach,
        hop' ∙ if_within keeps (all_keep ms) c.hop none hop,
        h'',
        k'',
      )

  for_child-auth :
      (callee : Option A) (keeps : Bool) (c : CallContext A Reach) (s : Slots V)
      → IsAllocated s
      → RunsAs ids callee (for_child ids callee keeps c s).0.auth
        × (verified (for_child ids callee keeps c s).0 (for_child ids callee keeps c s).1
            ≡ err not_verified)
  unfolding for_child with_new_slot verified
  for_child-auth callee true c s h =
      (signed_in-RunsAs ids callee, rw (lookup-fresh s.next s.held h, verified) refl)
  for_child-auth callee false c s h =
      (signed_in-RunsAs ids callee, rw (lookup-fresh s.next s.held h, verified) refl)

  -- However many calls lie between a call and the child of the last, whatever contexts their policies
  -- derived and whatever their verifiers answered: the child runs as the callee that its own policy
  -- derived, where that is signed in, or as no one. Where every policy on the way keeps the identity it
  -- reaches as far as the first call, with its hop, and if one does not, nowhere, with none. Nothing that
  -- any verifier answered before is read in it. The first call's slot and those answered in are ones
  -- given out.
  pub for_child-within :
      (ms : List (Move A V)) (callee : Option A) (keeps : Bool) (c : CallContext A Reach)
      (s : Slots V)
      → IsAllocated s
      → c.slot < s.next
      → let (d, t) = run ms c s in
        let (child, t') = for_child ids callee keeps d t in
        RunsAs ids callee child.auth
        × (reach_in ids child ≡ (if all_keep ms && keeps then reach_in ids c else ids.nowhere))
        × (child.hop ≡ (if all_keep ms && keeps then c.hop else none))
        × (verified child t' ≡ err not_verified)
  for_child-within ms callee keeps c s h k =
      let (d, t) = run ms c s in
      let (reach, hop, h', k') = run-IsWithin ms c s h k in
      let (reach', hop', _, _) = for_child-IsWithin callee keeps d t h' in
      let (as_callee, unread) = for_child-auth callee keeps d t h' in
      (
        as_callee,
        reach' ∙ if_within (all_keep ms) keeps (reach_in ids c) ids.nowhere reach,
        hop' ∙ if_within (all_keep ms) keeps c.hop none hop,
        unread,
      )
