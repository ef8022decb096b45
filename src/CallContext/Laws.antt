-- ===== src/CallContext/Laws.antt =====
-- What a call's context promises: a verified value is set once, and a hop that says nothing readable reaches nowhere.
use plexus_core.Base.{
  true, false, none, some, List, ◌≡◌, ◌⊎◌, refl, sym, ap, ◌∙◌, arith, if_cases, if_true, ◌==◌,
  nat_eq, Option-cases, inl, inr, beq_self,
}
use plexus_core.Base.Assoc.{lookup, insert, lookup-insert}
use plexus_core.Errors.{ok, err}
use plexus_core.CallContext.{
  Hop, already_verified, Identities, CallContext, Slots, hop_caller, held_on, hop_principal,
  is_unreadable, allows, with_new_slot, verified, keep_verified, through_hop,
}

module _ {A Reach V : Type 0} where
  keep_verified-kept :
      (v : V) (c : CallContext A Reach) (s s' : Slots V)
      → keep_verified v c s ≡ ok s'
      → lookup c.slot s'.held ≡ some v
  unfolding keep_verified
  keep_verified-kept v c s s' h = elim (Option-cases (lookup c.slot s.held)) [
    | inr (w, held) ↦ cc (rw (held, keep_verified) at h)
    | inl free ↦
        let h' = rw (free, keep_verified) at h in
        let there : lookup c.slot (insert c.slot v s.held) ≡ some v =
          lookup-insert c.slot c.slot v s.held
          ∙ if_true (c.slot == c.slot) (some v) (lookup c.slot s.held) (beq_self c.slot) in
        let e : record s { held = insert c.slot v s.held } ≡ s' = ground arith in
        ap (λ (x : Slots V). lookup c.slot x.held) (sym e) ∙ there
  ]

  -- A verifier's answer is what the call reads from then on, and no second one replaces it.
  pub keep_verified-once :
      (v w : V) (c : CallContext A Reach) (s s' : Slots V)
      → keep_verified v c s ≡ ok s'
      → (verified c s' ≡ ok v) × (keep_verified w c s' ≡ err already_verified)
  unfolding verified keep_verified
  keep_verified-once v w c s s' h =
      let kept = keep_verified-kept v c s s' h in
      (rw (kept, verified) refl, rw (kept, keep_verified) refl)

module _ {A P Scope Reach : Type 0} (ids : Identities A P Scope Reach) where
  hop_principal-unreadable : (h : Hop) → is_unreadable ids h ≡ true → hop_principal ids h ≡ none
  unfolding is_unreadable hop_principal
  hop_principal-unreadable h bad = elim (Option-cases (hop_caller h)) [
    | inl nobody ↦ rw (nobody, hop_principal) refl
    | inr (p, named) ↦ elim (Option-cases (ids.parse p)) [
      | inl missed ↦ rw (named, hop_principal, missed) refl
      | inr (q, read) ↦ cc (rw (named, is_unreadable, read) at bad)
    ]
  ]

  allows-unreadable :
      (h : Hop) (chain : List Scope)
      → (is_unreadable ids h ≡ true) ⊎ (h.limit ≡ none)
      → allows ids h chain ≡ false
  unfolding allows held_on
  allows-unreadable h chain (inl bad) = rw (hop_principal-unreadable h bad, allows) refl
  allows-unreadable h chain (inr undecided) = elim (Option-cases (hop_principal ids h)) [
    | inl nobody ↦ rw (nobody, allows) refl
    | inr (p, named) ↦ rw (named, allows, undecided, held_on) refl
  ]

module _ {A P Scope Reach V : Type 0} (ids : Identities A P Scope Reach) where
  -- A hop that names someone who cannot be read, or that no gate decided, reaches nowhere and allows
  -- nothing.
  pub through_hop-nowhere :
      (h : Hop) (chain : List Scope) (s : Slots V)
      → (is_unreadable ids h ≡ true) ⊎ (h.limit ≡ none)
      → ((through_hop ids h s).0.reach ≡ some ids.nowhere) × (allows ids h chain ≡ false)
  unfolding through_hop with_new_slot
  through_hop-nowhere h chain s (inl bad) = (
    ap (λ r. some r) (if_true (is_unreadable ids h) ids.nowhere _ bad),
    allows-unreadable ids h chain (inl bad),
  )
  through_hop-nowhere h chain s (inr undecided) = (
    if_cases (λ r. some r ≡ some ids.nowhere) (is_unreadable ids h) (λ bad. refl)
        (λ good. rw undecided refl),
    allows-unreadable ids h chain (inr undecided),
  )
