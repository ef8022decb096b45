-- ===== src/AuthMemory/Laws.antt =====
-- What the backend's flows promise: a code is good once, a session asked for on a session is
-- within it, and sessions end.
use plexus_core.Base.{
  ℕ, Text, codes, false, not, none, some, [], ◌≡◌, refl, ap, ◌∙◌, arith, if_true, ◌==◌, text_eq,
  Option-cases, inl, inr, eq_of_beq, beq_self, if_cases,
}
use plexus_core.Base.Word.{sub64}
use plexus_core.Base.Assoc.{lookup, remove, lookup-remove}
use plexus_core.Errors.{Result, ok, err}
use plexus_core.AuthMemory.Backend.{lt_i64, Backend, Session, Identity, Code, mint}
use plexus_core.AuthMemory.Flows.{
  LoginAnswer, signed_in, Uuids, login_code, redeem, mint_answer, code_ttl_secs,
}

module _ {P Ctx : Type 0} (identity : Identity P Ctx) where
  redeem-codes :
      (now minted : ℕ) (uuids : Uuids) (state : Text) (c : Code P) (b : Backend P)
      → (redeem identity now minted uuids state c b).0.state.codes ≡ b.state.codes
  unfolding redeem mint_answer mint
  redeem-codes now minted uuids state c b =
      let P' = λ (r : Backend P × Result Text LoginAnswer). r.0.state.codes ≡ b.state.codes in
      if_cases P' (not (c.state == state)) (λ other. refl)
        (λ same.
          if_cases P' (lt_i64 code_ttl_secs (sub64 now c.issued)) (λ late. refl) (λ good. refl))

  redeem_sound :
      (now minted : ℕ) (uuids : Uuids) (state : Text) (c : Code P) (b : Backend P) (s : Session)
      → (redeem identity now minted uuids state c b).1 ≡ ok (signed_in s)
      → (c.state ≡ state)
        × (lt_i64 code_ttl_secs (sub64 now c.issued) ≡ false)
        × (s.principal ≡ identity.show c.principal)
        × (s.ceiling ≡ [])
  unfolding redeem mint_answer mint
  redeem_sound now minted uuids state c b s =
      let Q = λ (r : Backend P × Result Text LoginAnswer).
        r.1 ≡ ok (signed_in s)
        → (c.state ≡ state)
          × (lt_i64 code_ttl_secs (sub64 now c.issued) ≡ false)
          × (s.principal ≡ identity.show c.principal)
          × (s.ceiling ≡ []) in
      if_cases Q (not (c.state == state)) (λ other h. cc)
        (λ same.
          if_cases Q (lt_i64 code_ttl_secs (sub64 now c.issued)) (λ late h. cc)
            (λ good h. (
              eq_of_beq c.state state (ground (arith, same)),
              good,
              ground (arith, h),
              ground (arith, h),
            )))

  login_code-lookup :
      (now minted : ℕ) (uuids : Uuids) (code_text state : Text) (b : Backend P)
      → lookup code_text (login_code identity now minted uuids code_text state b).0.state.codes
        ≡ none
  unfolding login_code
  login_code-lookup now minted uuids code_text state b =
      let gone : lookup code_text (remove code_text b.state.codes) ≡ none =
        lookup-remove code_text code_text b.state.codes
        ∙ if_true (code_text == code_text) none (lookup code_text b.state.codes)
            (beq_self code_text) in
      elim (Option-cases (lookup code_text b.state.codes)) [
        | inl missed ↦ rw (missed, login_code) gone
        | inr (c, found) ↦
            rw (found, login_code)
              (ap (lookup code_text) (redeem-codes now minted uuids state c _) ∙ gone)
      ]

  -- Whoever has come with a code, and whatever came of it, the next who comes with it is refused.
  pub login_code-once :
      (now minted now' minted' : ℕ) (uuids uuids' : Uuids) (code_text state state' : Text)
      (b : Backend P)
      → (login_code identity now' minted' uuids' code_text state'
          (login_code identity now minted uuids code_text state b).0).1
        ≡ err (codes "the code is not good (used, or never issued)")
  unfolding login_code
  login_code-once now minted now' minted' uuids uuids' code_text state state' b =
      rw (login_code-lookup now minted uuids code_text state b, login_code) refl

  -- Who is signed in by a code: it was issued for the state, a minute ago at most, to the principal
  -- of the session, which has no ceiling.
  pub login_code_sound :
      (now minted : ℕ) (uuids : Uuids) (code_text state : Text) (b : Backend P) (s : Session)
      → (login_code identity now minted uuids code_text state b).1 ≡ ok (signed_in s)
      → (c : Code P) × (lookup code_text b.state.codes ≡ some c)
        × (c.state ≡ state)
        × (lt_i64 code_ttl_secs (sub64 now c.issued) ≡ false)
        × (s.principal ≡ identity.show c.principal)
        × (s.ceiling ≡ [])
  unfolding login_code
  login_code_sound now minted uuids code_text state b s h =
      elim (Option-cases (lookup code_text b.state.codes)) [
        | inl missed ↦ cc (rw (missed, login_code) at h)
        | inr (c, found) ↦
            let (of_state, good, who, bare) =
              redeem_sound now minted uuids state c _ s (rw (found, login_code) at h) in
            (c, found, of_state, good, who, bare)
      ]
