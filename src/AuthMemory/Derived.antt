-- ===== src/AuthMemory/Derived.antt =====
-- A session asked for on a session: it is for who asks, within the ceilings of the session it was
-- asked on, and no longer than it.
use plexus_core.Base.{
  ℕ, Text, codes, Option, none, some, List, [], ◌∷◌, ◌++◌, ◌≡◌, refl, sym, ap, ◌∙◌, arith, if_true,
  ◌==◌, ◌+◌, ◌≤◌, ◌<◌, max, min, text_eq, Option-cases, inl, inr, beq_self, append-nil,
}
use plexus_core.Base.Word.{add64, add64_exact, sub64}
use plexus_core.Base.Assoc.{lookup, insert, lookup-insert}
use plexus_core.Errors.{Result-cases, ok}
use plexus_core.AuthMemory.Backend.{Backend, Session, SessionRec, Identity, or_else, mint}
use plexus_core.AuthMemory.Flows.{
  signed_in, Uuids, login_session, mint_answer, layers_with, bounded_ttl, time_left,
}

time_left-le :
    (end now : ℕ)
    → now < 9223372036854775808
    → end < 9223372036854775808
    → now + time_left end now ≤ max end now
unfolding time_left sub64
time_left-le end now h k = ground arith

module _ {P Ctx : Type 0} (identity : Identity P Ctx) where
  layers_with_sound :
      (held layers : List (List Text)) (ceiling : Option (List Text))
      → layers_with identity held ceiling ≡ ok layers
      → (more : List (List Text)) × (layers ≡ held ++ more)
  unfolding layers_with
  layers_with_sound held layers none h = ([], ground (arith, append-nil held))
  layers_with_sound held layers (some []) h = ([], ground (arith, append-nil held))
  layers_with_sound held layers (some (e ∷ es)) h =
      elim (Result-cases (identity.parse_ceiling (e ∷ es))) [
        | inr (why, bad) ↦ cc (rw (bad, layers_with) at h)
        | inl (parsed, good) ↦
            let h' = rw (good, layers_with) at h in (parsed ∷ [], ground (arith, h'))
      ]

  -- What the backend keeps of a session that it minted.
  Keeps : (b : Backend P) (s : Session) (who : P) (layers : List (List Text)) (expires : ℕ) → Type 0
  Keeps b s who layers expires =
      (rec : SessionRec P) × (lookup s.token b.state.sessions ≡ some rec)
      × (rec.principal ≡ who)
      × (rec.layers ≡ layers)
      × (rec.expires_at ≡ expires)

  mint_answer-Keeps :
      (now : ℕ) (uuids : Uuids) (who : P) (name agent : Option Text) (ttl : Option ℕ)
      (layers : List (List Text)) (b : Backend P) (s : Session)
      → (mint_answer identity now uuids who name agent ttl layers b).1 ≡ ok (signed_in s)
      → Keeps
          (mint_answer identity now uuids who name agent ttl layers b).0
          s
          who
          layers
          (add64 now (or_else ttl b.default_ttl))
  unfolding mint_answer mint Keeps
  mint_answer-Keeps now uuids who name agent ttl layers b s h =
      let token = codes "mgs_" ++ uuids.first in
      let rec : SessionRec P = record {
        id = codes "sess_" ++ uuids.second;
        principal = who;
        name = name;
        agent = agent;
        expires_at = add64 now (or_else ttl b.default_ttl);
        layers = layers;
      } in
      let e : s.token ≡ token = ground (arith, h) in
      let found : lookup token (insert token rec b.state.sessions) ≡ some rec =
        lookup-insert token token rec b.state.sessions
        ∙ if_true (token == token) (some rec) (lookup token b.state.sessions) (beq_self token) in
      (rec, rw e found, refl, refl, refl)

  -- With the time that is left, whatever is asked for.
  bounded_ttl-le :
      (now minted end default_ttl : ℕ) (ttl_secs : Option ℕ)
      → now ≤ minted
      → minted < 9223372036854775808
      → end < 9223372036854775808
      → add64 minted (or_else (bounded_ttl now default_ttl (some end) ttl_secs) default_ttl) + now
        ≤ max end now + minted
  unfolding bounded_ttl
  bounded_ttl-le now minted end default_ttl ttl_secs o h k =
      let t = min (or_else ttl_secs default_ttl) (time_left end now) in
      let le = time_left-le end now (omega (arith, o, h)) k in
      let exact = add64_exact minted t (omega arith) in omega arith

  -- A session that is asked for on a session, where that one has an end (it and the time of day not
  -- negative): it is the caller's own principal's, the ceilings of the caller's session are its
  -- first ones, and it ends with the caller's session, or at once where that is over, or later by no
  -- more than passes between the two readings of the clock.
  pub login_session-within :
      (now minted end : ℕ) (uuids : Uuids) (ctx : Ctx) (ttl_secs : Option ℕ)
      (ceiling : Option (List Text)) (b : Backend P) (s : Session)
      → identity.expires_at ctx ≡ some end
      → now ≤ minted
      → minted < 9223372036854775808
      → end < 9223372036854775808
      → (login_session identity now minted uuids (some ctx) ttl_secs ceiling b).1 ≡ ok (signed_in s)
      → (rec : SessionRec P) × (held more : List (List Text)) × (lookup s.token
            (login_session identity now minted uuids (some ctx) ttl_secs ceiling b).0.state.sessions
          ≡ some rec)
        × (identity.principal ctx ≡ some rec.principal)
        × (identity.layers_of ctx ≡ ok held)
        × (rec.layers ≡ held ++ more)
        × (rec.expires_at + now ≤ max end now + minted)
  unfolding login_session Keeps
  login_session-within now minted end uuids ctx ttl_secs ceiling b s e o h k done =
      elim (Option-cases (identity.principal ctx)) [
        | inl nobody ↦ cc (rw (nobody, login_session) at done)
        | inr (who, someone) ↦
            let done₁ = rw (someone, login_session) at done in
            elim (Result-cases (identity.layers_of ctx)) [
              | inr (why, bad) ↦ cc (rw bad at done₁)
              | inl (held, good) ↦
                  let done₂ = rw good at done₁ in
                  elim (Result-cases (layers_with identity held ceiling)) [
                    | inr (why, bad) ↦ cc (rw bad at done₂)
                    | inl (layers, parsed) ↦
                        let done₃ = rw (parsed, e) at done₂ in
                        let (more, sum) = layers_with_sound held layers ceiling parsed in
                        let (rec, found, same_who, same_layers, same_end) =
                          mint_answer-Keeps minted uuids who
                            (identity.metadata_string ctx (codes "name"))
                            (identity.metadata_string ctx (codes "agent"))
                            (bounded_ttl now b.default_ttl (some end) ttl_secs) layers b s done₃ in
                        let le = bounded_ttl-le now minted end b.default_ttl ttl_secs o h k in
                        (
                          rec,
                          held,
                          more,
                          rw (someone, login_session, good, parsed, e) found,
                          someone ∙ ap (λ x. some x) (sym same_who),
                          good,
                          same_layers ∙ sum,
                          omega arith,
                        )
                  ]
            ]
      ]
