-- ===== src/AuthMemory/Sessions.antt =====
-- A session from its minting to its end, and a session asked for on a session.
use plexus_core.Base.{
  ℕ, Text, codes, true, false, Option, none, some, List, [], ◌∷◌, ◌++◌, ◌≡◌, refl, sym, ap, ◌∙◌,
  arith, if◌then◌else◌, if_true, ◌==◌, ◌+◌, ◌<◌, ltb, text_eq, Option-cases, Bool-cases, inl, inr,
  beq_self, if_cases,
}
use mathlib.Core.Path.{subst}
use mathlib.Core.Option.{some-injective}
use plexus_core.Base.Texts.{strip_prefix}
use plexus_core.Base.Word.{add64_exact}
use plexus_core.Base.Assoc.{Assoc, lookup, lookup-insert}
use plexus_core.Errors.{Result, ok, err}
use plexus_core.AuthMemory.Backend.{
  lt_i64, State, SessionRec, Identity, Waiting, mint, find_waiting, context_of, context_of_rec,
  logout, without_id, session_alive, find_id,
}
use plexus_core.AuthMemory.Flows.{ask_access, newcomer}

lt_i64-ltb : (a b : ℕ) → a < 9223372036854775808 → b < 9223372036854775808 → lt_i64 a b ≡ ltb a b
unfolding lt_i64
lt_i64-ltb a b h k = ground arith

find_waiting-append :
    (text : Text) (ws : List Waiting) (w : Waiting)
    → find_waiting text ws ≡ none
    → w.principal ≡ text
    → find_waiting text (ws ++ (w ∷ [])) ≡ some w
find_waiting-append text [] w h e =
    let here : (w.principal == text) ≡ true = rw e (beq_self text) in
    if_true (w.principal == text) (some w) none here
find_waiting-append text (v ∷ ws) w h e = elim (Bool-cases (v.principal == text)) [
  | inl hit ↦ cc (rw hit at h)
  | inr miss ↦ rw miss (find_waiting-append text ws w (rw miss at h) e)
]

module _ {P : Type 0} where
  lookup-without_id :
      (id token : Text) (m : Assoc Text (SessionRec P)) (rec : SessionRec P)
      → lookup token m ≡ some rec
      → (rec.id == id) ≡ false
      → lookup token (without_id id m) ≡ some rec
  unfolding lookup without_id
  lookup-without_id id token [] rec h k = cc
  lookup-without_id id token ((t, r) ∷ m) rec h k = elim (Bool-cases (t == token)) [
    | inl here ↦
        let same : ◌≡◌ {A = Option (SessionRec P)} (some r) (some rec) = rw (here, lookup) at h in
        let e : r ≡ rec = some-injective r rec same in
        let kept : (r.id == id) ≡ false = subst (λ x. (x.id == id) ≡ false) (sym e) k in
        rw (kept, here, lookup) same
    | inr there ↦
        let ih = lookup-without_id id token m rec (rw (there, lookup) at h) k in
        if_cases (λ l. lookup token l ≡ some rec) (r.id == id) (λ dropped. ih)
          (λ kept. rw (there, lookup) ih)
  ]

  find_id-without_id :
      (id : Text) (m : Assoc Text (SessionRec P)) → find_id id (without_id id m) ≡ none
  unfolding find_id without_id
  find_id-without_id id [] = refl
  find_id-without_id id ((t, r) ∷ m) = ground (arith, find_id-without_id id m)

module _ {P Ctx : Type 0} (identity : Identity P Ctx) where
  -- A session minted is the identity of its token until its end, and no longer.
  pub mint-context_of :
      (default_ttl now later : ℕ) (token_uuid id_uuid : Text) (who : P) (name agent : Option Text)
      (ttl : ℕ) (layers : List (List Text)) (st : State P)
      → now + ttl < 9223372036854775808
      → later < 9223372036854775808
      → let (st', s) =
          mint identity default_ttl now token_uuid id_uuid who name agent (some ttl) layers st in
        context_of identity later s.token st' ≡ (
          if ltb later (now + ttl)
          then some (
              context_of_rec identity (record {
                id = codes "sess_" ++ id_uuid;
                principal = who;
                name = name;
                agent = agent;
                expires_at = now + ttl;
                layers = layers;
              }))
          else none)
  unfolding mint context_of
  mint-context_of default_ttl now later token_uuid id_uuid who name agent ttl layers st h k =
      let token = codes "mgs_" ++ token_uuid in
      let exact = add64_exact now ttl (omega arith) in
      rw
        (
          lookup-insert token token _ st.sessions,
          if_true (token == token) _ (lookup token st.sessions) (beq_self token),
          exact,
          lt_i64-ltb later (now + ttl) k h,
        )
        refl

  -- Who logs out: their session stands no longer.
  pub logout-session_alive :
      (now : ℕ) (caller : Ctx) (rest : Text) (st : State P)
      → strip_prefix (codes "sess_") (identity.session_id caller) ≡ some rest
      → session_alive identity now caller (logout identity caller st)
        ≡ err (codes "you have signed out: sign in again")
  unfolding session_alive logout
  logout-session_alive now caller rest st h =
      rw (h, session_alive, find_id-without_id (identity.session_id caller) st.sessions) refl

  -- And every other session lasts as it did.
  pub logout-context_of :
      (now : ℕ) (caller : Ctx) (token : Text) (rec : SessionRec P) (st : State P)
      → lookup token st.sessions ≡ some rec
      → (rec.id == identity.session_id caller) ≡ false
      → context_of identity now token (logout identity caller st) ≡ context_of identity now token st
  unfolding context_of logout
  logout-context_of now caller token rec st h k =
      rw (h, context_of, lookup-without_id (identity.session_id caller) token st.sessions rec h k)
        refl

  ask_access-nobody :
      (now : ℕ) (caller : Ctx) (via : Option Text) (st : State P)
      → identity.principal caller ≡ none
      → ask_access identity now caller via st ≡ (st, err (codes "sign in first"))
  unfolding ask_access
  ask_access-nobody now caller via st h = rw (h, ask_access) refl

  ask_access-known :
      (now : ℕ) (caller : Ctx) (via : Option Text) (st : State P) (who : P) (w : Waiting)
      → identity.principal caller ≡ some who
      → find_waiting (identity.show who) st.waiting ≡ some w
      → ask_access identity now caller via st ≡ (st, ok w)
  unfolding ask_access
  ask_access-known now caller via st who w h k = rw (h, ask_access, k) refl

  ask_access-new :
      (now : ℕ) (caller : Ctx) (via : Option Text) (st : State P) (who : P)
      → identity.principal caller ≡ some who
      → find_waiting (identity.show who) st.waiting ≡ none
      → ask_access identity now caller via st ≡ (
        record st { waiting = st.waiting ++ (newcomer identity now caller via who ∷ []) },
        ok (newcomer identity now caller via who),
      )
  unfolding ask_access
  ask_access-new now caller via st who h k = rw (h, ask_access, k) refl

  -- Who asks for access once more is told of the first time, and waits once.
  pub ask_access-again :
      (now later : ℕ) (caller : Ctx) (via via' : Option Text) (st : State P)
      → ask_access identity later caller via' (ask_access identity now caller via st).0
        ≡ ask_access identity now caller via st
  unfolding newcomer
  ask_access-again now later caller via via' st =
      let again =
        λ (r : State P × Result Text Waiting). ask_access identity later caller via' r.0 in
      elim (Option-cases (identity.principal caller)) [
        | inl nobody ↦
            let e = ask_access-nobody now caller via st nobody in
            ap again e ∙ (ask_access-nobody later caller via' st nobody ∙ sym e)
        | inr (who, someone) ↦ elim (Option-cases (find_waiting (identity.show who) st.waiting)) [
          | inl new ↦
              let w = newcomer identity now caller via who in
              let e = ask_access-new now caller via st who someone new in
              let st' = record st { waiting = st.waiting ++ (w ∷ []) } in
              let there = find_waiting-append (identity.show who) st.waiting w new refl in
              ap again e ∙ (ask_access-known later caller via' st' who w someone there ∙ sym e)
          | inr (w, known) ↦
              let e = ask_access-known now caller via st who w someone known in
              ap again e ∙ (ask_access-known later caller via' st who w someone known ∙ sym e)
        ]
      ]
