-- ===== src/Pending/Laws.antt =====
-- Who may answer a question, and how often.
use plexus_core.Base.{
  ℕ, Text, Bool, true, false, Option, none, some, List, [], ◌∷◌, ◌++◌, ◌==◌, nat_eq, text_eq, ◌≡◌,
  ◌≢◌, refl, arith, ◌⊎◌, inl, inr, Bool-cases, Option-cases, All, beq_self, eq_of_beq, if_cases, ap,
  ◌∙◌,
}
use mathlib.Core.Path.{subst, sym}
use plexus_core.Base.Assoc.{Assoc, lookup, remove, lookup-insert, lookup-remove}
use plexus_core.Errors.{Result, ok, err}
use plexus_core.Pending.{
  BidirError, Pending, Registry, bind_asker, bind_found, answer_pending, answer_found, send,
  is_refused, is_from, is_request_pending, Act, registers, binds, unregisters, answers, act, acts,
}

-- An act that the asker's connection makes, or that replaces or takes back the question: its own
-- service's.
abbrev pub IsForeign : {S V : Type 0} → (id : Text) (asker : ℕ) → Act S V → Type 0
IsForeign id c (registers j _) = (j == id) ≡ false
IsForeign id c (binds j _) = Unit
IsForeign id c (unregisters j) = (j == id) ≡ false
IsForeign id c (answers _ j from _) = ((j == id) ≡ false) ⊎ (is_from c from ≡ false)

module _ {S V : Type 0} where
  bind_found-lookup_ne :
      (j id : Text) (d : ℕ) (o : Option (Pending S)) (r : Registry S V)
      → (j == id) ≡ false
      → lookup id (bind_found j d o r).0.pending ≡ lookup id r.pending
  bind_found-lookup_ne j id d none r ne = refl
  bind_found-lookup_ne j id d (some p) r ne = elim (Option-cases p.asker) [
    | inl e ↦ rw (e, lookup-insert j id (record p { asker = some d }) r.pending, ne) refl
    | inr (a, e) ↦ rw e refl
  ]

  bind_found-bound :
      (j : Text) (d c : ℕ) (s : S) (o : Option (Pending S)) (r : Registry S V)
      → o ≡ some (record { sender = s; asker = some c })
      → (bind_found j d o r).0 ≡ r
  bind_found-bound j d c s o r e = rw (e, bind_found) refl

  send-pending :
      (alive : S → Bool) (s : S) (v : V) (r : Registry S V)
      → (send alive s v r).0.pending ≡ r.pending
  send-pending alive s v r = ground arith

  answer_found-lookup_ne :
      (alive : S → Bool) (j id : Text) (from : Option ℕ) (v : V) (o : Option (Pending S))
      (r : Registry S V)
      → (j == id) ≡ false
      → lookup id (answer_found alive j from v o r).0.pending ≡ lookup id r.pending
  answer_found-lookup_ne alive j id from v none r ne = refl
  answer_found-lookup_ne alive j id from v (some p) r ne =
      if_cases
        (λ (m : Registry S V × Result BidirError (Unit {0})).
          lookup id m.0.pending ≡ lookup id r.pending)
        (is_refused p.asker from) (λ _. refl)
        (λ _.
          ap (lookup id) (send-pending alive p.sender v (record r { pending = remove j r.pending }))
          ∙ rw (lookup-remove j id r.pending, ne) refl)

  answer_found-bound :
      (alive : S → Bool) (j : Text) (from : Option ℕ) (v : V) (c : ℕ) (s : S)
      (o : Option (Pending S)) (r : Registry S V)
      → o ≡ some (record { sender = s; asker = some c })
      → is_from c from ≡ false
      → answer_found alive j from v o r ≡ (r, err BidirError.not_this_call)
  answer_found-bound alive j from v c s none r e f = cc
  answer_found-bound alive j from v c s (some p) r e f = ground arith

module _ {S V : Type 0} (id : Text) (s : S) (c : ℕ) where
  abbrev pub IsBound : Registry S V → Type 0
  IsBound r = lookup id r.pending ≡ some (record { sender = s; asker = some c })

  act-IsBound : (a : Act S V) (r : Registry S V) → IsForeign id c a → IsBound r → IsBound (act a r)
  unfolding act
  act-IsBound (registers j t) r f h =
      rw (lookup-insert j id (record { sender = t; asker = none }) r.pending, f) h
  act-IsBound (binds j d) r f h = elim (Bool-cases (j == id)) [
    | inl same ↦
        let e = eq_of_beq j id same in
        rw (bind_found-bound j d c s (lookup j r.pending) r (rw e h)) h
    | inr ne ↦ bind_found-lookup_ne j id d (lookup j r.pending) r ne ∙ h
  ]
  act-IsBound (unregisters j) r f h = rw (lookup-remove j id r.pending, f) h
  act-IsBound (answers alive j from v) r f h = elim (Bool-cases (j == id)) [
    | inl same ↦
        let e = eq_of_beq j id same in
        let other : is_from c from ≡ false = ground arith in
        subst
          (λ (m : Registry S V × Result BidirError (Unit {0})).
            lookup id m.0.pending ≡ some (record { sender = s; asker = some c }))
          (sym (answer_found-bound alive j from v c s (lookup j r.pending) r (rw e h) other)) h
    | inr ne ↦ answer_found-lookup_ne alive j id from v (lookup j r.pending) r ne ∙ h
  ]

  acts-IsBound :
      (rest : List (Act S V)) (r : Registry S V)
      → All (IsForeign id c) rest
      → IsBound r
      → IsBound (acts rest r)
  unfolding acts
  acts-IsBound [] r f h = h
  acts-IsBound (a ∷ rest) r (f, fs) h = acts-IsBound rest (act a r) fs (act-IsBound a r f h)

lookup-remove_self :
    {S : Type 0} (id : Text) (m : Assoc Text (Pending S)) → lookup id (remove id m) ≡ none
lookup-remove_self id m = rw (lookup-remove id id m, beq_self id) refl

module _ {S V : Type 0} where
  bind_asker-IsBound :
      (id : Text) (s : S) (c : ℕ) (r : Registry S V)
      → lookup id r.pending ≡ some (record { sender = s; asker = none })
      → IsBound id s c (bind_asker id c r).0
  unfolding bind_asker
  bind_asker-IsBound id s c r h =
      rw (h, lookup-insert id id (record { sender = s; asker = some c }) r.pending, beq_self id)
        refl

  -- The question of an answer that is its asker's goes, and the answer is sent.
  abbrev Answered :
      (id : Text) → S → V → Registry S V → Registry S V × Result BidirError (Unit {0}) → Type 0
  Answered id s v r m =
      (m.1 ≡ ok tt) × (m.0.sent ≡ r.sent ++ (s, v) ∷ []) × (lookup id m.0.pending ≡ none)

  answer_found-Answered :
      (alive : S → Bool) (id : Text) (s : S) (c : ℕ) (v : V) (o : Option (Pending S))
      (r : Registry S V)
      → o ≡ some (record { sender = s; asker = some c })
      → alive s ≡ true
      → Answered id s v r (answer_found alive id (some c) v o r)
  answer_found-Answered alive id s c v o r e live =
      subst (λ o. Answered id s v r (answer_found alive id (some c) v o r)) (sym e)
        (rw (beq_self c, live) (refl, refl, lookup-remove_self id r.pending))

  answer_found-gone :
      (alive : S → Bool) (id : Text) (from : Option ℕ) (v : V) (o : Option (Pending S))
      (r : Registry S V)
      → o ≡ lookup id r.pending
      → (answer_found alive id from v o r).1 ≢ err BidirError.not_this_call
      → lookup id (answer_found alive id from v o r).0.pending ≡ none
  answer_found-gone alive id from v none r e h = sym e
  answer_found-gone alive id from v (some p) r e h = ground (arith, lookup-remove_self id r.pending)

  -- Once a question is bound to its asker's connection, then whatever else is done to the registry
  -- (questions of other ids registered, taken back and answered, any binding, and answers to this one
  -- from other connections or from none) the asker's answer is sent to the question's own sender, as
  -- long as its receiver is there, and the question is then no more.
  pub acts-answer_pending :
      (id : Text) (s : S) (c : ℕ) (r : Registry S V) (rest : List (Act S V)) (alive : S → Bool)
      (v : V)
      → lookup id r.pending ≡ some (record { sender = s; asker = none })
      → All (IsForeign id c) rest
      → alive s ≡ true
      → ((answer_pending alive id (some c) v (acts rest (bind_asker id c r).0)).1 ≡ ok tt)
        × ((answer_pending alive id (some c) v (acts rest (bind_asker id c r).0)).0.sent
            ≡ (acts rest (bind_asker id c r).0).sent ++ (s, v) ∷ [])
        × (is_request_pending id
              (answer_pending alive id (some c) v (acts rest (bind_asker id c r).0)).0
            ≡ false)
  unfolding answer_pending is_request_pending
  acts-answer_pending id s c r rest alive v h foreign live =
      let bound =
        acts-IsBound id s c rest (bind_asker id c r).0 foreign (bind_asker-IsBound id s c r h) in
      let now : Registry S V = acts rest (bind_asker id c r).0 in
      let (done, sent, gone) =
        answer_found-Answered alive id s c v (lookup id now.pending) now bound live in
      (done, sent, rw gone refl)

  -- An answer that reaches a question, sent or not, is the last: the next one finds no question.
  pub answer_pending-once :
      (alive alive' : S → Bool) (id : Text) (from from' : Option ℕ) (v v' : V) (r : Registry S V)
      → (answer_pending alive id from v r).1 ≢ err BidirError.not_this_call
      → (answer_pending alive' id from' v' (answer_pending alive id from v r).0).1
        ≡ err BidirError.unknown_request
  unfolding answer_pending
  answer_pending-once alive alive' id from from' v v' r h =
      rw (answer_found-gone alive id from v (lookup id r.pending) r refl h) refl
