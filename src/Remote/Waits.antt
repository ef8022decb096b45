-- ===== src/Remote/Waits.antt =====
-- A call whose open is under way stays so until it is told how it ended.
use plexus_core.Base.{
  ℕ, Text, Bool, true, not, ◌||◌, Option, none, some, List, [], ◌∷◌, ◌++◌, ◌==◌, nat_eq, text_eq,
  any, ◌≡◌, arith, ◌⊎◌, inl, inr, Option-cases, if_cases,
}
use plexus_core.Base.Assoc.{Assoc, lookup, insert, remove}
use plexus_core.Errors.{Result, ok}
use plexus_core.Json.{Value}
use plexus_core.Remote.Routes.{Routes, Conn, Refused, Msg, Reading, elapsed, OpenFail, Sub}
use plexus_core.Remote.Conn.{open_, abandon, open_end, unsubscribe, on_gone, reply_gone}
use plexus_core.Remote.Message.{
  opened, on_answer, Move, opens, times_out, unsubscribes, says, goes, move, moves,
}
use plexus_core.Remote.Quiet.{
  option_cases, Quiet, unsubscribe-Quiet, other_answer-Quiet, on_message-on_answer,
}

module _ {A : Type 0} where
  abbrev pub names : ℕ → List (ℕ × A) → Bool
  names id es = any (λ e. e.0 == id) es

  names-remove :
      (id j : ℕ) (es : Assoc ℕ A) → names id es ≡ true → (j ≡ id) ⊎ (names id (remove j es) ≡ true)
  unfolding remove
  names-remove id j [] h = cc h
  names-remove id j ((i, v) ∷ es) h = ground (arith, h, names-remove id j es)

  names-append_right :
      (id : ℕ) (es fs : List (ℕ × A)) → names id fs ≡ true → names id (es ++ fs) ≡ true
  names-append_right id [] fs h = h
  names-append_right id (e ∷ es) fs h = ground (arith, names-append_right id es fs h)

  names-append_left :
      (id : ℕ) (es fs : List (ℕ × A)) → names id es ≡ true → names id (es ++ fs) ≡ true
  names-append_left id [] fs h = cc h
  names-append_left id (e ∷ es) fs h = ground (arith, h, names-append_left id es fs)

names-reply_gone :
    (why : Text) (id : ℕ) (es : Assoc ℕ Sub)
    → names id es ≡ true
    → names id (reply_gone why es) ≡ true
unfolding reply_gone
names-reply_gone why id [] h = cc h
names-reply_gone why id ((i, s) ∷ es) h = ground (arith, h, names-reply_gone why id es)

-- A reply ends a wait, and no other.
replied-IsOpening :
    (i id : ℕ) (pending : Assoc ℕ Sub) (replies : List (ℕ × Result OpenFail Text)) (late : Bool)
    → (names i pending ≡ true) ⊎ ((names i replies ≡ true) ⊎ (late ≡ true))
    → (names i (remove id pending) ≡ true) ⊎ (((id == i || names i replies) ≡ true) ⊎ (late ≡ true))
replied-IsOpening i id pending replies late (inl p) = elim (names-remove i id pending p) [
  | inl same ↦ inr (inl (ground (arith, same)))
  | inr still ↦ inl still
]
replied-IsOpening i id pending replies late (inr (inl t)) = inr (inl (ground (arith, t)))
replied-IsOpening i id pending replies late (inr (inr t)) = inr (inr t)

inserted-IsOpening :
    (i id : ℕ) (pending : Assoc ℕ Sub) (T : Type 0)
    → (names i pending ≡ true) ⊎ T
    → ((id == i || names i (remove id pending)) ≡ true) ⊎ T
inserted-IsOpening i id pending T (inl p) = inl (elim (names-remove i id pending p) [
  | inl same ↦ ground (arith, same)
  | inr still ↦ ground (arith, still)
])
inserted-IsOpening i id pending T (inr t) = inr t

module _ {J : Type 0} where
  -- The call was told how its open ended.
  abbrev pub Told : ℕ → Conn J → Type 0
  Told id c = (names id c.replies ≡ true) ⊎ (any (λ i. i == id) c.late ≡ true)

  abbrev IsOpening : ℕ → Conn J → Type 0
  IsOpening id c = (names id c.routes.pending ≡ true) ⊎ Told id c

  Quiet-IsOpening : (id : ℕ) (c d : Conn J) → Quiet c d → IsOpening id c → IsOpening id d
  Quiet-IsOpening id c d (a, p, r, l, s) h = rw (p, r, l) h

  pub Quiet-Told : (id : ℕ) (c d : Conn J) → Quiet c d → Told id c → Told id d
  Quiet-Told id c d (a, p, r, l, s) h = rw (r, l) h

  pub later-Told :
      (i id : ℕ) (c : Conn J)
      → Told i c
      → (names i c.replies ≡ true) ⊎ ((id == i || any (λ j. j == i) c.late) ≡ true)
  later-Told i id c (inl t) = inl t
  later-Told i id c (inr t) = inr (ground (arith, t))

  later-IsOpening :
      (i id : ℕ) (c : Conn J)
      → IsOpening i c
      → (names i c.routes.pending ≡ true)
        ⊎ ((names i c.replies ≡ true) ⊎ ((id == i || any (λ j. j == i) c.late) ≡ true))
  later-IsOpening i id c (inl p) = inl p
  later-IsOpening i id c (inr t) = inr (later-Told i id c t)

  opened-IsOpening :
      (read : Reading J) (i id : ℕ) (s : Sub) (result : Option Text) (e : Option Value) (c : Conn J)
      → IsOpening i c
      → IsOpening i (opened read id s result e c)
  unfolding opened
  opened-IsOpening read i id s (some sid) e c h =
      replied-IsOpening i id c.routes.pending c.replies (any (λ j. j == i) c.late) h
  opened-IsOpening read i id s none e c h =
      replied-IsOpening i id c.routes.pending c.replies (any (λ j. j == i) c.late) h

  answer-IsOpening :
      (read : Reading J) (i now id : ℕ) (msg : Msg) (c : Conn J)
      → IsOpening i c
      → IsOpening i (on_answer read now id msg c)
  unfolding on_answer
  answer-IsOpening read i now id msg c h = elim (Option-cases (lookup id c.routes.pending)) [
    | inl missing ↦
        Quiet-IsOpening i c (on_answer read now id msg c)
          (other_answer-Quiet read now id msg c missing) h
    | inr (s, there) ↦ rw (on_answer, there) (opened-IsOpening read i id s msg.result msg.error c h)
  ]

  open_-IsOpening :
      (i : ℕ) (method : Text) (params : Value) (c : Conn J)
      → IsOpening i c
      → IsOpening i (open_ method params c).0
  unfolding open_ insert
  open_-IsOpening i method params c h =
      if_cases (λ (r : Conn J × Result Refused ℕ). IsOpening i r.0) (not c.alive) (λ _. h)
        (λ _. inserted-IsOpening i c.next_id c.routes.pending (Told i c) h)

  pub open_-IsOpening_own :
      (i : ℕ) (method : Text) (params : Value) (c : Conn J)
      → (open_ method params c).1 ≡ ok i
      → IsOpening i (open_ method params c).0
  unfolding open_ insert
  open_-IsOpening_own i method params c =
      if_cases (λ (r : Conn J × Result Refused ℕ). r.1 ≡ ok i → IsOpening i r.0) (not c.alive)
        (λ _ k. cc k) (λ _ k. let same : c.next_id ≡ i = cc k in inl (ground (arith, same)))

  late-IsOpening : (i id : ℕ) (c : Conn J) → IsOpening i c → IsOpening i (open_end id elapsed c).0
  unfolding open_end abandon
  late-IsOpening i id c h =
      option_cases
        (λ (r : Routes).
          (names i r.pending ≡ true)
          ⊎ ((names i c.replies ≡ true) ⊎ ((id == i || any (λ j. j == i) c.late) ≡ true)))
        (lookup id c.routes.pending) (later-IsOpening i id c h)
        (λ s. elim h [
          | inl p ↦ elim (names-remove i id c.routes.pending p) [
            | inl same ↦ inr (inr (ground (arith, same)))
            | inr still ↦ inl still
          ]
          | inr t ↦ inr (later-Told i id c t)
        ])

  pub on_gone-Told : (i : ℕ) (why : Text) (c : Conn J) → IsOpening i c → Told i (on_gone why c)
  unfolding on_gone
  on_gone-Told i why c (inl p) = inl (
      names-append_left i (reply_gone why c.routes.pending) c.replies
        (names-reply_gone why i c.routes.pending p))
  on_gone-Told i why c (inr (inl t)) =
      inl (names-append_right i (reply_gone why c.routes.pending) c.replies t)
  on_gone-Told i why c (inr (inr t)) = inr t

  move-IsOpening :
      (read : Reading J) (i : ℕ) (m : Move) (c : Conn J)
      → IsOpening i c
      → IsOpening i (move read m c)
  unfolding move
  move-IsOpening read i (opens method params) c h = open_-IsOpening i method params c h
  move-IsOpening read i (times_out id) c h = late-IsOpening i id c h
  move-IsOpening read i (unsubscribes key) c h =
      Quiet-IsOpening i c (unsubscribe key c) (unsubscribe-Quiet key c) h
  move-IsOpening read i (says now raw) c h =
      on_message-on_answer (IsOpening i) read now raw c (λ d q. Quiet-IsOpening i c d q h)
        (λ id msg. answer-IsOpening read i now id msg c h)
  move-IsOpening read i (goes why) c h = inr (on_gone-Told i why c h)

  pub moves-IsOpening :
      (read : Reading J) (i : ℕ) (ms : List Move) (c : Conn J)
      → IsOpening i c
      → IsOpening i (moves read ms c)
  unfolding moves
  moves-IsOpening read i [] c h = h
  moves-IsOpening read i (m ∷ ms) c h =
      moves-IsOpening read i ms (move read m c) (move-IsOpening read i m c h)
