-- ===== src/Remote/Gone.antt =====
-- What becomes of a connection's calls, and of the connection once it is gone.
use plexus_core.Base.{
  ℕ, Text, false, not, none, List, [], ◌∷◌, nat_eq, text_eq, ◌≡◌, refl, ◌∙◌, inr, if_cases,
}
use plexus_core.Base.Assoc.{lookup}
use plexus_core.Json.{Value}
use plexus_core.Errors.{Result, ok}
use plexus_core.Remote.Routes.{Conn, Refused, Reading, elapsed}
use plexus_core.Remote.Conn.{open_, abandon, open_end, unsubscribe, on_gone}
use plexus_core.Remote.Message.{
  on_answer, Move, opens, times_out, unsubscribes, says, goes, move, moves,
}
use plexus_core.Remote.Quiet.{Quiet, unsubscribe-Quiet, other_answer-Quiet, on_message-on_answer}
use plexus_core.Remote.Waits.{
  Told, Quiet-Told, later-Told, open_-IsOpening_own, on_gone-Told, moves-IsOpening,
}

module _ {J : Type 0} where
  -- Nothing is open or being opened, and nothing will be.
  abbrev pub IsGone : Conn J → Type 0
  IsGone c = (c.alive ≡ false) × (c.routes.pending ≡ []) × (c.routes.subs ≡ [])

  Quiet-IsGone : (c d : Conn J) → Quiet c d → IsGone c → IsGone d
  Quiet-IsGone c d (a, p, r, l, s) (dead, none_pending, none_open) =
      (a ∙ dead, p ∙ none_pending, s none_open)

  on_gone-IsGone : (why : Text) (c : Conn J) → IsGone (on_gone why c)
  unfolding on_gone
  on_gone-IsGone why c = (refl, refl, refl)

  -- Told, and the connection is gone.
  abbrev pub Settled : ℕ → Conn J → Type 0
  Settled id c = Told id c × IsGone c

  nothing_pending : (id : ℕ) (c : Conn J) → IsGone c → lookup id c.routes.pending ≡ none
  unfolding lookup
  nothing_pending id c (dead, none_pending, none_open) = rw none_pending refl

  Quiet-Settled : (i : ℕ) (c d : Conn J) → Settled i c → Quiet c d → Settled i d
  Quiet-Settled i c d (t, g) q = (Quiet-Told i c d q t, Quiet-IsGone c d q g)

  late-Settled : (i id : ℕ) (c : Conn J) → Settled i c → Settled i (open_end id elapsed c).0
  unfolding open_end abandon
  late-Settled i id c (t, (dead, none_pending, none_open)) =
      rw (open_end, abandon, nothing_pending id c (dead, none_pending, none_open))
        (later-Told i id c t, (dead, none_pending, none_open))

  open_-Settled :
      (i : ℕ) (method : Text) (params : Value) (c : Conn J)
      → Settled i c
      → Settled i (open_ method params c).0
  unfolding open_
  open_-Settled i method params c (t, (dead, none_pending, none_open)) =
      if_cases (λ (r : Conn J × Result Refused ℕ). Settled i r.0) (not c.alive)
        (λ _. (t, (dead, none_pending, none_open))) (λ live. cc (rw dead at live))

  move-Settled :
      (read : Reading J) (i : ℕ) (m : Move) (c : Conn J) → Settled i c → Settled i (move read m c)
  unfolding move
  move-Settled read i (opens method params) c h = open_-Settled i method params c h
  move-Settled read i (times_out id) c h = late-Settled i id c h
  move-Settled read i (unsubscribes key) c h =
      Quiet-Settled i c (unsubscribe key c) h (unsubscribe-Quiet key c)
  move-Settled read i (says now raw) c h =
      on_message-on_answer (Settled i) read now raw c (λ d q. Quiet-Settled i c d h q)
        (λ id msg.
          Quiet-Settled i c (on_answer read now id msg c) h
            (other_answer-Quiet read now id msg c (nothing_pending id c h.1)))
  move-Settled read i (goes why) c (t, g) = (on_gone-Told i why c (inr t), on_gone-IsGone why c)

  moves-Settled :
      (read : Reading J) (i : ℕ) (ms : List Move) (c : Conn J)
      → Settled i c
      → Settled i (moves read ms c)
  unfolding moves
  moves-Settled read i [] c h = h
  moves-Settled read i (m ∷ ms) c h =
      moves-Settled read i ms (move read m c) (move-Settled read i m c h)

  -- A call that was opened, whatever is then done to the connection and said by the child, in any
  -- order, is told how its open ended when the connection goes, if not before: it got its
  -- subscription, was refused, was told that the child is gone, or timed out. From then on, whatever
  -- follows, the connection is not alive, and has no open under way and no subscription.
  pub moves-Settled_gone :
      (read : Reading J) (i : ℕ) (method why : Text) (params : Value) (before after : List Move)
      (c : Conn J)
      → (open_ method params c).1 ≡ ok i
      → Settled i (moves read after (on_gone why (moves read before (open_ method params c).0)))
  moves-Settled_gone read i method why params before after c h = moves-Settled read i after _ (
    on_gone-Told i why _
        (moves-IsOpening read i before _ (open_-IsOpening_own i method params c h)),
    on_gone-IsGone why _,
  )
