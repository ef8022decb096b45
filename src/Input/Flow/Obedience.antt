-- ===== src/Input/Flow/Obedience.antt =====
-- A client that keeps to the credit it was granted is never refused for it, and never left without.
use plexus_core.Base.{
  ℕ, ◌+◌, ◌≤◌, ◌<◌, Text, Bool, true, false, List, [], ◌∷◌, ◌≡◌, ◌≢◌, refl, ap, All, arith,
}
use plexus_core.Base.Word.{u64_mod, sub64, sat_add64-le}
use mathlib.Core.Path.{subst}
use plexus_core.Duplex.Credit.{admit-past_credit}
use plexus_core.Errors.{Result, ok, err}
use plexus_core.Auth.{Gate}
use plexus_core.Call.{DuplexCall, InputFrame, DuplexRefusal}
use plexus_core.Duplex.{admit}
use plexus_core.Input.Ledger.{Ledger, owed, half, due, frame_done}
use plexus_core.Input.Ledger.Payment.{owed-Pays}
use plexus_core.Input.Table.{Items, Batch, items_len, arrive_slot, end_slot, taken}
use plexus_core.Input.Flow.{
  Flow, Move, sends, admits, consumes, pays, ends, finishes, admit_first, consume_first, passed,
  move, moves, start,
}
use plexus_core.Input.Flow.Balance.{
  IsBalanced, Fits, IsPlain, queued, waiting, queued_bytes, waiting_bytes,
}
use plexus_core.Input.Flow.Sending.{send-IsBalanced, send-taken}
use plexus_core.Input.Flow.Credit.{
  consume_first-IsBalanced, pay-IsBalanced, end-IsBalanced, finish-IsBalanced,
  admit_first-IsBalanced,
}

module _ {A J : Type 0} where
  -- What a run has sent and granted only grows, and its window stays.
  abbrev Grows : Flow A J → Flow A J → Type 0
  Grows f g =
      (f.granted ≤ g.granted)
      × (g.slot.ledger.window ≡ f.slot.ledger.window)
      × (f.sent_bytes ≤ g.sent_bytes)

  Grows-Fits : (f g : Flow A J) → Grows f g → Fits g → Fits f
  Grows-Fits f g h fit = ground arith

module _ {A Reach J : Type 0} where
  move-Grows : (m : Move A Reach J) (f : Flow A J) → Grows f (move m f)
  unfolding move arrive_slot owed end_slot frame_done
  move-Grows (sends bytes raw items) f = ground arith
  move-Grows (admits g) f = admit_Grows f.slot.queue
    where
      admit_Grows : (fs : List (InputFrame (Batch J))) → Grows f (admit_first g fs f)
      admit_Grows [] = ground arith
      admit_Grows (fr ∷ fs) = passed_Grows fr fs (admit g f.call fr)
        where
          passed_Grows :
              (fr : InputFrame (Batch J)) (fs : List (InputFrame (Batch J)))
              (m : DuplexCall A × Result DuplexRefusal (Unit {0}))
              → Grows f (passed fr fs f m)
          passed_Grows fr fs (c, ok _) = ground arith
          passed_Grows fr fs (c, err _) = ground arith
  move-Grows consumes f = consume_Grows f.inbox
    where
      consume_Grows : (bs : List (Batch J)) → Grows f (consume_first bs f)
      consume_Grows [] = ground arith
      consume_Grows (b ∷ bs) = ground arith
  move-Grows pays f = ground arith
  move-Grows ends f = ground arith
  move-Grows finishes f = ground arith

  move-Fits : (m : Move A Reach J) (f : Flow A J) → Fits (move m f) → Fits f
  move-Fits m f = Grows-Fits f (move m f) (move-Grows m f)

  move-IsBalanced :
      (m : Move A Reach J) (f : Flow A J) → IsBalanced f → Fits (move m f) → IsBalanced (move m f)
  unfolding move
  move-IsBalanced (sends bytes raw items) f h fit = send-IsBalanced bytes raw items f h fit
  move-IsBalanced (admits g) f h fit =
      admit_first-IsBalanced g f.slot.queue f refl h (move-Fits (admits g) f fit)
  move-IsBalanced consumes f h fit =
      consume_first-IsBalanced f.inbox f refl h (move-Fits consumes f fit)
  move-IsBalanced pays f h fit = pay-IsBalanced f h fit
  move-IsBalanced ends f h fit = end-IsBalanced f h
  move-IsBalanced finishes f h fit = finish-IsBalanced f h

  moves-Grows : (ms : List (Move A Reach J)) (f : Flow A J) → Grows f (moves ms f)
  unfolding moves
  moves-Grows [] f = ground arith
  moves-Grows (m ∷ ms) f = ground (arith, move-Grows m f, moves-Grows ms (move m f))

  moves-IsBalanced :
      (ms : List (Move A Reach J)) (f : Flow A J)
      → IsBalanced f
      → Fits (moves ms f)
      → IsBalanced (moves ms f)
  unfolding moves
  moves-IsBalanced [] f h fit = h
  moves-IsBalanced (m ∷ ms) f h fit =
      moves-IsBalanced ms (move m f)
        (move-IsBalanced m f h
          (Grows-Fits (move m f) (moves ms (move m f)) (moves-Grows ms (move m f)) fit))
        fit

-- All of a window that was consumed and not returned is due, and more than half of it.
due-window :
    (l : Ledger)
    → l.consumed ≡ l.window + l.returned
    → l.consumed < u64_mod
    → 0 < l.window
    → (due l ≡ l.window) × (half l ≤ due l)
unfolding due half sub64
due-window l all fits w = ground arith

module _ {A J : Type 0} (ns : Text) (c : DuplexCall A) where
  start-IsBalanced :
      c.items ≡ 0 → c.credit ≡ c.ceiling.credit → IsBalanced (start {A = A} {J = J} ns c)
  unfolding start
  start-IsBalanced none_yet credit = record {
    held = refl;
    held_bytes = refl;
    sent = refl;
    sent_bytes = ground arith;
    counted = ground arith;
    credit = credit;
    spent = ground arith;
    returned = ground arith;
    granted = ground arith;
    exact = λ over. ground arith;
    plain = tt;
  }

module _ {A Reach J : Type 0} (ns : Text) (c : DuplexCall A) (none_yet : c.items ≡ 0)
    (credit_is : c.credit ≡ c.ceiling.credit) (ms : List (Move A Reach J))
    (fit : Fits (moves ms (start {J = J} ns c))) where
  abbrev reached : Flow A J
  reached = moves ms (start ns c)

  balanced : IsBalanced reached
  balanced = moves-IsBalanced ms (start ns c) (start-IsBalanced ns c none_yet credit_is) fit

  -- From a call as it is opened, whatever order reader, gate, handler and pipe move in and whatever
  -- the gate decides: as long as the half is open, a frame that is next in sequence, has an item at
  -- least and keeps to the credit granted so far is taken by the table. (Credit and window together
  -- stay below 2^64, and so do the bytes sent.)
  pub moves-obedient_taken :
      (bytes : ℕ) (raw : Bool) (items : Items J)
      → reached.slot.open_ ≡ true
      → 0 < items_len items
      → reached.sent + items_len items ≤ reached.granted
      → (arrive_slot reached.call.conn reached.slot.next_seq
          (items_len items)
          bytes
          raw
          items
          reached.slot).1
        ≡ taken
  moves-obedient_taken bytes raw items o pos le =
      send-taken bytes raw items reached balanced fit o pos le

  -- In such a run of a client that keeps to its credit, the gate refuses no frame for being past it.
  pub moves-obedient_admitted :
      (g : Gate A Reach) (fr : InputFrame (Batch J)) (fs : List (InputFrame (Batch J)))
      (c' : DuplexCall A) (seq credit : ℕ)
      → reached.slot.queue ≡ fr ∷ fs
      → admit g reached.call fr ≢ (c', err (DuplexRefusal.past_credit seq credit))
  moves-obedient_admitted g fr fs c' seq credit e h =
      let (b, plains) = subst (All IsPlain) e balanced.plain in
      let (no_overrun, _, _) = b in
      let n : queued reached.slot.queue ≡ queued (fr ∷ fs) = ap queued e in
      let past = admit-past_credit g reached.call fr c' seq credit h in
      let counts = balanced.counted in
      let credits = balanced.credit in
      let spent = balanced.spent in let le = sat_add64-le reached.call.items fr.items in grind arith

  -- In such a run, when the input is not over, its client has spent all of its credit and the
  -- handler has consumed all that was sent, the pipe pays the client a window's worth, where the
  -- window has an item at least and the call may hold a byte.
  pub moves-pays :
      0 < reached.slot.ledger.window
      → 0 < reached.slot.ledger.max_buffered
      → reached.slot.ledger.finished ≡ false
      → reached.slot.ledger.ended ≡ false
      → reached.slot.queue ≡ []
      → reached.inbox ≡ []
      → reached.sent ≡ reached.granted
      → (move {Reach = Reach} pays reached).granted ≡ reached.granted + reached.slot.ledger.window
  unfolding move
  moves-pays w b finished ended no_queue no_inbox spent =
      let n : queued reached.slot.queue ≡ 0 = ap queued no_queue in
      let m : waiting reached.inbox ≡ 0 = ap waiting no_inbox in
      let nb : queued_bytes reached.slot.queue ≡ 0 = ap queued_bytes no_queue in
      let mb : waiting_bytes reached.inbox ≡ 0 = ap waiting_bytes no_inbox in
      let held = balanced.held in
      let held_bytes = balanced.held_bytes in
      let sent = balanced.sent in
      let exact = balanced.exact (rw (finished, ended) refl) in
      let (all_due, half_due) = due-window reached.slot.ledger (omega arith) (omega arith) w in
      let (l, o, eq, p) =
        owed-Pays reached.acked reached.slot.ledger finished ended (grind arith) half_due in
      let credit = p.credit in rw eq (grind arith)
