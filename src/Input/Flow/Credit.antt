-- ===== src/Input/Flow/Credit.antt =====
-- The gate, the handler and the pipe keep the balance.
use plexus_core.Base.{
  not, some, List, [], ◌∷◌, ◌≡◌, refl, arith, All, inl, inr, nat_eq, beq_self, if_cases, ap, sym,
}
use mathlib.Core.Path.{subst}
use plexus_core.Base.Word.{add64_exact, sub64_exact, sat_add64_exact}
use plexus_core.Errors.{Result, ok, err}
use plexus_core.Auth.{Gate}
use plexus_core.Call.{DuplexCall, InputFrame, DuplexRefusal}
use plexus_core.Duplex.{admit, grant_credit}
use plexus_core.Duplex.Admission.{admit-Takes, admit-Refuses}
use plexus_core.Input.Ledger.{Ledger, Owed, frame_done, owed, input_finished, due}
use plexus_core.Input.Ledger.Payment.{Pays, owed-cases}
use plexus_core.Input.Table.{Batch, items_len, Slot, end_slot, Delivered}
use plexus_core.Input.Flow.{Flow, admit_first, consume_first, paid, passed}
use plexus_core.Input.Flow.Balance.{
  queued, queued_bytes, waiting, waiting_bytes, IsPlain, waiting-append, waiting_bytes-append,
  IsBalanced, Fits,
}

module _ {A J : Type 0} where
  pub consume_first-IsBalanced :
      (bs : List (Batch J)) (f : Flow A J)
      → bs ≡ f.inbox
      → IsBalanced f
      → Fits f
      → IsBalanced (consume_first bs f)
  unfolding frame_done
  consume_first-IsBalanced [] f e b fit = b
  consume_first-IsBalanced (b ∷ bs) f e h fit =
      let ws : waiting (b ∷ bs) ≡ waiting f.inbox = ap waiting e in
      let wb : waiting_bytes (b ∷ bs) ≡ waiting_bytes f.inbox = ap waiting_bytes e in
      let x = sub64_exact f.slot.ledger.held_items (items_len b.items) in
      let y = sub64_exact f.slot.ledger.held_bytes b.bytes in
      let z = add64_exact f.slot.ledger.consumed (items_len b.items) in
      record {
        held = grind arith;
        held_bytes = grind arith;
        sent = grind arith;
        sent_bytes = grind arith;
        counted = h.counted;
        credit = h.credit;
        spent = h.spent;
        returned = grind arith;
        granted = h.granted;
        exact = h.exact;
        plain = h.plain;
      }

  paid-IsBalanced :
      (l : Ledger) (o : Owed) (f : Flow A J)
      → Pays f.acked f.slot.ledger l o
      → IsBalanced f
      → Fits (paid (l, some o) f)
      → IsBalanced (paid (l, some o) f)
  unfolding grant_credit due
  paid-IsBalanced l o f p h fit =
      let x = sub64_exact f.slot.ledger.consumed f.slot.ledger.returned in
      let y = sat_add64_exact f.call.credit o.credit in
      let n = p.noted in
      let c = p.credit in
      record {
        held = grind arith;
        held_bytes = grind arith;
        sent = grind arith;
        sent_bytes = grind arith;
        counted = h.counted;
        credit = grind arith;
        spent = grind arith;
        returned = grind arith;
        granted = grind arith;
        exact = λ over. let e = h.exact (grind arith) in grind arith;
        plain = h.plain;
      }

  pub pay-IsBalanced :
      (f : Flow A J)
      → IsBalanced f
      → Fits (paid (owed f.acked f.slot.ledger) f)
      → IsBalanced (paid (owed f.acked f.slot.ledger) f)
  pay-IsBalanced f h = elim (owed-cases f.acked f.slot.ledger) [
    | inl e ↦ subst (λ m. Fits (paid m f) → IsBalanced (paid m f)) (sym e) (λ _. h)
    | inr (l, o, e, p) ↦
        subst (λ m. Fits (paid m f) → IsBalanced (paid m f)) (sym e) (paid-IsBalanced l o f p h)
  ]

  pub end-IsBalanced :
      (f : Flow A J)
      → IsBalanced f
      → IsBalanced (record f { slot = (end_slot f.call.conn f.slot.next_seq f.slot).0 })
  unfolding end_slot
  end-IsBalanced f h =
      if_cases (λ (m : Slot J × Delivered). IsBalanced (record f { slot = m.0 })) (not f.slot.open_)
        (λ _. h)
        (λ _. rw (beq_self f.slot.next_seq) (record {
          held = h.held;
          held_bytes = h.held_bytes;
          sent = h.sent;
          sent_bytes = h.sent_bytes;
          counted = h.counted;
          credit = h.credit;
          spent = h.spent;
          returned = h.returned;
          granted = h.granted;
          exact = λ over. ground arith;
          plain = h.plain;
        }))

  pub finish-IsBalanced :
      (f : Flow A J)
      → IsBalanced f
      → IsBalanced (record f { slot = record f.slot { ledger = input_finished f.slot.ledger } })
  unfolding input_finished
  finish-IsBalanced f h = record {
    held = h.held;
    held_bytes = h.held_bytes;
    sent = h.sent;
    sent_bytes = h.sent_bytes;
    counted = h.counted;
    credit = h.credit;
    spent = h.spent;
    returned = h.returned;
    granted = h.granted;
    exact = λ over. cc;
    plain = h.plain;
  }

module _ {A Reach J : Type 0} (g : Gate A Reach) where
  passed-IsBalanced :
      (fr : InputFrame (Batch J)) (fs : List (InputFrame (Batch J))) (f : Flow A J)
      (m : DuplexCall A × Result DuplexRefusal (Unit {0}))
      → admit g f.call fr ≡ m
      → fr ∷ fs ≡ f.slot.queue
      → IsBalanced f
      → Fits f
      → IsBalanced (passed fr fs f m)
  passed-IsBalanced fr fs f (c, ok tt) is e h fit =
      let n : queued (fr ∷ fs) ≡ queued f.slot.queue = ap queued e in
      let m : queued_bytes (fr ∷ fs) ≡ queued_bytes f.slot.queue = ap queued_bytes e in
      let (plain, plains) = subst (All IsPlain) (sym e) h.plain in
      let (no_overrun, items_are, bytes_are) = plain in
      let x = waiting-append f.inbox fr.item in
      let y = waiting_bytes-append f.inbox fr.item in
      let takes = (admit-Takes g f.call fr c is).0 in
      let counts = takes.items in
      let credits = takes.credit in
      let z = sat_add64_exact f.call.items fr.items in
      record {
        held = grind arith;
        held_bytes = grind arith;
        sent = h.sent;
        sent_bytes = h.sent_bytes;
        counted = grind arith;
        credit = grind arith;
        spent = h.spent;
        returned = h.returned;
        granted = h.granted;
        exact = h.exact;
        plain = plains;
      }
  passed-IsBalanced fr fs f (c, err why) is e h fit =
      let refuses = admit-Refuses g f.call fr c why is in
      let counts = refuses.items in
      let credits = refuses.credit in
      record {
        held = h.held;
        held_bytes = h.held_bytes;
        sent = h.sent;
        sent_bytes = h.sent_bytes;
        counted = grind arith;
        credit = grind arith;
        spent = h.spent;
        returned = h.returned;
        granted = h.granted;
        exact = h.exact;
        plain = h.plain;
      }

  pub admit_first-IsBalanced :
      (fs : List (InputFrame (Batch J))) (f : Flow A J)
      → fs ≡ f.slot.queue
      → IsBalanced f
      → Fits f
      → IsBalanced (admit_first g fs f)
  admit_first-IsBalanced [] f e h fit = h
  admit_first-IsBalanced (fr ∷ fs) f e h fit =
      passed-IsBalanced fr fs f (admit g f.call fr) refl e h fit
