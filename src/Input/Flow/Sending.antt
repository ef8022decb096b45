-- ===== src/Input/Flow/Sending.antt =====
-- A client that keeps to its credit is in balance after it sends (`arrive`, src/plexus/input.rs).
use plexus_core.Base.{
  ℕ, ◌+◌, ◌≤◌, ◌<◌, Bool, true, ◌&&◌, none, [], ◌∷◌, ◌++◌, ltb, leb, ◌≡◌, refl, arith, All-concat,
  nat_eq, if_cases,
}
use plexus_core.Base.Word.{add64, add64_exact}
use plexus_core.Call.{InputFrame}
use plexus_core.Input.Table.{Items, Batch, items_len, Slot, arrive_slot, taken, Delivered}
use plexus_core.Input.Flow.{Flow, send}
use plexus_core.Input.Flow.Balance.{IsPlain, queued-append, queued_bytes-append, IsBalanced, Fits}

module _ {A J : Type 0} where
  module _ (bytes : ℕ) (raw : Bool) (items : Items J) (f : Flow A J) where
    pub send-taken :
        IsBalanced f
        → Fits f
        → f.slot.open_ ≡ true
        → 0 < items_len items
        → f.sent + items_len items ≤ f.granted
        → (arrive_slot f.call.conn f.slot.next_seq (items_len items) bytes raw items f.slot).1
          ≡ taken
    unfolding arrive_slot add64
    send-taken b fit o pos le = ground arith

    -- A frame that is taken is queued as it came, and counted as held.
    abbrev arrived : Slot J × Delivered
    arrived = arrive_slot f.call.conn f.slot.next_seq (items_len items) bytes raw items f.slot

    abbrev sent_frame : InputFrame (Batch J)
    sent_frame = record {
      from = f.call.conn;
      seq = f.slot.next_seq;
      item = record { seq = f.slot.next_seq; items = items; bytes = bytes; raw = raw };
      items = items_len items;
      bytes = bytes;
      overrun = none;
    }

    taken-queue : arrived.1 ≡ taken → arrived.0.queue ≡ f.slot.queue ++ sent_frame ∷ []
    unfolding arrive_slot
    taken-queue h = ground arith

    taken-held :
        arrived.1 ≡ taken
        → arrived.0.ledger ≡ record f.slot.ledger {
          held_items = add64 f.slot.ledger.held_items (items_len items);
          held_bytes = add64 f.slot.ledger.held_bytes bytes;
        }
    unfolding arrive_slot
    taken-held h = ground arith

    arrived-window : arrived.0.ledger.window ≡ f.slot.ledger.window
    unfolding arrive_slot
    arrived-window = ground arith

    abbrev after_send : Flow A J
    after_send = record f {
      slot = arrived.0;
      sent = f.sent + items_len items;
      sent_bytes = f.sent_bytes + bytes;
    }

    taken-IsBalanced :
        arrived.1 ≡ taken
        → f.sent + items_len items ≤ f.granted
        → IsBalanced f
        → Fits after_send
        → IsBalanced after_send
    taken-IsBalanced t le b fit =
        let qs = taken-queue t in
        let ls = taken-held t in
        let n = queued-append f.slot.queue sent_frame in
        let m = queued_bytes-append f.slot.queue sent_frame in
        let x = add64_exact f.slot.ledger.held_items (items_len items) in
        let y = add64_exact f.slot.ledger.held_bytes bytes in
        record {
          held = grind arith;
          held_bytes = grind arith;
          sent = grind arith;
          sent_bytes = grind arith;
          counted = grind arith;
          credit = grind arith;
          spent = grind arith;
          returned = grind arith;
          granted = grind arith;
          exact = λ over. let e = b.exact (grind arith) in grind arith;
          plain =
              rw qs (
                All-concat IsPlain f.slot.queue (sent_frame ∷ []) b.plain ((refl, refl, refl), tt));
        }

    pub send-IsBalanced :
        IsBalanced f → Fits (send bytes raw items f) → IsBalanced (send bytes raw items f)
    send-IsBalanced b =
        if_cases (λ g. Fits g → IsBalanced g)
          (f.slot.open_ && ltb 0 (items_len items) && leb (f.sent + items_len items) f.granted)
          (λ h fit.
            let (lo, hi) = fit in
            let w = arrived-window in
            taken-IsBalanced
              (send-taken b ((omega arith, omega arith)) (ground arith) (ground arith)
                (ground arith))
              (ground arith) b fit)
          (λ h fit. b)
