-- ===== src/Input/Tests.antt =====
-- A call's input with a window of four items.
use plexus_core.Base.{
  ℕ, ◌+◌, Text, codes, Bool, true, false, none, some, List, [], ◌∷◌, ◌≡◌, ◌≢◌, refl, arith, nat_eq,
}
use plexus_core.Base.Word.{add64, sub64, sat_add64}
use plexus_core.Errors.{Result, ok, err}
use plexus_core.Call.{DuplexRefusal, InputFrame}
use plexus_core.Duplex.{admit}
use plexus_core.Duplex.Tests.{grants, call}
use plexus_core.Input.Ledger.{new}
use plexus_core.Input.Table.{
  Items, one, many, Batch, Delivered, taken, dropped, refused, Slot, InputTable, arrive,
  arrive_slot, attach, detach, closed_kept, items_len,
}
use plexus_core.Input.Table
use plexus_core.Input.Table.Delivery.{SlotInOrder, arrive_slot-InOrder}
use plexus_core.Input.Frames.{take_binary, stray_binary}
use plexus_core.Input.Frames.Binary.{binary_frame, take_binary-binary_frame}
use plexus_core.Input.Reader.{WireInput, ready, poll_item}
use plexus_core.Input.Reader.Order.{AllRead, CurRead, poll_item-end}
use plexus_core.Input.Flow.{Flow, Move, sends, admits, consumes, pays, start, move, moves}
use plexus_core.Input.Flow.Obedience.{moves-obedient_taken, moves-obedient_admitted, moves-pays}

abbrev ns : Text
ns = codes "ring"

abbrev two : Items (List ℕ)
two = many ((1 ∷ []) ∷ (2 ∷ []) ∷ [])

abbrev slot : Slot (List ℕ)
slot = record { ns = ns; next_seq = 0; open_ = true; queue = []; ledger = new 4 64 }

abbrev table : InputTable (List ℕ)
table = attach 21 slot (Table.new 7)

arrive_slot-InOrder_example : SlotInOrder 0 (arrive_slot 7 0 2 2 false two slot)
arrive_slot-InOrder_example = arrive_slot-InOrder 0 7 0 2 2 false two slot (omega arith) refl

take_binary-binary_frame_example :
    take_binary (binary_frame 21 0 (9 ∷ 9 ∷ [])) table
    ≡ stray_binary (arrive 21 none 0 1 2 true (one (some (9 ∷ 9 ∷ []))) table)
take_binary-binary_frame_example =
    take_binary-binary_frame 21 0 (9 ∷ 9 ∷ []) table (omega arith) (omega arith)

abbrev ended : WireInput (List ℕ)
ended = record { rx = []; rx_open = false; cur = none; over = false; refused = false }

abbrev as_is : List ℕ → Bool → Result Text (List ℕ)
as_is j raw = ok j

reads_end : (poll_item as_is ended (new 4 64)).2 ≡ ready none
unfolding poll_item
reads_end = refl

poll_item-end_example :
    (false ≡ false)
    × (false ≡ false)
    × AllRead {J = List ℕ} []
    × CurRead {J = List ℕ} none
    × ((poll_item as_is ended (new 4 64)).0.over ≡ true)
    × ((poll_item as_is ended (new 4 64)).1.finished ≡ true)
poll_item-end_example = poll_item-end as_is ended (new 4 64) refl reads_end

-- The client sends all its credit in two frames; one is consumed.
abbrev steps : List (Move (Unit {0}) (Unit {0}) (List ℕ))
steps = sends 2 false two ∷ admits (grants 1) ∷ sends 2 false two ∷ consumes ∷ pays ∷ []

abbrev reached : Flow (Unit {0}) (List ℕ)
reached = moves steps (start ns call)

in_hand : (reached.sent ≡ 4) × ((reached.granted ≡ 6) × (reached.slot.ledger.held_items ≡ 2))
unfolding moves start add64 sub64 sat_add64
in_hand = (refl, (refl, refl))

moves-obedient_taken_example :
    (arrive_slot reached.call.conn reached.slot.next_seq 2 2 false two reached.slot).1 ≡ taken
unfolding moves start add64 sub64 sat_add64
moves-obedient_taken_example =
    moves-obedient_taken ns call refl refl steps (omega arith, omega arith) 2 false two refl
      (omega arith) (omega arith)

abbrev queued : InputFrame (Batch (List ℕ))
queued = record {
  from = 7;
  seq = 1;
  item = record { seq = 1; items = two; bytes = 2; raw = false };
  items = 2;
  bytes = 2;
  overrun = none;
}

moves-obedient_admitted_example :
    admit (grants 1) reached.call queued ≢ (call, err (DuplexRefusal.past_credit 1 4))
unfolding moves start add64 sub64 sat_add64
moves-obedient_admitted_example =
    moves-obedient_admitted ns call refl refl steps (omega arith, omega arith) (grants 1) queued []
      call 1 4 refl

-- All its credit sent and consumed, and nothing paid yet.
abbrev all_read : List (Move (Unit {0}) (Unit {0}) (List ℕ))
all_read =
    sends 2 false two
    ∷ admits (grants 1)
    ∷ sends 2 false two
    ∷ admits (grants 2)
    ∷ consumes
    ∷ consumes
    ∷ []

abbrev spent : Flow (Unit {0}) (List ℕ)
spent = moves all_read (start ns call)

moves-pays_example :
    (move {Reach = Unit {0}} pays spent).granted ≡ spent.granted + spent.slot.ledger.window
unfolding moves start add64 sub64 sat_add64
moves-pays_example =
    moves-pays ns call refl refl all_read (omega arith, omega arith) (omega arith) (omega arith)
      refl refl refl refl refl
