-- ===== src/Input/Flow.antt =====
-- A call's input from its client to its handler and the credit that comes back: the reader
-- (`arrive`), the gate (`admit`), the handler (`frame_done`) and the pipe (`owed`, and `grant_credit`
-- as `run_duplex` of src/plexus/wire.rs calls it) move in any order.
pub mod Balance
pub mod Sending
pub mod Credit
pub mod Obedience
use plexus_core.Base.{
  ℕ, ◌+◌, ◌≤◌, Text, Bool, true, false, not, ◌&&◌, Option, none, some, List, [], ◌∷◌, ◌++◌,
  if◌then◌else◌, ltb, leb,
}
use plexus_core.Errors.{Result, ok, err}
use plexus_core.Auth.{Gate}
use plexus_core.Call.{DuplexCall, DuplexRefusal, InputFrame}
use plexus_core.Duplex.{admit, grant_credit}
use plexus_core.Input.Ledger.{Ledger, Owed, new, frame_done, owed, input_finished}
use plexus_core.Input.Table.{Items, Batch, items_len, Slot, arrive_slot, end_slot}

-- The three last fields count what the client knows: the items and bytes that it has sent, and the
-- credit that it was told of, the window first.
pub record Flow (A J : Type 0) : Type 0 where
  pub slot : Slot J
  pub call : DuplexCall A
  pub inbox : List (Batch J)
  pub acked : ℕ
  pub sent : ℕ
  pub sent_bytes : ℕ
  pub granted : ℕ

-- What `Seam::open` builds around a call that the gate admitted.
unfoldable pub start : {A J : Type 0} → Text → DuplexCall A → Flow A J
unfolding new
start ns c = record {
  slot = record {
    ns = ns;
    next_seq = 0;
    open_ = true;
    queue = [];
    ledger = new c.ceiling.credit c.ceiling.max_buffered;
  };
  call = c;
  inbox = [];
  acked = 0;
  sent = 0;
  sent_bytes = 0;
  granted = c.ceiling.credit;
}

pub data Move (A Reach J : Type 0) : Type 0 where
  sends : (bytes : ℕ) (raw : Bool) (items : Items J) → Move A Reach J
  admits : Gate A Reach → Move A Reach J
  consumes : Move A Reach J
  pays : Move A Reach J
  ends : Move A Reach J
  finishes : Move A Reach J

module _ {A J : Type 0} where
  -- The next frame in sequence, from a client that keeps to its credit.
  abbrev pub send : ℕ → Bool → Items J → Flow A J → Flow A J
  send bytes raw items f =
      if f.slot.open_ && ltb 0 (items_len items) && leb (f.sent + items_len items) f.granted
      then record f {
        slot = (arrive_slot f.call.conn f.slot.next_seq (items_len items) bytes raw items f.slot).0;
        sent = f.sent + items_len items;
        sent_bytes = f.sent_bytes + bytes;
      }
      else f

  abbrev pub consume_first : List (Batch J) → Flow A J → Flow A J
  consume_first [] f = f
  consume_first (b ∷ bs) f = record f {
    slot = record f.slot { ledger = frame_done b.seq (items_len b.items) b.bytes f.slot.ledger };
    inbox = bs;
  }

  abbrev pub paid : Ledger × Option Owed → Flow A J → Flow A J
  paid (l, none) f = record f { slot = record f.slot { ledger = l } }
  paid (l, some o) f = record f {
    slot = record f.slot { ledger = l };
    call = grant_credit o.credit f.call;
    acked = o.done;
    granted = f.granted + o.credit;
  }

  -- What is refused stays: the call is over.
  abbrev pub passed :
      InputFrame (Batch J)
      → List (InputFrame (Batch J))
      → Flow A J
      → DuplexCall A × Result DuplexRefusal (Unit {0})
      → Flow A J
  passed fr rest f (c, ok _) = record f {
    slot = record f.slot { queue = rest };
    call = c;
    inbox = f.inbox ++ fr.item ∷ [];
  }
  passed fr rest f (c, err _) = record f { call = c }

module _ {A Reach J : Type 0} where
  abbrev pub admit_first : Gate A Reach → List (InputFrame (Batch J)) → Flow A J → Flow A J
  admit_first g [] f = f
  admit_first g (fr ∷ rest) f = passed fr rest f (admit g f.call fr)

  unfoldable pub move : Move A Reach J → Flow A J → Flow A J
  unfolding items_len arrive_slot end_slot admit frame_done owed grant_credit input_finished
  move (sends bytes raw items) f = send bytes raw items f
  move (admits g) f = admit_first g f.slot.queue f
  move consumes f = consume_first f.inbox f
  move pays f = paid (owed f.acked f.slot.ledger) f
  move ends f = record f { slot = (end_slot f.call.conn f.slot.next_seq f.slot).0 }
  move finishes f = record f { slot = record f.slot { ledger = input_finished f.slot.ledger } }

  unfoldable pub moves : List (Move A Reach J) → Flow A J → Flow A J
  unfolding move
  moves [] f = f
  moves (m ∷ ms) f = moves ms (move m f)
