-- ===== src/Input/Reader.antt =====
-- What the handler reads of its input (`WireInput`, src/plexus/input.rs). `decode` is a method's
-- reading of one item (serde, base64): a parameter, with the text of its refusal.
pub mod Order
use plexus_core.Base.{
  ℕ, ◌+◌, Text, Bool, true, false, not, Option, none, some, List, [], ◌∷◌, ◌++◌, if◌then◌else◌,
}
use plexus_core.Errors.{Result, ok, err}
use plexus_core.Call.{DuplexRefusal}
use plexus_core.Input.Ledger.{Ledger, frame_done, input_finished, abandon, refuse}
use plexus_core.Input.Table.{Items, Batch, items_len, items_next}

pub record Reading (J : Type 0) : Type 0 where
  pub seq : ℕ
  pub items : Items J
  pub count : ℕ
  pub bytes : ℕ
  pub raw : Bool

-- `rx` is the handler's channel: what the pipe has put in it, and whether the pipe holds its end.
pub record WireInput (J : Type 0) : Type 0 where
  pub rx : List (Batch J)
  pub rx_open : Bool
  pub cur : Option (Reading J)
  pub over : Bool
  pub refused : Bool

pub data Poll (T : Type 0) : Type 0 where
  pending : Poll T
  ready : Option T → Poll T

abbrev pub reading : {J : Type 0} → Batch J → Reading J
reading b = record {
  seq = b.seq;
  items = b.items;
  count = items_len b.items;
  bytes = b.bytes;
  raw = b.raw;
}

module _ {J T : Type 0} (decode : J → Bool → Result Text T) where
  -- What reading an item gives: the item, or the end of the call.
  abbrev pub read_item :
      Reading J → J → Items J → WireInput J → Ledger → WireInput J × Ledger × Poll T
  read_item r j rest w l = elim (decode j r.raw) [
    | ok x ↦ (record w { cur = some (record r { items = rest }) }, l, ready (some x))
    | err message ↦ (
      record w { cur = some (record r { items = rest }); over = true; refused = true },
      refuse (DuplexRefusal.invalid_input r.seq message) l,
      pending,
    )
  ]

  -- The loop with no frame in hand, over the frames that wait.
  unfoldable pub poll_rx : List (Batch J) → WireInput J → Ledger → WireInput J × Ledger × Poll T
  unfolding frame_done input_finished refuse items_len items_next
  poll_rx [] w l =
      if w.rx_open
      then (record w { rx = []; cur = none }, l, pending)
      else (record w { rx = []; cur = none; over = true }, input_finished l, ready none)
  poll_rx (b ∷ bs) w l =
      let later = poll_rx bs w (frame_done b.seq (items_len b.items) b.bytes l) in
      let (j, rest) = items_next b.items in
      elim j [ none ↦ later | some x ↦ read_item (reading b) x rest (record w { rx = bs }) l ]

  abbrev pub poll_cur : Option (Reading J) → WireInput J → Ledger → WireInput J × Ledger × Poll T
  poll_cur none w l = poll_rx w.rx w l
  poll_cur (some r) w l =
      let (j, rest) = items_next r.items in
      elim j [
        | none ↦ poll_rx w.rx w (frame_done r.seq r.count r.bytes l)
        | some x ↦ read_item r x rest w l
      ]

  unfoldable pub poll_item : WireInput J → Ledger → WireInput J × Ledger × Poll T
  unfolding poll_rx
  poll_item w l =
      if w.refused
      then (w, l, pending)
      else if w.over
      then (w, l, ready none)
      else poll_cur w.cur w l

-- `Drop` of `WireInput`: let go of before its end, an input is abandoned.
unfoldable pub drop_input : {J : Type 0} → WireInput J → Ledger → Ledger
unfolding abandon
drop_input w l = if not w.over then abandon l else l
