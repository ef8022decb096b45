-- ===== src/Input/Table.antt =====
-- `InputTable` (src/plexus/input.rs): a connection's open input halves, and what becomes of a
-- frame. The queue of a slot holds what its sender has sent and its call's gate has not taken.
pub mod Delivery
use plexus_core.Base.{
  ℕ, ◌+◌, ◌-◌, Text, codes, Bool, true, false, not, ◌&&◌, ◌||◌, Option, none, some, List, [], ◌∷◌,
  ◌++◌, length, any, if◌then◌else◌, ltb, leb, ◌==◌, nat_eq, text_eq,
}
use plexus_core.Base.Word.{add64, sub64}
use plexus_core.Base.Assoc.{Assoc, lookup, insert, remove}
use plexus_core.Call.{InputFrame, Overrun}
use plexus_core.Duplex
use plexus_core.Input.Ledger.{Ledger}

-- A frame's items: one, or many; `J` is an item's bytes.
pub data Items (J : Type 0) : Type 0 where
  one : Option J → Items J
  many : List J → Items J

pub record Batch (J : Type 0) : Type 0 where
  pub seq : ℕ
  pub items : Items J
  pub bytes : ℕ
  pub raw : Bool

-- Items::len and Items::next
unfoldable pub items_len : {J : Type 0} → Items J → ℕ
items_len (one none) = 0
items_len (one (some _)) = 1
items_len (many js) = length js

unfoldable pub items_next : {J : Type 0} → Items J → Option J × Items J
items_next (one o) = (o, one none)
items_next (many []) = (none, many [])
items_next (many (j ∷ js)) = (some j, many js)

pub data Delivered : Type 0 where
  taken dropped refused not_this_call malformed : Delivered

pub record Slot (J : Type 0) : Type 0 where
  pub ns : Text
  pub next_seq : ℕ
  pub open_ : Bool
  pub queue : List (InputFrame (Batch J))
  pub ledger : Ledger

pub record InputTable (J : Type 0) : Type 0 where
  pub conn : ℕ
  pub slots : Assoc ℕ (Slot J)
  pub closed : List ℕ
  pub open_ : ℕ
  pub strays : ℕ

abbrev pub closed_kept : ℕ
closed_kept = 256

unfoldable pub new : {J : Type 0} → ℕ → InputTable J
new conn = record { conn = conn; slots = []; closed = []; open_ = 0; strays = 0 }

unfoldable pub idle : {J : Type 0} → InputTable J → Bool
idle t = t.open_ == 0

abbrev pub empty_batch : {J : Type 0} → ℕ → Batch J
empty_batch seq = record { seq = seq; items = one none; bytes = 0; raw = false }

abbrev pub pop_front : List ℕ → List ℕ
pop_front [] = []
pop_front (x ∷ xs) = xs

abbrev pub remember : ℕ → List ℕ → List ℕ
remember sub closed =
    (if length closed == closed_kept then pop_front closed else closed) ++ sub ∷ []

module _ {J : Type 0} where
  -- The last frame that a refused half sends its call; nothing comes after it.
  unfoldable pub overrun_frame : (conn seq : ℕ) → Overrun → InputFrame (Batch J)
  overrun_frame conn seq o = record {
    from = conn;
    seq = seq;
    item = empty_batch seq;
    items = 0;
    bytes = 0;
    overrun = some o;
  }

  unfoldable pub shut : (conn seq : ℕ) → Overrun → Slot J → Slot J × Delivered
  unfolding overrun_frame
  shut conn seq o s =
      (record s { open_ = false; queue = s.queue ++ overrun_frame conn seq o ∷ [] }, refused)

  -- A frame in sequence, of `count` items: counted as held, and queued.
  unfoldable pub hold : (conn seq count bytes : ℕ) → Bool → Items J → Slot J → Slot J × Delivered
  unfolding add64
  hold conn seq count bytes raw items s = (
    record s {
      queue =
          s.queue
          ++ record {
            from = conn;
            seq = seq;
            item = record { seq = seq; items = items; bytes = bytes; raw = raw };
            items = count;
            bytes = bytes;
            overrun = none;
          }
            ∷ [];
      ledger = record s.ledger {
        held_items = add64 s.ledger.held_items count;
        held_bytes = add64 s.ledger.held_bytes bytes;
      };
    },
    taken,
  )

  abbrev pub numbered : Slot J → Slot J
  numbered s = record s { next_seq = add64 s.next_seq 1 }

  -- `arrive` at the slot that the frame names.
  unfoldable pub arrive_slot :
      (conn seq count bytes : ℕ) → Bool → Items J → Slot J → Slot J × Delivered
  unfolding shut hold
  arrive_slot conn seq count bytes raw items s =
      if not s.open_
      then (s, dropped)
      else if ltb seq s.next_seq
      then (s, dropped)
      else if ltb s.next_seq seq
      then shut conn seq (Overrun.sequence s.next_seq) s
      else if count == 0
      then shut conn seq Overrun.empty (numbered s)
      else if ltb s.ledger.window (add64 s.ledger.held_items count)
      then shut conn seq Overrun.credit (numbered s)
      else hold conn seq count bytes raw items (numbered s)

  -- `end` at the slot: its `seq` is the number of frames sent.
  unfoldable pub end_slot : (conn seq : ℕ) → Slot J → Slot J × Delivered
  unfolding shut
  end_slot conn seq s =
      if not s.open_
      then (s, dropped)
      else if seq == s.next_seq
      then (record s { open_ = false; ledger = record s.ledger { ended = true } }, taken)
      else shut conn seq (Overrun.sequence s.next_seq) s

  -- A frame for no open slot: a late one, or a stranger's.
  unfoldable pub gone : ℕ → InputTable J → Delivered
  gone sub t = if any (λ x. x == sub) t.closed then dropped else not_this_call

  -- The slot of `sub`, where a namespace is named only if it is the slot's.
  unfoldable pub named_slot : Option Text → Option (Slot J) → Option (Slot J)
  named_slot ns none = none
  named_slot none (some s) = some s
  named_slot (some ns) (some s) = if s.ns == ns then some s else none

  abbrev pub at_slot :
      ℕ → Option Text → (Slot J → Slot J × Delivered) → InputTable J → InputTable J × Delivered
  at_slot sub ns f t = elim (named_slot ns (lookup sub t.slots)) [
    | none ↦ (t, gone sub t)
    | some s ↦ let (s', delivered) = f s in (record t { slots = insert sub s' t.slots }, delivered)
  ]

  unfoldable pub arrive :
      (sub : ℕ) (ns : Option Text) (seq count bytes : ℕ)
      → Bool
      → Items J
      → InputTable J
      → InputTable J × Delivered
  unfolding arrive_slot gone named_slot lookup insert
  arrive sub ns seq count bytes raw items t =
      at_slot sub ns (arrive_slot t.conn seq count bytes raw items) t

  -- `InputTable::end`, of params that read as `EndParams`.
  unfoldable pub end_ : (sub : ℕ) (ns : Text) (seq : ℕ) → InputTable J → InputTable J × Delivered
  unfolding end_slot gone named_slot lookup insert
  end_ sub ns seq t = at_slot sub (some ns) (end_slot t.conn seq) t

  -- A call's slot in the table, and its end (`Drop` of `SlotGuard`).
  unfoldable pub attach : (sub : ℕ) → Slot J → InputTable J → InputTable J
  unfolding insert add64
  attach sub s t = record t { slots = insert sub s t.slots; open_ = add64 t.open_ 1 }

  unfoldable pub detach : (sub : ℕ) → InputTable J → InputTable J
  unfolding remove sub64
  detach sub t = record t {
    slots = remove sub t.slots;
    closed = remember sub t.closed;
    open_ = sub64 t.open_ 1;
  }

  -- A notification that no one answers: what it named in vain is counted.
  abbrev pub count_stray : InputTable J × Delivered → InputTable J
  count_stray (t, not_this_call) = record t { strays = add64 t.strays 1 }
  count_stray (t, malformed) = record t { strays = add64 t.strays 1 }
  count_stray (t, taken) = t
  count_stray (t, dropped) = t
  count_stray (t, refused) = t
