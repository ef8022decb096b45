-- ===== src/Input/Ledger.antt =====
-- `Ledger` (src/plexus/input.rs): one call's counters, as its reader, its handler and its pipe
-- share them. `woken` is the permit that `Notify` keeps for the pipe.
pub mod Payment
use plexus_core.Base.{
  ℕ, ◌+◌, ◌-◌, ◌/◌, ◌≤◌, max, Bool, true, false, not, ◌&&◌, ◌||◌, Option, none, some, if◌then◌else◌,
  ltb, leb,
}
use plexus_core.Base.Word.{add64, sub64}
use plexus_core.Call.{DuplexRefusal}

pub record Ledger : Type 0 where
  pub window : ℕ
  pub max_buffered : ℕ
  pub held_items : ℕ
  pub held_bytes : ℕ
  pub done : ℕ
  pub consumed : ℕ
  pub returned : ℕ
  pub ended : Bool
  pub finished : Bool
  pub abandoned : Bool
  pub refusal : Option DuplexRefusal
  pub woken : Bool

unfoldable pub new : (window max_buffered : ℕ) → Ledger
new w b = record {
  window = w;
  max_buffered = b;
  held_items = 0;
  held_bytes = 0;
  done = 0;
  consumed = 0;
  returned = 0;
  ended = false;
  finished = false;
  abandoned = false;
  refusal = none;
  woken = false;
}

unfoldable pub half : Ledger → ℕ
half l = max (l.window / 2) 1

-- Frame `seq` is consumed.
unfoldable pub frame_done : (seq items bytes : ℕ) → Ledger → Ledger
unfolding half add64 sub64
frame_done seq items bytes l = record l {
  held_items = sub64 l.held_items items;
  held_bytes = sub64 l.held_bytes bytes;
  done = add64 seq 1;
  consumed = add64 l.consumed items;
  woken = l.woken || leb (half l) (sub64 (add64 l.consumed items) l.returned);
}

unfoldable pub input_finished : Ledger → Ledger
input_finished l = record l { finished = true; woken = true }

unfoldable pub abandon : Ledger → Ledger
abandon l = record l { abandoned = true; woken = true }

-- `refused` and `refusal` are one field here: the flag is set after the refusal, and read first.
unfoldable pub refuse : DuplexRefusal → Ledger → Ledger
refuse why l = record l { refusal = some why; woken = true }

unfoldable pub take_refusal : Ledger → Ledger × Option DuplexRefusal
take_refusal l = (record l { refusal = none }, l.refusal)

pub record Owed : Type 0 where
  pub ack : Option ℕ
  pub done : ℕ
  pub credit : ℕ

unfoldable pub due : Ledger → ℕ
unfolding sub64
due l = sub64 l.consumed l.returned

-- What the pipe owes the client, and the ledger with the grant noted.
unfoldable pub owed : (acked : ℕ) → Ledger → Ledger × Option Owed
unfolding half due
owed acked l =
    if not l.finished && (not l.ended && leb l.max_buffered l.held_bytes)
    then (l, none)
    else if ltb (due l) (half l) && not (l.finished && ltb acked l.done)
    then (l, none)
    else (
      record l { returned = l.consumed },
      some (record {
        ack = if ltb acked l.done then some (l.done - 1) else none;
        done = l.done;
        credit = if l.finished || l.ended then 0 else due l;
      }),
    )

-- The last frame consumed whole.
unfoldable pub last_done : Ledger → Option ℕ
last_done l = if leb 1 l.done then some (l.done - 1) else none
