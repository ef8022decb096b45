-- ===== src/Pipe.antt =====
-- `run_duplex` (src/plexus/wire.rs): the loop that pipes a call with an input half, one turn of its
-- `select!` at a time. What the other parts did to the ledger since is part of a turn, and `lasts`
-- is how many more frames the socket takes.
pub mod Saying
pub mod Order
mod Tests
use plexus_core.Base.{
  ℕ, suc, Text, codes, Bool, true, false, not, Option, none, some, List, [], ◌∷◌, ◌-◌,
  if◌then◌else◌, ◌==◌, ◌&&◌, ltb, nat_eq,
}
use plexus_core.Errors.{Result, ok, err, ◌>>=◌}
use plexus_core.Call.{DuplexRefusal, DuplexRefusalCode, kind}
use plexus_core.Input.Ledger.{Ledger, Owed, owed, take_refusal, last_done}

-- PlexusStreamItem, as the pipe tells them apart.
pub data Item (J : Type 0) : Type 0 where
  request : (request_id : Text) → J → Item J
  done : J → Item J
  error : J → Item J
  other : J → Item J

pub data Said (J : Type 0) : Type 0 where
  credit : ℕ → Said J
  ack : ℕ → Said J
  input_closed : (reason : Text) → (acked : Option ℕ) → Said J
  item : Item J → Said J
  refused_item : DuplexRefusal → Said J
  failed_item : J → Said J

-- What wakes the loop: the client's leaving, the gate's next (a batch, a refusal, its end), the
-- ledger, the route's error, and the method's next item, none at its end.
pub data Event (J : Type 0) : Type 0 where
  client_left : Event J
  batch : Event J
  gate_refused : DuplexRefusal → Event J
  gate_ended : Event J
  woken : Event J
  route_failed : J → Event J
  output : Option (Item J) → Event J

-- The loop's variables: what it said, the newest first, the batches that it handed to the handler,
-- the credit that it granted and the questions that it bound.
pub record Pipe (J : Type 0) : Type 0 where
  pub ledger : Ledger
  pub inbox : Bool
  pub slot : Bool
  pub acked : ℕ
  pub handed : ℕ
  pub granted : List ℕ
  pub asked : List Text
  pub said : List (Said J)
  pub lasts : ℕ

module _ {J : Type 0} where
  -- An error is the end of the loop: the socket is gone, or there is nothing more to say.
  unfoldable pub say : Said J → Pipe J → Result (Pipe J) (Pipe J)
  say m p = if p.lasts == 0 then err p else ok (record p { said = m ∷ p.said; lasts = p.lasts - 1 })

  -- `slot.take().is_some() && !ledger.client_ended()`
  unfoldable pub close_slot : Text → Pipe J → Result (Pipe J) (Pipe J)
  unfolding say last_done
  close_slot reason p =
      let taken = record p { slot = false } in
      if p.slot
      then (if p.ledger.ended
          then ok taken
          else say (input_closed reason (last_done p.ledger)) taken)
      else ok p

  abbrev pub say_ack : Option ℕ → Pipe J → Result (Pipe J) (Pipe J)
  say_ack none p = ok p
  say_ack (some seq) p = say (ack seq) p

  unfoldable pub say_credit : ℕ → Pipe J → Result (Pipe J) (Pipe J)
  unfolding say
  say_credit n p = if ltb 0 n then say (credit n) (record p { granted = n ∷ p.granted }) else ok p

  -- What the ledger owes.
  unfoldable pub pay : Ledger × Option Owed → Pipe J → Result (Pipe J) (Pipe J)
  unfolding say say_credit
  pay (l, none) p = ok (record p { ledger = l })
  pay (l, some o) p = say_ack o.ack (record p { ledger = l }) >>= λ p'.
      say_credit o.credit (record p' { acked = o.done })

  unfoldable pub end_with : Said J → Pipe J → Result (Pipe J) (Pipe J)
  unfolding say
  end_with m p = say m p >>= err

  -- The handler let go of its input.
  unfoldable pub let_go : Pipe J → Result (Pipe J) (Pipe J)
  unfolding say last_done
  let_go p =
      let gone = record p { slot = false; inbox = false } in
      if p.ledger.abandoned && (p.slot && not p.ledger.ended)
      then say (input_closed (codes "method_ended") (last_done p.ledger)) gone
      else ok p

  -- The method's item, where this turn has one.
  unfoldable pub say_item : Option (Option (Item J)) → Pipe J → Result (Pipe J) (Pipe J)
  unfolding say close_slot
  say_item none p = ok p
  say_item (some none) p = err p
  say_item (some (some (request id j))) p =
      say (item (request id j)) (record p { asked = id ∷ p.asked })
  say_item (some (some (done j))) p =
      close_slot (codes "method_ended") (record p { inbox = false }) >>= say (item (done j))
  say_item (some (some (error j))) p =
      close_slot (codes "method_ended") (record p { inbox = false }) >>= say (item (error j))
  say_item (some (some (other j))) p = say (item (other j)) p

module _ {J : Type 0} (as_str : DuplexRefusalCode → Text) where
  unfoldable pub say_refused : DuplexRefusal → Pipe J → Result (Pipe J) (Pipe J)
  unfolding close_slot end_with kind
  say_refused why p = close_slot (kind as_str why) p >>= end_with (refused_item why)

  -- A turn, what woke it looked at: its item, where there is one, and its refusal.
  unfoldable pub settle :
      Option (Option (Item J)) → Option DuplexRefusal → Pipe J → Result (Pipe J) (Pipe J)
  unfolding pay owed let_go say_item say_refused
  settle it (some why) p = pay (owed p.acked p.ledger) p >>= say_refused why
  settle it none p = pay (owed p.acked p.ledger) p >>= λ p'. let_go p' >>= say_item it

  -- The refusal that the reader left, taken.
  unfoldable pub settle_taken : Option (Option (Item J)) → Pipe J → Result (Pipe J) (Pipe J)
  unfolding settle take_refusal
  settle_taken it p =
      let (l, refused) = take_refusal p.ledger in settle it refused (record p { ledger = l })

  unfoldable pub turn : Event J → Pipe J → Result (Pipe J) (Pipe J)
  unfolding settle_taken settle close_slot end_with
  turn client_left p = err p
  turn batch p =
      let next = settle_taken none (record p { handed = suc p.handed }) in
      if p.inbox then next else ok p
  turn (gate_refused why) p = let next = settle none (some why) p in if p.inbox then next else ok p
  turn gate_ended p =
      let next = settle_taken none (record p { inbox = false }) in if p.inbox then next else ok p
  turn woken p = settle_taken none p
  turn (route_failed j) p = close_slot (codes "method_ended") p >>= end_with (failed_item j)
  turn (output it) p = settle_taken (some it) p

  -- The turns, each after what the others did to the ledger.
  unfoldable pub run : List ((Ledger → Ledger) × Event J) → Pipe J → Pipe J
  unfolding turn
  run [] p = p
  run ((others, e) ∷ es) p = elim (turn e (record p { ledger = others p.ledger })) [
    | err p' ↦ p'
    | ok p' ↦ run es p'
  ]

  abbrev pub go_on : List ((Ledger → Ledger) × Event J) → Result (Pipe J) (Pipe J) → Pipe J
  go_on es (ok p) = run es p
  go_on es (err p) = p

  -- The first frame of the input half is the first credit.
  unfoldable pub run_duplex : List ((Ledger → Ledger) × Event J) → Ledger → (lasts : ℕ) → Pipe J
  unfolding say run
  run_duplex es l lasts =
      let start : Pipe J = record {
        ledger = l;
        inbox = true;
        slot = true;
        acked = 0;
        handed = 0;
        granted = [];
        asked = [];
        said = [];
        lasts = lasts;
      } in
      go_on es (say (credit l.window) start)
