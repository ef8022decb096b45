-- ===== src/Input/Flow/Balance.antt =====
-- The invariant that binds the counters of a call's input together.
use plexus_core.Base.{
  ℕ, ◌+◌, ◌≤◌, ◌<◌, false, ◌||◌, none, List, [], ◌∷◌, ◌++◌, ◌≡◌, arith, All, nat_eq,
}
use plexus_core.Base.Word.{u64_mod}
use plexus_core.Call.{InputFrame}
use plexus_core.Input.Table.{Batch, items_len}
use plexus_core.Input.Flow.{Flow}

module _ {J : Type 0} where
  -- The items and the bytes of frames and of batches that wait.
  abbrev pub queued : List (InputFrame (Batch J)) → ℕ
  queued [] = 0
  queued (f ∷ fs) = f.items + queued fs

  abbrev pub queued_bytes : List (InputFrame (Batch J)) → ℕ
  queued_bytes [] = 0
  queued_bytes (f ∷ fs) = f.bytes + queued_bytes fs

  abbrev pub waiting : List (Batch J) → ℕ
  waiting [] = 0
  waiting (b ∷ bs) = items_len b.items + waiting bs

  abbrev pub waiting_bytes : List (Batch J) → ℕ
  waiting_bytes [] = 0
  waiting_bytes (b ∷ bs) = b.bytes + waiting_bytes bs

  -- A frame of an obedient client: no overrun, and its counts are those of its items.
  abbrev pub IsPlain : InputFrame (Batch J) → Type 0
  IsPlain f = (f.overrun ≡ none) × (f.items ≡ items_len f.item.items) × (f.bytes ≡ f.item.bytes)

  pub queued-append :
      (fs : List (InputFrame (Batch J))) (f : InputFrame (Batch J))
      → queued (fs ++ f ∷ []) ≡ queued fs + f.items
  queued-append [] f = omega arith
  queued-append (g ∷ fs) f = omega (arith, queued-append fs f)

  pub queued_bytes-append :
      (fs : List (InputFrame (Batch J))) (f : InputFrame (Batch J))
      → queued_bytes (fs ++ f ∷ []) ≡ queued_bytes fs + f.bytes
  queued_bytes-append [] f = omega arith
  queued_bytes-append (g ∷ fs) f = omega (arith, queued_bytes-append fs f)

  pub waiting-append :
      (bs : List (Batch J)) (b : Batch J) → waiting (bs ++ b ∷ []) ≡ waiting bs + items_len b.items
  waiting-append [] b = omega arith
  waiting-append (c ∷ bs) b = omega (arith, waiting-append bs b)

  pub waiting_bytes-append :
      (bs : List (Batch J)) (b : Batch J)
      → waiting_bytes (bs ++ b ∷ []) ≡ waiting_bytes bs + b.bytes
  waiting_bytes-append [] b = omega arith
  waiting_bytes-append (c ∷ bs) b = omega (arith, waiting_bytes-append bs b)

-- What is sent is consumed, held by the handler's channel, or queued for the gate; and the credit
-- granted is the window and what was consumed and returned.
pub record IsBalanced {A J : Type 0} (f : Flow A J) : Type 0 where
  pub held : f.slot.ledger.held_items ≡ queued f.slot.queue + waiting f.inbox
  pub held_bytes : f.slot.ledger.held_bytes ≡ queued_bytes f.slot.queue + waiting_bytes f.inbox
  pub sent : f.slot.ledger.consumed + f.slot.ledger.held_items ≡ f.sent
  pub sent_bytes : f.slot.ledger.held_bytes ≤ f.sent_bytes
  pub counted : f.call.items + queued f.slot.queue ≡ f.sent
  pub credit : f.call.credit ≡ f.granted
  pub spent : f.sent ≤ f.granted
  pub returned : f.slot.ledger.returned ≤ f.slot.ledger.consumed
  pub granted : f.granted ≤ f.slot.ledger.window + f.slot.ledger.returned
  pub exact :
      (f.slot.ledger.finished || f.slot.ledger.ended) ≡ false
      → f.granted ≡ f.slot.ledger.window + f.slot.ledger.returned
  pub plain : All IsPlain f.slot.queue

module _ {A J : Type 0} where
  -- The numbers that a run may reach.
  abbrev pub Fits : Flow A J → Type 0
  Fits f = (f.granted + f.slot.ledger.window < u64_mod) × (f.sent_bytes < u64_mod)
