-- ===== src/Pending.antt =====
-- The registry of questions that wait for an answer (src/plexus/bidirectional/registry.rs), as its
-- lock orders what is done to it. A oneshot sender is a name `S`; what the world knows of it, whether
-- its receiver is there still, is a parameter of the answer. What is sent is kept in order.
pub mod Laws
mod Tests
use plexus_core.Base.{
  ℕ, Text, Bool, true, false, not, Option, none, some, List, [], ◌∷◌, ◌++◌, if◌then◌else◌, ◌==◌,
  nat_eq, text_eq, length,
}
use plexus_core.Base.Assoc.{Assoc, lookup, insert, remove}
use plexus_core.Errors.{Result, ok, err}

pub data BidirError : Type 0 where
  not_supported : BidirError
  timeout : (ms : ℕ) → BidirError
  cancelled : BidirError
  type_mismatch : (expected got : Text) → BidirError
  serialization : Text → BidirError
  transport : Text → BidirError
  unknown_request : BidirError
  channel_closed : BidirError
  not_this_call : BidirError

pub record Pending (S : Type 0) : Type 0 where
  pub sender : S
  pub asker : Option ℕ

pub record Registry (S V : Type 0) : Type 0 where
  pub pending : Assoc Text (Pending S)
  pub sent : List (S × V)

abbrev pub sender_of : {S : Type 0} → Option (Pending S) → Option S
sender_of none = none
sender_of (some p) = some p.sender

-- `Some(Pending { asker: Some(a), .. }) if from != Some(*a)`
abbrev pub is_from : (asker : ℕ) → Option ℕ → Bool
is_from a none = false
is_from a (some c) = c == a

abbrev pub is_refused : Option ℕ → Option ℕ → Bool
is_refused none from = false
is_refused (some a) from = not (is_from a from)

module _ {S V : Type 0} where
  unfoldable pub register_pending_request : Text → S → Registry S V → Registry S V
  unfolding insert
  register_pending_request id sender r = record r {
    pending = insert id (record { sender = sender; asker = none }) r.pending;
  }

  -- The first binding holds.
  abbrev pub bind_found : Text → ℕ → Option (Pending S) → Registry S V → Registry S V × Bool
  bind_found id connection none r = (r, false)
  bind_found id connection (some p) r = elim p.asker [
    | none ↦
        (record r { pending = insert id (record p { asker = some connection }) r.pending }, true)
    | some _ ↦ (r, false)
  ]

  unfoldable pub bind_asker : Text → ℕ → Registry S V → Registry S V × Bool
  unfolding lookup insert
  bind_asker id connection r = bind_found id connection (lookup id r.pending) r

  unfoldable pub unregister_pending_request : Text → Registry S V → Registry S V × Option S
  unfolding lookup remove
  unregister_pending_request id r =
      (record r { pending = remove id r.pending }, sender_of (lookup id r.pending))

  abbrev pub send :
      (alive : S → Bool) → S → V → Registry S V → Registry S V × Result BidirError (Unit {0})
  send alive s v r =
      if alive s
      then (record r { sent = r.sent ++ (s, v) ∷ [] }, ok tt)
      else (r, err BidirError.channel_closed)

  abbrev pub answer_found :
      (alive : S → Bool)
      → Text
      → Option ℕ
      → V
      → Option (Pending S)
      → Registry S V
      → Registry S V × Result BidirError (Unit {0})
  answer_found alive id from v none r = (r, err BidirError.unknown_request)
  answer_found alive id from v (some p) r =
      if is_refused p.asker from
      then (r, err BidirError.not_this_call)
      else send alive p.sender v (record r { pending = remove id r.pending })

  unfoldable pub answer_pending :
      (alive : S → Bool)
      → Text
      → Option ℕ
      → V
      → Registry S V
      → Registry S V × Result BidirError (Unit {0})
  unfolding lookup remove
  answer_pending alive id from v r = answer_found alive id from v (lookup id r.pending) r

  unfoldable pub handle_pending_response :
      (alive : S → Bool) → Text → V → Registry S V → Registry S V × Result BidirError (Unit {0})
  unfolding answer_pending
  handle_pending_response alive id v r = answer_pending alive id none v r

  unfoldable pub pending_count : Registry S V → ℕ
  pending_count r = length r.pending

abbrev pub is_some {ℓ} : {A : Type ℓ} → Option A → Bool
is_some none = false
is_some (some _) = true

unfoldable pub is_request_pending : {S V : Type 0} → Text → Registry S V → Bool
unfolding lookup
is_request_pending id r = is_some (lookup id r.pending)

-- What anyone does to the registry.
pub data Act (S V : Type 0) : Type 0 where
  registers : Text → S → Act S V
  binds : Text → ℕ → Act S V
  unregisters : Text → Act S V
  answers : (alive : S → Bool) → Text → Option ℕ → V → Act S V

module _ {S V : Type 0} where
  unfoldable pub act : Act S V → Registry S V → Registry S V
  unfolding register_pending_request bind_asker unregister_pending_request answer_pending
  act (registers id s) r = register_pending_request id s r
  act (binds id c) r = (bind_asker id c r).0
  act (unregisters id) r = (unregister_pending_request id r).0
  act (answers alive id from v) r = (answer_pending alive id from v r).0

  unfoldable pub acts : List (Act S V) → Registry S V → Registry S V
  unfolding act
  acts [] r = r
  acts (a ∷ rest) r = acts rest (act a r)
