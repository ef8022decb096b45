-- ===== src/Channel.antt =====
-- `BidirChannel` (src/plexus/bidirectional/channel.rs): a server asks its client in the middle of a
-- call, over the registry of Pending or over a map of its own. What others do while a request waits,
-- how the wait ends and whether the stream takes the question are arguments; serde is a parameter.
pub mod Laws
pub mod Standard
mod Tests
use plexus_core.Base.{
  ℕ, Text, codes, Bool, Option, none, some, List, [], ◌∷◌, ◌++◌, if◌then◌else◌, ◌%◌, text_eq,
}
use plexus_core.Base.Word.{u64_mod}
use plexus_core.Base.Assoc.{Assoc, lookup, insert, remove}
use plexus_core.Errors.{Result, ok, err, ◌>>=◌}
use plexus_core.Json.{Value}
use plexus_core.Pending.{BidirError, Registry, register_pending_request, unregister_pending_request}

-- PlexusStreamItem::Request
pub record Question : Type 0 where
  pub request_id : Text
  pub request_data : Value
  pub timeout_ms : ℕ

-- The fields that are read, but for the two that others see: the stream and the map.
pub record BidirChannel : Type 0 where
  pub bidirectional_supported : Bool
  pub use_global_registry : Bool
  pub provenance : List Text
  pub plexus_hash : Text

unfoldable pub new : Bool → List Text → Text → BidirChannel
new supported provenance hash = record {
  bidirectional_supported = supported;
  use_global_registry = Bool.true;
  provenance = provenance;
  plexus_hash = hash;
}

unfoldable pub new_direct : Bool → List Text → Text → BidirChannel
new_direct supported provenance hash = record {
  bidirectional_supported = supported;
  use_global_registry = Bool.false;
  provenance = provenance;
  plexus_hash = hash;
}

-- What a channel shares: the registry of the process, the map of the channel, the questions in its
-- stream, and what was sent to senders of the map.
pub record World (S Resp : Type 0) : Type 0 where
  pub registry : Registry S Value
  pub pending : Assoc Text S
  pub stream : List Question
  pub sent : List (S × Resp)

-- How `stream_tx.send` ends, and how the wait for the answer does. A future that is dropped ends
-- with no result.
pub data Sending : Type 0 where
  taken : Sending
  failed : (why : Text) → Sending
  dropped_sending : Sending

pub data Wake (V : Type 0) : Type 0 where
  answered : V → Wake V
  closed elapsed dropped : Wake V

pub record Serde (Req Resp : Type 0) : Type 0 where
  pub to_value : Req → Result Text Value
  pub from_value : Value → Result Text Resp
  pub type_name : Text

abbrev pub failed_to_send : Text → BidirError
failed_to_send why = BidirError.transport (codes "Failed to send request: " ++ why)

module _ {S Resp : Type 0} where
  -- Drop for PendingEntry
  unfoldable pub drop_entry : Text → World S Resp → World S Resp
  unfolding unregister_pending_request
  drop_entry id w = record w { registry = (unregister_pending_request id w.registry).0 }

  unfoldable pub remove_pending : Text → World S Resp → World S Resp
  unfolding remove
  remove_pending id w = record w { pending = remove id w.pending }

  unfoldable pub end_direct :
      Question → Wake Resp → World S Resp → World S Resp × Option (Result BidirError Resp)
  unfolding remove_pending
  end_direct q (answered r) w = (w, some (ok r))
  end_direct q closed w = (remove_pending q.request_id w, some (err BidirError.channel_closed))
  end_direct q elapsed w =
      (remove_pending q.request_id w, some (err (BidirError.timeout q.timeout_ms)))
  end_direct q dropped w = (w, none)

  unfoldable pub request_direct :
      Question
      → (tx : S) → Sending
      → (others : World S Resp → World S Resp) → Wake Resp
      → World S Resp
      → World S Resp × Option (Result BidirError Resp)
  unfolding insert end_direct
  request_direct q tx sending others wake w =
      let asked = record w { pending = insert q.request_id tx w.pending } in
      elim sending [
        | failed why ↦ (asked, some (err (failed_to_send why)))
        | dropped_sending ↦ (asked, none)
        | taken ↦ end_direct q wake (others (record asked { stream = w.stream ++ (q ∷ []) }))
      ]

module _ {Req Resp : Type 0} where
  -- BidirWithFallback::request: a dropped future has no answer.
  unfoldable pub with_fallback : (Req → Resp) → Req → Option (Result BidirError Resp) → Option Resp
  with_fallback fallback req none = none
  with_fallback fallback req (some (ok r)) = some r
  with_fallback fallback req (some (err _)) = some (fallback req)

module _ {Req Resp : Type 0} (serde : Serde Req Resp) where
  abbrev pub typed : Value → Result BidirError Resp
  typed v = elim (serde.from_value v) [
    | ok r ↦ ok r
    | err e ↦ err (BidirError.type_mismatch serde.type_name e)
  ]

  unfoldable pub answer_via_registry :
      (timeout_ms : ℕ) → Wake Value → Option (Result BidirError Resp)
  answer_via_registry ms (answered v) = some (typed v)
  answer_via_registry ms closed = some (err BidirError.channel_closed)
  answer_via_registry ms elapsed = some (err (BidirError.timeout ms))
  answer_via_registry ms dropped = none

  module _ {S : Type 0} where
    unfoldable pub request_via_registry :
        Question
        → (tx : S) → Sending
        → (others : World S Resp → World S Resp) → Wake Value
        → World S Resp
        → World S Resp × Option (Result BidirError Resp)
    unfolding register_pending_request drop_entry answer_via_registry
    request_via_registry q tx sending others wake w =
        let asked = record w { registry = register_pending_request q.request_id tx w.registry } in
        elim sending [
          | failed why ↦ (drop_entry q.request_id asked, some (err (failed_to_send why)))
          | dropped_sending ↦ (drop_entry q.request_id asked, none)
          | taken ↦ (
            drop_entry q.request_id (others (record asked { stream = w.stream ++ (q ∷ []) })),
            answer_via_registry q.timeout_ms wake,
          )
        ]

    abbrev pub ask :
        BidirChannel
        → Question
        → (tx : S) → Sending
        → (others : World S Resp → World S Resp) → Wake Value
        → Wake Resp
        → World S Resp
        → World S Resp × Option (Result BidirError Resp)
    ask c q tx sending others wake wake_direct w =
        if c.use_global_registry
        then request_via_registry q tx sending others wake w
        else request_direct q tx sending others wake_direct w

    -- `id` is the new UUID's text, `ms` the timeout's milliseconds.
    unfoldable pub request_with_timeout :
        BidirChannel
        → (id : Text) → (ms : ℕ) → (tx : S) → Sending
        → (others : World S Resp → World S Resp) → Wake Value
        → Wake Resp
        → Req
        → World S Resp
        → World S Resp × Option (Result BidirError Resp)
    unfolding request_via_registry request_direct
    request_with_timeout c id ms tx sending others wake wake_direct req w =
        if c.bidirectional_supported
        then elim (serde.to_value req) [
          | err e ↦ (w, some (err (BidirError.serialization e)))
          | ok v ↦
              ask c (record { request_id = id; request_data = v; timeout_ms = ms % u64_mod }) tx
                sending others wake wake_direct w
        ]
        else (w, some (err BidirError.not_supported))

    unfoldable pub request :
        BidirChannel
        → (id : Text) → (tx : S) → Sending
        → (others : World S Resp → World S Resp) → Wake Value
        → Wake Resp
        → Req
        → World S Resp
        → World S Resp × Option (Result BidirError Resp)
    unfolding request_with_timeout
    request c id tx sending others wake wake_direct req w =
        request_with_timeout c id 30000 tx sending others wake wake_direct req w

    abbrev pub send_typed :
        (alive : S → Bool)
        → S
        → Result BidirError Resp
        → World S Resp
        → World S Resp × Result BidirError (Unit {0})
    send_typed alive tx (err e) w = (w, err e)
    send_typed alive tx (ok r) w =
        if alive tx
        then (record w { sent = w.sent ++ ((tx, r) ∷ []) }, ok tt)
        else (w, err BidirError.channel_closed)

    abbrev pub respond :
        (alive : S → Bool)
        → Text
        → Value
        → Option S
        → World S Resp
        → World S Resp × Result BidirError (Unit {0})
    respond alive id data_ none w = (w, err BidirError.unknown_request)
    respond alive id data_ (some tx) w = send_typed alive tx (typed data_) (remove_pending id w)

    unfoldable pub handle_response :
        (alive : S → Bool)
        → Text
        → Value
        → World S Resp
        → World S Resp × Result BidirError (Unit {0})
    unfolding remove_pending lookup
    handle_response alive id data_ w = respond alive id data_ (lookup id w.pending) w
