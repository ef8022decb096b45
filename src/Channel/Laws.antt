-- ===== src/Channel/Laws.antt =====
-- What a request leaves behind, and what an answer can do.
use plexus_core.Base.{
  ◌∙◌, ◌%◌, ℕ, Text, Bool, true, Option, none, some, [], ◌∷◌, ◌++◌, ◌≡◌, refl, ap, arith, text_eq,
  beq_self, Bool-cases, inl, inr,
}
use plexus_core.Base.Assoc.{lookup, lookup-remove}
use plexus_core.Errors.{Result, ok, err, Result-cases}
use plexus_core.Base.Word.{u64_mod}
use plexus_core.Json.{Value}
use plexus_core.Pending.{BidirError, register_pending_request, unregister_pending_request}
use plexus_core.Channel.{
  Question, BidirChannel, World, Sending, taken, failed, dropped_sending, Wake, Serde, drop_entry,
  request_via_registry, request_with_timeout, handle_response, respond, send_typed, remove_pending,
  typed,
}

module _ {S Resp : Type 0} where
  drop_entry-lookup :
      (id : Text) (w : World S Resp) → lookup id (drop_entry id w).registry.pending ≡ none
  unfolding drop_entry unregister_pending_request
  drop_entry-lookup id w = rw (lookup-remove id id w.registry.pending, beq_self id) refl

module _ {Req Resp : Type 0} (serde : Serde Req Resp) where
  module _ {S : Type 0} where
    request_via_registry-leaves :
        (q : Question) (tx : S) (sending : Sending) (others : World S Resp → World S Resp)
        (wake : Wake Value) (w : World S Resp)
        → lookup q.request_id
            (request_via_registry serde q tx sending others wake w).0.registry.pending
          ≡ none
    unfolding request_via_registry
    request_via_registry-leaves q tx taken others wake w =
        let asked = record w { registry = register_pending_request q.request_id tx w.registry } in
        drop_entry-lookup q.request_id (others (record asked { stream = w.stream ++ (q ∷ []) }))
    request_via_registry-leaves q tx (failed why) others wake w =
        drop_entry-lookup q.request_id
          (record w { registry = register_pending_request q.request_id tx w.registry })
    request_via_registry-leaves q tx dropped_sending others wake w =
        drop_entry-lookup q.request_id
          (record w { registry = register_pending_request q.request_id tx w.registry })

    -- However the future of a request over the registry ends (answered, refused, timed out, or
    -- dropped at any of its waits), and whatever others did while it waited, even with its own entry:
    -- it leaves no entry there, where there was none under its new id.
    pub request_with_timeout-leaves :
        (c : BidirChannel) (id : Text) (ms : ℕ) (tx : S) (sending : Sending)
        (others : World S Resp → World S Resp) (wake : Wake Value) (wake_direct : Wake Resp)
        (req : Req) (w : World S Resp)
        → c.use_global_registry ≡ true
        → lookup id w.registry.pending ≡ none
        → lookup id
            (request_with_timeout serde c id ms tx sending others wake wake_direct req
              w).0.registry.pending
          ≡ none
    unfolding request_with_timeout
    request_with_timeout-leaves c id ms tx sending others wake wake_direct req w h k =
        elim (Bool-cases c.bidirectional_supported) [
          | inr no_way ↦ rw no_way k
          | inl supported ↦ elim (Result-cases (serde.to_value req)) [
            | inr (e, bad) ↦ rw (supported, bad) k
            | inl (v, good) ↦
                rw (supported, good, h)
                  (request_via_registry-leaves
                    (record { request_id = id; request_data = v; timeout_ms = ms % u64_mod }) tx
                    sending others wake w)
          ]
        ]

    send_typed-pending :
        (alive : S → Bool) (tx : S) (r : Result BidirError Resp) (w : World S Resp)
        → (send_typed serde alive tx r w).0.pending ≡ w.pending
    send_typed-pending alive tx (err e) w = refl
    send_typed-pending alive tx (ok r) w = ground arith

    respond-lookup :
        (alive : S → Bool) (id : Text) (v : Value) (o : Option S) (w : World S Resp)
        → lookup id w.pending ≡ o
        → lookup id (respond serde alive id v o w).0.pending ≡ none
    unfolding remove_pending
    respond-lookup alive id v none w h = h
    respond-lookup alive id v (some tx) w h =
        ap (lookup id) (send_typed-pending alive tx (typed serde v) (remove_pending id w))
        ∙ rw (lookup-remove id id w.pending, beq_self id) refl

    -- An answer is taken once: after the first with its id, whatever came of it, any other is
    -- refused and changes nothing.
    pub handle_response-once :
        (alive later : S → Bool) (id : Text) (v v' : Value) (w : World S Resp)
        → let after = (handle_response serde alive id v w).0 in
          handle_response serde later id v' after ≡ (after, err BidirError.unknown_request)
    unfolding handle_response
    handle_response-once alive later id v v' w =
        rw (respond-lookup alive id v (lookup id w.pending) w refl) refl
