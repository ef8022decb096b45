-- ===== src/Channel/Tests.antt =====
-- Requests at concrete worlds.
use plexus_core.Base.{ℕ, codes, true, false, none, some, [], ◌∷◌, ◌≡◌, refl, text_eq}
use plexus_core.Base.Assoc.{lookup, insert, remove}
use plexus_core.Errors.{ok, err}
use plexus_core.Json.{Value, null, string, bool}
use plexus_core.Pending.{BidirError, register_pending_request, unregister_pending_request}
use plexus_core.Channel.{
  Question, BidirChannel, new, new_direct, World, taken, failed, answered, closed, elapsed, dropped,
  Serde, drop_entry, answer_via_registry, request_via_registry, request_direct,
  request_with_timeout, request, remove_pending, end_direct, handle_response, with_fallback,
}
use plexus_core.Channel.Laws.{request_with_timeout-leaves}
use plexus_core.Channel.Standard.{
  confirm_request, StandardResponse, Fits, IsRead, with_fallback-Fits, auto_confirm,
}

-- A request is its value, and `null` is no answer.
abbrev as_is : Serde Value Value
as_is = record {
  to_value = λ v. ok v;
  from_value = λ v. elim v [ null ↦ err (codes "null") | other ↦ ok other ];
  type_name = codes "Value";
}

abbrev idle : World ℕ Value
idle = record {
  registry = record { pending = []; sent = [] };
  pending = [];
  stream = [];
  sent = [];
}

abbrev same : World ℕ Value → World ℕ Value
same w = w

abbrev over_registry : BidirChannel
over_registry = record {
  bidirectional_supported = true;
  use_global_registry = true;
  provenance = [];
  plexus_hash = codes "h";
}

abbrev question : Question
question = record { request_id = codes "q"; request_data = bool true; timeout_ms = 30000 }

program : Unit {0}
unfolding insert lookup remove new new_direct register_pending_request unregister_pending_request
    drop_entry answer_via_registry request_via_registry request_direct request_with_timeout request
    remove_pending end_direct handle_response with_fallback
program = tt

by_default : new true [] (codes "h") ≡ over_registry
unfolding program
by_default = refl

timed_out :
    request as_is over_registry (codes "q") 7 taken same elapsed dropped (bool true) idle
    ≡ (record idle { stream = question ∷ [] }, some (err (BidirError.timeout 30000)))
unfolding program
timed_out = refl

unsupported :
    request as_is (new_direct false [] []) (codes "q") 7 taken same elapsed dropped (bool true) idle
    ≡ (idle, some (err BidirError.not_supported))
unfolding program
unsupported = refl

mistyped :
    request as_is over_registry (codes "q") 7 taken same (answered null) dropped (bool true) idle
    ≡ (
      record idle { stream = question ∷ [] },
      some (err (BidirError.type_mismatch (codes "Value") (codes "null"))),
    )
unfolding program
mistyped = refl

direct_answered :
    (request as_is
      (new_direct true [] [])
      (codes "q")
      7
      taken
      (λ w. (handle_response as_is (λ s. true) (codes "q") (string (codes "a")) w).0)
      dropped
      (answered (string (codes "a")))
      (bool true)
      idle)
    ≡ (
      record idle { stream = question ∷ []; sent = (7, string (codes "a")) ∷ [] },
      some (ok (string (codes "a"))),
    )
unfolding program
direct_answered = refl

request_with_timeout-leaves_example :
    lookup
      (codes "q")
      (request_with_timeout as_is over_registry
        (codes "q")
        10
        7
        taken
        same
        dropped
        dropped
        (bool true)
        idle).0.registry.pending
    ≡ none
unfolding lookup
request_with_timeout-leaves_example =
    request_with_timeout-leaves as_is over_registry (codes "q") 10 7 taken same dropped dropped
      (bool true) idle refl refl

with_fallback-Fits_example :
    (r : StandardResponse) × (with_fallback auto_confirm
        (confirm_request (codes "sure?") (some false))
        (some (err BidirError.channel_closed))
      ≡ some r)
    × Fits (confirm_request (codes "sure?") (some false)) r
    × IsRead (λ v. []) (λ r. []) (confirm_request (codes "sure?") (some false)) r
with_fallback-Fits_example =
    with_fallback-Fits (λ v. []) (λ r. []) (confirm_request (codes "sure?") (some false))
      BidirError.channel_closed

answered_twice :
    (handle_response as_is
      (λ s. true)
      (codes "q")
      (bool true)
      (handle_response as_is
        (λ s. true)
        (codes "q")
        null
        (record idle { pending = (codes "q", 7) ∷ [] })).0).1
    ≡ err BidirError.unknown_request
unfolding program
answered_twice = refl

-- A request that its stream did not take leaves its entry in the channel's own map.
direct_left :
    lookup (codes "q") (request_direct question 7 (failed []) same closed idle).0.pending ≡ some 7
unfolding request_direct lookup
direct_left = refl
