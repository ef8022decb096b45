-- ===== src/Handle/Tests.antt =====
-- Handles at concrete texts.
use plexus_core.Base.{ℕ, codes, some, [], ◌∷◌, ◌≡◌, refl, All, arith}
use plexus_core.Base.Texts.{Avoids, split_once, split}
use plexus_core.Errors.{ok, err}
use plexus_core.Handle.{
  UuidText, Handle, missing_at, missing_separator, new, with_meta, push_meta, handle_origin,
  from_handle, map_envelope, display, from_str,
}
use plexus_core.Handle.RoundTrip.{from_str-display, display-colons}

-- Ids that are their own text, behind one letter.
abbrev ids : UuidText (Unit {0})
ids = record {
  show = λ _. codes "550e";
  parse = λ _. some tt;
  parse-show = λ _. refl;
  show-Avoids_at = λ _. omega arith;
}

abbrev chat : Handle (Unit {0})
chat = record {
  plugin_id = tt;
  version = codes "1.0.0";
  method = codes "chat";
  meta = codes "msg-123" ∷ codes "user" ∷ [];
}

built :
    push_meta
      (codes "user")
      (with_meta (codes "msg-123" ∷ []) (new tt (codes "1.0.0") (codes "chat")))
    ≡ chat
unfolding push_meta with_meta new
built = refl

displayed : display ids chat ≡ codes "550e@1.0.0::chat:msg-123:user"
unfolding display
displayed = refl

parsed : from_str ids (codes "550e@1.0.0::chat:msg-123:user") ≡ ok chat
unfolding from_str split_once split
parsed = refl

no_at : from_str ids (codes "550e-1.0.0::chat") ≡ err (missing_at (codes "550e-1.0.0::chat"))
unfolding from_str split_once split
no_at = refl

one_colon :
    from_str ids (codes "550e@1.0.0:chat") ≡ err (missing_separator (codes "550e@1.0.0:chat"))
unfolding from_str split_once split
one_colon = refl

enveloped : (map_envelope (λ (n : ℕ). n) (from_handle chat 42)).origin ≡ handle_origin chat
unfolding map_envelope from_handle
enveloped = refl

from_str-display_example : from_str ids (display ids chat) ≡ ok chat
from_str-display_example =
    from_str-display ids chat
      (record { version = omega arith; method = omega arith; meta = omega arith })

display-colons_example : Avoids b':' chat.method × All (Avoids b':') chat.meta
display-colons_example = display-colons ids chat from_str-display_example
