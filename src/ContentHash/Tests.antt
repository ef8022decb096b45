-- ===== src/ContentHash/Tests.antt =====
-- Two hashes, one per line.
use plexus_core.Base.{Text, codes, List, [], ◌∷◌, ◌≡◌, ◌≢◌, refl, ne_of_beq, text_eq}
use plexus_core.Json.{Value, number, object, Members, end, member}
use plexus_core.ContentHash.{hash16_lines}
use plexus_core.ContentHash.Canonical.{write_canonical}
use plexus_core.ContentHash.Canonical.Reordering.{swaps, write_canonical-Reordered}

abbrev hashes : List Text
hashes = codes "0a" ∷ codes "ff" ∷ []

written : hash16_lines (λ t. t) hashes ≡ codes "0a\nff\n"
unfolding hash16_lines
written = refl

abbrev one : Value
one = number (codes "1")

abbrev b_then_a : Members
b_then_a = member (codes "b") one (member (codes "a") one end)

abbrev a_then_b : Members
a_then_b = member (codes "a") one (member (codes "b") one end)

canonical_runs : write_canonical (λ s. s) (object b_then_a) ≡ codes "{a:1,b:1}"
unfolding write_canonical
canonical_runs = refl

b_is_not_a : codes "b" ≢ codes "a"
b_is_not_a = ne_of_beq (codes "b") (codes "a") refl

write_canonical-Reordered_example :
    write_canonical (λ s. s) (object b_then_a) ≡ write_canonical (λ s. s) (object a_then_b)
write_canonical-Reordered_example =
    write_canonical-Reordered (λ s. s) b_then_a a_then_b (swaps b_is_not_a)
