-- ===== src/ContentHash.antt =====
-- The roll-up of hashes (src/plexus/content_hash.rs). SHA-256, cut to 16 characters, is a parameter.
pub mod Canonical
pub mod Lines
mod Tests
use plexus_core.Base.{Text, codes, List, [], ◌∷◌, ◌++◌}

-- Each hash, followed by a line feed.
unfoldable pub hash_lines : List Text → Text
hash_lines [] = []
hash_lines (h ∷ hs) = h ++ (b'\n' ∷ hash_lines hs)

unfoldable pub hash16_lines : (hash16 : Text → Text) → List Text → Text
unfolding hash_lines
hash16_lines hash16 hashes = hash16 (hash_lines hashes)
