-- ===== src/Input/Frames/Bytes.antt =====
-- Bytes of a message: slices, and big-endian words.
use plexus_core.Base.{ℕ, zero, suc, ◌+◌, ◌*◌, List, [], ◌∷◌}

abbrev pub drop {ℓ} : {A : Type ℓ} → ℕ → List A → List A
drop zero xs = xs
drop (suc n) [] = []
drop (suc n) (x ∷ xs) = drop n xs

be_from : (acc n : ℕ) → List ℕ → ℕ
be_from acc zero bs = acc
be_from acc (suc n) [] = acc
be_from acc (suc n) (b ∷ bs) = be_from (acc * 256 + b) n bs

-- The word that the first n bytes spell, most significant first.
unfoldable pub be_word : (n : ℕ) → List ℕ → ℕ
unfolding be_from
be_word n bs = be_from 0 n bs
