-- ===== src/ContentHash/Lines.antt =====
-- What is hashed says which hashes it was made of.
use plexus_core.Base.{Text, List, [], ◌∷◌, ◌++◌, ◌≡◌, refl, sym, ◌∙◌, ap, ap₂, All, Option, some}
use plexus_core.Base.Texts.{Avoids, split_once, split_once-append}
use plexus_core.ContentHash.{hash_lines}

-- A text is cut at its first line feed in one way.
cut_unique :
    (x a y b : Text)
    → Avoids b'\n' x
    → Avoids b'\n' y
    → x ++ (b'\n' ∷ a) ≡ y ++ (b'\n' ∷ b)
    → (x ≡ y) × (a ≡ b)
cut_unique x a y b h k same =
    let cut : ◌≡◌ {A = Option (Text × Text)} (some (x, a)) (some (y, b)) =
      sym (split_once-append b'\n' [] x a h)
      ∙ ap (split_once (b'\n' ∷ [])) same
      ∙ split_once-append b'\n' [] y b k in
    (cc cut, cc cut)

-- The text that a roll-up hashes is unambiguous: two lists of hashes with no line feed in a hash
-- have the same text only if they are the same list.
pub hash_lines-injective :
    (xs ys : List Text)
    → All (Avoids b'\n') xs
    → All (Avoids b'\n') ys
    → hash_lines xs ≡ hash_lines ys
    → xs ≡ ys
unfolding hash_lines
hash_lines-injective [] [] h k same = refl
hash_lines-injective [] ([] ∷ ys) h k same = cc
hash_lines-injective [] ((_ ∷ _) ∷ ys) h k same = cc
hash_lines-injective ([] ∷ xs) [] h k same = cc
hash_lines-injective ((_ ∷ _) ∷ xs) [] h k same = cc
hash_lines-injective (x ∷ xs) (y ∷ ys) (h, hs) (k, ks) same =
    let (e, rest) = cut_unique x (hash_lines xs) y (hash_lines ys) h k same in
    ap₂ (λ (z : Text) (zs : List Text). z ∷ zs) e (hash_lines-injective xs ys hs ks rest)
