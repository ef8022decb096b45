-- ===== src/Remote/Lines.antt =====
-- `read_lines` of src/plexus/remote_child/link.rs: the messages of a child are lines, whatever pieces
-- the pipe gives them in. The loop over a piece runs on fuel.
use plexus_core.Base.{
  ℕ, zero, suc, ◌<◌, Text, Bool, ◌||◌, Option, none, some, List, [], ◌∷◌, ◌++◌, if◌then◌else◌, ◌==◌,
  nat_eq, all, length, ◌≡◌, refl, sym, ap, ◌∙◌, ◌≢◌, arith, inl, inr, Bool-cases, Option-cases,
  append_assoc, append-nil, All,
}
use plexus_core.Base.Texts.{push_front}

abbrev pub line_feed : ℕ
line_feed = 10

-- u8::is_ascii_whitespace
unfoldable pub is_ascii_whitespace : ℕ → Bool
is_ascii_whitespace b = b == 32 || (b == 9 || (b == 10 || (b == 12 || b == 13)))

-- `buf[start..].iter().position(|b| *b == b'\n')`: what is before and after it.
unfoldable pub line_end : Text → Option (Text × Text)
line_end [] = none
line_end (b ∷ bs) = if b == line_feed then some ([], bs) else push_front b (line_end bs)

-- The lines of a piece, the first begun by what was carried, and what is carried on.
unfoldable pub read_piece : ℕ → (carry buf : Text) → Option (List Text × Text)
unfolding line_end
read_piece zero carry buf = none
read_piece (suc fuel) carry buf = elim (line_end buf) [
  | none ↦ some ([], carry ++ buf)
  | some (line, rest) ↦ elim (read_piece fuel [] rest) [
    | none ↦ none
    | some (lines, carry') ↦ some ((carry ++ line) ∷ lines, carry')
  ]
]

unfoldable pub is_blank : Text → Bool
unfolding is_ascii_whitespace
is_blank line = all is_ascii_whitespace line

unfoldable pub not_blank : List Text → List Text
unfolding is_blank
not_blank [] = []
not_blank (line ∷ lines) = let rest = not_blank lines in if is_blank line then rest else line ∷ rest

-- The messages handed on. An empty piece is the end; what is carried then is no message.
unfoldable pub read_lines : (carry : Text) → List Text → Option (List Text)
unfolding read_piece not_blank
read_lines carry [] = some []
read_lines carry ([] ∷ pieces) = some []
read_lines carry ((b ∷ bs) ∷ pieces) = elim (read_piece (suc (length (b ∷ bs))) carry (b ∷ bs)) [
  | none ↦ none
  | some (lines, carry') ↦ elim (read_lines carry' pieces) [
    | none ↦ none
    | some more ↦ some (not_blank lines ++ more)
  ]
]

-- The lines of a text, byte by byte, and what follows the last line feed.
unfoldable pub cut : (carry : Text) → Text → List Text × Text
cut carry [] = ([], carry)
cut carry (b ∷ bs) =
    let ended = cut [] bs in
    let longer = cut (carry ++ (b ∷ [])) bs in
    if b == line_feed then (carry ∷ ended.0, ended.1) else longer

abbrev no_line : Text → List Text × Text
no_line t = ([], t)

abbrev first_line : Text → List Text × Text → List Text × Text
first_line line found = (line ∷ found.0, found.1)

-- The lines of `buf`, of what stands before and after its first line feed.
abbrev from_line_end : (carry buf : Text) → Option (Text × Text) → List Text × Text
from_line_end carry buf none = no_line (carry ++ buf)
from_line_end carry buf (some (line, rest)) = first_line (carry ++ line) (cut [] rest)

from_line_end-push_front :
    (carry : Text) (b : ℕ) (buf : Text) (found : Option (Text × Text))
    → from_line_end carry (b ∷ buf) (push_front b found)
      ≡ from_line_end (carry ++ (b ∷ [])) buf found
from_line_end-push_front carry b buf none = ap no_line (sym (append_assoc carry (b ∷ []) buf))
from_line_end-push_front carry b buf (some (line, rest)) =
    ap (λ (l : Text). first_line l (cut [] rest)) (sym (append_assoc carry (b ∷ []) line))

cut-line_end : (carry buf : Text) → cut carry buf ≡ from_line_end carry buf (line_end buf)
unfolding line_end cut
cut-line_end carry [] = ap no_line (sym (append-nil carry))
cut-line_end carry (b ∷ bs) = elim (Bool-cases (b == line_feed)) [
  | inl feed ↦ rw feed (ap (λ (l : Text). first_line l (cut [] bs)) (sym (append-nil carry)))
  | inr other ↦ rw other (
      cut-line_end (carry ++ (b ∷ [])) bs ∙ sym (from_line_end-push_front carry b bs (line_end bs)))
]

abbrev IsWithin : ℕ → Option (Text × Text) → Type 0
IsWithin n none = Unit
IsWithin n (some (line, rest)) = length rest < n

IsWithin-push_front :
    (n b : ℕ) (found : Option (Text × Text))
    → IsWithin n found
    → IsWithin (suc n) (push_front b found)
IsWithin-push_front n b none h = tt
IsWithin-push_front n b (some (line, rest)) h = omega (arith, h)

line_end-IsWithin : (buf : Text) → IsWithin (length buf) (line_end buf)
unfolding line_end
line_end-IsWithin [] = tt
line_end-IsWithin (b ∷ bs) = elim (Bool-cases (b == line_feed)) [
  | inl feed ↦ rw feed (omega arith)
  | inr other ↦ rw other (IsWithin-push_front (length bs) b (line_end bs) (line_end-IsWithin bs))
]

-- The fuel of a piece is enough, and its lines are those cut byte by byte.
read_piece-cut :
    (fuel : ℕ) (carry buf : Text)
    → length buf < fuel
    → read_piece fuel carry buf ≡ some (cut carry buf)
unfolding read_piece
read_piece-cut zero carry buf h = absurd (let no : ⊥ = omega (arith, h) in no)
read_piece-cut (suc fuel) carry buf h = elim (Option-cases (line_end buf)) [
  | inl missing ↦ rw (cut-line_end carry buf, read_piece, missing) refl
  | inr ((line, rest), there) ↦
      let shorter : length rest < length buf = rw there at (line_end-IsWithin buf) in
      rw
        (
          cut-line_end carry buf,
          read_piece,
          there,
          read_piece-cut fuel [] rest (omega (arith, h, shorter)),
        )
        refl
]

abbrev then_lines : List Text → List Text × Text → List Text × Text
then_lines lines found = (lines ++ found.0, found.1)

cut-append :
    (carry t u : Text) → cut carry (t ++ u) ≡ then_lines (cut carry t).0 (cut (cut carry t).1 u)
unfolding cut
cut-append carry [] u = refl
cut-append carry (b ∷ bs) u = elim (Bool-cases (b == line_feed)) [
  | inl feed ↦ rw feed (ap (first_line carry) (cut-append [] bs u))
  | inr other ↦ rw other (cut-append (carry ++ (b ∷ [])) bs u)
]

not_blank-append : (ls ms : List Text) → not_blank (ls ++ ms) ≡ not_blank ls ++ not_blank ms
unfolding not_blank
not_blank-append [] ms = refl
not_blank-append (l ∷ ls) ms = elim (Bool-cases (is_blank l)) [
  | inl blank ↦ rw blank (not_blank-append ls ms)
  | inr other ↦ rw other (ap (λ (k : List Text). l ∷ k) (not_blank-append ls ms))
]

abbrev pub concat : List Text → Text
concat [] = []
concat (t ∷ ts) = t ++ concat ts

-- For pieces none of which is empty, the loops end and hand on, whatever the pieces are, the
-- lines of the whole text that are not blank, each cut byte by byte at its line feed.
pub read_lines-cut :
    (carry : Text) (pieces : List Text)
    → All (λ piece. piece ≢ []) pieces
    → read_lines carry pieces ≡ some (not_blank (cut carry (concat pieces)).0)
unfolding read_lines not_blank cut
read_lines-cut carry [] h = refl
read_lines-cut carry ([] ∷ pieces) (h, hs) = elim (h refl) [ ]
read_lines-cut carry ((b ∷ bs) ∷ pieces) (h, hs) =
    rw
      (
        read_lines,
        read_piece-cut (suc (length (b ∷ bs))) carry (b ∷ bs) (omega arith),
        read_lines-cut (cut carry (b ∷ bs)).1 pieces hs,
        cut-append carry (b ∷ bs) (concat pieces),
        not_blank-append (cut carry (b ∷ bs)).0 (cut (cut carry (b ∷ bs)).1 (concat pieces)).0,
      )
      refl
