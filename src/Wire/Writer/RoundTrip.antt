-- ===== src/Wire/Writer/RoundTrip.antt =====
-- A JSON string read back (RFC 8259, of the escapes those of one byte): a reader by states, a byte
-- at a time, which the writer of src/plexus/wire/json.rs has to satisfy.
use plexus_core.Base.{
  ℕ, zero, suc, Text, codes, Bool, true, false, Option, none, some, [], ◌∷◌, ◌++◌, ◌+◌, ◌-◌, ◌*◌,
  ◌/◌, ◌%◌, ◌<◌, ◌≡◌, refl, ap, ◌∙◌, arith, if◌then◌else◌, ltb, leb, ◌==◌, ◌&&◌, nat_eq, length,
  append_assoc, Bool-cases, Option-cases, if_true, if_false, lt→ltb, inl, inr,
}
use plexus_core.Wire.Scan.{escaped, byte_at}
use plexus_core.Wire.Writer.{Machine, short_escape, escape, string, hex}
use plexus_core.Wire.Writer.Strings.{escape_text, escape_text-hit, escape_text-miss}
use plexus_core.Wire.Writer.Quoted.{string-quoted}

pub data Reading : Type 0 where
  plain : Reading
  escaping : Reading
  digits : (left value : ℕ) → Reading

-- The byte that an escape's letter stands for.
unfoldable pub letter : ℕ → Option ℕ
letter c =
    if c == b'"'
    then some b'"'
    else if c == b'\\'
    then some b'\\'
    else if c == b'/'
    then some b'/'
    else if c == b'b'
    then some 8
    else if c == b'f'
    then some 12
    else if c == b'n'
    then some 10
    else if c == b'r'
    then some 13
    else if c == b't'
    then some 9
    else none

unfoldable pub hex_value : ℕ → Option ℕ
hex_value c =
    if leb b'0' c && leb c b'9'
    then some (c - b'0')
    else if leb b'a' c && leb c b'f'
    then some (c - 87)
    else if leb b'A' c && leb c b'F'
    then some (c - 55)
    else none

abbrev pub push : ℕ → Option (Text × Text) → Option (Text × Text)
push b none = none
push b (some (s, rest)) = some (b ∷ s, rest)

-- What a string reads as, up to its closing quote, and what follows it.
unfoldable pub read : Reading → Text → Option (Text × Text)
unfolding letter hex_value
read state [] = none
read plain (c ∷ cs) =
    let later = push c (read plain cs) in
    let after_backslash = read escaping cs in
    if c == b'"'
    then some ([], cs)
    else if c == b'\\'
    then after_backslash
    else if ltb c 32
    then none
    else later
read escaping (c ∷ cs) =
    let four = read (digits 4 0) cs in
    let later = read plain cs in
    if c == b'u' then four else elim (letter c) [ none ↦ none | some b ↦ push b later ]
read (digits left value) (c ∷ cs) = elim (hex_value c) [
  | none ↦ none
  | some d ↦
      let v = 16 * value + d in
      let later = read plain cs in
      let more = read (digits (left - 1) v) cs in
      if left == 1 then (if ltb v 128 then push v later else none) else more
]

unfoldable pub read_quoted : Text → Option (Text × Text)
unfolding read
read_quoted [] = none
read_quoted (c ∷ cs) = let inside = read plain cs in if c == b'"' then inside else none

-- The digits from a value on.
abbrev are_digits : ℕ → Text → Bool
are_digits i [] = true
are_digits i (c ∷ cs) = elim (hex_value c) [
  | none ↦ false
  | some d ↦ d == i && are_digits (suc i) cs
]

hex_value-digit :
    (i d : ℕ) (cs : Text)
    → are_digits i cs ≡ true
    → d < length cs
    → hex_value (byte_at d cs) ≡ some (i + d)
unfolding byte_at
hex_value-digit i d [] h lt = ground arith
hex_value-digit i zero (c ∷ cs) h lt = elim (Option-cases (hex_value c)) [
  | inl missed ↦ cc (rw (missed, are_digits) at h)
  | inr (d, found) ↦ let k = rw (found, are_digits) at h in found ∙ ap (λ n. some n) (ground arith)
]
hex_value-digit i (suc d) (c ∷ cs) h lt =
    let e : suc i + d ≡ i + suc d = omega arith in
    elim (Option-cases (hex_value c)) [
      | inl missed ↦ cc (rw (missed, are_digits) at h)
      | inr (d', found) ↦
          let k = rw (found, are_digits) at h in
          hex_value-digit (suc i) d cs (ground arith) (omega arith) ∙ ap (λ n. some n) e
    ]

hex_value-hex : (d : ℕ) → d < 16 → hex_value (byte_at d hex) ≡ some d
unfolding hex_value
hex_value-hex d h = hex_value-digit 0 d hex refl h ∙ ap (λ n. some n) (omega arith)

read-digits :
    (h₁ h₂ d₁ d₂ : ℕ) (s : Text)
    → hex_value h₁ ≡ some d₁
    → hex_value h₂ ≡ some d₂
    → 16 * d₁ + d₂ < 128
    → read (digits 2 0) (h₁ ∷ h₂ ∷ s) ≡ push (16 * d₁ + d₂) (read plain s)
unfolding read
read-digits h₁ h₂ d₁ d₂ s e₁ e₂ lt =
    let e : 0 + d₁ ≡ d₁ = omega arith in rw (e₁, read, e₂, e, lt→ltb (16 * d₁ + d₂) 128 lt) refl

letter-short_escape :
    (b : ℕ)
    → (short_escape b == 0) ≡ false
    → (letter (short_escape b) ≡ some b) × ((short_escape b == b'u') ≡ false)
unfolding letter short_escape
letter-short_escape b h = ground arith

escaped-bound : (b : ℕ) → escaped b ≡ true → (short_escape b == 0) ≡ true → b < 32
unfolding escaped short_escape
escaped-bound b h k = ground arith

escape-letter : (b : ℕ) → (short_escape b == 0) ≡ false → escape b [] ≡ b'\\' ∷ short_escape b ∷ []
unfolding escape
escape-letter b h = if_false (short_escape b == 0) _ (b'\\' ∷ short_escape b ∷ []) h

escape-hex :
    (b : ℕ)
    → (short_escape b == 0) ≡ true
    → escape b [] ≡ codes "\\u00" ++ (byte_at (b / 16) hex ∷ byte_at (b % 16) hex ∷ [])
unfolding escape
escape-hex b h =
    if_true (short_escape b == 0)
      (codes "\\u00" ++ (byte_at (b / 16) hex ∷ byte_at (b % 16) hex ∷ [])) _ h

read-letter :
    (c b : ℕ) (s : Text)
    → letter c ≡ some b
    → (c == b'u') ≡ false
    → read plain (b'\\' ∷ c ∷ s) ≡ push b (read plain s)
unfolding read
read-letter c b s e ne = rw (ne, e) refl

read-hex :
    (h₁ h₂ : ℕ) (s : Text)
    → read plain (codes "\\u00" ++ (h₁ ∷ h₂ ∷ s)) ≡ read (digits 2 0) (h₁ ∷ h₂ ∷ s)
unfolding read
read-hex h₁ h₂ s = refl

read-escape :
    (b : ℕ) (s : Text) → escaped b ≡ true → read plain (escape b [] ++ s) ≡ push b (read plain s)
read-escape b s h = elim (Bool-cases (short_escape b == 0)) [
  | inr lettered ↦
      let (e, ne) = letter-short_escape b lettered in
      rw (escape-letter b lettered) (read-letter (short_escape b) b s e ne)
  | inl unlettered ↦
      let lt = escaped-bound b h unlettered in
      let e : 16 * (b / 16) + b % 16 ≡ b = omega arith in
      rw (escape-hex b unlettered) (
        read-hex (byte_at (b / 16) hex) (byte_at (b % 16) hex) s
        ∙ (read-digits (byte_at (b / 16) hex) (byte_at (b % 16) hex) (b / 16) (b % 16) s
              (hex_value-hex (b / 16) (omega arith)) (hex_value-hex (b % 16) (omega arith))
              (omega arith)
            ∙ ap (λ n. push n (read plain s)) e))
]

read-clean : (b : ℕ) (s : Text) → escaped b ≡ false → read plain (b ∷ s) ≡ push b (read plain s)
unfolding read escaped
read-clean b s h = ground arith

read-closed : (after : Text) → read plain (b'"' ∷ after) ≡ some ([], after)
unfolding read
read-closed after = refl

read-escape_text : (s after : Text) → read plain (escape_text s ++ (b'"' ∷ after)) ≡ some (s, after)
unfolding escape_text
read-escape_text [] after = read-closed after
read-escape_text (b ∷ s) after = elim (Bool-cases (escaped b)) [
  | inl h ↦
      rw (escape_text-hit b s h, append_assoc (escape b []) (escape_text s) (b'"' ∷ after))
        (read-escape b (escape_text s ++ (b'"' ∷ after)) h ∙ ap (push b) (read-escape_text s after))
  | inr h ↦
      rw (escape_text-miss b s h)
        (read-clean b (escape_text s ++ (b'"' ∷ after)) h ∙ ap (push b) (read-escape_text s after))
]

-- A text that is written as a JSON string, whatever follows it in the buffer, reads back as that
-- text, and what follows it is left: any byte may stand in the text.
pub read-string :
    (machine : Machine) (s after : Text)
    → read_quoted (string machine s [] ++ after) ≡ some (s, after)
unfolding read_quoted
read-string machine s after =
    rw (string-quoted machine s [], append_assoc (escape_text s) (b'"' ∷ []) after)
      (read-escape_text s after)
