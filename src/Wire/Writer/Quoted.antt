-- ===== src/Wire/Writer/Quoted.antt =====
-- A string and a key, on the short path and on the long one.
use plexus_core.Base.{
  ℕ, zero, suc, Text, Bool, true, false, [], ◌∷◌, ◌++◌, ◌+◌, ◌-◌, ◌≡◌, ◌≢◌, refl, arith,
  if◌then◌else◌, nat_eq, length, take, if_cases, append_assoc, sym, ◌∙◌, ap, ap₂,
}
use plexus_core.Wire.Scan.{Memory, clean_run, short, write, peek}
use plexus_core.Wire.Scan.Bytes.{peek-copied}
use plexus_core.Wire.Scan.Copies.{Stands}
use plexus_core.Wire.Scan.Blocks.{short-clean}
use plexus_core.Wire.Writer.{Machine, after, long_string, string, long_key, key}
use plexus_core.Wire.Writer.Strings.{escape_text, quoted, contents-escape_text, clean-escape_text}

-- A field's name and what is around it.
abbrev pub key_text : Bool → Text → Text
key_text comma k = (if comma then b',' ∷ [] else []) ++ (quoted k ++ (b':' ∷ []))

peek-append : (a b p : ℕ) (m : Memory) → peek (a + b) p m ≡ peek a p m ++ peek b (p + a) m
unfolding peek
peek-append zero b p m = ap₂ (λ j q. peek j q m) (omega arith) (omega arith)
peek-append (suc a) b p m =
    let e : suc p + a ≡ p + suc a = omega arith in
    let e' : suc a + b ≡ suc (a + b) = omega arith in
    ap (λ j. peek j p m) e'
    ∙ ap (λ (t : Text). m p ∷ t)
        (peek-append a b (suc p) m ∙ ap (λ q. peek a (suc p) m ++ peek b q m) e)

take-all : (s : Text) → take (length s) s ≡ s
take-all [] = refl
take-all (b ∷ s) = ap (λ (t : Text). b ∷ t) (take-all s)

write-here : (p b : ℕ) (m : Memory) → write p b m p ≡ b
unfolding write
write-here p b m = ground arith

write-other : (p b q : ℕ) (m : Memory) → q ≢ p → write p b m q ≡ m q
unfolding write
write-other p b q m ne = ground arith

Stands-peek : (s : Text) (p : ℕ) (m : Memory) → Stands s (length s) p m → peek (length s) p m ≡ s
Stands-peek s p m h = peek-copied (length s) p m s (omega arith) h ∙ take-all s

module _ (machine : Machine) where
  long_string-quoted : (s out : Text) → long_string machine s out ≡ out ++ quoted s
  unfolding long_string
  long_string-quoted s out = rw (contents-escape_text machine s (out ++ (b'"' ∷ []))) (
      append_assoc (out ++ (b'"' ∷ [])) (escape_text s) (b'"' ∷ [])
      ∙ append_assoc out (b'"' ∷ []) (escape_text s ++ (b'"' ∷ [])))

  long_key-quoted :
      (comma : Bool) (k out : Text) → long_key machine comma k out ≡ out ++ key_text comma k
  unfolding long_key
  long_key-quoted true k out =
      rw (contents-escape_text machine k ((out ++ (b',' ∷ [])) ++ (b'"' ∷ []))) (simp append_assoc)
  long_key-quoted false k out =
      rw (contents-escape_text machine k (out ++ (b'"' ∷ []))) (simp append_assoc)

-- The text between what the short path writes around it.
short_string :
    (s : Text) (m : Memory)
    → clean_run s ≡ length s
    → Stands s (length s) 1 m
    → peek (1 + length s + 1) 0 (write (1 + length s) b'"' (write 0 b'"' m)) ≡ quoted s
unfolding peek
short_string s m clean h =
    let n = length s in
    let m' = write (1 + n) b'"' (write 0 b'"' m) in
    let e : 1 + n + 1 ≡ suc (n + 1) = omega arith in
    let first : m' 0 ≡ b'"' =
      write-other (1 + n) b'"' 0 (write 0 b'"' m) (omega arith) ∙ write-here 0 b'"' m in
    let last : m' (1 + n) ≡ b'"' = write-here (1 + n) b'"' (write 0 b'"' m) in
    let mid = Stands-peek s 1 m' (λ i lt.
      write-other (1 + n) b'"' (1 + i) (write 0 b'"' m) (omega arith)
      ∙ (write-other 0 b'"' (1 + i) m (omega arith) ∙ h i lt)) in
    ap (λ j. peek j 0 m') e
    ∙ ap₂ (λ (x : ℕ) (t : Text). x ∷ t) first
        (peek-append n 1 1 m'
          ∙ ap₂ (λ (t : Text) (x : ℕ). t ++ (x ∷ [])) (mid ∙ sym (clean-escape_text s clean)) last)

closing :
    (s : Text) (p : ℕ) (m : Memory)
    → Stands s (length s) p m
    → m (p + length s) ≡ b'"'
    → m (suc (p + length s)) ≡ b':'
    → peek (length s + 2) p m ≡ s ++ (b'"' ∷ b':' ∷ [])
unfolding peek
closing s p m h quote colon =
    peek-append (length s) 2 p m
    ∙ ap₂ (λ (t u : Text). t ++ u) (Stands-peek s p m h) (ap₂ (λ (x y : ℕ). x ∷ y ∷ []) quote colon)

closed :
    (s : Text)
    → clean_run s ≡ length s
    → s ++ (b'"' ∷ b':' ∷ []) ≡ escape_text s ++ (b'"' ∷ []) ++ (b':' ∷ [])
closed s clean = rw (clean-escape_text s clean) (simp append_assoc)

short_key :
    (comma : Bool) (s : Text) (m : Memory)
    → clean_run s ≡ length s
    → Stands s (length s) ((if comma then 1 else 0) + 1) m
    → peek ((if comma then 1 else 0) + 1 + length s + 2) 0 (
        write ((if comma then 1 else 0) + 1 + length s + 1) b':' (
          write
            ((if comma then 1 else 0) + 1 + length s)
            b'"'
            (write ((if comma then 1 else 0) + 1 - 1) b'"' (write 0 b',' m))))
      ≡ key_text comma s
unfolding peek write
short_key true s m clean h =
    let n = length s in
    let m₁ = write 1 b'"' (write 0 b',' m) in
    let m₂ = write (2 + n) b'"' m₁ in
    let m' = write (2 + n + 1) b':' m₂ in
    let first : m' 0 ≡ b',' = ground (arith, write) in
    let second : m' 1 ≡ b'"' = ground (arith, write) in
    let quote : m' (2 + n) ≡ b'"' = ground (arith, write) in
    let colon : m' (suc (2 + n)) ≡ b':' = ground (arith, write) in
    let stands : Stands s n 2 m' = λ i lt. let k = h i lt in ground (arith, write) in
    let e : 2 + n + 2 ≡ suc (suc (n + 2)) = omega arith in
    ap (λ j. peek j 0 m') e
    ∙ ap₂ (λ (x y : ℕ). x ∷ y ∷ peek (n + 2) 2 m') first second
    ∙ ap (λ (t : Text). b',' ∷ b'"' ∷ t) (closing s 2 m' stands quote colon ∙ closed s clean)
short_key false s m clean h =
    let n = length s in
    let m₁ = write 0 b'"' (write 0 b',' m) in
    let m₂ = write (1 + n) b'"' m₁ in
    let m' = write (1 + n + 1) b':' m₂ in
    let first : m' 0 ≡ b'"' = ground (arith, write) in
    let quote : m' (1 + n) ≡ b'"' = ground (arith, write) in
    let colon : m' (suc (1 + n)) ≡ b':' = ground (arith, write) in
    let stands : Stands s n 1 m' = λ i lt. let k = h i lt in ground (arith, write) in
    let e : 1 + n + 2 ≡ suc (n + 2) = omega arith in
    ap (λ j. peek j 0 m') e
    ∙ ap₂ (λ (x : ℕ) (t : Text). x ∷ t) first (closing s 1 m' stands quote colon ∙ closed s clean)

module _ (machine : Machine) where
  -- A text is written as a JSON string, on the short path and on the long one.
  pub string-quoted : (s out : Text) → string machine s out ≡ out ++ quoted s
  unfolding string
  string-quoted s out =
      let n = length s in
      let done = short machine.cpu s 1 (machine.spare out) in
      if_cases (λ t. t ≡ out ++ quoted s) (machine.fits out (1 + n + after))
        (λ room.
          if_cases (λ t. t ≡ out ++ quoted s) done.0
            (λ yes.
              let (clean, stands, bounded) = short-clean machine.cpu s 1 (machine.spare out) yes in
              ap (λ (t : Text). out ++ t) (short_string s done.1 clean stands))
            (λ long. long_string-quoted machine s out))
        (λ full. long_string-quoted machine s out)

  -- A field's name, with its quotes, its colon and the comma before it, likewise.
  pub key-quoted : (comma : Bool) (k out : Text) → key machine comma k out ≡ out ++ key_text comma k
  unfolding key
  key-quoted comma k out =
      let n = length k in
      let start = (if comma then 1 else 0) + 1 in
      let done = short machine.cpu k start (machine.spare out) in
      if_cases (λ t. t ≡ out ++ key_text comma k) (machine.fits out (2 + n + after))
        (λ room.
          if_cases (λ t. t ≡ out ++ key_text comma k) done.0
            (λ yes.
              let (clean, stands, bounded) =
                short-clean machine.cpu k start (machine.spare out) yes in
              ap (λ (t : Text). out ++ t) (short_key comma k done.1 clean stands))
            (λ long. long_key-quoted machine comma k out))
        (λ full. long_key-quoted machine comma k out)
