-- ===== src/Wire/Writer.antt =====
-- `Json`'s strings and keys (src/plexus/wire/json.rs), written at the end of the pipe's buffer.
-- The buffer is the bytes written; what `BytesMut` has room for, and what stands in that room
-- before it is written, are the machine's.
pub mod Strings
pub mod Quoted
pub mod RoundTrip
use plexus_core.Base.{
  ℕ, zero, suc, Text, codes, Bool, true, false, [], ◌∷◌, ◌++◌, ◌+◌, ◌-◌, ◌/◌, ◌%◌, if◌then◌else◌,
  ltb, leb, ◌==◌, nat_eq, length, drop,
}
use plexus_core.Wire.Scan.{Memory, Cpu, write, peek, byte_at, copy_clean, short}

-- The CPU, whether there is room for so many bytes more, and what stands past the end.
pub record Machine : Type 0 where
  pub cpu : Cpu
  pub fits : Text → ℕ → Bool
  pub spare : Text → Memory

-- What a string's writer keeps room for past its contents.
abbrev pub after : ℕ
after = 2

-- The letter of an escape that has one; 0 for the others.
unfoldable pub short_escape : ℕ → ℕ
short_escape byte =
    if byte == b'"'
    then b'"'
    else if byte == b'\\'
    then b'\\'
    else if byte == 8
    then b'b'
    else if byte == 12
    then b'f'
    else if byte == b'\n'
    then b'n'
    else if byte == b'\r'
    then b'r'
    else if byte == b'\t'
    then b't'
    else 0

abbrev pub hex : Text
hex = codes "0123456789abcdef"

unfoldable pub escape : ℕ → Text → Text
unfolding short_escape byte_at
escape byte out =
    let letter = short_escape byte in
    if letter == 0
    then out ++ (codes "\\u00" ++ (byte_at (byte / 16) hex ∷ byte_at (byte % 16) hex ∷ []))
    else out ++ (b'\\' ∷ letter ∷ [])

-- What follows a run: nothing, or a byte to escape and a turn more.
unfoldable pub after_run : (turn : Text → Text → Text) → Text → Text → Text
unfolding escape
after_run turn [] out = out
after_run turn (byte ∷ rest) out = turn rest (escape byte out)

module _ (machine : Machine) where
  -- The loop of `contents`; `fuel` bounds its turns.
  unfoldable pub contents_from : (fuel : ℕ) → Text → Text → Text
  unfolding after_run peek copy_clean
  contents_from zero bytes out = out
  contents_from (suc fuel) bytes out =
      let (run, m) = copy_clean machine.cpu bytes 0 (machine.spare out) in
      after_run (contents_from fuel) (drop run bytes) (out ++ peek run 0 m)

  unfoldable pub contents : Text → Text → Text
  unfolding contents_from
  contents bytes out = contents_from (suc (length bytes)) bytes out

  unfoldable pub long_string : Text → Text → Text
  unfolding contents
  long_string bytes out = contents bytes (out ++ (b'"' ∷ [])) ++ (b'"' ∷ [])

  unfoldable pub string : Text → Text → Text
  unfolding long_string short write peek
  string bytes out =
      let n = length bytes in
      let (clean, m) = short machine.cpu bytes 1 (machine.spare out) in
      let stored = write (1 + n) b'"' (write 0 b'"' m) in
      let long = long_string bytes out in
      if machine.fits out (1 + n + after)
      then (if clean then out ++ peek (1 + n + 1) 0 stored else long)
      else long

  unfoldable pub long_key : Bool → Text → Text → Text
  unfolding contents
  long_key comma bytes out =
      let opened = if comma then out ++ (b',' ∷ []) else out in
      contents bytes (opened ++ (b'"' ∷ [])) ++ (b'"' ∷ b':' ∷ [])

  unfoldable pub key : Bool → Text → Text → Text
  unfolding long_key short write peek
  key comma bytes out =
      let n = length bytes in
      let start = (if comma then 1 else 0) + 1 in
      let (clean, m) = short machine.cpu bytes start (machine.spare out) in
      let opened = write (start - 1) b'"' (write 0 b',' m) in
      let stored = write (start + n + 1) b':' (write (start + n) b'"' opened) in
      let long = long_key comma bytes out in
      if machine.fits out (2 + n + after)
      then (if clean then out ++ peek (start + n + 2) 0 stored else long)
      else long

  -- `{"key":`
  unfoldable pub open_variant : Text → Text → Text
  unfolding string
  open_variant variant out = string variant (out ++ (b'{' ∷ [])) ++ (b':' ∷ [])
