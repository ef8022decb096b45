-- ===== src/Wire/Scan.antt =====
-- `mod scan` of src/plexus/wire/json.rs: the clean run at the head of a string, found and copied
-- in one pass. A pointer is an address of a memory; a block's loads and stores are those of its
-- bytes, in their order; a vector compare is the list of its lanes' compares.

pub mod Bytes
pub mod Copies
pub mod Words
pub mod Blocks
use plexus_core.Base.{
  ℕ, zero, suc, Text, Bool, true, false, Option, none, some, [], ◌∷◌, ◌++◌, ◌+◌, ◌-◌, ◌*◌, ◌/◌, ◌%◌,
  if◌then◌else◌, ltb, leb, ◌==◌, ◌||◌, ◌&&◌, nat_eq, length, take, drop, min,
}

abbrev pub Memory : Type 0
Memory = ℕ → ℕ

-- `p.write(byte)`
unfoldable pub write : ℕ → ℕ → Memory → Memory
write p byte m = λ q. if q == p then byte else m q

-- The bytes of a block, written from `p` on.
unfoldable pub store : ℕ → Text → Memory → Memory
unfolding write
store p [] m = m
store p (b ∷ bs) m = store (suc p) bs (write p b m)

-- What stands in `n` bytes from `p` on.
unfoldable pub peek : ℕ → ℕ → Memory → Text
peek zero p m = []
peek (suc n) p m = m p ∷ peek n (suc p) m

unfoldable pub escaped : ℕ → Bool
escaped byte = ltb byte 32 || byte == b'"' || byte == b'\\'

-- `iter().position(|&b| escaped(b)).unwrap_or(src.len())`
unfoldable pub clean_run : Text → ℕ
unfolding escaped
clean_run [] = 0
clean_run (b ∷ bs) = if escaped b then 0 else suc (clean_run bs)

unfoldable pub one_at_a_time : Text → ℕ → Memory → ℕ × Memory
unfolding clean_run store
one_at_a_time src dst m = (clean_run src, store dst (take (clean_run src) src) m)

-- A lane of the compares: `min(b, 0x1f) == b`, a quote, a backslash.
unfoldable pub lane_hit : ℕ → Bool
lane_hit b = min b 31 == b || (b == b'"' || b == b'\\')

-- `movemask`: a bit each, the first lane's the lowest.
unfoldable pub hits : Text → ℕ
unfolding lane_hit
hits [] = 0
hits (b ∷ bs) = (if lane_hit b then 1 else 0) + 2 * hits bs

-- `u32::trailing_zeros`, of a mask of at most so many bits.
unfoldable pub trailing_zeros : ℕ → ℕ → ℕ
trailing_zeros zero mask = 0
trailing_zeros (suc n) mask = if mask % 2 == 1 then 0 else suc (trailing_zeros n (mask / 2))

-- The byte at an index, for an index within.
unfoldable pub byte_at : ℕ → Text → ℕ
byte_at i [] = 0
byte_at zero (b ∷ bs) = b
byte_at (suc i) (b ∷ bs) = byte_at i bs

-- The two overlapping words of fewer than 16 bytes, as stored at `dst`: the lanes compared, and
-- the memory after.
unfoldable pub words : Text → ℕ → Memory → Text × Memory
unfolding store write byte_at
words src dst m =
    let len = length src in
    let lo8 = take 8 src in
    let hi8 = drop (len - 8) src in
    let lo4 = take 4 src in
    let hi4 = drop (len - 4) src in
    let a = byte_at 0 src in
    let b = byte_at (len / 2) src in
    let c = byte_at (len - 1) src in
    let word = a ∷ b ∷ c ∷ a ∷ [] in
    let spaces = 32 ∷ 32 ∷ 32 ∷ 32 ∷ [] in
    if leb 8 len
    then (lo8 ++ hi8, store (dst + (len - 8)) hi8 (store dst lo8 m))
    else if leb 4 len
    then (lo4 ++ (lo4 ++ (hi4 ++ hi4)), store (dst + (len - 4)) hi4 (store dst lo4 m))
    else (
      word ++ (word ++ (spaces ++ spaces)),
      write (dst + (len - 1)) c (write (dst + len / 2) b (write dst a m)),
    )

unfoldable pub tail : Text → ℕ → Memory → ℕ × Memory
unfolding hits words one_at_a_time
tail [] dst m = (0, m)
tail (b ∷ bs) dst m =
    let src = b ∷ bs in
    let (lanes, stored) = words src dst m in
    if hits lanes == 0 then (length src, stored) else one_at_a_time src dst stored

-- The loop of `sse2`: `rest` is `&src[at..]`, and `fuel` bounds its turns.
unfoldable pub sse2_from : (fuel at : ℕ) (rest : Text) → ℕ → Memory → ℕ × Memory
unfolding hits trailing_zeros store tail
sse2_from zero at rest dst m = (at, m)
sse2_from (suc fuel) at rest dst m =
    let block = take 16 rest in
    let stored = store (dst + at) block m in
    let later = sse2_from fuel (at + 16) (drop 16 rest) dst stored in
    let last = tail rest (dst + at) m in
    if leb 16 (length rest)
    then if hits block == 0 then later else (at + trailing_zeros 32 (hits block), stored)
    else (at + last.0, last.1)

unfoldable pub sse2 : Text → ℕ → Memory → ℕ × Memory
unfolding sse2_from
sse2 src dst m = sse2_from (suc (length src)) 0 src dst m

-- The loop of `avx2`: how far it got, whether that is a byte to escape, and the memory.
unfoldable pub avx2_from : (fuel at : ℕ) (rest : Text) → ℕ → Memory → ℕ × Bool × Memory
unfolding hits trailing_zeros store
avx2_from zero at rest dst m = (at, false, m)
avx2_from (suc fuel) at rest dst m =
    let block = take 32 rest in
    let stored = store (dst + at) block m in
    let later = avx2_from fuel (at + 32) (drop 32 rest) dst stored in
    if leb 32 (length rest)
    then if hits block == 0 then later else (at + trailing_zeros 32 (hits block), true, stored)
    else (at, false, m)

unfoldable pub avx2 : Text → ℕ → Memory → ℕ × Bool × Memory
unfolding avx2_from
avx2 src dst m = avx2_from (suc (length src)) 0 src dst m

-- `target_arch`, and what `is_x86_feature_detected!("avx2")` says.
pub data Cpu : Type 0 where
  x86_64 : (has_avx2 : Bool) → Cpu
  other : Cpu

unfoldable pub x86_copy_clean : Bool → Text → ℕ → Memory → ℕ × Memory
unfolding avx2 sse2
x86_copy_clean has_avx2 src dst m =
    let (at, hit, stored) = avx2 src dst m in
    let (n, last) = sse2 (drop at src) (dst + at) stored in
    if leb 32 (length src) && has_avx2
    then (if hit then (at, stored) else (at + n, last))
    else sse2 src dst m

unfoldable pub copy_clean : Cpu → Text → ℕ → Memory → ℕ × Memory
unfolding x86_copy_clean one_at_a_time
copy_clean (x86_64 has_avx2) src dst m = x86_copy_clean has_avx2 src dst m
copy_clean other src dst m = one_at_a_time src dst m

-- The run that `short` looks at.
unfoldable short_run : Cpu → Text → ℕ → Memory → ℕ × Memory
unfolding tail one_at_a_time
short_run (x86_64 has_avx2) src dst m = tail src dst m
short_run other src dst m = one_at_a_time src dst m

-- Whether `src` is under 16 bytes and has nothing to escape, and the memory after.
unfoldable pub short : Cpu → Text → ℕ → Memory → Bool × Memory
unfolding short_run
short cpu src dst m =
    let (n, stored) = short_run cpu src dst m in
    if ltb (length src) 16 then (n == length src, stored) else (false, m)
