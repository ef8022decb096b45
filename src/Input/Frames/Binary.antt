-- ===== src/Input/Frames/Binary.antt =====
-- The binary frame that a client writes, and what the table reads of it.
use plexus_core.Base.{
  ℕ, ◌-◌, ◌/◌, ◌%◌, ◌<◌, ◌≡◌, none, some, true, List, ◌∷◌, length, arith, if_cases, ltb, false,
  ◌||◌, ◌∙◌, ap,
}
use plexus_core.Base.Word.{u64_mod}
use plexus_core.Input.Table.{one, InputTable, Delivered, arrive}
use plexus_core.Input.Frames.{take_binary, stray_binary}
use plexus_core.Input.Frames.Bytes.{be_word}

-- `u64::to_be_bytes`, before the bytes that follow.
abbrev pub be_bytes : ℕ → List ℕ → List ℕ
be_bytes n rest =
    n / 72057594037927936 % 256
    ∷ n / 281474976710656 % 256
    ∷ n / 1099511627776 % 256
    ∷ n / 4294967296 % 256
    ∷ n / 16777216 % 256
    ∷ n / 65536 % 256
    ∷ n / 256 % 256
    ∷ n % 256
    ∷ rest

-- The tag, the subscription, the frame's number and its payload.
abbrev pub binary_frame : (sub seq : ℕ) → List ℕ → List ℕ
binary_frame sub seq payload = 1 ∷ be_bytes sub (be_bytes seq payload)

be_word-be_bytes : (n : ℕ) (rest : List ℕ) → n < u64_mod → be_word 8 (be_bytes n rest) ≡ n
unfolding be_word
be_word-be_bytes n rest h = omega arith

-- A binary frame arrives as what its client wrote: one raw item, the payload, for the call and
-- under the number that its header spells, both below 2^64.
pub take_binary-binary_frame :
    (sub seq : ℕ) (payload : List ℕ) (t : InputTable (List ℕ))
    → sub < u64_mod
    → seq < u64_mod
    → take_binary (binary_frame sub seq payload) t
      ≡ stray_binary (arrive sub none seq 1 (length payload) true (one (some payload)) t)
unfolding take_binary
take_binary-binary_frame sub seq payload t h k =
    if_cases (λ (m : InputTable (List ℕ) × Delivered). m ≡ arrives sub seq (length payload))
      (ltb (length (binary_frame sub seq payload)) 17 || false) (λ short. absurd (ground arith))
      (λ long.
        ap (λ n. arrives n read_seq read_length) (be_word-be_bytes sub (be_bytes seq payload) h)
        ∙ ap (λ n. arrives sub n read_length) (be_word-be_bytes seq payload k)
        ∙ ap (arrives sub seq) (omega arith))
  where
    arrives : ℕ → ℕ → ℕ → InputTable (List ℕ) × Delivered
    arrives a b n = stray_binary (arrive a none b 1 n true (one (some payload)) t)

    read_seq : ℕ
    read_seq = be_word 8 (be_bytes seq payload)

    read_length : ℕ
    read_length = length (binary_frame sub seq payload) - 17
