-- ===== src/Wire/Scan/Copies.antt =====
-- What a scan promises: the length of the clean run, that run copied, and nothing written outside
-- of as many bytes as the text has; and how scans of blocks make up a scan of the whole.
use plexus_core.Base.{
  ℕ, Text, ◌+◌, ◌-◌, ◌≤◌, ◌<◌, ◌≡◌, ◌≢◌, ◌⊎◌, refl, arith, length, take, drop, length-take,
  length-drop, inl, inr, sym, ◌∙◌, ap, ltb, Bool-cases, tests,
}
use plexus_core.Wire.Scan.{Memory, store, clean_run, hits, trailing_zeros, byte_at, one_at_a_time}
use plexus_core.Wire.Scan.Bytes.{
  clean_run-le, hits-clean, trailing_zeros-hits, clean_run-hit, clean_run-clean_block,
  clean_run-block, byte_at-take, byte_at-drop, store-before, store-after, store-at,
}

-- Two memories agree outside of `n` bytes from `dst` on.
abbrev pub AgreeOutside : ℕ → ℕ → Memory → Memory → Type 0
AgreeOutside dst n m m' = (q : ℕ) → (q < dst) ⊎ (dst + n ≤ q) → m' q ≡ m q

-- The first `n` bytes of a text stand at `dst`.
abbrev pub Stands : Text → ℕ → ℕ → Memory → Type 0
Stands src n dst m = (i : ℕ) → i < n → m (dst + i) ≡ byte_at i src

pub record Copies (src : Text) (dst : ℕ) (m : Memory) (done : ℕ × Memory) : Type 0 where
  pub run : done.0 ≡ clean_run src
  pub copied : Stands src done.0 dst done.1
  pub bounded : AgreeOutside dst (length src) m done.1

pub AgreeOutside-store :
    (dst n p : ℕ) (bs : Text) (m : Memory)
    → dst ≤ p
    → p + length bs ≤ dst + n
    → AgreeOutside dst n m (store p bs m)
AgreeOutside-store dst n p bs m lo hi q (inl lt) = store-before p bs m q (omega arith)
AgreeOutside-store dst n p bs m lo hi q (inr ge) = store-after p bs m q (omega arith)

pub AgreeOutside-trans :
    (dst n : ℕ) (m m₁ m₂ : Memory)
    → AgreeOutside dst n m m₁
    → AgreeOutside dst n m₁ m₂
    → AgreeOutside dst n m m₂
AgreeOutside-trans dst n m m₁ m₂ h k q out = k q out ∙ h q out

-- What stood there before the scan does not matter.
pub Copies-over :
    (src : Text) (dst : ℕ) (m m₁ : Memory) (done : ℕ × Memory)
    → AgreeOutside dst (length src) m m₁
    → Copies src dst m₁ done
    → Copies src dst m done
Copies-over src dst m m₁ done h c = record {
  run = c.run;
  copied = c.copied;
  bounded = AgreeOutside-trans dst (length src) m m₁ done.1 h c.bounded;
}

pub one_at_a_time-Copies :
    (src : Text) (dst : ℕ) (m : Memory) → Copies src dst m (one_at_a_time src dst m)
unfolding one_at_a_time
one_at_a_time-Copies src dst m =
    let n = clean_run src in
    let le = clean_run-le src in
    let len = length-take n src in
    record {
      run = refl;
      copied = λ i lt. store-at dst (take n src) m i (omega arith) ∙ byte_at-take i n src lt;
      bounded = AgreeOutside-store dst (length src) dst (take n src) m (omega arith) (omega arith);
    }

-- A block with a byte to escape ends the scan.
pub Copies-hit :
    (n : ℕ) (src : Text) (dst : ℕ) (m : Memory)
    → n ≤ length src
    → n ≤ 32
    → hits (take n src) ≢ 0
    → Copies src dst m (trailing_zeros 32 (hits (take n src)), store dst (take n src) m)
Copies-hit n src dst m le small ne =
    let len = length-take n src in
    let lt = clean_run-hit (take n src) ne in
    let same = trailing_zeros-hits 32 (take n src) (omega arith) ne in
    record {
      run = same ∙ sym (clean_run-block n src lt);
      copied =
          λ i h. store-at dst (take n src) m i (omega arith) ∙ byte_at-take i n src (omega arith);
      bounded = AgreeOutside-store dst (length src) dst (take n src) m (omega arith) (omega arith);
    }

-- A clean block at the head, and the scan of the rest, are a scan of the whole.
pub Copies-block :
    (n : ℕ) (src : Text) (dst r : ℕ) (m m' : Memory)
    → n ≤ length src
    → hits (take n src) ≡ 0
    → Copies (drop n src) (dst + n) (store dst (take n src) m) (r, m')
    → Copies src dst m (n + r, m')
Copies-block n src dst r m m' le none_hit c =
    let block = take n src in
    let len = length-take n src in
    let len' = length-drop n src in
    let clean = clean_run-clean_block n src (hits-clean block none_hit) in
    let r-le = clean_run-le (drop n src) in
    let is_run = c.run in
    record {
      run = omega arith;
      copied = λ i lt. elim (Bool-cases (ltb i n)) [
        | inl h ↦
            c.bounded (dst + i) (inl (omega tests))
            ∙ (store-at dst block m i (omega tests) ∙ byte_at-take i n src (omega tests))
        | inr h ↦
            let i' = i - n in
            let ge : n ≤ i = ground arith in
            let e : dst + i ≡ dst + n + i' = omega arith in
            let e' : n + i' ≡ i = omega arith in
            ap m' e
            ∙ (c.copied i' (omega arith) ∙ (byte_at-drop i' n src ∙ ap (λ k. byte_at k src) e'))
      ];
      bounded = λ q out. elim out [
        | inl lt ↦ c.bounded q (inl (omega arith)) ∙ store-before dst block m q lt
        | inr ge ↦ c.bounded q (inr (omega arith)) ∙ store-after dst block m q (omega arith)
      ];
    }
