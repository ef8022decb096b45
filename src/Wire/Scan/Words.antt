-- ===== src/Wire/Scan/Words.antt =====
-- Fewer than 16 bytes, by two overlapping words: every byte is looked at and stored.
use plexus_core.Base.{
  ℕ, zero, suc, Text, false, [], ◌∷◌, ◌++◌, ◌+◌, ◌-◌, ◌≤◌, ◌<◌, ◌≡◌, refl, arith, length, take,
  drop, length-take, length-drop, inl, inr, sym, ◌∙◌, ap, ltb, leb, ◌==◌, nat_eq, Bool-cases, tests,
  if_cases,
}
use plexus_core.Wire.Scan.{
  Memory, store, write, escaped, clean_run, hits, byte_at, one_at_a_time, words, tail,
}
use plexus_core.Wire.Scan.Bytes.{
  hits-clean, byte_at-take, byte_at-drop, store-before, store-at, clean_run-all, clean_run-clean_at,
}
use plexus_core.Wire.Scan.Copies.{
  AgreeOutside, Stands, Copies, AgreeOutside-store, AgreeOutside-trans, Copies-over,
  one_at_a_time-Copies,
}

abbrev Clean : Text → Type 0
Clean src = (i : ℕ) → i < length src → escaped (byte_at i src) ≡ false

hits-left : (a b : Text) → hits (a ++ b) ≡ 0 → hits a ≡ 0
unfolding hits
hits-left [] b h = refl
hits-left (x ∷ a) b h = ground (arith, hits-left a b)

hits-right : (a b : Text) → hits (a ++ b) ≡ 0 → hits b ≡ 0
unfolding hits
hits-right [] b h = h
hits-right (x ∷ a) b h = ground (arith, hits-right a b)

hits-Clean : (xs : Text) → hits xs ≡ 0 → Clean xs
hits-Clean xs h i lt = clean_run-clean_at xs i (rw (hits-clean xs h) lt)

-- What the words of a text have to do: no lane is hit only if the text is clean, and the text
-- stands in memory, no byte outside of it written.
record Covers (src : Text) (dst : ℕ) (m : Memory) (w : Text × Memory) : Type 0 where
  looked : hits w.0 ≡ 0 → Clean src
  stored : Stands src (length src) dst w.1
  bounded : AgreeOutside dst (length src) m w.1

module _ (k : ℕ) (src : Text) (dst : ℕ) (m : Memory) (ge : k ≤ length src)
    (le : length src ≤ k + k) where
  abbrev lo : Text
  lo = take k src

  abbrev hi : Text
  hi = drop (length src - k) src

  two-Clean : Clean lo → Clean hi → Clean src
  two-Clean h₁ h₂ i lt =
      let d = length src - k in
      let l₁ = length-take k src in
      let l₂ = length-drop d src in
      elim (Bool-cases (ltb i k)) [
        | inl h ↦ rw (byte_at-take i k src (omega tests)) at (h₁ i (omega tests))
        | inr h ↦
            let ge' : k ≤ i = ground arith in
            let e : d + (i - d) ≡ i = omega arith in
            rw (byte_at-drop (i - d) d src, e) at (h₂ (i - d) (omega arith))
      ]

  two_stored : Stands src (length src) dst (store (dst + (length src - k)) hi (store dst lo m))
  two_stored i lt =
      let d = length src - k in
      let l₁ = length-take k src in
      let l₂ = length-drop d src in
      elim (Bool-cases (ltb i d)) [
        | inl h ↦
            store-before (dst + d) hi (store dst lo m) (dst + i) (omega tests)
            ∙ (store-at dst lo m i (omega tests) ∙ byte_at-take i k src (omega tests))
        | inr h ↦
            let ge' : d ≤ i = ground arith in
            let e : d + (i - d) ≡ i = omega arith in
            let e' : dst + i ≡ dst + d + (i - d) = omega arith in
            ap (store (dst + d) hi (store dst lo m)) e'
            ∙ (store-at (dst + d) hi (store dst lo m) (i - d) (omega arith)
                ∙ (byte_at-drop (i - d) d src ∙ ap (λ j. byte_at j src) e))
      ]

  two_bounded : AgreeOutside dst (length src) m (store (dst + (length src - k)) hi (store dst lo m))
  two_bounded =
      let d = length src - k in
      let l₁ = length-take k src in
      let l₂ = length-drop d src in
      AgreeOutside-trans dst (length src) m (store dst lo m) (store (dst + d) hi (store dst lo m))
        (AgreeOutside-store dst (length src) dst lo m (omega arith) (omega arith))
        (AgreeOutside-store dst (length src) (dst + d) hi (store dst lo m) (omega arith)
          (omega arith))

abbrev eight_spaces : Text
eight_spaces = 32 ∷ 32 ∷ 32 ∷ 32 ∷ 32 ∷ 32 ∷ 32 ∷ 32 ∷ []

one_stored :
    (a dst : ℕ) (m : Memory)
    → Stands (a ∷ []) 1 dst (write (dst + 0) a (write (dst + 0) a (write dst a m)))
unfolding write byte_at
one_stored a dst m zero h = ground arith
one_stored a dst m (suc i) h = ground arith

two_bytes_stored :
    (a b dst : ℕ) (m : Memory)
    → Stands (a ∷ b ∷ []) 2 dst (write (dst + 1) b (write (dst + 1) b (write dst a m)))
unfolding write byte_at
two_bytes_stored a b dst m zero h = ground arith
two_bytes_stored a b dst m (suc zero) h = ground arith
two_bytes_stored a b dst m (suc (suc i)) h = ground arith

three_stored :
    (a b c dst : ℕ) (m : Memory)
    → Stands (a ∷ b ∷ c ∷ []) 3 dst (write (dst + 2) c (write (dst + 1) b (write dst a m)))
unfolding write byte_at
three_stored a b c dst m zero h = ground arith
three_stored a b c dst m (suc zero) h = ground arith
three_stored a b c dst m (suc (suc zero)) h = ground arith
three_stored a b c dst m (suc (suc (suc i))) h = ground arith

few-Covers :
    (src : Text) (dst : ℕ) (m : Memory)
    → length src < 4
    → 0 < length src
    → Covers src dst m (words src dst m)
unfolding words hits write byte_at
few-Covers [] dst m h k = ground arith
few-Covers (a ∷ []) dst m h k = record {
  looked =
      λ e. hits-Clean (a ∷ []) (hits-left (a ∷ []) (a ∷ a ∷ a ∷ a ∷ a ∷ a ∷ a ∷ eight_spaces) e);
  stored = one_stored a dst m;
  bounded = λ q out. ground arith;
}
few-Covers (a ∷ b ∷ []) dst m h k = record {
  looked = λ e.
      hits-Clean (a ∷ b ∷ []) (hits-left (a ∷ b ∷ []) (b ∷ a ∷ a ∷ b ∷ b ∷ a ∷ eight_spaces) e);
  stored = two_bytes_stored a b dst m;
  bounded = λ q out. ground arith;
}
few-Covers (a ∷ b ∷ c ∷ []) dst m h k = record {
  looked = λ e.
      hits-Clean (a ∷ b ∷ c ∷ []) (hits-left (a ∷ b ∷ c ∷ []) (a ∷ a ∷ b ∷ c ∷ a ∷ eight_spaces) e);
  stored = three_stored a b c dst m;
  bounded = λ q out. ground arith;
}
few-Covers (a ∷ b ∷ c ∷ d ∷ xs) dst m h k = ground arith

words-Covers :
    (src : Text) (dst : ℕ) (m : Memory)
    → length src < 16
    → 0 < length src
    → Covers src dst m (words src dst m)
unfolding words
words-Covers src dst m h k =
    let n = length src in
    let lo8 = take 8 src in
    let hi8 = drop (n - 8) src in
    let lo4 = take 4 src in
    let hi4 = drop (n - 4) src in
    if_cases (Covers src dst m) (leb 8 n)
      (λ long.
        let ge : 8 ≤ n = omega tests in
        record {
          looked = λ e.
              two-Clean 8 src dst m ge (omega arith) (hits-Clean lo8 (hits-left lo8 hi8 e))
                (hits-Clean hi8 (hits-right lo8 hi8 e));
          stored = two_stored 8 src dst m ge (omega arith);
          bounded = two_bounded 8 src dst m ge (omega arith);
        })
      (λ less.
        if_cases (Covers src dst m) (leb 4 n)
          (λ mid.
            let ge : 4 ≤ n = omega tests in
            let lt : n < 8 = ground arith in
            let last = λ (e : hits (lo4 ++ (lo4 ++ (hi4 ++ hi4))) ≡ 0).
              hits-right lo4 (hi4 ++ hi4) (hits-right lo4 (lo4 ++ (hi4 ++ hi4)) e) in
            record {
              looked = λ e.
                  two-Clean 4 src dst m ge (omega arith)
                    (hits-Clean lo4 (hits-left lo4 (lo4 ++ (hi4 ++ hi4)) e))
                    (hits-Clean hi4 (hits-left hi4 hi4 (last e)));
              stored = two_stored 4 src dst m ge (omega arith);
              bounded = two_bounded 4 src dst m ge (omega arith);
            })
          (λ few. rw (less, few, words) at (few-Covers src dst m (ground arith) k)))

pub tail-Copies :
    (src : Text) (dst : ℕ) (m : Memory) → length src < 16 → Copies src dst m (tail src dst m)
unfolding tail
tail-Copies [] dst m h = record {
  run = ground (arith, clean_run);
  copied = λ i lt. ground arith;
  bounded = λ q out. refl;
}
tail-Copies (b ∷ bs) dst m h =
    let src = b ∷ bs in
    let w = words src dst m in
    let c = words-Covers src dst m h (omega arith) in
    if_cases (Copies src dst m) (hits w.0 == 0)
      (λ none_hit. record {
        run = sym (clean_run-all src (c.looked (ground arith)));
        copied = c.stored;
        bounded = c.bounded;
      })
      (λ some_hit.
        Copies-over src dst m w.1 (one_at_a_time src dst w.1) c.bounded
          (one_at_a_time-Copies src dst w.1))
