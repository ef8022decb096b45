-- ===== src/Wire/Scan/Blocks.antt =====
-- The loops over blocks, and the scan that the build and the CPU choose.
use plexus_core.Base.{
  ℕ, zero, suc, Text, Bool, true, false, [], ◌∷◌, ◌+◌, ◌≤◌, ◌<◌, ◌≡◌, ◌⊎◌, refl, arith, length,
  take, drop, length-drop, inl, inr, sym, ◌∙◌, ap, ltb, leb, ◌==◌, nat_eq, Bool-cases, tests,
  if_cases, ltb→lt, eq_of_beq, ne_of_beq, if◌then◌else◌, ◌&&◌,
}
use mathlib.Core.Path.{subst}
use plexus_core.Wire.Scan.{
  Memory, store, clean_run, hits, trailing_zeros, tail, sse2_from, sse2, avx2_from, avx2,
  x86_copy_clean, copy_clean, short, short_run, Cpu, x86_64, other, peek,
}
use plexus_core.Wire.Scan.Bytes.{clean_run-le, peek-copied}
use plexus_core.Wire.Scan.Copies.{Stands, Copies, one_at_a_time-Copies, Copies-hit, Copies-block}
use plexus_core.Wire.Scan.Words.{tail-Copies}

-- How far a loop that began at `at` got, and that it scanned the rest.
abbrev ScansFrom : ℕ → Text → ℕ → Memory → ℕ × Memory → Type 0
ScansFrom at rest dst m done = (r : ℕ) × (done.0 ≡ at + r) × Copies rest (dst + at) m (r, done.1)

ScansFrom-block :
    (n at : ℕ) (rest : Text) (dst : ℕ) (m : Memory) (done : ℕ × Memory)
    → n ≤ length rest
    → hits (take n rest) ≡ 0
    → ScansFrom (at + n) (drop n rest) dst (store (dst + at) (take n rest) m) done
    → ScansFrom at rest dst m done
ScansFrom-block n at rest dst m done le none_hit (r, far, c) =
    let e : dst + (at + n) ≡ dst + at + n = omega arith in
    (n + r, omega arith, Copies-block n rest (dst + at) r m done.1 le none_hit (rw e at c))

sse2_from-Scans :
    (fuel at : ℕ) (rest : Text) (dst : ℕ) (m : Memory)
    → length rest < fuel
    → ScansFrom at rest dst m (sse2_from fuel at rest dst m)
unfolding sse2_from
sse2_from-Scans zero at rest dst m h = ground arith
sse2_from-Scans (suc fuel) at rest dst m h =
    let block = take 16 rest in
    let l = length-drop 16 rest in
    if_cases (ScansFrom at rest dst m) (leb 16 (length rest))
      (λ long.
        let le : 16 ≤ length rest = omega tests in
        if_cases (ScansFrom at rest dst m) (hits block == 0)
          (λ none_hit.
            ScansFrom-block 16 at rest dst m
              (sse2_from fuel (at + 16) (drop 16 rest) dst (store (dst + at) block m)) le
              (eq_of_beq (hits block) 0 none_hit)
              (sse2_from-Scans fuel (at + 16) (drop 16 rest) dst (store (dst + at) block m)
                (omega arith)))
          (λ some_hit. (
            trailing_zeros 32 (hits block),
            refl,
            Copies-hit 16 rest (dst + at) m le (omega arith) (ne_of_beq (hits block) 0 some_hit),
          )))
      (λ few. ((tail rest (dst + at) m).0, refl, tail-Copies rest (dst + at) m (ground arith)))

Copies-start :
    (src : Text) (dst : ℕ) (m : Memory) (done : ℕ × Memory)
    → ScansFrom 0 src dst m done
    → Copies src dst m done
Copies-start src dst m done (r, far, c) =
    let e : dst + 0 ≡ dst = omega arith in let same : r ≡ done.0 = omega arith in rw (e, same) at c

sse2-Copies : (src : Text) (dst : ℕ) (m : Memory) → Copies src dst m (sse2 src dst m)
unfolding sse2
sse2-Copies src dst m =
    Copies-start src dst m (sse2 src dst m)
      (sse2_from-Scans (suc (length src)) 0 src dst m (omega arith))

-- What the loop of 32 bytes leaves: a scan of the rest where it found a byte to escape; where it
-- found none, whatever scans what is left from where it stopped has scanned the rest.
data HandsOver (at : ℕ) (rest : Text) (dst : ℕ) (m : Memory) (done : ℕ × Bool × Memory)
    : Type 0 where
  found : done.1 ≡ true → ScansFrom at rest dst m (done.0, done.2) → HandsOver at rest dst m done
  left :
      (r : ℕ)
      → done.1 ≡ false
      → done.0 ≡ at + r
      → ((later : ℕ × Memory)
          → ScansFrom (at + r) (drop r rest) dst done.2 later
          → ScansFrom at rest dst m later)
      → HandsOver at rest dst m done

drop-nil : (n : ℕ) → drop {A = ℕ} n [] ≡ []
drop-nil zero = refl
drop-nil (suc n) = refl

drop-drop : (n k : ℕ) (xs : Text) → drop n (drop k xs) ≡ drop (k + n) xs
drop-drop n zero xs = ap (λ j. drop j xs) (omega arith)
drop-drop n (suc k) [] = drop-nil n ∙ sym (drop-nil (suc k + n))
drop-drop n (suc k) (x ∷ xs) =
    let e : suc (k + n) ≡ suc k + n = omega arith in drop-drop n k xs ∙ ap (λ j. drop j (x ∷ xs)) e

HandsOver-block :
    (n at : ℕ) (rest : Text) (dst : ℕ) (m : Memory) (done : ℕ × Bool × Memory)
    → n ≤ length rest
    → hits (take n rest) ≡ 0
    → HandsOver (at + n) (drop n rest) dst (store (dst + at) (take n rest) m) done
    → HandsOver at rest dst m done
HandsOver-block n at rest dst m done le none_hit (found hit s) =
    found hit (ScansFrom-block n at rest dst m (done.0, done.2) le none_hit s)
HandsOver-block n at rest dst m done le none_hit (left r miss far then_scan) =
    let e : at + (n + r) ≡ at + n + r = omega arith in
    left (n + r) miss (omega arith) (λ later s.
      ScansFrom-block n at rest dst m later le none_hit
        (then_scan later (rw (sym (drop-drop r n rest), e) at s)))

avx2_from-HandsOver :
    (fuel at : ℕ) (rest : Text) (dst : ℕ) (m : Memory)
    → length rest < fuel
    → HandsOver at rest dst m (avx2_from fuel at rest dst m)
unfolding avx2_from
avx2_from-HandsOver zero at rest dst m h = ground arith
avx2_from-HandsOver (suc fuel) at rest dst m h =
    let block = take 32 rest in
    let l = length-drop 32 rest in
    if_cases (HandsOver at rest dst m) (leb 32 (length rest))
      (λ long.
        let le : 32 ≤ length rest = omega tests in
        if_cases (HandsOver at rest dst m) (hits block == 0)
          (λ none_hit.
            HandsOver-block 32 at rest dst m
              (avx2_from fuel (at + 32) (drop 32 rest) dst (store (dst + at) block m)) le
              (eq_of_beq (hits block) 0 none_hit)
              (avx2_from-HandsOver fuel (at + 32) (drop 32 rest) dst (store (dst + at) block m)
                (omega arith)))
          (λ some_hit. found refl (
            trailing_zeros 32 (hits block),
            refl,
            Copies-hit 32 rest (dst + at) m le (omega arith) (ne_of_beq (hits block) 0 some_hit),
          )))
      (λ few. left 0 refl (omega arith) (λ later s. let e : at + 0 ≡ at = omega arith in rw e at s))

-- The scan of the rest by blocks of 16 bytes finishes what the one by 32 left.
rest_by_sse2 :
    (src : Text) (dst : ℕ) (m : Memory) (d : ℕ × Bool × Memory)
    → HandsOver 0 src dst m d
    → Copies src dst m (
        if d.1 then (d.0, d.2) else (
          d.0 + (sse2 (drop d.0 src) (dst + d.0) d.2).0,
          (sse2 (drop d.0 src) (dst + d.0) d.2).1,
        ))
rest_by_sse2 src dst m d (found hit s) = rw hit (Copies-start src dst m (d.0, d.2) s)
rest_by_sse2 src dst m d (left r miss far then_scan) =
    let last = sse2 (drop d.0 src) (dst + d.0) d.2 in
    let same : d.0 ≡ 0 + r = far in
    let same' : d.0 ≡ r = omega arith in
    let c : Copies (drop r src) (dst + (0 + r)) d.2 last =
      subst (λ k. Copies (drop k src) (dst + (0 + r)) d.2 last) same'
        (subst (λ k. Copies (drop d.0 src) (dst + k) d.2 last) far
          (sse2-Copies (drop d.0 src) (dst + d.0) d.2)) in
    rw miss (
      Copies-start src dst m (d.0 + last.0, last.1)
        (then_scan (d.0 + last.0, last.1) (last.0, omega arith, c)))

x86_copy_clean-Copies :
    (has_avx2 : Bool) (src : Text) (dst : ℕ) (m : Memory)
    → Copies src dst m (x86_copy_clean has_avx2 src dst m)
unfolding x86_copy_clean avx2
x86_copy_clean-Copies has_avx2 src dst m =
    if_cases (Copies src dst m) (leb 32 (length src) && has_avx2)
      (λ wide.
        rest_by_sse2 src dst m (avx2 src dst m)
          (avx2_from-HandsOver (suc (length src)) 0 src dst m (omega arith)))
      (λ narrow. sse2-Copies src dst m)

-- Whatever the CPU, the scan finds the clean run, copies it, and writes nothing outside.
pub copy_clean-Copies :
    (cpu : Cpu) (src : Text) (dst : ℕ) (m : Memory) → Copies src dst m (copy_clean cpu src dst m)
unfolding copy_clean
copy_clean-Copies (x86_64 has_avx2) src dst m = x86_copy_clean-Copies has_avx2 src dst m
copy_clean-Copies other src dst m = one_at_a_time-Copies src dst m

-- What a scan copied is the clean run's bytes.
pub copy_clean-peek :
    (cpu : Cpu) (src : Text) (dst : ℕ) (m : Memory)
    → peek (copy_clean cpu src dst m).0 dst (copy_clean cpu src dst m).1 ≡ take (clean_run src) src
copy_clean-peek cpu src dst m =
    let done = copy_clean cpu src dst m in
    let c = copy_clean-Copies cpu src dst m in
    let le = clean_run-le src in
    let same = c.run in
    peek-copied done.0 dst done.1 src (omega arith) c.copied ∙ ap (λ n. take n src) same

short_run-Copies :
    (cpu : Cpu) (src : Text) (dst : ℕ) (m : Memory)
    → length src < 16
    → Copies src dst m (short_run cpu src dst m)
unfolding short_run
short_run-Copies (x86_64 has_avx2) src dst m h = tail-Copies src dst m h
short_run-Copies other src dst m h = one_at_a_time-Copies src dst m

-- Where the short path says yes, the text is clean and stands copied.
pub short-clean :
    (cpu : Cpu) (src : Text) (dst : ℕ) (m : Memory)
    → (short cpu src dst m).0 ≡ true
    → (clean_run src ≡ length src)
      × Stands src (length src) dst (short cpu src dst m).1
      × ((q : ℕ) → (q < dst) ⊎ (dst + length src ≤ q) → (short cpu src dst m).1 q ≡ m q)
unfolding short
short-clean cpu src dst m h = elim (Bool-cases (ltb (length src) 16)) [
  | inr long ↦ cc (rw (long, short) at h)
  | inl few ↦
      let c = short_run-Copies cpu src dst m (ltb→lt (length src) 16 few) in
      let done = short_run cpu src dst m in
      let whole : done.0 ≡ length src = eq_of_beq done.0 (length src) (rw few at h) in
      rw few (sym c.run ∙ whole, subst (λ n. Stands src n dst done.1) whole c.copied, c.bounded)
]
