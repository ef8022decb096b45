-- ===== src/Wire/Scan/Bytes.antt =====
-- Bytes, blocks and memory: what a block's compare says of its bytes, and what a store leaves.
use plexus_core.Base.{
  ℕ, zero, suc, Text, true, false, [], ◌∷◌, ◌+◌, ◌*◌, ◌/◌, ◌%◌, ◌≤◌, ◌<◌, ◌≡◌, ◌≢◌, refl, arith,
  ◌==◌, nat_eq, length, take, drop, Bool-cases, inl, inr, sym, ◌∙◌, ap, ap₂,
}
use plexus_core.Wire.Scan.{
  Memory, write, store, peek, escaped, clean_run, lane_hit, hits, trailing_zeros, byte_at,
}

pub lane_hit-escaped : (b : ℕ) → lane_hit b ≡ escaped b
unfolding lane_hit escaped
lane_hit-escaped b = ground arith

pub clean_run-le : (xs : Text) → clean_run xs ≤ length xs
unfolding clean_run
clean_run-le [] = omega arith
clean_run-le (x ∷ xs) = ground (arith, clean_run-le xs)

pub hits-clean : (xs : Text) → hits xs ≡ 0 → clean_run xs ≡ length xs
unfolding hits clean_run
hits-clean [] h = refl
hits-clean (x ∷ xs) h = ground (arith, hits-clean xs, lane_hit-escaped x)

bit_set : (h : ℕ) → ((1 + 2 * h) % 2 == 1) ≡ true
bit_set h = ground arith

bit_clear : (h : ℕ) → ((0 + 2 * h) % 2 == 1) ≡ false
bit_clear h = ground arith

shifted : (h : ℕ) → (0 + 2 * h) / 2 ≡ h
shifted h = omega arith

pub trailing_zeros-hits :
    (w : ℕ) (xs : Text) → length xs ≤ w → hits xs ≢ 0 → trailing_zeros w (hits xs) ≡ clean_run xs
unfolding hits clean_run trailing_zeros
trailing_zeros-hits w [] h ne = absurd (ne refl)
trailing_zeros-hits zero (x ∷ xs) h ne = ground arith
trailing_zeros-hits (suc w) (x ∷ xs) h ne = elim (Bool-cases (lane_hit x)) [
  | inl hit ↦ rw (hit, bit_set (hits xs), sym (lane_hit-escaped x) ∙ hit, clean_run) refl
  | inr miss ↦
      let below : hits xs ≢ 0 = λ none_set. ne (ground arith) in
      rw
        (
          miss,
          bit_clear (hits xs),
          shifted (hits xs),
          clean_run,
          sym (lane_hit-escaped x) ∙ miss,
          trailing_zeros-hits w xs (omega arith) below,
        )
        refl
]

pub clean_run-hit : (xs : Text) → hits xs ≢ 0 → clean_run xs < length xs
unfolding hits clean_run
clean_run-hit [] ne = absurd (ne refl)
clean_run-hit (x ∷ xs) ne = ground (arith, clean_run-hit xs, lane_hit-escaped x)

-- A clean block at the head: the run goes on in the rest.
pub clean_run-clean_block :
    (n : ℕ) (xs : Text)
    → clean_run (take n xs) ≡ length (take n xs)
    → clean_run xs ≡ length (take n xs) + clean_run (drop n xs)
unfolding clean_run
clean_run-clean_block zero xs h = omega arith
clean_run-clean_block (suc n) [] h = refl
clean_run-clean_block (suc n) (x ∷ xs) h = ground (arith, clean_run-clean_block n xs)

-- A block with a byte to escape: the run ends in it.
pub clean_run-block :
    (n : ℕ) (xs : Text)
    → clean_run (take n xs) < length (take n xs)
    → clean_run xs ≡ clean_run (take n xs)
unfolding clean_run
clean_run-block zero xs h = ground arith
clean_run-block (suc n) [] h = refl
clean_run-block (suc n) (x ∷ xs) h = ground (arith, clean_run-block n xs)

pub byte_at-take : (i n : ℕ) (xs : Text) → i < n → byte_at i (take n xs) ≡ byte_at i xs
unfolding byte_at
byte_at-take i zero xs h = ground arith
byte_at-take i (suc n) [] h = refl
byte_at-take zero (suc n) (x ∷ xs) h = refl
byte_at-take (suc i) (suc n) (x ∷ xs) h = byte_at-take i n xs (omega arith)

pub byte_at-drop : (i n : ℕ) (xs : Text) → byte_at i (drop n xs) ≡ byte_at (n + i) xs
unfolding byte_at
byte_at-drop i zero xs = ap (λ k. byte_at k xs) (omega arith)
byte_at-drop i (suc n) [] = refl
byte_at-drop i (suc n) (x ∷ xs) =
    let e : suc (n + i) ≡ suc n + i = omega arith in
    byte_at-drop i n xs ∙ ap (λ k. byte_at k (x ∷ xs)) e

-- Each byte clean: the run is the whole.
pub clean_run-all :
    (xs : Text)
    → ((i : ℕ) → i < length xs → escaped (byte_at i xs) ≡ false)
    → clean_run xs ≡ length xs
unfolding clean_run byte_at
clean_run-all [] h = refl
clean_run-all (x ∷ xs) h =
    let here : escaped x ≡ false = h 0 (omega arith) in
    let later = clean_run-all xs (λ i lt. h (suc i) (omega arith)) in ground arith

pub clean_run-clean_at : (xs : Text) (i : ℕ) → i < clean_run xs → escaped (byte_at i xs) ≡ false
unfolding clean_run byte_at
clean_run-clean_at [] i h = ground arith
clean_run-clean_at (x ∷ xs) zero h = ground arith
clean_run-clean_at (x ∷ xs) (suc i) h = ground (arith, clean_run-clean_at xs i)

pub store-before : (p : ℕ) (bs : Text) (m : Memory) (q : ℕ) → q < p → store p bs m q ≡ m q
unfolding store write
store-before p [] m q h = refl
store-before p (b ∷ bs) m q h = ground (arith, store-before (suc p) bs (write p b m) q)

pub store-after :
    (p : ℕ) (bs : Text) (m : Memory) (q : ℕ) → p + length bs ≤ q → store p bs m q ≡ m q
unfolding store write
store-after p [] m q h = refl
store-after p (b ∷ bs) m q h = ground (arith, store-after (suc p) bs (write p b m) q)

pub store-at :
    (p : ℕ) (bs : Text) (m : Memory) (i : ℕ) → i < length bs → store p bs m (p + i) ≡ byte_at i bs
unfolding store write byte_at
store-at p [] m i h = ground arith
store-at p (b ∷ bs) m zero h =
    store-before (suc p) bs (write p b m) (p + 0) (omega arith) ∙ ground arith
store-at p (b ∷ bs) m (suc i) h =
    let e : p + suc i ≡ suc p + i = omega arith in
    ap (store (suc p) bs (write p b m)) e ∙ store-at (suc p) bs (write p b m) i (omega arith)

pub peek-copied :
    (n p : ℕ) (m : Memory) (xs : Text)
    → n ≤ length xs
    → ((i : ℕ) → i < n → m (p + i) ≡ byte_at i xs)
    → peek n p m ≡ take n xs
unfolding peek byte_at
peek-copied zero p m xs le h = refl
peek-copied (suc n) p m [] le h = ground arith
peek-copied (suc n) p m (x ∷ xs) le h =
    let e : p ≡ p + 0 = omega arith in
    let first : m p ≡ x = ap m e ∙ h 0 (omega arith) in
    let rest =
      peek-copied n (suc p) m xs (omega arith) (λ i lt.
        let e' : suc p + i ≡ p + suc i = omega arith in ap m e' ∙ h (suc i) (omega arith)) in
    ap₂ (λ (y : ℕ) (t : Text). y ∷ t) first rest
