-- ===== src/Wire/Writer/Strings.antt =====
-- What the writer of strings writes, whatever machine it runs on.
use plexus_core.Base.{
  ℕ, zero, suc, Text, true, false, [], ◌∷◌, ◌++◌, ◌<◌, ◌≡◌, refl, arith, if◌then◌else◌, ◌==◌,
  nat_eq, length, take, drop, length-drop, if_cases, if_true, if_false, append_assoc, append-nil,
  sym, ◌∙◌, ap, ap₂, inl, inr, Bool-cases,
}
use plexus_core.Wire.Scan.{escaped, clean_run}
use plexus_core.Wire.Scan.Blocks.{copy_clean-Copies, copy_clean-peek}
use plexus_core.Wire.Writer.{Machine, after_run, short_escape, escape, contents_from, contents}

-- A byte at a time: each as it is, or escaped.
unfoldable pub escape_text : Text → Text
unfolding escaped escape
escape_text [] = []
escape_text (b ∷ bs) = (if escaped b then escape b [] else b ∷ []) ++ escape_text bs

abbrev pub quoted : Text → Text
quoted s = b'"' ∷ (escape_text s ++ (b'"' ∷ []))

escape-append : (b : ℕ) (out : Text) → escape b out ≡ out ++ escape b []
unfolding escape
escape-append b out =
    if_cases (λ t. t ≡ out ++ escape b []) (short_escape b == 0) (λ h. rw (h, escape) refl)
      (λ h. rw (h, escape) refl)

pub escape_text-hit :
    (b : ℕ) (bs : Text) → escaped b ≡ true → escape_text (b ∷ bs) ≡ escape b [] ++ escape_text bs
unfolding escape_text
escape_text-hit b bs h =
    ap (λ (t : Text). t ++ escape_text bs) (if_true (escaped b) (escape b []) (b ∷ []) h)

pub escape_text-miss :
    (b : ℕ) (bs : Text) → escaped b ≡ false → escape_text (b ∷ bs) ≡ b ∷ escape_text bs
unfolding escape_text
escape_text-miss b bs h =
    ap (λ (t : Text). t ++ escape_text bs) (if_false (escaped b) (escape b []) (b ∷ []) h)

clean_run-at_hit : (b : ℕ) (bs : Text) → escaped b ≡ true → clean_run (b ∷ bs) ≡ 0
unfolding clean_run
clean_run-at_hit b bs h = if_true (escaped b) 0 (suc (clean_run bs)) h

clean_run-at_miss :
    (b : ℕ) (bs : Text) → escaped b ≡ false → clean_run (b ∷ bs) ≡ suc (clean_run bs)
unfolding clean_run
clean_run-at_miss b bs h = if_false (escaped b) 0 (suc (clean_run bs)) h

pub escape_text-append : (s t : Text) → escape_text (s ++ t) ≡ escape_text s ++ escape_text t
unfolding escape_text
escape_text-append [] t = refl
escape_text-append (b ∷ s) t = elim (Bool-cases (escaped b)) [
  | inl h ↦
      rw (escape_text-hit b (s ++ t) h, escape_text-hit b s h, escape_text-append s t)
        (sym (append_assoc (escape b []) (escape_text s) (escape_text t)))
  | inr h ↦ rw (escape_text-miss b (s ++ t) h, escape_text-miss b s h, escape_text-append s t) refl
]

-- The run as it is, then what follows it.
escape_text-run :
    (s : Text) → escape_text s ≡ take (clean_run s) s ++ escape_text (drop (clean_run s) s)
unfolding escape_text clean_run
escape_text-run [] = refl
escape_text-run (b ∷ bs) = elim (Bool-cases (escaped b)) [
  | inl h ↦ rw (clean_run-at_hit b bs h) refl
  | inr h ↦
      rw (clean_run-at_miss b bs h, escape_text-miss b bs h)
        (ap (λ (t : Text). b ∷ t) (escape_text-run bs))
]

-- What follows the run is to be escaped.
drop-run-escaped : (s rest : Text) (b : ℕ) → drop (clean_run s) s ≡ b ∷ rest → escaped b ≡ true
unfolding clean_run
drop-run-escaped [] rest b h = cc
drop-run-escaped (c ∷ s) rest b h = elim (Bool-cases (escaped c)) [
  | inl hit ↦
      let same : ◌≡◌ {A = Text} (c ∷ s) (b ∷ rest) = rw (clean_run-at_hit c s hit) at h in
      let e : c ≡ b = ground arith in rw e at hit
  | inr miss ↦ drop-run-escaped s rest b (rw (clean_run-at_miss c s miss) at h)
]

contents_step :
    (s rest : Text) (b : ℕ) (out : Text)
    → drop (clean_run s) s ≡ b ∷ rest
    → escape b (out ++ take (clean_run s) s) ++ escape_text rest ≡ out ++ escape_text s
contents_step s rest b out h =
    let run = take (clean_run s) s in
    rw
      (
        escape-append b (out ++ run),
        escape_text-run s,
        h,
        escape_text-hit b rest (drop-run-escaped s rest b h),
      )
      (append_assoc (out ++ run) (escape b []) (escape_text rest)
        ∙ append_assoc out run (escape b [] ++ escape_text rest))

after_run-escape_text :
    (fuel : ℕ) (turn : Text → Text → Text) (s rest out : Text)
    → ((s out : Text) → length s < fuel → turn s out ≡ out ++ escape_text s)
    → drop (clean_run s) s ≡ rest
    → length s < suc fuel
    → after_run turn rest (out ++ take (clean_run s) s) ≡ out ++ escape_text s
unfolding after_run escape_text
after_run-escape_text fuel turn s [] out ih h lt =
    rw (escape_text-run s, h)
      (ap (λ (t : Text). out ++ t) (sym (append-nil (take (clean_run s) s))))
after_run-escape_text fuel turn s (b ∷ rest) out ih h lt =
    let shorter = length-drop (clean_run s) s in
    let n = ap length h in
    ih rest (escape b (out ++ take (clean_run s) s)) (omega arith) ∙ contents_step s rest b out h

whole : (s : Text) → take (length s) s ++ escape_text (drop (length s) s) ≡ s
unfolding escape_text
whole [] = refl
whole (b ∷ s) = ap (λ (t : Text). b ∷ t) (whole s)

pub clean-escape_text : (s : Text) → clean_run s ≡ length s → escape_text s ≡ s
unfolding escape_text
clean-escape_text s h = rw (escape_text-run s, h) (whole s)

module _ (machine : Machine) where
  contents_from-escape_text :
      (fuel : ℕ) (s out : Text)
      → length s < fuel
      → contents_from machine fuel s out ≡ out ++ escape_text s
  unfolding contents_from
  contents_from-escape_text zero s out h = ground arith
  contents_from-escape_text (suc fuel) s out h =
      let c = copy_clean-Copies machine.cpu s 0 (machine.spare out) in
      let turn = contents_from machine fuel in
      ap₂ (λ n (t : Text). after_run turn (drop n s) (out ++ t)) c.run
        (copy_clean-peek machine.cpu s 0 (machine.spare out))
      ∙ after_run-escape_text fuel turn s (drop (clean_run s) s) out
          (contents_from-escape_text fuel) refl h

  -- The scan, block by block, escapes as a byte at a time would.
  pub contents-escape_text : (s out : Text) → contents machine s out ≡ out ++ escape_text s
  unfolding contents
  contents-escape_text s out = contents_from-escape_text (suc (length s)) s out (omega arith)
