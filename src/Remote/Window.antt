-- ===== src/Remote/Window.antt =====
-- A window of the last minute's restarts (`ensure` of src/plexus/remote_child/link.rs).
use plexus_core.Base.{
  ℕ, suc, ◌-◌, ◌+◌, ◌≤◌, ◌<◌, ◌∷◌, List, [], ◌++◌, if◌then◌else◌, nat_eq, leb, ltb, length,
  length-append, append_assoc, All, All-concat, ◌≡◌, refl, sym, ap, ◌∙◌, arith, Bool-cases, inl,
  inr,
}
use plexus_core.Remote.Link.{minute, Backoff, expire_window}

-- How many of these times are less than a minute ago.
unfoldable pub recent : (now : ℕ) → List ℕ → ℕ
recent now [] = 0
recent now (t ∷ ts) = let rest = recent now ts in if ltb now (t + minute) then suc rest else rest

abbrev Old : ℕ → ℕ → Type 0
Old now t = t + minute ≤ now

recent-Old : (now : ℕ) (os ws : List ℕ) → All (Old now) os → recent now (os ++ ws) ≤ length ws
unfolding recent
recent-Old now [] [] h = omega arith
recent-Old now [] (w ∷ ws) h = ground (arith, recent-Old now [] ws h)
recent-Old now (o ∷ os) ws (h, hs) = ground (arith, h, recent-Old now os ws hs)

Old-later : (a b : ℕ) (os : List ℕ) → a ≤ b → All (Old a) os → All (Old b) os
Old-later a b [] h hs = tt
Old-later a b (o ∷ os) h (k, hs) = (omega (arith, h, k), Old-later a b os h hs)

-- What a window lost is old.
expire_window-Old :
    (now : ℕ) (ws : List ℕ) → (os : List ℕ) × (ws ≡ os ++ expire_window now ws) × All (Old now) os
unfolding expire_window
expire_window-Old now [] = ([], refl, tt)
expire_window-Old now (w ∷ ws) = elim (Bool-cases (leb minute (now - w))) [
  | inl old ↦
      let (os, split, hs) = expire_window-Old now ws in
      (w ∷ os, rw old (ap (λ (l : List ℕ). w ∷ l) split), (ground (arith, old), hs))
  | inr young ↦ ([], rw young refl, tt)
]

-- Every restart of the last minute is in the window, and they are within the limit.
abbrev pub Bounded : Backoff → (clock : ℕ) → List ℕ → List ℕ → Type 0
Bounded b clock window restarted =
    (os : List ℕ) × (restarted ≡ os ++ window) × All (Old clock) os × (length window ≤ b.per_minute)

pub Bounded-later :
    (b : Backoff) (c d : ℕ) (window restarted : List ℕ)
    → c ≤ d
    → Bounded b c window restarted
    → Bounded b d window restarted
Bounded-later b c d window restarted h (os, split, old, few) =
    (os, split, Old-later c d os h old, few)

pub Bounded-recent :
    (b : Backoff) (clock : ℕ) (window restarted : List ℕ)
    → Bounded b clock window restarted
    → recent clock restarted ≤ b.per_minute
Bounded-recent b clock window restarted (os, split, old, few) =
    rw split (omega (arith, recent-Old clock os window old, few))

pub Bounded-expire_window :
    (b : Backoff) (now : ℕ) (window restarted : List ℕ)
    → Bounded b now window restarted
    → Bounded b now (expire_window now window) restarted
Bounded-expire_window b now window restarted (os, split, old, few) =
    let (gone, parts, gone_old) = expire_window-Old now window in
    let longer : length window ≡ length gone + length (expire_window now window) =
      ap length parts ∙ length-append gone (expire_window now window) in
    (
      os ++ gone,
      split
          ∙ ap (λ (l : List ℕ). os ++ l) parts
          ∙ sym (append_assoc os gone (expire_window now window)),
      All-concat (Old now) os gone old gone_old,
      omega (arith, longer, few),
    )

pub Bounded-push :
    (b : Backoff) (now at : ℕ) (window restarted : List ℕ)
    → now ≤ at
    → length window < b.per_minute
    → Bounded b now window restarted
    → Bounded b at (window ++ (at ∷ [])) (restarted ++ (at ∷ []))
Bounded-push b now at window restarted h fewer (os, split, old, few) = (
  os,
  ap (λ (l : List ℕ). l ++ (at ∷ [])) split ∙ append_assoc os window (at ∷ []),
  Old-later now at os h old,
  omega (arith, fewer, length-append window (at ∷ [])),
)
