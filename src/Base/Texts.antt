-- ===== src/Base/Texts.antt =====
-- `str::split_once`, `str::split`, `str::ends_with` over texts, and their laws.
use Prim.Native.Nat.{ℕ}
use mathlib.Core.Path.{◌≡◌, refl, sym, ap, ap₂}
use mathlib.Core.Logic.{◌≢◌, inl, inr}
use mathlib.Core.Bool.{Bool, ◌||◌}
use mathlib.Core.Option.{Option, none, some}
use mathlib.Core.List.{List, [], ◌∷◌, ◌++◌}
use native.Mathlib.Omega.{arith}
use plexus_core.Base.Tests.{if◌then◌else◌, Bool-cases, Option-cases}
use plexus_core.Base.Lists.{All}
use plexus_core.Base.Equality.{Text, ◌==◌, nat_eq, text_eq}

-- What follows `pat` at the front of `s`.
unfoldable pub strip_prefix : Text → Text → Option Text
strip_prefix [] s = some s
strip_prefix (c ∷ pat) [] = none
strip_prefix (c ∷ pat) (x ∷ s) = if x == c then strip_prefix pat s else none

abbrev pub push_front : ℕ → Option (Text × Text) → Option (Text × Text)
push_front c none = none
push_front c (some (a, b)) = some (c ∷ a, b)

-- The parts before and after the first `pat`.
unfoldable pub split_once : Text → Text → Option (Text × Text)
unfolding strip_prefix
split_once pat [] = elim (strip_prefix pat []) [ none ↦ none | some r ↦ some ([], r) ]
split_once pat (c ∷ s) =
    let later = push_front c (split_once pat s) in
    elim (strip_prefix pat (c ∷ s)) [ none ↦ later | some r ↦ some ([], r) ]

-- The parts before and after the last `c`.
unfoldable pub rsplit_once : ℕ → Text → Option (Text × Text)
rsplit_once c [] = none
rsplit_once c (x ∷ s) = elim (rsplit_once c s) [
  | some (a, b) ↦ some (x ∷ a, b)
  | none ↦ if x == c then some ([], s) else none
]

abbrev pub extend_head : ℕ → List Text → List Text
extend_head c [] = (c ∷ []) ∷ []
extend_head c (p ∷ ps) = (c ∷ p) ∷ ps

-- The parts between the separators: one at least.
unfoldable pub split : ℕ → Text → List Text
split c [] = [] ∷ []
split c (x ∷ s) = if x == c then [] ∷ split c s else extend_head x (split c s)

-- `s.ends_with(pat)`
unfoldable pub ends_with : Text → Text → Bool
ends_with pat [] = pat == []
ends_with pat (c ∷ s) = (c ∷ s) == pat || ends_with pat s

abbrev pub Avoids : ℕ → Text → Type 0
Avoids c s = All (λ x. x ≢ c) s

-- Each part, the separator before it.
abbrev pub prefixed : ℕ → List Text → Text
prefixed c [] = []
prefixed c (p ∷ ps) = c ∷ (p ++ prefixed c ps)

pub strip_prefix-append : (pat s : Text) → strip_prefix pat (pat ++ s) ≡ some s
unfolding strip_prefix
strip_prefix-append [] s = refl
strip_prefix-append (c ∷ pat) s = ground (arith, strip_prefix-append pat s)

pub strip_prefix_sound : (pat s r : Text) → strip_prefix pat s ≡ some r → s ≡ pat ++ r
unfolding strip_prefix
strip_prefix_sound [] s r h = ground arith
strip_prefix_sound (c ∷ pat) [] r h = cc
strip_prefix_sound (c ∷ pat) (x ∷ s) r h = ground (arith, strip_prefix_sound pat s r)

pub split_once-append :
    (c : ℕ) (pat s r : Text)
    → Avoids c s
    → split_once (c ∷ pat) (s ++ ((c ∷ pat) ++ r)) ≡ some (s, r)
unfolding split_once
split_once-append c pat [] r h = rw (strip_prefix-append (c ∷ pat) r, split_once)
split_once-append c pat (x ∷ s) r (ne, h) = ground (arith, split_once-append c pat s r h)

push_front-eq-some :
    (c : ℕ) (o : Option (Text × Text)) (a b : Text)
    → push_front c o ≡ some (a, b)
    → (a' : Text) × (o ≡ some (a', b)) × (a ≡ c ∷ a')
push_front-eq-some c none a b h = cc
push_front-eq-some c (some (x, y)) a b h = (x, ground arith, ground arith)

pub split_once_sound : (pat s a b : Text) → split_once pat s ≡ some (a, b) → s ≡ a ++ (pat ++ b)
unfolding split_once
split_once_sound pat [] a b h = ground (arith, strip_prefix_sound pat [] b)
split_once_sound pat (c ∷ s) a b h = elim (Option-cases (strip_prefix pat (c ∷ s))) [
  | inl missed ↦
      let (a', e, same) =
        push_front-eq-some c (split_once pat s) a b (rw (missed, split_once) at h) in
      rw same (ap (λ (t : Text). c ∷ t) (split_once_sound pat s a' b e))
  | inr (r, hit) ↦
      let e : ◌≡◌ {A = Option (Text × Text)} (some ([], r)) (some (a, b)) =
        rw (hit, split_once) at h in
      ground (arith, strip_prefix_sound pat (c ∷ s) r hit)
]

-- A single character is split at where it stands first.
pub split_once-none : (c : ℕ) (s : Text) → split_once (c ∷ []) s ≡ none → Avoids c s
unfolding split_once strip_prefix
split_once-none c [] h = tt
split_once-none c (x ∷ s) h = elim (Bool-cases (x == c)) [
  | inl same ↦ cc (rw (same, split_once) at h)
  | inr other ↦ elim (Option-cases (split_once (c ∷ []) s)) [
    | inl missing ↦ (ground (arith, other), split_once-none c s missing)
    | inr ((a, b), found) ↦ cc (rw (other, split_once, found) at h)
  ]
]

pub split_once-Avoids : (c : ℕ) (s a b : Text) → split_once (c ∷ []) s ≡ some (a, b) → Avoids c a
unfolding split_once strip_prefix
split_once-Avoids c [] a b h = cc h
split_once-Avoids c (x ∷ s) a b h = elim (Bool-cases (x == c)) [
  | inl same ↦
      let e : ◌≡◌ {A = Option (Text × Text)} (some ([], s)) (some (a, b)) =
        rw (same, split_once) at h in
      let first : [] ≡ a = ground (arith, e) in rw (sym first) tt
  | inr other ↦
      let (a', e, same) =
        push_front-eq-some x (split_once (c ∷ []) s) a b (rw (other, split_once) at h) in
      rw same (ground (arith, other), split_once-Avoids c s a' b e)
]

pub split-prefixed :
    (c : ℕ) (p : Text) (ps : List Text)
    → Avoids c p
    → All (Avoids c) ps
    → split c (p ++ prefixed c ps) ≡ p ∷ ps
unfolding split
split-prefixed c [] [] h hs = refl
split-prefixed c [] (q ∷ qs) h (hq, hs) = ground (arith, split-prefixed c q qs hq hs)
split-prefixed c (x ∷ p) ps (ne, h) hs = ground (arith, split-prefixed c p ps h hs)

pub All-extend_head :
    (c x : ℕ) (ps : List Text) → x ≢ c → All (Avoids c) ps → All (Avoids c) (extend_head x ps)
All-extend_head c x [] ne h = ((ne, tt), tt)
All-extend_head c x (p ∷ ps) ne (h, hs) = ((ne, h), hs)

pub split-Avoids : (c : ℕ) (s : Text) → All (Avoids c) (split c s)
unfolding split
split-Avoids c [] = (tt, tt)
split-Avoids c (x ∷ s) = ground (arith, split-Avoids c s, All-extend_head c x (split c s))

-- The parts put together again.
pub split-cons :
    (c : ℕ) (s : Text)
    → (p : Text) × (ps : List Text) × (split c s ≡ p ∷ ps) × (s ≡ p ++ prefixed c ps)
unfolding split
split-cons c [] = ([], [], refl, refl)
split-cons c (x ∷ s) =
    let (p, ps, e, f) = split-cons c s in
    elim (Bool-cases (x == c)) [
      | inl same ↦
          ([], p ∷ ps, rw (same, split, e), ap₂ (λ (y : ℕ) (t : Text). y ∷ t) (ground arith) f)
      | inr other ↦ (x ∷ p, ps, rw (other, split, e), rw f)
    ]
