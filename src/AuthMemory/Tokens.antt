-- ===== src/AuthMemory/Tokens.antt =====
-- `token_in` and `validate` of `MemoryAuthBackend`: the token that a credential carries.
use plexus_core.Base.{
  ℕ, Text, codes, Bool, true, false, not, Option, none, some, List, [], ◌∷◌, if◌then◌else◌, ◌==◌,
  ◌&&◌, ◌||◌, leb, any, nat_eq, text_eq,
}
use plexus_core.Base.Texts.{strip_prefix, split_once, split}
use plexus_core.AuthMemory.Backend.{State, Identity, context_of}
use plexus_core.AuthMemory.Flows.{starts_with}

-- `char::is_whitespace`
unfoldable pub is_whitespace : ℕ → Bool
is_whitespace c =
    c == 32
    || (leb 9 c && leb c 13)
    || c == 133
    || c == 160
    || c == 5760
    || (leb 8192 c && leb c 8202)
    || c == 8232
    || c == 8233
    || c == 8239
    || c == 8287
    || c == 12288

unfoldable pub trim_start : Text → Text
unfolding is_whitespace
trim_start [] = []
trim_start (c ∷ s) = if is_whitespace c then trim_start s else c ∷ s

abbrev is_empty : Text → Bool
is_empty [] = true
is_empty (c ∷ s) = false

unfoldable pub trim_end : Text → Text
unfolding is_whitespace
trim_end [] = []
trim_end (c ∷ s) = let r = trim_end s in if is_empty r && is_whitespace c then [] else c ∷ r

unfoldable pub trim : Text → Text
unfolding trim_start trim_end
trim s = trim_end (trim_start s)

abbrev bearer : Text
bearer = codes "Bearer "

-- A cookie header's `access_token`.
unfoldable pub cookie_token : List Text → Option Text
unfolding trim split_once
cookie_token [] = none
cookie_token (kv ∷ kvs) =
    let later = cookie_token kvs in
    elim (split_once (codes "=") (trim kv)) [
      | none ↦ later
      | some (k, v) ↦ if k == codes "access_token" then some (trim v) else later
    ]

unfoldable pub token_in : Text → Option Text
unfolding trim strip_prefix cookie_token split
token_in credential =
    let c = trim credential in
    let is_bare =
      starts_with (codes "mgs_") c
      && not (any (λ x. x == b';') c)
      && not (any (λ x. x == b'=') c) in
    elim (strip_prefix bearer c) [
      | some t ↦ some (trim t)
      | none ↦ if is_bare then some c else cookie_token (split b';' c)
    ]

unfoldable pub validate :
    {P Ctx : Type 0} → Identity P Ctx → (now : ℕ) → (credential : Text) → State P → Option Ctx
unfolding token_in context_of
validate identity now credential st = elim (token_in credential) [
  | none ↦ none
  | some token ↦ context_of identity now token st
]
