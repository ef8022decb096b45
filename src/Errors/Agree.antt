-- ===== src/Errors/Agree.antt =====
-- The two codes of one failure: the JSON-RPC rejection's and the error frame's.
use plexus_core.Base.{
  ℕ, zero, suc, ◌+◌, ◌-◌, ◌*◌, Text, ◌≡◌, refl, Option, none, some, [], ◌∷◌, leb, ◌&&◌,
  if◌then◌else◌,
}
use plexus_core.Errors.{
  ℤ, pos, negsuc, PlexusError, TransportErrorKind, RemoteError, remote_error, plexus_error_code,
  spec_code,
}
use plexus_core.Errors

-- Reading a decimal integer, most significant digit first.
abbrev pub read_digits : ℕ → Text → Option ℕ
read_digits n [] = some n
read_digits n (c ∷ s) =
    let rest = read_digits (n * 10 + (c - 48)) s in if leb 48 c && leb c 57 then rest else none

abbrev pub negated : ℕ → ℤ
negated zero = pos 0
negated (suc n) = negsuc n

abbrev pub read_negative : Text → Option ℤ
read_negative [] = none
read_negative (c ∷ s) =
    if leb 45 c && leb c 45
    then elim (read_digits 0 s) [ none ↦ none | some n ↦ some (negated n) ]
    else none

-- For every error of the service, the text that the error frame carries as its code reads back
-- as the code of the JSON-RPC rejection, whatever the two libraries' texts are.
pub spec_code-remote_error :
    (show_kind : TransportErrorKind → Text) (kind : RemoteError → Text) (e : PlexusError)
    → read_negative (spec_code kind (remote_error show_kind e)) ≡ some (plexus_error_code e)
unfolding spec_code remote_error plexus_error_code
spec_code-remote_error show_kind kind (Errors.PlexusError.activation_not_found name) = refl
spec_code-remote_error show_kind kind e = refl
