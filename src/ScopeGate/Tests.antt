-- ===== src/ScopeGate/Tests.antt =====
-- The scope gate with one public method and a role `runner` for the scope `ring.*`.
use plexus_core.Base.{
  Text, codes, true, ◌||◌, none, some, List, [], ◌∷◌, ◌≡◌, refl, ◌↔◌, ◌⊎◌, any, ◌==◌, text_eq,
  if◌then◌else◌,
}
use plexus_core.Errors.{PlexusError, ok, err, AuthzDenyReason}
use plexus_core.Auth.{AuthOps}
use plexus_core.ScopeGate.{ScopeOps, requirement, schema_public, enforce}
use plexus_core.ScopeGate.Laws.{Satisfies, enforce-ok_iff, enforce-default_deny, AsksFor}

abbrev ops : AuthOps Text
ops = record {
  is_authenticated = λ _. true;
  roles = λ a. a ∷ [];
  user_id = λ a. a;
  session_id = λ _. [];
  principal = λ a. some a;
}

abbrev scopes : ScopeOps
scopes = record {
  is_path = λ _. true;
  is_public = λ path. path == codes "ring.hash";
  required_scopes_for = λ path. path ∷ [];
  effective_scopes =
      λ roles. if any (λ r. r == codes "runner") roles then codes "ring.*" ∷ [] else [];
  matches = λ held required. held == codes "ring.*";
}

abbrev path : Text
path = codes "ring.start"

asks : requirement scopes true path none ≡ some (path ∷ [])
unfolding requirement
asks = refl

passes : (enforce ops scopes true path none (some (codes "runner")) []).1 ≡ ok tt
unfolding enforce
passes = refl

refused :
    (enforce ops scopes true path none (some (codes "reader")) []).1
    ≡ err (PlexusError.forbidden (AuthzDenyReason.missing_scope path))
unfolding enforce
refused = refl

enforce-ok_iff_example :
    ((enforce ops scopes true path none (some (codes "runner")) []).1 ≡ ok tt) ↔ (
      ((schema_public none || scopes.is_public path) ≡ true)
      ⊎ Satisfies ops scopes (some (codes "runner")) (path ∷ []))
enforce-ok_iff_example =
    enforce-ok_iff ops scopes true path none (some (codes "runner")) [] (path ∷ []) asks refl

enforce-default_deny_example :
    (scopes.is_path path ≡ true)
    × (((schema_public none || scopes.is_public path) ≡ true)
        ⊎ ((required : List Text) × AsksFor ops scopes path none required
            × Satisfies ops scopes (some (codes "runner")) required))
enforce-default_deny_example =
    enforce-default_deny ops scopes path none (some (codes "runner")) [] passes
