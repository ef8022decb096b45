-- ===== src/AuthMemory/Roles.antt =====
-- `MemoryRoles`: the declared defaults, and an admin's edits.
use plexus_core.Base.{
  Text, codes, true, Option, some, List, [], ◌∷◌, ◌≡◌, ◌≢◌, refl, ◌∙◌, if◌then◌else◌, ◌==◌, ◌||◌,
  text_eq, any, if_cases,
}

-- plexus-auth-core's `RoleTable` and `GrantSet`: what is set is what is read, and the names are of
-- the roles that have grants.
pub record RoleTable (T GrantSet : Type 0) : Type 0 where
  pub grants : T → Text → Option GrantSet
  pub names : T → List Text
  pub set : T → Text → GrantSet → T
  pub listed : List Text → GrantSet
  pub grants-set : (t : T) (r : Text) (g : GrantSet) → grants (set t r g) r ≡ some g
  pub grants-set_ne :
      (t : T) (r s : Text) (g : GrantSet) → r ≢ s → grants (set t r g) s ≡ grants t s

abbrev pub admin : Text
admin = codes "admin"

module _ {T GrantSet : Type 0} (table : RoleTable T GrantSet) where
  -- The loop of `seed`, the names known before it at hand.
  unfoldable pub seed_from : (known : List Text) → List (Text × List Text) → T → T
  seed_from known [] t = t
  seed_from known ((role, grants) ∷ declared) t =
      if role == admin || any (λ k. k == role) known
      then seed_from known declared t
      else seed_from known declared (table.set t role (table.listed grants))

  unfoldable pub seed : List (Text × List Text) → T → T
  unfolding seed_from
  seed declared t = seed_from (table.names t) declared t

  seed_from-grants_kept :
      (known : List Text) (declared : List (Text × List Text)) (t : T) (role : Text)
      → (role == admin || any (λ k. k == role) known) ≡ true
      → table.grants (seed_from known declared t) role ≡ table.grants t role
  unfolding seed_from
  seed_from-grants_kept known [] t role h = refl
  seed_from-grants_kept known ((r, gs) ∷ declared) t role h =
      if_cases (λ t'. table.grants t' role ≡ table.grants t role)
        (r == admin || any (λ k. k == r) known)
        (λ skipped. seed_from-grants_kept known declared t role h)
        (λ added.
          seed_from-grants_kept known declared (table.set t r (table.listed gs)) role h
          ∙ table.grants-set_ne t r role (table.listed gs) (λ same. cc (rw same at added, h)))

  -- A role that the table knows, or the admin's, keeps what it has, whatever is declared.
  pub seed-grants_kept :
      (declared : List (Text × List Text)) (t : T) (role : Text)
      → (role == admin || any (λ k. k == role) (table.names t)) ≡ true
      → table.grants (seed declared t) role ≡ table.grants t role
  unfolding seed
  seed-grants_kept declared t role h = seed_from-grants_kept (table.names t) declared t role h
