-- ===== src/AuthMemory/Memberships.antt =====
-- `MemoryMemberships`: memberships as a list.
use plexus_core.Base.{
  Text, Bool, true, false, not, Option, none, some, List, [], ◌∷◌, ◌++◌, ◌≡◌, refl, arith,
  if◌then◌else◌, ◌==◌, ◌&&◌, ◌||◌, Eq, eq_of_beq, if_cases, if_true, text_eq, any, Bool-cases, inl,
  inr, beq_self, ap, ◌∙◌,
}

pub record Membership (P Scope : Type 0) : Type 0 where
  pub principal : P
  pub role : Text
  pub scope : Scope

-- `Option::is_none_or`
abbrev pub role_fits : Option Text → Text → Bool
role_fits none role = true
role_fits (some r) role = role == r

or_false : (b : Bool) → b ≡ (b || false)
or_false b = ground arith

or_true : (a b : Bool) → b ≡ true → (a || b) ≡ true
or_true a b h = ground arith

module _ {P Scope : Type 0} ⦃eq_p : Eq P⦄ ⦃eq_s : Eq Scope⦄ where
  -- `PartialEq` of a membership
  unfoldable pub same_membership : Membership P Scope → Membership P Scope → Bool
  same_membership a b = a.principal == b.principal && (a.role == b.role && a.scope == b.scope)

  unfoldable pub contains : List (Membership P Scope) → Membership P Scope → Bool
  unfolding same_membership
  contains rows m = any (λ row. same_membership row m) rows

  unfoldable pub held : List (Membership P Scope) → P → List (Membership P Scope)
  held [] who = []
  held (m ∷ rows) who = let later = held rows who in if m.principal == who then m ∷ later else later

  unfoldable pub grant : List (Membership P Scope) → Membership P Scope → List (Membership P Scope)
  unfolding contains
  grant rows m = if contains rows m then rows else rows ++ (m ∷ [])

  unfoldable pub is_hit : P → Option Text → Scope → Membership P Scope → Bool
  is_hit who role scope m = m.principal == who && (m.scope == scope && role_fits role m.role)

  -- What is left, and the roles removed.
  unfoldable pub revoke :
      List (Membership P Scope) → P → Option Text → Scope → List (Membership P Scope) × List Text
  unfolding is_hit
  revoke [] who role scope = ([], [])
  revoke (m ∷ rows) who role scope =
      let later = revoke rows who role scope in
      if is_hit who role scope m then (later.0, m.role ∷ later.1) else (m ∷ later.0, later.1)

  same_membership_self : (m : Membership P Scope) → same_membership m m ≡ true
  unfolding same_membership
  same_membership_self m = ground (arith, beq_self m.principal, beq_self m.role, beq_self m.scope)

  any-append :
      (f : Membership P Scope → Bool) (rows : List (Membership P Scope)) (m : Membership P Scope)
      → any f (rows ++ (m ∷ [])) ≡ (any f rows || f m)
  any-append f [] m = ground arith
  any-append f (r ∷ rows) m = ground (arith, any-append f rows m)

  same_membership_sound : (a b : Membership P Scope) → same_membership a b ≡ true → a ≡ b
  unfolding same_membership
  same_membership_sound a b h =
      let p = eq_of_beq a.principal b.principal (ground arith) in
      let r = eq_of_beq a.role b.role (ground arith) in
      let s = eq_of_beq a.scope b.scope (ground arith) in
      ap (λ (x : P). record { principal = x; role = a.role; scope = a.scope }) p
      ∙ (ap (λ (x : Text). record { principal = b.principal; role = x; scope = a.scope }) r
          ∙ ap (λ (x : Scope). record { principal = b.principal; role = b.role; scope = x }) s)

  -- After a grant the memberships are those before and the one granted, and granting it once more
  -- changes nothing.
  pub grant-contains :
      (rows : List (Membership P Scope)) (m other : Membership P Scope)
      → (contains (grant rows m) other ≡ (contains rows other || same_membership m other))
        × (grant (grant rows m) m ≡ grant rows m)
  unfolding grant contains
  grant-contains rows m other = (
    if_cases (λ rows'. contains rows' other ≡ (contains rows other || same_membership m other))
        (contains rows m)
        (λ known. elim (Bool-cases (same_membership m other)) [
          | inl h ↦ let e = same_membership_sound m other h in rw (h, ← e, known) refl
          | inr h ↦ rw h (or_false (contains rows other))
        ])
        (λ new. any-append (λ row. same_membership row other) rows m),
    if_cases (λ rows'. grant rows' m ≡ rows') (contains rows m)
        (λ known. if_true (contains rows m) rows (rows ++ (m ∷ [])) known)
        (λ new.
          let there : contains (rows ++ (m ∷ [])) m ≡ true =
            any-append (λ row. same_membership row m) rows m
            ∙ or_true (contains rows m) (same_membership m m) (same_membership_self m) in
          if_true (contains (rows ++ (m ∷ [])) m) (rows ++ (m ∷ [])) _ there),
  )

  -- After a revocation the memberships are those before but the ones that it names.
  pub revoke-contains :
      (rows : List (Membership P Scope)) (who : P) (role : Option Text) (scope : Scope)
      (other : Membership P Scope)
      → contains (revoke rows who role scope).0 other
        ≡ (contains rows other && not (is_hit who role scope other))
  unfolding revoke contains
  revoke-contains [] who role scope other = refl
  revoke-contains (m ∷ rows) who role scope other =
      let ih = revoke-contains rows who role scope other in
      elim (Bool-cases (is_hit who role scope m)) [
        | inl hit ↦ elim (Bool-cases (same_membership m other)) [
          | inl h ↦
              let e = same_membership_sound m other h in let hit' = rw e at hit in ground arith
          | inr h ↦ ground arith
        ]
        | inr miss ↦ elim (Bool-cases (same_membership m other)) [
          | inl h ↦
              let e = same_membership_sound m other h in let miss' = rw e at miss in ground arith
          | inr h ↦ ground arith
        ]
      ]
