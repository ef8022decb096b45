-- ===== src/ScopeGate/Laws.antt =====
-- Whom the scope gate lets through, and what it writes.
use plexus_core.Base.{
  Text, Bool, true, false, not, ◌≢◌, sym, ap₂, text_eq, beq_self, eq_of_beq, ◌||◌, Option, none,
  some, List, [], ◌∷◌, ◌++◌, any, ◌≡◌, refl, ◌↔◌, ◌⊎◌, inl, inr, arith, All, Option-cases, if_cases,
}
use plexus_core.Errors.{PlexusError, Result, ok}
use plexus_core.Auth.{AuthOps}
use plexus_core.GrantGate.{MethodGateInfo}
use plexus_core.ScopeGate.{
  ScopeOps, AuditDecision, AuditDenyReason, AuditRecord, Sink, find_unmet, authenticated, roles_of,
  emit, schema_public, schema_scopes, originator_of, session_of, texts_beq, is_empty, requirement,
  authorize, check_required, enforce, is_ok, answers,
}

-- A scope held matches each scope asked for.
abbrev pub Holds : (Text → Text → Bool) → (held required : List Text) → Type 0
Holds matches held required = All (λ r. any (λ h. matches h r) held ≡ true) required

find_unmet-none_iff :
    (matches : Text → Text → Bool) (held required : List Text)
    → (find_unmet matches held required ≡ none) ↔ Holds matches held required
unfolding find_unmet
find_unmet-none_iff matches held [] = ground arith
find_unmet-none_iff matches held (r ∷ rs) = ground (arith, find_unmet-none_iff matches held rs)

texts_beq-true : (xs ys : List Text) → not (texts_beq xs ys) ≡ false → xs ≡ ys
texts_beq-true [] [] h = refl
texts_beq-true [] (y ∷ ys) h = cc h
texts_beq-true (x ∷ xs) [] h = cc h
texts_beq-true (x ∷ xs) (y ∷ ys) h =
    ap₂ (λ (t : Text) (l : List Text). t ∷ l) (eq_of_beq x y (ground (arith, h)))
      (texts_beq-true xs ys (ground (arith, h)))

texts_beq_refl : (xs : List Text) → texts_beq xs xs ≡ true
texts_beq_refl [] = refl
texts_beq_refl (x ∷ xs) = ground (arith, beq_self x, texts_beq_refl xs)

texts_beq-false : (xs ys : List Text) → not (texts_beq xs ys) ≡ true → xs ≢ ys
texts_beq-false xs ys h same =
    let ne : not (texts_beq xs xs) ≡ true = rw (sym same) at h in cc (rw (texts_beq_refl xs) at ne)

is_empty-true : {T : Type 0} (xs : List T) → not (is_empty xs) ≡ false → xs ≡ []
is_empty-true [] h = refl
is_empty-true (x ∷ xs) h = cc h

is_empty-false : {T : Type 0} (xs : List T) → not (is_empty xs) ≡ true → xs ≢ []
is_empty-false [] h = cc h
is_empty-false (x ∷ xs) h = cc

module _ {A : Type 0} (ops : AuthOps A) (scopes : ScopeOps) where
  -- Who passes where something is asked for.
  abbrev pub Satisfies : Option A → List Text → Type 0
  Satisfies auth required =
      (authenticated ops auth ≡ true)
      × Holds scopes.matches (scopes.effective_scopes (roles_of ops auth)) required

  authorize-ok_iff :
      (path : Text) (auth : Option A) (required : List Text) (o : Option Text) (sink : Sink)
      → ((authorize ops scopes path auth required o sink).1 ≡ ok tt) ↔ (o ≡ none)
  authorize-ok_iff path auth required none sink = ground arith
  authorize-ok_iff path auth required (some o) sink = ground arith

  check_required-ok_iff :
      (path : Text) (auth : Option A) (required : List Text) (sink : Sink)
      → ((check_required ops scopes path auth (some required) sink).1 ≡ ok tt)
        ↔ Satisfies auth required
  check_required-ok_iff path auth required sink = ground (
    arith,
    find_unmet-none_iff scopes.matches (scopes.effective_scopes (roles_of ops auth)) required,
    authorize-ok_iff path auth required
        (find_unmet scopes.matches (scopes.effective_scopes (roles_of ops auth)) required) sink,
  )

  -- A call whose method asks for something, and whose name is a path, passes the gate exactly when
  -- the method is public, by its schema or in the registry, or the caller is authenticated and holds
  -- a match for every scope asked for.
  pub enforce-ok_iff :
      (default_deny : Bool) (path : Text) (info : Option MethodGateInfo) (auth : Option A)
      (records : List AuditRecord) (required : List Text)
      → requirement scopes default_deny path info ≡ some required
      → scopes.is_path path ≡ true
      → ((enforce ops scopes default_deny path info auth records).1 ≡ ok tt)
        ↔ (((schema_public info || scopes.is_public path) ≡ true) ⊎ Satisfies auth required)
  unfolding enforce
  enforce-ok_iff default_deny path info auth records required asks is_path =
      ground (arith, check_required-ok_iff path auth required (some records))

  -- What a default-deny service asks for: what the deployment says of the path, where that is not the
  -- path alone; else what the method's schema declares; else the path.
  abbrev pub AsksFor : (path : Text) → Option MethodGateInfo → (required : List Text) → Type 0
  AsksFor path info required =
      ((scopes.required_scopes_for path ≡ required) × (required ≢ path ∷ []))
      ⊎ ((scopes.required_scopes_for path ≡ path ∷ [])
          × (((schema_scopes info ≡ required) × (required ≢ []))
              ⊎ ((schema_scopes info ≡ []) × (required ≡ path ∷ []))))

  requirement-AsksFor :
      (path : Text) (info : Option MethodGateInfo)
      → (required : List Text) × (requirement scopes true path info ≡ some required)
        × AsksFor path info required
  unfolding requirement
  requirement-AsksFor path info =
      if_cases IsAsked (not (texts_beq (scopes.required_scopes_for path) (path ∷ [])))
        (λ said. (
          scopes.required_scopes_for path,
          refl,
          inl (refl, texts_beq-false (scopes.required_scopes_for path) (path ∷ []) said),
        ))
        λ silent.
          let only = texts_beq-true (scopes.required_scopes_for path) (path ∷ []) silent in
          if_cases IsAsked (not (is_empty (schema_scopes info)))
            (λ declared. (
              schema_scopes info,
              refl,
              inr (only, inl (refl, is_empty-false (schema_scopes info) declared)),
            ))
            (λ none_declared. (
              path ∷ [],
              refl,
              inr (only, inr (is_empty-true (schema_scopes info) none_declared, refl)),
            ))
    where
      IsAsked : Option (List Text) → Type 0
      IsAsked o = (required : List Text) × (o ≡ some required) × AsksFor path info required

  enforce-is_path :
      (path : Text) (info : Option MethodGateInfo) (auth : Option A) (records : List AuditRecord)
      → (enforce ops scopes true path info auth records).1 ≡ ok tt
      → scopes.is_path path ≡ true
  unfolding enforce
  enforce-is_path path info auth records h = ground arith

  -- Default-deny fails closed: a call that passes under it names a path, and its method is public, or
  -- its caller is authenticated and holds a match for each scope that the deployment asks of the path,
  -- or, where that is the path alone, that the method's schema declares, or, where it declares none, for
  -- the path itself.
  pub enforce-default_deny :
      (path : Text) (info : Option MethodGateInfo) (auth : Option A) (records : List AuditRecord)
      → (enforce ops scopes true path info auth records).1 ≡ ok tt
      → (scopes.is_path path ≡ true)
        × (((schema_public info || scopes.is_public path) ≡ true)
            ⊎ ((required : List Text) × AsksFor path info required × Satisfies auth required))
  enforce-default_deny path info auth records h =
      let is_path = enforce-is_path path info auth records h in
      let (required, asks, asks_for) = requirement-AsksFor path info in
      let passes = (enforce-ok_iff true path info auth records required asks is_path).0 h in
      (is_path, elim passes [ inl p ↦ inl p | inr s ↦ inr (required, asks_for, s) ])

  -- What the gate writes: one record, of the method and its caller, that says allow exactly when
  -- the call passes.
  abbrev pub IsRecordOf :
      (path : Text) → Option A → Result PlexusError (Unit {0}) → AuditRecord → Type 0
  IsRecordOf path auth result r =
      (r.method ≡ path)
      × (r.roles ≡ roles_of ops auth)
      × ((r.decision ≡ AuditDecision.allow) ↔ (result ≡ ok tt))

  abbrev Writes : Text → Option A → List AuditRecord → Sink × Result PlexusError (Unit {0}) → Type 0
  Writes path auth records m =
      (m.0 ≡ some records)
      ⊎ ((r : AuditRecord) × (m.0 ≡ some (records ++ r ∷ [])) × IsRecordOf path auth m.1 r)

  abbrev record_of : Text → Option A → List Text → AuditDecision → AuditRecord
  record_of path auth required decision = record {
    originator = originator_of ops auth;
    session_id = session_of ops auth;
    roles = roles_of ops auth;
    method = path;
    scope_required = required;
    decision = decision;
  }

  authorize-Writes :
      (path : Text) (auth : Option A) (required : List Text) (o : Option Text)
      (records : List AuditRecord)
      → Writes path auth records (authorize ops scopes path auth required o (some records))
  unfolding emit
  authorize-Writes path auth required none records =
      inr (record_of path auth required AuditDecision.allow, refl, (refl, refl, ground arith))
  authorize-Writes path auth required (some scope) records = inr (
    record_of path auth required (AuditDecision.deny AuditDenyReason.missing_scope),
    refl,
    (refl, refl, ground arith),
  )

  check_required-Writes :
      (path : Text) (auth : Option A) (o : Option (List Text)) (records : List AuditRecord)
      → Writes path auth records (check_required ops scopes path auth o (some records))
  unfolding emit
  check_required-Writes path auth none records = inl refl
  check_required-Writes path auth (some required) records =
      if_cases (Writes path auth records) (not (authenticated ops auth))
        (λ _. inr (
          record_of path auth required (AuditDecision.deny AuditDenyReason.unauthenticated),
          refl,
          (refl, refl, ground arith),
        ))
        (λ _.
          authorize-Writes path auth required
            (find_unmet scopes.matches (scopes.effective_scopes (roles_of ops auth)) required)
            records)

  -- The gate writes at most one record a call, behind those there are.
  pub enforce-audit :
      (default_deny : Bool) (path : Text) (info : Option MethodGateInfo) (auth : Option A)
      (records : List AuditRecord)
      → ((enforce ops scopes default_deny path info auth records).0 ≡ some records)
        ⊎ ((r : AuditRecord) × ((enforce ops scopes default_deny path info auth records).0
              ≡ some (records ++ r ∷ []))
            × IsRecordOf path auth (enforce ops scopes default_deny path info auth records).1 r)
  unfolding enforce
  enforce-audit default_deny path info auth records =
      if_cases (Writes path auth records) (not (scopes.is_path path))
        (λ _. if_cases (Writes path auth records) default_deny (λ _. inl refl) (λ _. inl refl))
        λ _.
          if_cases (Writes path auth records) (schema_public info || scopes.is_public path)
            (λ _.
              inr (record_of path auth [] AuditDecision.allow, refl, (refl, refl, ground arith)))
            (λ _.
              check_required-Writes path auth (requirement scopes default_deny path info) records)

  check_required-sink :
      (path : Text) (auth : Option A) (o : Option (List Text)) (s s' : Sink)
      → (check_required ops scopes path auth o s).1 ≡ (check_required ops scopes path auth o s').1
  check_required-sink path auth none s s' = refl
  check_required-sink path auth (some required) s s' =
      elim (Option-cases
        (find_unmet scopes.matches (scopes.effective_scopes (roles_of ops auth)) required)) [
          | inl e ↦ ground arith
          | inr (r, e) ↦ ground arith
        ]

  -- What `answers` says is what `enforce` would decide.
  pub answers-enforce :
      (default_deny : Bool) (path : Text) (info : Option MethodGateInfo) (auth : Option A)
      (records : List AuditRecord)
      → answers ops scopes default_deny path info auth
        ≡ is_ok (enforce ops scopes default_deny path info auth records).1
  unfolding answers enforce
  answers-enforce default_deny path info auth records = ground (
    arith,
    check_required-sink path auth (requirement scopes default_deny path info) none (some records),
  )
