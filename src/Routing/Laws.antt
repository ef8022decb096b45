-- ===== src/Routing/Laws.antt =====
-- Which child a call reaches, and as whom.
use plexus_core.Base.{
  Text, codes, Option, none, some, ◌++◌, ◌≡◌, ◌⊎◌, refl, ap, ◌∙◌, Option-cases, inl, inr, nat_eq,
}
use plexus_core.Base.Texts.{
  split_once, Avoids, split_once_sound, split_once-none, split_once-Avoids,
}
use plexus_core.Errors.{PlexusError, Result, err}
use plexus_core.Routing.{
  ForwardDerivation, ForwardPolicy, Forwarding, ChildRouter, Router, map_option, derivation_of,
  policy_of, callee_of, call_child, call_found, route_found, route_to_child,
}

module _ {A X V R : Type 0} (fw : Forwarding A X) (parent : Router A X V R) where
  -- The policy registered for a child, or the default one where none is.
  abbrev pub IsPolicy : Text → ForwardPolicy A → Type 0
  IsPolicy name p =
      (parent.forward_policy_for name ≡ some p)
      ⊎ ((parent.forward_policy_for name ≡ none) × (fw.identity_only ≡ p))

  -- What the policy keeps of the caller, or of the anonymous context where there is none.
  abbrev pub Keeps : ForwardPolicy A → (name rest : Text) → Option A → ForwardDerivation → Type 0
  Keeps p name rest none d =
      d
      ≡ p fw.anonymous
          (record { caller = parent.principal; callee_method = name ++ (codes "." ++ rest) })
  Keeps p name rest (some a) d =
      d ≡ p a (record { caller = parent.principal; callee_method = name ++ (codes "." ++ rest) })

  -- Whom the child runs as: what was kept of its caller, or no one.
  abbrev pub RunsAs : ForwardDerivation → (caller callee : Option A) → Type 0
  RunsAs d none callee = callee ≡ none
  RunsAs d (some a) callee = callee ≡ some (fw.callee_context a d parent.principal)

  -- The call's context that it runs in: the one made for a child of its caller's.
  abbrev pub RunsIn : ForwardDerivation → (callee : Option A) → (outer inner : Option X) → Type 0
  RunsIn d callee none inner = inner ≡ none
  RunsIn d callee (some x) inner = inner ≡ some (fw.for_child x callee d.keep_verified_user)

  -- What a child is handed for a call of `auth` in the context `ctx`.
  pub record IsHanded (auth : Option A) (ctx : Option X) (name rest : Text) (callee : Option A)
      (inner : Option X) : Type 0 where
    pub policy : ForwardPolicy A
    pub derivation : ForwardDerivation
    pub of_child : IsPolicy name policy
    pub kept : Keeps policy name rest auth derivation
    pub runs_as : RunsAs derivation auth callee
    pub runs_in : RunsIn derivation callee ctx inner

  policy_of-IsPolicy : (name : Text) → IsPolicy name (policy_of fw parent name)
  policy_of-IsPolicy name = elim (Option-cases (parent.forward_policy_for name)) [
    | inl missing ↦ inr (missing, rw (missing, policy_of) refl)
    | inr (p, there) ↦ inl (rw (there, policy_of) refl)
  ]

  abbrev inner_of : (name rest : Text) → Option A → Option X → Option X
  inner_of name rest auth ctx =
      map_option
        (λ x.
          fw.for_child x (callee_of fw parent name rest auth)
            (derivation_of fw parent name rest auth).keep_verified_user)
        ctx

  derivation_of-Keeps :
      (name rest : Text) (auth : Option A)
      → Keeps (policy_of fw parent name) name rest auth (derivation_of fw parent name rest auth)
  derivation_of-Keeps name rest none = refl
  derivation_of-Keeps name rest (some a) = refl

  callee_of-RunsAs :
      (name rest : Text) (auth : Option A)
      → RunsAs (derivation_of fw parent name rest auth) auth (callee_of fw parent name rest auth)
  callee_of-RunsAs name rest none = refl
  callee_of-RunsAs name rest (some a) = refl

  inner_of-RunsIn :
      (name rest : Text) (auth : Option A) (ctx : Option X)
      → RunsIn
          (derivation_of fw parent name rest auth)
          (callee_of fw parent name rest auth)
          ctx
          (inner_of name rest auth ctx)
  inner_of-RunsIn name rest auth none = refl
  inner_of-RunsIn name rest auth (some x) = refl

  pub call_child-IsHanded :
      (name rest : Text) (auth : Option A) (ctx : Option X)
      → IsHanded auth ctx name rest
          (callee_of fw parent name rest auth)
          (inner_of name rest auth ctx)
  call_child-IsHanded name rest auth ctx = record {
    policy = policy_of fw parent name;
    derivation = derivation_of fw parent name rest auth;
    of_child = policy_of-IsPolicy name;
    kept = derivation_of-Keeps name rest auth;
    runs_as = callee_of-RunsAs name rest auth;
    runs_in = inner_of-RunsIn name rest auth ctx;
  }

  -- How a router answers: with what the child says that the first segment names, asked for the rest of
  -- the path as what it is handed; or that there is no such child, no such path, or no second segment.
  pub data Answers (method : Text) (params : V) (auth : Option A) (ctx : Option X)
      : Result PlexusError R → Type 0 where
    of_child :
        (name rest : Text) (child : ChildRouter A X V R) (callee : Option A) (inner : Option X)
        → method ≡ name ++ (codes "." ++ rest)
        → Avoids b'.' name
        → parent.get_child name ≡ some child
        → fw.path_error method ≡ none
        → IsHanded auth ctx name rest callee inner
        → Answers method params auth ctx (child inner rest params callee)
    bad_path :
        (name rest : Text) (child : ChildRouter A X V R) (why : Text)
        → method ≡ name ++ (codes "." ++ rest)
        → Avoids b'.' name
        → parent.get_child name ≡ some child
        → fw.path_error method ≡ some why
        → Answers method params auth ctx (err (PlexusError.execution_error why))
    no_child :
        (name rest : Text)
        → method ≡ name ++ (codes "." ++ rest)
        → Avoids b'.' name
        → parent.get_child name ≡ none
        → Answers method params auth ctx (err (PlexusError.activation_not_found name))
    no_segment :
        Avoids b'.' method
        → Answers method params auth ctx
            (err (PlexusError.method_not_found parent.namespace method))

  call_child-Answers :
      (child : ChildRouter A X V R) (method name rest : Text) (params : V) (auth : Option A)
      (ctx : Option X)
      → method ≡ name ++ (codes "." ++ rest)
      → Avoids b'.' name
      → parent.get_child name ≡ some child
      → Answers method params auth ctx (call_child fw parent child name rest params auth ctx)
  call_child-Answers child method name rest params auth ctx whole first found =
      elim (Option-cases (fw.path_error (name ++ (codes "." ++ rest)))) [
        | inl good ↦
            rw (call_child, good)
              (of_child name rest child (callee_of fw parent name rest auth)
                (inner_of name rest auth ctx) whole first found (ap fw.path_error whole ∙ good)
                (call_child-IsHanded name rest auth ctx))
        | inr (why, bad) ↦
            rw (call_child, bad)
              (bad_path name rest child why whole first found (ap fw.path_error whole ∙ bad))
      ]

  call_found-Answers :
      (method name rest : Text) (params : V) (auth : Option A) (ctx : Option X)
      → method ≡ name ++ (codes "." ++ rest)
      → Avoids b'.' name
      → Answers method params auth ctx
          (call_found fw parent (parent.get_child name) name rest params auth ctx)
  call_found-Answers method name rest params auth ctx whole first =
      elim (Option-cases (parent.get_child name)) [
        | inl missing ↦ rw (missing, call_found) (no_child name rest whole first missing)
        | inr (child, found) ↦
            rw (found, call_found)
              (call_child-Answers child method name rest params auth ctx whole first found)
      ]

  -- Whatever is called, whoever calls: where the path's first segment names a child and the path is
  -- good, the answer is that child's, asked for the rest of the path. It runs as the context that its
  -- own policy (the default one, where none is registered) derives of the caller, or as no one where
  -- the caller is no one, in the context made for a child of the caller's that is so derived. Otherwise
  -- the answer is the error for what is wrong: the path, the child, or that there is no second segment.
  pub route_to_child-Answers :
      (method : Text) (params : V) (auth : Option A) (ctx : Option X)
      → Answers method params auth ctx (route_to_child fw parent method params auth ctx)
  unfolding route_to_child
  route_to_child-Answers method params auth ctx =
      elim (Option-cases (split_once (codes ".") method)) [
        | inl missing ↦ rw (missing, route_found) (no_segment (split_once-none b'.' method missing))
        | inr ((name, rest), parts) ↦
            rw (parts, route_found)
              (call_found-Answers method name rest params auth ctx
                (split_once_sound (codes ".") method name rest parts)
                (split_once-Avoids b'.' method name rest parts))
      ]
