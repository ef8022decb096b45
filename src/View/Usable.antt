-- ===== src/View/Usable.antt =====
-- Whom the gate lets use what, by itself and below a child.
use plexus_core.Base.{
  eq_of_beq, append_assoc, map, not, ◌&&◌, Text, codes, Bool, true, false, ◌||◌, some, List, [],
  ◌∷◌, ◌++◌, ◌==◌, text_eq, any, ◌≡◌, refl, ◌∙◌, arith, inl, inr, ◌⊎◌, Bool-cases, Option-cases,
}
use plexus_core.View.Schema.{MethodSchema, PluginSchema, is_rpc, is_auto_schema, grant_or}
use plexus_core.Base.Texts.{strip_prefix, strip_prefix_sound}
use plexus_core.View.Described.{
  any_kept, grants_below, below_of, Below, Asker, keep, keep_held, reached_in, is_below,
}
use plexus_core.View.Decide.{Held}

module _ {F : Type 0} (asker : Asker F) where
  -- The caller holds the grant, and the view says on what, or the grant is every signed-in caller's.
  abbrev pub MayUse : F → (grant : Text) → Held → Type 0
  MayUse f grant held =
      ((s : Text) × (ss : List Text) × (asker.held_on_by f grant ≡ s ∷ ss) × (held ≡ some (s ∷ ss)))
      ⊎ (any (λ g. g == grant) asker.signed_in_grants ≡ true)

  abbrev pub MayReach : (grant : Text) → (public : Bool) → Held → Type 0
  MayReach grant public held =
      (public ≡ true) ⊎ ((f : F) × (asker.who ≡ some f) × MayUse f grant held)

  keep_held-MayUse :
      (f : F) (grant : Text) (public : Bool) (scopes : List Text) (held : Held)
      → asker.held_on_by f grant ≡ scopes
      → keep_held scopes (public || any (λ g. g == grant) asker.signed_in_grants) ≡ some held
      → (public ≡ true) ⊎ MayUse f grant held
  keep_held-MayUse f grant true [] held e h = inl refl
  keep_held-MayUse f grant false [] held e h =
      elim (Bool-cases (any (λ g. g == grant) asker.signed_in_grants)) [
        | inl everyone ↦ inr (inr everyone)
        | inr no_one ↦ cc (rw no_one at h)
      ]
  keep_held-MayUse f grant public (s ∷ ss) held e h = inr (inl (s, ss, e, ground arith))

  pub keep-MayReach :
      (grant : Text) (public : Bool) (held : Held)
      → keep asker grant public ≡ some held
      → MayReach grant public held
  unfolding keep
  keep-MayReach grant public held h = elim (Option-cases asker.who) [
    | inl anonymous ↦ inl (ground arith)
    | inr (f, signed_in) ↦
        elim (keep_held-MayUse f grant public (asker.held_on_by f grant) held refl
          (rw signed_in at h)) [ inl open_to ↦ inl open_to | inr may ↦ inr (f, signed_in, may) ]
  ]

-- Whether one of a list is so.
abbrev pub Any {ℓ} : {A : Type ℓ} → (A → Type 0) → List A → Type 0
Any P [] = ⊥
Any P (x ∷ xs) = P x ⊎ Any P xs

-- The namespace is the path's, or below it.
abbrev pub IsBelow : (path ns : Text) → Type 0
IsBelow path ns = (ns ≡ path) ⊎ ((rest : Text) × (ns ≡ path ++ (codes "." ++ rest)))

is_below-IsBelow : (path : Text) (b : Below) → is_below path b ≡ true → IsBelow path b.namespace
unfolding is_below
is_below-IsBelow path b h = elim (Bool-cases (b.namespace == path)) [
  | inl same ↦ inl (eq_of_beq b.namespace path same)
  | inr other ↦ elim (Option-cases (strip_prefix (path ++ codes ".") b.namespace)) [
    | inl missed ↦ cc (rw (other, missed) at h)
    | inr (rest, hit) ↦ inr (
      rest,
      strip_prefix_sound (path ++ codes ".") b.namespace rest hit
          ∙ append_assoc path (codes ".") rest,
    )
  ]
]

module _ {F : Type 0} (asker : Asker F) where
  -- The caller may use the method of this grant.
  abbrev pub IsUsable : (grant : Text) → (public : Bool) → Type 0
  IsUsable grant public = (held : Held) × MayReach asker grant public held

  any_kept-Any :
      (gs : List (Text × Bool)) → any_kept asker gs ≡ true → Any (λ g. IsUsable g.0 g.1) gs
  unfolding any_kept
  any_kept-Any [] h = cc h
  any_kept-Any ((grant, public) ∷ gs) h = elim (Option-cases (keep asker grant public)) [
    | inl dropped ↦ inr (any_kept-Any gs (rw dropped at h))
    | inr (held, kept) ↦ inl (held, keep-MayReach asker grant public held kept)
  ]

  module _ {R : Type 0} where
    -- A method that is called, is not the schema's, and that the caller may use.
    abbrev pub IsUsableMethod : (ns : Text) → MethodSchema R → Type 0
    IsUsableMethod ns m =
        (is_rpc m.role ≡ true) × (is_auto_schema m ≡ false) × IsUsable (grant_or m ns) m.public

    grants_below-Any :
        (ns : Text) (ms : List (MethodSchema R))
        → Any (λ g. IsUsable g.0 g.1) (grants_below ns ms)
        → Any (IsUsableMethod ns) ms
    unfolding grants_below
    grants_below-Any ns [] h = h
    grants_below-Any ns (m ∷ ms) h = elim (Bool-cases (is_rpc m.role && not (is_auto_schema m))) [
      | inr other ↦ inr (grants_below-Any ns ms (rw other at h))
      | inl called ↦ elim (from_first (rw called at h)) [
        | inl usable ↦ inl (ground (arith, called), ground (arith, called), usable)
        | inr later ↦ inr (grants_below-Any ns ms later)
      ]
    ]
      where
        from_first :
            Any (λ g. IsUsable g.0 g.1) ((grant_or m ns, m.public) ∷ grants_below ns ms)
            → IsUsable (grant_or m ns) m.public ⊎ Any (λ g. IsUsable g.0 g.1) (grants_below ns ms)
        from_first h = h

  module _ {R E : Type 0} where
    -- A child stands there, or below, with a method that the caller may use.
    abbrev pub UsableBelow : List (PluginSchema R E) → (path : Text) → Type 0
    UsableBelow children path =
        Any (λ s. IsBelow path s.namespace × Any (IsUsableMethod s.namespace) s.methods) children

    pub reached_in-UsableBelow :
        (path : Text) (children : List (PluginSchema R E))
        → reached_in asker path (map below_of children) ≡ true
        → UsableBelow children path
    unfolding reached_in below_of
    reached_in-UsableBelow path [] h = cc h
    reached_in-UsableBelow path (s ∷ ss) h =
        let grants = grants_below s.namespace s.methods in
        elim (Bool-cases (is_below path (below_of s) && any_kept asker grants)) [
          | inr other ↦ inr (reached_in-UsableBelow path ss (rw other at h))
          | inl both ↦ inl (
            is_below-IsBelow path (below_of s) (ground (arith, both)),
            grants_below-Any s.namespace s.methods (any_kept-Any grants (ground (arith, both))),
          )
        ]
