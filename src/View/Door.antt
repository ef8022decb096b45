-- ===== src/View/Door.antt =====
-- Who is shown what.
use plexus_core.Base.{
  map, Text, codes, Bool, true, false, Option, none, some, List, [], ◌∷◌, ◌++◌, if◌then◌else◌, ◌==◌,
  text_eq, any, ◌≡◌, refl, sym, ap, ◌∙◌, inl, inr, ◌⊎◌, Bool-cases, Option-cases, All, All-concat,
  if_cases,
}
use mathlib.Core.Path.{subst}
use plexus_core.Base.Assoc.{Assoc}
use plexus_core.ContentHash.Canonical.{le_text}
use plexus_core.View.Schema.{
  MethodSchema, PluginSchema, ViewKind, is_static_child, is_auto_schema, grant_or,
}
use plexus_core.View.Described.{Asker, keep, reaches_below, reached_in, is_below, new, below_of}
use plexus_core.View.Usable.{MayReach, keep-MayReach, UsableBelow, reached_in-UsableBelow}
use plexus_core.View.Shape.{Digest, Shaped, btree_insert, rehash, kind_of}
use plexus_core.View.Decide.{Held, decide_method, by_reach, shape}
use plexus_core.View.Reading.{View, view}
use plexus_core.View.Meaning.{
  keeping, methods_shown, entry_shown, showing, activation_shown, with_shown, all_shown, view_meant,
}
use plexus_core.View.Refines.{shape-view_meant}

some_inj {ℓ} : {A : Type ℓ} {a b : A} → ◌≡◌ {A = Option A} (some a) (some b) → a ≡ b
some_inj h = cc

by_reach-cases :
    (known reached : Bool) (own : Option Held) (held : Held)
    → by_reach (if known then some reached else none) own ≡ some held
    → (reached ≡ true) ⊎ (own ≡ some held)
by_reach-cases true true own held h = inl refl
by_reach-cases true false own held h = cc
by_reach-cases false reached own held h = inr h

module _ {F : Type 0} (asker : Asker F) where
  module _ {R E : Type 0} (children : List (PluginSchema R E)) (ns : Text) where
    abbrev pub Entitled : MethodSchema R → Type 0
    Entitled m =
        (is_auto_schema m ≡ true)
        ⊎ (((is_static_child m.role ≡ true)
              × UsableBelow asker children (ns ++ (codes "." ++ m.name)))
            ⊎ MayReach asker (grant_or m ns) m.public m.held_on)

    keep-Entitled :
        (m : MethodSchema R) (held : Held)
        → keep asker (grant_or m ns) m.public ≡ some held
        → Entitled (record m { held_on = held })
    unfolding grant_or
    keep-Entitled m held h = inr (inr (keep-MayReach asker (grant_or m ns) m.public held h))

    decide_method-Entitled :
        (m : MethodSchema R) (held : Held)
        → decide_method asker (map below_of children) ns m ≡ some held
        → Entitled (record m { held_on = held })
    unfolding decide_method reaches_below
    decide_method-Entitled m held h = elim (Bool-cases (is_static_child m.role)) [
      | inr own ↦ keep-Entitled m held (rw own at h)
      | inl child ↦
          elim (by_reach-cases
            (any (is_below (ns ++ (codes "." ++ m.name))) (map below_of children))
            (reached_in asker (ns ++ (codes "." ++ m.name)) (map below_of children))
            (keep asker (grant_or m ns) m.public) held (rw child at h)) [
              | inl reached ↦ inr (inl (child, reached_in-UsableBelow asker _ children reached))
              | inr own ↦ keep-Entitled m held own
            ]
    ]

    methods_shown-Entitled :
        (ms : List (MethodSchema R))
        → All Entitled (methods_shown asker (map below_of children) ns ms)
    unfolding methods_shown
    methods_shown-Entitled [] = tt
    methods_shown-Entitled (m ∷ ms) =
        let o = decide_method asker (map below_of children) ns m in
        All-concat Entitled (if is_auto_schema m then [] else keeping m o)
          (methods_shown asker (map below_of children) ns ms)
          (if_cases (All Entitled) (is_auto_schema m) (λ _. tt)
            (λ _. elim (Option-cases o) [
              | inl dropped ↦ rw dropped tt
              | inr (held, kept) ↦ rw kept (decide_method-Entitled m held kept, tt)
            ]))
          (methods_shown-Entitled ms)

    entry_shown-Entitled :
        (ms es : List (MethodSchema R)) → All Entitled es → All Entitled (entry_shown ms es)
    unfolding entry_shown
    entry_shown-Entitled [] es h = h
    entry_shown-Entitled (m ∷ ms) es h =
        entry_shown-Entitled ms (if is_auto_schema m then m ∷ [] else es)
          (if_cases (All Entitled) (is_auto_schema m) (λ auto. (inl auto, tt)) (λ _. h))

  module _ {R E : Type 0} (children : List (PluginSchema R E)) where
    abbrev pub AllEntitled : Text × PluginSchema R E → Type 0
    AllEntitled e = All (Entitled children e.1.namespace) e.1.methods

    btree_insert-All :
        (ns : Text) (t : PluginSchema R E) (m : Assoc Text (PluginSchema R E))
        → AllEntitled (ns, t)
        → All AllEntitled m
        → All AllEntitled (btree_insert ns t m)
    unfolding btree_insert
    btree_insert-All ns t [] h hs = (h, tt)
    btree_insert-All ns t ((j, w) ∷ m) h (k, hs) =
        if_cases (All AllEntitled) (ns == j) (λ _. (h, hs))
          (λ _.
            if_cases (All AllEntitled) (le_text ns j) (λ _. (h, (k, hs)))
              (λ _. (k, btree_insert-All ns t m h hs)))

  module _ {R E : Type 0} (digest : Digest R E) (kind : ViewKind)
      (children : List (PluginSchema R E)) where
    showing-Entitled :
        (s : PluginSchema R E) (ms es : List (MethodSchema R))
        → All (Entitled children s.namespace) ms
        → All (Entitled children s.namespace) es
        → {t : PluginSchema R E} → showing asker digest kind s ms es ≡ some t
        → AllEntitled children (s.namespace, t)
    unfolding rehash
    showing-Entitled s [] es h k e = cc
    showing-Entitled s (m ∷ ms) es h k {t} e =
        subst (λ (t : PluginSchema R E). AllEntitled children (s.namespace, t)) (some_inj e)
          (All-concat (Entitled children s.namespace) (m ∷ ms) es h k)

    all_shown-Entitled :
        (ss : List (PluginSchema R E)) (m : Assoc Text (PluginSchema R E))
        → All (AllEntitled children) m
        → All (AllEntitled children) (all_shown asker digest kind (map below_of children) ss m)
    unfolding all_shown activation_shown
    all_shown-Entitled [] m h = h
    all_shown-Entitled (s ∷ ss) m h =
        let o = activation_shown asker digest kind (map below_of children) s in
        all_shown-Entitled ss (with_shown asker digest kind s.namespace o m)
          (elim (Option-cases o) [
            | inl dropped ↦ rw dropped h
            | inr (t, shows) ↦ rw shows (
                btree_insert-All children s.namespace t m
                  (showing-Entitled s
                    (methods_shown asker (map below_of children) s.namespace s.methods)
                    (entry_shown s.methods [])
                    (methods_shown-Entitled children s.namespace s.methods)
                    (entry_shown-Entitled children s.namespace s.methods [] tt) shows)
                  h)
          ])

  -- Whoever asks: each method of an activation that the view shows is the schema method, or the name
  -- of a child below which the caller may use a method, or public, or (the caller signed in) one that
  -- the gate says it holds, told with the scopes that it is held on, or one of every signed-in caller.
  pub view-Entitled :
      {R E : Type 0} (digest : Digest R E) (service : PluginSchema R E)
      (activations children : List (PluginSchema R E)) (v : Shaped R E) (w : View R E)
      → let base = new service activations children in
        shape digest asker base ≡ some v
        → view base v ≡ some w
        → All (AllEntitled children) w.activations
  unfolding view_meant new
  view-Entitled {R} {E} digest service activations children v w shaped viewed =
      let base = new service activations children in
      let (v', made, reads) = shape-view_meant asker digest service activations children in
      let same : v' ≡ v = some_inj (sym made ∙ shaped) in
      let meant : view_meant asker digest base ≡ w =
        some_inj (sym reads ∙ (ap (view base) same ∙ viewed)) in
      subst (λ (x : View R E). All (AllEntitled children) x.activations) meant
        (all_shown-Entitled digest (kind_of asker.who) children activations [] tt)
