-- ===== src/View/Refines/Activations.antt =====
-- Each activation that is kept reads as the one that is shown.
use plexus_core.Base.{
  ℕ, zero, suc, Text, Option, none, some, List, [], ◌∷◌, ◌++◌, map, ◌==◌, text_eq, length, ◌≡◌,
  refl, sym, ◌∙◌, inl, inr, Bool-cases, Option-cases, append_assoc,
}
use plexus_core.Base.Assoc.{Assoc}
use plexus_core.ContentHash.Canonical.{le_text}
use plexus_core.View.Schema.{MethodSchema, PluginSchema, ViewKind}
use plexus_core.View.Described.{Described, Asker, hollow_of}
use plexus_core.View.Shape.{
  Panics, get_elem?, btree_insert, Digest, Kept, shown, name_at, children_of, rehash, kept_schema,
  filled, option_map,
}
use plexus_core.View.Decide.{
  Held, to_list, scan, with_hashes, blank_kept, keep_methods, activation_view, collect,
}
use plexus_core.View.Reading.{schemas_of}
use plexus_core.View.Meaning.{
  methods_shown, entry_shown, names_of, showing, activation_shown, all_shown,
}
use plexus_core.View.Refines.Methods.{
  Gives, each-Gives, Gives-append, get_elem?-length, length-snoc, Gives-names, scan-Gives,
}

get_elem?-map :
    {A B : Type 0} (f : A → B) (xs : List A) (i : ℕ)
    → get_elem? (map f xs) i ≡ option_map f (get_elem? xs i)
get_elem?-map f [] i = refl
get_elem?-map f (x ∷ xs) zero = refl
get_elem?-map f (x ∷ xs) (suc i) = get_elem?-map f xs i

module _ {F R E : Type 0} (asker : Asker F) (digest : Digest R E) (kind : ViewKind)
    (base : Described R E) (emptied : base.hollow ≡ map hollow_of base.activations) where
  kept_schema-Gives :
      (k : Kept) (s : PluginSchema R E) (ms : List (MethodSchema R))
      → get_elem? base.activations k.at ≡ some s
      → Gives (shown s.methods) k.methods ms
      → kept_schema base kind k ≡ some (filled kind k (hollow_of s) ms)
  unfolding kept_schema
  kept_schema-Gives k s ms at h =
      rw
        (
          emptied,
          get_elem?-map hollow_of base.activations k.at,
          at,
          each-Gives (shown s.methods) k.methods ms h,
        )
        refl

  -- The indices stand for what is shown.
  abbrev StandsFor : ℕ → Option (PluginSchema R E) → Panics (Option Kept) → Type 0
  StandsFor at none made = made ≡ some none
  StandsFor at (some t) made =
      (k : Kept) × (made ≡ some (some k)) × (k.at ≡ at) × (kept_schema base kind k ≡ some t)

  keep_methods-StandsFor :
      (at : ℕ) (s : PluginSchema R E) (picked : List (ℕ × Held)) (entry : Option (ℕ × Held))
      (ms es : List (MethodSchema R))
      → get_elem? base.activations at ≡ some s
      → Gives (shown s.methods) picked ms
      → Gives (shown s.methods) (to_list entry) es
      → StandsFor at
          (showing asker digest kind s ms es)
          (keep_methods asker digest kind base at s (picked, entry))
  unfolding rehash hollow_of
  keep_methods-StandsFor at s [] entry [] es here h k = refl
  keep_methods-StandsFor at s [] entry (m ∷ ms) es here h k = absurd h
  keep_methods-StandsFor at s (p ∷ ps) entry [] es here h k = absurd h
  keep_methods-StandsFor at s (p ∷ ps) entry (m ∷ ms) es here h k =
      let picked = (p ∷ ps) ++ to_list entry in
      let methods = (m ∷ ms) ++ es in
      let all = Gives-append (shown s.methods) (p ∷ ps) (to_list entry) (m ∷ ms) es h k in
      let names = Gives-names s.methods picked methods all in
      let blank =
        blank_kept asker digest kind at picked
          (option_map (children_of (names_of methods)) s.children) in
      let made = kept_schema-Gives blank s methods here all in
      let hashed =
        with_hashes asker digest kind blank
          (rehash digest none (filled kind blank (hollow_of s) methods)) in
      (
        hashed,
        rw (each-Gives (name_at s.methods) picked (names_of methods) names, made) refl,
        refl,
        kept_schema-Gives hashed s methods here all,
      )

  activation_view-StandsFor :
      (pre : List (PluginSchema R E)) (s : PluginSchema R E) (post : List (PluginSchema R E))
      → base.activations ≡ pre ++ (s ∷ post)
      → StandsFor
          (length pre)
          (activation_shown asker digest kind base.below s)
          (activation_view asker digest kind base (length pre))
  unfolding activation_shown activation_view
  activation_view-StandsFor pre s post at =
      let here : get_elem? base.activations (length pre) ≡ some s =
        rw at (get_elem?-length pre s post) in
      let (h, k) =
        scan-Gives asker base.below s.namespace [] s.methods s.methods [] none [] [] refl tt tt in
      let made =
        keep_methods-StandsFor (length pre) s
          (scan asker base.below s.namespace 0 s.methods [] none).0
          (scan asker base.below s.namespace 0 s.methods [] none).1
          (methods_shown asker base.below s.namespace s.methods) (entry_shown s.methods []) here h
          k in
      rw here made

  -- A kept map and what it shows: the same keys, in the same order.
  abbrev pub Reads : Assoc Text Kept → Assoc Text (PluginSchema R E) → Type 0
  Reads [] [] = Unit
  Reads [] (e ∷ out) = ⊥
  Reads (e ∷ m) [] = ⊥
  Reads ((j, k) ∷ m) ((i, t) ∷ out) = (j ≡ i) × (kept_schema base kind k ≡ some t) × Reads m out

  pub Reads-schemas_of :
      (m : Assoc Text Kept) (out : Assoc Text (PluginSchema R E))
      → Reads m out
      → schemas_of base kind m ≡ some out
  unfolding schemas_of
  Reads-schemas_of [] [] h = refl
  Reads-schemas_of [] (e ∷ out) h = absurd h
  Reads-schemas_of (e ∷ m) [] h = absurd h
  Reads-schemas_of ((j, k) ∷ m) ((i, t) ∷ out) (same, made, h) =
      rw (made, Reads-schemas_of m out h, same) refl

  Reads-btree_insert :
      (ns : Text) (k : Kept) (t : PluginSchema R E) (m : Assoc Text Kept)
      (out : Assoc Text (PluginSchema R E))
      → kept_schema base kind k ≡ some t
      → Reads m out
      → Reads (btree_insert ns k m) (btree_insert ns t out)
  unfolding btree_insert
  Reads-btree_insert ns k t [] [] made h = (refl, made, tt)
  Reads-btree_insert ns k t [] (e ∷ out) made h = absurd h
  Reads-btree_insert ns k t (e ∷ m) [] made h = absurd h
  Reads-btree_insert ns k t ((j, l) ∷ m) ((i, u) ∷ out) made (same, old, h) =
      rw (← same) (elim (Bool-cases (ns == j)) [
        | inl here ↦ rw here (refl, made, h)
        | inr other ↦ elim (Bool-cases (le_text ns j)) [
          | inl before ↦ rw (other, before) (refl, made, (refl, old, h))
          | inr after ↦ rw (other, after) (refl, old, Reads-btree_insert ns k t m out made h)
        ]
      ])

  pub collect-Reads :
      (pre left : List (PluginSchema R E)) (m : Assoc Text Kept)
      (out : Assoc Text (PluginSchema R E))
      → base.activations ≡ pre ++ left
      → Reads m out
      → (m' : Assoc Text Kept) × (collect asker digest kind base (length pre) (length left) m
          ≡ some m')
        × Reads m' (all_shown asker digest kind base.below left out)
  unfolding collect all_shown
  collect-Reads pre [] m out at h = (m, refl, h)
  collect-Reads pre (s ∷ left) m out at h =
      let onward = at ∙ sym (append_assoc pre (s ∷ []) left) in
      elim (Option-cases (activation_shown asker digest kind base.below s)) [
        | inl dropped ↦
            let none_made : activation_view asker digest kind base (length pre) ≡ some none =
              rw dropped at (activation_view-StandsFor pre s left at) in
            let (m', done, h') = collect-Reads (pre ++ (s ∷ [])) left m out onward h in
            (m', rw none_made (rw (length-snoc pre s) at done), rw dropped h')
        | inr (t, kept) ↦
            let (k, made, where_at, shows) = rw kept at (activation_view-StandsFor pre s left at) in
            let here : get_elem? base.activations k.at ≡ some s =
              rw (where_at, at) (get_elem?-length pre s left) in
            let (m', done, h') =
              collect-Reads (pre ++ (s ∷ [])) left (btree_insert s.namespace k m)
                (btree_insert s.namespace t out) onward
                (Reads-btree_insert s.namespace k t m out shows h) in
            (m', rw (made, here) (rw (length-snoc pre s) at done), rw kept h')
      ]
