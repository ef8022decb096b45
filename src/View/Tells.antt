-- ===== src/View/Tells.antt =====
-- The view decided and kept is what is to be told.
use plexus_core.Base.{
  Text, Option, none, some, List, [], ◌∷◌, ◌++◌, map, text_eq, ◌≡◌, refl, ap, ◌∙◌,
}
use plexus_core.Base.Assoc.{Assoc, lookup}
use plexus_core.View.Schema.{MethodSchema, PluginSchema, ChildSummary}
use plexus_core.View.Described.{Asker, below_of, new}
use plexus_core.View.Shape.{Digest, Shaped, option_map}
use plexus_core.View.Decide.{shape, or_empty, with_hash}
use plexus_core.View.Reading.{View, view}
use plexus_core.View.Meaning.{
  names_of, entry_shown, showing, activation_shown, all_shown, children_listed, view_meant,
}
use plexus_core.View.Refines.{shape-view_meant}
use plexus_core.View.Told.{
  kind_for, told_prefix, children_in, listed_as, listed, hashed, held_on_nothing, told_methods,
  told_schema, told_activations, told_view,
}
use plexus_core.View.TellsMethods.{
  children-kept_child, hash_prefix-told_prefix, or_empty-children_in, not_held-map,
  kind_of-kind_for, rehash-hashed, rehash-hashed_prefix, methods_shown-told_methods,
}

module _ {F : Type 0} (asker : Asker F) where
  module _ {R E : Type 0} (children : List (PluginSchema R E)) where
    module _ (digest : Digest R E) where
      showing-told_schema :
          (s : PluginSchema R E) (ms es : List (MethodSchema R))
          → showing asker digest (kind_for asker.who) s ms es
            ≡ told_schema asker children digest s ms es
      showing-told_schema s [] es = refl
      showing-told_schema s (m ∷ ms) es =
          ap (λ (t : PluginSchema R E). some t)
            (rehash-hashed digest _
              ∙ ap
                  (λ (c : Option (List ChildSummary)). hashed digest [] (record s {
                    methods = (m ∷ ms) ++ es;
                    children = c;
                    roles = [];
                    view = some (kind_for asker.who);
                  }))
                  (children-kept_child (names_of ((m ∷ ms) ++ es)) s.children))

      all_shown-told_activations :
          (ss : List (PluginSchema R E)) (told : Assoc Text (PluginSchema R E))
          → all_shown asker digest (kind_for asker.who) (map below_of children) ss told
            ≡ told_activations asker children digest ss told
      unfolding all_shown activation_shown
      all_shown-told_activations [] told = refl
      all_shown-told_activations (s ∷ ss) told =
          rw
            (
              methods_shown-told_methods asker children s.namespace s.methods,
              showing-told_schema s (told_methods asker children s.namespace s.methods)
                  (entry_shown s.methods []),
            )
            (all_shown-told_activations ss _)

  module _ {R E : Type 0} where
    listed_as-with_hash :
        (c : ChildSummary) (o : Option (PluginSchema R E)) (rest : List ChildSummary)
        → with_hash c (option_map (λ (s : PluginSchema R E). s.hash) o) rest ≡ listed_as c o ++ rest
    listed_as-with_hash c none rest = refl
    listed_as-with_hash c (some s) rest = refl

    children_listed-listed :
        (told : Assoc Text (PluginSchema R E)) (cs : List ChildSummary)
        → children_listed told cs ≡ listed told cs
    unfolding children_listed
    children_listed-listed told [] = refl
    children_listed-listed told (c ∷ cs) =
        listed_as-with_hash c (lookup c.namespace told) (children_listed told cs)
        ∙ ap (λ (l : List ChildSummary). listed_as c (lookup c.namespace told) ++ l)
            (children_listed-listed told cs)

    view_meant-told_view :
        (digest : Digest R E) (service : PluginSchema R E)
        (activations children : List (PluginSchema R E))
        → view_meant asker digest (new service activations children)
          ≡ told_view asker children digest service activations
    unfolding view_meant new
    view_meant-told_view digest service activations children =
        rw
          (
            kind_of-kind_for asker.who,
            all_shown-told_activations children digest activations [],
            children_listed-listed (told_activations asker children digest activations [])
                (or_empty service.children),
            or_empty-children_in service.children,
            not_held-map service.methods,
            hash_prefix-told_prefix (kind_for asker.who),
          )
          (ap
            (λ (s : PluginSchema R E). record {
              kind = kind_for asker.who;
              schema = s;
              hash = s.hash;
              activations = told_activations asker children digest activations [];
            })
            (rehash-hashed_prefix digest (told_prefix (kind_for asker.who)) (record service {
              children = some (
                  listed (told_activations asker children digest activations [])
                    (children_in service.children));
              methods = map held_on_nothing service.methods;
              roles = [];
              view = some (kind_for asker.who);
            })))

    -- Deciding a view never reads an index that is out of range, and the view kept is, read whole, what
    -- the caller is to be told: the activations that have a method that it may use, by name, each with
    -- those methods (the name of a child counts where a method there or below may be used) and then its
    -- schema method; the service's own methods, with those activations listed under their hashes; and
    -- every hash is of what is told.
    pub shape-told_view :
        (digest : Digest R E) (service : PluginSchema R E)
        (activations children : List (PluginSchema R E))
        → let base = new service activations children in
          (v : Shaped R E) × (shape digest asker base ≡ some v)
          × (view base v ≡ some (told_view asker children digest service activations))
    shape-told_view digest service activations children =
        let (v, made, reads) = shape-view_meant asker digest service activations children in
        (
          v,
          made,
          reads
              ∙ ap (λ (w : View R E). some w)
                  (view_meant-told_view digest service activations children),
        )
