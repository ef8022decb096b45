-- ===== src/View/Meaning.antt =====
-- The view that is meant: the schemas themselves, with what is kept of them, and no index.
use plexus_core.Base.{Text, Option, none, some, List, [], ◌∷◌, ◌++◌, map, if◌then◌else◌, text_eq}
use plexus_core.Base.Assoc.{Assoc, lookup}
use plexus_core.View.Schema.{MethodSchema, PluginSchema, ChildSummary, ViewKind, is_auto_schema}
use plexus_core.View.Described.{Described, Below, Asker}
use plexus_core.View.Shape.{btree_insert, Digest, kind_of, children_of, rehash, option_map}
use plexus_core.View.Decide.{Held, decide_method, or_empty, not_held, hash_prefix, with_hash}
use plexus_core.View.Reading.{View}

module _ {R : Type 0} where
  abbrev pub keeping : MethodSchema R → Option Held → List (MethodSchema R)
  keeping m none = []
  keeping m (some held) = record m { held_on = held } ∷ []

  -- The schema method stands last.
  unfoldable pub entry_shown : List (MethodSchema R) → List (MethodSchema R) → List (MethodSchema R)
  unfolding is_auto_schema
  entry_shown [] entry = entry
  entry_shown (m ∷ ms) entry = entry_shown ms (if is_auto_schema m then m ∷ [] else entry)

  abbrev pub names_of : List (MethodSchema R) → List Text
  names_of = map (λ m. m.name)

module _ {F : Type 0} (asker : Asker F) where
  module _ {R : Type 0} where
    unfoldable pub methods_shown :
        List Below → (ns : Text) → List (MethodSchema R) → List (MethodSchema R)
    unfolding is_auto_schema decide_method
    methods_shown below ns [] = []
    methods_shown below ns (m ∷ ms) =
        (if is_auto_schema m then [] else keeping m (decide_method asker below ns m))
        ++ methods_shown below ns ms

  module _ {R E : Type 0} (digest : Digest R E) (kind : ViewKind) where
    abbrev pub showing :
        PluginSchema R E → List (MethodSchema R) → List (MethodSchema R) → Option (PluginSchema R E)
    showing s [] entry = none
    showing s (m ∷ ms) entry =
        let methods = (m ∷ ms) ++ entry in
        some (
          rehash digest none (record s {
            methods = methods;
            children = option_map (children_of (names_of methods)) s.children;
            roles = [];
            view = some kind;
          }))

    unfoldable pub activation_shown : List Below → PluginSchema R E → Option (PluginSchema R E)
    unfolding methods_shown entry_shown rehash children_of
    activation_shown below s =
        showing s (methods_shown below s.namespace s.methods) (entry_shown s.methods [])

    abbrev pub with_shown :
        Text
        → Option (PluginSchema R E)
        → Assoc Text (PluginSchema R E)
        → Assoc Text (PluginSchema R E)
    with_shown ns none m = m
    with_shown ns (some t) m = btree_insert ns t m

    unfoldable pub all_shown :
        List Below
        → List (PluginSchema R E)
        → Assoc Text (PluginSchema R E)
        → Assoc Text (PluginSchema R E)
    unfolding activation_shown btree_insert
    all_shown below [] m = m
    all_shown below (s ∷ ss) m =
        all_shown below ss (with_shown s.namespace (activation_shown below s) m)

module _ {R E : Type 0} where
  unfoldable pub children_listed :
      Assoc Text (PluginSchema R E) → List ChildSummary → List ChildSummary
  unfolding lookup
  children_listed shown [] = []
  children_listed shown (c ∷ cs) =
      with_hash c (option_map (λ s. s.hash) (lookup c.namespace shown)) (children_listed shown cs)

  unfoldable pub view_meant : {F : Type 0} → Asker F → Digest R E → Described R E → View R E
  unfolding all_shown children_listed not_held rehash
  view_meant asker digest base =
      let kind = kind_of asker.who in
      let shown = all_shown asker digest kind base.below base.activations [] in
      let service = rehash digest (some (hash_prefix kind)) (record base.service {
        children = some (children_listed shown (or_empty base.service.children));
        methods = not_held base.service.methods;
        roles = [];
        view = some kind;
      }) in
      record { kind = kind; schema = service; hash = service.hash; activations = shown }
