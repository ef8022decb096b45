-- ===== src/View/Reading.antt =====
-- What is read of a view (src/plexus/view.rs): whole, as a `View`, and as it is kept, a `Shaped`.
use plexus_core.Base.{
  ℕ, Text, Bool, ◌||◌, Option, none, some, List, [], ◌∷◌, ◌++◌, map, if◌then◌else◌, ◌==◌, text_eq,
  not,
}
use plexus_core.Base.Assoc.{Assoc, lookup}
use plexus_core.View.Schema.{
  MethodSchema, PluginSchema, ChildSummary, ViewKind, caller_view, grant_or, is_none,
}
use plexus_core.View.Described.{Described}
use plexus_core.View.Shape.{
  Panics, ◌>>=◌, get_elem?, btree_insert, Kept, Shaped, shown, name_at, kept_schema, option_map,
}

pub record View (R E : Type 0) : Type 0 where
  pub kind : ViewKind
  pub schema : PluginSchema R E
  pub hash : Text
  pub activations : Assoc Text (PluginSchema R E)

pub record PluginHashes : Type 0 where
  pub namespace : Text
  pub self_hash : Text
  pub children_hash : Option Text
  pub hash : Text
  pub children : Option (List (Text × Text))

module _ {R E : Type 0} where
  unfoldable pub hashes_of : PluginSchema R E → PluginHashes
  hashes_of s = record {
    namespace = s.namespace;
    self_hash = s.self_hash;
    children_hash = s.children_hash;
    hash = s.hash;
    children = option_map (map (λ (c : ChildSummary). (c.namespace, c.hash))) s.children;
  }

module _ {R : Type 0} where
  unfoldable pub grants_of_public : (ns : Text) → List (MethodSchema R) → List Text
  unfolding grant_or
  grants_of_public ns [] = []
  grants_of_public ns (m ∷ ms) =
      let rest = grants_of_public ns ms in if m.public then grant_or m ns ∷ rest else rest

  unfoldable pub find_method : (name : Text) → List (MethodSchema R) → Option (MethodSchema R)
  find_method name [] = none
  find_method name (m ∷ ms) = if m.name == name then some m else find_method name ms

  -- Kept::method
  unfoldable pub find_kept :
      (name : Text)
      → List (MethodSchema R)
      → List (ℕ × Option (List Text))
      → Panics (Option (MethodSchema R))
  unfolding shown
  find_kept name methods [] = some none
  find_kept name methods (p ∷ ps) = do
    n ← name_at methods p
    let later = find_kept name methods ps
    if n == name then (do m ← shown methods p; some (some m)) else later

module _ {R E : Type 0} where
  -- View::schema_of
  unfoldable pub view_schema_of : View R E → (ns : Text) → Option (PluginSchema R E)
  unfolding lookup
  view_schema_of v ns = if ns == v.schema.namespace then some v.schema else lookup ns v.activations

  unfoldable pub public_in : Assoc Text (PluginSchema R E) → List Text
  unfolding grants_of_public
  public_in [] = []
  public_in ((_, s) ∷ m) = grants_of_public s.namespace s.methods ++ public_in m

  -- View::public_methods
  unfoldable pub view_public_methods : View R E → List Text
  unfolding public_in
  view_public_methods v = public_in v.activations

  unfoldable pub by_namespace :
      List (PluginSchema R E) → Assoc Text (PluginSchema R E) → Assoc Text (PluginSchema R E)
  unfolding btree_insert
  by_namespace [] m = m
  by_namespace (s ∷ ss) m = by_namespace ss (btree_insert s.namespace s m)

  module _ (base : Described R E) where
    -- A map's values; its keys stay.
    unfoldable pub schemas_of : ViewKind → Assoc Text Kept → Panics (Assoc Text (PluginSchema R E))
    unfolding kept_schema
    schemas_of kind [] = some []
    schemas_of kind ((ns, k) ∷ m) = do
      s ← kept_schema base kind k
      rest ← schemas_of kind m
      some ((ns, s) ∷ rest)

    -- Shaped::view
    unfoldable pub view : Shaped R E → Panics (View R E)
    unfolding schemas_of
    view v = do
      all ← schemas_of v.kind v.kept
      some (record { kind = v.kind; schema = v.service; hash = v.hash; activations = all })

    abbrev pub schema_found : ViewKind → Option Kept → Panics (Option (PluginSchema R E))
    schema_found kind none = some none
    schema_found kind (some k) = do s ← kept_schema base kind k; some (some s)

    -- Shaped::schema_of
    unfoldable pub schema_of : Shaped R E → (ns : Text) → Panics (Option (PluginSchema R E))
    unfolding lookup kept_schema
    schema_of v ns =
        if ns == v.service.namespace
        then some (some v.service)
        else schema_found v.kind (lookup ns v.kept)

    abbrev pub method_found : (name : Text) → Option Kept → Panics (Option (MethodSchema R))
    method_found name none = some none
    method_found name (some k) = do
      source ← get_elem? base.activations k.at
      find_kept name source.methods k.methods

    -- Shaped::method_of
    unfoldable pub method_of : Shaped R E → (ns name : Text) → Panics (Option (MethodSchema R))
    unfolding lookup find_kept find_method
    method_of v ns name =
        if ns == v.service.namespace
        then some (find_method name v.service.methods)
        else method_found name (lookup ns v.kept)

    -- Described::whole
    unfoldable pub whole : View R E
    unfolding by_namespace
    whole = record {
      kind = caller_view;
      schema = base.service;
      hash = base.service.hash;
      activations = by_namespace base.activations [];
    }

  unfoldable pub shows : Shaped R E → (ns : Text) → Bool
  unfolding lookup
  shows v ns = ns == v.service.namespace || not (is_none (lookup ns v.kept))
