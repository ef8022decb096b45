-- ===== src/View/Decide.antt =====
-- `activation_view` and `shape` of src/plexus/view.rs.
use plexus_core.Base.{
  ℕ, zero, suc, Text, codes, Bool, Option, none, some, List, [], ◌∷◌, ◌++◌, if◌then◌else◌, text_eq,
  length,
}
use plexus_core.Base.Assoc.{Assoc, lookup}
use plexus_core.View.Schema.{
  MethodSchema, PluginSchema, ChildSummary, ViewKind, anonymous, caller_view, is_static_child,
  is_auto_schema, grant_or,
}
use plexus_core.View.Described.{Described, Below, Asker, keep, reaches_below}
use plexus_core.View.Shape.{
  Panics, ◌>>=◌, each, get_elem?, btree_insert, Digest, Kept, Shaped, name_at, kind_of, children_of,
  rehash, kept_schema, option_map,
}

abbrev pub Held : Type 0
Held = Option (List Text)

abbrev pub to_list {ℓ} : {A : Type ℓ} → Option A → List A
to_list none = []
to_list (some a) = a ∷ []

abbrev pub by_reach : Option Bool → Option Held → Option Held
by_reach none own = own
by_reach (some reached) own = if reached then some none else none

abbrev pub pick : ℕ → Option Held → List (ℕ × Held)
pick i none = []
pick i (some held) = (i, held) ∷ []

module _ {F : Type 0} (asker : Asker F) where
  module _ {R : Type 0} where
    -- Whether a method is kept, by itself or for what is below it, and where it is held.
    unfoldable pub decide_method : List Below → (ns : Text) → MethodSchema R → Option Held
    unfolding keep grant_or reaches_below
    decide_method below ns m =
        let own = keep asker (grant_or m ns) m.public in
        if is_static_child m.role
        then by_reach (reaches_below asker (ns ++ (codes "." ++ m.name)) below) own
        else own

    -- The loop over the methods: what is kept, and the entry of the schema method.
    unfoldable pub scan :
        List Below
        → (ns : Text) → ℕ
        → List (MethodSchema R)
        → List (ℕ × Held)
        → Option (ℕ × Held)
        → List (ℕ × Held) × Option (ℕ × Held)
    unfolding is_auto_schema decide_method
    scan below ns i [] kept entry = (kept, entry)
    scan below ns i (m ∷ ms) kept entry =
        let auto = is_auto_schema m in
        scan below ns (suc i) ms (if auto then kept else kept ++ pick i (decide_method below ns m))
          (if auto then some (i, m.held_on) else entry)

  module _ {R E : Type 0} (digest : Digest R E) (kind : ViewKind) where
    abbrev pub with_hashes : Kept → PluginSchema R E → Kept
    with_hashes k s = record k {
      self_hash = s.self_hash;
      children_hash = s.children_hash;
      hash = s.hash;
    }

    abbrev pub blank_kept : ℕ → List (ℕ × Held) → Option (List ChildSummary) → Kept
    blank_kept at methods children = record {
      at = at;
      methods = methods;
      children = children;
      self_hash = [];
      children_hash = none;
      hash = [];
    }

    abbrev pub keep_methods :
        Described R E
        → ℕ
        → PluginSchema R E
        → List (ℕ × Held) × Option (ℕ × Held)
        → Panics (Option Kept)
    keep_methods base at schema ([], entry) = some none
    keep_methods base at schema (p ∷ ps, entry) = do
      let methods = (p ∷ ps) ++ to_list entry
      names ← each (name_at schema.methods) methods
      let k = blank_kept at methods (option_map (children_of names) schema.children)
      s ← kept_schema base kind k
      some (some (with_hashes k (rehash digest none s)))

    unfoldable pub activation_view : Described R E → ℕ → Panics (Option Kept)
    unfolding scan each kept_schema rehash children_of
    activation_view base at = do
      schema ← get_elem? base.activations at
      keep_methods base at schema (scan base.below schema.namespace 0 schema.methods [] none)

    abbrev pub collect_one :
        Described R E → Assoc Text Kept → ℕ → Option Kept → Panics (Assoc Text Kept)
    collect_one base m at none = some m
    collect_one base m at (some k) = do
      s ← get_elem? base.activations k.at
      some (btree_insert s.namespace k m)

    -- `(0..len).filter_map(..).map(..).collect()`
    unfoldable pub collect :
        Described R E → (at left : ℕ) → Assoc Text Kept → Panics (Assoc Text Kept)
    unfolding activation_view btree_insert
    collect base at zero m = some m
    collect base at (suc left) m = do
      o ← activation_view base at
      m' ← collect_one base m at o
      collect base (suc at) left m'

-- A service lists the activations that the view keeps, under their hashes there.
abbrev pub with_hash : ChildSummary → Option Text → List ChildSummary → List ChildSummary
with_hash c none rest = rest
with_hash c (some h) rest = record c { hash = h } ∷ rest

unfoldable pub kept_children : Assoc Text Kept → List ChildSummary → List ChildSummary
unfolding lookup
kept_children kept [] = []
kept_children kept (c ∷ cs) =
    with_hash c (option_map (λ k. k.hash) (lookup c.namespace kept)) (kept_children kept cs)

abbrev pub or_empty : Option (List ChildSummary) → List ChildSummary
or_empty none = []
or_empty (some cs) = cs

module _ {R : Type 0} where
  unfoldable pub not_held : List (MethodSchema R) → List (MethodSchema R)
  not_held [] = []
  not_held (m ∷ ms) = record m { held_on = none } ∷ not_held ms

abbrev pub hash_prefix : ViewKind → Text
hash_prefix anonymous = codes "v-anon-"
hash_prefix caller_view = codes "v-"

module _ {R E : Type 0} (digest : Digest R E) where
  unfoldable pub service_of : ViewKind → Assoc Text Kept → PluginSchema R E → PluginSchema R E
  unfolding rehash kept_children not_held
  service_of kind kept service = rehash digest (some (hash_prefix kind)) (record service {
    children = some (kept_children kept (or_empty service.children));
    methods = not_held service.methods;
    roles = [];
    view = some kind;
  })

  module _ {F : Type 0} (asker : Asker F) where
    unfoldable pub shape : Described R E → Panics (Shaped R E)
    unfolding collect service_of
    shape base = do
      let kind = kind_of asker.who
      kept ← collect asker digest kind base 0 (length base.activations) []
      let service = service_of kind kept base.service
      some (record { kind = kind; hash = service.hash; service = service; kept = kept })
