-- ===== src/View/Shape.antt =====
-- One caller's view (`activation_view` and `shape` of src/plexus/view.rs), kept as indices into what
-- the service describes. `none` of a `Panics` is an index that is out of range. `btree_insert` keeps a
-- `BTreeMap` in the order of its keys.
use plexus_core.Base.{
  ℕ, zero, suc, Text, Option, none, some, List, [], ◌∷◌, ◌++◌, if◌then◌else◌, ◌==◌, text_eq, any,
}
use plexus_core.Base.Assoc.{Assoc}
use plexus_core.ContentHash.Canonical.{le_text}
use plexus_core.View.Schema.{
  MethodSchema, PluginSchema, ChildSummary, ViewKind, anonymous, caller_view,
}
use plexus_core.View.Described.{Described}

abbrev pub Panics {ℓ} : Type ℓ → Type ℓ
Panics A = Option A

infixl 5 ◌>>=◌
abbrev pub ◌>>=◌ {ℓ κ} : {A : Type ℓ} {B : Type κ} → Panics A → (A → Panics B) → Panics B
none >>= f = none
some a >>= f = f a

module _ {ℓ κ} {A : Type ℓ} {B : Type κ} where
  unfoldable pub each : (A → Panics B) → List A → Panics (List B)
  each f [] = some []
  each f (x ∷ xs) = do y ← f x; ys ← each f xs; some (y ∷ ys)

abbrev pub get_elem? {ℓ} : {A : Type ℓ} → List A → ℕ → Option A
get_elem? [] i = none
get_elem? (x ∷ xs) zero = some x
get_elem? (x ∷ xs) (suc i) = get_elem? xs i

module _ {V : Type 0} where
  unfoldable pub btree_insert : Text → V → Assoc Text V → Assoc Text V
  unfolding le_text
  btree_insert k v [] = (k, v) ∷ []
  btree_insert k v ((j, w) ∷ m) =
      if k == j
      then (k, v) ∷ m
      else if le_text k j
      then (k, v) ∷ (j, w) ∷ m
      else (j, w) ∷ btree_insert k v m

-- The digests of what rehash reads: of the methods, of the children, and of the whole.
pub record Digest (R E : Type 0) : Type 0 where
  pub of_self : (namespace : Text) → List (MethodSchema R) → Option ViewKind → Text
  pub of_children : List ChildSummary → Text
  pub of_all : (self_hash : Text) → (children_hash : Option Text) → PluginSchema R E → Text

abbrev pub option_map {ℓ κ} : {A : Type ℓ} {B : Type κ} → (A → B) → Option A → Option B
option_map f none = none
option_map f (some a) = some (f a)

abbrev pub prefixed_with : Option Text → Text → Text
prefixed_with none t = t
prefixed_with (some p) t = p ++ t

pub record Kept : Type 0 where
  pub at : ℕ
  pub methods : List (ℕ × Option (List Text))
  pub children : Option (List ChildSummary)
  pub self_hash : Text
  pub children_hash : Option Text
  pub hash : Text

pub record Shaped (R E : Type 0) : Type 0 where
  pub kind : ViewKind
  pub hash : Text
  pub service : PluginSchema R E
  pub kept : Assoc Text Kept

module _ {R : Type 0} where
  -- Kept::shown
  unfoldable pub shown : List (MethodSchema R) → ℕ × Option (List Text) → Panics (MethodSchema R)
  shown methods (i, held) = do m ← get_elem? methods i; some (record m { held_on = held })

  abbrev pub name_at : List (MethodSchema R) → ℕ × Option (List Text) → Panics Text
  name_at methods (i, _) = do m ← get_elem? methods i; some m.name

abbrev pub kind_of {ℓ} : {F : Type ℓ} → Option F → ViewKind
kind_of none = anonymous
kind_of (some _) = caller_view

-- The summaries of the names that are kept.
unfoldable pub children_of : (names : List Text) → List ChildSummary → List ChildSummary
children_of names [] = []
children_of names (c ∷ cs) =
    let rest = children_of names cs in if any (λ n. n == c.namespace) names then c ∷ rest else rest

module _ {R E : Type 0} (digest : Digest R E) where
  unfoldable pub rehash : Option Text → PluginSchema R E → PluginSchema R E
  rehash prefix schema =
      let blank = record schema { self_hash = []; children_hash = none; hash = [] } in
      let self_hash = digest.of_self blank.namespace blank.methods blank.view in
      let children_hash = option_map digest.of_children blank.children in
      record blank {
        self_hash = self_hash;
        children_hash = children_hash;
        hash = prefixed_with prefix (digest.of_all self_hash children_hash blank);
      }

module _ {R E : Type 0} where
  -- Kept::schema
  abbrev pub filled : ViewKind → Kept → PluginSchema R E → List (MethodSchema R) → PluginSchema R E
  filled kind k s methods = record s {
    methods = methods;
    children = k.children;
    roles = [];
    view = some kind;
    self_hash = k.self_hash;
    children_hash = k.children_hash;
    hash = k.hash;
  }

  unfoldable pub kept_schema : Described R E → ViewKind → Kept → Panics (PluginSchema R E)
  unfolding each shown
  kept_schema base kind k = do
    source ← get_elem? base.activations k.at
    s ← get_elem? base.hollow k.at
    methods ← each (shown source.methods) k.methods
    some (filled kind k s methods)
