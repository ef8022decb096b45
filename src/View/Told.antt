-- ===== src/View/Told.antt =====
-- What a caller is to be told of a service, over the schemas of the service, its activations and its
-- children, apart from how the view is decided and kept.
use plexus_core.Base.{
  Text, codes, Bool, true, false, not, ◌&&◌, ◌||◌, Option, none, some, List, [], ◌∷◌, ◌++◌, map,
  any, if◌then◌else◌, ◌==◌, text_eq,
}
use plexus_core.Base.Assoc.{Assoc, lookup}
use plexus_core.Base.Texts.{strip_prefix}
use plexus_core.View.Schema.{
  MethodSchema, PluginSchema, ChildSummary, ViewKind, anonymous, caller_view, is_rpc,
  is_static_child, is_auto_schema, grant_or,
}
use plexus_core.View.Described.{Asker}
use plexus_core.View.Shape.{Digest}
use plexus_core.View.Decide.{Held}
use plexus_core.View.Reading.{View}
use plexus_core.View.Meaning.{keeping, names_of, entry_shown, with_shown}

abbrev pub allow : Bool → Option Held
allow true = some none
allow false = none

-- The path, or something below it.
abbrev pub is_at : (path ns : Text) → Bool
is_at path ns = elim (strip_prefix (path ++ codes ".") ns) [ none ↦ ns == path | some rest ↦ true ]

abbrev pub kept_names : List Text → List ChildSummary → List ChildSummary
kept_names names [] = []
kept_names names (c ∷ cs) =
    (if any (λ n. n == c.namespace) names then c ∷ [] else []) ++ kept_names names cs

abbrev pub kept_child : List Text → Option (List ChildSummary) → Option (List ChildSummary)
kept_child names none = none
kept_child names (some cs) = some (kept_names names cs)

abbrev pub kind_for {ℓ} : {F : Type ℓ} → Option F → ViewKind
kind_for none = anonymous
kind_for (some f) = caller_view

abbrev pub told_prefix : ViewKind → Text
told_prefix anonymous = codes "v-anon-"
told_prefix caller_view = codes "v-"

abbrev pub children_in : Option (List ChildSummary) → List ChildSummary
children_in none = []
children_in (some cs) = cs

abbrev pub held_on_nothing : {R : Type 0} → MethodSchema R → MethodSchema R
held_on_nothing m = record m { held_on = none }

module _ {R E : Type 0} where
  abbrev pub listed_as : ChildSummary → Option (PluginSchema R E) → List ChildSummary
  listed_as c none = []
  listed_as c (some s) = record c { hash = s.hash } ∷ []

  -- A service lists the activations that are told of, under their hashes there.
  abbrev pub listed : Assoc Text (PluginSchema R E) → List ChildSummary → List ChildSummary
  listed told [] = []
  listed told (c ∷ cs) = listed_as c (lookup c.namespace told) ++ listed told cs

  abbrev pub children_digest : Digest R E → Option (List ChildSummary) → Option Text
  children_digest digest none = none
  children_digest digest (some cs) = some (digest.of_children cs)

  -- Its hashes are of what is told: its methods, its children, and the whole without its hashes.
  abbrev pub hashed : Digest R E → (prefix : Text) → PluginSchema R E → PluginSchema R E
  hashed digest prefix s =
      let self_hash = digest.of_self s.namespace s.methods s.view in
      let children_hash = children_digest digest s.children in
      record s {
        self_hash = self_hash;
        children_hash = children_hash;
        hash =
            prefix
            ++ digest.of_all self_hash children_hash
                (record s { self_hash = []; children_hash = none; hash = [] });
      }

module _ {F : Type 0} (asker : Asker F) where
  abbrev pub allow_scopes : List Text → Bool → Option Held
  allow_scopes [] everyone = allow everyone
  allow_scopes (s ∷ ss) everyone = some (some (s ∷ ss))

  -- A stranger may use what is public; who is signed in what is public or every signed-in caller's, and
  -- what the gate says it holds, which is told with the scopes that it is held on.
  abbrev pub allowed : Option F → (grant : Text) → (public : Bool) → Option Held
  allowed none grant public = allow public
  allowed (some f) grant public =
      allow_scopes (asker.held_on_by f grant)
        (public || any (λ g. g == grant) asker.signed_in_grants)

  abbrev pub is_allowed : Option Held → Bool
  is_allowed none = false
  is_allowed (some held) = true

  module _ {R E : Type 0} (children : List (PluginSchema R E)) where
    abbrev pub usable : (ns : Text) → MethodSchema R → Bool
    usable ns m =
        is_rpc m.role
        && (not (is_auto_schema m) && is_allowed (allowed asker.who (grant_or m ns) m.public))

    -- The name of a child is told where something at it or below may be used, and a name with no child
    -- there, and any other method, where the method itself may be.
    abbrev pub told_method : (ns : Text) → MethodSchema R → Option Held
    told_method ns m =
        let path = ns ++ (codes "." ++ m.name) in
        if is_static_child m.role && any (λ s. is_at path s.namespace) children
        then allow
            (any (λ s. is_at path s.namespace && any (usable s.namespace) s.methods) children)
        else allowed asker.who (grant_or m ns) m.public

    abbrev pub told_methods : (ns : Text) → List (MethodSchema R) → List (MethodSchema R)
    told_methods ns [] = []
    told_methods ns (m ∷ ms) =
        (if is_auto_schema m then [] else keeping m (told_method ns m)) ++ told_methods ns ms

    module _ (digest : Digest R E) where
      -- An activation is told of where one of its methods is; its schema method stands last then.
      abbrev pub told_schema :
          PluginSchema R E → (methods entry : List (MethodSchema R)) → Option (PluginSchema R E)
      told_schema s [] entry = none
      told_schema s (m ∷ ms) entry = some (
          hashed digest [] (record s {
            methods = (m ∷ ms) ++ entry;
            children = kept_child (names_of ((m ∷ ms) ++ entry)) s.children;
            roles = [];
            view = some (kind_for asker.who);
          }))

      abbrev pub told_activations :
          List (PluginSchema R E) → Assoc Text (PluginSchema R E) → Assoc Text (PluginSchema R E)
      told_activations [] told = told
      told_activations (s ∷ ss) told = told_activations ss (
          with_shown asker digest (kind_for asker.who) s.namespace
            (told_schema s (told_methods s.namespace s.methods) (entry_shown s.methods [])) told)

      -- The service keeps its methods, held on nothing in particular.
      abbrev pub told_view : PluginSchema R E → List (PluginSchema R E) → View R E
      told_view service activations =
          let kind = kind_for asker.who in
          let told = told_activations activations [] in
          let schema = hashed digest (told_prefix kind) (record service {
            children = some (listed told (children_in service.children));
            methods = map (λ (m : MethodSchema R). held_on_nothing m) service.methods;
            roles = [];
            view = some kind;
          }) in
          record { kind = kind; schema = schema; hash = schema.hash; activations = told }
