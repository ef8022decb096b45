-- ===== src/View/Described.antt =====
-- What a service describes whoever asks, and what the gate says of who asks.
use plexus_core.Base.{
  Text, codes, Bool, false, not, ◌&&◌, ◌||◌, Option, none, some, List, [], ◌∷◌, ◌++◌, map,
  if◌then◌else◌, ◌==◌, text_eq, any,
}
use plexus_core.Base.Texts.{strip_prefix}
use plexus_core.View.Schema.{MethodSchema, PluginSchema, is_rpc, is_none, is_auto_schema, grant_or}

pub record Below : Type 0 where
  pub namespace : Text
  pub grants : List (Text × Bool)

-- The envelopes of its answers (`shells`) are left to View.Shells.
pub record Described (R E : Type 0) : Type 0 where
  pub service : PluginSchema R E
  pub activations : List (PluginSchema R E)
  pub below : List Below
  pub hollow : List (PluginSchema R E)

module _ {R : Type 0} where
  unfoldable pub grants_below : (namespace : Text) → List (MethodSchema R) → List (Text × Bool)
  unfolding is_auto_schema grant_or
  grants_below ns [] = []
  grants_below ns (m ∷ ms) =
      let rest = grants_below ns ms in
      if is_rpc m.role && not (is_auto_schema m) then (grant_or m ns, m.public) ∷ rest else rest

module _ {R E : Type 0} where
  -- Below::of
  unfoldable pub below_of : PluginSchema R E → Below
  unfolding grants_below
  below_of child = record {
    namespace = child.namespace;
    grants = grants_below child.namespace child.methods;
  }

  unfoldable pub hollow_of : PluginSchema R E → PluginSchema R E
  hollow_of s = record s { methods = [] }

  unfoldable pub new :
      PluginSchema R E → (activations children : List (PluginSchema R E)) → Described R E
  unfolding below_of hollow_of
  new service activations children = record {
    service = service;
    activations = activations;
    below = map below_of children;
    hollow = map hollow_of activations;
  }

  unfoldable pub nested : Described R E → List Text
  nested d = map (λ (b : Below). b.namespace) d.below

-- The gate's answer for who asks: the scopes that a fingerprint holds a grant on.
pub record Asker (F : Type 0) : Type 0 where
  pub held_on_by : F → Text → List Text
  pub who : Option F
  pub signed_in_grants : List Text

-- The methods that are kept though the caller holds nothing.
abbrev pub keep_held : List Text → Bool → Option (Option (List Text))
keep_held [] open_to = if open_to then some none else none
keep_held (s ∷ ss) open_to = some (some (s ∷ ss))

-- Whether the path is the child's, or the child is below it.
unfoldable pub is_below : (path : Text) → Below → Bool
unfolding strip_prefix
is_below path b =
    b.namespace == path || not (is_none (strip_prefix (path ++ codes ".") b.namespace))

module _ {F : Type 0} where
  abbrev pub keep_for :
      Asker F → Option F → (grant : Text) → (public : Bool) → Option (Option (List Text))
  keep_for asker none grant public = if public then some none else none
  keep_for asker (some f) grant public =
      keep_held (asker.held_on_by f grant) (public || any (λ g. g == grant) asker.signed_in_grants)

  unfoldable pub keep : Asker F → (grant : Text) → (public : Bool) → Option (Option (List Text))
  keep asker grant public = keep_for asker asker.who grant public

  unfoldable pub any_kept : Asker F → List (Text × Bool) → Bool
  unfolding keep
  any_kept asker [] = false
  any_kept asker ((grant, public) ∷ gs) =
      not (is_none (keep asker grant public)) || any_kept asker gs

  unfoldable pub reached_in : Asker F → (path : Text) → List Below → Bool
  unfolding is_below any_kept
  reached_in asker path [] = false
  reached_in asker path (b ∷ bs) =
      (is_below path b && any_kept asker b.grants) || reached_in asker path bs

  unfoldable pub reaches_below : Asker F → (path : Text) → List Below → Option Bool
  unfolding is_below reached_in
  reaches_below asker path children =
      if any (is_below path) children then some (reached_in asker path children) else none
