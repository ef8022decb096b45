-- ===== src/Routing.antt =====
-- A router's hand-over of a call to its child (`route_to_child`, src/plexus/plexus.rs), and the
-- registry of activations. What plexus-auth-core does is a parameter: the default policy, the
-- anonymous context, the context derived for a callee, and the path grammar; so is the child's
-- own routing, and a call's context (`for_child` of src/call.rs).
pub mod Laws
pub mod Alike
pub mod Plugins
mod Tests
use plexus_core.Base.{Text, codes, Bool, Option, none, some, ◌++◌, if◌then◌else◌}
use plexus_core.Base.Texts.{split_once}
use plexus_core.Errors.{PlexusError, Result, ok, err}

-- ForwardDerivation: what of the caller a callee keeps.
pub record ForwardDerivation : Type 0 where
  pub keep_verified_user : Bool
  pub keep_roles : Bool
  pub keep_capabilities : Bool
  pub keep_metadata : Bool

pub record CallSite : Type 0 where
  pub caller : Text
  pub callee_method : Text

abbrev pub ForwardPolicy : Type 0 → Type 0
ForwardPolicy A = A → CallSite → ForwardDerivation

pub record Forwarding (A X : Type 0) : Type 0 where
  pub identity_only : ForwardPolicy A
  pub anonymous : A
  pub callee_context : A → ForwardDerivation → (caller : Text) → A
  pub path_error : Text → Option Text
  pub for_child : X → Option A → (keeps_identity : Bool) → X

-- The child's `router_call`, in the call's context, where there is one.
abbrev pub ChildRouter : (A X V R : Type 0) → Type 0
ChildRouter A X V R = Option X → Text → V → Option A → Result PlexusError R

pub record Router (A X V R : Type 0) : Type 0 where
  pub namespace : Text
  pub principal : Text
  pub get_child : Text → Option (ChildRouter A X V R)
  pub forward_policy_for : Text → Option (ForwardPolicy A)

abbrev pub map_option {ℓ κ} : {T : Type ℓ} {U : Type κ} → (T → U) → Option T → Option U
map_option f none = none
map_option f (some x) = some (f x)

abbrev pub or_default {ℓ} : {T : Type ℓ} → T → Option T → T
or_default d none = d
or_default d (some x) = x

module _ {A X V R : Type 0} (fw : Forwarding A X) (parent : Router A X V R) where
  abbrev pub policy_of : Text → ForwardPolicy A
  policy_of name = or_default fw.identity_only (parent.forward_policy_for name)

  abbrev pub call_site : (name rest : Text) → CallSite
  call_site name rest = record {
    caller = parent.principal;
    callee_method = name ++ (codes "." ++ rest);
  }

  -- The policy reads the caller, or the anonymous context where there is none.
  abbrev pub derivation_of : (name rest : Text) → Option A → ForwardDerivation
  derivation_of name rest auth = policy_of name (or_default fw.anonymous auth) (call_site name rest)

  abbrev pub callee_of : (name rest : Text) → Option A → Option A
  callee_of name rest auth =
      map_option (λ a. fw.callee_context a (derivation_of name rest auth) parent.principal) auth

  abbrev pub call_child :
      ChildRouter A X V R → (name rest : Text) → V → Option A → Option X → Result PlexusError R
  call_child child name rest params auth ctx = elim (fw.path_error (name ++ (codes "." ++ rest))) [
    | some message ↦ err (PlexusError.execution_error message)
    | none ↦
        child
          (map_option
            (λ x.
              fw.for_child x (callee_of name rest auth)
                (derivation_of name rest auth).keep_verified_user)
            ctx)
          rest params (callee_of name rest auth)
  ]

  abbrev pub call_found :
      Option (ChildRouter A X V R)
      → (name rest : Text) → V
      → Option A
      → Option X
      → Result PlexusError R
  call_found none name rest params auth ctx = err (PlexusError.activation_not_found name)
  call_found (some child) name rest params auth ctx = call_child child name rest params auth ctx

  abbrev pub route_found :
      (method : Text) → Option (Text × Text) → V → Option A → Option X → Result PlexusError R
  route_found method none params auth ctx =
      err (PlexusError.method_not_found parent.namespace method)
  route_found method (some (name, rest)) params auth ctx =
      call_found (parent.get_child name) name rest params auth ctx

  unfoldable pub route_to_child : Text → V → Option A → Option X → Result PlexusError R
  unfolding split_once
  route_to_child method params auth ctx =
      route_found method (split_once (codes ".") method) params auth ctx
