-- ===== src/GrantGate.antt =====
-- The grant gate of a dispatch (src/plexus/grant_gate.rs), over the schema facts of
-- `MethodGateInfo` (src/plexus/scope_gate.rs).
pub mod Laws
pub mod Targets
mod Tests
use plexus_core.Base.{
  Text, codes, Bool, true, false, ◌&&◌, ◌||◌, Option, none, some, List, [], ◌∷◌, ◌++◌,
  if◌then◌else◌, ◌==◌, text_eq, any,
}
use plexus_core.Base.Texts.{split_once, ends_with}
use plexus_core.Errors.{
  PlexusError, Result, ok, err, ◌>>=◌, ◌>>◌, map_err, AuthzDenyReason, invalid_params_error,
  malformed_param,
}
use plexus_core.Auth.{AuthOps, Gate, Refusal}
use plexus_core.Json.{Value, Items, get}

pub record MethodGateInfo : Type 0 where
  pub public : Bool
  pub scopes : List Text
  pub grant : Option Text
  pub target : Option Text

pub data Admit (Reach : Type 0) : Type 0 where
  reach : Reach → Admit Reach
  open_ : Admit Reach

-- impl From<Refusal> for PlexusError
unfoldable pub from_refusal : Refusal → PlexusError
from_refusal Refusal.unauthenticated =
    PlexusError.unauthenticated (codes "sign in first: this method is not public")
from_refusal (Refusal.missing_grant grant scope roles held_on) =
    PlexusError.forbidden (AuthzDenyReason.missing_grant grant scope roles held_on)
from_refusal (Refusal.ended reason) = PlexusError.unauthenticated reason

-- The closure `one` of target_values.
abbrev pub target_value : Value → Option Text
target_value (Value.string s) = some s
target_value (Value.number n) = some n
target_value (Value.bool true) = some (codes "true")
target_value (Value.bool false) = some (codes "false")
target_value _ = none

abbrev pub unreadable : Text → PlexusError
unreadable param =
    malformed_param param (codes "names what this call acts on: a string, or a list of strings")

abbrev pub each_target : Text → Items → Result PlexusError (List Text)
each_target param Items.nil = ok []
each_target param (Items.cons v vs) = elim (target_value v) [
  | none ↦ err (unreadable param)
  | some t ↦ each_target param vs >>= λ ts. ok (t ∷ ts)
]

abbrev pub one_target : Text → Value → Result PlexusError (Option (List Text))
one_target param v = elim (target_value v) [
  | none ↦ err (unreadable param)
  | some t ↦ ok (some (t ∷ []))
]

abbrev pub targets_of : Text → Option Value → Result PlexusError (Option (List Text))
targets_of param none = ok none
targets_of param (some Value.null) = ok none
targets_of param (some (Value.array vs)) = each_target param vs >>= λ ts. ok (some ts)
targets_of param (some v) = one_target param v

unfoldable pub target_values : Value → Text → Result PlexusError (Option (List Text))
unfolding get
target_values params param = targets_of param (get param params)

unfoldable pub params_shape : Value → Result PlexusError (Unit {0})
params_shape (Value.object _) = ok tt
params_shape Value.null = ok tt
params_shape _ = err (
    invalid_params_error (
      codes
        "params must be an object naming each parameter, e.g. {\"id\": \"…\"}: a gated method takes no bare value"))

-- `full_path.split_once('.').unwrap_or((full_path, ""))`
abbrev pub or_whole : Text → Option (Text × Text) → Text × Text
or_whole path none = (path, [])
or_whole path (some parts) = parts

unfoldable pub is_introspection : (service_ns full_path : Text) → Bool
unfolding split_once ends_with
is_introspection service_ns full_path =
    let (ns, method) = or_whole full_path (split_once (codes ".") full_path) in
    method == codes "schema"
    || ends_with (codes ".schema") method
    || (ns == service_ns
        && (method == codes "hash" || (method == codes "hashes" || method == codes "ir")))

abbrev pub grant_of : Option MethodGateInfo → Text → Text
grant_of none path = path
grant_of (some info) path = elim info.grant [ none ↦ path | some g ↦ g ]

abbrev pub is_public : Option MethodGateInfo → Bool
is_public none = false
is_public (some info) = info.public

abbrev pub target_param : Option MethodGateInfo → Option Text
target_param none = none
target_param (some info) = info.target

abbrev pub contains : Text → List Text → Bool
contains t ts = any (λ x. x == t) ts

abbrev pub targets_in : Value → Option Text → Result PlexusError (Option (List Text))
targets_in params none = ok none
targets_in params (some param) = target_values params param

module _ {A Reach : Type 0} (gate : Gate A Reach) where
  -- The caller whose sign-in still stands, and why it does not.
  abbrev pub standing_of : A → Result Text (Unit {0}) → Option A × Option Text
  standing_of a (ok _) = (some a, none)
  standing_of a (err reason) = (none, some reason)

  unfoldable pub standing : Option A → Option A × Option Text
  standing none = (none, none)
  standing (some a) = standing_of a (gate.alive a)

  abbrev pub gate_check : Option A → Text → Option Text → Result PlexusError Reach
  gate_check auth grant target = map_err from_refusal (gate.check auth grant target)

  -- The loop over the targets: each is checked, the last reach is kept.
  abbrev pub check_targets : Option A → Text → Text → List Text → Result PlexusError Reach
  check_targets auth grant v [] = gate_check auth grant (some v)
  check_targets auth grant v (w ∷ ws) =
      gate_check auth grant (some v) >>= λ _. check_targets auth grant w ws

  abbrev pub check_all : Option A → Text → Option (List Text) → Result PlexusError Reach
  check_all auth grant none = gate_check auth grant none
  check_all auth grant (some []) = gate_check auth grant none
  check_all auth grant (some (v ∷ vs)) = check_targets auth grant v vs

module _ {A Reach : Type 0} (ops : AuthOps A) (gate : Gate A Reach) where
  abbrev pub principal_of : Option A → Option Text
  principal_of none = none
  principal_of (some a) = ops.principal a

  -- A grant that every signed-in caller has: no role is asked for, an identity is.
  abbrev pub signed_in : Option A → Text → Result PlexusError (Admit Reach)
  signed_in auth grant = elim (principal_of auth) [
    | none ↦ err (from_refusal Refusal.unauthenticated)
    | some _ ↦ ok (reach (gate.reach_of_public auth grant))
  ]

  unfoldable pub decide :
      (service_ns full_path : Text)
      → Option MethodGateInfo
      → Value
      → Option A
      → List Text
      → Result PlexusError (Admit Reach)
  unfolding params_shape is_introspection target_values from_refusal
  decide service_ns full_path info params auth signed_in_grants =
      params_shape params
      >> (if is_introspection service_ns full_path
          then ok open_
          else if is_public info
          then ok (reach (gate.reach_of_public auth (grant_of info full_path)))
          else if contains (grant_of info full_path) signed_in_grants
          then signed_in auth (grant_of info full_path)
          else (targets_in params (target_param info) >>= λ targets.
              check_all gate auth (grant_of info full_path) targets >>= λ r. ok (reach r)))

-- What ended the sign-in is what an unauthenticated caller reads.
unfoldable pub say_ended : PlexusError → Option Text → PlexusError
say_ended (PlexusError.unauthenticated _) (some reason) = PlexusError.unauthenticated reason
say_ended e _ = e
