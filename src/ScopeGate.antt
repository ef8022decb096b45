-- ===== src/ScopeGate.antt =====
-- The scope gate of a dispatch (src/plexus/scope_gate.rs). The hub's `ScopeRegistry` and the path
-- grammar of plexus-auth-core are parameters. A panic of the audit sink is caught, and changes no
-- decision; the record's time, latency, address and random id are not modelled.
pub mod Laws
mod Tests
use plexus_core.Base.{
  Text, codes, Bool, true, false, not, ◌&&◌, ◌||◌, Option, none, some, List, [], ◌∷◌, ◌++◌,
  if◌then◌else◌, ◌==◌, text_eq, any, length,
}
use plexus_core.Errors.{PlexusError, Result, ok, err, AuthzDenyReason}
use plexus_core.Auth.{AuthOps}
use plexus_core.GrantGate.{MethodGateInfo}

-- MethodPath::try_new, ScopeRegistry and Scope::matches
pub record ScopeOps : Type 0 where
  pub is_path : Text → Bool
  pub is_public : Text → Bool
  pub required_scopes_for : Text → List Text
  pub effective_scopes : List Text → List Text
  pub matches : (held required : Text) → Bool

-- The schema's facts that `from_schema` reads.
pub record MethodSchema : Type 0 where
  pub public : Bool
  pub requires_credential : Option (List Text)
  pub grant : Option Text
  pub target : Option Text

abbrev pub or_empty : Option (List Text) → List Text
or_empty none = []
or_empty (some ts) = ts

unfoldable pub from_schema : MethodSchema → MethodGateInfo
from_schema s = record {
  public = s.public;
  scopes = or_empty s.requires_credential;
  grant = s.grant;
  target = s.target;
}

pub data AuditDenyReason : Type 0 where
  unauthenticated missing_scope : AuditDenyReason

pub data AuditDecision : Type 0 where
  allow : AuditDecision
  deny : AuditDenyReason → AuditDecision

pub record AuditRecord : Type 0 where
  pub originator : Option Text
  pub session_id : Option Text
  pub roles : List Text
  pub method : Text
  pub scope_required : List Text
  pub decision : AuditDecision

abbrev pub is_empty {ℓ} : {A : Type ℓ} → List A → Bool
is_empty [] = true
is_empty (_ ∷ _) = false

-- An audit sink, where there is one: what is written to it.
abbrev pub Sink : Type 0
Sink = Option (List AuditRecord)

abbrev pub write : AuditRecord → Sink → Sink
write r none = none
write r (some rs) = some (rs ++ r ∷ [])

-- `required.iter().find(|req| !held.iter().any(|h| h.matches(req)))`
unfoldable pub find_unmet : (Text → Text → Bool) → (held required : List Text) → Option Text
find_unmet matches held [] = none
find_unmet matches held (r ∷ rs) =
    let rest = find_unmet matches held rs in if any (λ h. matches h r) held then rest else some r

-- `list == list`
abbrev pub texts_beq : List Text → List Text → Bool
texts_beq [] [] = true
texts_beq [] (_ ∷ _) = false
texts_beq (_ ∷ _) [] = false
texts_beq (x ∷ xs) (y ∷ ys) = x == y && texts_beq xs ys

module _ {A : Type 0} (ops : AuthOps A) where
  abbrev pub authenticated : Option A → Bool
  authenticated none = false
  authenticated (some a) = ops.is_authenticated a

  abbrev pub originator_of : Option A → Option Text
  originator_of none = none
  originator_of (some a) = if ops.is_authenticated a then some (ops.user_id a) else none

  abbrev pub session_of : Option A → Option Text
  session_of none = none
  session_of (some a) =
      if ops.is_authenticated a
      then (if is_empty (ops.session_id a) then none else some (ops.session_id a))
      else none

  abbrev pub roles_of : Option A → List Text
  roles_of none = []
  roles_of (some a) = ops.roles a

  unfoldable pub emit :
      (method : Text) → Option A → (required : List Text) → AuditDecision → Sink → Sink
  emit method auth required decision sink =
      write
        (record {
          originator = originator_of auth;
          session_id = session_of auth;
          roles = roles_of auth;
          method = method;
          scope_required = required;
          decision = decision;
        })
        sink

abbrev pub is_ok : Result PlexusError (Unit {0}) → Bool
is_ok (ok _) = true
is_ok (err _) = false

abbrev pub schema_public : Option MethodGateInfo → Bool
schema_public none = false
schema_public (some i) = i.public

abbrev pub schema_scopes : Option MethodGateInfo → List Text
schema_scopes none = []
schema_scopes (some i) = i.scopes

module _ (scopes : ScopeOps) where
  -- What a method asks for: the deployment's overlay, else what its schema declares, else its own
  -- path, where the service denies by default.
  unfoldable pub requirement : Bool → Text → Option MethodGateInfo → Option (List Text)
  requirement default_deny path info =
      if not (texts_beq (scopes.required_scopes_for path) (path ∷ []))
      then some (scopes.required_scopes_for path)
      else if not (is_empty (schema_scopes info))
      then some (schema_scopes info)
      else if default_deny
      then some (path ∷ [])
      else none

module _ {A : Type 0} (ops : AuthOps A) (scopes : ScopeOps) where
  -- Layer 2.
  abbrev pub authorize :
      Text
      → Option A
      → (required : List Text) → Option Text
      → Sink
      → Sink × Result PlexusError (Unit {0})
  authorize path auth required none sink =
      (emit ops path auth required AuditDecision.allow sink, ok tt)
  authorize path auth required (some scope) sink = (
    emit ops path auth required (AuditDecision.deny AuditDenyReason.missing_scope) sink,
    err (PlexusError.forbidden (AuthzDenyReason.missing_scope scope)),
  )

  abbrev pub check_required :
      Text → Option A → Option (List Text) → Sink → Sink × Result PlexusError (Unit {0})
  check_required path auth none sink = (sink, ok tt)
  check_required path auth (some required) sink =
      if not (authenticated ops auth)
      then (
        emit ops path auth required (AuditDecision.deny AuditDenyReason.unauthenticated) sink,
        err (
            PlexusError.unauthenticated
              (codes "method '" ++ (path ++ codes "' requires authentication"))),
      )
      else authorize path auth required
          (find_unmet scopes.matches (scopes.effective_scopes (roles_of ops auth)) required) sink

  unfoldable pub decide :
      (default_deny : Bool)
      → Text
      → Option MethodGateInfo
      → Option A
      → Sink
      → Sink × Result PlexusError (Unit {0})
  unfolding emit requirement find_unmet
  decide default_deny path info auth sink =
      if not (scopes.is_path path)
      then (if default_deny
          then (sink, err (PlexusError.forbidden (AuthzDenyReason.missing_scope path)))
          else (sink, ok tt))
      else if schema_public info || scopes.is_public path
      then (emit ops path auth [] AuditDecision.allow sink, ok tt)
      else check_required path auth (requirement scopes default_deny path info) sink

  -- `enforce` writes to its sink, `answers` to none.
  unfoldable pub enforce :
      (default_deny : Bool)
      → Text
      → Option MethodGateInfo
      → Option A
      → List AuditRecord
      → Sink × Result PlexusError (Unit {0})
  unfolding decide
  enforce default_deny path info auth records = decide default_deny path info auth (some records)

  unfoldable pub answers : (default_deny : Bool) → Text → Option MethodGateInfo → Option A → Bool
  unfolding decide
  answers default_deny path info auth = is_ok (decide default_deny path info auth none).1
