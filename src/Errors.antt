-- ===== src/Errors.antt =====
-- The service's errors (src/plexus/plexus.rs, `PlexusError`) and the wire's
-- (`plexus_client::RemoteError`, as src/plexus/types.rs matches it), and the codes of both.
-- A `Grant`, `Scope`, `RoleName` or `ScopeRef` is its text (`as_str`).
pub mod Agree
mod Tests
use plexus_core.Base.{ℕ, Text, codes, Option, none, some, List, ◌≡◌, ◌⊎◌, inl, inr, refl, arith}

-- `i32`: `negsuc n` is -(n + 1).
pub data ℤ : Type 0 where
  pos : ℕ → ℤ
  negsuc : ℕ → ℤ

pub data ParamProblem : Type 0 where
  missing : ParamProblem
  malformed : (detail : Text) → ParamProblem

pub data TransportErrorKind : Type 0 where
  connection_refused : (host : Text) (port : ℕ) → TransportErrorKind
  connection_timeout : (host : Text) (port : ℕ) → TransportErrorKind
  protocol_error : (message : Text) → TransportErrorKind
  network_error : (message : Text) → TransportErrorKind

pub data AuthzDenyReason : Type 0 where
  missing_scope : (scope : Text) → AuthzDenyReason
  tenant_boundary : AuthzDenyReason
  not_accepted : AuthzDenyReason
  missing_grant : (grant scope : Text) (roles held_on : List Text) → AuthzDenyReason

pub data PlexusError : Type 0 where
  activation_not_found : (name : Text) → PlexusError
  method_not_found : (activation method : Text) → PlexusError
  invalid_params : (param : Option Text) (problem : ParamProblem) → PlexusError
  execution_error : (message : Text) → PlexusError
  handle_not_supported : (activation : Text) → PlexusError
  transport_error : TransportErrorKind → PlexusError
  unauthenticated : (message : Text) → PlexusError
  forbidden : (reason : AuthzDenyReason) → PlexusError

-- A `Result<T, PlexusError>`, and the gates' results.
pub data Result {ℓ κ} (E : Type ℓ) (A : Type κ) : Type (ℓ ⊔ κ) where
  ok : A → Result E A
  err : E → Result E A

-- `?`: what follows sees the value, or nothing is done.
abbrev pub ◌>>=◌ {ℓ κ μ} :
    {E : Type ℓ} {T : Type κ} {U : Type μ} (m : Result E T) (next : T → Result E U) → Result E U
err e >>= next = err e
ok x >>= next = next x

abbrev pub ◌>>◌ {ℓ μ} :
    {E : Type ℓ} {U : Type μ} (m : Result E (Unit {0})) (n : Result E U) → Result E U
m >> n = m >>= λ _. n

infixl 5 ◌>>=◌ ◌>>◌
abbrev pub map_err {ℓ κ μ} :
    {E : Type ℓ} {F : Type κ} {A : Type μ} → (E → F) → Result E A → Result F A
map_err f (ok a) = ok a
map_err f (err e) = err (f e)

-- PlexusError::invalid_params and PlexusError::malformed_param
abbrev pub invalid_params_error : Text → PlexusError
invalid_params_error detail = invalid_params none (malformed detail)

abbrev pub malformed_param : Text → Text → PlexusError
malformed_param param detail = invalid_params (some param) (malformed detail)

-- The wire's vocabulary.
pub data DenyReason : Type 0 where
  missing_scope : (scope : Text) → DenyReason
  tenant_boundary : DenyReason
  not_accepted : DenyReason
  missing_grant : (grant scope : Text) (roles held_on : List Text) → DenyReason

pub data RemoteError : Type 0 where
  activation_not_found : (activation : Text) → RemoteError
  method_not_found : (activation method : Text) → RemoteError
  invalid_params : (param : Option Text) (problem : ParamProblem) → RemoteError
  execution : (message : Text) → RemoteError
  handle_not_supported : (activation : Text) → RemoteError
  unauthenticated : RemoteError
  forbidden : (reason : DenyReason) → RemoteError
  too_many_calls : (max : ℕ) (child : Option Text) → RemoteError
  child_unavailable : (child reason : Text) → RemoteError
  child_timeout : (child : Text) (timeout_ms : ℕ) → RemoteError
  other : (kind : Text) → RemoteError

deny_reason : AuthzDenyReason → DenyReason
deny_reason (AuthzDenyReason.missing_scope scope) = DenyReason.missing_scope scope
deny_reason AuthzDenyReason.tenant_boundary = DenyReason.tenant_boundary
deny_reason AuthzDenyReason.not_accepted = DenyReason.not_accepted
deny_reason (AuthzDenyReason.missing_grant grant scope roles held_on) =
    DenyReason.missing_grant grant scope roles held_on

-- impl From<&PlexusError> for RemoteError; `show_kind` is `TransportErrorKind`'s `Display`.
unfoldable pub remote_error : (TransportErrorKind → Text) → PlexusError → RemoteError
unfolding deny_reason
remote_error show_kind (PlexusError.activation_not_found name) =
    RemoteError.activation_not_found name
remote_error show_kind (PlexusError.method_not_found activation method) =
    RemoteError.method_not_found activation method
remote_error show_kind (PlexusError.invalid_params param problem) =
    RemoteError.invalid_params param problem
remote_error show_kind (PlexusError.execution_error message) = RemoteError.execution message
remote_error show_kind (PlexusError.handle_not_supported activation) =
    RemoteError.handle_not_supported activation
remote_error show_kind (PlexusError.transport_error kind) = RemoteError.execution (show_kind kind)
remote_error show_kind (PlexusError.unauthenticated _) = RemoteError.unauthenticated
remote_error show_kind (PlexusError.forbidden reason) = RemoteError.forbidden (deny_reason reason)

-- The JSON-RPC code of a rejection: -32001, -32003, -32602, -32601, -32000.
unfoldable pub plexus_error_code : PlexusError → ℤ
plexus_error_code (PlexusError.unauthenticated _) = negsuc 32000
plexus_error_code (PlexusError.forbidden _) = negsuc 32002
plexus_error_code (PlexusError.invalid_params _ _) = negsuc 32601
plexus_error_code (PlexusError.method_not_found _ _) = negsuc 32600
plexus_error_code (PlexusError.activation_not_found _) = negsuc 32600
plexus_error_code _ = negsuc 31999

-- The code that an error frame carries; `kind` is `RemoteError::kind` of plexus_client.
unfoldable pub spec_code : (RemoteError → Text) → RemoteError → Text
spec_code kind (RemoteError.activation_not_found _) = codes "-32601"
spec_code kind (RemoteError.method_not_found _ _) = codes "-32601"
spec_code kind (RemoteError.invalid_params _ _) = codes "-32602"
spec_code kind RemoteError.unauthenticated = codes "-32001"
spec_code kind (RemoteError.forbidden _) = codes "-32003"
spec_code kind (RemoteError.handle_not_supported _) = codes "-32000"
spec_code kind (RemoteError.execution _) = codes "-32000"
spec_code kind e = kind e

-- Inversion of a successful bind.
pub >>=-eq-ok {ℓ κ μ} :
    {E : Type ℓ} {T : Type κ} {U : Type μ} {y : U} (m : Result E T) (next : T → Result E U)
    → (m >>= next) ≡ ok y
    → (x : T) × (m ≡ ok x) × (next x ≡ ok y)
>>=-eq-ok (err e) next refused = cc
>>=-eq-ok (ok x) next h = (x, refl, h)

pub map_err-eq-ok {ℓ κ μ} :
    {E : Type ℓ} {F : Type κ} {A : Type μ} (f : E → F) (m : Result E A) {a : A}
    → map_err f m ≡ ok a
    → m ≡ ok a
map_err-eq-ok f (ok a) h = ground arith
map_err-eq-ok f (err e) h = cc

pub Result-cases {ℓ κ} :
    {E : Type ℓ} {A : Type κ} (r : Result E A) → ((a : A) × (r ≡ ok a)) ⊎ ((e : E) × (r ≡ err e))
Result-cases (ok a) = inl (a, refl)
Result-cases (err e) = inr (e, refl)
